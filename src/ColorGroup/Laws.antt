-- ===== src/ColorGroup/Laws.antt =====
-- The group that is found is the first of the least priority among those that match.
use seat_service.Common.{
  ◌≡◌, refl, subst, sym, ◌∙◌, ap, ℕ, ◌≤◌, Bool, true, false, none, some, List, [], ◌∷◌, String, ◌⊎◌,
  inl, inr, Has, find?, arith, Bool-cases, Option-cases, ==_self, false≢true,
}
use seat_service.ColorGroup.{SeatColorGroup, sort, match_groups}
use seat_service.ColorGroup.Sorted.{
  is_match, is_match_at, first_match-find?, find?-sort, IsAtLeast, IsSorted, sort-IsSorted,
  Has-sort,
}

value : {a b : SeatColorGroup} → some a ≡ some b → a ≡ b
value e = cc

-- What is found in a sorted list: the first match, which has the least priority.
found_at :
    (selected : List String) (hs : List SeatColorGroup) (g : SeatColorGroup)
    → find? (is_match selected) hs ≡ some g
    → find? (is_match_at selected g.priority) hs ≡ some g
found_at selected [] g e = cc
found_at selected (h ∷ hs) g e = elim (Bool-cases (is_match selected h)) [
  | inl hit ↦
      let same : h ≡ g = value (rw hit at e) in
      subst (λ i. find? (is_match_at selected i.priority) (h ∷ hs) ≡ some i) same
        (rw hit (rw (==_self h.priority) refl))
  | inr miss ↦ rw miss (found_at selected hs g (rw miss at e))
]

IsAtLeast-Has :
    (n : ℕ) (gs : List SeatColorGroup) (g : SeatColorGroup)
    → IsAtLeast n gs
    → Has g gs
    → n ≤ g.priority
IsAtLeast-Has n [] g k m = absurd m
IsAtLeast-Has n (h ∷ gs) g (k, ks) (inl e) = subst (λ i. n ≤ i.priority) (sym e) k
IsAtLeast-Has n (h ∷ gs) g (k, ks) (inr m) = IsAtLeast-Has n gs g ks m

find?-Has :
    (p : SeatColorGroup → Bool) (gs : List SeatColorGroup) (g : SeatColorGroup)
    → find? p gs ≡ some g
    → Has g gs × (p g ≡ true)
find?-Has p [] g e = cc
find?-Has p (h ∷ gs) g e = elim (Bool-cases (p h)) [
  | inl hit ↦ let same : h ≡ g = value (rw hit at e) in (inl (sym same), ap p (sym same) ∙ hit)
  | inr miss ↦ let (m, k) = find?-Has p gs g (rw miss at e) in (inr m, k)
]

find?-none :
    (p : SeatColorGroup → Bool) (gs : List SeatColorGroup) (g : SeatColorGroup)
    → find? p gs ≡ none
    → Has g gs
    → p g ≡ false
find?-none p [] g e m = absurd m
find?-none p (h ∷ gs) g e m = elim (Bool-cases (p h)) [
  | inl hit ↦ absurd (found (rw hit at e))
  | inr miss ↦ rest (find?-none p gs g (rw miss at e)) miss m
]
  where
    found : some h ≡ none → ⊥
    found e = cc

    rest : (Has g gs → p g ≡ false) → p h ≡ false → Has g (h ∷ gs) → p g ≡ false
    rest r miss (inl e) = ap p e ∙ miss
    rest r miss (inr n) = r n

found_least :
    (selected : List String) (hs : List SeatColorGroup) (g h : SeatColorGroup)
    → IsSorted hs
    → find? (is_match selected) hs ≡ some g
    → Has h hs
    → is_match selected h ≡ true
    → g.priority ≤ h.priority
found_least selected [] g h s e m hit = absurd m
found_least selected (k ∷ hs) g h (least, s) e m hit = elim (Bool-cases (is_match selected k)) [
  | inl now ↦
      let same : k ≡ g = value (rw now at e) in
      subst (λ i. i.priority ≤ h.priority) same (from_head m)
  | inr miss ↦ from_tail miss (found_least selected hs g h s (rw miss at e)) m
]
  where
    from_head : Has h (k ∷ hs) → k.priority ≤ h.priority
    from_head (inl e) = subst (λ i. k.priority ≤ i.priority) (sym e) (omega arith)
    from_head (inr n) = IsAtLeast-Has k.priority hs h least n

    from_tail :
        is_match selected k ≡ false
        → (Has h hs → is_match selected h ≡ true → g.priority ≤ h.priority)
        → Has h (k ∷ hs)
        → g.priority ≤ h.priority
    from_tail miss rest (inl e) =
        absurd (false≢true (sym miss ∙ ap (is_match selected) (sym e) ∙ hit))
    from_tail miss rest (inr n) = rest n hit

-- The group that is matched is one of the event's that is not orphaned and fits the selection; none
-- that does so has a lower priority, and none of its priority stands before it. No group is matched
-- only if none fits.
pub match_groups_least :
    (groups : List SeatColorGroup) (selected : List String)
    → ((match_groups (some groups) selected ≡ none)
        × ((h : SeatColorGroup) → Has h groups → is_match selected h ≡ false))
      ⊎ ((g : SeatColorGroup) × (match_groups (some groups) selected ≡ some g)
          × Has g groups
          × (is_match selected g ≡ true)
          × ((h : SeatColorGroup)
              → Has h groups
              → is_match selected h ≡ true
              → g.priority ≤ h.priority)
          × (find? (is_match_at selected g.priority) groups ≡ some g))
unfolding match_groups
match_groups_least groups selected =
    let loop = first_match-find? selected (sort groups) in
    elim (Option-cases (find? (is_match selected) (sort groups))) [
      | inl gone ↦ inl (
        loop ∙ gone,
        λ h m. find?-none (is_match selected) (sort groups) h gone (Has-sort h groups m),
      )
      | inr (g, found) ↦
          let first =
            sym (find?-sort selected g.priority groups) ∙ found_at selected (sort groups) g found in
          inr (
            g,
            loop ∙ found,
            (find?-Has (is_match_at selected g.priority) groups g first).0,
            (find?-Has (is_match selected) (sort groups) g found).1,
            (λ h m hit.
                found_least selected (sort groups) g h (sort-IsSorted groups) found
                  (Has-sort h groups m) hit),
            first,
          )
    ]
