-- ===== src/ColorGroup/Sorted.antt =====
-- The sorted groups: their order, their members, and the first match of each priority among them.
use seat_service.Common.{
  ◌≡◌, refl, ◌∙◌, ap, ℕ, ◌≤◌, Bool, ◌&&◌, not, some, List, [], ◌∷◌, String, inl, inr, Has, find?,
  leb, ◌==◌, if◌then◌else◌, arith, Bool-cases,
}
use seat_service.ColorGroup.{SeatColorGroup, is_selected, insert, sort, first_match}

-- A group that is not orphaned and matches the selection.
abbrev pub is_match : List String → SeatColorGroup → Bool
is_match selected g = not g.is_orphaned && is_selected selected g.match_type g.invited_by_values

-- A matching group of a priority.
abbrev pub is_match_at : List String → ℕ → SeatColorGroup → Bool
is_match_at selected priority g = is_match selected g && g.priority == priority

pub first_match-find? :
    (selected : List String) (gs : List SeatColorGroup)
    → first_match selected gs ≡ find? (is_match selected) gs
unfolding first_match
first_match-find? selected [] = refl
first_match-find? selected (g ∷ gs) = let ih = first_match-find? selected gs in ground (arith, ih)

find?-insert :
    (selected : List String) (n : ℕ) (g : SeatColorGroup) (hs : List SeatColorGroup)
    → find? (is_match_at selected n) (insert g hs)
      ≡ (if is_match_at selected n g then some g else find? (is_match_at selected n) hs)
find?-insert selected n g [] = refl
find?-insert selected n g (h ∷ hs) = let ih = find?-insert selected n g hs in ground (arith, ih)

pub find?-sort :
    (selected : List String) (n : ℕ) (gs : List SeatColorGroup)
    → find? (is_match_at selected n) (sort gs) ≡ find? (is_match_at selected n) gs
find?-sort selected n [] = refl
find?-sort selected n (g ∷ gs) =
    find?-insert selected n g (sort gs)
    ∙ ap (λ o. if is_match_at selected n g then some g else o) (find?-sort selected n gs)

abbrev pub IsAtLeast : ℕ → List SeatColorGroup → Type 0
IsAtLeast n [] = Unit
IsAtLeast n (g ∷ gs) = (n ≤ g.priority) × IsAtLeast n gs

abbrev pub IsSorted : List SeatColorGroup → Type 0
IsSorted [] = Unit
IsSorted (g ∷ gs) = IsAtLeast g.priority gs × IsSorted gs

IsAtLeast-le : (m n : ℕ) (gs : List SeatColorGroup) → m ≤ n → IsAtLeast n gs → IsAtLeast m gs
IsAtLeast-le m n [] h k = tt
IsAtLeast-le m n (g ∷ gs) h (k, ks) = (omega (arith, h, k), IsAtLeast-le m n gs h ks)

insert-IsAtLeast :
    (n : ℕ) (g : SeatColorGroup) (hs : List SeatColorGroup)
    → n ≤ g.priority
    → IsAtLeast n hs
    → IsAtLeast n (insert g hs)
insert-IsAtLeast n g [] le k = (le, tt)
insert-IsAtLeast n g (h ∷ hs) le (k, ks) = elim (Bool-cases (leb g.priority h.priority)) [
  | inl e ↦ rw e (le, (k, ks))
  | inr e ↦ rw e (k, insert-IsAtLeast n g hs le ks)
]

insert-IsSorted :
    (g : SeatColorGroup) (hs : List SeatColorGroup) → IsSorted hs → IsSorted (insert g hs)
insert-IsSorted g [] s = (tt, tt)
insert-IsSorted g (h ∷ hs) (k, s) = elim (Bool-cases (leb g.priority h.priority)) [
  | inl e ↦
      let le : g.priority ≤ h.priority = ground (arith, e) in
      rw e ((le, IsAtLeast-le g.priority h.priority hs le k), (k, s))
  | inr e ↦ rw e (insert-IsAtLeast h.priority g hs (ground (arith, e)) k, insert-IsSorted g hs s)
]

pub sort-IsSorted : (gs : List SeatColorGroup) → IsSorted (sort gs)
sort-IsSorted [] = tt
sort-IsSorted (g ∷ gs) = insert-IsSorted g (sort gs) (sort-IsSorted gs)

Has-insert :
    (g h : SeatColorGroup) (hs : List SeatColorGroup) → Has h (g ∷ hs) → Has h (insert g hs)
Has-insert g h [] m = m
Has-insert g h (k ∷ hs) m = elim (Bool-cases (leb g.priority k.priority)) [
  | inl e ↦ rw e m
  | inr e ↦ rw e (swap m (Has-insert g h hs))
]
  where
    swap : Has h (g ∷ k ∷ hs) → (Has h (g ∷ hs) → Has h (insert g hs)) → Has h (k ∷ insert g hs)
    swap (inl e) rest = inr (rest (inl e))
    swap (inr (inl e)) rest = inl e
    swap (inr (inr n)) rest = inr (rest (inr n))

pub Has-sort : (h : SeatColorGroup) (gs : List SeatColorGroup) → Has h gs → Has h (sort gs)
Has-sort h [] m = m
Has-sort h (g ∷ gs) (inl e) = Has-insert g h (sort gs) (inl e)
Has-sort h (g ∷ gs) (inr m) = Has-insert g h (sort gs) (inr (Has-sort h gs m))
