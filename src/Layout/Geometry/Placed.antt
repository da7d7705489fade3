-- ===== src/Layout/Geometry/Placed.antt =====
-- Entries placed on the rows of a table, one after the other, and entries that take them back.
use seat_service.Common.{
  ℕ, ◌≡◌, refl, sym, subst, ap, ◌∙◌, Bool, true, false, ◌&&◌, List, [], ◌∷◌, map, any, map_where,
  ◌==◌, ==→eq, Has, if◌then◌else◌, ◌⊎◌, inl, inr, arith, Bool-cases, false≢true,
}
use seat_service.Database.Keyed.{is_unique, eq_of_key}
use seat_service.Layout.Geometry.Entries.{Entry}

-- Each entry, and what takes it back.
abbrev pub Paired : (Entry → Entry → Type 0) → List Entry → List Entry → Type 0
Paired P [] [] = Unit
Paired P (e ∷ es) (b ∷ bs) = P e b × Paired P es bs
Paired P _ _ = ⊥

pub Paired-Has :
    (P : Entry → Entry → Type 0) (es bs : List Entry) (b : Entry)
    → Paired P es bs
    → Has b bs
    → (e : Entry) × Has e es × P e b
Paired-Has P (e ∷ es) (b' ∷ bs) b (h, hs) (inl q) = (e, inl refl, subst (P e) (sym q) h)
Paired-Has P (e ∷ es) (b' ∷ bs) b (h, hs) (inr m) =
    let (e', n, k) = Paired-Has P es bs b hs m in (e', inr n, k)
Paired-Has P (e ∷ es) [] b h m = absurd h
Paired-Has P [] (b' ∷ bs) b h m = absurd h
Paired-Has P [] [] b h m = absurd m

module _ {Row : Type 0} (key : Row → ℕ) (is_kind : Entry → Bool) (put : Entry → Row → Row)
    (keeps : (e : Entry) (r : Row) → key (put e r) ≡ key r) where
  abbrev pub acts : Entry → Row → Bool
  acts e r = is_kind e && key r == e.id

  -- A row after the entries.
  abbrev pub on : List Entry → Row → Row
  on [] r = r
  on (e ∷ es) r = on es (if acts e r then put e r else r)

  abbrev pub place : Entry → List Row → List Row
  place e rows = if is_kind e then map_where (λ r. key r == e.id) (put e) rows else rows

  abbrev pub place_all : List Entry → List Row → List Row
  place_all [] rows = rows
  place_all (e ∷ es) rows = place_all es (place e rows)

  place-map :
      (e : Entry) (rows : List Row) → place e rows ≡ map (λ r. if acts e r then put e r else r) rows
  place-map e [] = ground arith
  place-map e (r ∷ rows) = ground (arith, place-map e rows)

  map_id : (rows : List Row) → map (λ r. r) rows ≡ rows
  map_id [] = refl
  map_id (r ∷ rows) = ap (λ rs. r ∷ rs) (map_id rows)

  map-map : (f g : Row → Row) (rows : List Row) → map f (map g rows) ≡ map (λ r. f (g r)) rows
  map-map f g [] = refl
  map-map f g (r ∷ rows) = ap (λ rs. f (g r) ∷ rs) (map-map f g rows)

  pub place_all-map : (es : List Entry) (rows : List Row) → place_all es rows ≡ map (on es) rows
  place_all-map [] rows = sym (map_id rows)
  place_all-map (e ∷ es) rows =
      place_all-map es (place e rows)
      ∙ ap (map (on es)) (place-map e rows)
      ∙ map-map (on es) (λ r. if acts e r then put e r else r) rows

  on_absent : (es : List Entry) (r : Row) → any (λ e. acts e r) es ≡ false → on es r ≡ r
  on_absent [] r h = refl
  on_absent (e ∷ es) r h =
      let miss : acts e r ≡ false = ground (arith, h) in
      rw miss (on_absent es r (ground (arith, h)))

  no_other :
      (es : List Entry) (k : ℕ) (r : Row)
      → any (λ f. f.id == k) es ≡ false
      → key r ≡ k
      → any (λ f. acts f r) es ≡ false
  no_other [] k r h e = refl
  no_other (f ∷ es) k r h e = ground (arith, h, e, no_other es k r)

  -- At most one entry acts on a row.
  pub on_cases :
      (es : List Entry) (r : Row)
      → is_unique (λ e. e.id) es ≡ true
      → ((any (λ e. acts e r) es ≡ false) × (on es r ≡ r))
        ⊎ ((e : Entry) × Has e es × (acts e r ≡ true) × (on es r ≡ put e r))
  on_cases [] r u = inl (refl, refl)
  on_cases (e ∷ es) r u = elim (Bool-cases (acts e r)) [
    | inl hit ↦
        let k : key r ≡ e.id = ==→eq (key r) e.id (ground (arith, hit)) in
        let others = no_other es e.id (put e r) (ground (arith, u)) (keeps e r ∙ k) in
        inr (e, inl refl, hit, rw hit (on_absent es (put e r) others))
    | inr miss ↦ elim (on_cases es r (ground (arith, u))) [
      | inl (none_acts, same) ↦ inl (rw miss none_acts, rw miss same)
      | inr (f, m, hit, same) ↦ inr (f, inr m, hit, rw miss same)
    ]
  ]

  any-Has :
      (es : List Entry) (r : Row) (e : Entry)
      → Has e es
      → acts e r ≡ true
      → any (λ f. acts f r) es ≡ true
  any-Has [] r e m h = absurd m
  any-Has (f ∷ es) r e (inl q) h = rw (ap (λ i. acts i r) (sym q) ∙ h) refl
  any-Has (f ∷ es) r e (inr m) h = ground (arith, any-Has es r e m h)

  any_none :
      (es : List Entry) (r : Row) (e : Entry)
      → Has e es
      → any (λ f. acts f r) es ≡ false
      → acts e r ≡ false
  any_none es r e m h = elim (Bool-cases (acts e r)) [
    | inl hit ↦ absurd (false≢true (sym h ∙ any-Has es r e m hit))
    | inr miss ↦ miss
  ]

  -- An entry takes another back on the rows.
  abbrev pub Takes : List Row → Entry → Entry → Type 0
  Takes rows e b =
      (b.id ≡ e.id)
      × (is_kind b ≡ is_kind e)
      × ((r : Row) → Has r rows → acts e r ≡ true → put b (put e r) ≡ r)

  Paired-any :
      (rows : List Row) (es bs : List Entry) (k : ℕ)
      → Paired (Takes rows) es bs
      → any (λ b. b.id == k) bs ≡ any (λ e. e.id == k) es
  Paired-any rows [] [] k h = refl
  Paired-any rows (e ∷ es) (b ∷ bs) k ((i, j, t), h) = rw (i, Paired-any rows es bs k h) refl
  Paired-any rows (e ∷ es) [] k h = absurd h
  Paired-any rows [] (b ∷ bs) k h = absurd h

  Paired-acts :
      (rows : List Row) (es bs : List Entry) (r : Row)
      → Paired (Takes rows) es bs
      → any (λ b. acts b r) bs ≡ any (λ e. acts e r) es
  Paired-acts rows [] [] r h = refl
  Paired-acts rows (e ∷ es) (b ∷ bs) r ((i, j, t), h) = rw (j, i, Paired-acts rows es bs r h) refl
  Paired-acts rows (e ∷ es) [] r h = absurd h
  Paired-acts rows [] (b ∷ bs) r h = absurd h

  Paired-is_unique :
      (rows : List Row) (es bs : List Entry)
      → Paired (Takes rows) es bs
      → is_unique (λ b. b.id) bs ≡ is_unique (λ e. e.id) es
  Paired-is_unique rows [] [] h = refl
  Paired-is_unique rows (e ∷ es) (b ∷ bs) ((i, j, t), h) =
      rw (i, Paired-any rows es bs e.id h, Paired-is_unique rows es bs h) refl
  Paired-is_unique rows (e ∷ es) [] h = absurd h
  Paired-is_unique rows [] (b ∷ bs) h = absurd h

  on-back :
      (rows : List Row) (es bs : List Entry) (r : Row)
      → is_unique (λ e. e.id) es ≡ true
      → Paired (Takes rows) es bs
      → Has r rows
      → on bs (on es r) ≡ r
  on-back rows es bs r u h m = elim (on_cases es r u) [
    | inl (idle, same) ↦ rw same (on_absent bs r (Paired-acts rows es bs r h ∙ idle))
    | inr (e, n, hit, same) ↦
        rw same (elim (on_cases bs (put e r) (Paired-is_unique rows es bs h ∙ u)) [
          | inl (idle, _) ↦
              let off =
                any_none es (put e r) e n (sym (Paired-acts rows es bs (put e r) h) ∙ idle) in
              absurd (false≢true (sym off ∙ acts_again e hit))
          | inr (b, n', hit', same') ↦
              let (e', m', (i, j, takes)) = Paired-Has (Takes rows) es bs b h n' in
              let k : key (put e r) ≡ b.id = ==→eq (key (put e r)) b.id (ground (arith, hit')) in
              let k' : key r ≡ e.id = ==→eq (key r) e.id (ground (arith, hit)) in
              let one : e' ≡ e =
                eq_of_key (λ f. f.id) es e' e u m' n (sym i ∙ sym k ∙ keeps e r ∙ k') in
              same'
              ∙ ap (λ f. put b (put f r)) (sym one)
              ∙ takes r m (subst (λ f. acts f r ≡ true) (sym one) hit)
        ])
  ]
    where
      acts_again : (e : Entry) → acts e r ≡ true → acts e (put e r) ≡ true
      acts_again e hit = rw (keeps e r) hit

  -- The rows after entries, and after those that take them back.
  pub place_all-back :
      (es bs : List Entry) (rows : List Row)
      → is_unique (λ e. e.id) es ≡ true
      → Paired (Takes rows) es bs
      → place_all bs (place_all es rows) ≡ rows
  place_all-back es bs rows u h =
      place_all-map bs (place_all es rows)
      ∙ ap (map (on bs)) (place_all-map es rows)
      ∙ map-map (on bs) (on es) rows
      ∙ each_row rows (λ r m. on-back rows es bs r u h m)
    where
      each_row :
          (rs : List Row)
          → ((r : Row) → Has r rs → on bs (on es r) ≡ r)
          → map (λ r. on bs (on es r)) rs ≡ rs
      each_row [] k = refl
      each_row (r ∷ rs) k = rw (k r (inl refl), each_row rs (λ s m. k s (inr m))) refl
