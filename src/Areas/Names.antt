-- ===== src/Areas/Names.antt =====
-- Names that no two rows of a scope (the sections of an event, the tables of a section) share.
pub mod Update
use seat_service.Common.{
  ℕ, ◌≡◌, refl, sym, subst, ap, ◌∙◌, Bool, true, false, ◌&&◌, not, ◌⊎◌, inl, inr, List, ◌∷◌, [],
  String, str_eq, eq_iff, Has, All, All-Has, map_where, map_where-Has, ◌==◌, ==_self, ==→eq,
  Bool-cases, false≢true, if◌then◌else◌, arith,
}
use seat_service.Database.Keyed.{is_unique, eq_of_key, is_unique-map_where}

module _ {Row : Type 0} (key scope : Row → ℕ) (name : Row → String) where
  abbrev pub NamesUnique : List Row → Type 0
  NamesUnique rows =
      (a b : Row) → Has a rows → Has b rows → scope a ≡ scope b → name a ≡ name b → key a ≡ key b

  -- No row but one has a name in its scope.
  abbrev pub IsFreeName : Row → String → List Row → Type 0
  IsFreeName c n rows = (r : Row) → Has r rows → scope r ≡ scope c → name r ≡ n → key r ≡ key c

  module _ (set : Row → Row) (n : String) (keeps : (r : Row) → key (set r) ≡ key r)
      (keeps_scope : (r : Row) → scope (set r) ≡ scope r)
      (sets : (r : Row) → name (set r) ≡ n) where
    renamed_cases :
        (c : Row) (rows : List Row) (r : Row)
        → is_unique key rows ≡ true
        → Has c rows
        → Has r (map_where (λ r. key r == key c) set rows)
        → ((key r ≡ key c) × (scope r ≡ scope c) × (name r ≡ n)) ⊎ Has r rows
    renamed_cases c rows r u m h =
        let (a, there, e) = map_where-Has (λ r. key r == key c) set rows r h in
        elim (Bool-cases (key a == key c)) [
          | inl hit ↦
              let e' : r ≡ set a = e ∙ rw hit refl in
              let k = ==→eq (key a) (key c) hit in
              let one : a ≡ c = eq_of_key key rows a c u there m k in
              inl (
                ap key e' ∙ keeps a ∙ k,
                ap scope e' ∙ keeps_scope a ∙ ap scope one,
                ap name e' ∙ sets a,
              )
          | inr miss ↦ inr (subst (λ r. Has r rows) (sym (e ∙ rw miss refl)) there)
        ]

    -- A row takes a name that is free in its scope.
    pub NamesUnique-rename :
        (c : Row) (rows : List Row)
        → is_unique key rows ≡ true
        → Has c rows
        → IsFreeName c n rows
        → NamesUnique rows
        → NamesUnique (map_where (λ r. key r == key c) set rows)
    NamesUnique-rename c rows u m free distinct a b ha hb s e =
        elim (renamed_cases c rows a u m ha) [
          | inl (ka, sa, na) ↦ elim (renamed_cases c rows b u m hb) [
            | inl (kb, _, _) ↦ ka ∙ sym kb
            | inr hb' ↦ ka ∙ sym (free b hb' (sym s ∙ sa) (sym e ∙ na))
          ]
          | inr ha' ↦ elim (renamed_cases c rows b u m hb) [
            | inl (kb, sb, nb) ↦ free a ha' (s ∙ sb) (e ∙ nb) ∙ sym kb
            | inr hb' ↦ distinct a b ha' hb' s e
          ]
        ]
