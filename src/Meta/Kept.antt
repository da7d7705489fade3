-- ===== src/Meta/Kept.antt =====
-- What deep merging keeps of the base.
use seat_service.Common.{
  ◌≡◌, ◌∙◌, ◌⊎◌, sym, ap, refl, none, some, List, [], ◌∷◌, String, ◌≢◌, Option-cases, inl, inr,
}
use seat_service.Meta.{
  Json, obj, Fields, Indexing, lookup, spread, base_of, merge_value, merge_fields, deep_merge_meta,
}
use seat_service.Meta.Laws.{
  lookup-merge_fields, at, IsWellFormed, IsLeaf, IsWellFormed-lookup, IsWellFormed-HasDistinctKeys,
  merge_value_leaf, merge_value-obj,
}

-- A path that goes through objects of the value and ends at a key that is not there.
abbrev pub IsLeftOut : List String → Json → Type 0
IsLeftOut (k ∷ ks) (obj fs) =
    (lookup k fs ≡ none) ⊎ ((w : Json) × (lookup k fs ≡ some w) × IsLeftOut ks w)
IsLeftOut _ _ = ⊥

at_obj :
    (k : String) (ks : List String) (old v : Json)
    → at (k ∷ ks) old ≡ some v
    → (bs : Fields) × (old ≡ obj bs)
unfolding at
at_obj k ks (obj bs) v h = (bs, refl)
at_obj k ks _ v h = absurd (cc)

at-some :
    (k : String) (ks : List String) (fs : Fields) (v w : Json)
    → lookup k fs ≡ some w
    → at (k ∷ ks) (obj fs) ≡ at ks w
unfolding at
at-some k ks fs v w found = rw found refl

at-none :
    (k : String) (ks : List String) (fs gs : Fields)
    → lookup k fs ≡ lookup k gs
    → at (k ∷ ks) (obj fs) ≡ at (k ∷ ks) (obj gs)
unfolding at
at-none k ks fs gs same = rw same refl

at_missing :
    (k : String) (ks : List String) (fs : Fields) (v : Json)
    → lookup k fs ≡ none
    → at (k ∷ ks) (obj fs) ≢ some v
unfolding at
at_missing k ks fs v missing h = absurd (none_some (rw missing at h))
  where
    none_some : none ≡ some v → ⊥
    none_some e = cc

module _ (ix : Indexing) where
  base_of-obj : (bs : Fields) → base_of ix (some (obj bs)) ≡ bs
  unfolding base_of spread
  base_of-obj bs = refl

  -- One key of the path, given the claim for the rest of it.
  at-base_step :
      (k : String) (ks : List String) (bs fs : Fields) (v : Json)
      → IsWellFormed (obj fs)
      → ((old w : Json)
          → lookup k fs ≡ some w
          → IsLeftOut ks w
          → at ks old ≡ some v
          → at ks (merge_value ix (some old) w) ≡ some v)
      → IsLeftOut (k ∷ ks) (obj fs)
      → at (k ∷ ks) (obj bs) ≡ some v
      → at (k ∷ ks) (obj (merge_fields ix bs fs)) ≡ some v
  at-base_step k ks bs fs v wf rest (inl missing) h =
      at-none k ks (merge_fields ix bs fs) bs
        (lookup-merge_fields ix k bs fs (IsWellFormed-HasDistinctKeys fs wf) ∙ rw missing refl)
      ∙ h
  at-base_step k ks bs fs v wf rest (inr (w, found, out)) h =
      let keys = lookup-merge_fields ix k bs fs (IsWellFormed-HasDistinctKeys fs wf) in
      elim (Option-cases (lookup k bs)) [
        | inl missing ↦ absurd (at_missing k ks bs v missing h)
        | inr (b, there) ↦
            at-some k ks (merge_fields ix bs fs) v (merge_value ix (some b) w)
              (keys ∙ rw (there, found) refl)
            ∙ rest b w found out (sym (at-some k ks bs v b there) ∙ h)
      ]

  at-base_value :
      (ks : List String) (old w v : Json)
      → IsWellFormed w
      → IsLeftOut ks w
      → at ks old ≡ some v
      → at ks (merge_value ix (some old) w) ≡ some v
  at-base_value (k ∷ ks) old (obj fs) v wf out h =
      let (bs, e) = at_obj k ks old v h in
      rw e (
        rw merge_value-obj (
          rw base_of-obj (
            at-base_step k ks bs fs v wf
              (λ old' w found out' h'.
                at-base_value ks old' w v (IsWellFormed-lookup k fs w wf found) out' h')
              out (rw e at h))))
  at-base_value (k ∷ ks) old _ v wf out h = absurd out
  at-base_value [] old w v wf out h = absurd out

-- `deepMergeMeta` of two objects is an object. A key that the override leaves out has the value of
-- the base, or none where the base has none, and a key of which the override has a value that is no
-- object has that value. At a path that goes through objects of the override and ends at a key that
-- is not there, a value of the base stays, however deep it is.
pub deep_merge_meta_keys :
    (ix : Indexing) (bs fs : Fields)
    → IsWellFormed (obj fs)
    → (result : Fields) × (deep_merge_meta ix (obj bs) (obj fs) ≡ obj result)
      × ((k : String) → lookup k fs ≡ none → lookup k result ≡ lookup k bs)
      × ((k : String) (v : Json) → IsLeaf v → lookup k fs ≡ some v → lookup k result ≡ some v)
      × ((k : String) (ks : List String) (v : Json)
          → IsLeftOut (k ∷ ks) (obj fs)
          → at (k ∷ ks) (obj bs) ≡ some v
          → at (k ∷ ks) (obj result) ≡ some v)
unfolding deep_merge_meta spread
deep_merge_meta_keys ix bs fs wf =
    let keys =
      λ (k : String). lookup-merge_fields ix k bs fs (IsWellFormed-HasDistinctKeys fs wf) in
    (
      merge_fields ix bs fs,
      refl,
      λ k missing. keys k ∙ rw missing refl,
      λ k v leaf found. keys k ∙ rw found (ap some (merge_value_leaf ix (lookup k bs) v leaf)),
      λ k ks v out there.
          at-base_step ix k ks bs fs v wf
            (λ old w found out' h.
              at-base_value ix ks old w v (IsWellFormed-lookup k fs w wf found) out' h)
            out there,
    )
