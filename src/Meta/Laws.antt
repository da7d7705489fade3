-- ===== src/Meta/Laws.antt =====
-- What deep merging gives for each key, and that it takes every leaf of the override.
use seat_service.Common.{
  ◌≡◌, refl, Option, none, some, List, [], ◌∷◌, String, str_eq, eq_iff, arith, if◌then◌else◌, ◌≢◌,
  Option-cases, Bool-cases, subst, inl, inr,
}
use seat_service.Meta.{
  Json, null, obj, Fields, end, field, Indexing, lookup, assign, spread, base_of, merge_value,
  merge_fields, default_meta, prepare_meta,
}

pub lookup-assign :
    (k j : String) (v : Json) (fs : Fields)
    → lookup j (assign k v fs) ≡ (if str_eq k j then some v else lookup j fs)
unfolding lookup assign
lookup-assign k j v end = refl
lookup-assign k j v (field i w fs) =
    ground (arith, eq_iff k j, eq_iff i k, eq_iff i j, lookup-assign k j v fs)

-- No key stands twice, as in every object of the language.
abbrev pub HasDistinctKeys : Fields → Type 0
HasDistinctKeys end = Unit
HasDistinctKeys (field k v fs) = (lookup k fs ≡ none) × HasDistinctKeys fs

module _ (ix : Indexing) where
  -- What a key of the result holds, from what it held and what the override has for it.
  abbrev pub merged : Option Json → Option Json → Option Json
  merged old none = old
  merged old (some v) = some (merge_value ix old v)

  merge_fields-field :
      (result : Fields) (j : String) (v : Json) (fs : Fields)
      → merge_fields ix result (field j v fs)
        ≡ merge_fields ix (assign j (merge_value ix (lookup j result) v) result) fs
  unfolding merge_fields
  merge_fields-field result j v fs = refl

  merge_fields-end : (result : Fields) → merge_fields ix result end ≡ result
  unfolding merge_fields
  merge_fields-end result = refl

  pub lookup-merge_fields :
      (k : String) (result fs : Fields)
      → HasDistinctKeys fs
      → lookup k (merge_fields ix result fs) ≡ merged (lookup k result) (lookup k fs)
  unfolding lookup
  lookup-merge_fields k result end h = rw merge_fields-end refl
  lookup-merge_fields k result (field j v fs) (fresh, h) =
      let next = assign j (merge_value ix (lookup j result) v) result in
      let ih = lookup-merge_fields k next fs h in
      let step = lookup-assign j k (merge_value ix (lookup j result) v) result in
      rw merge_fields-field (ground (arith, ih, step, eq_iff j k))

abbrev bind : Option Json → (Json → Option Json) → Option Json
bind none f = none
bind (some v) f = f v

-- The value at the end of a path of keys.
unfoldable pub at : List String → Json → Option Json
at [] v = some v
at (k ∷ ks) (obj fs) = bind (lookup k fs) (at ks)
at (k ∷ ks) _ = none

-- Every object in the value has distinct keys; an array is a leaf of the merge.
unfoldable mutual
  pub IsWellFormed : Json → Type 0
  IsWellFormed (obj fs) = HasDistinctKeys fs × AllWellFormed fs
  IsWellFormed _ = Unit

  pub AllWellFormed : Fields → Type 0
  AllWellFormed end = Unit
  AllWellFormed (field k v fs) = IsWellFormed v × AllWellFormed fs

abbrev pub IsLeaf : Json → Type 0
IsLeaf v = (fs : Fields) → v ≢ obj fs

AllWellFormed-lookup :
    (k : String) (fs : Fields) (v : Json) → AllWellFormed fs → lookup k fs ≡ some v → IsWellFormed v
unfolding AllWellFormed lookup
AllWellFormed-lookup k end v wf e = absurd (cc)
AllWellFormed-lookup k (field j w fs) v wf e = elim (Bool-cases (str_eq j k)) [
  | inl h ↦ subst IsWellFormed (value (rw h at e)) wf.0
  | inr h ↦ AllWellFormed-lookup k fs v wf.1 (rw h at e)
]
  where
    value : some w ≡ some v → w ≡ v
    value same = cc

pub IsWellFormed-lookup :
    (k : String) (fs : Fields) (v : Json)
    → IsWellFormed (obj fs)
    → lookup k fs ≡ some v
    → IsWellFormed v
unfolding IsWellFormed
IsWellFormed-lookup k fs v wf e = AllWellFormed-lookup k fs v wf.1 e

pub IsWellFormed-HasDistinctKeys : (fs : Fields) → IsWellFormed (obj fs) → HasDistinctKeys fs
unfolding IsWellFormed
IsWellFormed-HasDistinctKeys fs wf = wf.0

module _ (ix : Indexing) where
  pub merge_value_leaf : (old : Option Json) (v : Json) → IsLeaf v → merge_value ix old v ≡ v
  unfolding merge_value
  merge_value_leaf old null h = refl
  merge_value_leaf old (obj fs) h = absurd (h fs refl)
  merge_value_leaf old _ h = refl

  pub merge_value-obj :
      (old : Option Json) (fs : Fields)
      → merge_value ix old (obj fs) ≡ obj (merge_fields ix (base_of ix old) fs)
  unfolding merge_value
  merge_value-obj old fs = refl

  -- One key of the path, given the claim for the rest of it.
  at-merge_step :
      (k : String) (ks : List String) (result fs : Fields) (v : Json)
      → IsWellFormed (obj fs)
      → ((old : Option Json) (w : Json)
          → lookup k fs ≡ some w
          → at ks w ≡ some v
          → at ks (merge_value ix old w) ≡ some v)
      → at (k ∷ ks) (obj fs) ≡ some v
      → at (k ∷ ks) (obj (merge_fields ix result fs)) ≡ some v
  unfolding at
  at-merge_step k ks result fs v wf rest h =
      let keys = lookup-merge_fields ix k result fs (IsWellFormed-HasDistinctKeys fs wf) in
      elim (Option-cases (lookup k fs)) [
        | inl missing ↦ absurd (no_value (rw missing at h))
        | inr (w, found) ↦ rw keys (rw found (rest (lookup k result) w found (rw found at h)))
      ]
    where
      no_value : none ≡ some v → ⊥
      no_value e = cc

  at-merge_value :
      (ks : List String) (old : Option Json) (w v : Json)
      → IsWellFormed w
      → IsLeaf v
      → at ks w ≡ some v
      → at ks (merge_value ix old w) ≡ some v
  at-merge_value [] old w v wf leaf h =
      let e : w ≡ v = unfold at in (cc) in
      rw e (rw (merge_value_leaf old v leaf) (unfold at in refl))
  at-merge_value (k ∷ ks) old (obj fs) v wf leaf h = rw merge_value-obj (
      at-merge_step k ks (base_of ix old) fs v wf
        (λ old' w found h'.
          at-merge_value ks old' w v (IsWellFormed-lookup k fs w wf found) leaf h')
        h)
  at-merge_value (k ∷ ks) old w v wf leaf h = absurd (unfold at in (cc))

-- Every value of the input that is no object is at its path in the result.
pub prepare_meta_leaf :
    (ix : Indexing) (fs : Fields) (k : String) (ks : List String) (v : Json)
    → IsWellFormed (obj fs)
    → IsLeaf v
    → at (k ∷ ks) (obj fs) ≡ some v
    → at (k ∷ ks) (prepare_meta ix (obj fs)) ≡ some v
unfolding prepare_meta spread
prepare_meta_leaf ix fs k ks v wf leaf h =
    at-merge_step ix k ks default_meta fs v wf
      (λ old w found h'. at-merge_value ix ks old w v (IsWellFormed-lookup k fs w wf found) leaf h')
      h
