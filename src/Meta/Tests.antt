-- ===== src/Meta/Tests.antt =====
-- Runs of `deepMergeMeta` and `prepareMeta`, and the theorems at them.
use seat_service.Common.{◌≡◌, refl, ◌≢◌, some, none, List, [], ◌∷◌, String, true, false}
use seat_service.Meta.{
  Json, bool, str, obj, Fields, end, field, Indexing, lookup, deep_merge_meta, prepare_meta,
}
use seat_service.Meta.Kept.{IsLeftOut, deep_merge_meta_keys}
use seat_service.Meta.Laws.{IsWellFormed, IsLeaf, at, prepare_meta_leaf}

abbrev indexing : Indexing
indexing = record { index_name = λ n. "0"; code_units = λ s. s ∷ [] }

-- `{ color: '#fff', seat: { wide: true } }`
abbrev wide_seat : Fields
wide_seat = field "color" (str "#fff") (field "seat" (obj (field "wide" (bool true) end)) end)

-- `{ seat: { wide: false, tall: true } }`
abbrev tall_seat : Fields
tall_seat = field "seat" (obj (field "wide" (bool false) (field "tall" (bool true) end))) end

wide_seat-IsWellFormed : IsWellFormed (obj wide_seat)
unfolding IsWellFormed lookup
wide_seat-IsWellFormed = ((refl, (refl, tt)), (tt, (((refl, tt), (tt, tt)), tt)))

deep_merge_meta_keys_example :
    (result : Fields) × (deep_merge_meta indexing (obj tall_seat) (obj wide_seat) ≡ obj result)
    × ((k : String) → lookup k wide_seat ≡ none → lookup k result ≡ lookup k tall_seat)
    × ((k : String) (v : Json) → IsLeaf v → lookup k wide_seat ≡ some v → lookup k result ≡ some v)
    × ((k : String) (ks : List String) (v : Json)
        → IsLeftOut (k ∷ ks) (obj wide_seat)
        → at (k ∷ ks) (obj tall_seat) ≡ some v
        → at (k ∷ ks) (obj result) ≡ some v)
deep_merge_meta_keys_example =
    deep_merge_meta_keys indexing tall_seat wide_seat wide_seat-IsWellFormed

wide_seat-at : at ("seat" ∷ "wide" ∷ []) (obj wide_seat) ≡ some (bool true)
unfolding at lookup
wide_seat-at = refl

bool_leaf : (fs : Fields) → bool true ≢ obj fs
bool_leaf fs e = cc

prepare_meta_leaf_example :
    at ("seat" ∷ "wide" ∷ []) (prepare_meta indexing (obj wide_seat)) ≡ some (bool true)
prepare_meta_leaf_example =
    prepare_meta_leaf indexing wide_seat "seat" ("wide" ∷ []) (bool true) wide_seat-IsWellFormed
      bool_leaf wide_seat-at
