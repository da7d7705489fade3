-- ===== src/Meta.antt =====
-- src/utils/meta-defaults.ts: the metadata of sections, tables and seats is the default metadata
-- with the input merged into it. Numbers are IEEE-754 bit patterns; the order of an object's keys is
-- that of their first assignment.
pub mod Laws
pub mod Kept
mod Tests
use seat_service.Common.{
  ℕ, suc, ◌+◌, ◌^◌, Bool, true, false, ◌||◌, Option, none, some, List, [], ◌∷◌, String, str_eq,
  ◌==◌, if◌then◌else◌,
}

mutual
  pub data Json : Type 0 where
    null : Json
    bool : Bool → Json
    num : ℕ → Json
    str : String → Json
    arr : Items → Json
    obj : Fields → Json

  pub data Items : Type 0 where
    nil : Items
    cons : Json → Items → Items

  pub data Fields : Type 0 where
    end : Fields
    field : String → Json → Fields → Fields

unfoldable pub lookup : String → Fields → Option Json
lookup k end = none
lookup k (field j v fs) = if str_eq j k then some v else lookup k fs

-- `result[key] = value`
unfoldable pub assign : String → Json → Fields → Fields
assign k v end = field k v end
assign k v (field j w fs) = if str_eq j k then field j v fs else field j w (assign k v fs)

-- What the language does with an array or a text where an object is expected: the name of an index,
-- and the code units of a text.
pub record Indexing : Type 0 where
  pub index_name : ℕ → String
  pub code_units : String → List String

-- `DEFAULT_META`; 50 and 120 as doubles.
abbrev pub default_meta : Fields
default_meta = field "color" (str "#6A4BBC") (
    field "visible" (bool true) (
      field "locked" (bool false) (
        field "spacing" (num 0x4049000000000000)
          (field "radius" (num 0x405e000000000000) (field "shape" (str "circle") end)))))

-- `!override`
pub is_falsy : Json → Bool
is_falsy null = true
is_falsy (bool true) = false
is_falsy (bool false) = true
is_falsy (num n) = n == 0 || n == 2 ^ 63
is_falsy (str s) = str_eq s ""
is_falsy (arr vs) = false
is_falsy (obj fs) = false

module _ (ix : Indexing) where
  unfoldable pub index_items : ℕ → Items → Fields
  index_items i nil = end
  index_items i (cons v vs) = field (ix.index_name i) v (index_items (suc i) vs)

  unfoldable pub index_units : ℕ → List String → Fields
  index_units i [] = end
  index_units i (s ∷ ss) = field (ix.index_name i) (str s) (index_units (suc i) ss)

  -- `{ ...value }`: the value's own enumerable properties.
  unfoldable pub spread : Json → Fields
  spread null = end
  spread (bool b) = end
  spread (num n) = end
  spread (str s) = index_units 0 (ix.code_units s)
  spread (arr vs) = index_items 0 vs
  spread (obj fs) = fs

  -- `{ ...(result[key] ?? {}) }`
  unfoldable pub base_of : Option Json → Fields
  base_of none = end
  base_of (some v) = spread v

  unfoldable mutual
    -- One round of the loop: the value that is assigned to `key`.
    pub merge_value : Option Json → Json → Json
    merge_value old (obj fs) = obj (merge_fields (base_of old) fs)
    merge_value old null = null
    merge_value old (bool b) = bool b
    merge_value old (num n) = num n
    merge_value old (str s) = str s
    merge_value old (arr vs) = arr vs

    -- The loop over `Object.keys(override)`.
    pub merge_fields : Fields → Fields → Fields
    merge_fields result end = result
    merge_fields result (field k v fs) =
        merge_fields (assign k (merge_value (lookup k result) v) result) fs

  unfoldable pub deep_merge_meta : Json → Json → Json
  unfolding is_falsy merge_fields
  deep_merge_meta base override =
      if is_falsy override then base else obj (merge_fields (spread base) (spread override))

  -- A `null` input stands for a missing one too.
  unfoldable pub prepare_meta : Json → Json
  unfolding deep_merge_meta
  prepare_meta input = deep_merge_meta (obj default_meta) input
