-- ===== src/Fields.antt =====
-- services/firestore/path.go: reading, writing and deleting the value at a dotted path of a
-- document. The fields of a map have different names; a value that is no map is its encoding.
pub mod Paths
mod Tests
use cloudrig.Prelude.{ℕ, Bool, Option, none, some, List, [], ◌∷◌, ◌==◌, if◌then◌else◌}
use cloudrig.Prelude.Bytes.{Bytes, str_eq}
use cloudrig.Rpc.{onto_first}

mutual
  pub data Value : Type 0 where
    scalar : Bytes → Value
    map_value : Fields → Value

  pub data Fields : Type 0 where
    no_fields : Fields
    field : Bytes → Value → Fields → Fields

-- fields[k]
unfoldable pub field_at : Bytes → Fields → Option Value
field_at k no_fields = none
field_at k (field j v fs) = let rest = field_at k fs in if str_eq j k then some v else rest

-- fields[k] = v
unfoldable pub with_value : Bytes → Value → Fields → Fields
with_value k v no_fields = field k v no_fields
with_value k v (field j w fs) =
    let rest = with_value k v fs in if str_eq j k then field k v fs else field j w rest

-- delete(fields, k)
unfoldable pub without : Bytes → Fields → Fields
without k no_fields = no_fields
without k (field j v fs) = let rest = without k fs in if str_eq j k then rest else field j v rest

-- strings.Split(path, ".")
unfoldable pub split_path : Bytes → List Bytes
split_path [] = [] ∷ []
split_path (c ∷ s) = let rest = split_path s in if c == b'.' then [] ∷ rest else onto_first c rest

-- The fields of a map.
abbrev pub inner : Option Value → Option Fields
inner (some (map_value fs)) = some fs
inner other = none

-- The fields of a map, or new ones in the place of another value.
abbrev pub inner_or_new : Option Value → Fields
inner_or_new (some (map_value fs)) = fs
inner_or_new other = no_fields

unfoldable pub lookup_segments : List Bytes → Fields → Option Value
lookup_segments [] fs = none
lookup_segments (s ∷ []) fs = field_at s fs
lookup_segments (s ∷ t ∷ rest) fs = elim (inner (field_at s fs)) [
  | none ↦ none
  | some sub ↦ lookup_segments (t ∷ rest) sub
]

unfoldable pub set_segments : List Bytes → Value → Fields → Fields
set_segments [] v fs = fs
set_segments (s ∷ []) v fs = with_value s v fs
set_segments (s ∷ t ∷ rest) v fs =
    with_value s (map_value (set_segments (t ∷ rest) v (inner_or_new (field_at s fs)))) fs

unfoldable pub delete_segments : List Bytes → Fields → Fields
delete_segments [] fs = fs
delete_segments (s ∷ []) fs = without s fs
delete_segments (s ∷ t ∷ rest) fs = elim (inner (field_at s fs)) [
  | none ↦ fs
  | some sub ↦ with_value s (map_value (delete_segments (t ∷ rest) sub)) fs
]

unfoldable pub lookup : Bytes → Fields → Option Value
lookup path fs = lookup_segments (split_path path) fs

unfoldable pub set_path : Bytes → Value → Fields → Fields
set_path path v fs = set_segments (split_path path) v fs

unfoldable pub delete_path : Bytes → Fields → Fields
delete_path path fs = delete_segments (split_path path) fs
