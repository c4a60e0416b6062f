-- ===== src/Config.antt =====
-- packages/config/src/load.ts: the settings from a file, with those of the environment laid over it.
pub mod Values
pub mod Entries
pub mod Merging
pub mod Loading
use samdi.Common.{
  String, Bool, true, false, ◌&&◌, Option, none, some, List, [], ◌∷◌, ◌==◌, if◌then◌else◌,
}

-- A value of JavaScript. What is neither `undefined` nor a plain object is a leaf, under its text.
mutual
  pub data Value : Type 0 where
    missing : Value
    leaf : String → Value
    object : Fields → Value

  pub data Fields : Type 0 where
    end : Fields
    field : String → Value → Fields → Fields

-- `o[key]`
abbrev pub get : String → Fields → Value
get k end = missing
get k (field j v rest) = if j == k then v else get k rest

-- `o[key] = value`
abbrev pub put : String → Value → Fields → Fields
put k v end = field k v end
put k v (field j w rest) =
    let later = put k v rest in if j == k then field j v rest else field j w later

-- An entry that is `undefined` is passed over.
abbrev pub put_patch : String → Value → Value → Fields → Fields
put_patch k missing merged out = out
put_patch k (leaf t) merged out = put k merged out
put_patch k (object f) merged out = put k merged out

-- `deepMerge`, of the patch into the base; what it makes of one entry is `merge_value`.
unfoldable mutual
  pub merge_value : Value → Value → Value
  merge_value missing base = base
  merge_value (leaf t) base = leaf t
  merge_value (object f) missing = object f
  merge_value (object f) (leaf t) = object f
  merge_value (object f) (object g) = object (deep_merge f g)

  pub deep_merge : Fields → Fields → Fields
  deep_merge end out = out
  deep_merge (field k v rest) out = deep_merge rest (put_patch k v (merge_value v (get k out)) out)

abbrev pub object_unless_empty : Fields → Value
object_unless_empty end = missing
object_unless_empty (field k v rest) = object (field k v rest)

abbrev pub field_unless_missing : String → Value → Fields → Fields
field_unless_missing k missing rest = rest
field_unless_missing k (leaf t) rest = field k (leaf t) rest
field_unless_missing k (object f) rest = field k (object f) rest

-- `compact`: an object with nothing in it is dropped.
unfoldable mutual
  pub compact_value : Value → Value
  compact_value missing = missing
  compact_value (leaf t) = leaf t
  compact_value (object f) = object_unless_empty (compact f)

  pub compact : Fields → Fields
  compact end = end
  compact (field k v rest) = field_unless_missing k (compact_value v) (compact rest)
