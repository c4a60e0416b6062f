-- ===== src/Config/Merging.antt =====
-- What is found at each path of merged settings.
use samdi.Common.{
  ◌≡◌, refl, sym, ap, ◌∙◌, String, Bool, true, false, Option, none, some, List, [], ◌∷◌,
  if◌then◌else◌, Bool-cases, inl, inr,
}
use samdi.Common.Maps.{is_some}
use samdi.Config.{
  Value, missing, leaf, object, Fields, end, field, get, merge_value, object_unless_empty,
  field_unless_missing, compact_value, compact,
}
use samdi.Config.Entries.{Distinct, DistinctFields, get-deep_merge, Distinct-get, get-compact}

-- The leaf at a path, and whether a patch decides what stands there.
abbrev pub leaf_at : List String → Value → Option String
leaf_at [] missing = none
leaf_at [] (leaf t) = some t
leaf_at [] (object f) = none
leaf_at (k ∷ ks) missing = none
leaf_at (k ∷ ks) (leaf t) = none
leaf_at (k ∷ ks) (object f) = leaf_at ks (get k f)

abbrev pub covers : List String → Value → Bool
covers ks missing = false
covers ks (leaf t) = true
covers [] (object f) = true
covers (k ∷ ks) (object f) = covers ks (get k f)

leaf_at-uncovered : (ks : List String) (v : Value) → covers ks v ≡ false → leaf_at ks v ≡ none
leaf_at-uncovered [] missing h = refl
leaf_at-uncovered [] (leaf t) h = cc
leaf_at-uncovered [] (object f) h = cc
leaf_at-uncovered (k ∷ ks) missing h = refl
leaf_at-uncovered (k ∷ ks) (leaf t) h = cc
leaf_at-uncovered (k ∷ ks) (object f) h = leaf_at-uncovered ks (get k f) h

or_none :
    (ks : List String) (v : Value) → leaf_at ks v ≡ (if covers ks v then leaf_at ks v else none)
or_none ks v = elim (Bool-cases (covers ks v)) [
  | inl e ↦ rw e refl
  | inr e ↦ rw e (leaf_at-uncovered ks v e)
]

pub leaf_at-merge_value :
    (ks : List String) (v base : Value)
    → Distinct v
    → leaf_at ks (merge_value v base) ≡ (if covers ks v then leaf_at ks v else leaf_at ks base)
unfolding merge_value Distinct
leaf_at-merge_value ks missing base d = refl
leaf_at-merge_value [] (leaf t) base d = refl
leaf_at-merge_value (k ∷ ks) (leaf t) base d = refl
leaf_at-merge_value [] (object f) missing d = refl
leaf_at-merge_value [] (object f) (leaf t) d = refl
leaf_at-merge_value [] (object f) (object g) d = refl
leaf_at-merge_value (k ∷ ks) (object f) missing d = or_none ks (get k f)
leaf_at-merge_value (k ∷ ks) (object f) (leaf t) d = or_none ks (get k f)
leaf_at-merge_value (k ∷ ks) (object f) (object g) d =
    ap (leaf_at ks) (get-deep_merge f g d k)
    ∙ leaf_at-merge_value ks (get k f) (get k g) (Distinct-get k f d)

-- A path of a setting: no object stands there, and whatever stands above it is one.
abbrev pub is_setting : List String → Value → Bool
is_setting ks missing = true
is_setting [] (leaf t) = true
is_setting [] (object f) = false
is_setting (k ∷ ks) (leaf t) = false
is_setting (k ∷ ks) (object f) = is_setting ks (get k f)

leaf_at-missing : (ks : List String) → leaf_at ks missing ≡ none
leaf_at-missing [] = refl
leaf_at-missing (k ∷ ks) = refl

no_leaf : (f : Fields) → leaf_at [] (object_unless_empty f) ≡ none
no_leaf end = refl
no_leaf (field k v rest) = refl

-- Dropped, an object shows the same leaves: none.
unless_empty :
    (k : String) (ks : List String) (f : Fields)
    → (leaf_at (k ∷ ks) (object_unless_empty f) ≡ leaf_at ks (get k f))
      × (covers (k ∷ ks) (object_unless_empty f) ≡ covers ks (get k f))
unless_empty k ks end = (sym (leaf_at-missing ks), refl)
unless_empty k ks (field j v rest) = (refl, refl)

leaf_at-compact :
    (ks : List String) (v : Value) → Distinct v → leaf_at ks (compact_value v) ≡ leaf_at ks v
unfolding compact Distinct
leaf_at-compact ks missing d = refl
leaf_at-compact ks (leaf t) d = refl
leaf_at-compact [] (object f) d = no_leaf (compact f)
leaf_at-compact (k ∷ ks) (object f) d =
    (unless_empty k ks (compact f)).0
    ∙ (ap (leaf_at ks) (get-compact f d k) ∙ leaf_at-compact ks (get k f) (Distinct-get k f d))

covers-compact :
    (ks : List String) (v : Value)
    → Distinct v
    → is_setting ks v ≡ true
    → covers ks (compact_value v) ≡ is_some (leaf_at ks v)
unfolding compact Distinct
covers-compact ks missing d s = ap is_some (sym (leaf_at-missing ks))
covers-compact [] (leaf t) d s = refl
covers-compact (k ∷ ks) (leaf t) d s = cc
covers-compact [] (object f) d s = cc
covers-compact (k ∷ ks) (object f) d s =
    (unless_empty k ks (compact f)).1
    ∙ (ap (covers ks) (get-compact f d k) ∙ covers-compact ks (get k f) (Distinct-get k f d) s)

pub first_of : Option String → Option String → Option String
first_of none b = b
first_of (some a) b = some a

if-is_some : (a b : Option String) → (if is_some a then a else b) ≡ first_of a b
unfolding first_of
if-is_some none b = refl
if-is_some (some a) b = refl

object_unless_empty-Distinct : (f : Fields) → DistinctFields f → Distinct (object_unless_empty f)
unfolding Distinct
object_unless_empty-Distinct end d = tt
object_unless_empty-Distinct (field k v rest) d = d

field_unless_missing-Distinct :
    (k : String) (v : Value) (rest : Fields)
    → get k rest ≡ missing
    → Distinct v
    → DistinctFields rest
    → DistinctFields (field_unless_missing k v rest)
unfolding Distinct
field_unless_missing-Distinct k missing rest e v d = d
field_unless_missing-Distinct k (leaf t) rest e v d = (e, v, d)
field_unless_missing-Distinct k (object f) rest e v d = (e, v, d)

mutual
  unfolding compact Distinct

  pub compact_value-Distinct : (v : Value) → Distinct v → Distinct (compact_value v)
  compact_value-Distinct missing d = tt
  compact_value-Distinct (leaf t) d = tt
  compact_value-Distinct (object f) d =
      object_unless_empty-Distinct (compact f) (compact-Distinct f d)

  compact-Distinct : (f : Fields) → DistinctFields f → DistinctFields (compact f)
  compact-Distinct end d = tt
  compact-Distinct (field k v rest) d =
      field_unless_missing-Distinct k (compact_value v) (compact rest)
        (get-compact rest d.2 k ∙ rw d.0 refl) (compact_value-Distinct v d.1)
        (compact-Distinct rest d.2)

pub leaf_at-overridden :
    (ks : List String) (overrides file : Value)
    → Distinct overrides
    → is_setting ks overrides ≡ true
    → leaf_at ks (merge_value (compact_value overrides) file)
      ≡ first_of (leaf_at ks overrides) (leaf_at ks file)
leaf_at-overridden ks overrides file d s =
    let shown = leaf_at-compact ks overrides d in
    let decides = covers-compact ks overrides d s in
    leaf_at-merge_value ks (compact_value overrides) file (compact_value-Distinct overrides d)
    ∙ (rw (shown, decides) (if-is_some (leaf_at ks overrides) (leaf_at ks file)))
