-- ===== src/Config/Entries.antt =====
-- One entry of merged and of compacted settings.
use samdi.Common.{
  ◌≡◌, refl, sym, ap, ◌∙◌, String, false, ◌==◌, eq_iff, if◌then◌else◌, arith, Bool-cases, inl, inr,
  ◌⊎◌,
}
use samdi.Config.{
  Value, missing, leaf, object, Fields, end, field, get, put, merge_value, deep_merge, put_patch,
  field_unless_missing, compact_value, compact,
}

-- The keys of an object are different, at every depth.
unfoldable mutual
  pub Distinct : Value → Type 0
  Distinct missing = Unit {0}
  Distinct (leaf t) = Unit {0}
  Distinct (object f) = DistinctFields f

  pub DistinctFields : Fields → Type 0
  DistinctFields end = Unit {0}
  DistinctFields (field k v rest) = (get k rest ≡ missing) × Distinct v × DistinctFields rest

get-put :
    (k j : String) (v : Value) (f : Fields) → get j (put k v f) ≡ (if k == j then v else get j f)
get-put k j v end = refl
get-put k j v (field i w rest) =
    ground (arith, eq_iff i k, eq_iff i j, eq_iff k j, get-put k j v rest)

get-put_patch :
    (k j : String) (v : Value) (out : Fields)
    → get j (put_patch k v (merge_value v (get k out)) out)
      ≡ (if k == j then merge_value v (get j out) else get j out)
unfolding merge_value
get-put_patch k j missing out = elim (Bool-cases (k == j)) [ inl e ↦ rw e refl | inr e ↦ rw e refl ]
get-put_patch k j (leaf t) out = get-put k j (leaf t) out
get-put_patch k j (object f) out = elim (Bool-cases (k == j)) [
  | inl e ↦ let same : k ≡ j = (eq_iff k j).0 e in get-put k j _ out ∙ rw (e, same) refl
  | inr e ↦ get-put k j _ out ∙ rw e refl
]

merge_value-missing : (base : Value) → merge_value missing base ≡ base
unfolding merge_value
merge_value-missing base = refl

deep_merge-end : (g : Fields) → deep_merge end g ≡ g
unfolding deep_merge
deep_merge-end g = refl

deep_merge-field :
    (k : String) (v : Value) (rest out : Fields)
    → deep_merge (field k v rest) out
      ≡ deep_merge rest (put_patch k v (merge_value v (get k out)) out)
unfolding deep_merge
deep_merge-field k v rest out = refl

-- One entry of merged objects is that of the patch laid over that of the base.
pub get-deep_merge :
    (f g : Fields)
    → DistinctFields f
    → (j : String) → get j (deep_merge f g) ≡ merge_value (get j f) (get j g)
unfolding DistinctFields
get-deep_merge end g d j = ap (get j) (deep_merge-end g) ∙ sym (merge_value-missing (get j g))
get-deep_merge (field k v rest) g d j =
    let out = put_patch k v (merge_value v (get k g)) g in
    let ih = get-deep_merge rest out d.2 j in
    let entry = get-put_patch k j v g in
    ap (get j) (deep_merge-field k v rest g)
    ∙ (ih ∙ elim (Bool-cases (k == j)) [
      | inl e ↦
          let same : k ≡ j = (eq_iff k j).0 e in
          let none_later : get j rest ≡ missing = rw (← same) d.0 in
          ap (λ x. merge_value x (get j out)) none_later
          ∙ (merge_value-missing (get j out) ∙ (entry ∙ rw e refl))
      | inr e ↦
          let kept : get j out ≡ get j g = entry ∙ rw e refl in
          ap (merge_value (get j rest)) kept ∙ rw e refl
    ])

pub Distinct-get : (k : String) (f : Fields) → DistinctFields f → Distinct (get k f)
unfolding Distinct
Distinct-get k end d = tt
Distinct-get k (field j v rest) d = elim (Bool-cases (j == k)) [
  | inl e ↦ rw e d.1
  | inr e ↦ rw e (Distinct-get k rest d.2)
]

get-field_unless_missing :
    (k j : String) (v : Value) (rest : Fields)
    → get j rest ≡ missing ⊎ ((k == j) ≡ false)
    → get j (field_unless_missing k v rest) ≡ (if k == j then v else get j rest)
get-field_unless_missing k j missing rest (inl e) = elim (Bool-cases (k == j)) [
  | inl h ↦ rw (h, e) refl
  | inr h ↦ rw h refl
]
get-field_unless_missing k j missing rest (inr e) = rw e refl
get-field_unless_missing k j (leaf t) rest h = refl
get-field_unless_missing k j (object f) rest h = refl

pub get-compact :
    (f : Fields) → DistinctFields f → (j : String) → get j (compact f) ≡ compact_value (get j f)
unfolding compact Distinct
get-compact end d j = refl
get-compact (field k v rest) d j =
    let ih = get-compact rest d.2 j in
    elim (Bool-cases (k == j)) [
      | inl e ↦
          let same : k ≡ j = (eq_iff k j).0 e in
          let none_later : get j rest ≡ missing = rw (← same) d.0 in
          let later : get j (compact rest) ≡ missing = ih ∙ rw none_later refl in
          get-field_unless_missing k j (compact_value v) (compact rest) (inl later) ∙ rw e refl
      | inr e ↦ get-field_unless_missing k j (compact_value v) (compact rest) (inr e) ∙ (rw e ih)
    ]
