-- ===== src/Config/Loading/Precedence.antt =====
-- packages/config/src/load.ts: the order of precedence of the environment and the file.
use samdi.Common.{
  ◌≡◌, refl, ap, ◌∙◌, String, true, Option, none, some, List, ◌==◌, Bool-cases, inl, inr,
}
use samdi.Config.{
  Value, missing, leaf, object, Fields, end, field, merge_value, deep_merge, compact, compact_value,
  object_unless_empty,
}
use samdi.Config.Entries.{Distinct, DistinctFields}
use samdi.Config.Merging.{leaf_at, is_setting, first_of, leaf_at-overridden, compact_value-Distinct}
use samdi.Config.Loading.{
  Environment, variable, if_set, agents_value, approval_text, Program, server, worker, overrides,
  server_overrides, worker_overrides, claude_fields, merged_settings,
}

variable-Distinct : (v : Option String) → Distinct (variable v)
unfolding Distinct
variable-Distinct none = tt
variable-Distinct (some t) = tt

approval-Distinct : (v : Option String) → Distinct (if_set v approval_text)
unfolding Distinct
approval-Distinct none = tt
approval-Distinct (some t) = elim (Bool-cases (t == "")) [ inl e ↦ rw e tt | inr e ↦ rw e tt ]

agents_value-Distinct : (v : Value) → Distinct v → Distinct (agents_value v)
unfolding Distinct
agents_value-Distinct missing d = tt
agents_value-Distinct (leaf t) d = (refl, d, tt)
agents_value-Distinct (object f) d = (refl, d, tt)

Distinct-object : (f : Fields) → DistinctFields f → Distinct (object f)
unfolding Distinct
Distinct-object f d = d

claude-Distinct : (env : Environment) → Distinct (object (claude_fields env))
unfolding Distinct
claude-Distinct env = (
  refl,
  variable-Distinct _,
  (
    refl,
    variable-Distinct _,
    (refl, variable-Distinct _, (refl, variable-Distinct _, (refl, variable-Distinct _, tt))),
  ),
)

overrides-Distinct :
    (program : Program) (env : Environment) → DistinctFields (overrides program env)
unfolding Distinct server_overrides worker_overrides
overrides-Distinct server env = (
  refl,
  variable-Distinct _,
  (
    refl,
    variable-Distinct _,
    (
      refl,
      variable-Distinct _,
      (
        refl,
        variable-Distinct _,
        (refl, variable-Distinct _, (refl, variable-Distinct _, (refl, variable-Distinct _, tt))),
      ),
    ),
  ),
)
overrides-Distinct worker env = (
  refl,
  (refl, variable-Distinct _, (refl, variable-Distinct _, tt)),
  (
    refl,
    (
      refl,
      variable-Distinct _,
      (
        refl,
        variable-Distinct _,
        (
          refl,
          variable-Distinct _,
          (
            refl,
            variable-Distinct _,
            (
              refl,
              variable-Distinct _,
              (refl, variable-Distinct _, (refl, variable-Distinct _, tt)),
            ),
          ),
        ),
      ),
    ),
    (
      refl,
      (refl, approval-Distinct (env "SAMDI_REQUIRE_APPROVAL"), tt),
      (
        refl,
        variable-Distinct _,
        (
          refl,
          variable-Distinct _,
          (
            refl,
            agents_value-Distinct _
                (compact_value-Distinct (object (claude_fields env)) (claude-Distinct env)),
            tt,
          ),
        ),
      ),
    ),
  ),
)

-- No overrides are the empty object.
laid_over :
    (f g : Fields) → object (deep_merge f g) ≡ merge_value (object_unless_empty f) (object g)
unfolding merge_value
laid_over end g = refl
laid_over (field k v rest) g = refl

merged_settings-value :
    (program : Program) (env : Environment) (file : Fields)
    → object (merged_settings program env file)
      ≡ merge_value (compact_value (object (overrides program env))) (object file)
unfolding merged_settings compact
merged_settings-value program env file = laid_over (compact (overrides program env)) file

-- For both programs, every environment and every file: at each path at which the variables of the
-- program may set a value, and at each that they do not touch, the merged settings have the value
-- of the environment if it gives one, and that of the file otherwise.
pub setting_from_environment_or_file :
    (program : Program) (env : Environment) (file : Fields) (ks : List String)
    → is_setting ks (object (overrides program env)) ≡ true
    → leaf_at ks (object (merged_settings program env file))
      ≡ first_of (leaf_at ks (object (overrides program env))) (leaf_at ks (object file))
setting_from_environment_or_file program env file ks s =
    ap (leaf_at ks) (merged_settings-value program env file)
    ∙ leaf_at-overridden ks (object (overrides program env)) (object file)
        (Distinct-object _ (overrides-Distinct program env)) s
