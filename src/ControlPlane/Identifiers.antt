-- ===== src/ControlPlane/Identifiers.antt =====
-- Identifiers of `randomUUID`: `uuid n` is the n-th that is given out. Two predicates: that no two are
-- the same, and that what is still to be given out is the key of no row.
use samdi.Common.{
  ℕ, ◌+◌, ◌≤◌, ◌≡◌, sym, ◌∙◌, String, none, List, [], ◌∷◌, ◌++◌, ◌==◌, arith, eq_iff, inl, inr,
  Bool-cases,
}
use samdi.Common.Table.{find, find-append}

abbrev pub IsInjective : (ℕ → String) → Type 0
IsInjective uuid = (m n : ℕ) → uuid m ≡ uuid n → m ≡ n

module _ (uuid : ℕ → String) where
  -- No row has an identifier that is still to be drawn.
  abbrev pub IsNewFrom : {A : Type 0} → (A → String) → ℕ → List A → Type 0
  IsNewFrom key n rows = (m : ℕ) → n ≤ m → find key (uuid m) rows ≡ none

  module _ (injective : IsInjective uuid) where
    pub IsNewFrom-append :
        {A : Type 0} (key : A → String) (n k : ℕ) (rows : List A) (x : A)
        → IsNewFrom key n rows
        → n ≤ k
        → key x ≡ uuid k
        → IsNewFrom key (k + 1) (rows ++ x ∷ [])
    IsNewFrom-append key n k rows x h le e m lm = elim (Bool-cases (key x == uuid m)) [
      | inl same ↦ absurd (omega (arith, injective k m (sym e ∙ (eq_iff (key x) (uuid m)).0 same)))
      | inr other ↦ ground (arith, find-append key (uuid m) rows (x ∷ []), h m (omega arith))
    ]
