-- ===== src/Common/Throwing.antt =====
-- Methods that change an object and may throw. What was written before a throw stays written, so
-- the state comes back beside the error too.

pub data Outcome {ℓ} (E S A : Type ℓ) : Type ℓ where
  returned : A → S → Outcome E S A
  threw : E → S → Outcome E S A

abbrev pub Exec {ℓ} : Type ℓ → Type ℓ → Type ℓ → Type ℓ
Exec E S A = S → Outcome E S A

module _ {ℓ} {E S A B : Type ℓ} where
  infixl 10 ◌>>=◌ ◌>>◌
  abbrev pub ◌>>=◌ : Exec E S A → (A → Exec E S B) → Exec E S B
  ◌>>=◌ m f s = elim (m s) [ returned a s' ↦ f a s' | threw e s' ↦ threw e s' ]

  abbrev pub ◌>>◌ : Exec E S A → Exec E S B → Exec E S B
  m >> k = m >>= λ _. k

module _ {ℓ} {E S A : Type ℓ} where
  abbrev pub pure : A → Exec E S A
  pure a s = returned a s

  abbrev pub throw : E → Exec E S A
  throw e s = threw e s

  abbrev pub gets : (S → A) → Exec E S A
  gets f s = returned (f s) s

  -- The state that is left, whether the method returned or threw.
  abbrev pub final : Outcome E S A → S
  final (returned a s) = s
  final (threw e s) = s

abbrev pub modify {ℓ} : {E S : Type ℓ} → (S → S) → Exec E S (Unit {ℓ})
modify f s = returned tt (f s)
