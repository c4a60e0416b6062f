-- ===== src/Common/Maps.antt =====
-- JavaScript's `Map` and plain objects as entries in the order of their insertion, and families
-- that are indexed by numbers.
use Prim.Native.Nat.{ℕ, compare, Ordering}
use Prim.Native.String.{String}
use mathlib.Core.Path.{◌≡◌, refl}
use mathlib.Core.Bool.{Bool, true, false}
use mathlib.Core.Option.{Option, none, some}
use mathlib.Core.List.{List, [], ◌∷◌}
use native.Mathlib.Omega.{arith}
use text.Mathlib.Text.{◌==◌}
use text.Mathlib.TextEquality.{eq_iff}
use samdi.Common.Tests.{if◌then◌else◌}

module _ {A : Type 0} where
  -- `map.get(k)`
  abbrev pub get : String → List (String × A) → Option A
  get k [] = none
  get k ((j, a) ∷ m) = if j == k then some a else get k m

  -- `map.set(k, a)`
  abbrev pub set : String → A → List (String × A) → List (String × A)
  set k a [] = (k, a) ∷ []
  set k a ((j, b) ∷ m) = let rest = set k a m in if j == k then (j, a) ∷ m else (j, b) ∷ rest

  -- `map.delete(k)`
  abbrev pub remove : String → List (String × A) → List (String × A)
  remove k [] = []
  remove k ((j, b) ∷ m) = let rest = remove k m in if j == k then rest else (j, b) ∷ rest

  -- `[...map.values()]`
  abbrev pub values : List (String × A) → List A
  values [] = []
  values ((j, a) ∷ m) = a ∷ values m

  abbrev pub is_some : Option A → Bool
  is_some none = false
  is_some (some a) = true

module _ {A : Type 0} (k j : String) where
  pub get-set :
      (a : A) (m : List (String × A)) → get j (set k a m) ≡ (if k == j then some a else get j m)
  get-set a [] = refl
  get-set a ((i, b) ∷ m) = ground (arith, eq_iff i k, eq_iff i j, eq_iff k j, get-set a m)

  pub get-remove : (m : List (String × A)) → get j (remove k m) ≡ (if k == j then none else get j m)
  get-remove [] = ground arith
  get-remove ((i, b) ∷ m) = ground (arith, eq_iff i k, eq_iff i j, eq_iff k j, get-remove m)

-- `===` on two numbers
abbrev pub same_number : ℕ → ℕ → Bool
same_number a b = elim (compare a b) [ Ordering.eq ↦ true | _ ↦ false ]

-- A family with one member changed.
abbrev pub update_at {ℓ} : {A : Type ℓ} → (ℕ → A) → ℕ → A → ℕ → A
update_at f i a j = if same_number i j then a else f j

pub same_number_refl : (n : ℕ) → same_number n n ≡ true
same_number_refl n = ground arith

pub same_number→eq : (m n : ℕ) → same_number m n ≡ true → m ≡ n
same_number→eq m n h = ground arith
