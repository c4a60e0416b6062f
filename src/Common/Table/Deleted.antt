-- ===== src/Common/Table/Deleted.antt =====
-- What is left after rows are deleted.
use Prim.Native.String.{String}
use mathlib.Core.Path.{◌≡◌, refl}
use mathlib.Core.Bool.{Bool, false, ◌||◌}
use mathlib.Core.Option.{none, some}
use mathlib.Core.Logic.{inl, inr}
use mathlib.Core.List.{List, [], ◌∷◌}
use native.Mathlib.Omega.{arith}
use text.Mathlib.Text.{◌==◌}
use text.Mathlib.TextEquality.{eq_iff}
use samdi.Common.Tests.{if◌then◌else◌, Bool-cases}
use samdi.Common.Table.{delete, find, HasUniqueKeys}

module _ {A : Type 0} where
  pub delete_none : (p : A → Bool) (xs : List A) → ((x : A) → p x ≡ false) → delete p xs ≡ xs
  delete_none p [] h = refl
  delete_none p (x ∷ xs) h = ground (arith, h x, delete_none p xs h)

  pub delete-delete :
      (p q : A → Bool) (xs : List A) → delete q (delete p xs) ≡ delete (λ x. p x || q x) xs
  delete-delete p q [] = refl
  delete-delete p q (x ∷ xs) = ground (arith, delete-delete p q xs)

  pub delete-eq : (p q : A → Bool) (xs : List A) → ((x : A) → p x ≡ q x) → delete p xs ≡ delete q xs
  delete-eq p q [] h = refl
  delete-eq p q (x ∷ xs) h = ground (arith, h x, delete-eq p q xs h)

module _ {A : Type 0} (key : A → String) where
  find-delete_absent :
      (k : String) (p : A → Bool) (xs : List A)
      → find key k xs ≡ none
      → find key k (delete p xs) ≡ none
  find-delete_absent k p [] h = refl
  find-delete_absent k p (x ∷ xs) h = ground (arith, find-delete_absent k p xs)

  -- With unique keys, a key is left exactly when its one row is not deleted.
  pub find-delete :
      (k : String) (p : A → Bool) (xs : List A)
      → HasUniqueKeys key xs
      → find key k (delete p xs)
        ≡ elim (find key k xs) [ none ↦ none | some x ↦ if p x then none else some x ]
  find-delete k p [] u = refl
  find-delete k p (x ∷ xs) u =
      ground (arith, eq_iff (key x) k, find-delete k p xs, find-delete_absent k p xs)

  pub HasUniqueKeys-delete :
      (p : A → Bool) (xs : List A) → HasUniqueKeys key xs → HasUniqueKeys key (delete p xs)
  HasUniqueKeys-delete p [] u = tt
  HasUniqueKeys-delete p (x ∷ xs) u = elim (Bool-cases (p x)) [
    | inl e ↦ rw e (HasUniqueKeys-delete p xs u.1)
    | inr e ↦ rw e (find-delete_absent (key x) p xs u.0, HasUniqueKeys-delete p xs u.1)
  ]

  -- Deleted by key: that key is gone, and every other finds what it found.
  pub find-delete_key :
      (id k : String) (xs : List A)
      → find key k (delete (λ x. key x == id) xs) ≡ (if id == k then none else find key k xs)
  find-delete_key id k [] = ground arith
  find-delete_key id k (x ∷ xs) =
      ground (arith, eq_iff (key x) id, eq_iff (key x) k, eq_iff id k, find-delete_key id k xs)
