-- ===== src/Common/Table.antt =====
-- SQL tables: the rows in the order of their insertion, each with a text for its primary key.
-- A `WHERE` clause is a Boolean test on the row.
pub mod Deleted
use Prim.Native.String.{String}
use mathlib.Core.Path.{◌≡◌, refl, subst}
use mathlib.Core.Bool.{Bool, true, false, ◌||◌}
use mathlib.Core.Logic.{inl, inr}
use mathlib.Core.Option
use mathlib.Core.Option.{Option, none, some}
use mathlib.Core.List.{List, [], ◌∷◌, ◌++◌, map}
use native.Mathlib.Omega.{arith}
use text.Mathlib.Text.{◌==◌}
use text.Mathlib.TextEquality.{eq_iff}
use samdi.Common.Tests.{if◌then◌else◌, Bool-cases}
use samdi.Common.Lists.{All, All-imp}

module _ {A : Type 0} where
  -- `SELECT * … WHERE p`
  abbrev pub select : (A → Bool) → List A → List A
  select p [] = []
  select p (x ∷ xs) = let rest = select p xs in if p x then x ∷ rest else rest

  -- `DELETE … WHERE p`
  abbrev pub delete : (A → Bool) → List A → List A
  delete p [] = []
  delete p (x ∷ xs) = let rest = delete p xs in if p x then rest else x ∷ rest

  -- `UPDATE … SET f WHERE p`
  abbrev pub update_where : (A → Bool) → (A → A) → List A → List A
  update_where p f [] = []
  update_where p f (x ∷ xs) = (if p x then f x else x) ∷ update_where p f xs

module _ {A : Type 0} where
  pub select_none : (p : A → Bool) (xs : List A) → ((x : A) → p x ≡ false) → select p xs ≡ []
  select_none p [] h = refl
  select_none p (x ∷ xs) h = ground (arith, h x, select_none p xs h)

  pub select-append :
      (p : A → Bool) (xs ys : List A) → select p (xs ++ ys) ≡ select p xs ++ select p ys
  select-append p [] ys = refl
  select-append p (x ∷ xs) ys = ground (arith, select-append p xs ys)

module _ {A : Type 0} (key : A → String) where
  -- `SELECT * … WHERE id = k`, on the primary key
  abbrev pub find : String → List A → Option A
  find k [] = none
  find k (x ∷ xs) = if key x == k then some x else find k xs

  abbrev pub has : String → List A → Bool
  has k [] = false
  has k (x ∷ xs) = key x == k || has k xs

  -- `UPDATE … SET f WHERE id = k`
  abbrev pub update : String → (A → A) → List A → List A
  update k f [] = []
  update k f (x ∷ xs) = (if key x == k then f x else x) ∷ update k f xs

  -- What a primary key promises: no two rows have the same.
  abbrev pub HasUniqueKeys : List A → Type 0
  HasUniqueKeys [] = Unit
  HasUniqueKeys (x ∷ xs) = (find (key x) xs ≡ none) × HasUniqueKeys xs

  pub find-key : (k : String) (xs : List A) {x : A} → find k xs ≡ some x → key x ≡ k
  find-key k [] h = cc
  find-key k (y ∷ ys) {x} h = elim (Bool-cases (key y == k)) [
    | inl e ↦ ground (arith, eq_iff (key y) k)
    | inr n ↦ find-key k ys (ground arith)
  ]

  pub find-append :
      (k : String) (xs ys : List A)
      → find k (xs ++ ys) ≡ elim (find k xs) [ none ↦ find k ys | some x ↦ some x ]
  find-append k [] ys = refl
  find-append k (x ∷ xs) ys = ground (arith, find-append k xs ys)

  pub has-find :
      (k : String) (xs : List A) → has k xs ≡ elim (find k xs) [ none ↦ false | some _ ↦ true ]
  has-find k [] = refl
  has-find k (x ∷ xs) = ground (arith, has-find k xs)

  pub HasUniqueKeys-append :
      (xs : List A) (y : A)
      → HasUniqueKeys xs
      → find (key y) xs ≡ none
      → HasUniqueKeys (xs ++ y ∷ [])
  HasUniqueKeys-append [] y u h = (refl, tt)
  HasUniqueKeys-append (x ∷ xs) y u h = (
    ground (arith, find-append (key x) xs (y ∷ []), eq_iff (key x) (key y), eq_iff (key y) (key x)),
    HasUniqueKeys-append xs y u.1 (ground arith),
  )

  -- An update that keeps the keys.
  module _ (f : A → A) (same : (x : A) → key (f x) ≡ key x) where
    pub find-map : (k : String) (xs : List A) → find k (map f xs) ≡ Option.map f (find k xs)
    find-map k [] = refl
    find-map k (x ∷ xs) = ground (arith, same x, find-map k xs)

    pub HasUniqueKeys-map : (xs : List A) → HasUniqueKeys xs → HasUniqueKeys (map f xs)
    HasUniqueKeys-map [] u = tt
    HasUniqueKeys-map (x ∷ xs) u =
        (ground (arith, same x, find-map (key x) xs), HasUniqueKeys-map xs u.1)

    pub find-update :
        (j k : String) (xs : List A)
        → find k (update j f xs) ≡ (if j == k then Option.map f (find k xs) else find k xs)
    find-update j k [] = ground arith
    find-update j k (x ∷ xs) =
        ground (arith, same x, eq_iff (key x) j, eq_iff (key x) k, eq_iff j k, find-update j k xs)

    pub HasUniqueKeys-update :
        (j : String) (xs : List A) → HasUniqueKeys xs → HasUniqueKeys (update j f xs)
    HasUniqueKeys-update j [] u = tt
    HasUniqueKeys-update j (x ∷ xs) u =
        (ground (arith, same x, find-update j (key x) xs), HasUniqueKeys-update j xs u.1)

  find-select_absent :
      (k : String) (p : A → Bool) (xs : List A) → find k xs ≡ none → find k (select p xs) ≡ none
  find-select_absent k p [] h = refl
  find-select_absent k p (x ∷ xs) h = ground (arith, find-select_absent k p xs)

  -- With unique keys, a key is selected exactly when its one row passes the test.
  pub find-select :
      (k : String) (p : A → Bool) (xs : List A)
      → HasUniqueKeys xs
      → find k (select p xs)
        ≡ elim (find k xs) [ none ↦ none | some x ↦ if p x then some x else none ]
  find-select k p [] u = refl
  find-select k p (x ∷ xs) u =
      ground (arith, eq_iff (key x) k, find-select k p xs, find-select_absent k p xs)

  -- A row is the one that its key finds, and it passes the test.
  abbrev pub IsFound : (A → Bool) → List A → A → Type 0
  IsFound p xs x = (find (key x) xs ≡ some x) × (p x ≡ true)

  IsFound-cons :
      (p : A → Bool) (x : A) (xs : List A) (y : A)
      → find (key x) xs ≡ none
      → IsFound p xs y
      → IsFound p (x ∷ xs) y
  IsFound-cons p x xs y u h = (ground (arith, eq_iff (key x) (key y)), h.1)

  pub select-IsFound :
      (p : A → Bool) (xs : List A) → HasUniqueKeys xs → All (IsFound p xs) (select p xs)
  select-IsFound p [] u = tt
  select-IsFound p (x ∷ xs) u =
      let rest =
        All-imp (IsFound p xs) (IsFound p (x ∷ xs)) (λ y h. IsFound-cons p x xs y u.0 h)
          (select p xs) (select-IsFound p xs u.1) in
      elim (Bool-cases (p x)) [
        | inl e ↦ rw e ((ground (arith, eq_iff (key x) (key x)), e), rest)
        | inr e ↦ rw e rest
      ]

  pub HasUniqueKeys-select :
      (p : A → Bool) (xs : List A) → HasUniqueKeys xs → HasUniqueKeys (select p xs)
  HasUniqueKeys-select p [] u = tt
  HasUniqueKeys-select p (x ∷ xs) u = elim (Bool-cases (p x)) [
    | inl e ↦ rw e (find-select_absent (key x) p xs u.0, HasUniqueKeys-select p xs u.1)
    | inr e ↦ rw e (HasUniqueKeys-select p xs u.1)
  ]

  -- What holds of all rows holds of a row that is found.
  pub All-find {ℓ} :
      (P : A → Type ℓ) (k : String) (xs : List A) {x : A} → All P xs → find k xs ≡ some x → P x
  All-find P k [] h e = cc
  All-find P k (y ∷ ys) {x} h e = elim (Bool-cases (key y == k)) [
    | inl same ↦ let row : y ≡ x = ground arith in subst P row h.0
    | inr other ↦ All-find P k ys h.1 (ground arith)
  ]
