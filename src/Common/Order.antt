-- ===== src/Common/Order.antt =====
-- `ORDER BY`: a stable sort by a number, rows that tie staying in the order of the table. (SQL
-- promises no order for those.)
use Prim.Native.Nat.{ℕ, ◌≤◌}
use mathlib.Core.Logic.{inl, inr}
use mathlib.Core.List.{List, [], ◌∷◌}
use native.Mathlib.Omega.{arith}
use samdi.Common.Tests.{leb, if◌then◌else◌, Bool-cases, leb→le}
use samdi.Common.Lists.{All, All-imp}

module _ {A : Type 0} (by : A → ℕ) where
  abbrev pub insert_sorted : A → List A → List A
  insert_sorted x [] = x ∷ []
  insert_sorted x (y ∷ ys) =
      let rest = insert_sorted x ys in if leb (by x) (by y) then x ∷ y ∷ ys else y ∷ rest

  abbrev pub order_by : List A → List A
  order_by [] = []
  order_by (x ∷ xs) = insert_sorted x (order_by xs)

  abbrev pub insert_descending : A → List A → List A
  insert_descending x [] = x ∷ []
  insert_descending x (y ∷ ys) =
      let rest = insert_descending x ys in if leb (by y) (by x) then x ∷ y ∷ ys else y ∷ rest

  abbrev pub order_by_descending : List A → List A
  order_by_descending [] = []
  order_by_descending (x ∷ xs) = insert_descending x (order_by_descending xs)

  module _ {ℓ} (P : A → Type ℓ) where
    All-insert_sorted : (x : A) (xs : List A) → P x → All P xs → All P (insert_sorted x xs)
    All-insert_sorted x [] p h = (p, tt)
    All-insert_sorted x (y ∷ ys) p h = elim (Bool-cases (leb (by x) (by y))) [
      | inl e ↦ rw e (p, h)
      | inr e ↦ rw e (h.0, All-insert_sorted x ys p h.1)
    ]

    -- Sorting keeps the rows: what holds of each row holds of each sorted row.
    pub All-order_by : (xs : List A) → All P xs → All P (order_by xs)
    All-order_by [] h = tt
    All-order_by (x ∷ xs) h = All-insert_sorted x (order_by xs) h.0 (All-order_by xs h.1)

  module _ {ℓ} (P : A → Type ℓ) where
    insert_sorted-All : (x : A) (xs : List A) → All P (insert_sorted x xs) → P x × All P xs
    insert_sorted-All x [] h = h
    insert_sorted-All x (y ∷ ys) h = elim (Bool-cases (leb (by x) (by y))) [
      | inl e ↦ rw e at h
      | inr e ↦
          let h' : P y × All P (insert_sorted x ys) = rw e at h in
          let rest = insert_sorted-All x ys h'.1 in (rest.0, (h'.0, rest.1))
    ]

    -- And it adds none.
    pub order_by-All : (xs : List A) → All P (order_by xs) → All P xs
    order_by-All [] h = tt
    order_by-All (x ∷ xs) h =
        let parts = insert_sorted-All x (order_by xs) h in (parts.0, order_by-All xs parts.1)

  abbrev pub IsSorted : List A → Type 0
  IsSorted [] = Unit
  IsSorted (x ∷ xs) = All (λ y. by x ≤ by y) xs × IsSorted xs

  IsSorted-insert_sorted : (x : A) (xs : List A) → IsSorted xs → IsSorted (insert_sorted x xs)
  IsSorted-insert_sorted x [] h = (tt, tt)
  IsSorted-insert_sorted x (y ∷ ys) h = elim (Bool-cases (leb (by x) (by y))) [
    | inl e ↦
        let le : by x ≤ by y = leb→le (by x) (by y) e in
        rw e ((le, All-imp (λ z. by y ≤ by z) (λ z. by x ≤ by z) (λ z p. omega arith) ys h.0), h)
    | inr e ↦ rw e (
      All-insert_sorted (λ z. by y ≤ by z) x ys (ground arith) h.0,
      IsSorted-insert_sorted x ys h.1,
    )
  ]

  pub IsSorted-order_by : (xs : List A) → IsSorted (order_by xs)
  IsSorted-order_by [] = tt
  IsSorted-order_by (x ∷ xs) = IsSorted-insert_sorted x (order_by xs) (IsSorted-order_by xs)
