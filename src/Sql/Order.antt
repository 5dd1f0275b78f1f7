-- ===== src/Sql/Order.antt =====
-- `order_by` sorts, leaves what is sorted alone, and may be done before or after a WHERE.
use landlord_cli.Prelude.{
  All, All-mono, Bool, Bool-cases, List, [], arith, false, if◌then◌else◌, inl, inr, refl, true, ℕ,
  ◌∷◌, ◌≡◌,
}
use landlord_cli.Sql.{All-select, asc, insert_by, order_by, select}

module _ {R : Type 0} (le : R → R → Bool) where
  abbrev pub IsSorted : List R → Type 0
  IsSorted [] = Unit
  IsSorted (x ∷ xs) = All (λ y. le x y ≡ true) xs × IsSorted xs

  -- An order by a column, ascending or descending, or by a text.
  pub record IsOrder : Type 0 where
    pub trans : (a b c : R) → le a b ≡ true → le b c ≡ true → le a c ≡ true
    pub total : (a b : R) → le a b ≡ false → le b a ≡ true

  pub order_by_sorted : (xs : List R) → IsSorted xs → order_by le xs ≡ xs
  order_by_sorted [] h = refl
  order_by_sorted (x ∷ []) h = refl
  order_by_sorted (x ∷ y ∷ ys) h = ground (arith, order_by_sorted (y ∷ ys) h.1)

module _ {R : Type 0} (le : R → R → Bool) (o : IsOrder le) where
  All-insert_by :
      (P : R → Type 0) (r : R) (xs : List R) → P r → All P xs → All P (insert_by le r xs)
  All-insert_by P r [] h a = (h, tt)
  All-insert_by P r (x ∷ xs) h a = elim (Bool-cases (le r x)) [
    | inl t ↦ rw t (h, a)
    | inr t ↦ rw t (a.0, All-insert_by P r xs h a.1)
  ]

  insert_by-IsSorted : (r : R) (xs : List R) → IsSorted le xs → IsSorted le (insert_by le r xs)
  insert_by-IsSorted r [] s = (tt, tt)
  insert_by-IsSorted r (x ∷ xs) s = elim (Bool-cases (le r x)) [
    | inl t ↦ rw t (
      (t, All-mono (λ y. le x y ≡ true) (λ y. le r y ≡ true) (λ y xy. o.trans r x y t xy) xs s.0),
      s,
    )
    | inr t ↦
        rw t
          (All-insert_by (λ y. le x y ≡ true) r xs (o.total r x t) s.0, insert_by-IsSorted r xs s.1)
  ]

  pub order_by-IsSorted : (xs : List R) → IsSorted le (order_by le xs)
  order_by-IsSorted [] = tt
  order_by-IsSorted (x ∷ xs) = insert_by-IsSorted x (order_by le xs) (order_by-IsSorted xs)

  insert_by_below : (r : R) (xs : List R) → All (λ y. le r y ≡ true) xs → insert_by le r xs ≡ r ∷ xs
  insert_by_below r [] a = refl
  insert_by_below r (x ∷ xs) a = ground (arith, a.0)

  select-insert_by :
      (p : R → Bool) (r : R) (xs : List R)
      → IsSorted le xs
      → select p (insert_by le r xs) ≡ (if p r then insert_by le r (select p xs) else select p xs)
  select-insert_by p r [] s = refl
  select-insert_by p r (x ∷ xs) s = elim (Bool-cases (le r x)) [
    | inl t ↦ ground (
      arith,
      t,
      insert_by_below r (select p xs) (
          All-select (λ y. le r y ≡ true) p xs
            (All-mono (λ y. le x y ≡ true) (λ y. le r y ≡ true) (λ y xy. o.trans r x y t xy) xs
              s.0)),
    )
    | inr t ↦ ground (arith, t, select-insert_by p r xs s.1)
  ]

  -- WHERE and ORDER BY commute.
  pub select-order_by :
      (p : R → Bool) (xs : List R) → select p (order_by le xs) ≡ order_by le (select p xs)
  select-order_by p [] = refl
  select-order_by p (x ∷ xs) =
      ground
        (arith, select-insert_by p x (order_by le xs) (order_by-IsSorted xs), select-order_by p xs)

pub asc-IsOrder : {R : Type 0} (key : R → ℕ) → IsOrder (asc key)
asc-IsOrder key = record { trans = λ a b c p q. ground arith; total = λ a b p. ground arith }
