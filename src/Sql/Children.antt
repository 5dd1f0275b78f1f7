-- ===== src/Sql/Children.antt =====
-- The loops `for i, item in enumerate(items): INSERT …` that write the items of a billing or of a
-- bill, each with its place as `sort_order`.
use landlord_cli.Prelude.{
  All, List, [], append-nil, append_assoc, arith, nat_eq, refl, string_eq, suc, sym, true, ℕ, ◌++◌,
  ◌+◌, ◌==◌, ◌∙◌, ◌∷◌, ◌≡◌, ◌≢◌, ◌≤◌,
}
use landlord_cli.Sql.{Table, asc, insert_row, order_by, select, select-append}
use landlord_cli.Sql.Order.{IsSorted, order_by_sorted}

-- `mk id i item` is the row with that id and `sort_order` i.
module _ {I R : Type 0} (mk : ℕ → ℕ → I → R) where
  abbrev pub insert_children : ℕ → List I → Table R → Table R
  insert_children i [] t = t
  insert_children i (x ∷ xs) t = insert_children (suc i) xs (insert_row (λ id. mk id i x) t)

  -- The rows that the loop writes, from the first id on.
  abbrev pub child_rows : ℕ → ℕ → List I → List R
  child_rows id i [] = []
  child_rows id i (x ∷ xs) = mk id i x ∷ child_rows (id + 1) (suc i) xs

  pub rows-insert_children :
      (i : ℕ) (xs : List I) (t : Table R)
      → (insert_children i xs t).rows ≡ t.rows ++ child_rows t.next i xs
  rows-insert_children i [] t = sym (append-nil t.rows)
  rows-insert_children i (x ∷ xs) t =
      rows-insert_children (suc i) xs (insert_row (λ id. mk id i x) t)
      ∙ append_assoc t.rows (mk t.next i x ∷ []) (child_rows (t.next + 1) (suc i) xs)

  module _ (parent : R → ℕ) (sort : R → ℕ) (p : ℕ)
      (parent-mk : (id i : ℕ) (x : I) → parent (mk id i x) ≡ p)
      (sort-mk : (id i : ℕ) (x : I) → sort (mk id i x) ≡ i) where
    select-child_rows :
        (id i : ℕ) (xs : List I)
        → select (λ r. parent r == p) (child_rows id i xs) ≡ child_rows id i xs
    select-child_rows id i [] = refl
    select-child_rows id i (x ∷ xs) =
        ground (arith, parent-mk id i x, select-child_rows (id + 1) (suc i) xs)

    child_rows-above :
        (id i j : ℕ) (xs : List I) (r : R)
        → sort r ≤ j
        → j ≤ i
        → All (λ y. asc sort r y ≡ true) (child_rows id i xs)
    child_rows-above id i j [] r h k = tt
    child_rows-above id i j (x ∷ xs) r h k =
        (ground (arith, sort-mk id i x), child_rows-above (id + 1) (suc i) j xs r h (omega arith))

    child_rows-IsSorted : (id i : ℕ) (xs : List I) → IsSorted (asc sort) (child_rows id i xs)
    child_rows-IsSorted id i [] = tt
    child_rows-IsSorted id i (x ∷ xs) = (
      child_rows-above (id + 1) (suc i) i xs (mk id i x) (omega (arith, sort-mk id i x))
          (omega arith),
      child_rows-IsSorted (id + 1) (suc i) xs,
    )

    -- Reading the children back, in the order of `sort_order`, gives the rows that were written.
    pub order_by-insert_children :
        (i : ℕ) (xs : List I) (t : Table R)
        → select (λ r. parent r == p) t.rows ≡ []
        → order_by (asc sort) (select (λ r. parent r == p) (insert_children i xs t).rows)
          ≡ child_rows t.next i xs
    order_by-insert_children i xs t h =
        rw
          (
            rows-insert_children i xs t,
            select-append (λ r. parent r == p) t.rows (child_rows t.next i xs),
            h,
            select-child_rows t.next i xs,
          )
          (order_by_sorted (asc sort) (child_rows t.next i xs) (child_rows-IsSorted t.next i xs))

    -- The children of another parent are as before.
    pub select-insert_children_other :
        (q i : ℕ) (xs : List I) (t : Table R)
        → q ≢ p
        → select (λ r. parent r == q) (insert_children i xs t).rows
          ≡ select (λ r. parent r == q) t.rows
    select-insert_children_other q i [] t ne = refl
    select-insert_children_other q i (x ∷ xs) t ne =
        select-insert_children_other q (suc i) xs (insert_row (λ id. mk id i x) t) ne
        ∙ select-append (λ r. parent r == q) t.rows (mk t.next i x ∷ [])
        ∙ ground (arith, parent-mk t.next i x, append-nil (select (λ r. parent r == q) t.rows))
