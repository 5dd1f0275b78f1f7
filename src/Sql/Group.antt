-- ===== src/Sql/Group.antt =====
-- The dictionaries by which the repositories hand the child rows of many parents out:
-- `by_parent.setdefault(row[key], []).append(row)` and `by_parent.get(id, [])`.
use mathlib.Core.List.{foldl}
use landlord_cli.Prelude.{
  ==_iff, ==_refl, All, All-mono, Bool, List, [], ap, append-nil, append_assoc, arith, contains,
  if◌then◌else◌, map, nat_eq, refl, string_eq, sym, true, ℕ, ◌++◌, ◌==◌, ◌∙◌, ◌∷◌, ◌≡◌,
}
use landlord_cli.Sql.{order_by, select}
use landlord_cli.Sql.Order.{IsOrder, select-order_by}

module _ {R : Type 0} (key : R → ℕ) where
  abbrev pub get_group : ℕ → List (ℕ × List R) → List R
  get_group k [] = []
  get_group k ((j, rs) ∷ d) = if j == k then rs else get_group k d

  pub append_to_group : List (ℕ × List R) → R → List (ℕ × List R)
  append_to_group [] r = (key r, r ∷ []) ∷ []
  append_to_group ((j, rs) ∷ d) r =
      if j == key r then (j, rs ++ r ∷ []) ∷ d else (j, rs) ∷ append_to_group d r

  unfoldable pub group_rows : List R → List (ℕ × List R)
  unfolding append_to_group
  group_rows = foldl append_to_group []

  get_group-append_to_group :
      (k : ℕ) (d : List (ℕ × List R)) (r : R)
      → get_group k (append_to_group d r) ≡ get_group k d ++ (if key r == k then r ∷ [] else [])
  unfolding append_to_group
  get_group-append_to_group k [] r = ground arith
  get_group-append_to_group k ((j, rs) ∷ d) r =
      ground (arith, get_group-append_to_group k d r, append-nil rs, append-nil (get_group k d))

  get_group-foldl :
      (k : ℕ) (d : List (ℕ × List R)) (xs : List R)
      → get_group k (foldl append_to_group d xs) ≡ get_group k d ++ select (λ r. key r == k) xs
  get_group-foldl k d [] = sym (append-nil (get_group k d))
  get_group-foldl k d (x ∷ xs) =
      get_group-foldl k (append_to_group d x) xs
      ∙ rw (get_group-append_to_group k d x) (
          rw
            (append_assoc (get_group k d) (if key x == k then x ∷ [] else [])
              (select (λ r. key r == k) xs))
            (ground arith))

  -- A group holds the rows with its key, in their order.
  pub get_group-group_rows :
      (k : ℕ) (xs : List R) → get_group k (group_rows xs) ≡ select (λ r. key r == k) xs
  unfolding group_rows
  get_group-group_rows k xs = get_group-foldl k [] xs

select-select :
    {R : Type 0} (p q : R → Bool)
    → ((r : R) → p r ≡ true → q r ≡ true)
    → (xs : List R) → select p (select q xs) ≡ select p xs
select-select p q h [] = refl
select-select p q h (x ∷ xs) = ground (arith, h x, select-select p q h xs)

contains-map :
    {P : Type 0} (id : P → ℕ) (xs : List P) → All (λ x. contains (id x) (map id xs) ≡ true) xs
contains-map id [] = tt
contains-map id (x ∷ xs) = (
  ground (arith, ==_refl (id x)),
  All-mono (λ y. contains (id y) (map id xs) ≡ true) (λ y. contains (id y) (map id (x ∷ xs)) ≡ true)
      (λ y h. ground arith) xs (contains-map id xs),
)

-- One SELECT for the children of all parents, handed out by the dictionary, gives each parent what
-- a SELECT of its own would.
module _ {P R B : Type 0} (id : P → ℕ) (key : R → ℕ) (le : R → R → Bool) (o : IsOrder le)
    (build : P → List R → B) (rows : List R) where
  abbrev batch : List ℕ → List (ℕ × List R)
  batch ids = group_rows key (order_by le (select (λ r. contains (key r) ids) rows))

  get_group-batch :
      (k : ℕ) (ids : List ℕ)
      → contains k ids ≡ true
      → get_group key k (batch ids) ≡ order_by le (select (λ r. key r == k) rows)
  get_group-batch k ids h =
      get_group-group_rows key k (order_by le (select (λ r. contains (key r) ids) rows))
      ∙ select-order_by le o (λ r. key r == k) (select (λ r. contains (key r) ids) rows)
      ∙ ap (order_by le) (
          select-select (λ r. key r == k) (λ r. contains (key r) ids)
            (λ r e. rw ((==_iff (key r) k).0 e) h) rows)

  map-get_group_go :
      (ids : List ℕ) (ps : List P)
      → All (λ p. contains (id p) ids ≡ true) ps
      → map (λ p. build p (get_group key (id p) (batch ids))) ps
        ≡ map (λ p. build p (order_by le (select (λ r. key r == id p) rows))) ps
  map-get_group_go ids [] a = refl
  map-get_group_go ids (p ∷ ps) a = cc (get_group-batch (id p) ids a.0, map-get_group_go ids ps a.1)

  pub map-get_group :
      (ps : List P)
      → map (λ p. build p (get_group key (id p) (batch (map id ps)))) ps
        ≡ map (λ p. build p (order_by le (select (λ r. key r == id p) rows))) ps
  map-get_group ps = map-get_group_go (map id ps) ps (contains-map id ps)
