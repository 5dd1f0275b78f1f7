-- ===== src/Sql.antt =====
-- The statements that rentivo/repositories/sqlalchemy.py sends to the database, over a table as a
-- list of rows in the order of insertion.
pub mod Order
pub mod Group
pub mod Children
use mathlib.Core.Path.{subst}
use landlord_cli.Prelude.{
  All, All-append, Bool, Bool-cases, List, Option, [], arith, false, if◌then◌else◌, inl, inr,
  is_some, leb, ltb, nat_eq, none, not, refl, some, string_eq, sym, true, ℕ, ◌&&◌, ◌++◌, ◌+◌, ◌<◌,
  ◌==◌, ◌||◌, ◌∷◌, ◌≡◌, ◌≢◌,
}

-- The rows, and the number that AUTO_INCREMENT gives to the next one.
pub record Table (R : Type 0) : Type 0 where
  pub rows : List R
  pub next : ℕ

-- INSERT of the row that `mk` makes of the next id
abbrev pub insert_row : {R : Type 0} → (ℕ → R) → Table R → Table R
insert_row mk t = record { rows = t.rows ++ mk t.next ∷ []; next = t.next + 1 }

module _ {R : Type 0} where
  -- SELECT * … WHERE p
  abbrev pub select : (R → Bool) → List R → List R
  select p [] = []
  select p (r ∷ rs) = let rest = select p rs in if p r then r ∷ rest else rest

  -- SELECT * … WHERE p, and `fetchone`
  abbrev pub find : (R → Bool) → List R → Option R
  find p [] = none
  find p (r ∷ rs) = if p r then some r else find p rs

  -- UPDATE … SET f WHERE p
  abbrev pub update_where : (R → Bool) → (R → R) → List R → List R
  update_where p f [] = []
  update_where p f (r ∷ rs) = (if p r then f r else r) ∷ update_where p f rs

  -- DELETE … WHERE p
  abbrev pub delete_where : (R → Bool) → List R → List R
  delete_where p rows = select (λ r. not (p r)) rows

module _ {R : Type 0} where
  abbrev pub insert_by : (R → R → Bool) → R → List R → List R
  insert_by le r [] = r ∷ []
  insert_by le r (x ∷ xs) = let rest = insert_by le r xs in if le r x then r ∷ x ∷ xs else x ∷ rest

  -- ORDER BY: rows that the order does not tell apart keep their places
  abbrev pub order_by : (R → R → Bool) → List R → List R
  order_by le [] = []
  order_by le (x ∷ xs) = insert_by le x (order_by le xs)

  abbrev pub asc : (R → ℕ) → R → R → Bool
  asc key a b = leb (key a) (key b)

  abbrev pub desc : (R → ℕ) → R → R → Bool
  desc key a b = leb (key b) (key a)

-- The order of texts by their code points, for ORDER BY
abbrev pub codes_le : List ℕ → List ℕ → Bool
codes_le [] ys = true
codes_le (x ∷ xs) [] = false
codes_le (x ∷ xs) (y ∷ ys) = ltb x y || (x == y && codes_le xs ys)

-- The first of two results that is there.
abbrev pub or_else {ℓ} : {A : Type ℓ} → Option A → Option A → Option A
or_else none y = y
or_else (some x) y = some x

-- The row that an UPDATE leaves in the place of a row that a SELECT found.
abbrev pub updated : {R : Type 0} → (R → Bool) → (R → R) → Option R → Option R
updated p f none = none
updated p f (some r) = some (if p r then f r else r)

module _ {R : Type 0} where
  -- INSERT: what a SELECT finds after it.
  pub find-append :
      (p : R → Bool) (xs ys : List R) → find p (xs ++ ys) ≡ or_else (find p xs) (find p ys)
  find-append p [] ys = refl
  find-append p (x ∷ xs) ys = ground (arith, find-append p xs ys)

  pub select-append :
      (p : R → Bool) (xs ys : List R) → select p (xs ++ ys) ≡ select p xs ++ select p ys
  select-append p [] ys = refl
  select-append p (x ∷ xs) ys = ground (arith, select-append p xs ys)

  -- UPDATE of columns that the SELECT does not test.
  pub find-update_where :
      (q p : R → Bool) (f : R → R)
      → ((r : R) → q (f r) ≡ q r)
      → (rows : List R) → find q (update_where p f rows) ≡ updated p f (find q rows)
  find-update_where q p f h [] = refl
  find-update_where q p f h (r ∷ rs) = ground (arith, h r, find-update_where q p f h rs)

  -- UPDATE of rows that the SELECT does not find.
  pub find-update_where_other :
      (q p : R → Bool) (f : R → R)
      → ((r : R) → p r ≡ true → q r ≡ false)
      → ((r : R) → p r ≡ true → q (f r) ≡ false)
      → (rows : List R) → find q (update_where p f rows) ≡ find q rows
  find-update_where_other q p f h k [] = refl
  find-update_where_other q p f h k (r ∷ rs) =
      ground (arith, h r, k r, find-update_where_other q p f h k rs)

  -- UPDATE of the rows that the SELECT finds, to rows that it does not find.
  pub find-update_where_gone :
      (q p : R → Bool) (f : R → R)
      → ((r : R) → q r ≡ true → p r ≡ true)
      → ((r : R) → p r ≡ true → q (f r) ≡ false)
      → (rows : List R) → find q (update_where p f rows) ≡ none
  find-update_where_gone q p f h k [] = refl
  find-update_where_gone q p f h k (r ∷ rs) =
      ground (arith, h r, k r, find-update_where_gone q p f h k rs)

  -- A weaker test finds a row where a stronger one does.
  pub find_weaken :
      (q p : R → Bool)
      → ((r : R) → q r ≡ true → p r ≡ true)
      → (rows : List R) (r : R) → find q rows ≡ some r
      → is_some (find p rows) ≡ true
  find_weaken q p h [] r e = cc
  find_weaken q p h (x ∷ rs) r e = ground (arith, h x, find_weaken q p h rs r)

  -- DELETE of all the rows that the SELECT would find.
  pub find-delete_where_self :
      (q p : R → Bool)
      → ((r : R) → q r ≡ true → p r ≡ true)
      → (rows : List R) → find q (delete_where p rows) ≡ none
  find-delete_where_self q p h [] = refl
  find-delete_where_self q p h (r ∷ rs) = ground (arith, h r, find-delete_where_self q p h rs)

  -- DELETE of rows that the SELECT does not find.
  pub find-delete_where_other :
      (q p : R → Bool)
      → ((r : R) → q r ≡ true → p r ≡ false)
      → (rows : List R) → find q (delete_where p rows) ≡ find q rows
  find-delete_where_other q p h [] = refl
  find-delete_where_other q p h (r ∷ rs) = ground (arith, h r, find-delete_where_other q p h rs)

  pub select-delete_where_self :
      (q p : R → Bool)
      → ((r : R) → q r ≡ true → p r ≡ true)
      → (rows : List R) → select q (delete_where p rows) ≡ []
  select-delete_where_self q p h [] = refl
  select-delete_where_self q p h (r ∷ rs) = ground (arith, h r, select-delete_where_self q p h rs)

  pub select-delete_where_other :
      (q p : R → Bool)
      → ((r : R) → q r ≡ true → p r ≡ false)
      → (rows : List R) → select q (delete_where p rows) ≡ select q rows
  select-delete_where_other q p h [] = refl
  select-delete_where_other q p h (r ∷ rs) = ground (arith, h r, select-delete_where_other q p h rs)

  pub select-update_where_other :
      (q p : R → Bool) (f : R → R)
      → ((r : R) → p r ≡ true → q r ≡ false)
      → ((r : R) → p r ≡ true → q (f r) ≡ false)
      → (rows : List R) → select q (update_where p f rows) ≡ select q rows
  select-update_where_other q p f h k [] = refl
  select-update_where_other q p f h k (r ∷ rs) =
      ground (arith, h r, k r, select-update_where_other q p f h k rs)

  -- What a SELECT found passes its test.
  pub find-eq-some : (q : R → Bool) (rows : List R) (r : R) → find q rows ≡ some r → q r ≡ true
  find-eq-some q [] r e = cc
  find-eq-some q (x ∷ rs) r e = ground (arith, find-eq-some q rs r)

  pub select-none_of_find : (q : R → Bool) (rows : List R) → find q rows ≡ none → select q rows ≡ []
  select-none_of_find q [] e = refl
  select-none_of_find q (x ∷ rs) e = ground (arith, select-none_of_find q rs)

  pub find-none_of_All :
      (P : R → Type 0) (q : R → Bool)
      → ((r : R) → P r → q r ≡ false)
      → (rows : List R) → All P rows
      → find q rows ≡ none
  find-none_of_All P q h [] a = refl
  find-none_of_All P q h (x ∷ rs) a = ground (arith, h x a.0, find-none_of_All P q h rs a.1)

  pub All-update_where :
      (P : R → Type 0) (p : R → Bool) (f : R → R)
      → ((r : R) → P r → P (f r))
      → (rows : List R) → All P rows
      → All P (update_where p f rows)
  All-update_where P p f h [] a = tt
  All-update_where P p f h (x ∷ rs) a = elim (Bool-cases (p x)) [
    | inl t ↦ rw t (h x a.0, All-update_where P p f h rs a.1)
    | inr t ↦ rw t (a.0, All-update_where P p f h rs a.1)
  ]

  pub All-update_where_split :
      (P Q : R → Type 0) (p : R → Bool) (f : R → R)
      → ((r : R) → p r ≡ true → P r → Q (f r))
      → ((r : R) → p r ≡ false → P r → Q r)
      → (rows : List R) → All P rows
      → All Q (update_where p f rows)
  All-update_where_split P Q p f h k [] a = tt
  All-update_where_split P Q p f h k (x ∷ xs) a = elim (Bool-cases (p x)) [
    | inl t ↦ rw t (h x t a.0, All-update_where_split P Q p f h k xs a.1)
    | inr t ↦ rw t (k x t a.0, All-update_where_split P Q p f h k xs a.1)
  ]

  pub All-select :
      (P : R → Type 0) (p : R → Bool) (rows : List R) → All P rows → All P (select p rows)
  All-select P p [] a = tt
  All-select P p (x ∷ rs) a = elim (Bool-cases (p x)) [
    | inl t ↦ rw t (a.0, All-select P p rs a.1)
    | inr t ↦ rw t (All-select P p rs a.1)
  ]

  pub All_of_find :
      (P : R → Type 0) (q : R → Bool) (rows : List R) {r : R}
      → All P rows
      → find q rows ≡ some r
      → P r
  All_of_find P q [] a e = absurd (cc)
  All_of_find P q (x ∷ rs) {r} a e = elim (Bool-cases (q x)) [
    | inl t ↦ subst P (let e' : x ≡ r = ground arith in e') a.0
    | inr t ↦ All_of_find P q rs a.1 (rw t at e)
  ]

-- The values of a UNIQUE column differ.
abbrev pub IsUnique : {R : Type 0} → (R → ℕ) → List R → Type 0
IsUnique key [] = Unit
IsUnique key (x ∷ xs) = All (λ y. key y ≢ key x) xs × IsUnique key xs

module _ {R : Type 0} (key : R → ℕ) where
  -- A row that some SELECT found is the one with its key.
  pub find-key :
      (q : R → Bool) (rows : List R) (r : R)
      → IsUnique key rows
      → find q rows ≡ some r
      → find (λ s. key s == key r) rows ≡ some r
  find-key q [] r u e = cc
  find-key q (x ∷ xs) r u e = elim (Bool-cases (q x)) [
    | inl t ↦ ground (arith, t)
    | inr t ↦
        let rest = find-key q xs r u.1 (ground arith) in
        ground (arith, rest, found_differs xs r u.0 rest)
  ]
    where
      found_differs :
          (ys : List R) (s : R)
          → All (λ y. key y ≢ key x) ys
          → find (λ t. key t == key s) ys ≡ some s
          → key x ≢ key s
      found_differs ys s a f =
          λ p. All_of_find (λ y. key y ≢ key x) (λ t. key t == key s) ys a f (sym p)

  pub IsUnique-append :
      (xs : List R) (r : R)
      → IsUnique key xs
      → All (λ x. key x < key r) xs
      → IsUnique key (xs ++ r ∷ [])
  IsUnique-append [] r u b = (tt, tt)
  IsUnique-append (x ∷ xs) r u b = (
    All-append (λ y. key y ≢ key x) xs (r ∷ []) u.0 (omega (arith, b.0), tt),
    IsUnique-append xs r u.1 b.1,
  )

  pub IsUnique-update_where :
      (p : R → Bool) (f : R → R)
      → ((r : R) → key (f r) ≡ key r)
      → (xs : List R) → IsUnique key xs
      → IsUnique key (update_where p f xs)
  IsUnique-update_where p f h [] u = tt
  IsUnique-update_where p f h (x ∷ xs) u = elim (Bool-cases (p x)) [
    | inl t ↦ rw t (
      rw (h x) (All-update_where (λ y. key y ≢ key x) p f (λ y ne. ground (arith, h y)) xs u.0),
      IsUnique-update_where p f h xs u.1,
    )
    | inr t ↦ rw t (
      All-update_where (λ y. key y ≢ key x) p f (λ y ne. ground (arith, h y)) xs u.0,
      IsUnique-update_where p f h xs u.1,
    )
  ]
