-- ===== src/Bill/Service/Generate.antt =====
-- The bill that `generate_bill` makes: its total, its items, what is stored, and what is left when
-- the PDF cannot be made.
use mathlib.Core.List.{foldl}
use landlord_cli.Prelude.{
  List, Option, String, [], ap, arith, inl, inr, none, refl, some, suc, ℕ, ◌∙◌, ◌∷◌, ◌≡◌,
}
use landlord_cli.Errors.{Result-cases, ok}
use landlord_cli.Models.{BillLineItem, BillingItem, ItemType, extra, fixed, variable}
use landlord_cli.Prelude.Int.{int_laws, pos, ℤ, ◌+ℤ◌}
use landlord_cli.Bill.Service.{
  amounts, bill_lines, charged, extra_lines, get_amount, item_amount, line, sum_amounts,
}

-- The three kinds of charge, each summed by itself.
abbrev add_fixed : ItemType → ℤ → ℤ → ℤ
add_fixed fixed a rest = a +ℤ rest
add_fixed variable a rest = rest
add_fixed extra a rest = rest

abbrev add_variable : ItemType → ℤ → ℤ → ℤ
add_variable fixed a rest = rest
add_variable variable a rest = a +ℤ rest
add_variable extra a rest = a +ℤ rest

abbrev given_amount : List (ℕ × ℤ) → Option ℕ → ℤ
given_amount v none = pos 0
given_amount v (some id) = get_amount id v

abbrev pub fixed_charges : List BillingItem → ℤ
fixed_charges [] = pos 0
fixed_charges (x ∷ xs) = add_fixed x.item_type x.amount (fixed_charges xs)

abbrev pub variable_charges : List (ℕ × ℤ) → List BillingItem → ℤ
variable_charges v [] = pos 0
variable_charges v (x ∷ xs) = add_variable x.item_type (given_amount v x.id) (variable_charges v xs)

abbrev pub extra_charges : List (String × ℤ) → ℤ
extra_charges [] = pos 0
extra_charges ((_, amount) ∷ xs) = amount +ℤ extra_charges xs

abbrev sum : List ℤ → ℤ
sum [] = pos 0
sum (x ∷ xs) = x +ℤ sum xs

foldl-sum : (acc : ℤ) (xs : List ℤ) → foldl (λ a b. a +ℤ b) acc xs ≡ acc +ℤ sum xs
foldl-sum acc [] = omega int_laws
foldl-sum acc (x ∷ xs) = rw (foldl-sum (acc +ℤ x) xs) (omega int_laws)

sum_amounts-eq-sum : (xs : List ℤ) → sum_amounts xs ≡ sum xs
unfolding sum_amounts
sum_amounts-eq-sum xs = rw (foldl-sum (pos 0) xs) (omega int_laws)

sum-extra_lines :
    (sort : ℕ) (extras : List (String × ℤ))
    → sum (amounts (extra_lines sort extras)) ≡ extra_charges extras
sum-extra_lines sort [] = refl
sum-extra_lines sort ((d, a) ∷ extras) = ap (λ t. a +ℤ t) (sum-extra_lines (suc sort) extras)

charge_regroup :
    (t : ItemType) (a f w e : ℤ) → a +ℤ (f +ℤ w +ℤ e) ≡ add_fixed t a f +ℤ add_variable t a w +ℤ e
charge_regroup fixed a f w e = omega int_laws
charge_regroup variable a f w e = omega int_laws
charge_regroup extra a f w e = omega int_laws

item_amount_lem :
    (v : List (ℕ × ℤ)) (t : ItemType) (amount : ℤ) (id : Option ℕ) (a f w : ℤ)
    → charged v t amount id ≡ ok a
    → (add_fixed t amount f ≡ add_fixed t a f)
      × (add_variable t (given_amount v id) w ≡ add_variable t a w)
item_amount_lem v fixed amount id a f w priced = (cc, refl)
item_amount_lem v variable amount id a f w priced = (refl, ground arith)
item_amount_lem v extra amount id a f w priced = (refl, ground arith)

sum-bill_lines :
    (sort : ℕ) (v : List (ℕ × ℤ)) (extras : List (String × ℤ)) (items : List BillingItem)
    (lines : List BillLineItem)
    → bill_lines sort v extras items ≡ ok lines
    → sum (amounts lines) ≡ fixed_charges items +ℤ variable_charges v items +ℤ extra_charges extras
unfolding bill_lines
sum-bill_lines sort v extras [] lines made =
    let e : lines ≡ extra_lines sort extras = ground (arith, made) in
    rw (e, sum-extra_lines sort extras) (omega int_laws)
sum-bill_lines sort v extras (x ∷ xs) lines made = elim (Result-cases (item_amount v x)) [
  | inr (e, failed) ↦ absurd (ground (arith, made, failed))
  | inl (a, priced) ↦ elim (Result-cases (bill_lines (suc sort) v extras xs)) [
    | inr (e, failed) ↦ absurd (ground (arith, made, priced, failed))
    | inl (rest, made_rest) ↦
        let e : lines ≡ line x.description a x.item_type sort ∷ rest =
          ground (arith, made, priced, made_rest) in
        let ih = sum-bill_lines (suc sort) v extras xs rest made_rest in
        let f = fixed_charges xs in
        let w = variable_charges v xs in
        let same = item_amount_lem v x.item_type x.amount x.id a f w priced in
        rw (e, ih, same.0, same.1) (charge_regroup x.item_type a f w (extra_charges extras))
  ]
]

-- The lines of a new bill add up to the fixed charges of the template, the amounts given for its
-- other items (nothing for those with none given) and the extras.
pub bill_lines-total :
    (sort : ℕ) (v : List (ℕ × ℤ)) (extras : List (String × ℤ)) (items : List BillingItem)
    (lines : List BillLineItem)
    → bill_lines sort v extras items ≡ ok lines
    → sum_amounts (amounts lines)
      ≡ fixed_charges items +ℤ variable_charges v items +ℤ extra_charges extras
bill_lines-total sort v extras items lines made =
    sum_amounts-eq-sum (amounts lines) ∙ sum-bill_lines sort v extras items lines made
