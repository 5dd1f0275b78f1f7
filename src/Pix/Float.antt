-- ===== src/Pix/Float.antt =====
-- rentivo/pix.py: the amount, which comes as a float and is written with two digits.
use native.Mathlib.Nat.{div-add-mod, mod-lt, mul-le-mul_left}
use landlord_cli.Prelude.{
  Bool-cases, ap, arith, inl, inr, ltb, nat_eq, refl, string_eq, suc, true, zero, ℕ, ◌%◌, ◌*◌, ◌+◌,
  ◌/◌, ◌<◌, ◌==◌, ◌^◌, ◌∙◌, ◌≡◌, ◌≤◌, ◌⊎◌,
}
use landlord_cli.Pix.{float_centavos, round_div, scale_down, scale_up}

mul_gap : (p n q : ℕ) → n < q → p * n + p ≤ p * q
mul_gap p n q h =
    let next : n + 1 ≤ q = omega arith in
    let e : p * (n + 1) ≤ p * q = mul-le-mul_left p next in omega arith

near_quotient :
    (p q r n : ℕ)
    → 512 ≤ p
    → r < p
    → p * q + r ≤ p * n + 50
    → p * n ≤ p * q + r + 50
    → (q ≡ n) × (2 * r < p) ⊎ (q + 1 ≡ n) × (p < 2 * r)
near_quotient p q r n big small above below = elim (Bool-cases (ltb n q)) [
  | inl less ↦ let gap : p * n + p ≤ p * q = mul_gap p n q (ground arith) in absurd (omega arith)
  | inr not_less ↦ elim (Bool-cases (ltb (q + 1) n)) [
    | inl more ↦
        let gap : p * (q + 1) + p ≤ p * n = mul_gap p (q + 1) n (ground arith) in
        let open_gap : p * (q + 1) ≡ p * q + p = omega arith in absurd (omega arith)
    | inr not_more ↦ elim (Bool-cases (q == n)) [
      | inl same ↦
          let is : q ≡ n = ground arith in
          let product : p * q ≡ p * n = ap (λ x. p * x) is in inl (is, omega arith)
      | inr other ↦
          let is : q + 1 ≡ n = ground arith in
          let product : p * (q + 1) ≡ p * n = ap (λ x. p * x) is in
          let open_product : p * (q + 1) ≡ p * q + p = omega arith in inr (is, omega arith)
    ]
  ]
]

round_div_near : (y p n : ℕ) → 512 ≤ p → y ≤ p * n + 50 → p * n ≤ y + 50 → round_div y p ≡ n
unfolding round_div
round_div_near y p n big above below =
    let split : p * (y / p) + y % p ≡ y = div-add-mod y p in
    let less : y % p < p = mod-lt y (omega arith) in
    elim (near_quotient p (y / p) (y % p) n big less (omega arith) (omega arith)) [
      | inl (same, half) ↦ ground arith
      | inr (next, half) ↦ ground arith
    ]

round_div-hundred : (x : ℕ) → (100 * round_div x 100 ≤ x + 50) × (x ≤ 100 * round_div x 100 + 50)
unfolding round_div
round_div-hundred x = (ground arith, ground arith)

scale_up-le : (f n p : ℕ) → p ≤ scale_up f n p
unfolding scale_up
scale_up-le zero n p = omega arith
scale_up-le (suc f) n p = elim (Bool-cases (ltb (n * p) (100 * 2 ^ 52))) [
  | inl more ↦ let ih = scale_up-le f n (p * 2) in rw (scale_up, more) (omega arith)
  | inr done ↦ rw (scale_up, done) (omega arith)
]

scale_up-suc : (f n p : ℕ) → n * p < 100 * 2 ^ 52 → scale_up (suc f) n p ≡ scale_up f n (p * 2)
unfolding scale_up
scale_up-suc f n p h =
    let more : ltb (n * p) (100 * 2 ^ 52) ≡ true = ground arith in rw (scale_up, more) refl

-- The first nine doublings are made.
scale_up_small : (n : ℕ) → n < 10 ^ 15 → 512 ≤ scale_up 60 n 1
scale_up_small n h =
    let steps : scale_up 60 n 1 ≡ scale_up 51 n 512 =
      scale_up-suc 59 n 1 (omega arith)
      ∙ scale_up-suc 58 n 2 (omega arith)
      ∙ scale_up-suc 57 n 4 (omega arith)
      ∙ scale_up-suc 56 n 8 (omega arith)
      ∙ scale_up-suc 55 n 16 (omega arith)
      ∙ scale_up-suc 54 n 32 (omega arith)
      ∙ scale_up-suc 53 n 64 (omega arith)
      ∙ scale_up-suc 52 n 128 (omega arith)
      ∙ scale_up-suc 51 n 256 (omega arith) in
    let last = scale_up-le 51 n 512 in omega arith

scale_down_lem : (f n q : ℕ) → n < 100 * 2 ^ 53 * q → scale_down (suc f) n q ≡ q
unfolding scale_down
scale_down_lem f n q h =
    let small : ltb n (100 * 2 ^ 53 * q) ≡ true = ground arith in rw (scale_down, small) refl

-- Of an amount of less than 10 ^ 15 centavos, divided by a hundred into a float of 53 bits and written
-- with two digits, no centavo is lost.
pub float_centavos-exact : (n : ℕ) → n < 10 ^ 15 → float_centavos n ≡ n
unfolding float_centavos
float_centavos-exact n h =
    let p = scale_up 60 n 1 in
    let near = round_div-hundred (n * p) in
    let unscaled : scale_down 1024 n 1 ≡ 1 = scale_down_lem 1023 n 1 (omega arith) in
    rw unscaled (
      round_div_near (round_div (n * p) 100 * 1 * 100) p n (scale_up_small n h) (omega arith)
        (omega arith))
