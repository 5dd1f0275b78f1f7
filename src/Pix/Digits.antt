-- ===== src/Pix/Digits.antt =====
-- The digits that `two_digits` writes.
use landlord_cli.Prelude.{
  Bool-cases, [], arith, inl, inr, length, length-append, ltb, refl, suc, true, zero, ℕ, ◌%◌, ◌&&◌,
  ◌*◌, ◌++◌, ◌+◌, ◌-◌, ◌/◌, ◌<◌, ◌^◌, ◌∷◌, ◌≡◌, ◌≤◌,
}
use landlord_cli.Pix.{Text, decimal, decimal_text, is_ascii, two_digits}

abbrev pub digits_value : ℕ → Text → ℕ
digits_value acc [] = acc
digits_value acc (d ∷ ds) = digits_value (acc * 10 + (d - 48)) ds

digits_value-append :
    (acc : ℕ) (xs : Text) (d : ℕ)
    → digits_value acc (xs ++ d ∷ []) ≡ digits_value acc xs * 10 + (d - 48)
digits_value-append acc [] d = refl
digits_value-append acc (x ∷ xs) d = digits_value-append (acc * 10 + (x - 48)) xs d

-- With fuel above n all its digits are written.
pub digits_value-decimal : (f n : ℕ) → n < f → digits_value 0 (decimal f n) ≡ n
digits_value-decimal zero n h = absurd (omega arith)
digits_value-decimal (suc f) n h = elim (Bool-cases (ltb n 10)) [
  | inl small ↦ rw small (ground arith)
  | inr large ↦
      let ih : digits_value 0 (decimal f (n / 10)) ≡ n / 10 =
        digits_value-decimal f (n / 10) (ground arith) in
      rw (large, digits_value-append 0 (decimal f (n / 10)) (48 + n % 10), ih) (omega arith)
]

pub is_ascii-append : (xs ys : Text) → is_ascii (xs ++ ys) ≡ (is_ascii xs && is_ascii ys)
is_ascii-append [] ys = refl
is_ascii-append (x ∷ xs) ys = ground (arith, is_ascii-append xs ys)

pub decimal-is_ascii : (f n : ℕ) → is_ascii (decimal f n) ≡ true
decimal-is_ascii zero n = refl
decimal-is_ascii (suc f) n = elim (Bool-cases (ltb n 10)) [
  | inl small ↦ rw small (ground arith)
  | inr large ↦ rw large (
      ground (
        arith,
        is_ascii-append (decimal f (n / 10)) ((48 + n % 10) ∷ []),
        decimal-is_ascii f (n / 10),
      ))
]

pub two_digits-is_ascii : (n : ℕ) → is_ascii (two_digits n) ≡ true
unfolding two_digits
two_digits-is_ascii n = elim (Bool-cases (ltb n 10)) [
  | inl small ↦ rw small (ground arith)
  | inr large ↦ ground (
    arith,
    large,
    is_ascii-append (decimal n (n / 10)) ((48 + n % 10) ∷ []),
    decimal-is_ascii n (n / 10),
  )
]

-- A number below 100 is written as its two digits.
pub two_digits_lem : (n : ℕ) → n < 100 → two_digits n ≡ (48 + n / 10) ∷ (48 + n % 10) ∷ []
unfolding two_digits
two_digits_lem zero h = refl
two_digits_lem (suc n) h = ground arith

abbrev ten_to : ℕ → ℕ
ten_to zero = 1
ten_to (suc k) = 10 * ten_to k

length-decimal : (k f n : ℕ) → n < 10 * ten_to k → length (decimal f n) ≤ suc k
length-decimal k zero n h = omega arith
length-decimal zero (suc f) n h =
    let small : ltb n 10 ≡ true = ground arith in rw small (omega arith)
length-decimal (suc k) (suc f) n h = elim (Bool-cases (ltb n 10)) [
  | inl small ↦ rw small (omega arith)
  | inr large ↦
      let ih = length-decimal k f (n / 10) (omega arith) in
      rw (large, length-append (decimal f (n / 10)) ((48 + n % 10) ∷ [])) (omega arith)
]

-- The text of an amount below 10 ^ 15 has no more than seventeen characters.
pub length-decimal_text : (n : ℕ) → n < 10 ^ 15 → length (decimal_text n) < 18
length-decimal_text n h =
    let q = decimal (suc (n / 100)) (n / 100) in
    let short : length q ≤ 13 = length-decimal 12 (suc (n / 100)) (n / 100) (omega arith) in
    rw (length-append q (46 ∷ (48 + n % 100 / 10) ∷ (48 + n % 10) ∷ [])) (omega arith)
