-- ===== src/Pix/Fields.antt =====
-- A reader of fields of tag, length and value, as the standard of the QR code describes them, and
-- what it reads of the fields that `_tlv` writes.
use mathlib.Core.Option
use landlord_cli.Prelude.{
  List, Option, [], ap, append-nil, append_assoc, arith, codes, drop, false, if◌then◌else◌, length,
  length-append, ltb, none, refl, some, suc, sym, take, true, zero, ℕ, ◌%◌, ◌*◌, ◌++◌, ◌+◌, ◌-◌,
  ◌/◌, ◌<◌, ◌∙◌, ◌∷◌, ◌≡◌,
}
use landlord_cli.Pix.{
  Text, amount_field, amount_text, decimal, decimal_text, float_centavos, is_ascii, tlv, two_digits,
}
use landlord_cli.Pix.Digits.{decimal-is_ascii, is_ascii-append, two_digits-is_ascii, two_digits_lem}
use landlord_cli.Prelude.Int.{negsuc, pos, ℤ}

-- The tags and values of a text, of n fields at most.
abbrev pub read_fields : ℕ → Text → Option (List (Text × Text))
read_fields n [] = some []
read_fields n (a ∷ []) = none
read_fields n (a ∷ b ∷ []) = none
read_fields n (a ∷ b ∷ c ∷ []) = none
read_fields zero (a ∷ b ∷ c ∷ d ∷ text) = none
read_fields (suc n) (a ∷ b ∷ c ∷ d ∷ text) =
    let len = (c - 48) * 10 + (d - 48) in
    let rest = read_fields n (drop len text) in
    if ltb (length text) len
    then none
    else Option.map (λ fields. (a ∷ b ∷ [], take len text) ∷ fields) rest

take-append : (xs ys : Text) → take (length xs) (xs ++ ys) ≡ xs
take-append [] ys = refl
take-append (x ∷ xs) ys = ap (λ t. x ∷ t) (take-append xs ys)

drop-append : (xs ys : Text) → drop (length xs) (xs ++ ys) ≡ ys
drop-append [] ys = refl
drop-append (x ∷ xs) ys = drop-append xs ys

-- A field that `_tlv` writes, of a tag of two characters and a value of less than a hundred, is read
-- back, and the reader goes on with the text behind it.
pub read_fields-tlv :
    (n a b : ℕ) (value rest : Text)
    → length value < 100
    → read_fields (suc n) (tlv (a ∷ b ∷ []) value ++ rest)
      ≡ Option.map (λ fields. (a ∷ b ∷ [], value) ∷ fields) (read_fields n rest)
unfolding tlv
read_fields-tlv n a b value rest h =
    let len = length value in
    let same : (48 + len / 10 - 48) * 10 + (48 + len % 10 - 48) ≡ len = omega arith in
    let fits : ltb (length (value ++ rest)) len ≡ false =
      ground (arith, length-append value rest) in
    rw (two_digits_lem len h, same, fits, take-append value rest, drop-append value rest) refl

pub length-tlv :
    (a b : ℕ) (value : Text)
    → length value < 100
    → length (tlv (a ∷ b ∷ []) value) ≡ 4 + length value
unfolding tlv
length-tlv a b value h = rw (two_digits_lem (length value) h) (omega arith)

pub is_ascii-tlv :
    (tag value : Text)
    → is_ascii tag ≡ true
    → is_ascii value ≡ true
    → is_ascii (tlv tag value) ≡ true
unfolding tlv
is_ascii-tlv tag value t v = ground (
  arith,
  is_ascii-append tag (two_digits (length value) ++ value),
  is_ascii-append (two_digits (length value)) value,
  two_digits-is_ascii (length value),
)

-- One field, before others of which the end is written separately.
pub read_field :
    (n a b : ℕ) (value rest end : Text) {fields : List (Text × Text)}
    → length value < 100
    → read_fields n (rest ++ end) ≡ some fields
    → read_fields (suc n) ((tlv (a ∷ b ∷ []) value ++ rest) ++ end)
      ≡ some ((a ∷ b ∷ [], value) ∷ fields)
read_field n a b value rest end h e = rw (append_assoc (tlv (a ∷ b ∷ []) value) rest end) (
    read_fields-tlv n a b value (rest ++ end) h
    ∙ ap (Option.map (λ fields. (a ∷ b ∷ [], value) ∷ fields)) e)

pub read_last :
    (n a b : ℕ) (value : Text)
    → length value < 100
    → read_fields (suc n) (tlv (a ∷ b ∷ []) value) ≡ some ((a ∷ b ∷ [], value) ∷ [])
read_last n a b value h =
    ap (read_fields (suc n)) (sym (append-nil (tlv (a ∷ b ∷ []) value)))
    ∙ read_fields-tlv n a b value [] h

pub is_ascii-both :
    (xs ys : Text) → is_ascii xs ≡ true → is_ascii ys ≡ true → is_ascii (xs ++ ys) ≡ true
is_ascii-both xs ys h k = ground (arith, is_ascii-append xs ys)

decimal_text-is_ascii : (n : ℕ) → is_ascii (decimal_text n) ≡ true
decimal_text-is_ascii n =
    let q = decimal (suc (n / 100)) (n / 100) in
    let cents : Text = 46 ∷ (48 + n % 100 / 10) ∷ (48 + n % 10) ∷ [] in
    let low : is_ascii cents ≡ true = ground arith in
    is_ascii-both q cents (decimal-is_ascii (suc (n / 100)) (n / 100)) low

pub amount_field-is_ascii : (a : Option ℤ) → is_ascii (amount_field a) ≡ true
unfolding amount_field
amount_field-is_ascii none = refl
amount_field-is_ascii (some (pos zero)) = refl
amount_field-is_ascii (some (pos (suc n))) =
    is_ascii-tlv (codes "54") (amount_text (suc n)) refl
      (decimal_text-is_ascii (float_centavos (suc n)))
amount_field-is_ascii (some (negsuc n)) = refl
