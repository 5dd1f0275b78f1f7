-- ===== src/Pix.antt =====
-- rentivo/pix.py: the payload of a PIX QR code. A text is the list of its code points, and an amount
-- is a number of centavos, of which the code is given the hundredth part.
pub mod Digits
pub mod Fields
pub mod Float
pub mod Payload
use Prim.Native.Nat.{bit_xor}
use landlord_cli.Prelude.{
  Bool, List, Option, [], codes, false, if◌then◌else◌, length, ltb, nat_eq, none, some, string_eq,
  suc, take, true, zero, ℕ, ◌%◌, ◌&&◌, ◌*◌, ◌++◌, ◌+◌, ◌/◌, ◌==◌, ◌^◌, ◌∷◌,
}
use landlord_cli.Errors.{Result, err, ok, value_error}
use landlord_cli.Prelude.Int.{negsuc, pos, ℤ}

abbrev pub Text : Type 0
Text = List ℕ

-- The decimal digits of n, on fuel: n + 1 is enough.
abbrev pub decimal : ℕ → ℕ → Text
decimal zero n = []
decimal (suc f) n =
    let rest = decimal f (n / 10) in if ltb n 10 then (48 + n) ∷ [] else rest ++ (48 + n % 10) ∷ []

-- `f"{n:02d}"`
unfoldable pub two_digits : ℕ → Text
two_digits n = if ltb n 10 then 48 ∷ (48 + n) ∷ [] else decimal (suc n) n

-- `_tlv`
unfoldable pub tlv : Text → Text → Text
tlv tag value = tag ++ (two_digits (length value) ++ value)

-- one round of the inner loop of `_crc16_ccitt`, in 16 bits
abbrev pub crc_bit : ℕ → ℕ
crc_bit crc = (if crc / 2 ^ 15 % 2 == 1 then bit_xor (crc * 2) 4129 else crc * 2) % 2 ^ 16

abbrev pub crc_bits : ℕ → ℕ → ℕ
crc_bits zero crc = crc
crc_bits (suc n) crc = crc_bits n (crc_bit crc)

unfoldable pub crc_bytes : ℕ → Text → ℕ
crc_bytes crc [] = crc
crc_bytes crc (byte ∷ bytes) = crc_bytes (crc_bits 8 (bit_xor crc (byte * 2 ^ 8))) bytes

abbrev pub hex_digit : ℕ → ℕ
hex_digit d = if ltb d 10 then 48 + d else 55 + d

-- `f"{crc:04X}"`, for a number of 16 bits
unfoldable pub hex4 : ℕ → Text
hex4 n =
    hex_digit (n / 4096 % 16)
    ∷ hex_digit (n / 256 % 16)
    ∷ hex_digit (n / 16 % 16)
    ∷ hex_digit (n % 16)
    ∷ []

-- `data.encode("ascii")` raises on other characters.
abbrev pub is_ascii : Text → Bool
is_ascii [] = true
is_ascii (c ∷ cs) = ltb c 128 && is_ascii cs

-- `_crc16_ccitt`
unfoldable pub crc16_ccitt : Text → Result Text
crc16_ccitt data_ =
    if is_ascii data_
    then ok (hex4 (crc_bytes 65535 data_))
    else err (value_error "ordinal not in range(128)")

-- a / b, rounded to the nearest number, and halves to the even one
unfoldable pub round_div : ℕ → ℕ → ℕ
round_div a b =
    let q = a / b in
    let r = a % b in
    if ltb (2 * r) b then q else if ltb b (2 * r) then q + 1 else if q % 2 == 0 then q else q + 1

-- The least power of two, from p on, for which n * p / 100 has 53 bits; 60 doublings are enough.
unfoldable pub scale_up : ℕ → ℕ → ℕ → ℕ
scale_up zero n p = p
scale_up (suc f) n p = elim (ltb (n * p) (100 * 2 ^ 52)) [ true ↦ scale_up f n (p * 2) | false ↦ p ]

-- The least power of two, from q on, for which n / (100 * q) has no more than 53 bits; 1024 doublings
-- are enough for every number that a float has.
unfoldable pub scale_down : ℕ → ℕ → ℕ → ℕ
scale_down zero n q = q
scale_down (suc f) n q = elim (ltb n (100 * 2 ^ 53 * q)) [
  | true ↦ q
  | false ↦ scale_down f n (q * 2)
]

-- `total_centavos / 100`, a float of 53 bits, in centavos, rounded as `:.2f` rounds it
unfoldable pub float_centavos : ℕ → ℕ
float_centavos n =
    let p = scale_up 60 n 1 in
    let q = scale_down 1024 n 1 in round_div (round_div (n * p) (100 * q) * q * 100) p

-- a number of centavos with the point before its last two digits
abbrev pub decimal_text : ℕ → Text
decimal_text centavos =
    decimal (suc (centavos / 100)) (centavos / 100)
    ++ 46 ∷ (48 + centavos % 100 / 10) ∷ (48 + centavos % 10) ∷ []

-- `f"{amount:.2f}"`
abbrev pub amount_text : ℕ → Text
amount_text centavos = decimal_text (float_centavos centavos)

-- `if amount is not None and amount > 0`
unfoldable pub amount_field : Option ℤ → Text
amount_field none = []
amount_field (some (pos zero)) = []
amount_field (some (pos (suc n))) = tlv (codes "54") (amount_text (suc n))
amount_field (some (negsuc n)) = []

-- The payload up to its CRC.
unfoldable pub payload_body : (Text → Text) → Text → Text → Text → Option ℤ → Text → Text
payload_body strip_accents pix_key merchant_name merchant_city amount txid =
    let name = take 25 (strip_accents merchant_name) in
    let city = take 15 (strip_accents merchant_city) in
    let mai = tlv (codes "00") (codes "br.gov.bcb.pix") ++ tlv (codes "01") pix_key in
    let adft = tlv (codes "05") txid in
    tlv (codes "00") (codes "01")
    ++ (tlv (codes "26") mai
        ++ (tlv (codes "52") (codes "0000")
            ++ (tlv (codes "53") (codes "986")
                ++ (amount_field amount
                    ++ (tlv (codes "58") (codes "BR")
                        ++ (tlv (codes "59") name
                            ++ (tlv (codes "60") city
                                ++ (tlv (codes "62") adft ++ (codes "6304")))))))))

-- `_strip_accents` calls `unicodedata` and is a parameter.
unfoldable pub generate_pix_payload :
    (Text → Text) → Text → Text → Text → Option ℤ → Text → Result Text
generate_pix_payload strip_accents pix_key merchant_name merchant_city amount txid =
    let payload = payload_body strip_accents pix_key merchant_name merchant_city amount txid in
    elim (crc16_ccitt payload) [ err e ↦ err e | ok crc ↦ ok (payload ++ crc) ]
