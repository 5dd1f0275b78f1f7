-- ===== src/Tests/Payments.antt =====
-- The payload of a QR code.
use landlord_cli.Prelude.{
  [], arith, codes, if◌then◌else◌, length, nat_eq, none, refl, some, string_eq, ◌++◌, ◌==◌, ◌∷◌,
  ◌≡◌,
}
use landlord_cli.Errors.{Result, err, ok, overflow_error, value_error}
use landlord_cli.Prelude.Int.{pos, ℤ}
use landlord_cli.Pix.{
  Text, amount_text, crc_bytes, float_centavos, generate_pix_payload, hex4, payload_body, round_div,
  scale_down, scale_up, tlv,
}
use landlord_cli.Pix.Fields.{read_fields}
use landlord_cli.Pix.Payload.{generate_pix_payload-read_fields}
use landlord_cli.Pix.Float.{float_centavos-exact}
use landlord_cli.Money.{parse_brl, strip, with_point}

abbrev key : Text
key = codes "maria@x.com"

generate_pix_payload-read_fields_example :
    let body =
      payload_body
        (λ t. t)
        key
        (codes "Maria")
        (codes "Recife")
        (some (pos 150050))
        (codes "***") in
    let crc = hex4 (crc_bytes 65535 body) in
    let mai = tlv (codes "00") (codes "br.gov.bcb.pix") ++ tlv (codes "01") key in
    (generate_pix_payload
        (λ t. t)
        key
        (codes "Maria")
        (codes "Recife")
        (some (pos 150050))
        (codes "***")
      ≡ ok (body ++ crc))
    × (read_fields 10 (body ++ crc)
        ≡ some (
            (codes "00", codes "01")
            ∷ (codes "26", mai)
            ∷ (codes "52", codes "0000")
            ∷ (codes "53", codes "986")
            ∷ (codes "54", codes "1500.50")
            ∷ (codes "58", codes "BR")
            ∷ (codes "59", codes "Maria")
            ∷ (codes "60", codes "Recife")
            ∷ (codes "62", tlv (codes "05") (codes "***"))
            ∷ (codes "63", crc)
            ∷ []))
    × (read_fields 2 mai ≡ some ((codes "00", codes "br.gov.bcb.pix") ∷ (codes "01", key) ∷ []))
    × (read_fields 1 (tlv (codes "05") (codes "***")) ≡ some ((codes "05", codes "***") ∷ []))
generate_pix_payload-read_fields_example =
    generate_pix_payload-read_fields (λ t. t) key (codes "Maria") (codes "Recife")
      (some (pos 150050)) (codes "***") (omega arith) (omega arith) (omega arith) refl refl refl
      refl

-- the check value of this CRC
crc_of_digits : crc_bytes 65535 (codes "123456789") ≡ 10673
unfolding crc_bytes
crc_of_digits = refl

-- The float has the exact centavos, or not.
amount_of_centavos : amount_text 150050 ≡ codes "1500.50"
unfolding float_centavos round_div scale_up scale_down
amount_of_centavos = refl

amount_too_large : float_centavos 100000000000000001 ≡ 100000000000000000
unfolding float_centavos round_div scale_up scale_down
amount_too_large = refl

float_centavos-exact_example : float_centavos 150050 ≡ 150050
float_centavos-exact_example = float_centavos-exact 150050 (omega arith)

-- a reader of two texts
abbrev two_texts : Text → Result ℤ
two_texts text =
    if length text == 7
    then ok (pos 285000)
    else if length text == 3
    then err (overflow_error "cannot convert float infinity to integer")
    else err (value_error "could not convert string to float")

amount_with_points : with_point (strip (codes " 2.850,00 ")) ≡ codes "2850.00"
unfolding strip with_point
amount_with_points = refl

parsed_amount : parse_brl two_texts " 2.850,00 " ≡ ok (some (pos 285000))
unfolding parse_brl strip with_point
parsed_amount = refl

parsed_no_amount : parse_brl two_texts "R$ 1" ≡ ok none
unfolding parse_brl strip with_point
parsed_no_amount = refl

infinite_amount :
    parse_brl two_texts "inf" ≡ err (overflow_error "cannot convert float infinity to integer")
unfolding parse_brl strip with_point
infinite_amount = refl
