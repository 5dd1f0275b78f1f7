-- ===== src/Pix/Payload.antt =====
-- The payload, read back field by field.
use mathlib.Core.Option
use landlord_cli.Prelude.{
  List, Option, [], ap, arith, codes, length, length-append, none, refl, some, suc, take, true,
  zero, ℕ, ◌++◌, ◌<◌, ◌^◌, ◌∙◌, ◌∷◌, ◌≡◌, ◌≤◌,
}
use landlord_cli.Prelude.Int.{negsuc, pos, ℤ}
use landlord_cli.Pix.{
  Text, amount_field, crc16_ccitt, crc_bytes, decimal_text, generate_pix_payload, hex4, is_ascii,
  payload_body, tlv,
}
use landlord_cli.Pix.Fields.{
  amount_field-is_ascii, is_ascii-both, is_ascii-tlv, length-tlv, read_field, read_fields,
  read_fields-tlv, read_last,
}
use landlord_cli.Errors.{ok}
use landlord_cli.Pix.Digits.{length-decimal_text}
use landlord_cli.Pix.Float.{float_centavos-exact}

length-take : (n : ℕ) (xs : Text) → length (take n xs) ≤ n
length-take zero xs = omega arith
length-take (suc n) [] = omega arith
length-take (suc n) (x ∷ xs) = let h = length-take n xs in omega arith

-- The field of the amount, as the reader gives it.
abbrev pub read_amount : Option ℤ → List (Text × Text)
read_amount none = []
read_amount (some (pos zero)) = []
read_amount (some (pos (suc n))) = (codes "54", decimal_text (suc n)) ∷ []
read_amount (some (negsuc n)) = []

-- An amount of less than 10 ^ 15 centavos, of which the float has the exact centavos.
abbrev pub IsExact : Option ℤ → Type 0
IsExact none = Unit
IsExact (some (pos n)) = n < 10 ^ 15
IsExact (some (negsuc n)) = Unit

module _ (strip_accents : Text → Text) (pix_key merchant_name merchant_city : Text)
    (amount : Option ℤ) (txid : Text) (key_fits : length pix_key ≤ 77)
    (txid_fits : length txid ≤ 95) (amount_fits : IsExact amount) where
  abbrev name : Text
  name = take 25 (strip_accents merchant_name)

  abbrev city : Text
  city = take 15 (strip_accents merchant_city)

  abbrev pub mai : Text
  mai = tlv (codes "00") (codes "br.gov.bcb.pix") ++ tlv (codes "01") pix_key

  abbrev pub adft : Text
  adft = tlv (codes "05") txid

  abbrev body : Text
  body = payload_body strip_accents pix_key merchant_name merchant_city amount txid

  -- the part behind the amount
  abbrev ending : Text
  ending =
      tlv (codes "58") (codes "BR")
      ++ (tlv (codes "59") name
          ++ (tlv (codes "60") city ++ (tlv (codes "62") adft ++ (codes "6304"))))

  abbrev pub read_ending : Text → List (Text × Text)
  read_ending crc =
      (codes "58", codes "BR")
      ∷ (codes "59", name)
      ∷ (codes "60", city)
      ∷ (codes "62", adft)
      ∷ (codes "63", crc)
      ∷ []

  read_crc :
      (n c : ℕ) → read_fields (suc n) (codes "6304" ++ hex4 c) ≡ some ((codes "63", hex4 c) ∷ [])
  unfolding hex4
  read_crc n c = refl

  read_fields-ending :
      (n c : ℕ)
      → read_fields (suc (suc (suc (suc (suc n))))) (ending ++ hex4 c) ≡ some (read_ending (hex4 c))
  read_fields-ending n c =
      let short_name = length-take 25 (strip_accents merchant_name) in
      let short_city = length-take 15 (strip_accents merchant_city) in
      let short_adft : length adft < 100 = rw (length-tlv 48 53 txid (omega arith)) (omega arith) in
      read_field (suc (suc (suc (suc n)))) 53 56 (codes "BR") _ (hex4 c) (omega arith) (
        read_field (suc (suc (suc n))) 53 57 name _ (hex4 c) (omega arith) (
          read_field (suc (suc n)) 54 48 city _ (hex4 c) (omega arith)
            (read_field (suc n) 54 50 adft (codes "6304") (hex4 c) short_adft (read_crc n c))))

  read_fields-amount :
      (a : Option ℤ) (c : ℕ)
      → IsExact a
      → read_fields 6 ((amount_field a ++ ending) ++ hex4 c)
        ≡ some (read_amount a ++ read_ending (hex4 c))
  unfolding amount_field
  read_fields-amount none c h = read_fields-ending 1 c
  read_fields-amount (some (pos zero)) c h = read_fields-ending 1 c
  read_fields-amount (some (pos (suc n))) c h =
      let short = length-decimal_text (suc n) h in
      rw (float_centavos-exact (suc n) h) (
        read_field 5 53 52 (decimal_text (suc n)) ending (hex4 c) (omega arith)
          (read_fields-ending 0 c))
  read_fields-amount (some (negsuc n)) c h = read_fields-ending 1 c

  short_mai : length mai < 100
  short_mai =
      let first = length-tlv 48 48 (codes "br.gov.bcb.pix") (omega arith) in
      let second = length-tlv 48 49 pix_key (omega arith) in
      rw
        (
          length-append (tlv (codes "00") (codes "br.gov.bcb.pix")) (tlv (codes "01") pix_key),
          first,
          second,
        )
        (omega arith)

  pub read_fields-body :
      (c : ℕ)
      → read_fields 10 (body ++ hex4 c)
        ≡ some (
            (codes "00", codes "01")
            ∷ (codes "26", mai)
            ∷ (codes "52", codes "0000")
            ∷ (codes "53", codes "986")
            ∷ (read_amount amount ++ read_ending (hex4 c)))
  unfolding payload_body
  read_fields-body c = read_field 9 48 48 (codes "01") _ (hex4 c) (omega arith) (
      read_field 8 50 54 mai _ (hex4 c) short_mai (
        read_field 7 53 50 (codes "0000") _ (hex4 c) (omega arith) (
          read_field 6 53 51 (codes "986") _ (hex4 c) (omega arith)
            (read_fields-amount amount c amount_fits))))

  is_ascii-body :
      is_ascii pix_key ≡ true
      → is_ascii txid ≡ true
      → is_ascii name ≡ true
      → is_ascii city ≡ true
      → is_ascii body ≡ true
  unfolding payload_body
  is_ascii-body k t n c =
      let account =
        is_ascii-both (tlv (codes "00") (codes "br.gov.bcb.pix")) (tlv (codes "01") pix_key)
          (is_ascii-tlv (codes "00") (codes "br.gov.bcb.pix") refl refl)
          (is_ascii-tlv (codes "01") pix_key refl k) in
      let e9 = codes "6304" in
      let e8 = tlv (codes "62") adft ++ e9 in
      let e7 = tlv (codes "60") city ++ e8 in
      let e6 = tlv (codes "59") name ++ e7 in
      let e5 = tlv (codes "58") (codes "BR") ++ e6 in
      let e4 = amount_field amount ++ e5 in
      let e3 = tlv (codes "53") (codes "986") ++ e4 in
      let e2 = tlv (codes "52") (codes "0000") ++ e3 in
      let e1 = tlv (codes "26") mai ++ e2 in
      let h8 =
        is_ascii-both (tlv (codes "62") adft) e9
          (is_ascii-tlv (codes "62") adft refl (is_ascii-tlv (codes "05") txid refl t)) refl in
      let h7 =
        is_ascii-both (tlv (codes "60") city) e8 (is_ascii-tlv (codes "60") city refl c) h8 in
      let h6 =
        is_ascii-both (tlv (codes "59") name) e7 (is_ascii-tlv (codes "59") name refl n) h7 in
      let h5 =
        is_ascii-both (tlv (codes "58") (codes "BR")) e6
          (is_ascii-tlv (codes "58") (codes "BR") refl refl) h6 in
      let h4 = is_ascii-both (amount_field amount) e5 (amount_field-is_ascii amount) h5 in
      let h3 =
        is_ascii-both (tlv (codes "53") (codes "986")) e4
          (is_ascii-tlv (codes "53") (codes "986") refl refl) h4 in
      let h2 =
        is_ascii-both (tlv (codes "52") (codes "0000")) e3
          (is_ascii-tlv (codes "52") (codes "0000") refl refl) h3 in
      let h1 =
        is_ascii-both (tlv (codes "26") mai) e2 (is_ascii-tlv (codes "26") mai refl account) h2 in
      let h0 =
        is_ascii-both (tlv (codes "00") (codes "01")) e1
          (is_ascii-tlv (codes "00") (codes "01") refl refl) h1 in
      h0

  generate_pix_payload_lem :
      is_ascii body ≡ true
      → generate_pix_payload strip_accents pix_key merchant_name merchant_city amount txid
        ≡ ok (body ++ hex4 (crc_bytes 65535 body))
  unfolding generate_pix_payload payload_body crc16_ccitt tlv
  generate_pix_payload_lem ascii = rw (generate_pix_payload, crc16_ccitt, ascii) refl

  -- The payload of a QR code, for a PIX key of at most 77 characters, a transaction id of at most 95,
  -- an amount of less than 10 ^ 15 centavos and texts that are ASCII, is made, and a reader of tags,
  -- lengths and values gives back its fields in their order: the format, the account with the key in
  -- it, category, currency, the amount if there is a positive one, to the centavo, country, name, city
  -- and transaction id, and last the CRC of all that stands before it, with which the payload ends.
  pub generate_pix_payload-read_fields :
      is_ascii pix_key ≡ true
      → is_ascii txid ≡ true
      → is_ascii name ≡ true
      → is_ascii city ≡ true
      → let crc = hex4 (crc_bytes 65535 body) in
        (generate_pix_payload strip_accents pix_key merchant_name merchant_city amount txid
          ≡ ok (body ++ crc))
        × (read_fields 10 (body ++ crc)
            ≡ some (
                (codes "00", codes "01")
                ∷ (codes "26", mai)
                ∷ (codes "52", codes "0000")
                ∷ (codes "53", codes "986")
                ∷ (read_amount amount ++ read_ending crc)))
        × (read_fields 2 mai
            ≡ some ((codes "00", codes "br.gov.bcb.pix") ∷ (codes "01", pix_key) ∷ []))
        × (read_fields 1 adft ≡ some ((codes "05", txid) ∷ []))
  generate_pix_payload-read_fields k t n c = (
    generate_pix_payload_lem (is_ascii-body k t n c),
    read_fields-body (crc_bytes 65535 body),
    read_fields-tlv 1 48 48 (codes "br.gov.bcb.pix") (tlv (codes "01") pix_key) (omega arith)
        ∙ ap (Option.map (λ fields. (codes "00", codes "br.gov.bcb.pix") ∷ fields))
            (read_last 0 48 49 pix_key (omega arith)),
    read_last 0 48 53 txid (omega arith),
  )
