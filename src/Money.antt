-- ===== src/Money.antt =====
-- rentivo/models/__init__.py: the texts of amounts that forms send.
use landlord_cli.Prelude.{
  Bool, Option, String, [], codes, contains, if◌then◌else◌, is_cons, leb, nat_eq, none, not, some,
  string_eq, ℕ, ◌&&◌, ◌==◌, ◌||◌, ◌∷◌,
}
use landlord_cli.Errors.{Result, err, ok, value_error}
use landlord_cli.Prelude.Int.{ℤ}
use landlord_cli.Pix.{Text}

-- `str.isspace` of one character
abbrev is_space : ℕ → Bool
is_space c =
    leb 9 c && leb c 13
    || leb 28 c && leb c 32
    || leb 8192 c && leb c 8202
    || contains c (133 ∷ 160 ∷ 5760 ∷ 8232 ∷ 8233 ∷ 8239 ∷ 8287 ∷ 12288 ∷ [])

abbrev lstrip : Text → Text
lstrip [] = []
lstrip (c ∷ cs) = if is_space c then lstrip cs else c ∷ cs

abbrev rstrip : Text → Text
rstrip [] = []
rstrip (c ∷ cs) = let rest = rstrip cs in if is_space c && not (is_cons rest) then [] else c ∷ rest

-- `text.strip()`
unfoldable pub strip : Text → Text
strip text = rstrip (lstrip text)

-- `text.replace(".", "").replace(",", ".")`
unfoldable pub with_point : Text → Text
with_point [] = []
with_point (c ∷ cs) =
    let rest = with_point cs in if c == 46 then rest else (if c == 44 then 46 else c) ∷ rest

-- `to_centavos` is `int(round(float(text) * 100))`, which raises a ValueError for a text that is no
-- number, and an OverflowError for one that is infinite.
unfoldable pub parse_brl : (Text → Result ℤ) → String → Result (Option ℤ)
parse_brl to_centavos text =
    let stripped = strip (codes text) in
    let plain = if contains 44 stripped then with_point stripped else stripped in
    if not (is_cons stripped) then ok none else elim (to_centavos plain) [
      | ok centavos ↦ ok (some centavos)
      | err (value_error e) ↦ ok none
      | err e ↦ err e
    ]
