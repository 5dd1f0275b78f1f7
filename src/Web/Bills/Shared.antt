-- ===== src/Web/Bills/Shared.antt =====
-- web/routes/bill.py: the look-up that its handlers begin with, the files and rows of its forms, and the
-- entries they log.
use landlord_cli.Bill
use landlord_cli.Billing
use landlord_cli.Prelude.{
  Bool, List, Option, String, [], contains, false, if◌then◌else◌, is_cons, length, ltb, nat_eq,
  none, not, some, string_eq, suc, ℕ, ◌&&◌, ◌==◌, ◌∷◌,
}
use landlord_cli.Errors.{Result, and_then, format, map_ok, ok}
use landlord_cli.Models.{
  Bill, BillLineItem, Billing, BillingItem, ItemType, Receipt, extra, fixed, variable,
}
use landlord_cli.Web.{
  Response, W, Web, call, choose, flash_redirect, log, pure, query, web_entry, with_some, ◌>>=◌,
  ◌>>◌,
}
use landlord_cli.Json.{Json, dict, nat, str}
use landlord_cli.Audit.{Entry, Stamp}
use landlord_cli.Bill.Service.{
  Config, add_receipt, allowed_receipt_types, extra_lines, line, max_receipt_size,
}
use landlord_cli.Prelude.Int.{negsuc, pos, ℤ}

-- A file that is uploaded, with what is drawn when it becomes a receipt.
pub record Upload : Type 0 where
  pub filename : String
  pub file_bytes : List ℕ
  pub content_type : String
  pub key_uuid : String
  pub uuid : String
  pub now : ℕ
  pub stamp : Stamp

-- A row of a form; a field that is not there is empty.
pub record Row : Type 0 where
  pub description : String
  pub amount : String
  pub item_type : String

abbrev pub bill_path : String → String → String
bill_path billing_uuid bill_uuid = format ("/billings/" ∷ billing_uuid ∷ "/bills/" ∷ bill_uuid ∷ [])

abbrev pub billing_path : String → String
billing_path billing_uuid = format ("/billings/" ∷ billing_uuid ∷ [])

-- How the handlers of a bill begin: the bill and its billing are looked up.
unfoldable pub with_bill : String → (Bill → Billing → W Response) → W Response
with_bill bill_uuid k = do
  found ← query (λ w. Bill.get_by_uuid bill_uuid w.db)
  with_some found (flash_redirect "Fatura não encontrada." "danger" "/") λ bill. do
    found_billing ← query (λ w. Billing.get_by_id bill.billing_id w.db)
    with_some found_billing (flash_redirect "Cobrança não encontrada." "danger" "/") (k bill)

abbrev pub bill_entry : String → ℕ → Bill → Web → Entry
bill_entry event_type user_id bill w =
    record (web_entry event_type (some user_id) w.session.username) {
      entity_type = "bill";
      entity_id = bill.id;
      entity_uuid = bill.uuid;
    }

abbrev pub receipt_state : Receipt → String → String → Json
receipt_state receipt bill_uuid billing_uuid = dict (
    ("filename", str receipt.filename)
    ∷ ("content_type", str receipt.content_type)
    ∷ ("file_size", nat receipt.file_size)
    ∷ ("bill_uuid", str bill_uuid)
    ∷ ("billing_uuid", str billing_uuid)
    ∷ [])

abbrev pub receipt_entry : String → ℕ → Receipt → Web → Entry
receipt_entry event_type user_id receipt w =
    record (web_entry event_type (some user_id) w.session.username) {
      entity_type = "receipt";
      entity_id = receipt.id;
      entity_uuid = receipt.uuid;
    }

-- the tests of an uploaded file
abbrev pub is_attachable : Upload → Bool
is_attachable u =
    is_cons u.file_bytes
    && contains u.content_type allowed_receipt_types
    && not (ltb max_receipt_size (length u.file_bytes))

-- `ItemType(…)`, and FIXED for any other text
abbrev pub item_type_of : String → ItemType
item_type_of text =
    if text == "variable" then variable else if text == "extra" then extra else fixed

abbrev pub is_positive : ℤ → Bool
is_positive (pos n) = not (n == 0)
is_positive (negsuc n) = false

-- `desc and amount and amount > 0`, for an amount that is read
abbrev pub is_charge : String → Option ℤ → Option ℤ
is_charge text none = none
is_charge text (some amount) = if not (text == "") && is_positive amount then some amount else none

abbrev pub or_zero : Option ℤ → ℤ
or_zero none = pos 0
or_zero (some amount) = amount

-- What is read with `parse_brl` from the texts of a form, if it does not raise.
module _ (parse_brl : String → Result (Option ℤ)) where
  -- The amounts given for the items of a billing that vary, by their ids.
  abbrev pub variable_amounts : List BillingItem → (ℕ → String) → Result (List (ℕ × ℤ))
  variable_amounts [] text = ok []
  variable_amounts (item ∷ items) text =
      let rest = variable_amounts items text in
      elim item.item_type [
        | variable ↦ elim item.id [
          | none ↦ rest
          | some id ↦
              and_then (parse_brl (text id))
                λ amount. map_ok (λ amounts. (id, or_zero amount) ∷ amounts) rest
        ]
        | fixed ↦ rest
        | extra ↦ rest
      ]

  -- an extra before the others, if it is one
  abbrev with_extra : String → Option ℤ → List (String × ℤ) → List (String × ℤ)
  with_extra text none rest = rest
  with_extra text (some amount) rest = (text, amount) ∷ rest

  abbrev pub extras_of : List Row → Result (List (String × ℤ))
  extras_of [] = ok []
  extras_of (row ∷ rows) =
      let rest = extras_of rows in
      and_then (parse_brl row.amount)
        λ amount. map_ok (with_extra row.description (is_charge row.description amount)) rest

  -- The lines of the form of a bill, from the place of the next row.
  abbrev pub lines_of : ℕ → List Row → Result (List BillLineItem)
  lines_of i [] = ok []
  lines_of i (row ∷ rows) =
      let rest = lines_of (suc i) rows in
      if row.description == ""
      then rest
      else and_then (parse_brl row.amount) λ amount.
        map_ok
          (λ lines. line row.description (or_zero amount) (item_type_of row.item_type) i ∷ lines)
          rest

  -- The lines for the extras that are added, from the number of lines there are.
  abbrev pub extra_lines_of : ℕ → List Row → Result (List BillLineItem)
  extra_lines_of n rows = map_ok (extra_lines n) (extras_of rows)

unfoldable pub log_receipt : String → String → ℕ → Receipt → Stamp → W (Unit {0})
log_receipt bill_uuid billing_uuid user_id receipt stamp = do
  entry ← query (receipt_entry "receipt.upload" user_id receipt)
  log (record entry { new_state = some (receipt_state receipt bill_uuid billing_uuid) }) stamp

abbrev pub log_receipts : String → String → ℕ → List (Receipt × Stamp) → W (Unit {0})
log_receipts bill_uuid billing_uuid user_id [] = pure tt
log_receipts bill_uuid billing_uuid user_id ((receipt, stamp) ∷ receipts) =
    log_receipt bill_uuid billing_uuid user_id receipt stamp
    >> log_receipts bill_uuid billing_uuid user_id receipts

module _ (config : Config) where
  -- The loop that attaches the files that are uploaded with a new bill.
  abbrev pub attach : Bill → Billing → List Upload → W (List (Receipt × Stamp))
  attach bill billing [] = pure []
  attach bill billing (u ∷ uploads) =
      let rest = attach bill billing uploads in
      choose (not (is_attachable u)) rest do
        receipt ← call (
            add_receipt config bill billing u.filename u.file_bytes u.content_type u.key_uuid u.uuid
              u.now)
        attached ← rest
        pure ((receipt, u.stamp) ∷ attached)
