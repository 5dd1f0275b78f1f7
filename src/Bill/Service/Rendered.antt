-- ===== src/Bill/Service/Rendered.antt =====
-- What a PDF that is made leaves: the path of the bill, and the file.
use mathlib.Core.Option
use landlord_cli.Prelude.{
  ==_refl, List, Option-cases, String, ap, arith, if◌then◌else◌, inl, inr, is_cons, is_some, nat_eq,
  refl, some, string_eq, true, ℕ, ◌==◌, ◌∙◌, ◌≡◌,
}
use landlord_cli.Sql.{find, find-eq-some, find-update_where}
use landlord_cli.Errors.{ok}
use landlord_cli.Models.{Bill, BillLineItem, Billing}
use landlord_cli.Db.{Db}
use landlord_cli.Prelude.Int.{ℤ}
use landlord_cli.Bill.{bill_is, get_by_id, inserted_db, update_pdf_path}
use landlord_cli.Bill.Service.{
  Config, bill_lines, fetch_receipt_data, generate_and_store_pdf, generate_bill, get_file, put_file,
  storage_key,
}
use landlord_cli.Bill.Service.Totals.{IsSoundDb}
use landlord_cli.Bill.Service.Stored.{created_bill, draft, generate_bill_lem, get_by_id-insert_bill}

abbrev pub with_path : String → Bill → Bill
with_path path bill = record bill { pdf_path = some path }

get_by_id-update_pdf_path :
    (bill_id : ℕ) (path : String) (db : Db)
    → get_by_id bill_id (update_pdf_path bill_id path db).1
      ≡ Option.map (with_path path) (get_by_id bill_id db)
unfolding get_by_id update_pdf_path
get_by_id-update_pdf_path bill_id path db =
    let e =
      find-update_where (bill_is bill_id) (λ r. r.id == bill_id)
        (λ r. record r { pdf_path = some path }) (λ r. refl) db.bills.rows in
    elim (Option-cases (find (bill_is bill_id) db.bills.rows)) [
      | inl absent ↦ ground (arith, e, absent)
      | inr (row, found) ↦
          ground (arith, e, found, find-eq-some (bill_is bill_id) db.bills.rows row found)
    ]

-- the file of a bill: its PDF, with its receipts merged in where it has any
abbrev pub merged_pdf : Config → Bill → List ℕ → Db → List ℕ
merged_pdf config bill pdf db =
    let receipt_data = fetch_receipt_data config bill db in
    if is_cons receipt_data then config.merge_receipts pdf receipt_data else pdf

module _ (config : Config) (bill : Bill) (billing : Billing) (bill_id : ℕ) (pdf : List ℕ)
    (path : String) (db : Db) (has_id : bill.id ≡ some bill_id)
    (rendered : config.generate bill billing db ≡ ok pdf)
    (saved : config.save_path (storage_key config.storage_prefix billing.uuid bill.uuid)
      ≡ ok path) where
  abbrev pub stored_db : Db
  stored_db =
      (update_pdf_path bill_id path (
        put_file (storage_key config.storage_prefix billing.uuid bill.uuid)
          (merged_pdf config bill pdf db) db)).1

  pub generate_and_store_pdf_lem :
      generate_and_store_pdf config bill billing db ≡ (ok (with_path path bill), stored_db)
  unfolding generate_and_store_pdf update_pdf_path
  generate_and_store_pdf_lem = ground (arith, has_id, rendered, saved)

  get_by_id-stored_db :
      get_by_id bill_id stored_db ≡ Option.map (with_path path) (get_by_id bill_id db)
  unfolding get_by_id
  get_by_id-stored_db = get_by_id-update_pdf_path bill_id path (
      put_file (storage_key config.storage_prefix billing.uuid bill.uuid)
        (merged_pdf config bill pdf db) db)

  get_file-stored_db :
      get_file (storage_key config.storage_prefix billing.uuid bill.uuid) stored_db.files
      ≡ some (merged_pdf config bill pdf db)
  unfolding update_pdf_path
  get_file-stored_db =
      let same = ==_refl (storage_key config.storage_prefix billing.uuid bill.uuid) in rw same refl

-- When the lines of a new bill of a known billing are made, in a sound database, and its PDF is made
-- and saved, the bill that is returned is the one that is stored:
-- a draft with its items and the path of the file; and the file is the PDF under the key of the bill.
pub generate_bill_with_pdf :
    (config : Config) (billing : Billing) (billing_id : ℕ) (reference_month : String)
    (variable_amounts : List (ℕ × ℤ)) (extras : List (String × ℤ)) (notes due_date uuid : String)
    (now : ℕ) (lines : List BillLineItem) (pdf : List ℕ) (path : String) (db : Db)
    → IsSoundDb db
    → bill_lines 0 variable_amounts extras billing.items ≡ ok lines
    → billing.id ≡ some billing_id
    → is_some (find (λ b. b.id == billing_id) db.billings.rows) ≡ true
    → let made = created_bill (draft billing_id reference_month lines notes due_date) uuid now db in
      let made_db =
        inserted_db (draft billing_id reference_month lines notes due_date) uuid now db in
      let key = storage_key config.storage_prefix billing.uuid uuid in
      config.generate made billing made_db ≡ ok pdf
      → config.save_path key ≡ ok path
      → let (r, db') =
          generate_bill config billing reference_month variable_amounts extras notes due_date uuid
            now db in
        (r ≡ ok (with_path path made))
        × (get_by_id db.bills.next db' ≡ some (with_path path made))
        × (get_file key db'.files ≡ some (merged_pdf config made pdf made_db))
generate_bill_with_pdf config billing billing_id month v e notes due uuid now lines pdf path db h
      made_lines has_id known rendered saved =
    let draft_bill = draft billing_id month lines notes due in
    let made = created_bill draft_bill uuid now db in
    let made_db = inserted_db draft_bill uuid now db in
    let id = db.bills.next in
    let step =
      generate_bill_lem config billing billing_id month v e notes due uuid now lines db h made_lines
        has_id known
      ∙ generate_and_store_pdf_lem config made billing id pdf path made_db refl rendered saved in
    rw step (
      refl,
      get_by_id-stored_db config made billing id pdf path made_db refl rendered saved
          ∙ ap (Option.map (with_path path)) (get_by_id-insert_bill draft_bill uuid now db h known),
      get_file-stored_db config made billing id pdf path made_db refl rendered saved,
    )
