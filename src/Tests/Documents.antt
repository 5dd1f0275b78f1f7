-- ===== src/Tests/Documents.antt =====
-- The PDFs, receipts and statuses of bills.
use mathlib.Core.Option
use landlord_cli.Prelude.{[], contains, false, refl, some, string_eq, true, ◌∷◌, ◌≡◌, ◌⊎◌}
use landlord_cli.Errors.{is_ok, ok}
use landlord_cli.Tests.Sample.{config, march, sample}
use landlord_cli.Tests.Bills.{bills-IsSoundDb, lines, made_lines, template}
use landlord_cli.Prelude.Int.{pos}
use landlord_cli.Bill.Service.{
  add_receipt, change_status, generate_bill, get_file, statuses, storage_key,
}
use landlord_cli.Bill.Service.Stored.{created_bill, draft}
use landlord_cli.Bill.Service.Rendered.{generate_bill_with_pdf, merged_pdf, with_path}
use landlord_cli.Bill.Service.Guards.{add_receipt_refused, change_status-get_by_id, with_status}
use landlord_cli.Bill.{get_by_id, inserted_db, row_to_bill}

generate_bill_with_pdf_example :
    let (r, db') =
      generate_bill config template "2025-04"
        ((2, pos 80) ∷ [])
        (("Multa", pos 50) ∷ [])
        ""
        ""
        "C2"
        9
        sample in
    let made = created_bill (draft 1 "2025-04" lines "" "") "C2" 9 sample in
    let key = storage_key "bills" "B1" "C2" in
    (r ≡ ok (with_path key made))
    × (get_by_id 2 db' ≡ some (with_path key made))
    × (get_file key db'.files
        ≡ some (
            merged_pdf config made
              (1 ∷ 2 ∷ [])
              (inserted_db (draft 1 "2025-04" lines "" "") "C2" 9 sample)))
generate_bill_with_pdf_example =
    generate_bill_with_pdf config template 1 "2025-04" ((2, pos 80) ∷ []) (("Multa", pos 50) ∷ [])
      "" "" "C2" 9 lines (1 ∷ 2 ∷ []) (storage_key "bills" "B1" "C2") sample bills-IsSoundDb
      made_lines refl refl refl refl

add_receipt_refused_example :
    let (r, db') =
      add_receipt config
        (row_to_bill sample march)
        template
        "note.txt"
        (1 ∷ [])
        "text/plain"
        "K"
        "R1"
        9
        sample in
    (is_ok r ≡ false) × (db' ≡ sample)
add_receipt_refused_example =
    add_receipt_refused config (row_to_bill sample march) template "note.txt" (1 ∷ []) "text/plain"
      "K" "R1" 9 sample refl

change_status-get_by_id_example :
    let (r, db') = change_status (row_to_bill sample march) "paid" 9 sample in
    (contains ⦃e = string_eq⦄ "paid" statuses ≡ true)
      × (is_ok r ≡ true)
      × (get_by_id 1 db' ≡ Option.map (with_status "paid" 9) (get_by_id 1 sample))
      × (db' ≡ record sample { bills = db'.bills })
    ⊎ (contains ⦃e = string_eq⦄ "paid" statuses ≡ false) × (is_ok r ≡ false) × (db' ≡ sample)
change_status-get_by_id_example =
    change_status-get_by_id (row_to_bill sample march) 1 1 "paid" 9 sample refl
