-- ===== src/Tests/Bills.antt =====
-- Bills and the service over them.
use landlord_cli.Prelude.{List, [], arith, none, refl, some, ◌∷◌, ◌≡◌}
use landlord_cli.Errors.{err, ok, runtime_error}
use landlord_cli.Models.{BillLineItem, Billing, extra, fixed, variable}
use landlord_cli.Tests.Sample.{config, failing, flat, march, sample}
use landlord_cli.Prelude.Int.{pos, ◌+ℤ◌}
use landlord_cli.Bill.Service.{amounts, bill_lines, generate_bill, line, sum_amounts}
use landlord_cli.Bill.Service.Totals.{IsSoundDb}
use landlord_cli.Bill.Service.Kept.{edit, generate, remove, run_all, run_all-totals}
use landlord_cli.Bill.Service.Generate.{bill_lines-total}
use landlord_cli.Bill.Service.Stored.{created_bill, draft, generate_bill_without_pdf}
use landlord_cli.Bill.{get_by_id, row_to_bill}
use landlord_cli.Billing.{row_to_billing}

pub bills-IsSoundDb : IsSoundDb sample
unfolding ◌+ℤ◌ sum_amounts
bills-IsSoundDb = record {
  fresh_ids = (omega arith, tt);
  line_bills = (omega arith, (omega arith, tt));
  totals = (refl, tt);
}

abbrev pub template : Billing
template = row_to_billing sample flat

abbrev pub lines : List BillLineItem
lines =
    line "Aluguel" (pos 1000) fixed 0
    ∷ line "Agua" (pos 80) variable 1
    ∷ line "Multa" (pos 50) extra 2
    ∷ []

run_all-totals_example : IsSoundDb (
    run_all config
      (generate template "2025-04" ((2, pos 80) ∷ []) (("Multa", pos 50) ∷ []) "" "" "C2" 9
        ∷ edit (row_to_bill sample march) template [] "" ""
        ∷ remove 1 10
        ∷ [])
      sample)
run_all-totals_example =
    run_all-totals config
      (generate template "2025-04" ((2, pos 80) ∷ []) (("Multa", pos 50) ∷ []) "" "" "C2" 9
        ∷ edit (row_to_bill sample march) template [] "" ""
        ∷ remove 1 10
        ∷ [])
      sample bills-IsSoundDb

pub made_lines : bill_lines 0 ((2, pos 80) ∷ []) (("Multa", pos 50) ∷ []) template.items ≡ ok lines
unfolding bill_lines
made_lines = refl

bill_lines-total_example : sum_amounts (amounts lines) ≡ pos 1130
unfolding ◌+ℤ◌
bill_lines-total_example =
    bill_lines-total 0 ((2, pos 80) ∷ []) (("Multa", pos 50) ∷ []) template.items lines made_lines

generate_bill_without_pdf_example :
    let (r, db') =
      generate_bill failing template "2025-04"
        ((2, pos 80) ∷ [])
        (("Multa", pos 50) ∷ [])
        ""
        ""
        "C2"
        9
        sample in
    let made = created_bill (draft 1 "2025-04" lines "" "") "C2" 9 sample in
    (r ≡ err (runtime_error "no font")) × (get_by_id 2 db' ≡ some made) × (made.pdf_path ≡ none)
generate_bill_without_pdf_example =
    generate_bill_without_pdf failing template 1 "2025-04" ((2, pos 80) ∷ [])
      (("Multa", pos 50) ∷ []) "" "" "C2" 9 lines sample (runtime_error "no font") bills-IsSoundDb
      made_lines refl refl refl
