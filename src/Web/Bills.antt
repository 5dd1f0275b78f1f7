-- ===== src/Web/Bills.antt =====
-- web/routes/bill.py, the handlers of bills. `user_id` is the signed-in user, whom the middleware asks
-- for; texts of forms come stripped, and the rows of a form as parse_formset gives them.
pub mod Shared
pub mod Kept
use landlord_cli.Bill
use landlord_cli.Billing
use landlord_cli.Prelude.{
  List, String, [], length, nat_eq, not, some, string_eq, ℕ, ◌++◌, ◌==◌, ◌∷◌,
}
use landlord_cli.Sql.{updated}
use landlord_cli.Errors.{Result}
use landlord_cli.Models.{Bill, Billing}
use landlord_cli.Web.{
  Response, W, call, caught, choose, flash_redirect, log, query, try_call, with_some, ◌>>=◌, ◌>>◌,
}
use landlord_cli.Json.{dict, opt, str}
use landlord_cli.Audit.{Stamp}
use landlord_cli.Audit.Serializers.{serialize_bill}
use landlord_cli.Bill.Service.{
  Config, amounts, change_status, generate_bill, regenerate_pdf, update_bill,
}
use landlord_cli.Authorization.{can_manage_bills}
use landlord_cli.Prelude.Int.{ℤ}
use landlord_cli.Web.Bills.Shared.{
  Row, Upload, attach, bill_entry, bill_path, billing_path, extra_lines_of, extras_of, lines_of,
  log_receipts, variable_amounts, with_bill,
}
use landlord_cli.Db.{lift}
use landlord_cli.Money.{parse_brl}
use landlord_cli.Pix.{Text}

unfoldable pub bill_change_status : String → String → String → ℕ → ℕ → Stamp → W Response
bill_change_status billing_uuid bill_uuid new_status user_id now stamp =
    with_bill bill_uuid λ bill billing. do
      allowed ← query (λ w. can_manage_bills (some w.db) user_id billing)
      choose (not allowed) (flash_redirect "Acesso negado." "danger" (billing_path billing_uuid)) do
        done ← try_call (change_status bill new_status now)
        caught done
            (λ _. flash_redirect "Status inválido." "danger" (bill_path billing_uuid bill_uuid))
            λ changed. do
              entry ← query (bill_entry "bill.status_change" user_id changed)
              log
                  (record entry {
                    previous_state = some (dict (("status", str bill.status) ∷ []));
                    new_state = some (dict (("status", str changed.status) ∷ []));
                  })
                  stamp
              flash_redirect "Status atualizado!" "success" (bill_path billing_uuid bill.uuid)

unfoldable pub bill_delete : String → String → ℕ → ℕ → Stamp → W Response
bill_delete billing_uuid bill_uuid user_id now stamp = do
  found ← query (λ w. Bill.get_by_uuid bill_uuid w.db)
  with_some found (flash_redirect "Fatura não encontrada." "danger" "/") λ bill.
      with_some bill.id (flash_redirect "Fatura inválida." "danger" "/") λ bill_id. do
        call (Bill.delete bill_id now)
        entry ← query (bill_entry "bill.delete" user_id bill)
        log (record entry { previous_state = some (serialize_bill bill) }) stamp
        flash_redirect "Fatura excluída." "success" (billing_path billing_uuid)

module _ (config : Config) where
  -- `variable` is the text of the form for each item; `uuid` and `now` are of the bill.
  unfoldable pub bill_generate :
      (Text → Result ℤ)
      → String
      → String
      → String
      → String
      → (ℕ → String)
      → List Row
      → List Upload
      → String
      → ℕ
      → ℕ
      → Stamp
      → W Response
  bill_generate to_centavos billing_uuid reference_month due_date notes texts rows uploads uuid now
        user_id stamp =
      do
        found ← query (λ w. Billing.get_by_uuid billing_uuid w.db)
        with_some found (flash_redirect "Cobrança não encontrada." "danger" "/") λ billing. do
          allowed ← query (λ w. can_manage_bills (some w.db) user_id billing)
          choose (not allowed)
              (flash_redirect "Acesso negado." "danger" (billing_path billing_uuid))
              (choose (reference_month == "")
                (flash_redirect "Mês de referência é obrigatório." "danger"
                  (bill_path billing_uuid "generate"))
                do
                  amounts ←
                      call (lift (variable_amounts (parse_brl to_centavos) billing.items texts))
                  extras ← call (lift (extras_of (parse_brl to_centavos) rows))
                  bill ← call (
                      generate_bill config billing reference_month amounts extras notes due_date
                        uuid now)
                  attached ← attach config bill billing uploads
                  entry ← query (bill_entry "bill.create" user_id bill)
                  log (record entry { new_state = some (serialize_bill bill) }) stamp
                  log_receipts bill.uuid billing_uuid user_id attached
                  flash_redirect "Fatura gerada com sucesso!" "success"
                      (bill_path billing_uuid bill.uuid))

  unfoldable pub bill_edit :
      (Text → Result ℤ)
      → String
      → String
      → String
      → String
      → List Row
      → List Row
      → ℕ
      → Stamp
      → W Response
  bill_edit to_centavos billing_uuid bill_uuid due_date notes rows extras user_id stamp =
      with_bill bill_uuid λ bill billing. do
        items ← call (lift (lines_of (parse_brl to_centavos) 0 rows))
        added ← call (lift (extra_lines_of (parse_brl to_centavos) (length items) extras))
        updated ← call (update_bill config bill billing (items ++ added) notes due_date)
        entry ← query (bill_entry "bill.update" user_id updated)
        log
            (record entry {
              previous_state = some (serialize_bill bill);
              new_state = some (serialize_bill updated);
            })
            stamp
        flash_redirect "Fatura atualizada com sucesso!" "success"
            (bill_path billing_uuid updated.uuid)

  unfoldable pub bill_regenerate_pdf : String → String → ℕ → Stamp → W Response
  bill_regenerate_pdf billing_uuid bill_uuid user_id stamp = with_bill bill_uuid λ bill billing. do
    regenerated ← call (regenerate_pdf config bill billing)
    entry ← query (bill_entry "bill.regenerate_pdf" user_id bill)
    log
        (record entry {
          previous_state = some (dict (("pdf_path", opt str bill.pdf_path) ∷ []));
          new_state = some (dict (("pdf_path", opt str regenerated.pdf_path) ∷ []));
        })
        stamp
    flash_redirect "PDF regenerado com sucesso!" "success" (bill_path billing_uuid bill.uuid)
