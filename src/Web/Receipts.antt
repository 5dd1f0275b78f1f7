-- ===== src/Web/Receipts.antt =====
-- web/routes/bill.py, the handlers of receipts. `url` is the field `next` of the form, or the page where
-- the bill is edited.
use landlord_cli.Bill
use landlord_cli.Billing
use landlord_cli.Prelude.{
  List, String, [], is_cons, ltb, nat_eq, not, some, string_eq, suc, true, ℕ, ◌==◌, ◌∷◌,
}
use landlord_cli.Errors.{format}
use landlord_cli.Models.{Bill, Billing}
use landlord_cli.Web.{
  Response, W, call, caught, choose, flash, flash_redirect, json, log, pure, query, redirect,
  text_of, try_call, with_some, ◌>>=◌, ◌>>◌,
}
use landlord_cli.Json.{arr, bool, dict, elems, str}
use landlord_cli.Audit.{Stamp}
use landlord_cli.Bill.Service.{
  Config, add_receipt, delete_receipt, get_receipt_by_uuid, reorder_receipts,
}
use landlord_cli.Authorization.{can_manage_bills}
use landlord_cli.Web.Bills.Shared.{
  Upload, bill_entry, is_attachable, log_receipt, receipt_entry, receipt_state, with_bill,
}

module _ (config : Config) where
  unfoldable pub receipt_delete : String → String → String → String → ℕ → Stamp → W Response
  receipt_delete billing_uuid bill_uuid receipt_uuid url user_id stamp =
      with_bill bill_uuid λ bill billing. do
        found ← query (λ w. get_receipt_by_uuid config receipt_uuid w.db)
        with_some found (flash_redirect "Comprovante não encontrado." "danger" url) λ receipt. do
          call (delete_receipt config receipt bill billing)
          entry ← query (receipt_entry "receipt.delete" user_id receipt)
          log
              (record entry {
                entity_uuid = receipt_uuid;
                previous_state = some (receipt_state receipt bill_uuid billing_uuid);
              })
              stamp
          flash_redirect "Comprovante removido." "success" url

  -- A file becomes a receipt.
  unfoldable pub upload_one : Bill → Billing → String → String → ℕ → Upload → W (Unit {0})
  upload_one bill billing bill_uuid billing_uuid user_id u = do
    receipt ← call (
        add_receipt config bill billing u.filename u.file_bytes u.content_type u.key_uuid u.uuid
          u.now)
    log_receipt bill_uuid billing_uuid user_id receipt u.stamp

  -- The loop of `receipt_upload`: the numbers of files attached and skipped.
  abbrev pub upload_all : Bill → Billing → String → String → ℕ → List Upload → W (ℕ × ℕ)
  upload_all bill billing bill_uuid billing_uuid user_id [] = pure (0, 0)
  upload_all bill billing bill_uuid billing_uuid user_id (u ∷ uploads) =
      let rest = upload_all bill billing bill_uuid billing_uuid user_id uploads in
      choose (not (is_attachable u)) (rest >>= λ counts. pure (counts.0, suc counts.1)) do
        upload_one bill billing bill_uuid billing_uuid user_id u
        counts ← rest
        pure (suc counts.0, counts.1)

  -- `uploads` are the files that have a name.
  unfoldable pub receipt_upload : String → String → List Upload → String → ℕ → W Response
  receipt_upload billing_uuid bill_uuid uploads url user_id = with_bill bill_uuid λ bill billing.
      choose (not (is_cons uploads)) (flash_redirect "Nenhum arquivo selecionado." "danger" url) do
        counts ← upload_all bill billing bill_uuid billing_uuid user_id uploads
        choose (counts.0 == 1) (flash "Comprovante anexado com sucesso!" "success") (
            choose (ltb 1 counts.0)
              (flash (format (text_of counts.0 ∷ " comprovantes anexados com sucesso!" ∷ []))
                "success")
              (pure tt))
        choose (counts.1 == 0) (pure tt) (
            flash
              (format (
                text_of counts.1
                ∷ " arquivo(s) ignorado(s) (tipo inválido, vazio ou muito grande)."
                ∷ []))
              "warning")
        pure (redirect url)

-- What the body of the request is: no JSON, JSON without a list under `order`, or a list.
pub data Body : Type 0 where
  no_json : Body
  no_list : Body
  order : List String → Body

abbrev error_json : ℕ → String → W Response
error_json status message = pure (json status (dict (("error", str message) ∷ [])))

module _ (config : Config) where
  abbrev pub reorder_to : Bill → Billing → ℕ → Stamp → Body → W Response
  reorder_to bill billing user_id stamp no_json = error_json 400 "JSON inválido."
  reorder_to bill billing user_id stamp no_list = error_json 400 "Campo 'order' deve ser uma lista."
  reorder_to bill billing user_id stamp (order uuids) = do
    done ← try_call (reorder_receipts config bill billing uuids)
    caught done (λ e. error_json 400 e)
        λ _. do
          entry ← query (bill_entry "receipt.reorder" user_id bill)
          log (record entry { new_state = some (dict (("order", arr (elems str uuids)) ∷ [])) })
              stamp
          pure (json 200 (dict (("ok", bool true) ∷ [])))

  unfoldable pub receipt_reorder : String → Body → ℕ → Stamp → W Response
  receipt_reorder bill_uuid body user_id stamp = do
    found ← query (λ w. Bill.get_by_uuid bill_uuid w.db)
    with_some found (error_json 404 "Fatura não encontrada.") λ bill. do
      found_billing ← query (λ w. Billing.get_by_id bill.billing_id w.db)
      with_some found_billing (error_json 404 "Cobrança não encontrada.") λ billing. do
        allowed ← query (λ w. can_manage_bills (some w.db) user_id billing)
        choose (not allowed) (error_json 403 "Acesso negado.")
            (reorder_to bill billing user_id stamp body)
