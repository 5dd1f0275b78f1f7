-- ===== src/Web/Billings.antt =====
-- web/routes/billing.py, the handlers of forms. `user_id` is the signed-in user, whom the middleware
-- asks for; texts of forms come stripped, and the rows of a form as parse_formset gives them.
use landlord_cli.Billing
use landlord_cli.Prelude.{
  Bool, List, Option, String, [], false, if◌then◌else◌, is_cons, nat_eq, none, not, some, string_eq,
  true, ℕ, ◌==◌, ◌∷◌,
}
use landlord_cli.Sql.{updated}
use landlord_cli.Errors.{Result, and_then, err, format, map_ok, ok, value_error}
use landlord_cli.Models.{Billing, BillingItem, ItemType, extra, fixed, variable}
use landlord_cli.Web.{
  Response, W, Web, call, caught, choose, flash_redirect, log, query, try_call, web_entry,
  with_some, ◌>>=◌, ◌>>◌,
}
use landlord_cli.Json.{dict, nat, str}
use landlord_cli.Audit.{Entry, Stamp}
use landlord_cli.Audit.Serializers.{serialize_billing}
use landlord_cli.Authorization.{can_delete_billing, can_edit_billing, can_transfer_billing}
use landlord_cli.Prelude.Int.{pos, ℤ}
use landlord_cli.Web.Bills.Shared.{Row, billing_path, item_type_of, or_zero}
use landlord_cli.Billing.{create_billing, delete, get_by_uuid, transfer_to_organization, update}
use landlord_cli.Db.{Db, M, lift}
use landlord_cli.Money.{parse_brl}
use landlord_cli.Pix.{Text}

-- The field `organization_id`: empty, a number, or a text that `int` refuses with this message.
pub data OrgField : Type 0 where
  empty : OrgField
  number : ℕ → OrgField
  no_number : String → OrgField

-- How the handlers of a billing begin: the billing is looked up, and the user has the right.
unfoldable pub as_allowed :
    (Option Db → ℕ → Billing → Bool) → String → ℕ → (Billing → W Response) → W Response
as_allowed right billing_uuid user_id k = do
  found ← query (λ w. Billing.get_by_uuid billing_uuid w.db)
  with_some found (flash_redirect "Cobrança não encontrada." "danger" "/") λ billing. do
    allowed ← query (λ w. right (some w.db) user_id billing)
    choose (not allowed) (flash_redirect "Acesso negado." "danger" (billing_path billing_uuid))
        (k billing)

abbrev billing_entry : String → ℕ → Billing → Web → Entry
billing_entry event_type user_id billing w =
    record (web_entry event_type (some user_id) w.session.username) {
      entity_type = "billing";
      entity_id = billing.id;
      entity_uuid = billing.uuid;
    }

abbrev item_of : Row → ItemType → ℤ → BillingItem
item_of row item_type amount = record {
  id = none;
  billing_id = none;
  description = row.description;
  amount = amount;
  item_type = item_type;
  sort_order = 0;
}

module _ (parse_brl : String → Result (Option ℤ)) where
  -- Only a fixed item has an amount.
  abbrev amount_of : Row → ItemType → Result ℤ
  amount_of row fixed = map_ok or_zero (parse_brl row.amount)
  amount_of row variable = ok (pos 0)
  amount_of row extra = ok (pos 0)

  -- the items of the form
  abbrev pub items_of_rows : List Row → Result (List BillingItem)
  items_of_rows [] = ok []
  items_of_rows (row ∷ rows) =
      let rest = items_of_rows rows in
      let item_type = item_type_of row.item_type in
      if row.description == ""
      then rest
      else and_then (amount_of row item_type)
          λ amount. map_ok (λ items. item_of row item_type amount ∷ items) rest

abbrev pub owner_of : ℕ → OrgField → Result (String × ℕ)
owner_of user_id empty = ok ("user", user_id)
owner_of user_id (number id) = ok ("organization", id)
owner_of user_id (no_number e) = err (value_error e)

unfoldable pub billing_create :
    (Text → Result ℤ)
    → String
    → String
    → String
    → List Row
    → OrgField
    → ℕ
    → String
    → ℕ
    → Stamp
    → W Response
billing_create to_centavos name description pix_key rows organization user_id uuid now stamp =
    choose (name == "") (flash_redirect "Nome é obrigatório." "danger" "/billings/create") do
      items ← call (lift (items_of_rows (parse_brl to_centavos) rows))
      choose (not (is_cons items))
          (flash_redirect "Adicione pelo menos um item." "danger" "/billings/create")
          do
            owner ← call (lift (owner_of user_id organization))
            billing ← call (create_billing name description items pix_key owner.0 owner.1 uuid now)
            entry ← query (billing_entry "billing.create" user_id billing)
            log (record entry { new_state = some (serialize_billing billing) }) stamp
            flash_redirect (format ("Cobrança '" ∷ billing.name ∷ "' criada com sucesso!" ∷ []))
                "success" (billing_path billing.uuid)

unfoldable pub billing_edit :
    (Text → Result ℤ) → String → String → String → String → List Row → ℕ → ℕ → Stamp → W Response
billing_edit to_centavos billing_uuid name description pix_key rows user_id now stamp =
    as_allowed can_edit_billing billing_uuid user_id λ billing. do
      items ← call (lift (items_of_rows (parse_brl to_centavos) rows))
      choose (not (is_cons items))
          (flash_redirect "A cobrança precisa de pelo menos um item." "danger"
            (format ("/billings/" ∷ billing_uuid ∷ "/edit" ∷ [])))
          do
            updated ← call (
                Billing.update
                  (record billing {
                    name = name;
                    description = description;
                    pix_key = pix_key;
                    items = items;
                  })
                  now)
            entry ← query (billing_entry "billing.update" user_id updated)
            log
                (record entry {
                  previous_state = some (serialize_billing billing);
                  new_state = some (serialize_billing updated);
                })
                stamp
            flash_redirect "Cobrança atualizada com sucesso!" "success" (billing_path billing_uuid)

-- `transfer_to_organization` with what is in its `try`; without an id the billing is not found
abbrev transfer_to : Option ℕ → OrgField → ℕ → M ℕ
transfer_to id empty now db = (ok 0, db)
transfer_to id (no_number e) now db = (err (value_error e), db)
transfer_to none (number org_id) now db = (err (value_error "Billing not found"), db)
transfer_to (some id) (number org_id) now db =
    let (r, db') = transfer_to_organization id org_id now db in
    (elim r [ ok _ ↦ ok org_id | err e ↦ err e ], db')

abbrev is_empty : OrgField → Bool
is_empty empty = true
is_empty (number id) = false
is_empty (no_number e) = false

unfoldable pub billing_transfer : String → OrgField → ℕ → ℕ → Stamp → W Response
billing_transfer billing_uuid organization user_id now stamp =
    as_allowed (λ repo. can_transfer_billing) billing_uuid user_id
      λ billing.
        choose (is_empty organization)
          (flash_redirect "Selecione uma organização." "danger" (billing_path billing_uuid))
          do
            done ← try_call (transfer_to billing.id organization now)
            caught done (λ e. flash_redirect e "danger" (billing_path billing_uuid))
                λ org_id. do
                  entry ← query (billing_entry "billing.transfer" user_id billing)
                  log
                      (record entry {
                        previous_state = some (
                            dict (
                              ("owner_type", str billing.owner_type)
                              ∷ ("owner_id", nat billing.owner_id)
                              ∷ []));
                        new_state = some (
                            dict
                              (("owner_type", str "organization") ∷ ("owner_id", nat org_id) ∷ []));
                      })
                      stamp
                  flash_redirect "Cobrança transferida com sucesso!" "success"
                      (billing_path billing_uuid)

unfoldable pub billing_delete : String → ℕ → ℕ → Stamp → W Response
billing_delete billing_uuid user_id now stamp =
    as_allowed can_delete_billing billing_uuid user_id λ billing.
      with_some billing.id (flash_redirect "Cobrança inválida." "danger" "/") λ id. do
        call (Billing.delete id now)
        entry ← query (billing_entry "billing.delete" user_id billing)
        log (record entry { previous_state = some (serialize_billing billing) }) stamp
        flash_redirect (format ("Cobrança '" ∷ billing.name ∷ "' excluída." ∷ [])) "success" "/"
