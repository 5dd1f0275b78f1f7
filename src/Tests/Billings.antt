-- ===== src/Tests/Billings.antt =====
-- Billings.
use mathlib.Core.Option
use landlord_cli.Billing.RoundTrip
use landlord_cli.Prelude.{[], arith, is_some, map, none, not, refl, some, ◌&&◌, ◌∷◌, ◌≡◌}
use landlord_cli.Sql.{desc, order_by, select}
use landlord_cli.Errors.{ok}
use landlord_cli.Models.{Billing}
use landlord_cli.Tests.Sample.{flat, house, sample}
use landlord_cli.Billing.{
  build_billing, build_billings_from_rows, create, delete, get_by_id, list_for_user, new_billing,
  row_to_billing, transfer_to_organization, update,
}
use landlord_cli.Billing.RoundTrip.{
  IsSound, create-get_by_id, delete-get_by_id, rewritten, stored_items, update-get_by_id,
}
use landlord_cli.Billing.Listing.{build_billings_from_rows_lem, list_for_user-can_view_billing}
use landlord_cli.Billing.Owner.{transfer_to_organization-role, transferred}
use landlord_cli.Authorization.{can_view_billing, get_role_for_billing}
use landlord_cli.Organization.{get_member}

billings-IsSound : RoundTrip.IsSound sample
billings-IsSound = record {
  fresh_ids = (omega arith, (omega arith, tt));
  item_billings = (omega arith, (omega arith, tt));
}

abbrev shop : Billing
shop = record (row_to_billing sample flat) { name = "Loja" }

create-get_by_id_example :
    let created = record (build_billing (new_billing shop "B3" 9 3) []) {
      items = stored_items 3 3 0 shop.items;
    } in
    let (r, db') = create shop "B3" 9 sample in (r ≡ ok created) × (get_by_id 3 db' ≡ some created)
create-get_by_id_example = create-get_by_id shop "B3" 9 sample billings-IsSound

update-get_by_id_example :
    let updated = record (build_billing (rewritten shop 9 flat) []) {
      items = stored_items 1 3 0 shop.items;
    } in
    let (r, db') = update (record shop { id = some 1 }) 9 sample in
    (r ≡ ok updated) × (get_by_id 1 db' ≡ some updated) × (get_by_id 2 db' ≡ get_by_id 2 sample)
update-get_by_id_example = update-get_by_id 1 flat shop 9 2 sample refl (omega arith)

delete-get_by_id_example : get_by_id 1 (delete 1 9 sample).1 ≡ none
delete-get_by_id_example = delete-get_by_id 1 1 9 sample

build_billings_from_rows_lem_example :
    build_billings_from_rows sample (flat ∷ house ∷ [])
    ≡ row_to_billing sample flat ∷ row_to_billing sample house ∷ []
build_billings_from_rows_lem_example = build_billings_from_rows_lem sample (flat ∷ house ∷ [])

list_for_user-can_view_billing_example :
    list_for_user 1 sample
    ≡ map (row_to_billing sample) (
        order_by (desc (λ r. r.created_at)) (
          select
            (λ r.
              not (is_some r.deleted_at)
              && can_view_billing (some sample) 1 (row_to_billing sample r))
            sample.billings.rows))
list_for_user-can_view_billing_example = list_for_user-can_view_billing 1 sample

transfer_to_organization-role_example :
    let (r, db') = transfer_to_organization 1 1 9 sample in
    (r ≡ ok tt)
    × (get_by_id 1 db' ≡ some (row_to_billing sample (transferred 1 9 flat)))
    × (get_role_for_billing (some db') 2 (row_to_billing sample (transferred 1 9 flat))
        ≡ Option.map (λ m. m.role) (get_member 1 2 sample))
transfer_to_organization-role_example = transfer_to_organization-role 1 1 9 2 flat sample refl refl
