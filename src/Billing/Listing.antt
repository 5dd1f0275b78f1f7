-- ===== src/Billing/Listing.antt =====
-- The lists of billings: their items come from one SELECT for all billings, and a user sees there
-- what the authorization service lets the user view.
use landlord_cli.Prelude.{
  Bool, List, [], ap, fun_ext, is_some, map, not, refl, some, ℕ, ◌&&◌, ◌∙◌, ◌∷◌, ◌≡◌,
}
use landlord_cli.Sql.{asc, desc, order_by, select}
use landlord_cli.Sql.Order.{asc-IsOrder}
use landlord_cli.Sql.Group.{map-get_group}
use landlord_cli.Models.{BillingRow}
use landlord_cli.Db.{Db}
use landlord_cli.Billing.{
  build_billing, build_billings_from_rows, list_for_user, owned_by, row_to_billing,
}
use landlord_cli.Authorization.{can_view_billing}
use landlord_cli.Authorization.Access.{owned_by-can_view_billing}

-- Items fetched for all rows at once are the items that each row would fetch for itself.
pub build_billings_from_rows_lem :
    (db : Db) (rows : List BillingRow)
    → build_billings_from_rows db rows ≡ map (row_to_billing db) rows
unfolding build_billings_from_rows
build_billings_from_rows_lem db [] = refl
build_billings_from_rows_lem db (first ∷ rest) =
    map-get_group (λ r. r.id) (λ r. r.billing_id) (asc (λ r. r.sort_order))
      (asc-IsOrder (λ r. r.sort_order)) build_billing db.billing_items.rows (first ∷ rest)

-- The list for a user is the billings that are not deleted and that the user may view, newest first,
-- each with its items in order.
pub list_for_user-can_view_billing :
    (user_id : ℕ) (db : Db)
    → list_for_user user_id db
      ≡ map (row_to_billing db) (
          order_by (desc (λ r. r.created_at)) (
            select
              (λ r.
                not (is_some r.deleted_at)
                && can_view_billing (some db) user_id (row_to_billing db r))
              db.billings.rows))
unfolding list_for_user
list_for_user-can_view_billing user_id db =
    build_billings_from_rows_lem db (
      order_by (desc (λ r. r.created_at))
        (select (λ r. not (is_some r.deleted_at) && owned_by db user_id r) db.billings.rows))
    ∙ ap
        (λ (p : BillingRow → Bool). map (row_to_billing db) (
          order_by (desc (λ r. r.created_at))
            (select (λ r. not (is_some r.deleted_at) && p r) db.billings.rows)))
        (fun_ext (owned_by-can_view_billing db user_id))
