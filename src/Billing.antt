-- ===== src/Billing.antt =====
-- rentivo/repositories/sqlalchemy.py, SQLAlchemyBillingRepository, and
-- rentivo/services/billing_service.py. A RuntimeError carries its text without the id at the end.
pub mod RoundTrip
pub mod Listing
pub mod Owner
use mathlib.Core.Option
use landlord_cli.Prelude.{
  Bool, List, Option, String, [], contains, if◌then◌else◌, is_cons, is_some, map, nat_eq, none, not,
  some, string_eq, ℕ, ◌&&◌, ◌==◌, ◌||◌, ◌∷◌,
}
use landlord_cli.Sql.{asc, delete_where, desc, find, insert_row, order_by, select, update_where}
use landlord_cli.Sql.Group.{get_group, group_rows}
use landlord_cli.Sql.Children.{insert_children}
use landlord_cli.Errors.{integrity_error, ok, runtime_error, value_error}
use landlord_cli.Models.{Billing, BillingItem, BillingRow, ItemRow}
use landlord_cli.Db.{Db, M, execute, gets, or_raise, raise, raise_if, ◌>>=◌, ◌>>◌}

abbrev pub row_to_item : ItemRow → BillingItem
row_to_item r = record {
  id = some r.id;
  billing_id = some r.billing_id;
  description = r.description;
  amount = r.amount;
  item_type = r.item_type;
  sort_order = r.sort_order;
}

-- `_build_billing`
abbrev pub build_billing : BillingRow → List ItemRow → Billing
build_billing row item_rows = record {
  id = some row.id;
  uuid = row.uuid;
  name = row.name;
  description = row.description;
  pix_key = row.pix_key;
  owner_type = row.owner_type;
  owner_id = row.owner_id;
  items = map row_to_item item_rows;
  created_at = some row.created_at;
  updated_at = some row.updated_at;
  deleted_at = row.deleted_at;
}

-- SELECT * FROM billing_items WHERE billing_id = :billing_id ORDER BY sort_order
abbrev pub items_of : Db → ℕ → List ItemRow
items_of db billing_id =
    order_by (asc (λ r. r.sort_order))
      (select (λ r. r.billing_id == billing_id) db.billing_items.rows)

-- `_row_to_billing`
abbrev pub row_to_billing : Db → BillingRow → Billing
row_to_billing db row = build_billing row (items_of db row.id)

abbrev pub billing_is : ℕ → BillingRow → Bool
billing_is billing_id r = r.id == billing_id && not (is_some r.deleted_at)

unfoldable pub get_by_id : ℕ → Db → Option Billing
get_by_id billing_id db =
    Option.map (row_to_billing db) (find (billing_is billing_id) db.billings.rows)

unfoldable pub get_by_uuid : String → Db → Option Billing
get_by_uuid uuid db =
    Option.map (row_to_billing db)
      (find (λ r. r.uuid == uuid && not (is_some r.deleted_at)) db.billings.rows)

-- a row of `billing_items`, from its id, its place and the item
abbrev pub new_item : ℕ → ℕ → ℕ → BillingItem → ItemRow
new_item billing_id id i item = record {
  id = id;
  billing_id = billing_id;
  description = item.description;
  amount = item.amount;
  item_type = item.item_type;
  sort_order = i;
}

abbrev pub new_billing : Billing → String → ℕ → ℕ → BillingRow
new_billing billing uuid now id = record {
  id = id;
  uuid = uuid;
  name = billing.name;
  description = billing.description;
  pix_key = billing.pix_key;
  owner_type = billing.owner_type;
  owner_id = billing.owner_id;
  created_at = now;
  updated_at = now;
  deleted_at = none;
}

-- the INSERTs of `create`, with the id that `lastrowid` gives
abbrev pub insert_billing : Billing → String → ℕ → M ℕ
insert_billing billing uuid now db =
    let billing_id = db.billings.next in
    (
      ok billing_id,
      record db {
        billings = insert_row (new_billing billing uuid now) db.billings;
        billing_items = insert_children (new_item billing_id) 0 billing.items db.billing_items;
      },
    )

unfoldable pub create : Billing → String → ℕ → M Billing
unfolding get_by_id
create billing uuid now = do
  billing_id ← insert_billing billing uuid now
  result ← gets (get_by_id billing_id)
  or_raise result (runtime_error "Failed to retrieve billing after create")

-- `_build_billings_from_rows`: one SELECT for the items of all the rows
unfoldable pub build_billings_from_rows : Db → List BillingRow → List Billing
build_billings_from_rows db [] = []
build_billings_from_rows db (first ∷ rest) =
    let rows = first ∷ rest in
    let billing_ids = map (λ r. r.id) rows in
    let all_items =
      order_by (asc (λ r. r.sort_order))
        (select (λ r. contains r.billing_id billing_ids) db.billing_items.rows) in
    let items_by_billing = group_rows (λ r. r.billing_id) all_items in
    map (λ row. build_billing row (get_group (λ r. r.billing_id) row.id items_by_billing)) rows

unfoldable pub list_all : Db → List Billing
list_all db = build_billings_from_rows db (
    order_by (desc (λ r. r.created_at)) (select (λ r. not (is_some r.deleted_at)) db.billings.rows))

-- `owner_id IN (SELECT organization_id FROM organization_members WHERE user_id = :uid)`
abbrev pub owned_by : Db → ℕ → BillingRow → Bool
owned_by db uid r =
    (r.owner_type == "user" && r.owner_id == uid)
    || (r.owner_type == "organization"
        && contains r.owner_id (
            map (λ m. m.organization_id)
              (select (λ m. m.user_id == uid) db.organization_members.rows)))

unfoldable pub list_for_user : ℕ → Db → List Billing
list_for_user user_id db = build_billings_from_rows db (
    order_by (desc (λ r. r.created_at))
      (select (λ r. not (is_some r.deleted_at) && owned_by db user_id r) db.billings.rows))

-- the statements of `update`, for a billing with an id
abbrev pub write_billing : ℕ → Billing → ℕ → Db → Db
write_billing billing_id billing now db = record db {
  billings = record db.billings {
    rows =
        update_where (λ r. r.id == billing_id)
          (λ r. record r {
            name = billing.name;
            description = billing.description;
            pix_key = billing.pix_key;
            updated_at = now;
          })
          db.billings.rows;
  };
  billing_items = insert_children (new_item billing_id) 0 billing.items (record db.billing_items {
    rows = delete_where (λ r. r.billing_id == billing_id) db.billing_items.rows;
  });
}

-- An INSERT of an item fails on the FOREIGN KEY where there is no such billing, and on NOT NULL
-- where the billing has no id; then nothing is committed.
unfoldable pub update_with_id : ℕ → Billing → ℕ → M Billing
unfolding get_by_id
update_with_id billing_id billing now = do
  known ← gets (λ db. is_some (find (λ r. r.id == billing_id) db.billings.rows))
  raise_if (not known && is_cons billing.items) integrity_error
  execute (write_billing billing_id billing now)
  result ← gets (get_by_id billing_id)
  or_raise result (runtime_error "Failed to retrieve billing after update")

unfoldable pub update : Billing → ℕ → M Billing
unfolding update_with_id
update billing now = elim billing.id [
  | none ↦
      if is_cons billing.items
      then raise integrity_error
      else raise (value_error "Cannot update billing without an id")
  | some billing_id ↦ update_with_id billing_id billing now
]

-- a soft delete
unfoldable pub delete : ℕ → ℕ → M (Unit {0})
delete billing_id now = execute λ db. record db {
  billings = record db.billings {
    rows =
        update_where (λ r. r.id == billing_id) (λ r. record r { deleted_at = some now })
          db.billings.rows;
  };
}

unfoldable pub transfer_owner : ℕ → String → ℕ → ℕ → M (Unit {0})
transfer_owner billing_id owner_type owner_id now = execute λ db. record db {
  billings = record db.billings {
    rows =
        update_where (λ r. r.id == billing_id)
          (λ r. record r { owner_type = owner_type; owner_id = owner_id; updated_at = now })
          db.billings.rows;
  };
}

-- `BillingService.create_billing`
unfoldable pub create_billing :
    String → String → List BillingItem → String → String → ℕ → String → ℕ → M Billing
create_billing name description items pix_key owner_type owner_id uuid now =
    create
      (record {
        id = none;
        uuid = "";
        name = name;
        description = description;
        pix_key = pix_key;
        owner_type = owner_type;
        owner_id = owner_id;
        items = items;
        created_at = none;
        updated_at = none;
        deleted_at = none;
      })
      uuid now

-- `BillingService.transfer_to_organization`
unfoldable pub transfer_to_organization : ℕ → ℕ → ℕ → M (Unit {0})
unfolding get_by_id transfer_owner
transfer_to_organization billing_id org_id now = do
  found ← gets (get_by_id billing_id)
  billing ← or_raise found (value_error "Billing not found")
  raise_if (not (billing.owner_type == "user"))
      (value_error "Only personal billings can be transferred to organizations")
  transfer_owner billing_id "organization" org_id now
