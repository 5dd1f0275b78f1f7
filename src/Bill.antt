-- ===== src/Bill.antt =====
-- rentivo/repositories/sqlalchemy.py, SQLAlchemyBillRepository. A RuntimeError carries its text
-- without the id at the end.
use mathlib.Core.Option
pub mod Service
use landlord_cli.Prelude.{
  Bool, List, Option, String, [], codes, contains, if◌then◌else◌, is_cons, is_some, map, nat_eq,
  none, not, some, string_eq, ℕ, ◌&&◌, ◌==◌, ◌∷◌,
}
use landlord_cli.Sql.{asc, codes_le, delete_where, find, insert_row, order_by, select, update_where}
use landlord_cli.Errors.{err, integrity_error, ok, runtime_error, value_error}
use landlord_cli.Models.{Bill, BillLineItem, BillRow, LineRow}
use landlord_cli.Db.{Db, M, execute, gets, or_raise, raise, raise_if, ◌>>=◌, ◌>>◌}
use landlord_cli.Sql.Group.{get_group, group_rows}
use landlord_cli.Sql.Children.{insert_children}

abbrev pub row_to_line : LineRow → BillLineItem
row_to_line r = record {
  id = some r.id;
  bill_id = some r.bill_id;
  description = r.description;
  amount = r.amount;
  item_type = r.item_type;
  sort_order = r.sort_order;
}

-- `_build_bill`
abbrev pub build_bill : BillRow → List LineRow → Bill
build_bill row item_rows = record {
  id = some row.id;
  uuid = row.uuid;
  billing_id = row.billing_id;
  reference_month = row.reference_month;
  total_amount = row.total_amount;
  line_items = map row_to_line item_rows;
  pdf_path = row.pdf_path;
  notes = row.notes;
  due_date = row.due_date;
  status = row.status;
  status_updated_at = row.status_updated_at;
  created_at = some row.created_at;
  deleted_at = row.deleted_at;
}

-- SELECT * FROM bill_line_items WHERE bill_id = :bill_id ORDER BY sort_order
abbrev pub lines_of : Db → ℕ → List LineRow
lines_of db bill_id =
    order_by (asc (λ r. r.sort_order)) (select (λ r. r.bill_id == bill_id) db.bill_line_items.rows)

-- `_row_to_bill`
abbrev pub row_to_bill : Db → BillRow → Bill
row_to_bill db row = build_bill row (lines_of db row.id)

abbrev pub bill_is : ℕ → BillRow → Bool
bill_is bill_id r = r.id == bill_id && not (is_some r.deleted_at)

unfoldable pub get_by_id : ℕ → Db → Option Bill
get_by_id bill_id db = Option.map (row_to_bill db) (find (bill_is bill_id) db.bills.rows)

unfoldable pub get_by_uuid : String → Db → Option Bill
get_by_uuid uuid db =
    Option.map (row_to_bill db)
      (find (λ r. r.uuid == uuid && not (is_some r.deleted_at)) db.bills.rows)

-- a row of `bill_line_items`, from its id, its place and the item
abbrev pub new_line : ℕ → ℕ → ℕ → BillLineItem → LineRow
new_line bill_id id i item = record {
  id = id;
  bill_id = bill_id;
  description = item.description;
  amount = item.amount;
  item_type = item.item_type;
  sort_order = i;
}

abbrev pub new_bill : Bill → String → ℕ → ℕ → BillRow
new_bill bill uuid now id = record {
  id = id;
  uuid = uuid;
  billing_id = bill.billing_id;
  reference_month = bill.reference_month;
  total_amount = bill.total_amount;
  pdf_path = bill.pdf_path;
  notes = bill.notes;
  due_date = bill.due_date;
  status = bill.status;
  status_updated_at = some now;
  created_at = now;
  deleted_at = none;
}

-- the database after the INSERTs of `create`
abbrev pub inserted_db : Bill → String → ℕ → Db → Db
inserted_db bill uuid now db = record db {
  bills = insert_row (new_bill bill uuid now) db.bills;
  bill_line_items = insert_children (new_line db.bills.next) 0 bill.line_items db.bill_line_items;
}

-- the INSERTs, with the FOREIGN KEY on `billing_id`; the result is `lastrowid`
abbrev pub insert_bill : Bill → String → ℕ → M ℕ
insert_bill bill uuid now db =
    if is_some (find (λ b. b.id == bill.billing_id) db.billings.rows)
    then (ok db.bills.next, inserted_db bill uuid now db)
    else (err integrity_error, db)

unfoldable pub create : Bill → String → ℕ → M Bill
unfolding get_by_id
create bill uuid now = do
  bill_id ← insert_bill bill uuid now
  result ← gets (get_by_id bill_id)
  or_raise result (runtime_error "Failed to retrieve bill after create")

-- The rows of `list_by_billing` and their items from one SELECT.
unfoldable pub build_bills_from_rows : Db → List BillRow → List Bill
build_bills_from_rows db [] = []
build_bills_from_rows db (first ∷ rest) =
    let rows = first ∷ rest in
    let bill_ids = map (λ r. r.id) rows in
    let all_items =
      order_by (asc (λ r. r.sort_order))
        (select (λ r. contains r.bill_id bill_ids) db.bill_line_items.rows) in
    let items_by_bill = group_rows (λ r. r.bill_id) all_items in
    map (λ row. build_bill row (get_group (λ r. r.bill_id) row.id items_by_bill)) rows

unfoldable pub list_by_billing : ℕ → Db → List Bill
unfolding build_bills_from_rows
list_by_billing billing_id db = build_bills_from_rows db (
    order_by (λ a b. codes_le (codes b.reference_month) (codes a.reference_month))
      (select (λ r. r.billing_id == billing_id && not (is_some r.deleted_at)) db.bills.rows))

-- the row after the UPDATE of `update`
abbrev pub rewritten : Bill → BillRow → BillRow
rewritten bill r = record r {
  reference_month = bill.reference_month;
  total_amount = bill.total_amount;
  notes = bill.notes;
  due_date = bill.due_date;
}

-- the statements of `update`, for a bill with an id
abbrev pub write_bill : ℕ → Bill → Db → Db
write_bill bill_id bill db = record db {
  bills = record db.bills {
    rows = update_where (λ r. r.id == bill_id) (rewritten bill) db.bills.rows;
  };
  bill_line_items =
      insert_children (new_line bill_id) 0 bill.line_items (record db.bill_line_items {
        rows = delete_where (λ r. r.bill_id == bill_id) db.bill_line_items.rows;
      });
}

-- An INSERT of an item fails on the FOREIGN KEY where there is no such bill, and on NOT NULL where
-- the bill has no id; then nothing is committed.
unfoldable pub update_with_id : ℕ → Bill → M Bill
unfolding get_by_id
update_with_id bill_id bill = do
  known ← gets (λ db. is_some (find (λ r. r.id == bill_id) db.bills.rows))
  raise_if (not known && is_cons bill.line_items) integrity_error
  execute (write_bill bill_id bill)
  result ← gets (get_by_id bill_id)
  or_raise result (runtime_error "Failed to retrieve bill after update")

unfoldable pub update : Bill → M Bill
unfolding update_with_id
update bill = elim bill.id [
  | none ↦
      if is_cons bill.line_items
      then raise integrity_error
      else raise (value_error "Cannot update bill without an id")
  | some bill_id ↦ update_with_id bill_id bill
]

-- an UPDATE of one bill that leaves its id, its total and its items alone
abbrev pub set_bill : ℕ → (BillRow → BillRow) → Db → Db
set_bill bill_id f db = record db {
  bills = record db.bills { rows = update_where (λ r. r.id == bill_id) f db.bills.rows };
}

unfoldable pub update_pdf_path : ℕ → String → M (Unit {0})
update_pdf_path bill_id pdf_path =
    execute (set_bill bill_id (λ r. record r { pdf_path = some pdf_path }))

unfoldable pub update_status : ℕ → String → ℕ → M (Unit {0})
update_status bill_id status status_updated_at = execute (
    set_bill bill_id
      (λ r. record r { status = status; status_updated_at = some status_updated_at }))

-- a soft delete
unfoldable pub delete : ℕ → ℕ → M (Unit {0})
delete bill_id now = execute (set_bill bill_id (λ r. record r { deleted_at = some now }))
