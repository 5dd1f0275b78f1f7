-- ===== src/Receipt.antt =====
-- rentivo/repositories/sqlalchemy.py, SQLAlchemyReceiptRepository.
use mathlib.Core.Option
use landlord_cli.Prelude.{
  Bool, List, Option, String, [], if◌then◌else◌, is_some, leb, ltb, map, nat_eq, some, string_eq, ℕ,
  ◌&&◌, ◌==◌, ◌||◌, ◌∷◌,
}
use landlord_cli.Sql.{delete_where, find, insert_row, order_by, select, update_where}
use landlord_cli.Errors.{err, integrity_error, ok, runtime_error}
use landlord_cli.Models.{Receipt, ReceiptRow}
use landlord_cli.Db.{Db, M, execute, gets, or_raise, ◌>>=◌, ◌>>◌}

abbrev pub row_to_receipt : ReceiptRow → Receipt
row_to_receipt r = record {
  id = some r.id;
  uuid = r.uuid;
  bill_id = r.bill_id;
  filename = r.filename;
  storage_key = r.storage_key;
  content_type = r.content_type;
  file_size = r.file_size;
  sort_order = r.sort_order;
  created_at = some r.created_at;
}

abbrev pub new_receipt : Receipt → String → ℕ → ℕ → ReceiptRow
new_receipt receipt uuid now id = record {
  id = id;
  uuid = uuid;
  bill_id = receipt.bill_id;
  filename = receipt.filename;
  storage_key = receipt.storage_key;
  content_type = receipt.content_type;
  file_size = receipt.file_size;
  sort_order = receipt.sort_order;
  created_at = now;
}

unfoldable pub get_by_id : ℕ → Db → Option Receipt
get_by_id receipt_id db =
    Option.map row_to_receipt (find (λ r. r.id == receipt_id) db.receipts.rows)

unfoldable pub get_by_uuid : String → Db → Option Receipt
get_by_uuid uuid db = Option.map row_to_receipt (find (λ r. r.uuid == uuid) db.receipts.rows)

-- the INSERT, with the FOREIGN KEY on `bill_id`
abbrev pub insert_receipt : Receipt → String → ℕ → M (Unit {0})
insert_receipt receipt uuid now db =
    if is_some (find (λ b. b.id == receipt.bill_id) db.bills.rows)
    then (ok tt, record db { receipts = insert_row (new_receipt receipt uuid now) db.receipts })
    else (err integrity_error, db)

unfoldable pub create : Receipt → String → ℕ → M Receipt
unfolding get_by_uuid
create receipt uuid now = do
  insert_receipt receipt uuid now
  created ← gets (get_by_uuid uuid)
  or_raise created (runtime_error "Failed to retrieve receipt after create")

-- ORDER BY sort_order, id
abbrev pub receipt_le : ReceiptRow → ReceiptRow → Bool
receipt_le a b = ltb a.sort_order b.sort_order || (a.sort_order == b.sort_order && leb a.id b.id)

unfoldable pub list_by_bill : ℕ → Db → List Receipt
list_by_bill bill_id db =
    map row_to_receipt (order_by receipt_le (select (λ r. r.bill_id == bill_id) db.receipts.rows))

unfoldable pub delete : ℕ → M (Unit {0})
delete receipt_id = execute λ db. record db {
  receipts = record db.receipts { rows = delete_where (λ r. r.id == receipt_id) db.receipts.rows };
}

-- the UPDATEs of `update_sort_orders`, one after the other
abbrev pub set_sort_orders : List (ℕ × ℕ) → List ReceiptRow → List ReceiptRow
set_sort_orders [] rows = rows
set_sort_orders ((receipt_id, sort_order) ∷ updates) rows =
    set_sort_orders updates
      (update_where (λ r. r.id == receipt_id) (λ r. record r { sort_order = sort_order }) rows)

unfoldable pub update_sort_orders : List (ℕ × ℕ) → M (Unit {0})
update_sort_orders updates = execute λ db. record db {
  receipts = record db.receipts { rows = set_sort_orders updates db.receipts.rows };
}
