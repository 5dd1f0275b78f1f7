-- ===== src/Bill/Service.antt =====
-- rentivo/services/bill_service.py, over the repositories of bills and receipts and the files of the
-- storage backend.
pub mod Totals
pub mod Kept
pub mod Generate
pub mod Stored
pub mod Rendered
pub mod Guards
pub mod Pdf
use Prim.Native.Nat.{max}
use mathlib.Core.List.{foldl}
use landlord_cli.Receipt
use landlord_cli.Prelude.{
  Bool, List, Option, String, [], contains, false, if◌then◌else◌, is_cons, length, ltb, map, nat_eq,
  none, not, some, string_eq, suc, true, ℕ, ◌*◌, ◌==◌, ◌∷◌,
}
use landlord_cli.Sql.{desc, updated}
use landlord_cli.Errors.{Result, err, format, ok, runtime_error, value_error}
use landlord_cli.Models.{
  Bill, BillLineItem, Billing, BillingItem, ItemType, Receipt, extra, fixed, variable,
}
use landlord_cli.Db.{Db, M, execute, gets, lift, or_raise, pure, raise_if, ◌>>=◌, ◌>>◌}
use landlord_cli.Prelude.Int.{pos, ℤ, ◌+ℤ◌}
use landlord_cli.Bill.{create, delete, get_by_uuid, update, update_pdf_path, update_status}
use landlord_cli.Receipt.{list_by_bill, update_sort_orders}

-- What the service is built with. `generate` stands for the theme, the PIX code and
-- `InvoicePDF.generate`, `merge_receipts` for the PDF merger, and `save_path` for what
-- `storage.save` returns for a key; where one of these raises, it gives the error.
pub record Config : Type 0 where
  pub storage_prefix : String
  pub has_receipt_repo : Bool
  pub generate : Bill → Billing → Db → Result (List ℕ)
  pub merge_receipts : List ℕ → List (List ℕ × String) → List ℕ
  pub save_path : String → Result String

abbrev pub get_file : String → List (String × List ℕ) → Option (List ℕ)
get_file key [] = none
get_file key ((k, bytes) ∷ files) = if k == key then some bytes else get_file key files

abbrev pub put_file : String → List ℕ → Db → Db
put_file key bytes db = record db { files = (key, bytes) ∷ db.files }

-- `x or None`
abbrev pub none_if_empty : String → Option String
none_if_empty s = if s == "" then none else some s

-- `sum(…)`
unfoldable pub sum_amounts : List ℤ → ℤ
sum_amounts = foldl (λ a b. a +ℤ b) (pos 0)

abbrev pub amounts : List BillLineItem → List ℤ
amounts items = map (λ li. li.amount) items

-- `CONTENT_TYPE_EXTENSIONS.get(content_type, "")`
abbrev pub extension : String → String
extension content_type =
    if content_type == "application/pdf"
    then ".pdf"
    else if content_type == "image/jpeg"
    then ".jpg"
    else if content_type == "image/png"
    then ".png"
    else ""

-- `_storage_key`, with `settings.storage_prefix`
unfoldable pub storage_key : String → String → String → String
storage_key prefix billing_uuid bill_uuid =
    if prefix == ""
    then format (billing_uuid ∷ "/" ∷ bill_uuid ∷ ".pdf" ∷ [])
    else format (prefix ∷ "/" ∷ billing_uuid ∷ "/" ∷ bill_uuid ∷ ".pdf" ∷ [])

-- `_receipt_storage_key`
unfoldable pub receipt_storage_key : String → String → String → String → String → String
receipt_storage_key prefix billing_uuid bill_uuid receipt_uuid content_type =
    let ext = extension content_type in
    let tail = billing_uuid ∷ "/" ∷ bill_uuid ∷ "/receipts/" ∷ receipt_uuid ∷ ext ∷ [] in
    if prefix == "" then format tail else format (prefix ∷ "/" ∷ tail)

-- The loop of `_fetch_receipt_data`: a receipt whose file cannot be read is skipped.
abbrev fetch_files : List (String × List ℕ) → List Receipt → List (List ℕ × String)
fetch_files files [] = []
fetch_files files (r ∷ rs) =
    let rest = fetch_files files rs in
    elim (get_file r.storage_key files) [
      | none ↦ rest
      | some bytes ↦ (bytes, r.content_type) ∷ rest
    ]

-- `BillStatus(new_status)`
abbrev pub statuses : List String
statuses = "draft" ∷ "published" ∷ "sent" ∷ "paid" ∷ "cancelled" ∷ "delayed_payment" ∷ []

-- `variable_amounts.get(id, 0)`
abbrev pub get_amount : ℕ → List (ℕ × ℤ) → ℤ
get_amount id [] = pos 0
get_amount id ((k, amount) ∷ d) = if k == id then amount else get_amount id d

abbrev pub line : String → ℤ → ItemType → ℕ → BillLineItem
line description amount item_type sort = record {
  id = none;
  bill_id = none;
  description = description;
  amount = amount;
  item_type = item_type;
  sort_order = sort;
}

abbrev is_fixed : ItemType → Bool
is_fixed fixed = true
is_fixed variable = false
is_fixed extra = false

-- the amount of an item in a new bill, from its type, its own amount and its id
abbrev pub charged : List (ℕ × ℤ) → ItemType → ℤ → Option ℕ → Result ℤ
charged variable_amounts item_type amount id = if is_fixed item_type then ok amount else elim id [
  | none ↦ err (value_error "Variable billing item must have an id")
  | some item_id ↦ ok (get_amount item_id variable_amounts)
]

abbrev pub item_amount : List (ℕ × ℤ) → BillingItem → Result ℤ
item_amount variable_amounts item = charged variable_amounts item.item_type item.amount item.id

-- the loop over `extras`
abbrev pub extra_lines : ℕ → List (String × ℤ) → List BillLineItem
extra_lines sort [] = []
extra_lines sort ((desc, amt) ∷ extras) = line desc amt extra sort ∷ extra_lines (suc sort) extras

-- the loop over `billing.items`, and then the one over `extras`
unfoldable pub bill_lines :
    ℕ → List (ℕ × ℤ) → List (String × ℤ) → List BillingItem → Result (List BillLineItem)
bill_lines sort variable_amounts extras [] = ok (extra_lines sort extras)
bill_lines sort variable_amounts extras (item ∷ items) =
    let rest = bill_lines (suc sort) variable_amounts extras items in
    elim (item_amount variable_amounts item) [
      | err e ↦ err e
      | ok amount ↦ elim rest [
        | err e ↦ err e
        | ok lines ↦ ok (line item.description amount item.item_type sort ∷ lines)
      ]
    ]

-- ALLOWED_RECEIPT_TYPES and MAX_RECEIPT_SIZE of rentivo/models/receipt.py
abbrev pub allowed_receipt_types : List String
allowed_receipt_types = "application/pdf" ∷ "image/jpeg" ∷ "image/png" ∷ []

abbrev pub max_receipt_size : ℕ
max_receipt_size = 10 * 1024 * 1024

-- `max((r.sort_order for r in existing), default=-1) + 1`
abbrev pub next_sort_order : List Receipt → ℕ
next_sort_order [] = 0
next_sort_order (r ∷ rs) = max (suc r.sort_order) (next_sort_order rs)

-- `by_uuid[uuid].id`: of two receipts with one uuid the dictionary keeps the later
abbrev pub id_of_uuid : String → List Receipt → Option (Option ℕ)
id_of_uuid uuid [] = none
id_of_uuid uuid (r ∷ rs) = elim (id_of_uuid uuid rs) [
  | some id ↦ some id
  | none ↦ if r.uuid == uuid then some r.id else none
]

-- The check that every uuid belongs to the bill, and the list of updates, which is not made before
-- the check has passed.
abbrev pub order_updates : ℕ → List Receipt → List String → Result (List (ℕ × ℕ))
order_updates idx existing [] = ok []
order_updates idx existing (uuid ∷ uuids) =
    let rest = order_updates (suc idx) existing uuids in
    elim (id_of_uuid uuid existing) [
      | none ↦ err (value_error (format ("Receipt " ∷ uuid ∷ " does not belong to this bill" ∷ [])))
      | some found ↦ elim rest [
        | err e ↦ err e
        | ok updates ↦ ok (elim found [ none ↦ updates | some id ↦ (id, idx) ∷ updates ])
      ]
    ]

module _ (config : Config) where
  -- `_fetch_receipt_data`
  unfoldable pub fetch_receipt_data : Bill → Db → List (List ℕ × String)
  fetch_receipt_data bill db =
      if config.has_receipt_repo
      then elim bill.id [
        | none ↦ []
        | some bill_id ↦ fetch_files db.files (list_by_bill bill_id db)
      ]
      else []

  -- `_generate_and_store_pdf`: the result is the bill with its new `pdf_path`.
  unfoldable pub generate_and_store_pdf : Bill → Billing → M Bill
  generate_and_store_pdf bill billing = do
    pdf_bytes ← λ db. lift (config.generate bill billing db) db
    receipt_data ← gets (fetch_receipt_data bill)
    let merged =
        if is_cons receipt_data then config.merge_receipts pdf_bytes receipt_data else pdf_bytes
    let key = storage_key config.storage_prefix billing.uuid bill.uuid
    path ← lift (config.save_path key)
    execute (put_file key merged)
    bill_id ← or_raise bill.id (value_error "Cannot update pdf_path for bill without an id")
    update_pdf_path bill_id path
    pure (record bill { pdf_path = some path })

  unfoldable pub generate_bill :
      Billing → String → List (ℕ × ℤ) → List (String × ℤ) → String → String → String → ℕ → M Bill
  generate_bill billing reference_month variable_amounts extras notes due_date uuid now = do
    line_items ← lift (bill_lines 0 variable_amounts extras billing.items)
    billing_id ← or_raise billing.id (value_error "Cannot generate bill for billing without an id")
    bill ←
        create
          (record {
            id = none;
            uuid = "";
            billing_id = billing_id;
            reference_month = reference_month;
            total_amount = sum_amounts (amounts line_items);
            line_items = line_items;
            pdf_path = none;
            notes = notes;
            due_date = none_if_empty due_date;
            status = "draft";
            status_updated_at = none;
            created_at = none;
            deleted_at = none;
          })
          uuid now
    generate_and_store_pdf bill billing

  unfoldable pub update_bill : Bill → Billing → List BillLineItem → String → String → M Bill
  update_bill bill billing line_items notes due_date = do
    updated ← update (record bill {
      line_items = line_items;
      total_amount = sum_amounts (amounts line_items);
      notes = notes;
      due_date = none_if_empty due_date;
    })
    generate_and_store_pdf updated billing

  unfoldable pub regenerate_pdf : Bill → Billing → M Bill
  unfolding generate_and_store_pdf
  regenerate_pdf bill billing = generate_and_store_pdf bill billing

  unfoldable pub add_receipt :
      Bill → Billing → String → List ℕ → String → String → String → ℕ → M Receipt
  add_receipt bill billing filename file_bytes content_type key_uuid uuid now = do
    raise_if (not config.has_receipt_repo) (runtime_error "Receipt repository not configured")
    bill_id ← or_raise bill.id (value_error "Cannot add receipt to bill without an id")
    raise_if (not (contains content_type allowed_receipt_types))
        (value_error (format ("Unsupported file type: " ∷ content_type ∷ [])))
    raise_if (ltb max_receipt_size (length file_bytes)) (value_error "File too large")
    raise_if (not (is_cons file_bytes)) (value_error "Empty file")
    let key = receipt_storage_key config.storage_prefix billing.uuid bill.uuid key_uuid content_type
    existing ← gets (list_by_bill bill_id)
    lift (config.save_path key)
    execute (put_file key file_bytes)
    receipt ←
        Receipt.create
          (record {
            id = none;
            uuid = "";
            bill_id = bill_id;
            filename = filename;
            storage_key = key;
            content_type = content_type;
            file_size = length file_bytes;
            sort_order = next_sort_order existing;
            created_at = none;
          })
          uuid now
    generate_and_store_pdf bill billing
    pure receipt

  unfoldable pub delete_receipt : Receipt → Bill → Billing → M (Unit {0})
  delete_receipt receipt bill billing = do
    raise_if (not config.has_receipt_repo) (runtime_error "Receipt repository not configured")
    receipt_id ← or_raise receipt.id (value_error "Cannot delete receipt without an id")
    Receipt.delete receipt_id
    generate_and_store_pdf bill billing
    pure tt

  unfoldable pub list_receipts : ℕ → Db → List Receipt
  list_receipts bill_id db = if config.has_receipt_repo then list_by_bill bill_id db else []

  unfoldable pub get_receipt_by_uuid : String → Db → Option Receipt
  get_receipt_by_uuid uuid db =
      if config.has_receipt_repo then Receipt.get_by_uuid uuid db else none

  unfoldable pub reorder_receipts : Bill → Billing → List String → M (Unit {0})
  reorder_receipts bill billing receipt_uuids = do
    raise_if (not config.has_receipt_repo) (runtime_error "Receipt repository not configured")
    bill_id ← or_raise bill.id (value_error "Cannot reorder receipts for bill without an id")
    existing ← gets (list_by_bill bill_id)
    updates ← lift (order_updates 0 existing receipt_uuids)
    raise_if (not (length receipt_uuids == length existing))
        (value_error "Must include all receipts in the new order")
    update_sort_orders updates
    generate_and_store_pdf bill billing
    pure tt

-- `BillService.change_status`
unfoldable pub change_status : Bill → String → ℕ → M Bill
change_status bill new_status now = do
  raise_if (not (contains new_status statuses))
      (value_error (format ("'" ∷ new_status ∷ "' is not a valid BillStatus" ∷ [])))
  bill_id ← or_raise bill.id (value_error "Cannot change status for bill without an id")
  update_status bill_id new_status now
  pure (record bill { status = new_status; status_updated_at = some now })
