-- ===== src/Bill/Service/Stored.antt =====
-- What `generate_bill` leaves in the database and in the storage, with and without a PDF.
use landlord_cli.Prelude.{
  List, String, [], ap, arith, is_some, map, nat_eq, none, refl, some, string_eq, suc, true, ℕ, ◌+◌,
  ◌<◌, ◌==◌, ◌∙◌, ◌∷◌, ◌≡◌,
}
use landlord_cli.Sql.{find, find-append, find-none_of_All}
use landlord_cli.Errors.{Error, err, ok, runtime_error}
use landlord_cli.Models.{Bill, BillLineItem, Billing}
use landlord_cli.Db.{>>=-ok, Db, gets, or_raise, ◌>>=◌}
use landlord_cli.Prelude.Int.{ℤ}
use landlord_cli.Sql.Children.{child_rows, order_by-insert_children}
use landlord_cli.Bill.{
  bill_is, build_bill, create, get_by_id, insert_bill, inserted_db, new_bill, new_line, row_to_line,
}
use landlord_cli.Bill.Service.Totals.{IsSoundDb, no_lines_at_next}
use landlord_cli.Bill.Service.{
  Config, amounts, bill_lines, generate_and_store_pdf, generate_bill, none_if_empty, sum_amounts,
}

-- The items of a bill as it is read back.
abbrev pub stored_lines : ℕ → ℕ → ℕ → List BillLineItem → List BillLineItem
stored_lines bill_id id i [] = []
stored_lines bill_id id i (x ∷ xs) =
    record x { id = some id; bill_id = some bill_id; sort_order = i }
    ∷ stored_lines bill_id (id + 1) (suc i) xs

map-child_rows :
    (bill_id id i : ℕ) (xs : List BillLineItem)
    → map row_to_line (child_rows (new_line bill_id) id i xs) ≡ stored_lines bill_id id i xs
map-child_rows bill_id id i [] = refl
map-child_rows bill_id id i (x ∷ xs) =
    ap (λ t. record x { id = some id; bill_id = some bill_id; sort_order = i } ∷ t)
      (map-child_rows bill_id (id + 1) (suc i) xs)

no_bill_at_next : (db : Db) → IsSoundDb db → find (bill_is db.bills.next) db.bills.rows ≡ none
no_bill_at_next db h =
    find-none_of_All (λ r. r.id < db.bills.next) (bill_is db.bills.next) (λ r lt. ground arith)
      db.bills.rows h.fresh_ids

abbrev pub created_bill : Bill → String → ℕ → Db → Bill
created_bill bill uuid now db = record (build_bill (new_bill bill uuid now db.bills.next) []) {
  line_items = stored_lines db.bills.next db.bill_line_items.next 0 bill.line_items;
}

module _ (bill : Bill) (uuid : String) (now : ℕ) (db : Db) (h : IsSoundDb db)
    (known : is_some (find (λ b. b.id == bill.billing_id) db.billings.rows) ≡ true) where
  abbrev id : ℕ
  id = db.bills.next

  pub get_by_id-insert_bill :
      get_by_id id (inserted_db bill uuid now db) ≡ some (created_bill bill uuid now db)
  unfolding get_by_id
  get_by_id-insert_bill =
      let row = new_bill bill uuid now id in
      ground (
        arith,
        known,
        no_bill_at_next db h,
        find-append (bill_is id) db.bills.rows (row ∷ []),
        order_by-insert_children (new_line id) (λ r. r.bill_id) (λ r. r.sort_order) id
            (λ _ _ _. refl) (λ _ _ _. refl) 0 bill.line_items db.bill_line_items
            (no_lines_at_next db.bills db.bill_line_items h),
        map-child_rows id db.bill_line_items.next 0 bill.line_items,
      )

  pub create_lem :
      create bill uuid now db ≡ (ok (created_bill bill uuid now db), inserted_db bill uuid now db)
  unfolding create
  create_lem =
      let inserted : insert_bill bill uuid now db
          ≡ (ok db.bills.next, inserted_db bill uuid now db) =
        rw known refl in
      >>=-ok (insert_bill bill uuid now)
        (λ bill_id. do
          result ← gets (get_by_id bill_id)
          or_raise result (runtime_error "Failed to retrieve bill after create"))
        {a = db.bills.next} {db = db} {db' = inserted_db bill uuid now db} inserted
      ∙ rw get_by_id-insert_bill refl

-- the bill that `generate_bill` hands to the repository
abbrev pub draft : ℕ → String → List BillLineItem → String → String → Bill
draft billing_id reference_month line_items notes due_date = record {
  id = none;
  uuid = "";
  billing_id = billing_id;
  reference_month = reference_month;
  total_amount = sum_amounts (amounts line_items);
  line_items = line_items;
  pdf_path = none;
  notes = notes;
  due_date = none_if_empty due_date;
  status = "draft";
  status_updated_at = none;
  created_at = none;
  deleted_at = none;
}

module _ (config : Config) (billing : Billing) (billing_id : ℕ) (reference_month : String)
    (variable_amounts : List (ℕ × ℤ)) (extras : List (String × ℤ)) (notes due_date uuid : String)
    (now : ℕ) (lines : List BillLineItem) (db : Db) where
  abbrev fresh : Bill
  fresh = draft billing_id reference_month lines notes due_date

  abbrev pub made : Bill
  made = created_bill fresh uuid now db

  abbrev pub made_db : Db
  made_db = inserted_db fresh uuid now db

  pub generate_bill_lem :
      IsSoundDb db
      → bill_lines 0 variable_amounts extras billing.items ≡ ok lines
      → billing.id ≡ some billing_id
      → is_some (find (λ b. b.id == billing_id) db.billings.rows) ≡ true
      → generate_bill config billing reference_month variable_amounts extras notes due_date uuid now
          db
        ≡ generate_and_store_pdf config made billing made_db
  unfolding generate_bill
  generate_bill_lem h made_lines has_id known =
      ground (arith, made_lines, has_id, create_lem fresh uuid now db h known)

  -- When the lines of a new bill of a known billing can be made, in a sound database, but its PDF
  -- cannot, the error is passed on, and the bill stays stored all the same, as a draft with its items
  -- and without a PDF.
  pub generate_bill_without_pdf :
      (e : Error)
      → IsSoundDb db
      → bill_lines 0 variable_amounts extras billing.items ≡ ok lines
      → billing.id ≡ some billing_id
      → is_some (find (λ b. b.id == billing_id) db.billings.rows) ≡ true
      → config.generate made billing made_db ≡ err e
      → let (r, db') =
          generate_bill config billing reference_month variable_amounts extras notes due_date uuid
            now db in
        (r ≡ err e) × (get_by_id db.bills.next db' ≡ some made) × (made.pdf_path ≡ none)
  generate_bill_without_pdf e h made_lines has_id known failed =
      rw (generate_bill_lem h made_lines has_id known) (
        unfold generate_and_store_pdf in ground (arith, failed),
        unfold generate_and_store_pdf in
            ground (arith, failed, get_by_id-insert_bill fresh uuid now db h known),
        refl,
      )
