-- ===== src/Bill/Service/Kept.antt =====
-- Every call of the service keeps the totals.
use mathlib.Core.Path.{subst}
use landlord_cli.Receipt
use landlord_cli.Models
use landlord_cli.Prelude.{
  Bool-cases, List, Option-cases, String, [], arith, false, inl, inr, is_cons, is_some, nat_eq, not,
  refl, some, string_eq, sym, ℕ, ◌&&◌, ◌<◌, ◌==◌, ◌∷◌, ◌≡◌, ◌⊎◌,
}
use landlord_cli.Sql.{All_of_find, find, find-eq-some}
use landlord_cli.Errors.{value_error}
use landlord_cli.Models.{Bill, BillLineItem, Billing, Receipt}
use landlord_cli.Db.{Db, execute, lift, or_raise}
use landlord_cli.Db.Keeps.{Keeps, Keeps-bind, Keeps-lift, Keeps-or_raise, keeps_rules}
use landlord_cli.Bill.{
  create, delete, insert_bill, update, update_pdf_path, update_status, update_with_id, write_bill,
}
use landlord_cli.Bill.Service.Totals.{
  IsSoundDb, insert_bill-IsSound, set_bill-IsSound, write_bill-IsSound,
}
use landlord_cli.Bill.Service.{
  Config, add_receipt, amounts, bill_lines, change_status, delete_receipt, generate_and_store_pdf,
  generate_bill, put_file, regenerate_pdf, reorder_receipts, sum_amounts, update_bill,
}
use landlord_cli.Receipt.{insert_receipt, update_sort_orders}
use landlord_cli.Prelude.Int.{ℤ}

put_file-IsSound : (key : String) (bytes : List ℕ) → Keeps IsSoundDb (execute (put_file key bytes))
put_file-IsSound key bytes = record { at = λ db h. h }

update_pdf_path-IsSound : (id : ℕ) (path : String) → Keeps IsSoundDb (update_pdf_path id path)
unfolding update_pdf_path
update_pdf_path-IsSound id path = record {
  at = set_bill-IsSound id (λ r. record r { pdf_path = some path }) (λ r. refl) (λ r. refl);
}

update_status-IsSound :
    (id : ℕ) (status : String) (now : ℕ) → Keeps IsSoundDb (update_status id status now)
unfolding update_status
update_status-IsSound id status now = record {
  at =
      set_bill-IsSound id (λ r. record r { status = status; status_updated_at = some now })
        (λ r. refl) (λ r. refl);
}

pub delete-IsSound : (id now : ℕ) → Keeps IsSoundDb (delete id now)
unfolding delete
delete-IsSound id now = record {
  at = set_bill-IsSound id (λ r. record r { deleted_at = some now }) (λ r. refl) (λ r. refl);
}

create-IsSound :
    (bill : Bill) (uuid : String) (now : ℕ)
    → bill.total_amount ≡ sum_amounts (amounts bill.line_items)
    → Keeps IsSoundDb (create bill uuid now)
unfolding create
create-IsSound bill uuid now total =
    let inserted : Keeps IsSoundDb (insert_bill bill uuid now) = record {
      at = insert_bill-IsSound bill total uuid now;
    } in
    search (keeps_rules, inserted)

pub generate_and_store_pdf-IsSound :
    (config : Config) (bill : Bill) (billing : Billing)
    → Keeps IsSoundDb (generate_and_store_pdf config bill billing)
unfolding generate_and_store_pdf
generate_and_store_pdf-IsSound config bill billing =
    search (keeps_rules, put_file-IsSound, update_pdf_path-IsSound) depth 12

is_cons-false : {A : Type 0} (xs : List A) → is_cons xs ≡ false → xs ≡ []
is_cons-false [] h = refl
is_cons-false (x ∷ xs) h = cc

-- A bill that is written to is there, or has no items.
known-below :
    (id : ℕ) (items : List BillLineItem) (db : Db)
    → IsSoundDb db
    → (not (is_some (find (λ r. r.id == id) db.bills.rows)) && is_cons items) ≡ false
    → (id < db.bills.next) ⊎ (items ≡ [])
known-below id items db h passed = elim (Option-cases (find (λ r. r.id == id) db.bills.rows)) [
  | inl unknown ↦ inr (is_cons-false items (ground (arith, unknown)))
  | inr (r, found) ↦
      let lt : r.id < db.bills.next =
        All_of_find (λ s. s.id < db.bills.next) (λ s. s.id == id) db.bills.rows h.fresh_ids found in
      let e = find-eq-some (λ s. s.id == id) db.bills.rows r found in inl (ground (arith, lt, e))
]

module _ (bill : Bill) (total : bill.total_amount ≡ sum_amounts (amounts bill.line_items)) where
  update_with_id-IsSound : (id : ℕ) → Keeps IsSoundDb (update_with_id id bill)
  unfolding update_with_id
  update_with_id-IsSound id = record {
    at = λ db h.
        elim (Bool-cases
          (not (is_some (find (λ r. r.id == id) db.bills.rows)) && is_cons bill.line_items)) [
            | inl refused ↦
                let e : (update_with_id id bill db).1 ≡ db = ground (arith, refused) in
                subst IsSoundDb (sym e) h
            | inr passed ↦
                let e : (update_with_id id bill db).1 ≡ write_bill id bill db =
                  ground (arith, passed) in
                subst IsSoundDb (sym e) (
                  write_bill-IsSound bill total id db (known-below id bill.line_items db h passed)
                    h)
          ];
  }

  update-IsSound : Keeps IsSoundDb (update bill)
  unfolding update
  update-IsSound = elim (Option-cases bill.id) [
    | inl e ↦ record {
      at = λ db h.
          rw e (elim (Bool-cases (is_cons bill.line_items)) [ inl c ↦ rw c h | inr c ↦ rw c h ]);
    }
    | inr (id, e) ↦ rw e (update_with_id-IsSound id)
  ]

receipt_create-IsSound :
    (receipt : Models.Receipt) (uuid : String) (now : ℕ)
    → Keeps IsSoundDb (Receipt.create receipt uuid now)
unfolding Receipt.create
receipt_create-IsSound receipt uuid now =
    let inserted : Keeps IsSoundDb (insert_receipt receipt uuid now) = record {
      at = λ db h. elim (Bool-cases (is_some (find (λ b. b.id == receipt.bill_id) db.bills.rows))) [
        | inl t ↦ rw t h
        | inr t ↦ rw t h
      ];
    } in
    search (keeps_rules, inserted)

receipt_delete-IsSound : (id : ℕ) → Keeps IsSoundDb (Receipt.delete id)
unfolding Receipt.delete
receipt_delete-IsSound id = record { at = λ db h. h }

update_sort_orders-IsSound : (updates : List (ℕ × ℕ)) → Keeps IsSoundDb (update_sort_orders updates)
unfolding update_sort_orders
update_sort_orders-IsSound updates = record { at = λ db h. h }

ruleset sound_rules = (
  keeps_rules, put_file-IsSound, update_pdf_path-IsSound, update_status-IsSound, delete-IsSound,
  create-IsSound, generate_and_store_pdf-IsSound, receipt_create-IsSound, receipt_delete-IsSound,
  update_sort_orders-IsSound,
)

-- The calls of `BillService` that write.
pub data Call : Type 0 where
  generate :
      Billing → String → List (ℕ × ℤ) → List (String × ℤ) → String → String → String → ℕ → Call
  edit : Bill → Billing → List BillLineItem → String → String → Call
  regenerate : Bill → Billing → Call
  status : Bill → String → ℕ → Call
  remove : ℕ → ℕ → Call
  attach : Bill → Billing → String → List ℕ → String → String → String → ℕ → Call
  detach : Models.Receipt → Bill → Billing → Call
  reorder : Bill → Billing → List String → Call

-- The database after a call, whether it returned or raised.
pub run : Config → Call → Db → Db
run config (generate b m v e n d uuid now) db = (generate_bill config b m v e n d uuid now db).1
run config (edit bill b items n d) db = (update_bill config bill b items n d db).1
run config (regenerate bill b) db = (regenerate_pdf config bill b db).1
run config (status bill s now) db = (change_status bill s now db).1
run config (remove id now) db = (delete id now db).1
run config (attach bill b f bytes c key uuid now) db =
    (add_receipt config bill b f bytes c key uuid now db).1
run config (detach r bill b) db = (delete_receipt config r bill b db).1
run config (reorder bill b uuids) db = (reorder_receipts config bill b uuids db).1

pub run_all : Config → List Call → Db → Db
run_all config [] db = db
run_all config (c ∷ cs) db = run_all config cs (run config c db)

pub change_status-IsSound :
    (bill : Bill) (s : String) (now : ℕ) → Keeps IsSoundDb (change_status bill s now)
unfolding change_status
change_status-IsSound bill s now = search sound_rules depth 12

module _ (config : Config) where
  pub generate_bill-IsSound :
      (b : Billing) (m : String) (v : List (ℕ × ℤ)) (e : List (String × ℤ)) (n d uuid : String)
      (now : ℕ)
      → Keeps IsSoundDb (generate_bill config b m v e n d uuid now)
  unfolding generate_bill
  generate_bill-IsSound b m v e n d uuid now =
      Keeps-bind (lift (bill_lines 0 v e b.items)) _ (Keeps-lift (bill_lines 0 v e b.items))
        λ items.
          Keeps-bind (or_raise b.id (value_error "Cannot generate bill for billing without an id"))
            _ (Keeps-or_raise b.id (value_error "Cannot generate bill for billing without an id"))
            λ id.
              Keeps-bind _ _ (create-IsSound _ uuid now refl)
                λ bill. generate_and_store_pdf-IsSound config bill b

  pub update_bill-IsSound :
      (bill : Bill) (b : Billing) (items : List BillLineItem) (n d : String)
      → Keeps IsSoundDb (update_bill config bill b items n d)
  unfolding update_bill
  update_bill-IsSound bill b items n d =
      Keeps-bind _ _ (update-IsSound _ refl)
        λ updated. generate_and_store_pdf-IsSound config updated b

  pub add_receipt-IsSound :
      (bill : Bill) (b : Billing) (f : String) (bytes : List ℕ) (c key uuid : String) (now : ℕ)
      → Keeps IsSoundDb (add_receipt config bill b f bytes c key uuid now)
  unfolding add_receipt
  add_receipt-IsSound bill b f bytes c key uuid now = search sound_rules depth 30

  pub delete_receipt-IsSound :
      (r : Models.Receipt) (bill : Bill) (b : Billing)
      → Keeps IsSoundDb (delete_receipt config r bill b)
  unfolding delete_receipt
  delete_receipt-IsSound r bill b = search sound_rules depth 15

  pub reorder_receipts-IsSound :
      (bill : Bill) (b : Billing) (uuids : List String)
      → Keeps IsSoundDb (reorder_receipts config bill b uuids)
  unfolding reorder_receipts
  reorder_receipts-IsSound bill b uuids = search sound_rules depth 20

  run-IsSound : (c : Call) (db : Db) → IsSoundDb db → IsSoundDb (run config c db)
  unfolding run
  run-IsSound (generate b m v e n d uuid now) = (generate_bill-IsSound b m v e n d uuid now).at
  run-IsSound (edit bill b items n d) = (update_bill-IsSound bill b items n d).at
  run-IsSound (regenerate bill b) =
      unfold regenerate_pdf in (generate_and_store_pdf-IsSound config bill b).at
  run-IsSound (status bill s now) = (change_status-IsSound bill s now).at
  run-IsSound (remove id now) = (delete-IsSound id now).at
  run-IsSound (attach bill b f bytes c key uuid now) =
      (add_receipt-IsSound bill b f bytes c key uuid now).at
  run-IsSound (detach r bill b) = (delete_receipt-IsSound r bill b).at
  run-IsSound (reorder bill b uuids) = (reorder_receipts-IsSound bill b uuids).at

  -- From a sound database, where ids are below the next one, line items are of bills that are there
  -- and the total of every stored bill is the sum of the amounts of its stored line items, any calls
  -- of the service, returning or raising, lead to a sound one.
  pub run_all-totals :
      (calls : List Call) (db : Db) → IsSoundDb db → IsSoundDb (run_all config calls db)
  unfolding run_all
  run_all-totals [] db h = h
  run_all-totals (c ∷ cs) db h = run_all-totals cs (run config c db) (run-IsSound c db h)
