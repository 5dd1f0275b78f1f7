-- ===== src/Bill/Service/Totals.antt =====
-- The total of every stored bill is the sum of its stored line items, after every operation.
use mathlib.Core.Path.{subst}
use landlord_cli.Prelude.{
  ==_iff, All, All-append, All-mono, Bool-cases, List, String, [], ap, arith, inl, inr, is_some,
  map, nat_eq, not, refl, string_eq, suc, sym, ℕ, ◌+◌, ◌<◌, ◌==◌, ◌∙◌, ◌∷◌, ◌≡◌, ◌≢◌, ◌⊎◌,
}
use landlord_cli.Sql.{
  All-select, All-update_where, All-update_where_split, Table, asc, delete_where, find,
  find-none_of_All, insert_row, order_by, select, select-delete_where_other,
  select-delete_where_self, select-none_of_find,
}
use landlord_cli.Models.{Bill, BillLineItem, BillRow, LineRow}
use landlord_cli.Db.{Db}
use landlord_cli.Sql.Children.{
  child_rows, insert_children, order_by-insert_children, rows-insert_children,
  select-insert_children_other,
}
use landlord_cli.Bill.{insert_bill, new_bill, new_line, rewritten, set_bill, write_bill}
use landlord_cli.Bill.Service.{amounts, sum_amounts}

abbrev lines_in : List LineRow → ℕ → List LineRow
lines_in lines id = order_by (asc (λ r. r.sort_order)) (select (λ r. r.bill_id == id) lines)

abbrev TotalMatches : List LineRow → BillRow → Type 0
TotalMatches lines r = r.total_amount ≡ sum_amounts (map (λ l. l.amount) (lines_in lines r.id))

-- The ids that AUTO_INCREMENT gives, the FOREIGN KEY of the line items, and the totals.
pub record IsSound (bills : Table BillRow) (lines : Table LineRow) : Type 0 where
  pub fresh_ids : All (λ r. r.id < bills.next) bills.rows
  pub line_bills : All (λ l. l.bill_id < bills.next) lines.rows
  pub totals : All (λ r. TotalMatches lines.rows r) bills.rows

abbrev pub IsSoundDb : Db → Type 0
IsSoundDb db = IsSound db.bills db.bill_line_items

amounts-child_rows :
    (bill_id id i : ℕ) (xs : List BillLineItem)
    → map (λ l. l.amount) (child_rows (new_line bill_id) id i xs) ≡ amounts xs
amounts-child_rows bill_id id i [] = refl
amounts-child_rows bill_id id i (x ∷ xs) =
    ap (λ t. x.amount ∷ t) (amounts-child_rows bill_id (id + 1) (suc i) xs)

child_rows-bill_id :
    (bill_id n id i : ℕ) (xs : List BillLineItem)
    → bill_id < n
    → All (λ l. l.bill_id < n) (child_rows (new_line bill_id) id i xs)
child_rows-bill_id bill_id n id i [] h = tt
child_rows-bill_id bill_id n id i (x ∷ xs) h =
    (h, child_rows-bill_id bill_id n (id + 1) (suc i) xs h)

module _ (id : ℕ) (items : List BillLineItem) (lines : Table LineRow) where
  abbrev written : Table LineRow
  written = insert_children (new_line id) 0 items lines

  -- the items of the bill itself
  lines_in-written :
      select (λ r. r.bill_id == id) lines.rows ≡ []
      → lines_in written.rows id ≡ child_rows (new_line id) lines.next 0 items
  lines_in-written none_yet =
      order_by-insert_children (new_line id) (λ r. r.bill_id) (λ r. r.sort_order) id (λ _ _ _. refl)
        (λ _ _ _. refl) 0 items lines none_yet

  sum-written :
      select (λ r. r.bill_id == id) lines.rows ≡ []
      → sum_amounts (map (λ l. l.amount) (lines_in written.rows id)) ≡ sum_amounts (amounts items)
  sum-written none_yet = ap sum_amounts (
      ap (map (λ l. l.amount)) (lines_in-written none_yet)
      ∙ amounts-child_rows id lines.next 0 items)

  lines_in-written_other :
      (other : ℕ) → other ≢ id → lines_in written.rows other ≡ lines_in lines.rows other
  lines_in-written_other other ne = ap (order_by (asc (λ r. r.sort_order))) (
      select-insert_children_other (new_line id) (λ r. r.bill_id) (λ r. r.sort_order) id
        (λ _ _ _. refl) (λ _ _ _. refl) other 0 items lines ne)

pub no_lines_at_next :
    (bills : Table BillRow) (lines : Table LineRow)
    → IsSound bills lines
    → select (λ r. r.bill_id == bills.next) lines.rows ≡ []
no_lines_at_next bills lines h =
    select-none_of_find (λ r. r.bill_id == bills.next) lines.rows
      (find-none_of_All (λ l. l.bill_id < bills.next) (λ r. r.bill_id == bills.next)
        (λ r lt. ground arith) lines.rows h.line_bills)

All-zip :
    {A : Type 0} (P Q : A → Type 0) (xs : List A) → All P xs → All Q xs → All (λ x. P x × Q x) xs
All-zip P Q [] a b = tt
All-zip P Q (x ∷ xs) a b = ((a.0, b.0), All-zip P Q xs a.1 b.1)

lines_below :
    {id n : ℕ} (next : ℕ) (items : List BillLineItem)
    → (id < n) ⊎ (items ≡ [])
    → All (λ l. l.bill_id < n) (child_rows (new_line id) next 0 items)
lines_below {id} {n} next items (inl lt) = child_rows-bill_id id n next 0 items lt
lines_below {id} {n} next items (inr e) = rw e tt

-- the items of another bill when those of the bill `id` are replaced
lines_in-kept :
    (id : ℕ) (items : List BillLineItem) (lines : Table LineRow) (other : ℕ)
    → other ≢ id
    → lines_in
        (written id items
          (record lines { rows = delete_where (λ r. r.bill_id == id) lines.rows })).rows
        other
      ≡ lines_in lines.rows other
lines_in-kept id items lines other ne =
    lines_in-written_other id items
      (record lines { rows = delete_where (λ r. r.bill_id == id) lines.rows }) other ne
    ∙ ap (order_by (asc (λ r. r.sort_order))) (
        select-delete_where_other (λ r. r.bill_id == other) (λ r. r.bill_id == id)
          (λ r e. ground arith) lines.rows)

module _ (bill : Bill) (total : bill.total_amount ≡ sum_amounts (amounts bill.line_items)) where
  -- a new bill, whose total is the sum of its items
  inserted-IsSound :
      (row : BillRow) (bills : Table BillRow) (lines : Table LineRow)
      → row.id ≡ bills.next
      → row.total_amount ≡ bill.total_amount
      → IsSound bills lines
      → IsSound (insert_row (λ _. row) bills) (written bills.next bill.line_items lines)
  inserted-IsSound row bills lines row_id row_total h =
      let next = bills.next in
      let none_yet = no_lines_at_next bills lines h in
      let rows = (written next bill.line_items lines).rows in
      record {
        fresh_ids =
            All-append (λ r. r.id < next + 1) bills.rows (row ∷ [])
              (All-mono (λ r. r.id < next) (λ r. r.id < next + 1) (λ r b. omega arith) bills.rows
                h.fresh_ids)
              (omega (arith, row_id), tt);
        line_bills = rw (rows-insert_children (new_line next) 0 bill.line_items lines) (
            All-append (λ l. l.bill_id < next + 1) lines.rows
              (child_rows (new_line next) lines.next 0 bill.line_items)
              (All-mono (λ l. l.bill_id < next) (λ l. l.bill_id < next + 1) (λ l b. omega arith)
                lines.rows h.line_bills)
              (child_rows-bill_id next (next + 1) lines.next 0 bill.line_items (omega arith)));
        totals =
            All-append (λ r. TotalMatches rows r) bills.rows (row ∷ [])
              (All-mono (λ r. (r.id < next) × TotalMatches lines.rows r) (λ r. TotalMatches rows r)
                (λ r b.
                  b.1
                  ∙ ap (λ t. sum_amounts (map (λ l. l.amount) t))
                      (sym (
                        lines_in-written_other next bill.line_items lines r.id
                          (omega (arith, b.0)))))
                bills.rows
                (All-zip (λ r. r.id < next) (λ r. TotalMatches lines.rows r) bills.rows h.fresh_ids
                  h.totals))
              (
                row_total
                    ∙ total
                    ∙ rw row_id (sym (sum-written next bill.line_items lines none_yet)),
                tt,
              );
      }

  pub insert_bill-IsSound :
      (uuid : String) (now : ℕ) (db : Db)
      → IsSoundDb db
      → IsSoundDb (insert_bill bill uuid now db).1
  insert_bill-IsSound uuid now db h =
      elim (Bool-cases (is_some (find (λ b. b.id == bill.billing_id) db.billings.rows))) [
        | inl t ↦
            let row = new_bill bill uuid now db.bills.next in
            let lines = written db.bills.next bill.line_items db.bill_line_items in
            let e : (insert_bill bill uuid now db).1
                ≡ record db { bills = insert_row (λ _. row) db.bills; bill_line_items = lines } =
              ground (arith, t) in
            subst IsSoundDb (sym e) (inserted-IsSound row db.bills db.bill_line_items refl refl h)
        | inr t ↦
            let e : (insert_bill bill uuid now db).1 ≡ db = ground (arith, t) in
            subst IsSoundDb (sym e) h
      ]

  pub write_bill-IsSound :
      (id : ℕ) (db : Db)
      → (id < db.bills.next) ⊎ (bill.line_items ≡ [])
      → IsSoundDb db
      → IsSoundDb (write_bill id bill db)
  write_bill-IsSound id db known h =
      let kept : Table LineRow = record db.bill_line_items {
        rows = delete_where (λ r. r.bill_id == id) db.bill_line_items.rows;
      } in
      let none_yet : select (λ r. r.bill_id == id) kept.rows ≡ [] =
        select-delete_where_self (λ r. r.bill_id == id) (λ r. r.bill_id == id) (λ r e. e)
          db.bill_line_items.rows in
      record {
        fresh_ids =
            All-update_where (λ r. r.id < db.bills.next) (λ r. r.id == id) (rewritten bill)
              (λ r lt. lt) db.bills.rows h.fresh_ids;
        line_bills = rw (rows-insert_children (new_line id) 0 bill.line_items kept) (
            All-append (λ l. l.bill_id < db.bills.next) kept.rows
              (child_rows (new_line id) kept.next 0 bill.line_items)
              (All-select (λ l. l.bill_id < db.bills.next) (λ r. not (r.bill_id == id))
                db.bill_line_items.rows h.line_bills)
              (lines_below kept.next bill.line_items known));
        totals =
            All-update_where_split (λ r. TotalMatches db.bill_line_items.rows r)
              (λ r. TotalMatches (written id bill.line_items kept).rows r) (λ r. r.id == id)
              (rewritten bill)
              (λ r e t.
                total
                ∙ rw ((==_iff r.id id).0 e) (sym (sum-written id bill.line_items kept none_yet)))
              (λ r e t.
                t
                ∙ ap (λ ls. sum_amounts (map (λ l. l.amount) ls))
                    (sym (
                      lines_in-kept id bill.line_items db.bill_line_items r.id
                        (ground (arith, e)))))
              db.bills.rows h.totals;
      }

pub set_bill-IsSound :
    (id : ℕ) (f : BillRow → BillRow)
    → ((r : BillRow) → (f r).id ≡ r.id)
    → ((r : BillRow) → (f r).total_amount ≡ r.total_amount)
    → (db : Db) → IsSoundDb db
    → IsSoundDb (set_bill id f db)
set_bill-IsSound id f same_id same_total db h = record {
  fresh_ids =
      All-update_where (λ r. r.id < db.bills.next) (λ r. r.id == id) f (λ r lt. rw same_id lt)
        db.bills.rows h.fresh_ids;
  line_bills = h.line_bills;
  totals =
      All-update_where (λ r. TotalMatches db.bill_line_items.rows r) (λ r. r.id == id) f
        (λ r t. rw (same_id r, same_total r) t) db.bills.rows h.totals;
}
