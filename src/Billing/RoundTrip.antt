-- ===== src/Billing/RoundTrip.antt =====
-- What `create`, `update` and `delete` of a billing leave for `get_by_id`.
use landlord_cli.Prelude.{
  All, Bool-cases, List, Option-cases, String, [], ap, arith, if◌then◌else◌, inl, inr, map, nat_eq,
  none, refl, some, string_eq, suc, true, ℕ, ◌+◌, ◌<◌, ◌==◌, ◌∷◌, ◌≡◌, ◌≢◌,
}
use landlord_cli.Sql.{
  Table, delete_where, find, find-append, find-eq-some, find-none_of_All, find-update_where,
  find-update_where_gone, find-update_where_other, find_weaken, select, select-delete_where_other,
  select-delete_where_self, select-none_of_find,
}
use landlord_cli.Sql.Children.{child_rows, order_by-insert_children, select-insert_children_other}
use landlord_cli.Errors.{ok}
use landlord_cli.Models.{Billing, BillingItem, BillingRow, ItemRow}
use landlord_cli.Db.{Db}
use landlord_cli.Billing.{
  billing_is, build_billing, create, delete, get_by_id, new_billing, new_item, row_to_item, update,
  write_billing,
}

-- What AUTO_INCREMENT and the FOREIGN KEY of `billing_items` keep.
pub record IsSound (db : Db) : Type 0 where
  pub fresh_ids : All (λ r. r.id < db.billings.next) db.billings.rows
  pub item_billings : All (λ r. r.billing_id < db.billings.next) db.billing_items.rows

-- The items of a billing as it is read back: numbered in order, from the next id of the table.
abbrev pub stored_items : ℕ → ℕ → ℕ → List BillingItem → List BillingItem
stored_items billing_id id i [] = []
stored_items billing_id id i (x ∷ xs) =
    record x { id = some id; billing_id = some billing_id; sort_order = i }
    ∷ stored_items billing_id (id + 1) (suc i) xs

map-child_rows :
    (billing_id id i : ℕ) (xs : List BillingItem)
    → map row_to_item (child_rows (new_item billing_id) id i xs) ≡ stored_items billing_id id i xs
map-child_rows billing_id id i [] = refl
map-child_rows billing_id id i (x ∷ xs) =
    ap (λ t. record x { id = some id; billing_id = some billing_id; sort_order = i } ∷ t)
      (map-child_rows billing_id (id + 1) (suc i) xs)

no_billing_at_next :
    (db : Db) → IsSound db → find (billing_is db.billings.next) db.billings.rows ≡ none
no_billing_at_next db h =
    find-none_of_All (λ r. r.id < db.billings.next) (billing_is db.billings.next)
      (λ r lt. ground arith) db.billings.rows h.fresh_ids

no_items_at_next :
    (db : Db)
    → IsSound db
    → select (λ r. r.billing_id == db.billings.next) db.billing_items.rows ≡ []
no_items_at_next db h =
    select-none_of_find (λ r. r.billing_id == db.billings.next) db.billing_items.rows
      (find-none_of_All (λ r. r.billing_id < db.billings.next)
        (λ r. r.billing_id == db.billings.next) (λ r lt. ground arith) db.billing_items.rows
        h.item_billings)

-- In a sound database, where ids are below the next one and items are of billings that are there,
-- creating a billing returns it under the next id, with its items numbered in the given order, and
-- `get_by_id` then gives the same.
pub create-get_by_id :
    (billing : Billing) (uuid : String) (now : ℕ) (db : Db)
    → IsSound db
    → let id = db.billings.next in
      let created = record (build_billing (new_billing billing uuid now id) []) {
        items = stored_items id db.billing_items.next 0 billing.items;
      } in
      let (r, db') = create billing uuid now db in
      (r ≡ ok created) × (get_by_id id db' ≡ some created)
unfolding create
create-get_by_id billing uuid now db h =
    let id = db.billings.next in
    let row = new_billing billing uuid now id in
    let items =
      order_by-insert_children (new_item id) (λ r. r.billing_id) (λ r. r.sort_order) id
        (λ _ _ _. refl) (λ _ _ _. refl) 0 billing.items db.billing_items (no_items_at_next db h) in
    let found = find-append (billing_is id) db.billings.rows (row ∷ []) in
    let same = map-child_rows id db.billing_items.next 0 billing.items in
    (
      ground (arith, items, found, same, no_billing_at_next db h),
      ground (arith, items, found, same, no_billing_at_next db h),
    )

-- The row of a billing after an UPDATE.
abbrev pub rewritten : Billing → ℕ → BillingRow → BillingRow
rewritten billing now r = record r {
  name = billing.name;
  description = billing.description;
  pix_key = billing.pix_key;
  updated_at = now;
}

module _ (id : ℕ) (billing : Billing) (now : ℕ) (db : Db) where
  get_by_id-write_billing :
      (row : BillingRow)
      → find (billing_is id) db.billings.rows ≡ some row
      → get_by_id id (write_billing id billing now db)
        ≡ some (record (build_billing (rewritten billing now row) []) {
          items = stored_items id db.billing_items.next 0 billing.items;
        })
  unfolding get_by_id
  get_by_id-write_billing row found =
      let kept : Table ItemRow = record db.billing_items {
        rows = delete_where (λ r. r.billing_id == id) db.billing_items.rows;
      } in
      let is_row : billing_is id row ≡ true =
        find-eq-some (billing_is id) db.billings.rows row found in
      let row_id : row.id ≡ id = ground arith in
      ground (
        arith,
        row_id,
        is_row,
        find-update_where (billing_is id) (λ r. r.id == id) (rewritten billing now) (λ r. refl)
            db.billings.rows,
        order_by-insert_children (new_item id) (λ r. r.billing_id) (λ r. r.sort_order) id
            (λ _ _ _. refl) (λ _ _ _. refl) 0 billing.items kept
            (select-delete_where_self (λ r. r.billing_id == id) (λ r. r.billing_id == id) (λ r e. e)
              db.billing_items.rows),
        map-child_rows id db.billing_items.next 0 billing.items,
      )

  get_by_id-write_billing_other :
      (other : ℕ)
      → other ≢ id
      → get_by_id other (write_billing id billing now db) ≡ get_by_id other db
  unfolding get_by_id
  get_by_id-write_billing_other other ne =
      let kept : Table ItemRow = record db.billing_items {
        rows = delete_where (λ r. r.billing_id == id) db.billing_items.rows;
      } in
      elim (Option-cases (find (billing_is other) db.billings.rows)) [
        | inl absent ↦ ground (arith, absent, found_other)
        | inr (row, found) ↦
            let is_row : billing_is other row ≡ true =
              find-eq-some (billing_is other) db.billings.rows row found in
            let row_id : row.id ≡ other = ground arith in
            ground (
              arith,
              found,
              row_id,
              found_other,
              select-insert_children_other (new_item id) (λ r. r.billing_id) (λ r. r.sort_order) id
                  (λ _ _ _. refl) (λ _ _ _. refl) other 0 billing.items kept ne,
              select-delete_where_other (λ r. r.billing_id == other) (λ r. r.billing_id == id)
                  (λ r e. ground arith) db.billing_items.rows,
            )
      ]
    where
      found_other :
          find (billing_is other) (write_billing id billing now db).billings.rows
          ≡ find (billing_is other) db.billings.rows
      found_other =
          find-update_where_other (billing_is other) (λ r. r.id == id) (rewritten billing now)
            (λ r e. ground arith) (λ r e. ground arith) db.billings.rows

update_lem :
    (id : ℕ) (row : BillingRow) (billing : Billing) (now : ℕ) (db : Db)
    → find (billing_is id) db.billings.rows ≡ some row
    → update (record billing { id = some id }) now db ≡ (
      ok (record (build_billing (rewritten billing now row) []) {
        items = stored_items id db.billing_items.next 0 billing.items;
      }),
      write_billing id billing now db,
    )
unfolding update
update_lem id row billing now db found = ground (
  arith,
  found,
  find_weaken (billing_is id) (λ r. r.id == id) (λ r e. ground arith) db.billings.rows row found,
  get_by_id-write_billing id billing now db row found,
)

-- After an update of a live billing `get_by_id` gives its new name, description, PIX key and items,
-- and its old owner; any other billing is as before.
pub update-get_by_id :
    (id : ℕ) (row : BillingRow) (billing : Billing) (now other : ℕ) (db : Db)
    → find (billing_is id) db.billings.rows ≡ some row
    → other ≢ id
    → let updated = record (build_billing (rewritten billing now row) []) {
      items = stored_items id db.billing_items.next 0 billing.items;
    } in
      let (r, db') = update (record billing { id = some id }) now db in
      (r ≡ ok updated)
      × (get_by_id id db' ≡ some updated)
      × (get_by_id other db' ≡ get_by_id other db)
update-get_by_id id row billing now other db found ne =
    rw (update_lem id row billing now db found) (
      refl,
      get_by_id-write_billing id billing now db row found,
      get_by_id-write_billing_other id billing now db other ne,
    )

-- A deleted billing is found no more; every other one is as before.
pub delete-get_by_id :
    (id other : ℕ) (now : ℕ) (db : Db)
    → get_by_id other (delete id now db).1 ≡ (if other == id then none else get_by_id other db)
unfolding delete get_by_id
delete-get_by_id id other now db =
    let f : BillingRow → BillingRow = λ r. record r { deleted_at = some now } in
    elim (Bool-cases (other == id)) [
      | inl same ↦ ground (
        arith,
        same,
        find-update_where_gone (billing_is other) (λ r. r.id == id) f (λ r e. ground arith)
            (λ r e. ground arith) db.billings.rows,
      )
      | inr differ ↦ ground (
        arith,
        differ,
        find-update_where_other (billing_is other) (λ r. r.id == id) f (λ r e. ground arith)
            (λ r e. ground arith) db.billings.rows,
      )
    ]
