-- ===== src/Bill/Service/Guards.antt =====
-- What the bill service refuses, and the change of a status.
use mathlib.Core.Option
use landlord_cli.Prelude.{
  Bool, Bool-cases, List, Option-cases, String, arith, contains, false, if◌then◌else◌, inl, inr,
  is_cons, length, ltb, nat_eq, not, refl, some, string_eq, true, ℕ, ◌&&◌, ◌==◌, ◌≡◌, ◌⊎◌,
}
use landlord_cli.Sql.{find, find-eq-some, find-update_where}
use landlord_cli.Errors.{is_ok}
use landlord_cli.Models.{Bill, Billing}
use landlord_cli.Db.{Db}
use landlord_cli.Bill.{bill_is, get_by_id, update_status}
use landlord_cli.Bill.Service.{
  Config, add_receipt, allowed_receipt_types, change_status, max_receipt_size, statuses,
}

-- A file that may be attached: of an allowed type, not too large and not empty.
abbrev pub is_acceptable : String → List ℕ → Bool
is_acceptable content_type bytes =
    contains content_type allowed_receipt_types
    && (not (ltb max_receipt_size (length bytes)) && is_cons bytes)

-- A file of a type that is not allowed, or too large, or empty, is refused, and neither the database
-- nor the storage changes.
pub add_receipt_refused :
    (config : Config) (bill : Bill) (billing : Billing) (filename : String) (bytes : List ℕ)
    (content_type key_uuid uuid : String) (now : ℕ) (db : Db)
    → is_acceptable content_type bytes ≡ false
    → let (r, db') =
        add_receipt config bill billing filename bytes content_type key_uuid uuid now db in
      (is_ok r ≡ false) × (db' ≡ db)
unfolding add_receipt
add_receipt_refused config bill billing filename bytes content_type key_uuid uuid now db bad =
    elim (Bool-cases config.has_receipt_repo) [
      | inr off ↦ (ground (arith, off), ground (arith, off))
      | inl on ↦ elim (Option-cases bill.id) [
        | inl e ↦ (ground (arith, on, e), ground (arith, on, e))
        | inr (id, e) ↦ elim (Bool-cases (contains content_type allowed_receipt_types)) [
          | inr other ↦ (ground (arith, on, e, other), ground (arith, on, e, other))
          | inl allowed ↦ elim (Bool-cases (ltb max_receipt_size (length bytes))) [
            | inl large ↦
                (ground (arith, on, e, allowed, large), ground (arith, on, e, allowed, large))
            | inr small ↦
                let empty : is_cons bytes ≡ false = ground (arith, bad, allowed, small) in
                (
                  ground (arith, on, e, allowed, small, empty),
                  ground (arith, on, e, allowed, small, empty),
                )
          ]
        ]
      ]
    ]

abbrev pub with_status : String → ℕ → Bill → Bill
with_status status now bill = record bill { status = status; status_updated_at = some now }

get_by_id-update_status :
    (bill_id j : ℕ) (status : String) (now : ℕ) (db : Db)
    → get_by_id j (update_status bill_id status now db).1 ≡ (
        if j == bill_id
        then Option.map (with_status status now) (get_by_id j db)
        else get_by_id j db)
unfolding get_by_id update_status
get_by_id-update_status bill_id j status now db =
    let e =
      find-update_where (bill_is j) (λ r. r.id == bill_id)
        (λ r. record r { status = status; status_updated_at = some now }) (λ r. refl)
        db.bills.rows in
    elim (Option-cases (find (bill_is j) db.bills.rows)) [
      | inl absent ↦ ground (arith, e, absent)
      | inr (row, found) ↦
          ground (arith, e, found, find-eq-some (bill_is j) db.bills.rows row found)
    ]

-- A change of status of a bill with an id returns exactly for the six statuses. The bill with the id
-- then has, where it is stored, the new status and its time, and nothing else of it changes, nor any
-- other bill, nor any other table. For any other text it raises, and the whole database is as before.
pub change_status-get_by_id :
    (bill : Bill) (bill_id j : ℕ) (new_status : String) (now : ℕ) (db : Db)
    → bill.id ≡ some bill_id
    → let (r, db') = change_status bill new_status now db in
      (contains new_status statuses ≡ true)
        × (is_ok r ≡ true)
        × (get_by_id j db' ≡ (
            if j == bill_id
            then Option.map (with_status new_status now) (get_by_id j db)
            else get_by_id j db))
        × (db' ≡ record db { bills = db'.bills })
      ⊎ (contains new_status statuses ≡ false) × (is_ok r ≡ false) × (db' ≡ db)
unfolding change_status
change_status-get_by_id bill bill_id j new_status now db has_id =
    let written = (update_status bill_id new_status now db).1 in
    elim (Bool-cases (contains new_status statuses)) [
      | inr other ↦ inr (other, ground (arith, other), ground (arith, other))
      | inl fine ↦
          let step : (is_ok (change_status bill new_status now db).0 ≡ true)
              × ((change_status bill new_status now db).1 ≡ written) =
            (
              unfold update_status in ground (arith, fine, has_id),
              unfold update_status in ground (arith, fine, has_id),
            ) in
          inl (
            fine,
            step.0,
            rw step.1 (get_by_id-update_status bill_id j new_status now db),
            rw step.1 (unfold update_status in refl),
          )
    ]
