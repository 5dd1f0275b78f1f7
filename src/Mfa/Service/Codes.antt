-- ===== src/Mfa/Service/Codes.antt =====
-- The use of a recovery code.
use landlord_cli.Prelude.{
  All, Bool, Bool-cases, List, String, [], ap, arith, false, inl, inr, nat_eq, none, not, refl,
  some, string_eq, sym, true, ℕ, ◌==◌, ◌∙◌, ◌∷◌, ◌≡◌,
}
use landlord_cli.Sql.{asc, delete_where, find, order_by, select, update_where}
use landlord_cli.Errors.{ok}
use landlord_cli.Models.{RecoveryCode}
use landlord_cli.Db.{Db}
use landlord_cli.Sql.Order.{asc-IsOrder, select-order_by}
use landlord_cli.Mfa.RecoveryCodes.{is_unused, list_unused_by_user, mark_used}
use landlord_cli.Mfa.Service.{use_code, verify_recovery_code}
use landlord_cli.User.{Bcrypt}

abbrev pub passes : Bcrypt → String → RecoveryCode → Bool
passes b code rc = b.checkpw code rc.code_hash

use_code_lem :
    (b : Bcrypt) (code : String) (now : ℕ) (rcs : List RecoveryCode) (db : Db)
    → use_code b code now rcs db ≡ (elim (find (passes b code) rcs) [
      | none ↦ (ok false, db)
      | some rc ↦ (ok true, (mark_used rc.id now db).1)
    ])
unfolding mark_used
use_code_lem b code now [] db = refl
use_code_lem b code now (rc ∷ rcs) db = ground (arith, use_code_lem b code now rcs db)

select-used :
    (user_id id now : ℕ) (rows : List RecoveryCode)
    → select
        (is_unused user_id)
        (update_where (λ r. r.id == id) (λ r. record r { used_at = some now }) rows)
      ≡ delete_where (λ r. r.id == id) (select (is_unused user_id) rows)
select-used user_id id now [] = refl
select-used user_id id now (r ∷ rs) = ground (arith, select-used user_id id now rs)

list_unused_by_user-mark_used :
    (user_id id now : ℕ) (db : Db)
    → list_unused_by_user user_id (mark_used id now db).1
      ≡ delete_where (λ r. r.id == id) (list_unused_by_user user_id db)
unfolding list_unused_by_user mark_used
list_unused_by_user-mark_used user_id id now db =
    let rows = db.user_recovery_codes.rows in
    let le = asc (λ (r : RecoveryCode). r.id) in
    ap (order_by le) (select-used user_id id now rows)
    ∙ sym (
        select-order_by le (asc-IsOrder (λ r. r.id)) (λ r. not (r.id == id))
          (select (is_unused user_id) rows))

-- A code is accepted exactly if it passes the check against an unused code of the user; then the
-- first such code is marked as used, and otherwise nothing changes.
pub verify_recovery_code_lem :
    (b : Bcrypt) (user_id : ℕ) (code : String) (now : ℕ) (db : Db)
    → verify_recovery_code b user_id code now db
      ≡ (elim (find (passes b code) (list_unused_by_user user_id db)) [
        | none ↦ (ok false, db)
        | some rc ↦ (ok true, (mark_used rc.id now db).1)
      ])
unfolding verify_recovery_code
verify_recovery_code_lem b user_id code now db =
    use_code_lem b code now (list_unused_by_user user_id db) db

find-delete_where_only :
    (p q : RecoveryCode → Bool) (rs : List RecoveryCode)
    → All (λ r. p r ≡ true → q r ≡ true) rs
    → find p (delete_where q rs) ≡ none
find-delete_where_only p q [] a = refl
find-delete_where_only p q (r ∷ rs) a = elim (Bool-cases (p r)) [
  | inl t ↦ ground (arith, t, a.0 t, find-delete_where_only p q rs a.1)
  | inr t ↦ ground (arith, t, find-delete_where_only p q rs a.1)
]

-- A code that passes the check against one unused code of the user, and against no other, is accepted
-- once: it then is no longer among the unused codes, the others are, and it is refused with no effect.
pub verify_recovery_code_once :
    (b : Bcrypt) (user_id : ℕ) (code : String) (now later : ℕ) (rc : RecoveryCode) (db : Db)
    → find (passes b code) (list_unused_by_user user_id db) ≡ some rc
    → All (λ r. passes b code r ≡ true → (r.id == rc.id) ≡ true) (list_unused_by_user user_id db)
    → let (r, db') = verify_recovery_code b user_id code now db in
      (r ≡ ok true)
      × (list_unused_by_user user_id db'
          ≡ delete_where (λ r. r.id == rc.id) (list_unused_by_user user_id db))
      × (verify_recovery_code b user_id code later db' ≡ (ok false, db'))
verify_recovery_code_once b user_id code now later rc db found only =
    let db' = (mark_used rc.id now db).1 in
    let first : verify_recovery_code b user_id code now db ≡ (ok true, db') =
      ground (arith, verify_recovery_code_lem b user_id code now db, found) in
    let left = list_unused_by_user-mark_used user_id rc.id now db in
    let gone =
      find-delete_where_only (passes b code) (λ r. r.id == rc.id) (list_unused_by_user user_id db)
        only in
    rw first
      (refl, left, ground (arith, verify_recovery_code_lem b user_id code later db', left, gone))
