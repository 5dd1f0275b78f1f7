-- ===== src/Mfa/Service/Setup.antt =====
-- The life of a second factor: what setting up, confirming and disabling it leave.
use mathlib.Core.Path.{subst}
use landlord_cli.Prelude.{
  All, All-mono, List, String, [], ap, arith, false, is_some, map, nat_eq, refl, some, string_eq,
  suc, true, zero, ℕ, ◌+◌, ◌<◌, ◌==◌, ◌∙◌, ◌∷◌, ◌≡◌, ◌≤◌,
}
use landlord_cli.Sql.{
  Table, asc, delete_where, find, find-eq-some, find-update_where, select, select-append,
  select-delete_where_self,
}
use landlord_cli.Errors.{ok}
use landlord_cli.Models.{RecoveryCode, UserTotp}
use landlord_cli.Db.{Db, has_user}
use landlord_cli.Sql.Order.{IsSorted, order_by_sorted}
use landlord_cli.Sql.Children.{child_rows, insert_children, rows-insert_children}
use landlord_cli.Mfa.RecoveryCodes.{
  create_batch, delete_all_by_user, is_unused, list_unused_by_user, new_code,
}
use landlord_cli.Mfa.Service.{
  Pyotp, confirm_totp, drawn_codes, drawn_hashes, generate_recovery_codes, has_confirmed_totp,
  is_confirmed, recovery_code_count, verify_recovery_code,
}
use landlord_cli.Mfa.Service.Codes.{passes, verify_recovery_code_lem}
use landlord_cli.User.{Bcrypt}
use landlord_cli.Mfa.Totp.{confirm, confirmed_totp, get_by_user_id}

abbrev code_rows : ℕ → ℕ → ℕ → ℕ → List String → List RecoveryCode
code_rows user_id now id i hashes = child_rows (new_code user_id now) id i hashes

codes_above :
    (user_id now n id i : ℕ) (hashes : List String)
    → n ≤ id
    → All
        (λ r. asc (λ r. r.id) (new_code user_id now n 0 "") r ≡ true)
        (code_rows user_id now id i hashes)
codes_above user_id now n id i [] h = tt
codes_above user_id now n id i (x ∷ xs) h =
    (ground arith, codes_above user_id now n (id + 1) (suc i) xs (omega arith))

code_rows-IsSorted :
    (user_id now id i : ℕ) (hashes : List String)
    → IsSorted (asc (λ r. r.id)) (code_rows user_id now id i hashes)
code_rows-IsSorted user_id now id i [] = tt
code_rows-IsSorted user_id now id i (x ∷ xs) = (
  All-mono _ _ (λ r a. ground arith) _
      (codes_above user_id now id (id + 1) (suc i) xs (omega arith)),
  code_rows-IsSorted user_id now (id + 1) (suc i) xs,
)

select-code_rows :
    (user_id now id i : ℕ) (hashes : List String)
    → select (is_unused user_id) (code_rows user_id now id i hashes)
      ≡ code_rows user_id now id i hashes
select-code_rows user_id now id i [] = refl
select-code_rows user_id now id i (x ∷ xs) =
    ground (arith, select-code_rows user_id now (id + 1) (suc i) xs)

map-code_rows :
    (user_id now id i : ℕ) (hashes : List String)
    → map (λ r. r.code_hash) (code_rows user_id now id i hashes) ≡ hashes
map-code_rows user_id now id i [] = refl
map-code_rows user_id now id i (x ∷ xs) =
    ap (λ t. x ∷ t) (map-code_rows user_id now (id + 1) (suc i) xs)

-- The codes of a user after new ones have been drawn.
module _ (b : Bcrypt) (user_id : ℕ) (draws : ℕ → String × String) (now : ℕ) (db : Db)
    (known : has_user db user_id ≡ true) where
  abbrev hashes : List String
  hashes = drawn_hashes b recovery_code_count 0 draws

  abbrev pub generated_db : Db
  generated_db = record db {
    user_recovery_codes =
        insert_children (new_code user_id now) 0 hashes (record db.user_recovery_codes {
          rows = delete_where (λ rc. rc.user_id == user_id) db.user_recovery_codes.rows;
        });
  }

  pub generate_recovery_codes_lem :
      generate_recovery_codes b user_id draws now db
      ≡ (ok (drawn_codes recovery_code_count 0 draws), generated_db)
  unfolding generate_recovery_codes create_batch delete_all_by_user
  generate_recovery_codes_lem = ground (arith, known)

  pub list_unused-generated_db :
      list_unused_by_user user_id generated_db
      ≡ code_rows user_id now db.user_recovery_codes.next 0 hashes
  unfolding list_unused_by_user
  list_unused-generated_db =
      let old = delete_where (λ rc. rc.user_id == user_id) db.user_recovery_codes.rows in
      let new = code_rows user_id now db.user_recovery_codes.next 0 hashes in
      let kept : Table RecoveryCode = record db.user_recovery_codes { rows = old } in
      rw
        (
          rows-insert_children (new_code user_id now) 0 hashes kept,
          select-append (is_unused user_id) old new,
          select-delete_where_self (is_unused user_id) (λ rc. rc.user_id == user_id)
              (λ rc e. ground arith) db.user_recovery_codes.rows,
          select-code_rows user_id now db.user_recovery_codes.next 0 hashes,
        )
        (order_by_sorted (asc (λ r. r.id)) new
          (code_rows-IsSorted user_id now db.user_recovery_codes.next 0 hashes))

  get_by_user_id-generated_db : (id : ℕ) → get_by_user_id id generated_db ≡ get_by_user_id id db
  unfolding get_by_user_id
  get_by_user_id-generated_db id = refl

-- A code that was drawn is found among the rows of its hashes.
find-code_rows :
    (b : Bcrypt) (user_id now id i n first k : ℕ) (draws : ℕ → String × String)
    → k < n
    → is_some (
        find
          (passes b (draws (k + first)).0)
          (code_rows user_id now id i (drawn_hashes b n first draws)))
      ≡ true
find-code_rows b user_id now id i zero first k draws h = absurd (omega arith)
find-code_rows b user_id now id i (suc n) first zero draws h =
    ground (arith, b.checkpw-hashpw (draws first).0 (draws first).1)
find-code_rows b user_id now id i (suc n) first (suc k) draws h =
    let rest = find-code_rows b user_id now (id + 1) (suc i) n (suc first) k draws (omega arith) in
    let same : k + suc first ≡ suc k + first = omega arith in ground (arith, rest, same)

verify_recovery_code-found :
    (b : Bcrypt) (user_id : ℕ) (code : String) (now : ℕ) (db : Db)
    → is_some (find (passes b code) (list_unused_by_user user_id db)) ≡ true
    → (verify_recovery_code b user_id code now db).0 ≡ ok true
verify_recovery_code-found b user_id code now db h =
    ground (arith, verify_recovery_code_lem b user_id code now db, h)

confirm-get_by_user_id :
    (user_id now : ℕ) (totp : UserTotp) (db : Db)
    → get_by_user_id user_id db ≡ some totp
    → get_by_user_id user_id (confirm user_id now db).1 ≡ some (confirmed_totp now totp)
unfolding get_by_user_id confirm
confirm-get_by_user_id user_id now totp db found = ground (
  arith,
  found,
  find-eq-some (λ t. t.user_id == user_id) db.user_totp.rows totp found,
  find-update_where (λ t. t.user_id == user_id) (λ t. t.user_id == user_id) (confirmed_totp now)
      (λ t. refl) db.user_totp.rows,
)

module _ (o : Pyotp) (b : Bcrypt) (user_id : ℕ) (code : String) (draws : ℕ → String × String)
    (now confirmed_now created_now : ℕ) (totp : UserTotp) (db : Db)
    (known : has_user db user_id ≡ true) (found : get_by_user_id user_id db ≡ some totp)
    (open_ : totp.confirmed ≡ false) (valid : o.verify now totp.secret code ≡ true) where
  abbrev confirmed_db : Db
  confirmed_db =
      generated_db b user_id draws created_now (confirm user_id confirmed_now db).1
        (unfold confirm in known)

  confirm_totp_step :
      confirm_totp o b user_id code draws now confirmed_now created_now db
      ≡ generate_recovery_codes b user_id draws created_now (confirm user_id confirmed_now db).1
  unfolding confirm_totp confirm
  confirm_totp_step = ground (arith, found, open_, valid)

  confirm_totp_lem :
      confirm_totp o b user_id code draws now confirmed_now created_now db
      ≡ (ok (drawn_codes recovery_code_count 0 draws), confirmed_db)
  confirm_totp_lem =
      confirm_totp_step
      ∙ generate_recovery_codes_lem b user_id draws created_now (confirm user_id confirmed_now db).1
          (unfold confirm in known)

  -- Confirming a second factor that is being set up, with a valid code, returns ten recovery codes;
  -- the factor is then confirmed, the unused codes are the hashes of these ten in their order, and
  -- each of the ten is accepted.
  pub confirm_totp-verify_recovery_code :
      (k later : ℕ)
      → k < recovery_code_count
      → let (r, db') = confirm_totp o b user_id code draws now confirmed_now created_now db in
        (r ≡ ok (drawn_codes recovery_code_count 0 draws))
        × (has_confirmed_totp user_id db' ≡ true)
        × (map (λ rc. rc.code_hash) (list_unused_by_user user_id db')
            ≡ drawn_hashes b recovery_code_count 0 draws)
        × ((verify_recovery_code b user_id (draws k).0 later db').0 ≡ ok true)
  confirm_totp-verify_recovery_code k later h =
      let confirmed = (confirm user_id confirmed_now db).1 in
      let left =
        list_unused-generated_db b user_id draws created_now confirmed (unfold confirm in known) in
      let rows =
        code_rows user_id created_now confirmed.user_recovery_codes.next 0
          (hashes b user_id draws created_now db known) in
      let worked : is_some (find (passes b (draws k).0) rows) ≡ true =
        subst (λ m. is_some (find (passes b (draws m).0) rows) ≡ true) (omega arith)
          (find-code_rows b user_id created_now confirmed.user_recovery_codes.next 0
            recovery_code_count 0 k draws h) in
      rw confirm_totp_lem (
        refl,
        unfold has_confirmed_totp in
            ap is_confirmed (
              get_by_user_id-generated_db b user_id draws created_now confirmed
                (unfold confirm in known) user_id
              ∙ confirm-get_by_user_id user_id confirmed_now totp db found),
        ap (λ l. map (λ rc. rc.code_hash) l) left
            ∙ map-code_rows user_id created_now confirmed.user_recovery_codes.next 0 _,
        verify_recovery_code-found b user_id (draws k).0 later confirmed_db
            (ap (λ l. is_some (find (passes b (draws k).0) l)) left ∙ worked),
      )
