-- ===== src/Mfa/Service/Life.antt =====
-- Setting up a second factor and disabling it.
use landlord_cli.Prelude.{
  List, Option-cases, String, [], ap, arith, false, inl, inr, nat_eq, none, some, string_eq, true,
  ℕ, ◌==◌, ◌∷◌, ◌≡◌, ◌≢◌,
}
use landlord_cli.Sql.{
  asc, delete_where, find, find-append, find-delete_where_other, find-delete_where_self, order_by,
  select-delete_where_other, select-delete_where_self,
}
use landlord_cli.Errors.{ok}
use landlord_cli.Models.{UserTotp}
use landlord_cli.Db.{Db, has_user}
use landlord_cli.Mfa.Totp.{create, delete_by_user_id, get_by_user_id, new_totp}
use landlord_cli.Mfa.RecoveryCodes.{delete_all_by_user, is_unused, list_unused_by_user}
use landlord_cli.Mfa.Service.{
  Pyotp, disable_totp, is_confirmed, setup_totp, verify_recovery_code, verify_totp,
}
use landlord_cli.Mfa.Service.Codes.{verify_recovery_code_lem}
use landlord_cli.User.{Bcrypt}

module _ (o : Pyotp) (user_id : ℕ) (username secret : String) (now : ℕ) (db : Db)
    (known : has_user db user_id ≡ true)
    (open_ : is_confirmed (get_by_user_id user_id db) ≡ false) where
  abbrev kept : List UserTotp
  kept = delete_where (λ t. t.user_id == user_id) db.user_totp.rows

  abbrev fresh : UserTotp
  fresh = new_totp user_id secret false now db.user_totp.next

  none_left : find (λ t. t.user_id == user_id) kept ≡ none
  none_left =
      find-delete_where_self (λ t. t.user_id == user_id) (λ t. t.user_id == user_id) (λ t e. e)
        db.user_totp.rows

  -- Setting up a second factor, where the user has none that is confirmed, stores the new secret and
  -- returns its URI and QR code; no code is accepted with it at a login yet.
  pub setup_totp-verify_totp :
      (code : String) (later : ℕ)
      → let (r, db') = setup_totp o user_id username secret now db in
        let uri = o.provisioning_uri secret username in
        (r ≡ ok (fresh, uri, o.qr_base64 uri))
        × (get_by_user_id user_id db' ≡ some fresh)
        × (verify_totp o user_id code later db' ≡ false)
  unfolding setup_totp verify_totp create get_by_user_id delete_by_user_id
  setup_totp-verify_totp code later = elim (Option-cases (get_by_user_id user_id db)) [
    | inl absent ↦
        let f = find-append (λ t. t.user_id == user_id) db.user_totp.rows (fresh ∷ []) in
        (
          ground (arith, known, absent, f),
          ground (arith, known, absent, f),
          ground (arith, known, absent, f),
        )
    | inr (t, found) ↦
        let f = find-append (λ t. t.user_id == user_id) kept (fresh ∷ []) in
        (
          ground (arith, known, open_, found, f, none_left),
          ground (arith, known, open_, found, f, none_left),
          ground (arith, known, open_, found, f, none_left),
        )
  ]

-- After a user's second factor has been disabled, no code of an authenticator and no recovery code of
-- the user is accepted; those of other users are as before.
pub disable_totp-verify_totp :
    (o : Pyotp) (b : Bcrypt) (user_id other : ℕ) (code : String) (now : ℕ) (db : Db)
    → other ≢ user_id
    → let db' = (disable_totp user_id db).1 in
      (verify_totp o user_id code now db' ≡ false)
      × (verify_recovery_code b user_id code now db' ≡ (ok false, db'))
      × (verify_totp o other code now db' ≡ verify_totp o other code now db)
      × (list_unused_by_user other db' ≡ list_unused_by_user other db)
unfolding disable_totp verify_totp get_by_user_id delete_by_user_id delete_all_by_user
    list_unused_by_user
disable_totp-verify_totp o b user_id other code now db ne =
    let no_totp =
      find-delete_where_self (λ t. t.user_id == user_id) (λ t. t.user_id == user_id) (λ t e. e)
        db.user_totp.rows in
    let no_codes =
      select-delete_where_self (is_unused user_id) (λ rc. rc.user_id == user_id)
        (λ rc e. ground arith) db.user_recovery_codes.rows in
    (
      ground (arith, no_totp),
      ground (
        arith,
        no_codes,
        verify_recovery_code_lem b user_id code now (disable_totp user_id db).1,
      ),
      ground (
        arith,
        find-delete_where_other (λ t. t.user_id == other) (λ t. t.user_id == user_id)
            (λ t e. ground arith) db.user_totp.rows,
      ),
      ap (order_by (asc (λ rc. rc.id))) (
          select-delete_where_other (is_unused other) (λ rc. rc.user_id == user_id)
            (λ rc e. ground arith) db.user_recovery_codes.rows),
    )
