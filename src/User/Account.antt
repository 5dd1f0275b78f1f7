-- ===== src/User/Account.antt =====
-- Registration, change of password, and the authentication that follows.
use landlord_cli.Prelude.{
  ==-eq-false, ==_iff, ==_refl, String, [], arith, false, is_some, nat_eq, none, refl, some,
  string_eq, sym, true, ℕ, ◌==◌, ◌∙◌, ◌∷◌, ◌≡◌, ◌≢◌,
}
use landlord_cli.Sql.{
  find-append, find-eq-some, find-update_where, find-update_where_other, insert_row,
}
use landlord_cli.Errors.{ok}
use landlord_cli.Models.{User}
use landlord_cli.Db.{Db}
use landlord_cli.User.{
  Bcrypt, authenticate, change_password, create, get_by_username, new_user, register_user,
}

names_differ :
    (username other : String) (u : User)
    → (u.username == username) ≡ true
    → other ≢ username
    → (u.username == other) ≡ false
names_differ username other u e ne =
    ==-eq-false (λ p. ne (sym p ∙ (==_iff u.username username).0 e))

module _ (b : Bcrypt) where
  register_user_lem :
      (username email password salt : String) (now : ℕ) (db : Db)
      → get_by_username username db ≡ none
      → register_user b username email password salt now db ≡ (
        ok (new_user username email (b.hashpw password salt) now db.users.next),
        record db {
          users = insert_row (new_user username email (b.hashpw password salt) now) db.users;
        },
      )
  unfolding register_user create
  register_user_lem username email password salt now db new =
      let user = new_user username email (b.hashpw password salt) now db.users.next in
      ground (
        arith,
        new,
        ==_refl username,
        find-append (λ u. u.username == username) db.users.rows (user ∷ []),
      )

  -- A new name is registered, and its password then authenticates it.
  pub register-authenticate :
      (username email password salt : String) (now : ℕ) (db : Db)
      → get_by_username username db ≡ none
      → let user = new_user username email (b.hashpw password salt) now db.users.next in
        let (r, db') = register_user b username email password salt now db in
        (r ≡ ok user) × (authenticate b username password db' ≡ some user)
  unfolding authenticate
  register-authenticate username email password salt now db new =
      let user = new_user username email (b.hashpw password salt) now db.users.next in
      rw (register_user_lem username email password salt now db new) (
        refl,
        ground (
          arith,
          new,
          ==_refl username,
          b.checkpw-hashpw password salt,
          find-append (λ u. u.username == username) db.users.rows (user ∷ []),
        ),
      )

  -- After a change of password a known user authenticates with a password exactly if it passes the
  -- check against the new hash, so with the new password; other users authenticate as before.
  pub change_password-authenticate :
      (username new_password salt other password : String) (user : User) (db : Db)
      → get_by_username username db ≡ some user
      → other ≢ username
      → let db' = (change_password b username new_password salt db).1 in
        (is_some (authenticate b username password db')
          ≡ b.checkpw password (b.hashpw new_password salt))
        × (is_some (authenticate b username new_password db') ≡ true)
        × (authenticate b other password db' ≡ authenticate b other password db)
  unfolding change_password authenticate
  change_password-authenticate username new_password salt other password user db known ne =
      let f : User → User = λ u. record u { password_hash = b.hashpw new_password salt } in
      let own =
        find-update_where (λ u. u.username == username) (λ u. u.username == username) f (λ u. refl)
          db.users.rows in
      let is_user = find-eq-some (λ u. u.username == username) db.users.rows user known in
      (
        ground (arith, own, known, is_user),
        ground (arith, own, known, is_user, b.checkpw-hashpw new_password salt),
        ground (
          arith,
          find-update_where_other (λ u. u.username == other) (λ u. u.username == username) f
              (λ u e. names_differ username other u e ne)
              (λ u e. names_differ username other u e ne) db.users.rows,
        ),
      )
