-- ===== src/User.antt =====
-- rentivo/repositories/sqlalchemy.py, SQLAlchemyUserRepository, and
-- rentivo/services/user_service.py, over the calls of bcrypt.
pub mod Account
use landlord_cli.Prelude.{
  Bool, List, Option, String, [], if◌then◌else◌, is_some, nat_eq, none, some, string_eq, true, ℕ,
  ◌==◌, ◌∷◌, ◌≡◌,
}
use landlord_cli.Sql.{desc, find, insert_row, order_by, update_where}
use landlord_cli.Errors.{err, format, integrity_error, ok, runtime_error, value_error}
use landlord_cli.Models.{User}
use landlord_cli.Db.{Db, M, execute, gets, or_raise, raise_if, ◌>>=◌, ◌>>◌}

-- bcrypt: a hash of a password under a salt, and the check of a password against a hash. A password
-- passes the check against its own hash.
pub record Bcrypt : Type 0 where
  pub hashpw : String → String → String
  pub checkpw : String → String → Bool
  pub checkpw-hashpw : (password salt : String) → checkpw password (hashpw password salt) ≡ true

unfoldable pub get_by_id : ℕ → Db → Option User
get_by_id user_id db = find (λ u. u.id == user_id) db.users.rows

unfoldable pub get_by_username : String → Db → Option User
get_by_username username db = find (λ u. u.username == username) db.users.rows

-- `ORDER BY created_at DESC`
unfoldable pub list_all : Db → List User
list_all db = order_by (desc (λ u. u.created_at)) db.users.rows

abbrev pub new_user : String → String → String → ℕ → ℕ → User
new_user username email password_hash now id = record {
  id = id;
  username = username;
  email = email;
  password_hash = password_hash;
  created_at = now;
}

-- the INSERT, with the constraint UNIQUE (username)
abbrev pub insert_user : String → String → String → ℕ → M (Unit {0})
insert_user username email password_hash now db =
    if is_some (find (λ u. u.username == username) db.users.rows)
    then (err integrity_error, db)
    else (
      ok tt,
      record db { users = insert_row (new_user username email password_hash now) db.users },
    )

unfoldable pub create : String → String → String → ℕ → M User
unfolding get_by_username
create username email password_hash now = do
  insert_user username email password_hash now
  result ← gets (get_by_username username)
  or_raise result (runtime_error "Failed to retrieve user after create")

unfoldable pub update_password_hash : String → String → M (Unit {0})
update_password_hash username password_hash = execute λ db. record db {
  users = record db.users {
    rows =
        update_where (λ u. u.username == username) (λ u. record u { password_hash = password_hash })
          db.users.rows;
  };
}

-- The salts of `bcrypt.gensalt()` are arguments.
module _ (b : Bcrypt) where
  -- `UserService.create_user`
  unfoldable pub create_user : String → String → String → ℕ → M User
  create_user username password salt now = create username "" (b.hashpw password salt) now

  -- `UserService.register_user`
  unfoldable pub register_user : String → String → String → String → ℕ → M User
  unfolding get_by_username
  register_user username email password salt now = do
    existing ← gets (get_by_username username)
    raise_if (is_some existing)
        (value_error (format ("Username '" ∷ username ∷ "' already exists" ∷ [])))
    create username email (b.hashpw password salt) now

  -- `UserService.authenticate`
  unfoldable pub authenticate : String → String → Db → Option User
  unfolding get_by_username
  authenticate username password db = elim (get_by_username username db) [
    | none ↦ none
    | some user ↦ if b.checkpw password user.password_hash then some user else none
  ]

  -- `UserService.change_password`
  unfoldable pub change_password : String → String → String → M (Unit {0})
  unfolding update_password_hash
  change_password username new_password salt =
      update_password_hash username (b.hashpw new_password salt)
