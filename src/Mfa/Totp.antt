-- ===== src/Mfa/Totp.antt =====
-- rentivo/repositories/sqlalchemy.py, SQLAlchemyMFATOTPRepository.
use landlord_cli.Prelude.{
  Bool, Option, String, if◌then◌else◌, is_some, nat_eq, none, not, some, string_eq, true, ℕ, ◌&&◌,
  ◌==◌,
}
use landlord_cli.Sql.{delete_where, find, insert_row, update_where}
use landlord_cli.Errors.{err, integrity_error, ok, runtime_error}
use landlord_cli.Models.{UserTotp}
use landlord_cli.Db.{Db, M, execute, gets, has_user, or_raise, ◌>>=◌, ◌>>◌}

unfoldable pub get_by_user_id : ℕ → Db → Option UserTotp
get_by_user_id user_id db = find (λ t. t.user_id == user_id) db.user_totp.rows

abbrev pub new_totp : ℕ → String → Bool → ℕ → ℕ → UserTotp
new_totp user_id secret confirmed now id = record {
  id = id;
  user_id = user_id;
  secret = secret;
  confirmed = confirmed;
  created_at = now;
  confirmed_at = none;
}

-- the INSERT, with the constraint UNIQUE (user_id) and the FOREIGN KEY
abbrev pub insert_totp : ℕ → String → Bool → ℕ → M (Unit {0})
insert_totp user_id secret confirmed now db =
    if has_user db user_id && not (is_some (find (λ t. t.user_id == user_id) db.user_totp.rows))
    then (
      ok tt,
      record db { user_totp = insert_row (new_totp user_id secret confirmed now) db.user_totp },
    )
    else (err integrity_error, db)

unfoldable pub create : ℕ → String → Bool → ℕ → M UserTotp
unfolding get_by_user_id
create user_id secret confirmed now = do
  insert_totp user_id secret confirmed now
  result ← gets (get_by_user_id user_id)
  or_raise result (runtime_error "Failed to retrieve TOTP after create")

abbrev pub confirmed_totp : ℕ → UserTotp → UserTotp
confirmed_totp now t = record t { confirmed = true; confirmed_at = some now }

unfoldable pub confirm : ℕ → ℕ → M (Unit {0})
confirm user_id now = execute λ db. record db {
  user_totp = record db.user_totp {
    rows = update_where (λ t. t.user_id == user_id) (confirmed_totp now) db.user_totp.rows;
  };
}

unfoldable pub delete_by_user_id : ℕ → M (Unit {0})
delete_by_user_id user_id = execute λ db. record db {
  user_totp = record db.user_totp {
    rows = delete_where (λ t. t.user_id == user_id) db.user_totp.rows;
  };
}
