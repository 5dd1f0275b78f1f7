-- ===== src/Mfa/Passkeys.antt =====
-- rentivo/repositories/sqlalchemy.py, SQLAlchemyPasskeyRepository.
use landlord_cli.Prelude.{
  List, Option, String, if◌then◌else◌, nat_eq, none, some, string_eq, ℕ, ◌==◌,
}
use landlord_cli.Sql.{asc, delete_where, find, insert_row, order_by, select, update_where}
use landlord_cli.Errors.{err, integrity_error, ok, runtime_error}
use landlord_cli.Models.{UserPasskey}
use landlord_cli.Db.{Db, M, execute, gets, has_user, or_raise, ◌>>=◌, ◌>>◌}

unfoldable pub get_by_uuid : String → Db → Option UserPasskey
get_by_uuid uuid db = find (λ p. p.uuid == uuid) db.user_passkeys.rows

unfoldable pub get_by_credential_id : String → Db → Option UserPasskey
get_by_credential_id credential_id db =
    find (λ p. p.credential_id == credential_id) db.user_passkeys.rows

-- `ORDER BY created_at`
unfoldable pub list_by_user : ℕ → Db → List UserPasskey
list_by_user user_id db =
    order_by (asc (λ p. p.created_at)) (select (λ p. p.user_id == user_id) db.user_passkeys.rows)

abbrev pub new_passkey : UserPasskey → String → ℕ → ℕ → UserPasskey
new_passkey passkey uuid now id = record passkey {
  id = id;
  uuid = uuid;
  created_at = now;
  last_used_at = none;
}

-- the INSERT, with the FOREIGN KEY
abbrev pub insert_passkey : UserPasskey → String → ℕ → M (Unit {0})
insert_passkey passkey uuid now db =
    if has_user db passkey.user_id
    then (
      ok tt,
      record db { user_passkeys = insert_row (new_passkey passkey uuid now) db.user_passkeys },
    )
    else (err integrity_error, db)

unfoldable pub create : UserPasskey → String → ℕ → M UserPasskey
unfolding get_by_uuid
create passkey uuid now = do
  insert_passkey passkey uuid now
  created ← gets (get_by_uuid uuid)
  or_raise created (runtime_error "Failed to retrieve passkey after create")

abbrev set_passkey : ℕ → (UserPasskey → UserPasskey) → Db → Db
set_passkey passkey_id f db = record db {
  user_passkeys = record db.user_passkeys {
    rows = update_where (λ p. p.id == passkey_id) f db.user_passkeys.rows;
  };
}

unfoldable pub update_sign_count : ℕ → ℕ → M (Unit {0})
update_sign_count passkey_id sign_count =
    execute (set_passkey passkey_id (λ p. record p { sign_count = sign_count }))

unfoldable pub update_last_used : ℕ → ℕ → M (Unit {0})
update_last_used passkey_id now =
    execute (set_passkey passkey_id (λ p. record p { last_used_at = some now }))

unfoldable pub delete : ℕ → M (Unit {0})
delete passkey_id = execute λ db. record db {
  user_passkeys = record db.user_passkeys {
    rows = delete_where (λ p. p.id == passkey_id) db.user_passkeys.rows;
  };
}
