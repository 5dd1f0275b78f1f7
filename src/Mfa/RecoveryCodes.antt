-- ===== src/Mfa/RecoveryCodes.antt =====
-- rentivo/repositories/sqlalchemy.py, SQLAlchemyRecoveryCodeRepository.
use landlord_cli.Prelude.{
  Bool, List, String, is_cons, is_some, nat_eq, none, not, some, string_eq, ℕ, ◌&&◌, ◌==◌,
}
use landlord_cli.Sql.{asc, delete_where, order_by, select, update_where}
use landlord_cli.Errors.{integrity_error}
use landlord_cli.Models.{RecoveryCode}
use landlord_cli.Db.{Db, M, execute, gets, has_user, raise_if, ◌>>=◌, ◌>>◌}
use landlord_cli.Sql.Children.{insert_children}

abbrev pub new_code : ℕ → ℕ → ℕ → ℕ → String → RecoveryCode
new_code user_id now id i code_hash = record {
  id = id;
  user_id = user_id;
  code_hash = code_hash;
  used_at = none;
  created_at = now;
}

-- An INSERT fails on the FOREIGN KEY where there is no such user; then nothing is committed.
unfoldable pub create_batch : ℕ → List String → ℕ → M (Unit {0})
create_batch user_id code_hashes now = do
  known ← gets (λ db. has_user db user_id)
  raise_if (not known && is_cons code_hashes) integrity_error
  execute λ db. record db {
    user_recovery_codes =
        insert_children (new_code user_id now) 0 code_hashes db.user_recovery_codes;
  }

abbrev pub is_unused : ℕ → RecoveryCode → Bool
is_unused user_id rc = rc.user_id == user_id && not (is_some rc.used_at)

unfoldable pub list_unused_by_user : ℕ → Db → List RecoveryCode
list_unused_by_user user_id db =
    order_by (asc (λ rc. rc.id)) (select (is_unused user_id) db.user_recovery_codes.rows)

unfoldable pub mark_used : ℕ → ℕ → M (Unit {0})
mark_used code_id now = execute λ db. record db {
  user_recovery_codes = record db.user_recovery_codes {
    rows =
        update_where (λ rc. rc.id == code_id) (λ rc. record rc { used_at = some now })
          db.user_recovery_codes.rows;
  };
}

unfoldable pub delete_all_by_user : ℕ → M (Unit {0})
delete_all_by_user user_id = execute λ db. record db {
  user_recovery_codes = record db.user_recovery_codes {
    rows = delete_where (λ rc. rc.user_id == user_id) db.user_recovery_codes.rows;
  };
}
