-- ===== src/Audit.antt =====
-- rentivo/repositories/sqlalchemy.py, SQLAlchemyAuditLogRepository, and
-- rentivo/services/audit_service.py. A state is stored as its JSON text and read back as it was.
pub mod Serializers
pub mod Log
use landlord_cli.Prelude.{
  Bool, List, Option, String, [], false, is_some, nat_eq, none, some, string_eq, take, ℕ, ◌&&◌,
  ◌==◌,
}
use landlord_cli.Sql.{desc, find, insert_row, order_by, select}
use landlord_cli.Errors.{err, integrity_error, ok, runtime_error}
use landlord_cli.Models.{AuditLog}
use landlord_cli.Db.{Db, M, execute, gets, or_raise, raise_if, ◌>>=◌, ◌>>◌}
use landlord_cli.Json.{Json, dict}

-- An entry as `log` is called with it; the fields left out have the defaults of `plain_entry`.
pub record Entry : Type 0 where
  pub event_type : String
  pub actor_id : Option ℕ
  pub actor_username : String
  pub source : String
  pub entity_type : String
  pub entity_id : Option ℕ
  pub entity_uuid : String
  pub previous_state : Option Json
  pub new_state : Option Json
  pub metadata : Json

abbrev pub plain_entry : String → Entry
plain_entry event_type = record {
  event_type = event_type;
  actor_id = none;
  actor_username = "";
  source = "";
  entity_type = "";
  entity_id = none;
  entity_uuid = "";
  previous_state = none;
  new_state = none;
  metadata = dict [];
}

-- the uuid and the time that an entry is given
pub record Stamp : Type 0 where
  pub uuid : String
  pub now : ℕ

abbrev pub new_audit_log : Entry → Stamp → ℕ → AuditLog
new_audit_log e stamp id = record {
  id = id;
  uuid = stamp.uuid;
  event_type = e.event_type;
  actor_id = e.actor_id;
  actor_username = e.actor_username;
  source = e.source;
  entity_type = e.entity_type;
  entity_id = e.entity_id;
  entity_uuid = e.entity_uuid;
  previous_state = e.previous_state;
  new_state = e.new_state;
  metadata = e.metadata;
  created_at = stamp.now;
}

-- Is there an entry with the uuid? It is UNIQUE (alembic/versions/f7b8c9d0e1f2_create_audit_logs.py).
abbrev pub is_taken : Stamp → Db → Bool
is_taken stamp db = is_some (find (λ r. r.uuid == stamp.uuid) db.audit_logs.rows)

unfoldable pub create : Entry → Stamp → M AuditLog
create e stamp = do
  taken ← gets (is_taken stamp)
  raise_if taken integrity_error
  execute λ db. record db { audit_logs = insert_row (new_audit_log e stamp) db.audit_logs }
  row ← gets (λ db. find (λ r. r.uuid == stamp.uuid) db.audit_logs.rows)
  or_raise row (runtime_error "Failed to retrieve audit log after create")

-- `created_at DESC` with LIMIT
abbrev latest : ℕ → List AuditLog → List AuditLog
latest limit rows = take limit (order_by (desc (λ r. r.created_at)) rows)

abbrev pub is_some_of : ℕ → Option ℕ → Bool
is_some_of id none = false
is_some_of id (some n) = n == id

unfoldable pub list_by_entity : String → ℕ → Db → List AuditLog
list_by_entity entity_type entity_id db = order_by (desc (λ r. r.created_at)) (
    select (λ r. r.entity_type == entity_type && is_some_of entity_id r.entity_id)
      db.audit_logs.rows)

unfoldable pub list_by_actor : ℕ → ℕ → Db → List AuditLog
list_by_actor actor_id limit db =
    latest limit (select (λ r. is_some_of actor_id r.actor_id) db.audit_logs.rows)

unfoldable pub list_recent : ℕ → Db → List AuditLog
list_recent limit db = latest limit db.audit_logs.rows

-- `safe_log`: what `log` raises is swallowed.
unfoldable pub safe_log : Entry → Stamp → M (Option AuditLog)
safe_log e stamp db =
    let (r, db') = create e stamp db in
    elim r [ ok entry ↦ (ok (some entry), db') | err _ ↦ (ok none, db') ]
