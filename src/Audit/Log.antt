-- ===== src/Audit/Log.antt =====
-- The audit log as a log.
use landlord_cli.Prelude.{
  ==_refl, All, Bool, List, Option-cases, [], ap, arith, false, inl, inr, leb, nat_eq, none, refl,
  some, string_eq, suc, true, ℕ, ◌&&◌, ◌++◌, ◌<◌, ◌==◌, ◌∙◌, ◌∷◌, ◌≡◌, ◌⊎◌,
}
use landlord_cli.Sql.{
  All-select, desc, find, find-append, insert_row, order_by, select, select-append,
}
use landlord_cli.Errors.{ok}
use landlord_cli.Models.{AuditLog}
use landlord_cli.Db.{Db}
use landlord_cli.Audit.{
  Entry, Stamp, create, is_some_of, is_taken, list_by_entity, list_recent, new_audit_log, safe_log,
}

abbrev pub appended : Entry → Stamp → Db → Db
appended e stamp db = record db { audit_logs = insert_row (new_audit_log e stamp) db.audit_logs }

-- What an event that is logged leaves: nothing where its uuid is taken, and the entry otherwise.
pub safe_log_lem :
    (e : Entry) (stamp : Stamp) (db : Db)
    → (is_taken stamp db ≡ true) × (safe_log e stamp db ≡ (ok none, db))
      ⊎ (is_taken stamp db ≡ false)
        × (safe_log e stamp db
            ≡ (ok (some (new_audit_log e stamp db.audit_logs.next)), appended e stamp db))
unfolding safe_log create
safe_log_lem e stamp db =
    elim (Option-cases (find (λ r. r.uuid == stamp.uuid) db.audit_logs.rows)) [
      | inr (row, there) ↦ inl (rw there refl, ground (arith, there))
      | inl free ↦
          let entry = new_audit_log e stamp db.audit_logs.next in
          let found : find (λ r. r.uuid == stamp.uuid) (db.audit_logs.rows ++ entry ∷ [])
              ≡ some entry =
            find-append (λ r. r.uuid == stamp.uuid) db.audit_logs.rows (entry ∷ [])
            ∙ rw (free, ==_refl stamp.uuid) refl in
          inr (rw free refl, ground (arith, free, found))
    ]

-- A row that is later than all others comes first.
order_by-append_latest :
    (rows : List AuditLog) (r : AuditLog)
    → All (λ x. x.created_at < r.created_at) rows
    → order_by (desc (λ x. x.created_at)) (rows ++ r ∷ [])
      ≡ r ∷ order_by (desc (λ x. x.created_at)) rows
order_by-append_latest [] r a = refl
order_by-append_latest (x ∷ xs) r a =
    let later : leb r.created_at x.created_at ≡ false = let h = a.0 in ground arith in
    rw (order_by-append_latest xs r a.1, later) refl

-- Logging an event with an entity, where the entries there are all earlier, never raises. Where an entry
-- has the uuid already, the INSERT is refused: the call returns none and the database is as before.
-- Otherwise it returns the entry, no table but the log changes, and the entry comes first in the list
-- of its entity and in the list of recent ones, before what these lists held.
pub safe_log-list_by_entity :
    (e : Entry) (stamp : Stamp) (entity_id limit : ℕ) (db : Db)
    → All (λ r. r.created_at < stamp.now) db.audit_logs.rows
    → e.entity_id ≡ some entity_id
    → let entry = new_audit_log e stamp db.audit_logs.next in
      let (r, db') = safe_log e stamp db in
      (is_taken stamp db ≡ true) × (r ≡ ok none) × (db' ≡ db)
      ⊎ (is_taken stamp db ≡ false)
        × (r ≡ ok (some entry))
        × (db' ≡ record db { audit_logs = db'.audit_logs })
        × (list_by_entity e.entity_type entity_id db'
            ≡ entry ∷ list_by_entity e.entity_type entity_id db)
        × (list_recent (suc limit) db' ≡ entry ∷ list_recent limit db)
unfolding list_by_entity list_recent
safe_log-list_by_entity e stamp entity_id limit db earlier of_entity =
    let rows = db.audit_logs.rows in
    let entry = new_audit_log e stamp db.audit_logs.next in
    let p : AuditLog → Bool =
      λ r. r.entity_type == e.entity_type && is_some_of entity_id r.entity_id in
    let is_p : p entry ≡ true =
      ground (arith, of_entity, ==_refl e.entity_type, ==_refl entity_id) in
    let split : select p (rows ++ entry ∷ []) ≡ select p rows ++ entry ∷ [] =
      rw (select-append p rows (entry ∷ []), is_p) refl in
    elim (safe_log_lem e stamp db) [
      | inl (taken, step) ↦ inl (taken, ap (λ p. p.0) step, ap (λ p. p.1) step)
      | inr (free, step) ↦ inr (
        free,
        ap (λ p. p.0) step,
        rw step refl,
        rw step (
            ap (order_by (desc (λ r. r.created_at))) split
            ∙ order_by-append_latest (select p rows) entry
                (All-select (λ r. r.created_at < stamp.now) p rows earlier)),
        rw (step, order_by-append_latest rows entry earlier) refl,
      )
    ]
