-- ===== src/Tests/Records.antt =====
-- The audit log and themes.
use landlord_cli.Prelude.{[], arith, false, none, refl, some, true, ◌∷◌, ◌≡◌, ◌⊎◌}
use landlord_cli.Errors.{ok}
use landlord_cli.Models.{AuditLog, Billing, Theme, ThemeRow}
use landlord_cli.Db.{Db}
use landlord_cli.Tests.Sample.{flat, sample}
use landlord_cli.Audit.{
  Entry, Stamp, is_taken, list_by_entity, list_recent, new_audit_log, plain_entry, safe_log,
}
use landlord_cli.Audit.Log.{safe_log-list_by_entity}
use landlord_cli.Theme.{
  Style, create_or_update_theme, default_theme, get_by_owner, resolve_theme_for_billing,
}
use landlord_cli.Theme.Owner.{
  create_or_update_theme-get_by_owner, create_or_update_theme-resolve, look,
}
use landlord_cli.Billing.{row_to_billing}

abbrev pub stamp : Stamp
stamp = record { uuid = "A1"; now = 20 }

abbrev old_entry : AuditLog
old_entry =
    new_audit_log (record (plain_entry "bill.create") { entity_type = "bill" })
      (record { uuid = "A0"; now = 10 }) 1

abbrev logged_sample : Db
logged_sample = record sample { audit_logs = record { rows = old_entry ∷ []; next = 2 } }

abbrev deletion : Entry
deletion = record (plain_entry "bill.delete") { entity_type = "bill"; entity_id = some 1 }

safe_log-list_by_entity_example :
    let entry = new_audit_log deletion stamp 2 in
    let (r, db') = safe_log deletion stamp logged_sample in
    (is_taken stamp logged_sample ≡ true) × (r ≡ ok none) × (db' ≡ logged_sample)
    ⊎ (is_taken stamp logged_sample ≡ false)
      × (r ≡ ok (some entry))
      × (db' ≡ record logged_sample { audit_logs = db'.audit_logs })
      × (list_by_entity "bill" 1 db' ≡ entry ∷ list_by_entity "bill" 1 logged_sample)
      × (list_recent 2 db' ≡ entry ∷ list_recent 1 logged_sample)
safe_log-list_by_entity_example =
    safe_log-list_by_entity deletion stamp 1 1 logged_sample (omega arith, tt) refl

-- the theme of the billing 1
abbrev green : ThemeRow
green = record {
  id = 1;
  theme = record default_theme {
    id = some 1;
    owner_type = "billing";
    owner_id = 1;
    primary = "#0F0";
  };
}

abbrev themed : Db
themed = record sample { themes = record { rows = green ∷ []; next = 2 } }

abbrev first_billing : Billing
first_billing = row_to_billing sample flat

create_or_update_theme-get_by_owner_example :
    let (r, db') = create_or_update_theme "billing" 1 ((Style.name, "Verde") ∷ []) "T2" 21 themed in
    (t : Theme) × (r ≡ ok (some t))
    × (get_by_owner "billing" 1 db' ≡ some t)
    × (look t ≡ look (record green.theme { name = "Verde" }))
unfolding get_by_owner
create_or_update_theme-get_by_owner_example =
    create_or_update_theme-get_by_owner "billing" 1 ((Style.name, "Verde") ∷ []) "T2" 21 themed
      (tt, tt)

create_or_update_theme-resolve_example :
    let (r, db') = create_or_update_theme "billing" 1 ((Style.name, "Verde") ∷ []) "T2" 21 themed in
    look (resolve_theme_for_billing first_billing db')
    ≡ look (record green.theme { name = "Verde" })
unfolding get_by_owner
create_or_update_theme-resolve_example =
    create_or_update_theme-resolve first_billing 1 ((Style.name, "Verde") ∷ []) "T2" 21 themed
      (tt, tt) refl
