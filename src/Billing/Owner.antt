-- ===== src/Billing/Owner.antt =====
-- The transfer of a billing to an organization, and whose it is afterwards.
use mathlib.Core.Option
use landlord_cli.Prelude.{
  ==_iff, arith, if◌then◌else◌, nat_eq, none, refl, some, string_eq, true, ℕ, ◌==◌, ◌≡◌,
}
use landlord_cli.Sql.{find, find-eq-some, find-update_where}
use landlord_cli.Errors.{err, ok, value_error}
use landlord_cli.Models.{BillingRow}
use landlord_cli.Db.{Db}
use landlord_cli.Billing.{
  billing_is, get_by_id, row_to_billing, transfer_owner, transfer_to_organization,
}
use landlord_cli.Organization.{get_member}
use landlord_cli.Authorization.{get_role_for_billing}

abbrev pub transferred : ℕ → ℕ → BillingRow → BillingRow
transferred org_id now r = record r {
  owner_type = "organization";
  owner_id = org_id;
  updated_at = now;
}

-- Only a live billing that a user owns changes hands; every refusal names its reason and changes
-- nothing. After a transfer the billing is the organization's and nothing else of it has changed.
pub transfer_to_organization_lem :
    (id org_id now : ℕ) (db : Db)
    → transfer_to_organization id org_id now db ≡ (elim (find (billing_is id) db.billings.rows) [
      | none ↦ (err (value_error "Billing not found"), db)
      | some row ↦
          if row.owner_type == "user"
          then (ok tt, (transfer_owner id "organization" org_id now db).1)
          else (err (value_error "Only personal billings can be transferred to organizations"), db)
    ])
unfolding transfer_to_organization
transfer_to_organization_lem id org_id now db = ground arith

get_by_id-transfer_owner :
    (id org_id now : ℕ) (db : Db) (row : BillingRow)
    → find (billing_is id) db.billings.rows ≡ some row
    → get_by_id id (transfer_owner id "organization" org_id now db).1
      ≡ some (row_to_billing db (transferred org_id now row))
unfolding get_by_id transfer_owner
get_by_id-transfer_owner id org_id now db row found =
    let is_row : billing_is id row ≡ true =
      find-eq-some (billing_is id) db.billings.rows row found in
    ground (
      arith,
      found,
      is_row,
      find-update_where (billing_is id) (λ r. r.id == id) (transferred org_id now) (λ r. refl)
          db.billings.rows,
    )

-- Once a user's live billing has been transferred, the role that anyone has for it is the role that
-- the organization gives them: whoever is no member of it has none, the former owner included.
pub transfer_to_organization-role :
    (id org_id now user_id : ℕ) (row : BillingRow) (db : Db)
    → find (billing_is id) db.billings.rows ≡ some row
    → row.owner_type ≡ "user"
    → let (r, db') = transfer_to_organization id org_id now db in
      (r ≡ ok tt)
      × (get_by_id id db' ≡ some (row_to_billing db (transferred org_id now row)))
      × (get_role_for_billing (some db') user_id (row_to_billing db (transferred org_id now row))
          ≡ Option.map (λ m. m.role) (get_member org_id user_id db))
unfolding get_role_for_billing get_member transfer_owner
transfer_to_organization-role id org_id now user_id row db found personal =
    let step : transfer_to_organization id org_id now db
        ≡ (ok tt, (transfer_owner id "organization" org_id now db).1) =
      ground (
        arith,
        transfer_to_organization_lem id org_id now db,
        found,
        (==_iff row.owner_type "user").1 personal,
      ) in
    rw step (refl, get_by_id-transfer_owner id org_id now db row found, refl)
