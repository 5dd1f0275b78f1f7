-- ===== src/Web/Organizations/Guards.antt =====
-- What only an administrator of an organization may do.
use landlord_cli.Organization
use landlord_cli.Prelude.{List, Option-cases, String, false, inl, inr, refl, some, ℕ, ◌≡◌}
use landlord_cli.Models.{Organization}
use landlord_cli.Web.{IsRedirect, Response, W, Web}
use landlord_cli.Audit.{Stamp}
use landlord_cli.Web.Organizations.{
  as_admin, is_admin, member_change_role, member_remove, org_path, organization_delete,
  organization_edit, organization_invite, organization_toggle_mfa, organization_transfer_billing,
}
use landlord_cli.Db.{Db}

pub data Form : Type 0 where
  edit : String → ℕ → Stamp → Form
  delete : ℕ → Stamp → Form
  change_role : ℕ → String → Stamp → Form
  remove : ℕ → Stamp → Form
  invite : String → String → String → ℕ → Stamp → Form
  toggle_mfa : ℕ → Stamp → Form
  transfer_billing : String → ℕ → Form

-- A form of the organization, sent by the user.
abbrev pub submit : Form → String → ℕ → W Response
submit (edit name now stamp) org_uuid user_id = organization_edit org_uuid name user_id now stamp
submit (delete now stamp) org_uuid user_id = organization_delete org_uuid user_id now stamp
submit (change_role member role stamp) org_uuid user_id =
    member_change_role org_uuid member role user_id stamp
submit (remove member stamp) org_uuid user_id = member_remove org_uuid member user_id stamp
submit (invite username role uuid now stamp) org_uuid user_id =
    organization_invite org_uuid username role user_id uuid now stamp
submit (toggle_mfa now stamp) org_uuid user_id = organization_toggle_mfa org_uuid user_id now stamp
submit (transfer_billing billing_uuid now) org_uuid user_id =
    organization_transfer_billing org_uuid billing_uuid user_id now

-- only a message more
abbrev pub with_messages : List (String × String) → Web → Web
with_messages messages w = record w { session = record w.session { messages = messages } }

-- There is no such organization, or the user is not an administrator of it.
abbrev pub HasNoRights : String → ℕ → Db → Type 0
HasNoRights org_uuid user_id db =
    (org : Organization)
    → Organization.get_by_uuid org_uuid db ≡ some org
    → is_admin (Organization.get_member org.id user_id db) ≡ false

as_admin_refused :
    (org_uuid : String) (user_id : ℕ) (k : Organization → W Response) (w : Web)
    → HasNoRights org_uuid user_id w.db
    → let (r, w') = as_admin org_uuid user_id k w in
      IsRedirect r × (w' ≡ with_messages w'.session.messages w)
unfolding as_admin
as_admin_refused org_uuid user_id k w none_rights =
    elim (Option-cases (Organization.get_by_uuid org_uuid w.db)) [
      | inl absent ↦ rw absent (("/organizations/", refl), refl)
      | inr (org, there) ↦ rw (there, none_rights org there) ((org_path org_uuid, refl), refl)
    ]

-- Whatever form of an organization a user sends who is not an administrator of it, the answer is a
-- redirect, and nothing changes but the messages for the user.
pub submit_refused :
    (form : Form) (org_uuid : String) (user_id : ℕ) (w : Web)
    → HasNoRights org_uuid user_id w.db
    → let (r, w') = submit form org_uuid user_id w in
      IsRedirect r × (w' ≡ with_messages w'.session.messages w)
unfolding organization_edit organization_delete member_change_role member_remove organization_invite
    organization_toggle_mfa organization_transfer_billing
submit_refused (edit name now stamp) org_uuid user_id w h = as_admin_refused org_uuid user_id _ w h
submit_refused (delete now stamp) org_uuid user_id w h = as_admin_refused org_uuid user_id _ w h
submit_refused (change_role m role stamp) org_uuid user_id w h =
    as_admin_refused org_uuid user_id _ w h
submit_refused (remove m stamp) org_uuid user_id w h = as_admin_refused org_uuid user_id _ w h
submit_refused (invite username role uuid now stamp) org_uuid user_id w h =
    as_admin_refused org_uuid user_id _ w h
submit_refused (toggle_mfa now stamp) org_uuid user_id w h = as_admin_refused org_uuid user_id _ w h
submit_refused (transfer_billing b now) org_uuid user_id w h =
    as_admin_refused org_uuid user_id _ w h
