-- ===== src/Authorization/Access.antt =====
-- Who may do what with a billing, and how a change of owner or of membership shows in it.
use landlord_cli.Prelude.{
  ==-eq-false, ==_iff, List, Option, String, [], arith, contains, false, if◌then◌else◌, is_some,
  map, nat_eq, none, refl, some, string_eq, sym, true, ℕ, ◌&&◌, ◌==◌, ◌∙◌, ◌∷◌, ◌≡◌, ◌≢◌,
}
use landlord_cli.Models.{Billing, BillingRow, MemberRow}
use landlord_cli.Db.{Db}
use landlord_cli.Authorization.{
  can_delete_billing, can_manage_bills, can_transfer_billing, can_view_billing,
  get_role_for_billing, role_in,
}
use landlord_cli.Sql.{find, select}
use landlord_cli.Organization.{get_member, member_is, remove_member}
use landlord_cli.Organization.Membership.{get_member-remove_member}
use landlord_cli.Billing.{owned_by, row_to_billing}

role_in-more :
    (role : Option String)
    → role_in ("owner" ∷ "admin" ∷ []) role ≡ true
    → role_in ("owner" ∷ "admin" ∷ "manager" ∷ []) role ≡ true
role_in-more none h = h
role_in-more (some role) h = ground arith

role_in-is_some :
    (role : Option String)
    → role_in ("owner" ∷ "admin" ∷ "manager" ∷ []) role ≡ true
    → is_some role ≡ true
role_in-is_some none h = h
role_in-is_some (some role) h = refl

-- The rights are a chain: transferring implies editing and deleting, these imply managing bills, and
-- that implies viewing.
pub rights_chain :
    (org_repo : Option Db) (user_id : ℕ) (billing : Billing)
    → (can_transfer_billing user_id billing ≡ true
        → can_delete_billing org_repo user_id billing ≡ true)
      × (can_delete_billing org_repo user_id billing ≡ true
          → can_manage_bills org_repo user_id billing ≡ true)
      × (can_manage_bills org_repo user_id billing ≡ true
          → can_view_billing org_repo user_id billing ≡ true)
unfolding can_transfer_billing can_delete_billing can_manage_bills can_view_billing
rights_chain org_repo user_id billing = (
  λ h. rw h,
  λ h. role_in-more (get_role_for_billing org_repo user_id billing) h,
  λ h. role_in-is_some (get_role_for_billing org_repo user_id billing) h,
)

-- `owner_id IN (SELECT …)` finds the memberships that `get_member` finds.
contains-member_orgs :
    (org_id user_id : ℕ) (rows : List MemberRow)
    → contains org_id (map (λ m. m.organization_id) (select (λ m. m.user_id == user_id) rows))
      ≡ is_some (find (member_is org_id user_id) rows)
contains-member_orgs org_id user_id [] = refl
contains-member_orgs org_id user_id (m ∷ ms) =
    ground (arith, contains-member_orgs org_id user_id ms)

pub owned_by-can_view_billing :
    (db : Db) (user_id : ℕ) (r : BillingRow)
    → owned_by db user_id r ≡ can_view_billing (some db) user_id (row_to_billing db r)
unfolding can_view_billing get_member
owned_by-can_view_billing db user_id r = ground (
  arith,
  contains-member_orgs r.owner_id user_id db.organization_members.rows,
  ==_iff r.owner_type "user",
  ==_iff r.owner_type "organization",
)

user-ne-organization : ◌≢◌ {A = String} "user" "organization"
user-ne-organization = ground (arith, ==_iff {A = String} "user" "organization")

pub not_organization : (t : String) → (t == "user") ≡ true → (t == "organization") ≡ false
not_organization t h = ==-eq-false (λ e. user-ne-organization (sym ((==_iff t "user").0 h) ∙ e))

-- The role that a reader of the database has for a billing after a member has been removed: the
-- member has none for the billings of that organization, and every other role is as before.
pub get_role-remove_member :
    (org_id member_id user_id : ℕ) (db : Db) (billing : Billing)
    → get_role_for_billing (some (remove_member org_id member_id db).1) user_id billing ≡ (
        if billing.owner_type == "organization"
          && (billing.owner_id == org_id && user_id == member_id)
        then none
        else get_role_for_billing (some db) user_id billing)
unfolding get_role_for_billing
get_role-remove_member org_id member_id user_id db billing = ground (
  arith,
  get_member-remove_member org_id member_id billing.owner_id user_id db,
  not_organization billing.owner_type,
)
