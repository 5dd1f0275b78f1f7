-- ===== src/Authorization.antt =====
-- rentivo/services/authorization_service.py. The repository of organizations that the service may
-- hold is read access to a database.
pub mod Access
use mathlib.Core.Option
use landlord_cli.Prelude.{
  Bool, List, Option, String, [], contains, false, if◌then◌else◌, is_some, map, nat_eq, none, some,
  string_eq, ℕ, ◌&&◌, ◌==◌, ◌∷◌,
}
use landlord_cli.Models.{Billing}
use landlord_cli.Db.{Db}
use landlord_cli.Organization.{get_member}

unfoldable pub get_role_for_billing : Option Db → ℕ → Billing → Option String
get_role_for_billing org_repo user_id billing =
    if billing.owner_type == "user" && billing.owner_id == user_id
    then some "owner"
    else if billing.owner_type == "organization"
    then elim org_repo [
      | none ↦ none
      | some db ↦ Option.map (λ m. m.role) (get_member billing.owner_id user_id db)
    ]
    else none

-- `role in (…)`: None is in no tuple of strings
abbrev pub role_in : List String → Option String → Bool
role_in roles none = false
role_in roles (some role) = contains role roles

unfoldable pub can_view_billing : Option Db → ℕ → Billing → Bool
unfolding get_role_for_billing
can_view_billing org_repo user_id billing = is_some (get_role_for_billing org_repo user_id billing)

unfoldable pub can_edit_billing : Option Db → ℕ → Billing → Bool
can_edit_billing org_repo user_id billing =
    role_in ("owner" ∷ "admin" ∷ []) (get_role_for_billing org_repo user_id billing)

unfoldable pub can_delete_billing : Option Db → ℕ → Billing → Bool
unfolding can_edit_billing
can_delete_billing org_repo user_id billing = can_edit_billing org_repo user_id billing

unfoldable pub can_manage_bills : Option Db → ℕ → Billing → Bool
can_manage_bills org_repo user_id billing =
    role_in ("owner" ∷ "admin" ∷ "manager" ∷ []) (get_role_for_billing org_repo user_id billing)

unfoldable pub can_transfer_billing : ℕ → Billing → Bool
can_transfer_billing user_id billing = billing.owner_type == "user" && billing.owner_id == user_id
