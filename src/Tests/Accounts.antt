-- ===== src/Tests/Accounts.antt =====
-- Users, organizations and members.
use mathlib.Core.Option
use landlord_cli.Organization
use landlord_cli.Organization.Membership
use landlord_cli.User
use landlord_cli.Prelude.{
  ==_iff, String, arith, false, is_some, nat_eq, none, refl, some, string_eq, true, ◌≡◌, ◌≢◌,
}
use landlord_cli.Errors.{ok}
use landlord_cli.Tests.Sample.{alice, flat, house, plain, sample}
use landlord_cli.Organization.{
  create_organization, get_by_id, get_member, new_organization, remove_member, update_member_role,
}
use landlord_cli.Organization.Membership.{
  IsSound, create_organization_admin, get_member-update_member_role, with_role,
}
use landlord_cli.User.{authenticate, change_password, get_by_username, new_user, register_user}
use landlord_cli.User.Account.{change_password-authenticate, register-authenticate}
use landlord_cli.Authorization.{
  can_delete_billing, can_manage_bills, can_transfer_billing, can_view_billing,
  get_role_for_billing,
}
use landlord_cli.Authorization.Access.{get_role-remove_member, rights_chain}
use landlord_cli.Billing.{row_to_billing}

organizations-IsSound : Membership.IsSound sample
organizations-IsSound = record { fresh_ids = (omega arith, tt); member_orgs = (omega arith, tt) }

create_organization_admin_example :
    let (r, db') = create_organization "Lojas" 2 "O2" 9 9 sample in
    let org = new_organization 2 "O2" "Lojas" 2 9 in
    (r ≡ ok org)
    × (Organization.get_by_id 2 db' ≡ some org)
    × (Option.map (λ m. m.role) (get_member 2 2 db') ≡ some "admin")
create_organization_admin_example =
    create_organization_admin "Lojas" 2 "O2" 9 9 sample organizations-IsSound refl

get_member-update_member_role_example :
    get_member 1 1 (update_member_role 1 1 "viewer" sample).1
    ≡ Option.map (with_role "viewer") (get_member 1 1 sample)
get_member-update_member_role_example = get_member-update_member_role 1 1 "viewer" 1 1 sample

no_carol : User.get_by_username "carol" sample ≡ none
unfolding User.get_by_username
no_carol = refl

is_alice : User.get_by_username "alice" sample ≡ some alice
unfolding User.get_by_username
is_alice = refl

register-authenticate_example :
    let carol = new_user "carol" "c@x" "secret" 9 3 in
    let (r, db') = register_user plain "carol" "c@x" "secret" "salt" 9 sample in
    (r ≡ ok carol) × (authenticate plain "carol" "secret" db' ≡ some carol)
register-authenticate_example =
    register-authenticate plain "carol" "c@x" "secret" "salt" 9 sample no_carol

bob-ne-alice : ◌≢◌ {A = String} "bob" "alice"
bob-ne-alice = ground (arith, ==_iff {A = String} "bob" "alice")

change_password-authenticate_example :
    let db' = (change_password plain "alice" "new" "salt" sample).1 in
    (is_some (authenticate plain "alice" "old" db') ≡ false)
    × (is_some (authenticate plain "alice" "new" db') ≡ true)
    × (authenticate plain "bob" "old" db' ≡ authenticate plain "bob" "old" sample)
change_password-authenticate_example =
    change_password-authenticate plain "alice" "new" "salt" "bob" "old" alice sample is_alice
      bob-ne-alice

rights_chain_example :
    let billing = row_to_billing sample flat in
    (can_transfer_billing 1 billing ≡ true → can_delete_billing (some sample) 1 billing ≡ true)
    × (can_delete_billing (some sample) 1 billing ≡ true
        → can_manage_bills (some sample) 1 billing ≡ true)
    × (can_manage_bills (some sample) 1 billing ≡ true
        → can_view_billing (some sample) 1 billing ≡ true)
rights_chain_example = rights_chain (some sample) 1 (row_to_billing sample flat)

get_role-remove_member_example :
    get_role_for_billing (some (remove_member 1 1 sample).1) 1 (row_to_billing sample house) ≡ none
get_role-remove_member_example = get_role-remove_member 1 1 1 sample (row_to_billing sample house)
