-- ===== src/Organization.antt =====
-- rentivo/repositories/sqlalchemy.py, SQLAlchemyOrganizationRepository, and
-- rentivo/services/organization_service.py. A ULID and the times that `_now()` gives are arguments.
pub mod Membership
use mathlib.Core.Option
use landlord_cli.Prelude.{
  Bool, List, Option, String, [], codes, false, if◌then◌else◌, is_some, map, nat_eq, none, not,
  some, string_eq, ℕ, ◌&&◌, ◌++◌, ◌+◌, ◌==◌, ◌∷◌,
}
use landlord_cli.Sql.{asc, codes_le, delete_where, find, order_by, select, update_where}
use landlord_cli.Errors.{err, integrity_error, ok, runtime_error, value_error}
use landlord_cli.Models.{MemberRow, Organization, OrganizationMember, User}
use landlord_cli.Db.{Db, M, execute, gets, has_organization, has_user, or_raise, pure, ◌>>=◌, ◌>>◌}

-- SELECT * FROM organizations WHERE id = :id AND deleted_at IS NULL
abbrev pub org_is : ℕ → Organization → Bool
org_is org_id o = o.id == org_id && not (is_some o.deleted_at)

unfoldable pub get_by_id : ℕ → Db → Option Organization
get_by_id org_id db = find (org_is org_id) db.organizations.rows

unfoldable pub get_by_uuid : String → Db → Option Organization
get_by_uuid uuid db = find (λ o. o.uuid == uuid && not (is_some o.deleted_at)) db.organizations.rows

abbrev pub new_organization : ℕ → String → String → ℕ → ℕ → Organization
new_organization id uuid name created_by now = record {
  id = id;
  uuid = uuid;
  name = name;
  created_by = created_by;
  enforce_mfa = false;
  created_at = now;
  updated_at = now;
  deleted_at = none;
}

-- the INSERT, with the FOREIGN KEY on `created_by`
abbrev pub insert_organization : String → ℕ → String → ℕ → M ℕ
insert_organization name created_by uuid now db =
    if has_user db created_by
    then (
      ok db.organizations.next,
      record db {
        organizations = record {
          rows =
              db.organizations.rows
              ++ new_organization db.organizations.next uuid name created_by now ∷ [];
          next = db.organizations.next + 1;
        };
      },
    )
    else (err integrity_error, db)

-- `SQLAlchemyOrganizationRepository.create`
unfoldable pub create : String → ℕ → String → ℕ → M Organization
unfolding get_by_id
create name created_by uuid now = do
  org_id ← insert_organization name created_by uuid now
  created ← gets (get_by_id org_id)
  or_raise created (runtime_error "Failed to retrieve org after create")

-- the rows of `organization_members` for an organization and a user
abbrev pub member_is : ℕ → ℕ → MemberRow → Bool
member_is org_id user_id m = m.organization_id == org_id && m.user_id == user_id

abbrev pub row_to_member : MemberRow → OrganizationMember
row_to_member m = record {
  id = m.id;
  organization_id = m.organization_id;
  user_id = m.user_id;
  username = "";
  role = m.role;
  created_at = m.created_at;
}

unfoldable pub get_member : ℕ → ℕ → Db → Option OrganizationMember
get_member org_id user_id db =
    Option.map row_to_member (find (member_is org_id user_id) db.organization_members.rows)

abbrev pub new_member : ℕ → ℕ → ℕ → String → ℕ → MemberRow
new_member id org_id user_id role now = record {
  id = id;
  organization_id = org_id;
  user_id = user_id;
  role = role;
  created_at = now;
}

-- the INSERT, with the constraint UNIQUE (organization_id, user_id) and the FOREIGN KEYs
abbrev pub insert_member : ℕ → ℕ → String → ℕ → M (Unit {0})
insert_member org_id user_id role now db =
    if (has_organization db org_id && has_user db user_id)
      && not (is_some (find (member_is org_id user_id) db.organization_members.rows))
    then (
      ok tt,
      record db {
        organization_members = record {
          rows =
              db.organization_members.rows
              ++ new_member db.organization_members.next org_id user_id role now ∷ [];
          next = db.organization_members.next + 1;
        };
      },
    )
    else (err integrity_error, db)

-- `SQLAlchemyOrganizationRepository.add_member`
unfoldable pub add_member : ℕ → ℕ → String → ℕ → M OrganizationMember
unfolding get_member
add_member org_id user_id role now = do
  insert_member org_id user_id role now
  member ← gets (get_member org_id user_id)
  or_raise member (runtime_error "Failed to retrieve member after create")

unfoldable pub remove_member : ℕ → ℕ → M (Unit {0})
remove_member org_id user_id = execute λ db. record db {
  organization_members = record db.organization_members {
    rows = delete_where (member_is org_id user_id) db.organization_members.rows;
  };
}

unfoldable pub update_member_role : ℕ → ℕ → String → M (Unit {0})
update_member_role org_id user_id role = execute λ db. record db {
  organization_members = record db.organization_members {
    rows =
        update_where (member_is org_id user_id) (λ m. record m { role = role })
          db.organization_members.rows;
  };
}

-- the join of `list_members`: a member whose user is not there is left out
abbrev join_username : List User → List MemberRow → List OrganizationMember
join_username users [] = []
join_username users (m ∷ ms) =
    let rest = join_username users ms in
    elim (find (λ u. u.id == m.user_id) users) [
      | none ↦ rest
      | some u ↦ record (row_to_member m) { username = u.username } ∷ rest
    ]

-- `ORDER BY om.created_at`
unfoldable pub list_members : ℕ → Db → List OrganizationMember
list_members org_id db = join_username db.users.rows (
    order_by (asc (λ m. m.created_at))
      (select (λ m. m.organization_id == org_id) db.organization_members.rows))

-- Is there a membership of the user in this organization?
abbrev pub is_member_of : Db → ℕ → ℕ → Bool
is_member_of db org_id user_id =
    is_some (find (member_is org_id user_id) db.organization_members.rows)

-- `SELECT COUNT(*) … JOIN organization_members … > 0`
unfoldable pub user_has_enforcing_org : ℕ → Db → Bool
user_has_enforcing_org user_id db = is_some (
    find (λ o. is_member_of db o.id user_id && o.enforce_mfa && not (is_some o.deleted_at))
      db.organizations.rows)

-- `ORDER BY o.name`; the JOIN finds an organization once, as a user is a member of it once at most
unfoldable pub list_by_user : ℕ → Db → List Organization
list_by_user user_id db =
    order_by (λ a b. codes_le (codes a.name) (codes b.name))
      (select (λ o. is_member_of db o.id user_id && not (is_some o.deleted_at))
        db.organizations.rows)

-- the UPDATE of `update`: name, enforce_mfa and updated_at
unfoldable pub update : Organization → ℕ → M Organization
unfolding get_by_id
update org now = do
  execute λ db. record db {
    organizations = record db.organizations {
      rows =
          update_where (λ o. o.id == org.id)
            (λ o. record o { name = org.name; enforce_mfa = org.enforce_mfa; updated_at = now })
            db.organizations.rows;
    };
  }
  result ← gets (get_by_id org.id)
  or_raise result (runtime_error "Failed to retrieve org after update")

-- a soft delete
unfoldable pub delete : ℕ → ℕ → M (Unit {0})
delete org_id now = execute λ db. record db {
  organizations = record db.organizations {
    rows =
        update_where (λ o. o.id == org_id) (λ o. record o { deleted_at = some now })
          db.organizations.rows;
  };
}

-- `OrganizationService.create_organization`: the creator joins as an administrator.
unfoldable pub create_organization : String → ℕ → String → ℕ → ℕ → M Organization
create_organization name created_by uuid created_now joined_now = do
  created ← create name created_by uuid created_now
  add_member created.id created_by "admin" joined_now
  pure created

-- `OrganizationService.set_enforce_mfa`
unfoldable pub set_enforce_mfa : ℕ → Bool → ℕ → M Organization
set_enforce_mfa org_id enforce now = do
  found ← gets (get_by_id org_id)
  org ← or_raise found (value_error "Organização não encontrada")
  update (record org { enforce_mfa = enforce }) now
