-- ===== src/Organization/Membership.antt =====
-- Organizations and their members: what each write leaves for the reads that follow.
use mathlib.Core.Option
use landlord_cli.Prelude.{
  All, Bool-cases, Option-cases, String, [], arith, false, if◌then◌else◌, inl, inr, nat_eq, none,
  refl, some, string_eq, true, ℕ, ◌&&◌, ◌<◌, ◌==◌, ◌∷◌, ◌≡◌,
}
use landlord_cli.Sql.{
  delete_where, find, find-append, find-delete_where_other, find-delete_where_self, find-eq-some,
  find-update_where, find-none_of_All,
}
use landlord_cli.Errors.{ok}
use landlord_cli.Db.{Db, has_organization, has_user}
use landlord_cli.Organization.{
  add_member, create, create_organization, get_by_id, get_member, insert_member,
  insert_organization, is_member_of, member_is, new_member, new_organization, org_is, remove_member,
  row_to_member, update_member_role,
}
use landlord_cli.Models.{MemberRow, OrganizationMember}

-- What the database keeps by AUTO_INCREMENT and the FOREIGN KEY of `organization_members`.
pub record IsSound (db : Db) : Type 0 where
  pub fresh_ids : All (λ o. o.id < db.organizations.next) db.organizations.rows
  pub member_orgs :
      All (λ m. m.organization_id < db.organizations.next) db.organization_members.rows

no_org_at_next :
    (db : Db) → IsSound db → find (org_is db.organizations.next) db.organizations.rows ≡ none
no_org_at_next db h =
    find-none_of_All (λ o. o.id < db.organizations.next) (org_is db.organizations.next)
      (λ o lt. ground arith) db.organizations.rows h.fresh_ids

no_member_at_next :
    (db : Db) (user_id : ℕ)
    → IsSound db
    → find (member_is db.organizations.next user_id) db.organization_members.rows ≡ none
no_member_at_next db user_id h =
    find-none_of_All (λ m. m.organization_id < db.organizations.next)
      (member_is db.organizations.next user_id) (λ m lt. ground arith) db.organization_members.rows
      h.member_orgs

create_lem :
    (name : String) (user_id : ℕ) (uuid : String) (now : ℕ) (db : Db)
    → IsSound db
    → has_user db user_id ≡ true
    → create name user_id uuid now db ≡ (
      ok (new_organization db.organizations.next uuid name user_id now),
      (insert_organization name user_id uuid now db).1,
    )
unfolding create
create_lem name user_id uuid now db h known =
    let org = new_organization db.organizations.next uuid name user_id now in
    ground (
      arith,
      find-append (org_is db.organizations.next) db.organizations.rows (org ∷ []),
      no_org_at_next db h,
    )

pub add_member_lem :
    (org_id user_id : ℕ) (role : String) (now : ℕ) (db : Db)
    → has_organization db org_id ≡ true
    → has_user db user_id ≡ true
    → is_member_of db org_id user_id ≡ false
    → add_member org_id user_id role now db ≡ (
      ok (row_to_member (new_member db.organization_members.next org_id user_id role now)),
      (insert_member org_id user_id role now db).1,
    )
unfolding add_member
add_member_lem org_id user_id role now db ho hu hm =
    let m = new_member db.organization_members.next org_id user_id role now in
    ground (arith, find-append (member_is org_id user_id) db.organization_members.rows (m ∷ []))

-- The database between the two calls of `create_organization`.
abbrev created_db : String → ℕ → String → ℕ → Db → Db
created_db name user_id uuid now db = (insert_organization name user_id uuid now db).1

module _ (name : String) (user_id : ℕ) (uuid : String) (now : ℕ) (db : Db) (h : IsSound db)
    (known : has_user db user_id ≡ true) where
  has_organization-created_db :
      has_organization (created_db name user_id uuid now db) db.organizations.next ≡ true
  has_organization-created_db =
      let org = new_organization db.organizations.next uuid name user_id now in
      ground
        (arith, find-append (λ o. o.id == db.organizations.next) db.organizations.rows (org ∷ []))

  get_by_id-created_db :
      get_by_id db.organizations.next (created_db name user_id uuid now db)
      ≡ some (new_organization db.organizations.next uuid name user_id now)
  unfolding get_by_id
  get_by_id-created_db =
      let org = new_organization db.organizations.next uuid name user_id now in
      ground (
        arith,
        find-append (org_is db.organizations.next) db.organizations.rows (org ∷ []),
        no_org_at_next db h,
      )

create_organization_lem :
    (name : String) (user_id : ℕ) (uuid : String) (created_now joined_now : ℕ) (db : Db)
    → IsSound db
    → has_user db user_id ≡ true
    → create_organization name user_id uuid created_now joined_now db ≡ (
      ok (new_organization db.organizations.next uuid name user_id created_now),
      (insert_member db.organizations.next user_id "admin" joined_now
          (created_db name user_id uuid created_now db)).1,
    )
unfolding create_organization
create_organization_lem name user_id uuid created_now joined_now db h known =
    let db1 = created_db name user_id uuid created_now db in
    ground (
      arith,
      create_lem name user_id uuid created_now db h known,
      add_member_lem db.organizations.next user_id "admin" joined_now db1,
      has_organization-created_db name user_id uuid created_now db h known,
      no_member_at_next db user_id h,
    )

-- In a sound database, where ids of organizations are below the next one and members are of such
-- organizations, a known user who creates an organization is its administrator, and the organization
-- is there.
pub create_organization_admin :
    (name : String) (user_id : ℕ) (uuid : String) (created_now joined_now : ℕ) (db : Db)
    → IsSound db
    → has_user db user_id ≡ true
    → let (r, db') = create_organization name user_id uuid created_now joined_now db in
      let org = new_organization db.organizations.next uuid name user_id created_now in
      (r ≡ ok org)
      × (get_by_id org.id db' ≡ some org)
      × (Option.map (λ m. m.role) (get_member org.id user_id db') ≡ some "admin")
unfolding get_by_id get_member
create_organization_admin name user_id uuid created_now joined_now db h known =
    let next = db.organizations.next in
    let member = new_member db.organization_members.next next user_id "admin" joined_now in
    let org = new_organization next uuid name user_id created_now in
    rw (create_organization_lem name user_id uuid created_now joined_now db h known) (
      refl,
      ground (
        arith,
        known,
        no_org_at_next db h,
        find-append (org_is next) db.organizations.rows (org ∷ []),
      ),
      ground (
        arith,
        known,
        no_member_at_next db user_id h,
        has_organization-created_db name user_id uuid created_now db h known,
        find-append (member_is next user_id) db.organization_members.rows (member ∷ []),
      ),
    )

pub get_member-remove_member :
    (org_id user_id o u : ℕ) (db : Db)
    → get_member o u (remove_member org_id user_id db).1
      ≡ (if o == org_id && u == user_id then none else get_member o u db)
unfolding get_member remove_member
get_member-remove_member org_id user_id o u db = elim (Bool-cases (o == org_id && u == user_id)) [
  | inl same ↦
      let e : find (member_is o u)
            (delete_where (member_is org_id user_id) db.organization_members.rows)
          ≡ none =
        find-delete_where_self (member_is o u) (member_is org_id user_id) (λ m q. ground arith)
          db.organization_members.rows in
      ground arith
  | inr other ↦
      let e : find (member_is o u)
            (delete_where (member_is org_id user_id) db.organization_members.rows)
          ≡ find (member_is o u) db.organization_members.rows =
        find-delete_where_other (member_is o u) (member_is org_id user_id) (λ m q. ground arith)
          db.organization_members.rows in
      ground arith
]

abbrev pub with_role : String → OrganizationMember → OrganizationMember
with_role role m = record m { role = role }

-- A new role for a member shows in `get_member` for that member, and for no one else.
pub get_member-update_member_role :
    (org_id user_id : ℕ) (role : String) (o u : ℕ) (db : Db)
    → get_member o u (update_member_role org_id user_id role db).1 ≡ (
        if o == org_id && u == user_id
        then Option.map (with_role role) (get_member o u db)
        else get_member o u db)
unfolding get_member update_member_role
get_member-update_member_role org_id user_id role o u db =
    let f : MemberRow → MemberRow = λ m. record m { role = role } in
    let e =
      find-update_where (member_is o u) (member_is org_id user_id) f (λ m. refl)
        db.organization_members.rows in
    elim (Option-cases (find (member_is o u) db.organization_members.rows)) [
      | inl absent ↦ ground (arith, e, absent)
      | inr (m, found) ↦
          ground
            (arith, e, found, find-eq-some (member_is o u) db.organization_members.rows m found)
    ]
