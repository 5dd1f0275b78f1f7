-- ===== src/Web/Organizations/Members.antt =====
-- Who is a member after one has been removed.
use landlord_cli.Organization
use landlord_cli.Prelude.{
  Bool-cases, String, [], ap, arith, if◌then◌else◌, inl, inr, nat_eq, none, not, refl, some,
  string_eq, true, ℕ, ◌&&◌, ◌==◌, ◌∙◌, ◌∷◌, ◌≡◌,
}
use landlord_cli.Errors.{is_ok}
use landlord_cli.Models.{Organization}
use landlord_cli.Web.{Web}
use landlord_cli.Web.Organizations.{as_admin, is_admin, member_remove, org_entry, role_or_empty}
use landlord_cli.Json.{dict, nat, str}
use landlord_cli.Audit.{Entry, Stamp, safe_log}
use landlord_cli.Audit.Log.{safe_log_lem}
use landlord_cli.Organization.Membership.{get_member-remove_member}
use landlord_cli.Db.{Db}

-- The log holds no members.
get_member-safe_log :
    (o u : ℕ) (e : Entry) (stamp : Stamp) (db : Db)
    → Organization.get_member o u (safe_log e stamp db).1 ≡ Organization.get_member o u db
get_member-safe_log o u e stamp db = elim (safe_log_lem e stamp db) [
  | inl (taken, step) ↦ ap (λ p. Organization.get_member o u p.1) step
  | inr (free, step) ↦
      ap (λ p. Organization.get_member o u p.1) step ∙ unfold Organization.get_member in refl
]

-- An administrator who removes another member has the member out of the organization: the member is
-- none of its members any more, memberships of every other organization and user are as before, and so
-- the administrator stays one. An administrator who removes himself changes no membership.
pub member_remove-get_member :
    (org_uuid : String) (org : Organization) (member_user_id user_id o u : ℕ) (stamp : Stamp)
    (w : Web)
    → Organization.get_by_uuid org_uuid w.db ≡ some org
    → is_admin (Organization.get_member org.id user_id w.db) ≡ true
    → let (r, w') = member_remove org_uuid member_user_id user_id stamp w in
      (is_ok r ≡ true)
      × (is_admin (Organization.get_member org.id user_id w'.db) ≡ true)
      × (Organization.get_member o u w'.db ≡ (
          if not (member_user_id == user_id) && (o == org.id && u == member_user_id)
          then none
          else Organization.get_member o u w.db))
unfolding member_remove as_admin Organization.remove_member
member_remove-get_member org_uuid org member_user_id user_id o u stamp w there admin =
    elim (Bool-cases (member_user_id == user_id)) [
      | inl self ↦ rw (there, admin, self) (refl, admin, refl)
      | inr other ↦
          let target = Organization.get_member org.id member_user_id w.db in
          let e : Entry = record (org_entry "organization.remove_member" user_id org w) {
            previous_state = some (
                dict (
                  ("org_id", nat org.id)
                  ∷ ("user_id", nat member_user_id)
                  ∷ ("role", str (role_or_empty target))
                  ∷ []));
          } in
          let db1 = (Organization.remove_member org.id member_user_id w.db).1 in
          let kept : (x y : ℕ)
              → Organization.get_member x y
                  (member_remove org_uuid member_user_id user_id stamp w).1.db
                ≡ (if x == org.id && y == member_user_id
                    then none
                    else Organization.get_member x y w.db) =
            λ x y.
              ap (Organization.get_member x y) (rw (there, admin, other) refl)
              ∙ get_member-safe_log x y e stamp db1
              ∙ get_member-remove_member org.id member_user_id x y w.db in
          (
            rw (there, admin, other) refl,
            ground (arith, kept org.id user_id, admin, other),
            ground (arith, kept o u, other),
          )
    ]
