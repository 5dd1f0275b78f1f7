-- ===== src/Invite/Answer.antt =====
-- Answers to an invite: who may give one, what it writes, and that it is final.
use mathlib.Core.Path.{subst}
use mathlib.Core.Option
use landlord_cli.Prelude.{
  &&-eq-true, ==_iff, ==_refl, Option-cases, String, [], arith, false, inl, inr, is_some, nat_eq,
  refl, some, string_eq, sym, true, ℕ, ◌==◌, ◌∷◌, ◌≡◌,
}
use landlord_cli.Sql.{find, find-append, find-eq-some, find-update_where}
use landlord_cli.Models.{Invite, InviteRow}
use landlord_cli.Db.{Db, has_organization, has_user}
use landlord_cli.Invite.{
  accept_invite, answered, decline_invite, get_by_uuid, invite_is, join_invite, update_status,
}
use landlord_cli.Errors.{Error, err, ok, value_error}
use landlord_cli.Organization.{get_member, insert_member, is_member_of, member_is, new_member}
use landlord_cli.Organization.Membership.{add_member_lem}

join_invite-known :
    (db : Db) (i : InviteRow)
    → is_some (join_invite db i) ≡ true
    → (has_organization db i.organization_id ≡ true) × (has_user db i.invited_user_id ≡ true)
join_invite-known db i h = ground arith

-- What `get_by_uuid` reads, in terms of the row.
pub get_by_uuid_lem :
    (uuid : String) (db : Db) (i : InviteRow)
    → find (invite_is db uuid) db.invites.rows ≡ some i
    → (v : Invite) × (get_by_uuid uuid db ≡ some v) × (v.row ≡ i)
unfolding get_by_uuid
get_by_uuid_lem uuid db i found = elim (Option-cases (join_invite db i)) [
  | inl none_there ↦
      absurd (
        ground (arith, found, none_there, find-eq-some (invite_is db uuid) db.invites.rows i found))
  | inr (v, there) ↦ (v, ground (arith, found, there), ground (arith, there))
]

-- The row of an invite once it has been answered.
answered_row :
    (uuid : String) (status : String) (now : ℕ) (db : Db) (i : InviteRow)
    → find (invite_is db uuid) db.invites.rows ≡ some i
    → find (invite_is db uuid) (update_status i.id status now db).1.invites.rows
      ≡ some (answered status now i)
unfolding update_status
answered_row uuid status now db i found = ground (
  arith,
  found,
  ==_refl i.id,
  find-update_where (invite_is db uuid) (λ j. j.id == i.id) (answered status now)
      (λ j. ground arith) db.invites.rows,
)

abbrev no_longer_pending : Error
no_longer_pending = value_error "Invite is no longer pending"

-- The database between the two writes of `accept_invite`.
abbrev joined : Db → InviteRow → ℕ → Db
joined db i now = (insert_member i.organization_id i.invited_user_id i.role now db).1

module _ (uuid : String) (db : Db) (i : InviteRow)
    (found : find (invite_is db uuid) db.invites.rows ≡ some i) where
  known : is_some (join_invite db i) ≡ true
  known = (&&-eq-true _ _ (find-eq-some (invite_is db uuid) db.invites.rows i found)).1

  pub accept_invite_lem :
      (joined_now responded_now : ℕ)
      → i.status ≡ "pending"
      → is_member_of db i.organization_id i.invited_user_id ≡ false
      → accept_invite uuid i.invited_user_id joined_now responded_now db
        ≡ (ok tt, (update_status i.id "accepted" responded_now (joined db i joined_now)).1)
  unfolding accept_invite
  accept_invite_lem joined_now responded_now pending outside =
      let (v, there, row) = get_by_uuid_lem uuid db i found in
      ground (
        arith,
        there,
        row,
        ==_refl i.invited_user_id,
        (==_iff i.status "pending").1 pending,
        add_member_lem i.organization_id i.invited_user_id i.role joined_now db
            (join_invite-known db i known).0 (join_invite-known db i known).1 outside,
      )

  -- An answer to an invite that is not pending is refused, and changes nothing.
  pub accept_invite_again :
      (joined_now responded_now : ℕ)
      → (i.status == "pending") ≡ false
      → accept_invite uuid i.invited_user_id joined_now responded_now db
        ≡ (err no_longer_pending, db)
  unfolding accept_invite
  accept_invite_again joined_now responded_now closed =
      let (v, there, row) = get_by_uuid_lem uuid db i found in
      ground (arith, there, row, ==_refl i.invited_user_id)

  pub decline_invite_again :
      (responded_now : ℕ)
      → (i.status == "pending") ≡ false
      → decline_invite uuid i.invited_user_id responded_now db ≡ (err no_longer_pending, db)
  unfolding decline_invite
  decline_invite_again responded_now closed =
      let (v, there, row) = get_by_uuid_lem uuid db i found in
      ground (arith, there, row, ==_refl i.invited_user_id)

joined_lem :
    (db : Db) (i : InviteRow) (now : ℕ)
    → joined db i now ≡ record db { organization_members = (joined db i now).organization_members }
joined_lem db i now = ground arith

-- The new membership leaves the invites and what they join with alone.
joined-find :
    (uuid : String) (db : Db) (i : InviteRow) (now : ℕ)
    → find (invite_is db uuid) db.invites.rows ≡ some i
    → find (invite_is (joined db i now) uuid) (joined db i now).invites.rows ≡ some i
joined-find uuid db i now found =
    subst (λ d. find (invite_is d uuid) d.invites.rows ≡ some i) (sym (joined_lem db i now)) found

-- A pending invite that the invited user, not yet a member, accepts makes the user a member with the
-- role of the invite; from then on accepting it again and declining it are refused, with no effect.
pub accept_invite_joins :
    (uuid : String) (i : InviteRow) (joined_now responded_now t1 t2 t3 : ℕ) (db : Db)
    → find (invite_is db uuid) db.invites.rows ≡ some i
    → i.status ≡ "pending"
    → is_member_of db i.organization_id i.invited_user_id ≡ false
    → let user = i.invited_user_id in
      let (r, db') = accept_invite uuid user joined_now responded_now db in
      (r ≡ ok tt)
      × (Option.map (λ m. m.role) (get_member i.organization_id user db') ≡ some i.role)
      × (accept_invite uuid user t1 t2 db' ≡ (err (value_error "Invite is no longer pending"), db'))
      × (decline_invite uuid user t3 db' ≡ (err (value_error "Invite is no longer pending"), db'))
unfolding get_member update_status
accept_invite_joins uuid i joined_now responded_now t1 t2 t3 db found pending outside =
    let db1 = joined db i joined_now in
    let db2 = (update_status i.id "accepted" responded_now db1).1 in
    let user = i.invited_user_id in
    let m = new_member db.organization_members.next i.organization_id user i.role joined_now in
    let ok_join = join_invite-known db i (known uuid db i found) in
    let row =
      answered_row uuid "accepted" responded_now db1 i (joined-find uuid db i joined_now found) in
    let role : Option.map (λ m. m.role) (get_member i.organization_id user db2) ≡ some i.role =
      ground (
        arith,
        outside,
        ok_join,
        find-append (member_is i.organization_id user) db.organization_members.rows (m ∷ []),
      ) in
    rw (accept_invite_lem uuid db i found joined_now responded_now pending outside) (
      refl,
      role,
      accept_invite_again uuid db2 (answered "accepted" responded_now i) row t1 t2 refl,
      decline_invite_again uuid db2 (answered "accepted" responded_now i) row t3 refl,
    )
