-- ===== src/Invite.antt =====
-- rentivo/repositories/sqlalchemy.py, SQLAlchemyInviteRepository, and
-- rentivo/services/invite_service.py.
pub mod Answer
pub mod Pending
use landlord_cli.Organization.{add_member, get_member}
use landlord_cli.User
use landlord_cli.Prelude.{
  Bool, List, Option, String, [], if◌then◌else◌, is_some, length, nat_eq, none, not, some,
  string_eq, ℕ, ◌&&◌, ◌==◌, ◌∷◌,
}
use landlord_cli.Sql.{desc, find, insert_row, order_by, select, update_where}
use landlord_cli.Errors.{err, format, integrity_error, ok, runtime_error, value_error}
use landlord_cli.Models.{Invite, InviteRow, User}
use landlord_cli.Db.{
  Db, M, execute, gets, has_organization, has_user, or_raise, raise_if, ◌>>=◌, ◌>>◌,
}

abbrev pub and_then : {A B : Type 0} → Option A → (A → Option B) → Option B
and_then none f = none
and_then (some a) f = f a

-- The three JOINs: the organization (deleted or not), the invited user and the inviting user.
abbrev pub join_invite : Db → InviteRow → Option Invite
join_invite db i = and_then (find (λ o. o.id == i.organization_id) db.organizations.rows) λ o.
    and_then (find (λ u. u.id == i.invited_user_id) db.users.rows) λ u1.
      and_then (find (λ u. u.id == i.invited_by_user_id) db.users.rows) λ u2. some record {
        row = i;
        organization_name = o.name;
        invited_username = u1.username;
        invited_by_username = u2.username;
        enforce_mfa = o.enforce_mfa;
      }

abbrev join_all : Db → List InviteRow → List Invite
join_all db [] = []
join_all db (i ∷ is) =
    let rest = join_all db is in elim (join_invite db i) [ none ↦ rest | some v ↦ v ∷ rest ]

abbrev pub invite_is : Db → String → InviteRow → Bool
invite_is db uuid i = i.uuid == uuid && is_some (join_invite db i)

unfoldable pub get_by_uuid : String → Db → Option Invite
get_by_uuid uuid db = and_then (find (invite_is db uuid) db.invites.rows) (join_invite db)

abbrev pub is_pending : InviteRow → Bool
is_pending i = i.status == "pending"

unfoldable pub list_pending_for_user : ℕ → Db → List Invite
list_pending_for_user user_id db = join_all db (
    order_by (desc (λ i. i.created_at))
      (select (λ i. i.invited_user_id == user_id && is_pending i) db.invites.rows))

unfoldable pub list_by_organization : ℕ → Db → List Invite
list_by_organization org_id db = join_all db (
    order_by (desc (λ i. i.created_at)) (select (λ i. i.organization_id == org_id) db.invites.rows))

-- SELECT COUNT(*) … WHERE invited_user_id = :uid AND status = 'pending'
unfoldable pub count_pending_for_user : ℕ → Db → ℕ
count_pending_for_user user_id db =
    length (select (λ i. i.invited_user_id == user_id && is_pending i) db.invites.rows)

abbrev pub pending_for : ℕ → ℕ → InviteRow → Bool
pending_for org_id user_id i =
    (i.organization_id == org_id && i.invited_user_id == user_id) && is_pending i

-- SELECT COUNT(*) … > 0
unfoldable pub has_pending_invite : ℕ → ℕ → Db → Bool
has_pending_invite org_id user_id db = is_some (find (pending_for org_id user_id) db.invites.rows)

abbrev pub new_invite : ℕ → ℕ → ℕ → String → String → ℕ → ℕ → InviteRow
new_invite org_id user_id by_id role uuid now id = record {
  id = id;
  uuid = uuid;
  organization_id = org_id;
  invited_user_id = user_id;
  invited_by_user_id = by_id;
  role = role;
  status = "pending";
  created_at = now;
  responded_at = none;
}

-- the INSERT, with its FOREIGN KEYs
abbrev pub insert_invite : ℕ → ℕ → ℕ → String → String → ℕ → M (Unit {0})
insert_invite org_id user_id by_id role uuid now db =
    if has_organization db org_id && (has_user db user_id && has_user db by_id)
    then (
      ok tt,
      record db { invites = insert_row (new_invite org_id user_id by_id role uuid now) db.invites },
    )
    else (err integrity_error, db)

-- `SQLAlchemyInviteRepository.create`, for an invite that is pending
unfoldable pub create : ℕ → ℕ → ℕ → String → String → ℕ → M Invite
unfolding get_by_uuid
create org_id user_id by_id role uuid now = do
  insert_invite org_id user_id by_id role uuid now
  created ← gets (get_by_uuid uuid)
  or_raise created (runtime_error "Failed to retrieve invite after create")

abbrev pub answered : String → ℕ → InviteRow → InviteRow
answered status now i = record i { status = status; responded_at = some now }

unfoldable pub update_status : ℕ → String → ℕ → M (Unit {0})
update_status invite_id status now = execute λ db. record db {
  invites = record db.invites {
    rows = update_where (λ i. i.id == invite_id) (answered status now) db.invites.rows;
  };
}

-- `InviteService.send_invite`
unfoldable pub send_invite : ℕ → String → String → ℕ → String → ℕ → M Invite
unfolding has_pending_invite
send_invite org_id username role invited_by_user_id uuid now = do
  found ← gets (User.get_by_username username)
  user ← or_raise found (value_error (format ("User '" ∷ username ∷ "' not found" ∷ [])))
  existing_member ← gets (get_member org_id user.id)
  raise_if (is_some existing_member)
      (value_error (format ("User '" ∷ username ∷ "' is already a member" ∷ [])))
  pending ← gets (has_pending_invite org_id user.id)
  raise_if pending
      (value_error (format ("User '" ∷ username ∷ "' already has a pending invite" ∷ [])))
  create org_id user.id invited_by_user_id role uuid now

-- `InviteService.accept_invite`
unfoldable pub accept_invite : String → ℕ → ℕ → ℕ → M (Unit {0})
unfolding get_by_uuid update_status
accept_invite invite_uuid user_id joined_now responded_now = do
  found ← gets (get_by_uuid invite_uuid)
  invite ← or_raise found (value_error "Invite not found")
  raise_if (not (invite.row.invited_user_id == user_id))
      (value_error "Not authorized to accept this invite")
  raise_if (not (invite.row.status == "pending")) (value_error "Invite is no longer pending")
  add_member invite.row.organization_id invite.row.invited_user_id invite.row.role joined_now
  update_status invite.row.id "accepted" responded_now

-- `InviteService.decline_invite`
unfoldable pub decline_invite : String → ℕ → ℕ → M (Unit {0})
unfolding get_by_uuid update_status
decline_invite invite_uuid user_id responded_now = do
  found ← gets (get_by_uuid invite_uuid)
  invite ← or_raise found (value_error "Invite not found")
  raise_if (not (invite.row.invited_user_id == user_id))
      (value_error "Not authorized to decline this invite")
  raise_if (not (invite.row.status == "pending")) (value_error "Invite is no longer pending")
  update_status invite.row.id "declined" responded_now
