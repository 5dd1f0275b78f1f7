-- ===== src/Invite/Pending.antt =====
-- The table of invites under any sequence of sends, acceptances and refusals.
use mathlib.Core.Path.{subst}
use landlord_cli.Prelude.{
  &&-eq-true, All, All-append, All-mono, Bool-cases, List, Option-cases, String, [], arith, false,
  inl, inr, is_some, nat_eq, none, not, refl, some, string_eq, sym, true, ℕ, ◌&&◌, ◌++◌, ◌+◌, ◌<◌,
  ◌==◌, ◌||◌, ◌∙◌, ◌∷◌, ◌≡◌, ◌≢◌,
}
use landlord_cli.Sql.{
  All-update_where, IsUnique, IsUnique-append, IsUnique-update_where, Table, find, find-append,
  find-key, find-update_where_other, insert_row, update_where,
}
use landlord_cli.Errors.{Result-cases}
use landlord_cli.Models.{InviteRow}
use landlord_cli.Db.{Db, has_organization, has_user}
use landlord_cli.Invite.{
  accept_invite, answered, create, decline_invite, get_by_uuid, invite_is, is_pending, new_invite,
  pending_for, send_invite, update_status,
}
use landlord_cli.Invite.Answer.{get_by_uuid_lem}
use landlord_cli.User.{get_by_username}
use landlord_cli.Organization.{add_member, get_member}

-- What one call may do to the table: nothing, add a pending invite for a user who has none there, or
-- close one that is pending.
data Change (t : Table InviteRow) : Table InviteRow → Type 0 where
  same : Change t t
  sent :
      (org_id user_id by_id : ℕ) (role uuid : String) (now : ℕ)
      → find (pending_for org_id user_id) t.rows ≡ none
      → Change t (insert_row (new_invite org_id user_id by_id role uuid now) t)
  closed :
      (i : InviteRow) (status : String) (now : ℕ)
      → find (λ j. j.id == i.id) t.rows ≡ some i
      → is_pending i ≡ true
      → (status == "pending") ≡ false
      → Change t (record t { rows = update_where (λ j. j.id == i.id) (answered status now) t.rows })

-- For an organization and a user there is one pending invite at most.
abbrev OnePending : List InviteRow → Type 0
OnePending [] = Unit
OnePending (i ∷ is) =
    (is_pending i ≡ true → find (pending_for i.organization_id i.invited_user_id) is ≡ none)
    × OnePending is

pub record IsSound (t : Table InviteRow) : Type 0 where
  pub one_pending : OnePending t.rows
  pub ids_below : All (λ i. i.id < t.next) t.rows
  pub ids_unique : IsUnique (λ i. i.id) t.rows

OnePending-append :
    (i : InviteRow) (is : List InviteRow)
    → OnePending is
    → find (pending_for i.organization_id i.invited_user_id) is ≡ none
    → OnePending (is ++ i ∷ [])
OnePending-append i [] o f = (λ p. refl, tt)
OnePending-append i (j ∷ js) o f = (
  λ p.
      ground (
        arith,
        o.0 p,
        f,
        find-append (pending_for j.organization_id j.invited_user_id) js (i ∷ []),
      ),
  OnePending-append i js o.1 (ground (arith, f)),
)

module _ (id : ℕ) (status : String) (now : ℕ) (final : (status == "pending") ≡ false) where
  find_pending_closed :
      (org_id user_id : ℕ) (is : List InviteRow)
      → find (pending_for org_id user_id) is ≡ none
      → find (pending_for org_id user_id) (update_where (λ j. j.id == id) (answered status now) is)
        ≡ none
  find_pending_closed org_id user_id [] f = refl
  find_pending_closed org_id user_id (j ∷ js) f =
      ground (arith, f, final, find_pending_closed org_id user_id js)

  OnePending-closed :
      (is : List InviteRow)
      → OnePending is
      → OnePending (update_where (λ j. j.id == id) (answered status now) is)
  OnePending-closed [] o = tt
  OnePending-closed (j ∷ js) o = elim (Bool-cases (j.id == id)) [
    | inl t ↦ rw t (λ p. absurd (ground (arith, final)), OnePending-closed js o.1)
    | inr t ↦ rw t (
      λ p. find_pending_closed j.organization_id j.invited_user_id js (o.0 p),
      OnePending-closed js o.1,
    )
  ]

Change-IsSound : {t u : Table InviteRow} → Change t u → IsSound t → IsSound u
Change-IsSound same h = h
Change-IsSound {t} (sent org_id user_id by_id role uuid now f) h =
    let i = new_invite org_id user_id by_id role uuid now t.next in
    record {
      one_pending = OnePending-append i t.rows h.one_pending f;
      ids_below =
          All-append (λ j. j.id < t.next + 1) t.rows (i ∷ [])
            (All-mono (λ j. j.id < t.next) (λ j. j.id < t.next + 1) (λ j b. omega arith) t.rows
              h.ids_below)
            (omega arith, tt);
      ids_unique = IsUnique-append (λ j. j.id) t.rows i h.ids_unique h.ids_below;
    }
Change-IsSound {t} (closed i status now f p final) h = record {
  one_pending = OnePending-closed i.id status now final t.rows h.one_pending;
  ids_below =
      All-update_where (λ j. j.id < t.next) (λ j. j.id == i.id) (answered status now) (λ j b. b)
        t.rows h.ids_below;
  ids_unique =
      IsUnique-update_where (λ j. j.id) (λ j. j.id == i.id) (answered status now) (λ j. refl) t.rows
        h.ids_unique;
}

-- An invite that has been answered stays as it is.
Change-answered :
    {t u : Table InviteRow} (k : InviteRow)
    → Change t u
    → find (λ j. j.id == k.id) t.rows ≡ some k
    → is_pending k ≡ false
    → find (λ j. j.id == k.id) u.rows ≡ some k
Change-answered k same found done = found
Change-answered {t} k (sent org_id user_id by_id role uuid now f) found done =
    let i = new_invite org_id user_id by_id role uuid now t.next in
    ground (arith, found, find-append (λ j. j.id == k.id) t.rows (i ∷ []))
Change-answered {t} k (closed i status now f p final) found done =
    find-update_where_other (λ j. j.id == k.id) (λ j. j.id == i.id) (answered status now)
      (λ j e. ground (arith, differ)) (λ j e. ground (arith, differ)) t.rows
    ∙ found
  where
    differ : i.id ≢ k.id
    differ e =
        let g : find (λ j. j.id == k.id) t.rows ≡ some i =
          subst (λ n. find (λ j. j.id == n) t.rows ≡ some i) e f in
        ground (arith, g)

-- The calls of the service, by any users in any order, whatever they return.
pub data Step (db : Db) : Db → Type 0 where
  send :
      (org_id : ℕ) (username role : String) (by_id : ℕ) (uuid : String) (now : ℕ)
      → Step db (send_invite org_id username role by_id uuid now db).1
  accept :
      (uuid : String) (user_id joined_now responded_now : ℕ)
      → Step db (accept_invite uuid user_id joined_now responded_now db).1
  decline :
      (uuid : String) (user_id responded_now : ℕ)
      → Step db (decline_invite uuid user_id responded_now db).1

pub data Reach (db : Db) : Db → Type 0 where
  start : Reach db db
  next : {d e : Db} → Reach db d → Step d e → Reach db e

invites-add_member :
    (org_id user_id : ℕ) (role : String) (now : ℕ) (db : Db)
    → (add_member org_id user_id role now db).1.invites ≡ db.invites
unfolding add_member
invites-add_member org_id user_id role now db = ground arith

Change-eq : {t u v : Table InviteRow} → v ≡ u → Change t u → Change t v
Change-eq {t} e c = subst (λ x. Change t x) (sym e) c

send-Change :
    (org_id : ℕ) (username role : String) (by_id : ℕ) (uuid : String) (now : ℕ) (db : Db)
    → Change db.invites (send_invite org_id username role by_id uuid now db).1.invites
unfolding send_invite create
send-Change org_id username role by_id uuid now db =
    elim (Option-cases (get_by_username username db)) [
      | inl unknown ↦ Change-eq (ground (arith, unknown)) same
      | inr (user, there) ↦
          elim (Option-cases (find (pending_for org_id user.id) db.invites.rows)) [
            | inr (i, pending) ↦ Change-eq (ground (arith, there, pending)) same
            | inl free ↦
                elim (Bool-cases (
                  is_some (get_member org_id user.id db)
                  || not
                      (has_organization db org_id && (has_user db user.id && has_user db by_id)))) [
                        | inl refused ↦ Change-eq (ground (arith, there, free, refused)) same
                        | inr accepted ↦
                            Change-eq (ground (arith, there, free, accepted))
                              (sent org_id user.id by_id role uuid now free)
                      ]
          ]
    ]

module _ (status : String) (final : (status == "pending") ≡ false) where
  -- an answer to the invite `i`, written to a database with the invites of `db`
  answer-Change :
      (uuid : String) (i : InviteRow) (now : ℕ) (db db' : Db)
      → IsSound db.invites
      → find (invite_is db uuid) db.invites.rows ≡ some i
      → is_pending i ≡ true
      → db'.invites ≡ db.invites
      → Change db.invites (update_status i.id status now db').1.invites
  unfolding update_status
  answer-Change uuid i now db db' h found pending kept = Change-eq (rw kept) (
      closed i status now
        (find-key (λ j. j.id) (invite_is db uuid) db.invites.rows i h.ids_unique found) pending
        final)

accept-Change :
    (uuid : String) (user_id joined_now responded_now : ℕ) (db : Db)
    → IsSound db.invites
    → Change db.invites (accept_invite uuid user_id joined_now responded_now db).1.invites
unfolding accept_invite
accept-Change uuid user_id joined_now responded_now db h =
    elim (Option-cases (find (invite_is db uuid) db.invites.rows)) [
      | inl unknown ↦ Change-eq (unfold get_by_uuid in ground (arith, unknown)) same
      | inr (i, found) ↦
          let (v, there, row) = get_by_uuid_lem uuid db i found in
          let call = add_member i.organization_id i.invited_user_id i.role joined_now db in
          let kept = invites-add_member i.organization_id i.invited_user_id i.role joined_now db in
          elim (Bool-cases (i.invited_user_id == user_id && is_pending i)) [
            | inr refused ↦ Change-eq (ground (arith, there, row, refused)) same
            | inl open_to ↦ elim (Result-cases call.0) [
              | inl (m, added) ↦ Change-eq (ground (arith, there, row, open_to, added)) (
                  answer-Change "accepted" refl uuid i responded_now db call.1 h found
                    (&&-eq-true _ _ open_to).1 kept)
              | inr (e, failed) ↦ Change-eq (ground (arith, there, row, open_to, failed, kept)) same
            ]
          ]
    ]

decline-Change :
    (uuid : String) (user_id responded_now : ℕ) (db : Db)
    → IsSound db.invites
    → Change db.invites (decline_invite uuid user_id responded_now db).1.invites
unfolding decline_invite
decline-Change uuid user_id responded_now db h =
    elim (Option-cases (find (invite_is db uuid) db.invites.rows)) [
      | inl unknown ↦ Change-eq (unfold get_by_uuid in ground (arith, unknown)) same
      | inr (i, found) ↦
          let (v, there, row) = get_by_uuid_lem uuid db i found in
          elim (Bool-cases (i.invited_user_id == user_id && is_pending i)) [
            | inr refused ↦ Change-eq (ground (arith, there, row, refused)) same
            | inl open_to ↦ Change-eq (ground (arith, there, row, open_to)) (
                answer-Change "declined" refl uuid i responded_now db db h found
                  (&&-eq-true _ _ open_to).1 refl)
          ]
    ]

Step-Change : {d e : Db} → Step d e → IsSound d.invites → Change d.invites e.invites
Step-Change {d} (send org_id username role by_id uuid now) h =
    send-Change org_id username role by_id uuid now d
Step-Change {d} (accept uuid user_id joined_now responded_now) h =
    accept-Change uuid user_id joined_now responded_now d h
Step-Change {d} (decline uuid user_id responded_now) h =
    decline-Change uuid user_id responded_now d h

-- From a sound table, whatever is sent, accepted and declined, for an organization and a user there
-- is never more than one pending invite, and the ids stay distinct.
pub Reach-IsSound : {db e : Db} → IsSound db.invites → Reach db e → IsSound e.invites
Reach-IsSound h start = h
Reach-IsSound h (next r s) = let g = Reach-IsSound h r in Change-IsSound (Step-Change s g) g

-- An invite that has been answered keeps its answer through every later call.
pub answered_final :
    {db e : Db} (k : InviteRow)
    → IsSound db.invites
    → find (λ j. j.id == k.id) db.invites.rows ≡ some k
    → is_pending k ≡ false
    → Reach db e
    → find (λ j. j.id == k.id) e.invites.rows ≡ some k
answered_final k h found done start = found
answered_final k h found done (next r s) =
    Change-answered k (Step-Change s (Reach-IsSound h r)) (answered_final k h found done r) done
