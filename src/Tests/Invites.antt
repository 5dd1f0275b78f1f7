-- ===== src/Tests/Invites.antt =====
-- Invites.
use mathlib.Core.Option
use landlord_cli.Invite.Pending
use landlord_cli.Prelude.{[], arith, nat_eq, refl, some, string_eq, ◌==◌, ◌∷◌, ◌≡◌}
use landlord_cli.Sql.{find}
use landlord_cli.Errors.{err, ok, value_error}
use landlord_cli.Models.{InviteRow}
use landlord_cli.Db.{Db}
use landlord_cli.Tests.Sample.{invitation, sample}
use landlord_cli.Organization.{get_member}
use landlord_cli.Invite.{accept_invite, decline_invite}
use landlord_cli.Invite.Answer.{accept_invite_joins}
use landlord_cli.Invite.Pending.{
  IsSound, Reach-IsSound, accept, answered_final, decline, next, start,
}

invites-IsSound : Pending.IsSound sample.invites
invites-IsSound = record {
  one_pending = (λ p. refl, tt);
  ids_below = (omega arith, tt);
  ids_unique = (tt, tt);
}

accept_invite_joins_example :
    let (r, db') = accept_invite "I1" 2 8 9 sample in
    (r ≡ ok tt)
    × (Option.map (λ m. m.role) (get_member 1 2 db') ≡ some "viewer")
    × (accept_invite "I1" 2 10 11 db' ≡ (err (value_error "Invite is no longer pending"), db'))
    × (decline_invite "I1" 2 12 db' ≡ (err (value_error "Invite is no longer pending"), db'))
accept_invite_joins_example = accept_invite_joins "I1" invitation 8 9 10 11 12 sample refl refl refl

Reach-IsSound_example :
    Pending.IsSound (accept_invite "I1" 2 10 11 (decline_invite "I1" 2 9 sample).1).1.invites
Reach-IsSound_example =
    Reach-IsSound invites-IsSound (next (next start (decline "I1" 2 9)) (accept "I1" 2 10 11))

-- the sample after the invite has been declined
abbrev closed_row : InviteRow
closed_row = record invitation { status = "declined"; responded_at = some 9 }

abbrev closed_sample : Db
closed_sample = record sample { invites = record { rows = closed_row ∷ []; next = 2 } }

answered_final_example :
    find (λ j. j.id == 1) (accept_invite "I1" 2 10 11 closed_sample).1.invites.rows
    ≡ some closed_row
answered_final_example =
    answered_final closed_row
      (record {
        one_pending = (λ p. refl, tt);
        ids_below = (omega arith, tt);
        ids_unique = (tt, tt);
      })
      refl refl (next start (accept "I1" 2 10 11))
