-- ===== src/Web/Invites.antt =====
-- web/routes/invite.py, the answers to an invite. `user_id` is the signed-in user, whom the middleware
-- asks for.
use landlord_cli.Prelude.{String, [], some, ℕ, ◌∷◌}
use landlord_cli.Web.{
  Response, W, Web, caught, flash_redirect, log, query, try_call, web_entry, ◌>>=◌, ◌>>◌,
}
use landlord_cli.Json.{dict, str}
use landlord_cli.Audit.{Entry, Stamp}
use landlord_cli.Invite.{accept_invite, decline_invite}
use landlord_cli.Web.Auth.{require_mfa_setup}

abbrev invite_entry : String → String → String → ℕ → Web → Entry
invite_entry event_type status invite_uuid user_id w =
    record (web_entry event_type (some user_id) w.session.username) {
      entity_type = "invite";
      entity_uuid = invite_uuid;
      previous_state = some (dict (("status", str "pending") ∷ []));
      new_state = some (dict (("status", str status) ∷ []));
    }

-- A user who joins an organization that demands a second factor, and has none, must set one up.
unfoldable pub invite_accept : String → ℕ → ℕ → ℕ → Stamp → W Response
invite_accept invite_uuid user_id joined_now responded_now stamp = do
  done ← try_call (accept_invite invite_uuid user_id joined_now responded_now)
  caught done (λ e. flash_redirect e "danger" "/invites/")
      λ _. do
        entry ← query (invite_entry "invite.accept" "accepted" invite_uuid user_id)
        log entry stamp
        require_mfa_setup user_id
        flash_redirect "Convite aceito!" "success" "/invites/"

unfoldable pub invite_decline : String → ℕ → ℕ → Stamp → W Response
invite_decline invite_uuid user_id responded_now stamp = do
  done ← try_call (decline_invite invite_uuid user_id responded_now)
  caught done (λ e. flash_redirect e "danger" "/invites/")
      λ _. do
        entry ← query (invite_entry "invite.decline" "declined" invite_uuid user_id)
        log entry stamp
        flash_redirect "Convite recusado." "info" "/invites/"
