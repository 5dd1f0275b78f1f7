-- ===== src/Web/Security.antt =====
-- web/routes/security.py, the handlers of passwords and of the second factor by codes. `user_id` is the
-- signed-in user, whom the middleware asks for.
use landlord_cli.User
use landlord_cli.Prelude.{
  List, String, [], codes, false, if◌then◌else◌, nat_eq, not, some, string_eq, ℕ, ◌==◌, ◌||◌, ◌∷◌,
}
use landlord_cli.Web.{
  Response, W, Web, call, caught, choose, flash_redirect, log, name_or_empty, page, pure, query,
  set_session, try_call, web_entry, with_some, ◌>>=◌, ◌>>◌,
}
use landlord_cli.Json.{arr, bool, dict, elems, nat, str}
use landlord_cli.Audit.{Entry, Stamp}
use landlord_cli.User.{Bcrypt, authenticate}
use landlord_cli.Mfa.Service.{
  Pyotp, confirm_totp, count_unused_recovery_codes, disable_totp, has_confirmed_totp,
  regenerate_recovery_codes, setup_totp,
}
use landlord_cli.Mfa.Passkeys.{list_by_user}
use landlord_cli.Organization.{user_has_enforcing_org}

-- An entry about the user himself.
abbrev pub self_entry : String → ℕ → Web → Entry
self_entry event_type user_id w = record (web_entry event_type (some user_id) w.session.username) {
  entity_type = "user";
  entity_id = some user_id;
}

-- The page with an error; of the passkeys it is given, their names are kept here.
abbrev password_page : ℕ → String → W Response
password_page user_id message w =
    let has_totp = has_confirmed_totp user_id w.db in
    pure
      (page "security/index.html" (
        ("has_totp", bool has_totp)
        ∷ ("passkeys", arr (elems (λ p. str p.name) (list_by_user user_id w.db)))
        ∷ ("recovery_count", nat (if has_totp then count_unused_recovery_codes user_id w.db else 0))
        ∷ ("password_error", str message)
        ∷ []))
      w

module _ (b : Bcrypt) where
  unfoldable pub change_password : String → String → String → String → ℕ → Stamp → W Response
  change_password current_password new_password confirm_password salt user_id stamp =
      choose (current_password == "" || new_password == "")
        (password_page user_id "Preencha todos os campos.")
        (choose (not (new_password == confirm_password))
          (password_page user_id "As senhas não coincidem.")
          do
            username ← query (λ w. name_or_empty w.session.username)
            found ← query (λ w. authenticate b username current_password w.db)
            with_some found (password_page user_id "Senha atual incorreta.") λ user. do
              call (User.change_password b username new_password salt)
              entry ← query (self_entry "user.change_password" user_id)
              log (record entry { new_state = some (dict (("username", str username) ∷ [])) }) stamp
              flash_redirect "Senha alterada com sucesso!" "success" "/security")

  unfoldable pub totp_disable : String → ℕ → Stamp → W Response
  totp_disable password user_id stamp = do
    username ← query (λ w. name_or_empty w.session.username)
    found ← query (λ w. authenticate b username password w.db)
    with_some found (flash_redirect "Senha incorreta." "danger" "/security") λ user. do
      enforced ← query (λ w. user_has_enforcing_org user_id w.db)
      choose enforced
          (flash_redirect
            "Você não pode desativar MFA enquanto pertence a uma organização que exige MFA."
            "danger" "/security")
          do
            call (disable_totp user_id)
            entry ← query (self_entry "mfa.totp_disabled" user_id)
            log entry stamp
            flash_redirect "TOTP desativado com sucesso." "success" "/security"

  -- `codes_page` with the codes that are drawn
  abbrev codes_page : List String → W Response
  codes_page codes =
      pure (page "security/recovery_codes.html" (("recovery_codes", arr (elems str codes)) ∷ []))

  unfoldable pub regenerate_codes : (ℕ → String × String) → ℕ → ℕ → Stamp → W Response
  regenerate_codes draws now user_id stamp = do
    done ← try_call (regenerate_recovery_codes b user_id draws now)
    caught done (λ e. flash_redirect e "danger" "/security")
        λ codes. do
          entry ← query (self_entry "mfa.recovery_regenerated" user_id)
          log entry stamp
          codes_page codes

  unfoldable pub totp_confirm :
      Pyotp → String → (ℕ → String × String) → ℕ → ℕ → ℕ → ℕ → Stamp → W Response
  totp_confirm o code draws now confirmed_now created_now user_id stamp = do
    done ← try_call (confirm_totp o b user_id code draws now confirmed_now created_now)
    caught done (λ e. flash_redirect e "danger" "/security/totp/setup")
        λ codes. do
          set_session (λ s. record s { mfa_setup_required = false })
          entry ← query (self_entry "mfa.totp_enabled" user_id)
          log entry stamp
          codes_page codes

-- A page that writes: the secret that is drawn is stored.
unfoldable pub totp_setup_page : Pyotp → String → ℕ → ℕ → W Response
totp_setup_page o secret now user_id = do
  already ← query (λ w. has_confirmed_totp user_id w.db)
  choose already (flash_redirect "TOTP já está ativado." "info" "/security") do
    username ← query (λ w. name_or_empty w.session.username)
    made ← call (setup_totp o user_id username secret now)
    owes ← query (λ w. w.session.mfa_setup_required)
    pure (
        page "security/totp_setup.html" (
          ("qr_base64", str made.2)
          ∷ ("secret", str made.0.secret)
          ∷ ("mfa_setup_required", bool owes)
          ∷ []))
