-- ===== src/Web/Passkeys.antt =====
-- web/routes/security.py, the handlers of passkeys. `user_id` is the signed-in user, whom the middleware
-- asks for; a challenge and a key are the texts that stand for their bytes.
use landlord_cli.Prelude.{
  List, Option, String, [], false, if◌then◌else◌, ltb, map, nat_eq, none, some, string_eq, true, ℕ,
  ◌-◌, ◌==◌, ◌||◌, ◌∷◌,
}
use landlord_cli.Models.{UserPasskey}
use landlord_cli.Web.{
  Response, W, call, caught, flash_redirect, json, log, name_or_empty, pure, query, set_session,
  truthy, try_call, with_some, ◌>>=◌, ◌>>◌,
}
use landlord_cli.Json.{Json, bool, dict, nat, opt, str}
use landlord_cli.Mfa.Service.{delete_passkey, update_passkey_sign_count}
use landlord_cli.Mfa.Passkeys.{create, get_by_credential_id, list_by_user}
use landlord_cli.Audit.{Stamp}
use landlord_cli.Web.Auth.{challenge, mfa_entry, require_mfa_setup, sign_in}
use landlord_cli.Web.Security.{self_entry}
use landlord_cli.Db.{Db}

-- The JSON that a browser sends, with its keys `id` and `name`.
pub record Credential : Type 0 where
  pub body : Json
  pub id : String
  pub name : String

-- The library webauthn with the settings: the options for a registration and a login, from what is
-- drawn as the challenge, and the checks of the answers, which give nothing where they raise. A
-- registration gives the id of the credential, its public key and its count of signatures, a login
-- the new count.
pub record Webauthn : Type 0 where
  pub registration_options : ℕ → String → List String → String → Json
  pub authentication_options : List String → String → Json
  pub verify_registration : Json → String → Option (String × String × ℕ)
  pub verify_authentication : Json → String → String → ℕ → Option ℕ

abbrev pub challenge_timeout : ℕ
challenge_timeout = 300

-- the challenge, where there is one that has not expired
abbrev pub fresh : ℕ → Option (String × ℕ) → Option String
fresh now none = none
fresh now (some (challenge, ts)) =
    if challenge == "" || ltb challenge_timeout (now - ts) then none else some challenge

abbrev fail : String → W Response
fail message = pure (json 400 (dict (("error", str message) ∷ [])))

abbrev credential_ids : ℕ → Db → List String
credential_ids user_id db = map (λ p. p.credential_id) (list_by_user user_id db)

-- the passkey of this credential, where it is the user's
abbrev pub own_passkey : String → ℕ → Db → Option UserPasskey
own_passkey credential_id user_id db = elim (get_by_credential_id credential_id db) [
  | none ↦ none
  | some passkey ↦ if passkey.user_id == user_id then some passkey else none
]

module _ (a : Webauthn) where
  unfoldable pub passkey_register_begin : String → ℕ → ℕ → W Response
  passkey_register_begin challenge now user_id = do
    username ← query (λ w. name_or_empty w.session.username)
    existing ← query (λ w. credential_ids user_id w.db)
    set_session (λ s. record s { webauthn_register = some (challenge, now) })
    pure (json 200 (a.registration_options user_id username existing challenge))

  unfoldable pub passkey_register_complete : Credential → ℕ → String → ℕ → ℕ → Stamp → W Response
  passkey_register_complete credential at uuid now user_id stamp = do
    challenge ← query (λ w. fresh at w.session.webauthn_register)
    set_session (λ s. record s { webauthn_register = none })
    with_some challenge (fail "Desafio expirado. Tente novamente.") λ c.
        with_some (a.verify_registration credential.body c)
          (fail "Falha na verificação da passkey.")
          λ verification. do
            call (
                create
                  (record {
                    id = 0;
                    uuid = "";
                    user_id = user_id;
                    credential_id = verification.0;
                    public_key = verification.1;
                    sign_count = verification.2;
                    name = credential.name;
                    transports = none;
                    created_at = 0;
                    last_used_at = none;
                  })
                  uuid now)
            set_session (λ s. record s { mfa_setup_required = false })
            entry ← query (self_entry "mfa.passkey_registered" user_id)
            log (record entry { metadata = dict (("passkey_name", str credential.name) ∷ []) })
                stamp
            pure (json 200 (dict (("status", str "ok") ∷ ("name", str credential.name) ∷ [])))

  unfoldable pub passkey_auth_begin : String → ℕ → W Response
  passkey_auth_begin challenge now = do
    pending ← query (λ w. truthy w.session.mfa_pending_user_id)
    with_some pending (fail "Sem login pendente") λ user_id. do
      allowed ← query (λ w. credential_ids user_id w.db)
      set_session (λ s. record s { webauthn_auth = some (challenge, now) })
      pure (json 200 (a.authentication_options allowed challenge))

  -- `passkey_auth_complete` when the answer is wrong
  unfoldable pub passkey_refused : String → ℕ → Option String → Stamp → W Response
  passkey_refused ip user_id username stamp = do
    log
        (record (mfa_entry "mfa.verify_failed" user_id username) {
          metadata = dict (("ip", str ip) ∷ ("method", str "passkey") ∷ []);
        })
        stamp
    fail "Falha na verificação."

  -- `passkey_auth_complete` when it is right
  unfoldable pub passkey_passed :
      String → ℕ → Option String → UserPasskey → ℕ → ℕ → Stamp → Stamp → W Response
  passkey_passed ip user_id username passkey sign_count now stamp login_stamp = do
    call (update_passkey_sign_count passkey.id sign_count now)
    sign_in user_id username
    require_mfa_setup user_id
    log
        (record (mfa_entry "mfa.passkey_used" user_id username) {
          metadata = dict (("ip", str ip) ∷ ("passkey_uuid", str passkey.uuid) ∷ []);
        })
        stamp
    log
        (record (mfa_entry "user.login" user_id username) {
          new_state = some (dict (("user_id", nat user_id) ∷ ("username", opt str username) ∷ []));
          metadata = dict (("ip", str ip) ∷ ("mfa", bool true) ∷ ("method", str "passkey") ∷ []);
        })
        login_stamp
    pure (json 200 (dict (("status", str "ok") ∷ ("redirect", str "/billings/") ∷ [])))

  unfoldable pub passkey_auth_complete : String → Credential → ℕ → ℕ → Stamp → Stamp → W Response
  passkey_auth_complete ip credential at now stamp login_stamp = do
    pending ← query (λ w. truthy w.session.mfa_pending_user_id)
    username ← query (λ w. w.session.mfa_pending_username)
    with_some pending (fail "Sem login pendente") λ user_id. do
      challenge ← query (λ w. fresh at w.session.webauthn_auth)
      set_session (λ s. record s { webauthn_auth = none })
      with_some challenge (fail "Desafio expirado.") λ c. do
        found ← query (λ w. own_passkey credential.id user_id w.db)
        with_some found (fail "Passkey não encontrada.") λ passkey.
            with_some
              (a.verify_authentication credential.body c passkey.public_key passkey.sign_count)
              (passkey_refused ip user_id username stamp)
              λ sign_count.
                passkey_passed ip user_id username passkey sign_count now stamp login_stamp

unfoldable pub passkey_delete : String → ℕ → Stamp → W Response
passkey_delete passkey_uuid user_id stamp = do
  done ← try_call (delete_passkey passkey_uuid user_id)
  caught done (λ e. flash_redirect e "danger" "/security")
      λ _. do
        entry ← query (self_entry "mfa.passkey_deleted" user_id)
        log (record entry { metadata = dict (("passkey_uuid", str passkey_uuid) ∷ []) }) stamp
        flash_redirect "Passkey removida." "success" "/security"
