-- ===== src/Web/Auth.antt =====
-- web/auth.py: signing up, logging in, the second factor and logging out. The times are of the clock of
-- the limiter, `now` of the clock of the database. Texts of forms come stripped where the code strips
-- them.
pub mod Requests
pub mod Handled
pub mod PasskeyHandled
pub mod Sessions
pub mod Attempts
use landlord_cli.Prelude.{
  Bool, Option, String, [], false, if◌then◌else◌, inl, inr, is_cons, is_some, nat_eq, none, not,
  some, string_eq, true, ℕ, ◌==◌, ◌||◌, ◌∷◌,
}
use landlord_cli.Errors.{ok}
use landlord_cli.Models.{User}
use landlord_cli.Web.{
  Response, W, call, choose, error_page, log, no_session, page, pure, query, redirect, set_session,
  truthy, try_call, web_entry, with_some, ◌>>=◌, ◌>>◌,
}
use landlord_cli.Web.Limiter.{
  clear_attempts, is_rate_limited, lockout_seconds, max_attempts, mfa_lockout_seconds,
  mfa_max_attempts, record_failed,
}
use landlord_cli.Json.{bool, dict, nat, opt, str}
use landlord_cli.Audit.{Entry, Stamp}
use landlord_cli.Audit.Serializers.{serialize_user}
use landlord_cli.User.{Bcrypt, authenticate, register_user}
use landlord_cli.Organization.{list_by_user}
use landlord_cli.Mfa.Service.{
  Pyotp, has_any_mfa, user_requires_mfa_setup, verify_recovery_code, verify_totp,
}
use landlord_cli.Db.{M}

abbrev user_entry : String → User → Entry
user_entry event_type user = record (web_entry event_type (some user.id) (some user.username)) {
  entity_type = "user";
  entity_id = some user.id;
}

-- the two writes to a cleared session that complete a login
abbrev pub sign_in : ℕ → Option String → W (Unit {0})
sign_in user_id username =
    set_session λ s. record no_session { user_id = some user_id; username = username }

-- `if mfa_service.user_requires_mfa_setup(user_id): session["mfa_setup_required"] = True`
abbrev pub require_mfa_setup : ℕ → W (Unit {0})
require_mfa_setup user_id w =
    set_session
      (λ s. record s {
        mfa_setup_required =
            if user_requires_mfa_setup user_id w.db then true else s.mfa_setup_required;
      })
      w

abbrev pub login_limited : String → ℕ → W Bool
login_limited ip at w =
    let (limited, attempts) = is_rate_limited max_attempts lockout_seconds ip at w.login_attempts in
    (ok limited, record w { login_attempts = attempts })

abbrev pub login_failed : String → ℕ → W (Unit {0})
login_failed ip at w =
    (ok tt, record w { login_attempts = record_failed lockout_seconds ip at w.login_attempts })

abbrev pub login_cleared : String → W (Unit {0})
login_cleared ip w = (ok tt, record w { login_attempts = clear_attempts ip w.login_attempts })

abbrev pub mfa_limited : String → ℕ → W Bool
mfa_limited ip at w =
    let (limited, attempts) =
      is_rate_limited mfa_max_attempts mfa_lockout_seconds ip at w.mfa_attempts in
    (ok limited, record w { mfa_attempts = attempts })

abbrev pub mfa_failed : String → ℕ → W (Unit {0})
mfa_failed ip at w =
    (ok tt, record w { mfa_attempts = record_failed mfa_lockout_seconds ip at w.mfa_attempts })

abbrev pub mfa_cleared : String → W (Unit {0})
mfa_cleared ip w = (ok tt, record w { mfa_attempts = clear_attempts ip w.mfa_attempts })

-- `login` when the name or the password is wrong
unfoldable pub login_refused : String → String → ℕ → Stamp → W Response
login_refused ip username failed_at stamp = do
  login_failed ip failed_at
  log
      (record (web_entry "user.login_failed" none none) {
        entity_type = "user";
        new_state = some (dict (("username", str username) ∷ []));
        metadata = dict (("ip", str ip) ∷ []);
      })
      stamp
  error_page "login.html" "Usuário ou senha inválidos."

-- `login` of a user who has a second factor
unfoldable pub challenge : String → User → Stamp → W Response
challenge ip user stamp = do
  set_session (λ s. record no_session {
    mfa_pending_user_id = some user.id;
    mfa_pending_username = some user.username;
  })
  log (record (user_entry "mfa.challenge_issued" user) { metadata = dict (("ip", str ip) ∷ []) })
      stamp
  pure (redirect "/mfa-verify")

-- `login` of a user without one
unfoldable pub complete_login : String → User → Stamp → W Response
complete_login ip user stamp = do
  sign_in user.id (some user.username)
  require_mfa_setup user.id
  log
      (record (user_entry "user.login" user) {
        new_state = some (dict (("user_id", nat user.id) ∷ ("username", str user.username) ∷ []));
        metadata = dict (("ip", str ip) ∷ []);
      })
      stamp
  pure (redirect "/billings/")

module _ (b : Bcrypt) where
  unfoldable pub login : String → String → String → ℕ → ℕ → Stamp → W Response
  login ip username password checked_at failed_at stamp = do
    limited ← login_limited ip checked_at
    choose limited
        (error_page "login.html" "Muitas tentativas. Aguarde um momento antes de tentar novamente.")
        do
          found ← query (λ w. authenticate b username password w.db)
          with_some found (login_refused ip username failed_at stamp) λ user. do
            login_cleared ip
            has_mfa ← query (λ w. has_any_mfa user.id w.db)
            choose has_mfa (challenge ip user stamp) (complete_login ip user stamp)

  -- A form with a field left empty comes before any look at the database.
  unfoldable pub signup : String → String → String → String → String → ℕ → Stamp → W Response
  signup username email password confirm_password salt now stamp = do
    already ← query (λ w. truthy w.session.user_id)
    choose (is_some already) (pure (redirect "/billings/")) (
        choose (username == "" || email == "" || password == "")
          (error_page "signup.html" "Preencha todos os campos.")
          (choose (not (password == confirm_password))
            (error_page "signup.html" "As senhas não coincidem.")
            do
              made ← try_call (register_user b username email password salt now)
              elim made [
                | inl _ ↦ error_page "signup.html" "Nome de usuário já existe."
                | inr user ↦ do
                  sign_in user.id (some user.username)
                  log
                      (record (user_entry "user.signup" user) {
                        new_state = some (serialize_user user);
                      })
                      stamp
                  pure (redirect "/billings/")
              ]))

-- the page of `mfa_verify` with an error
abbrev mfa_page : String → Bool → W Response
mfa_page message has_passkeys =
    pure
      (page "mfa_verify.html" (("error", str message) ∷ ("has_passkeys", bool has_passkeys) ∷ []))

abbrev pub mfa_entry : String → ℕ → Option String → Entry
mfa_entry event_type user_id username = record (web_entry event_type (some user_id) username) {
  entity_type = "user";
  entity_id = some user_id;
}

-- `mfa_verify` when the code is wrong
unfoldable pub mfa_refused : String → ℕ → Option String → String → ℕ → Stamp → W Response
mfa_refused ip user_id username method failed_at stamp = do
  mfa_failed ip failed_at
  log
      (record (mfa_entry "mfa.verify_failed" user_id username) {
        metadata = dict (("ip", str ip) ∷ ("method", str method) ∷ []);
      })
      stamp
  has_passkeys ← query (λ w. is_cons (list_by_user user_id w.db))
  mfa_page "Código inválido. Tente novamente." has_passkeys

-- `mfa_verify` when it is right; the two entries are stamped in turn
unfoldable pub mfa_passed : String → ℕ → Option String → String → Stamp → Stamp → W Response
mfa_passed ip user_id username method stamp login_stamp = do
  mfa_cleared ip
  sign_in user_id username
  require_mfa_setup user_id
  log
      (record (mfa_entry "mfa.verify_success" user_id username) {
        metadata = dict (("ip", str ip) ∷ ("method", str method) ∷ []);
      })
      stamp
  log
      (record (mfa_entry "user.login" user_id username) {
        new_state = some (dict (("user_id", nat user_id) ∷ ("username", opt str username) ∷ []));
        metadata = dict (("ip", str ip) ∷ ("mfa", bool true) ∷ []);
      })
      login_stamp
  pure (redirect "/billings/")

module _ (b : Bcrypt) (o : Pyotp) where
  -- `method == "recovery"` and anything else
  unfoldable pub check_code : ℕ → String → String → ℕ → M Bool
  check_code user_id code method now db =
      if method == "recovery"
      then verify_recovery_code b user_id code now db
      else (ok (verify_totp o user_id code now db), db)

  unfoldable pub mfa_verify : String → String → String → ℕ → ℕ → ℕ → Stamp → Stamp → W Response
  mfa_verify ip code method checked_at failed_at now stamp login_stamp = do
    pending ← query (λ w. truthy w.session.mfa_pending_user_id)
    username ← query (λ w. w.session.mfa_pending_username)
    with_some pending (pure (redirect "/login")) λ user_id. do
      limited ← mfa_limited ip checked_at
      choose limited (mfa_page "Muitas tentativas. Aguarde alguns minutos." false) do
        verified ← call (check_code user_id code method now)
        choose verified (mfa_passed ip user_id username method stamp login_stamp)
            (mfa_refused ip user_id username method failed_at stamp)

unfoldable pub logout : Stamp → W Response
logout stamp = do
  user_id ← query (λ w. w.session.user_id)
  username ← query (λ w. w.session.username)
  log
      (record (web_entry "user.logout" user_id username) {
        entity_type = "user";
        entity_id = user_id;
        new_state = some (dict (("username", opt str username) ∷ []));
      })
      stamp
  set_session (λ s. no_session)
  pure (redirect "/login")
