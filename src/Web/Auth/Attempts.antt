-- ===== src/Web/Auth/Attempts.antt =====
-- How many guesses the handlers of web/auth.py allow.
use landlord_cli.Prelude.{
  Bool-cases, Option, Option-cases, String, arith, false, inl, inr, subst, sym, true, ℕ, ◌≡◌,
}
use landlord_cli.Errors.{Result-cases}
use landlord_cli.Models.{User}
use landlord_cli.Web.{Web, truthy}
use landlord_cli.Web.Limiter.{
  clear_attempts, is_rate_limited, lockout_seconds, max_attempts, mfa_lockout_seconds,
  mfa_max_attempts,
}
use landlord_cli.Web.Limiter.Bounds.{
  IsWithin, clear_attempts-IsWithin, is_rate_limited-IsWithin, record_failed-IsWithin,
}
use landlord_cli.Web.Auth.{
  challenge, check_code, complete_login, login, login_refused, logout, mfa_passed, mfa_refused,
  mfa_verify, signup,
}
use landlord_cli.Web.Auth.Requests.{
  Request, act, change, elsewhere, log_in, log_out, note, passkey_begin, passkey_complete, sign_up,
  verify,
}
use landlord_cli.Audit.{Stamp}
use landlord_cli.User.{Bcrypt, authenticate}
use landlord_cli.Mfa.Service.{Pyotp, has_any_mfa, update_passkey_sign_count}
use landlord_cli.Mfa.Passkeys.{update_last_used, update_sign_count}
use landlord_cli.Web.Passkeys.{
  Credential, Webauthn, fresh, own_passkey, passkey_auth_begin, passkey_auth_complete,
  passkey_passed, passkey_refused,
}

-- Neither dictionary has more than its limit for an address.
abbrev pub Limited : Web → Type 0
Limited w = IsWithin max_attempts w.login_attempts × IsWithin mfa_max_attempts w.mfa_attempts

challenge-Limited :
    (ip : String) (user : User) (stamp : Stamp) (w : Web)
    → Limited w
    → Limited (challenge ip user stamp w).1
unfolding challenge
challenge-Limited ip user stamp w l = l

complete_login-Limited :
    (ip : String) (user : User) (stamp : Stamp) (w : Web)
    → Limited w
    → Limited (complete_login ip user stamp w).1
unfolding complete_login
complete_login-Limited ip user stamp w l = l

login-Limited :
    (b : Bcrypt) (ip username password : String) (checked_at failed_at : ℕ) (stamp : Stamp)
    (w : Web)
    → Limited w
    → Limited (login b ip username password checked_at failed_at stamp w).1
unfolding login login_refused
login-Limited b ip username password checked_at failed_at stamp w l =
    let a = w.login_attempts in
    let check = is_rate_limited max_attempts lockout_seconds ip checked_at a in
    let kept = is_rate_limited-IsWithin max_attempts lockout_seconds ip checked_at a l.0 in
    let w1 = record w { login_attempts = check.1 } in
    elim (Bool-cases check.0) [
      | inl over ↦ rw over (kept, l.1)
      | inr under ↦ elim (Option-cases (authenticate b username password w.db)) [
        | inl unknown ↦
            rw (under, unknown)
              (
                record_failed-IsWithin max_attempts lockout_seconds ip checked_at failed_at a under
                    l.0,
                l.1,
              )
        | inr (user, known) ↦
            let w2 = record w1 { login_attempts = clear_attempts ip check.1 } in
            let cleared : Limited w2 =
              (clear_attempts-IsWithin max_attempts lockout_seconds ip check.1 kept, l.1) in
            elim (Bool-cases (has_any_mfa user.id w.db)) [
              | inl mfa ↦ rw (under, known, mfa) (challenge-Limited ip user stamp w2 cleared)
              | inr without ↦
                  rw (under, known, without) (complete_login-Limited ip user stamp w2 cleared)
            ]
      ]
    ]

signup-Limited :
    (b : Bcrypt) (username email password confirm_password salt : String) (now : ℕ) (stamp : Stamp)
    (w : Web)
    → Limited w
    → Limited (signup b username email password confirm_password salt now stamp w).1
unfolding signup
signup-Limited b username email password confirm_password salt now stamp w l =
    ground (arith, l.0, l.1)

mfa_passed-Limited :
    (ip : String) (user_id : ℕ) (username : Option String) (method : String) (stamp s2 : Stamp)
    (w : Web)
    → Limited w
    → Limited (mfa_passed ip user_id username method stamp s2 w).1
unfolding mfa_passed
mfa_passed-Limited ip user_id username method stamp s2 w l =
    (l.0, clear_attempts-IsWithin mfa_max_attempts mfa_lockout_seconds ip w.mfa_attempts l.1)

mfa_verify-Limited :
    (b : Bcrypt) (o : Pyotp) (ip code method : String) (checked_at failed_at now : ℕ)
    (stamp s2 : Stamp) (w : Web)
    → Limited w
    → Limited (mfa_verify b o ip code method checked_at failed_at now stamp s2 w).1
unfolding mfa_verify mfa_refused
mfa_verify-Limited b o ip code method checked_at failed_at now stamp s2 w l =
    let a = w.mfa_attempts in
    let after = (mfa_verify b o ip code method checked_at failed_at now stamp s2 w).1 in
    let check = is_rate_limited mfa_max_attempts mfa_lockout_seconds ip checked_at a in
    let kept = is_rate_limited-IsWithin mfa_max_attempts mfa_lockout_seconds ip checked_at a l.1 in
    let username = w.session.mfa_pending_username in
    elim (Option-cases (truthy w.session.mfa_pending_user_id)) [
      | inl absent ↦ rw absent l
      | inr (u, there) ↦ elim (Bool-cases check.0) [
        | inl over ↦ rw (there, over) (l.0, kept)
        | inr under ↦
            let (result, db) = check_code b o u code method now w.db in
            let w1 = record w { mfa_attempts = check.1; db = db } in
            elim (Result-cases result) [
              | inl (true, right) ↦
                  let step : after ≡ (mfa_passed ip u username method stamp s2 w1).1 =
                    ground (arith, there, under, right) in
                  subst Limited (sym step)
                    (mfa_passed-Limited ip u username method stamp s2 w1 (l.0, kept))
              | inl (false, wrong) ↦
                  let step : after ≡ (mfa_refused ip u username method failed_at stamp w1).1 =
                    ground (arith, there, under, wrong) in
                  subst Limited (sym step) (
                    l.0,
                    record_failed-IsWithin mfa_max_attempts mfa_lockout_seconds ip checked_at
                        failed_at a under l.1,
                  )
              | inr (e, failed) ↦
                  let step : after ≡ w1 = ground (arith, there, under, failed) in
                  subst Limited (sym step) (l.0, kept)
            ]
      ]
    ]

passkey_begin-Limited :
    (a : Webauthn) (challenge : String) (now : ℕ) (w : Web)
    → Limited w
    → Limited (passkey_auth_begin a challenge now w).1
unfolding passkey_auth_begin
passkey_begin-Limited a challenge now w l =
    elim (Option-cases (truthy w.session.mfa_pending_user_id)) [
      | inl absent ↦ rw absent l
      | inr (u, there) ↦ rw there l
    ]

passkey_complete-Limited :
    (a : Webauthn) (ip : String) (credential : Credential) (at now : ℕ) (stamp s2 : Stamp) (w : Web)
    → Limited w
    → Limited (passkey_auth_complete a ip credential at now stamp s2 w).1
unfolding passkey_auth_complete passkey_refused passkey_passed update_passkey_sign_count
    update_sign_count update_last_used
passkey_complete-Limited a ip credential at now stamp s2 w l =
    elim (Option-cases (truthy w.session.mfa_pending_user_id)) [
      | inl absent ↦ rw absent l
      | inr (u, there) ↦ elim (Option-cases (fresh at w.session.webauthn_auth)) [
        | inl expired ↦ rw (there, expired) l
        | inr (c, given) ↦ elim (Option-cases (own_passkey credential.id u w.db)) [
          | inl unknown ↦ rw (there, given, unknown) l
          | inr (pk, own) ↦
              elim (Option-cases
                (a.verify_authentication credential.body c pk.public_key pk.sign_count)) [
                  | inl wrong ↦ rw (there, given, own, wrong) l
                  | inr (n, right) ↦ rw (there, given, own, right) l
                ]
        ]
      ]
    ]

-- If neither limiter keeps more than its five attempts for any address, neither does after any
-- request, of any client.
pub act-Limited :
    (b : Bcrypt) (o : Pyotp) (a : Webauthn) (r : Request) (w : Web)
    → Limited w
    → Limited (act b o a r w)
unfolding logout
act-Limited b o a (log_in ip username password checked_at failed_at stamp) w l =
    login-Limited b ip username password checked_at failed_at stamp w l
act-Limited b o a (verify ip code method checked_at failed_at now stamp s2) w l =
    mfa_verify-Limited b o ip code method checked_at failed_at now stamp s2 w l
act-Limited b o a (sign_up username email password confirm_password salt now stamp) w l =
    signup-Limited b username email password confirm_password salt now stamp w l
act-Limited b o a (log_out stamp) w l = l
act-Limited b o a (passkey_begin challenge now) w l = passkey_begin-Limited a challenge now w l
act-Limited b o a (passkey_complete ip credential at now stamp s2) w l =
    passkey_complete-Limited a ip credential at now stamp s2 w l
act-Limited b o a (elsewhere session r) w l = act-Limited b o a r (record w { session = session }) l
act-Limited b o a (change f) w l = l
act-Limited b o a (note owes token challenge messages) w l = l
