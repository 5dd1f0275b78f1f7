-- ===== src/Web/Auth/Handled.antt =====
-- What the handlers of web/auth.py leave the session as.
use landlord_cli.Prelude.{
  Bool-cases, Option, Option-cases, String, arith, false, inl, inr, is_some, nat_eq, none, not,
  refl, some, string_eq, true, ℕ, ◌==◌, ◌||◌, ◌≡◌, ◌⊎◌,
}
use landlord_cli.Errors.{
  Result-cases, integrity_error, ok, overflow_error, runtime_error, type_error, value_error,
}
use landlord_cli.Models.{User}
use landlord_cli.Web.{Web, no_session, truthy}
use landlord_cli.Web.Limiter.{
  clear_attempts, is_rate_limited, lockout_seconds, max_attempts, mfa_lockout_seconds,
  mfa_max_attempts,
}
use landlord_cli.Web.Auth.{
  challenge, check_code, complete_login, login, login_refused, logout, mfa_passed, mfa_refused,
  mfa_verify, signup,
}
use landlord_cli.Audit.{Stamp}
use landlord_cli.User.{Bcrypt, authenticate, register_user}
use landlord_cli.Mfa.Service.{Pyotp, has_any_mfa, user_requires_mfa_setup}

pub challenge_lem :
    (ip : String) (user : User) (stamp : Stamp) (w : Web)
    → (challenge ip user stamp w).1.session ≡ record no_session {
      mfa_pending_user_id = some user.id;
      mfa_pending_username = some user.username;
    }
unfolding challenge
challenge_lem ip user stamp w = refl

pub complete_login_lem :
    (ip : String) (user : User) (stamp : Stamp) (w : Web)
    → (complete_login ip user stamp w).1.session ≡ record no_session {
      user_id = some user.id;
      username = some user.username;
      mfa_setup_required = user_requires_mfa_setup user.id w.db;
    }
unfolding complete_login
complete_login_lem ip user stamp w = elim (Bool-cases (user_requires_mfa_setup user.id w.db)) [
  | inl is ↦ rw is refl
  | inr is_not ↦ rw is_not refl
]

pub login_refused_lem :
    (ip username : String) (failed_at : ℕ) (stamp : Stamp) (w : Web)
    → (login_refused ip username failed_at stamp w).1.session ≡ w.session
unfolding login_refused
login_refused_lem ip username failed_at stamp w = refl

pub mfa_refused_lem :
    (ip : String) (user_id : ℕ) (username : Option String) (method : String) (failed_at : ℕ)
    (stamp : Stamp) (w : Web)
    → (mfa_refused ip user_id username method failed_at stamp w).1.session ≡ w.session
unfolding mfa_refused
mfa_refused_lem ip user_id username method failed_at stamp w = refl

pub mfa_passed_lem :
    (ip : String) (user_id : ℕ) (username : Option String) (method : String) (stamp s2 : Stamp)
    (w : Web)
    → (mfa_passed ip user_id username method stamp s2 w).1.session ≡ record no_session {
      user_id = some user_id;
      username = username;
      mfa_setup_required = user_requires_mfa_setup user_id w.db;
    }
unfolding mfa_passed
mfa_passed_lem ip user_id username method stamp s2 w =
    elim (Bool-cases (user_requires_mfa_setup user_id w.db)) [
      | inl is ↦ rw is refl
      | inr is_not ↦ rw is_not refl
    ]

module _ (b : Bcrypt) where
  pub login_cases :
      (ip username password : String) (checked_at failed_at : ℕ) (stamp : Stamp) (w : Web)
      → let s = (login b ip username password checked_at failed_at stamp w).1.session in
        (s ≡ w.session)
        ⊎ ((user : User) × (authenticate b username password w.db ≡ some user)
            × ((has_any_mfa user.id w.db ≡ true)
                  × (s ≡ record no_session {
                    mfa_pending_user_id = some user.id;
                    mfa_pending_username = some user.username;
                  })
                ⊎ (has_any_mfa user.id w.db ≡ false)
                  × (s ≡ record no_session {
                    user_id = some user.id;
                    username = some user.username;
                    mfa_setup_required = user_requires_mfa_setup user.id w.db;
                  })))
  unfolding login
  login_cases ip username password checked_at failed_at stamp w =
      let (limited, attempts) =
        is_rate_limited max_attempts lockout_seconds ip checked_at w.login_attempts in
      let w1 = record w { login_attempts = attempts } in
      elim (Bool-cases limited) [
        | inl over ↦ inl (rw over refl)
        | inr under ↦ elim (Option-cases (authenticate b username password w.db)) [
          | inl unknown ↦
              inl (rw (under, unknown) (login_refused_lem ip username failed_at stamp w1))
          | inr (user, known) ↦
              let w2 = record w1 { login_attempts = clear_attempts ip attempts } in
              inr (
                user,
                known,
                elim (Bool-cases (has_any_mfa user.id w.db)) [
                  | inl mfa ↦ inl (mfa, rw (under, known, mfa) (challenge_lem ip user stamp w2))
                  | inr without ↦
                      inr
                        (without, rw (under, known, without) (complete_login_lem ip user stamp w2))
                ],
              )
        ]
      ]

  pub signup_cases :
      (username email password confirm_password salt : String) (now : ℕ) (stamp : Stamp) (w : Web)
      → let s = (signup b username email password confirm_password salt now stamp w).1.session in
        (s ≡ w.session)
        ⊎ ((user : User) × ((register_user b username email password salt now w.db).0 ≡ ok user)
            × (s.user_id ≡ some user.id)
            × (s.mfa_pending_user_id ≡ none))
  unfolding signup register_user
  signup_cases username email password confirm_password salt now stamp w =
      elim (Bool-cases (is_some (truthy w.session.user_id))) [
        | inl already ↦ inl (rw already refl)
        | inr out ↦ elim (Bool-cases (username == "" || email == "" || password == "")) [
          | inl empty ↦ inl (rw (out, empty) refl)
          | inr full ↦ elim (Bool-cases (not (password == confirm_password))) [
            | inl differ ↦ inl (rw (out, full, differ) refl)
            | inr match ↦
                elim (Result-cases (register_user b username email password salt now w.db).0) [
                  | inl (user, made) ↦ inr (
                    user,
                    made,
                    rw (out, full, match, made) refl,
                    rw (out, full, match, made) refl,
                  )
                  | inr (value_error e, failed) ↦ inl (rw (out, full, match, failed) refl)
                  | inr (runtime_error e, failed) ↦ inl (rw (out, full, match, failed) refl)
                  | inr (integrity_error, failed) ↦ inl (rw (out, full, match, failed) refl)
                  | inr (type_error e, failed) ↦ inl (rw (out, full, match, failed) refl)
                  | inr (overflow_error e, failed) ↦ inl (rw (out, full, match, failed) refl)
                ]
          ]
        ]
      ]

module _ (b : Bcrypt) (o : Pyotp) where
  pub mfa_verify_cases :
      (ip code method : String) (checked_at failed_at now : ℕ) (stamp s2 : Stamp) (w : Web)
      → let s = (mfa_verify b o ip code method checked_at failed_at now stamp s2 w).1.session in
        (s ≡ w.session)
        ⊎ ((user_id : ℕ) × (truthy w.session.mfa_pending_user_id ≡ some user_id)
            × ((check_code b o user_id code method now w.db).0 ≡ ok true)
            × (s.user_id ≡ some user_id)
            × (s.mfa_pending_user_id ≡ none))
  unfolding mfa_verify
  mfa_verify_cases ip code method checked_at failed_at now stamp s2 w =
      let (limited, attempts) =
        is_rate_limited mfa_max_attempts mfa_lockout_seconds ip checked_at w.mfa_attempts in
      let username = w.session.mfa_pending_username in
      elim (Option-cases (truthy w.session.mfa_pending_user_id)) [
        | inl absent ↦ inl (rw absent refl)
        | inr (u, there) ↦ elim (Bool-cases limited) [
          | inl over ↦ inl (rw (there, over) refl)
          | inr under ↦
              let (result, db) = check_code b o u code method now w.db in
              let w1 = record w { mfa_attempts = attempts; db = db } in
              elim (Result-cases result) [
                | inl (true, right) ↦
                    let passed = mfa_passed_lem ip u username method stamp s2 w1 in
                    inr (
                      u,
                      there,
                      right,
                      ground (arith, there, under, right, passed),
                      ground (arith, there, under, right, passed),
                    )
                | inl (false, wrong) ↦ inl (
                    ground (
                      arith,
                      there,
                      under,
                      wrong,
                      mfa_refused_lem ip u username method failed_at stamp w1,
                    ))
                | inr (e, failed) ↦ inl (ground (arith, there, under, failed))
              ]
        ]
      ]

pub logout_lem : (stamp : Stamp) (w : Web) → (logout stamp w).1.session ≡ no_session
unfolding logout
logout_lem stamp w = refl
