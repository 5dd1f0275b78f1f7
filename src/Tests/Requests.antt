-- ===== src/Tests/Requests.antt =====
-- Requests to web/auth.py.
use landlord_cli.Prelude.{List, [], arith, false, none, refl, true, ◌∷◌, ◌≡◌}
use landlord_cli.Models.{UserTotp}
use landlord_cli.Web.{Web, no_session}
use landlord_cli.Web.Limiter.{is_rate_limited}
use landlord_cli.Web.Limiter.Refinement.{
  Event, Ordered, check, fail, is_rate_limited-run_events, is_rate_limited_ends, no_attempts,
  run_events,
}
use landlord_cli.Web.Auth.{challenge, check_code, login, mfa_passed, mfa_verify}
use landlord_cli.Web.Auth.Requests.{Request, Trace, act, log_in, next, start, verify}
use landlord_cli.Web.Auth.Sessions.{SignedIn, Trace-SignedIn}
use landlord_cli.Web.Auth.Attempts.{Limited, act-Limited}
use landlord_cli.Audit.{create, safe_log}
use landlord_cli.User.{authenticate}
use landlord_cli.Mfa.Service.{has_any_mfa, has_confirmed_totp, verify_totp}
use landlord_cli.Mfa.Totp.{get_by_user_id}
use landlord_cli.Tests.Sample.{plain, sample}
use landlord_cli.Tests.Mfa.{fixed_code, pending_totp}
use landlord_cli.Tests.Records.{stamp}
use landlord_cli.Web.Passkeys.{Webauthn}
use landlord_cli.Json.{null}

-- five failures within the lockout, and an earlier one
abbrev failed_logins : List Event
failed_logins =
    fail "a" 10
    ∷ check "a" 100
    ∷ fail "a" 100
    ∷ fail "a" 101
    ∷ fail "b" 102
    ∷ fail "a" 103
    ∷ fail "a" 104
    ∷ fail "a" 105
    ∷ []

failed_logins-Ordered : Ordered 0 failed_logins
failed_logins-Ordered = (
  omega arith,
  (
    omega arith,
    (omega arith, (omega arith, (omega arith, (omega arith, (omega arith, (omega arith, tt)))))),
  ),
)

is_rate_limited-run_events_example :
    (is_rate_limited 5 60 "a" 110 (run_events 5 60 failed_logins no_attempts)).0 ≡ true
is_rate_limited-run_events_example =
    is_rate_limited-run_events 5 60 failed_logins "a" 110 failed_logins-Ordered (omega arith)

is_rate_limited_ends_example :
    (is_rate_limited 5 60 "a" 165 (run_events 5 60 failed_logins no_attempts)).0 ≡ false
is_rate_limited_ends_example =
    is_rate_limited_ends 5 60 failed_logins "a" 165 failed_logins-Ordered (omega arith)
      (omega arith)

abbrev secret_of_bob : UserTotp
secret_of_bob = record pending_totp { user_id = 2; confirmed = true }

abbrev pub first_web : Web
first_web = record {
  session = no_session;
  db = record sample { user_totp = record { rows = secret_of_bob ∷ []; next = 2 } };
  login_attempts = no_attempts;
  mfa_attempts = no_attempts;
}

-- No browser answers a challenge.
abbrev no_passkeys : Webauthn
no_passkeys = record {
  registration_options = λ user_id username existing challenge. null;
  authentication_options = λ allowed challenge. null;
  verify_registration = λ body challenge. none;
  verify_authentication = λ body challenge public_key sign_count. none;
}

abbrev two_requests : Request × Request
two_requests = (log_in "a" "bob" "pw" 1 1 stamp, verify "a" "S" "totp" 2 2 22 stamp stamp)

abbrev signed_in : Web
signed_in =
    act plain fixed_code no_passkeys two_requests.1
      (act plain fixed_code no_passkeys two_requests.0 first_web)

abbrev bobs_trace : Trace plain fixed_code no_passkeys signed_in
bobs_trace = next (next (start first_web) two_requests.0) two_requests.1

Trace-SignedIn_example :
    SignedIn plain fixed_code no_passkeys 2 bobs_trace
    × (signed_in.session.mfa_pending_user_id ≡ none)
unfolding mfa_verify login is_rate_limited authenticate has_any_mfa has_confirmed_totp
    get_by_user_id challenge check_code verify_totp safe_log create mfa_passed
Trace-SignedIn_example = Trace-SignedIn plain fixed_code no_passkeys bobs_trace 2 refl

act-Limited_example : Limited (act plain fixed_code no_passkeys two_requests.0 first_web)
act-Limited_example =
    act-Limited plain fixed_code no_passkeys two_requests.0 first_web
      ((λ ip. omega arith), (λ ip. omega arith))
