-- ===== src/Web/Auth/Requests.antt =====
-- A client's requests to web/auth.py, and with a passkey to web/routes/security.py, in turn, among those of other clients.
use landlord_cli.Prelude.{Bool, List, Option, String, ℕ}
use landlord_cli.Web.{Session, Web, no_session}
use landlord_cli.Web.Auth.{challenge, login, logout, mfa_verify, signup}
use landlord_cli.Audit.{Stamp}
use landlord_cli.User.{Bcrypt}
use landlord_cli.Mfa.Service.{Pyotp}
use landlord_cli.Web.Passkeys.{Credential, Webauthn, passkey_auth_begin, passkey_auth_complete}
use landlord_cli.Db.{Db}

pub data Request : Type 0 where
  -- the address, the form, the times of the limiter and what the entry is stamped with
  log_in : String → String → String → ℕ → ℕ → Stamp → Request
  verify : String → String → String → ℕ → ℕ → ℕ → Stamp → Stamp → Request
  sign_up : String → String → String → String → String → ℕ → Stamp → Request
  log_out : Stamp → Request
  -- the challenge and its time; the address, the answer and its time
  passkey_begin : String → ℕ → Request
  passkey_complete : String → Credential → ℕ → ℕ → Stamp → Stamp → Request
  -- a request of a client with another session
  elsewhere : Session → Request → Request
  -- a change of the database by another part of the program
  change : (Db → Db) → Request
  -- what any other handler may write to the session of the client
  note : Bool → String → Option (String × ℕ) → List (String × String) → Request

module _ (b : Bcrypt) (o : Pyotp) (a : Webauthn) where
  -- the state after a request
  abbrev pub act : Request → Web → Web
  act (log_in ip username password checked_at failed_at stamp) w =
      (login b ip username password checked_at failed_at stamp w).1
  act (verify ip code method checked_at failed_at now stamp login_stamp) w =
      (mfa_verify b o ip code method checked_at failed_at now stamp login_stamp w).1
  act (sign_up username email password confirm_password salt now stamp) w =
      (signup b username email password confirm_password salt now stamp w).1
  act (log_out stamp) w = (logout stamp w).1
  act (passkey_begin challenge now) w = (passkey_auth_begin a challenge now w).1
  act (passkey_complete ip credential at now stamp login_stamp) w =
      (passkey_auth_complete a ip credential at now stamp login_stamp w).1
  act (elsewhere session r) w =
      let w' = act r (record w { session = session }) in record w' { session = w.session }
  act (change f) w = record w { db = f w.db }
  act (note owes token challenge messages) w = record w {
    session = record w.session {
      mfa_setup_required = owes;
      csrf_token = token;
      webauthn_register = challenge;
      messages = messages;
    };
  }

  -- The states that a client comes to from an empty session.
  pub data Trace : Web → Type 0 where
    start : (w : Web) → Trace (record w { session = no_session })
    next : {w : Web} → Trace w → (r : Request) → Trace (act r w)
