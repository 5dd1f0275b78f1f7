-- ===== src/Web.antt =====
-- The requests of web/, on the state that the handlers share: the session of the client, the database,
-- and the attempts that web/auth.py keeps in memory. web/flash.py is here; the children are named for
-- their files.
pub mod Limiter
pub mod Auth
pub mod Organizations
pub mod Bills
pub mod Receipts
pub mod Keeps
pub mod Invites
pub mod Middleware
pub mod Billings
pub mod Themes
pub mod Security
pub mod Passkeys
use landlord_cli.Prelude.{
  Bool, List, Option, String, [], arith, false, if◌then◌else◌, inl, inr, ltb, nat_eq, none, some,
  string_eq, suc, zero, ℕ, ◌%◌, ◌++◌, ◌/◌, ◌==◌, ◌∷◌, ◌≡◌, ◌⊎◌,
}
use landlord_cli.Errors.{Result, err, format, ok, value_error}
use landlord_cli.Db.{Db, M}
use landlord_cli.Json.{Json, str}
use landlord_cli.Audit.{Entry, Stamp, plain_entry, safe_log}
use landlord_cli.Web.Limiter.{Attempts}
use landlord_cli.Web/Limiter.{}

-- `request.session`: a key that is not there is `none`, no text, `false` or no messages.
pub record Session : Type 0 where
  pub user_id : Option ℕ
  pub username : Option String
  pub mfa_pending_user_id : Option ℕ
  pub mfa_pending_username : Option String
  pub mfa_setup_required : Bool
  pub csrf_token : String
  -- the challenge of WebAuthn for a registration or a login, with its time
  pub webauthn_register : Option (String × ℕ)
  pub webauthn_auth : Option (String × ℕ)
  pub messages : List (String × String)

-- `request.session.clear()`
abbrev pub no_session : Session
no_session = record {
  user_id = none;
  username = none;
  mfa_pending_user_id = none;
  mfa_pending_username = none;
  mfa_setup_required = false;
  csrf_token = "";
  webauthn_register = none;
  webauthn_auth = none;
  messages = [];
}

pub record Web : Type 0 where
  pub session : Session
  pub db : Db
  pub login_attempts : Attempts
  pub mfa_attempts : Attempts

-- A redirect, with status 302, a template with what it is rendered with, or a JSON answer with its
-- status.
pub data Response : Type 0 where
  redirect : String → Response
  page : String → List (String × Json) → Response
  json : ℕ → Json → Response

-- The call returns a redirect.
abbrev pub IsRedirect : Result Response → Type 0
IsRedirect r = (url : String) × (r ≡ ok (redirect url))

-- A handler, which may raise.
abbrev pub W : Type 0 → Type 0
W A = Web → Result A × Web

infixl 5 ◌>>=◌ ◌>>◌
abbrev pub ◌>>=◌ : {A B : Type 0} → W A → (A → W B) → W B
◌>>=◌ m f w = let (r, w') = m w in elim r [ ok a ↦ f a w' | err e ↦ (err e, w') ]

abbrev pub ◌>>◌ : {A B : Type 0} → W A → W B → W B
m >> k = m >>= λ _. k

module _ {A : Type 0} where
  abbrev pub pure : A → W A
  pure a w = (ok a, w)

  abbrev pub query : (Web → A) → W A
  query f w = (ok (f w), w)

  -- a call of a service
  abbrev pub call : M A → W A
  call m w = let (r, db') = m w.db in (r, record w { db = db' })

  -- `try: … except ValueError as e`
  abbrev pub try_call : M A → W (String ⊎ A)
  try_call m w =
      let (r, db') = m w.db in
      (
        elim r [ ok a ↦ ok (inr a) | err (value_error e) ↦ ok (inl e) | err e ↦ err e ],
        record w { db = db' },
      )

  -- the handler of the ValueError that `try_call` gives, or the rest
  abbrev pub caught : {B : Type 0} → String ⊎ B → (String → W A) → (B → W A) → W A
  caught r f g w = elim r [ inl e ↦ f e w | inr x ↦ g x w ]

  -- `if x is None: return …`, before the rest
  abbrev pub with_some : {B : Type 0} → Option B → W A → (B → W A) → W A
  with_some o m k w = elim o [ none ↦ m w | some x ↦ k x w ]

  -- `if c: return …`, before the rest
  abbrev pub choose : Bool → W A → W A → W A
  choose c m k w = if c then m w else k w

abbrev pub set_session : (Session → Session) → W (Unit {0})
set_session f w = (ok tt, record w { session = f w.session })

-- web/flash.py
abbrev pub flash : String → String → W (Unit {0})
flash message category =
    set_session λ s. record s { messages = s.messages ++ (message, category) ∷ [] }

abbrev pub get_flashed_messages : W (List (String × String))
get_flashed_messages w =
    (ok w.session.messages, record w { session = record w.session { messages = [] } })

-- `flash`, and then `return RedirectResponse`
abbrev pub flash_redirect : String → String → String → W Response
flash_redirect message category url = flash message category >> pure (redirect url)

-- `audit.safe_log(…)`, which never raises and whose result is not used
abbrev pub log : Entry → Stamp → W (Unit {0})
log e stamp w = (ok tt, record w { db = (safe_log e stamp w.db).1 })

-- An id that is read as a condition: 0 is false.
abbrev pub truthy : Option ℕ → Option ℕ
truthy none = none
truthy (some n) = if n == 0 then none else some n

-- `session.get("username", "")`
abbrev pub name_or_empty : Option String → String
name_or_empty none = ""
name_or_empty (some name) = name

-- The templates that show one error.
abbrev pub error_page : String → String → W Response
error_page template message = pure (page template (("error", str message) ∷ []))

-- an entry of the audit log by a signed-in user
abbrev pub web_entry : String → Option ℕ → Option String → Entry
web_entry event_type actor_id actor = record (plain_entry event_type) {
  actor_id = actor_id;
  actor_username = name_or_empty actor;
  source = "web";
}

pub truthy_lem : {o : Option ℕ} {n : ℕ} → truthy o ≡ some n → o ≡ some n
truthy_lem {o = none} e = e
truthy_lem {o = some m} e = ground (arith, e)

abbrev digit : ℕ → String
digit d =
    if d == 0
    then "0"
    else if d == 1
    then "1"
    else if d == 2
    then "2"
    else if d == 3
    then "3"
    else if d == 4
    then "4"
    else if d == 5
    then "5"
    else if d == 6
    then "6"
    else if d == 7
    then "7"
    else if d == 8
    then "8"
    else "9"

-- the digits of n, on fuel, for which n + 1 is enough
abbrev digits : ℕ → ℕ → String
digits zero n = ""
digits (suc fuel) n =
    let rest = digits fuel (n / 10) in
    if ltb n 10 then digit n else format (rest ∷ digit (n % 10) ∷ [])

-- a number in an f-string
abbrev pub text_of : ℕ → String
text_of n = digits (suc n) n
