-- ===== src/Web/Middleware.antt =====
-- web/csrf.py and the middlewares of web/deps.py, in the order of web/app.py. Requests are of the type
-- `http`.
pub mod Guarded
use landlord_cli.Prelude.{
  Bool, List, String, [], codes, contains, false, if◌then◌else◌, is_some, nat_eq, not, string_eq,
  true, ℕ, ◌&&◌, ◌==◌, ◌||◌, ◌∷◌,
}
use landlord_cli.Errors.{Error, Result, err, ok, type_error}
use landlord_cli.Pix.{is_ascii}
use landlord_cli.Web.{Response, Session, W, flash_redirect, redirect, truthy}

-- What the middlewares look at. `matches` is what `_path_matches_route` gives for the path.
pub record HttpRequest : Type 0 where
  pub method : String
  pub path : String
  pub content_type : String
  pub form_token : String
  pub referer : String
  pub matches : Bool

abbrev pub is_prefix : List ℕ → List ℕ → Bool
is_prefix [] ys = true
is_prefix (x ∷ xs) [] = false
is_prefix (x ∷ xs) (y ∷ ys) = x == y && is_prefix xs ys

-- `path.startswith(p)` for one of these
abbrev pub starts_with_any : List String → String → Bool
starts_with_any [] path = false
starts_with_any (p ∷ ps) path = is_prefix (codes p) (codes path) || starts_with_any ps path

abbrev pub occurs : List ℕ → List ℕ → Bool
occurs xs [] = is_prefix xs []
occurs xs (y ∷ ys) = is_prefix xs (y ∷ ys) || occurs xs ys

abbrev pub public_exact_paths : List String
public_exact_paths = "/" ∷ []

abbrev pub public_prefix_paths : List String
public_prefix_paths =
    "/login" ∷ "/signup" ∷ "/static" ∷ "/mfa-verify" ∷ "/security/passkeys/auth" ∷ []

abbrev pub mfa_exempt_exact : List String
mfa_exempt_exact = "/" ∷ []

abbrev pub mfa_exempt_prefixes : List String
mfa_exempt_prefixes =
    "/security" ∷ "/logout" ∷ "/login" ∷ "/signup" ∷ "/static" ∷ "/mfa-verify" ∷ []

abbrev pub safe_methods : List String
safe_methods = "GET" ∷ "HEAD" ∷ "OPTIONS" ∷ "TRACE" ∷ []

abbrev pub exempt_paths : List String
exempt_paths = "/login" ∷ "/signup" ∷ "/static" ∷ "/security/passkeys" ∷ "/mfa-verify" ∷ []

-- `get_csrf_token`, with the token that is drawn where there is none
unfoldable pub get_csrf_token : String → W String
get_csrf_token drawn w =
    let token = if w.session.csrf_token == "" then drawn else w.session.csrf_token in
    (ok token, record w { session = record w.session { csrf_token = token } })

abbrev pub is_comparable : String → String → Bool
is_comparable a b = is_ascii (codes a) && is_ascii (codes b)

-- What `secrets.compare_digest` raises for a text that is not ASCII
abbrev pub not_comparable : Error
not_comparable = type_error "comparing strings with non-ASCII characters is not supported"

-- `secrets.compare_digest`
abbrev pub compare_digest : String → String → Result Bool
compare_digest a b = if is_comparable a b then ok (a == b) else err not_comparable

unfoldable pub verify_csrf_token : Session → String → Result Bool
verify_csrf_token session form_token =
    if session.csrf_token == "" || form_token == ""
    then ok false
    else compare_digest session.csrf_token form_token

unfoldable pub is_public : HttpRequest → Bool
is_public r = contains r.path public_exact_paths || starts_with_any public_prefix_paths r.path

unfoldable pub is_mfa_exempt : HttpRequest → Bool
is_mfa_exempt r = contains r.path mfa_exempt_exact || starts_with_any mfa_exempt_prefixes r.path

unfoldable pub is_csrf_exempt : HttpRequest → Bool
is_csrf_exempt r = contains r.method safe_methods || starts_with_any exempt_paths r.path

unfoldable pub is_form : HttpRequest → Bool
is_form r =
    occurs (codes "multipart/form-data") (codes r.content_type)
    || occurs (codes "application/x-www-form-urlencoded") (codes r.content_type)

unfoldable pub auth_middleware : HttpRequest → W Response → W Response
auth_middleware r app w =
    if is_public r
    then app w
    else if is_some (truthy w.session.user_id)
    then app w
    else if not r.matches
    then app w
    else (ok (redirect "/login"), w)

unfoldable pub mfa_enforcement_middleware : HttpRequest → W Response → W Response
mfa_enforcement_middleware r app w =
    if is_mfa_exempt r
    then app w
    else if not (is_some (truthy w.session.user_id))
    then app w
    else if w.session.mfa_setup_required
    then (ok (redirect "/security/totp/setup"), w)
    else app w

unfoldable pub csrf_middleware : HttpRequest → W Response → W Response
unfolding verify_csrf_token
csrf_middleware r app w =
    if is_csrf_exempt r
    then app w
    else if not (is_form r)
    then app w
    else elim (verify_csrf_token w.session r.form_token) [
      | ok true ↦ app w
      | ok false ↦ flash_redirect "Sessão expirada. Tente novamente." "danger" r.referer w
      | err e ↦ (err e, w)
    ]

-- a request on its way to its handler
unfoldable pub serve : HttpRequest → W Response → W Response
serve r app = auth_middleware r (mfa_enforcement_middleware r (csrf_middleware r app))
