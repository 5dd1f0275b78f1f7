-- ===== src/Web/Middleware/Guarded.antt =====
-- Which requests reach their handlers.
use landlord_cli.Prelude.{
  &&-eq-true, Bool, Bool-cases, String, ap, arith, false, inl, inr, is_some, nat_eq, not, refl,
  string_eq, true, ◌&&◌, ◌==◌, ◌||◌, ◌∙◌, ◌≡◌, ◌⊎◌,
}
use landlord_cli.Errors.{err}
use landlord_cli.Web.{IsRedirect, Response, Session, W, Web, flash_redirect, truthy}
use landlord_cli.Web.Middleware.{
  HttpRequest, auth_middleware, csrf_middleware, is_comparable, is_csrf_exempt, is_form,
  is_mfa_exempt, is_public, mfa_enforcement_middleware, not_comparable, serve, verify_csrf_token,
}
use landlord_cli.Web.Organizations.Guards.{with_messages}

-- A form that changes something, at a path that no middleware exempts.
abbrev pub is_protected : HttpRequest → Bool
is_protected r =
    r.matches
    && (not (is_public r) && (not (is_mfa_exempt r) && (not (is_csrf_exempt r) && is_form r)))

-- The session is of a user who owes no second factor, and the session and the form have a token.
abbrev pub has_tokens : HttpRequest → Session → Bool
has_tokens r s =
    is_some (truthy s.user_id)
    && (not s.mfa_setup_required && not (s.csrf_token == "" || r.form_token == ""))

-- The tokens are ASCII and the same.
abbrev pub is_admitted : HttpRequest → Session → Bool
is_admitted r s =
    has_tokens r s && (is_comparable s.csrf_token r.form_token && s.csrf_token == r.form_token)

-- One of the tokens is not ASCII.
abbrev pub is_broken : HttpRequest → Session → Bool
is_broken r s = has_tokens r s && not (is_comparable s.csrf_token r.form_token)

-- Such a form is left to the test of its token, for a user who owes no second factor.
serve-csrf_middleware :
    (r : HttpRequest) (app : W Response) (w : Web)
    → is_public r ≡ false
    → is_mfa_exempt r ≡ false
    → is_some (truthy w.session.user_id) ≡ true
    → w.session.mfa_setup_required ≡ false
    → serve r app w ≡ csrf_middleware r app w
unfolding serve auth_middleware mfa_enforcement_middleware
serve-csrf_middleware r app w not_public not_exempt user owes_none =
    ground (arith, not_public, not_exempt, user, owes_none)

-- What the test of the token does with it.
csrf_middleware_cases :
    (r : HttpRequest) (app : W Response) (w : Web)
    → is_csrf_exempt r ≡ false
    → is_form r ≡ true
    → let s = w.session in
      let given = not (s.csrf_token == "" || r.form_token == "") in
      let ascii = is_comparable s.csrf_token r.form_token in
      let same = s.csrf_token == r.form_token in
      (given ≡ true) × (ascii ≡ true) × (same ≡ true) × (csrf_middleware r app w ≡ app w)
      ⊎ (given ≡ true) × (ascii ≡ false) × (csrf_middleware r app w ≡ (err not_comparable, w))
      ⊎ ((given && (ascii && same)) ≡ false)
        × ((given && not ascii) ≡ false)
        × ((message : String) × (category : String) × (csrf_middleware r app w
              ≡ flash_redirect message category r.referer w))
unfolding csrf_middleware verify_csrf_token
csrf_middleware_cases r app w not_exempt form =
    let s = w.session in
    elim (Bool-cases (s.csrf_token == "" || r.form_token == "")) [
      | inl empty ↦ inr (
          inr (
            rw empty refl,
            rw empty refl,
            ("Sessão expirada. Tente novamente.", "danger", rw (not_exempt, form, empty) refl),
          ))
      | inr full ↦ elim (Bool-cases (is_comparable s.csrf_token r.form_token)) [
        | inr broken ↦ inr (inl (rw full refl, broken, rw (not_exempt, form, full, broken) refl))
        | inl ascii ↦ elim (Bool-cases (s.csrf_token == r.form_token)) [
          | inl same ↦
              inl (rw full refl, ascii, same, rw (not_exempt, form, full, ascii, same) refl)
          | inr differ ↦ inr (
              inr (
                rw (full, ascii, differ) refl,
                rw (full, ascii) refl,
                (
                  "Sessão expirada. Tente novamente.",
                  "danger",
                  rw (not_exempt, form, full, ascii, differ) refl,
                ),
              ))
        ]
      ]
    ]

-- A form that changes something, at a path of the program that no middleware exempts, reaches its
-- handler exactly when the session is of a user who owes no second factor, and the form has the token
-- of the session, which is not empty and ASCII. For such a user, where both tokens are there and one of
-- them is not ASCII, the comparison raises a TypeError, and nothing changes. Every other such form is
-- answered by a redirect, and nothing changes but the messages for the user.
pub serve_guarded :
    (r : HttpRequest) (app : W Response) (w : Web)
    → is_protected r ≡ true
    → (is_admitted r w.session ≡ true) × (serve r app w ≡ app w)
      ⊎ (is_admitted r w.session ≡ false)
        × (is_broken r w.session ≡ true)
        × (serve r app w ≡ (err not_comparable, w))
      ⊎ (is_admitted r w.session ≡ false)
        × (is_broken r w.session ≡ false)
        × IsRedirect (serve r app w).0
        × ((serve r app w).1 ≡ with_messages (serve r app w).1.session.messages w)
unfolding serve auth_middleware mfa_enforcement_middleware
serve_guarded r app w protected =
    let matches = &&-eq-true r.matches _ protected in
    let public = &&-eq-true (not (is_public r)) _ matches.1 in
    let exempt = &&-eq-true (not (is_mfa_exempt r)) _ public.1 in
    let form = &&-eq-true (not (is_csrf_exempt r)) (is_form r) exempt.1 in
    let not_public : is_public r ≡ false = let h = public.0 in ground arith in
    let not_exempt : is_mfa_exempt r ≡ false = let h = exempt.0 in ground arith in
    let not_csrf_exempt : is_csrf_exempt r ≡ false = let h = form.0 in ground arith in
    let s = w.session in
    elim (Bool-cases (is_some (truthy s.user_id))) [
      | inr no_user ↦ inr (
          inr (
            rw no_user refl,
            rw no_user refl,
            ("/login", rw (not_public, no_user, matches.0) refl),
            rw (not_public, no_user, matches.0) refl,
          ))
      | inl user ↦ elim (Bool-cases s.mfa_setup_required) [
        | inl owes ↦ inr (
            inr (
              rw (user, owes) refl,
              rw (user, owes) refl,
              ("/security/totp/setup", rw (not_public, user, not_exempt, owes) refl),
              rw (not_public, user, not_exempt, owes) refl,
            ))
        | inr owes_none ↦
            let step = serve-csrf_middleware r app w not_public not_exempt user owes_none in
            elim (csrf_middleware_cases r app w not_csrf_exempt form.1) [
              | inl (given, ascii, same, is) ↦
                  inl (rw (user, owes_none, given, ascii, same) refl, step ∙ is)
              | inr (inl (given, broken, is)) ↦ inr (
                  inl (
                    rw (user, owes_none, given, broken) refl,
                    rw (user, owes_none, given, broken) refl,
                    step ∙ is,
                  ))
              | inr (inr (refused, compared, (message, category, is))) ↦ inr (
                  inr (
                    rw (user, owes_none) refused,
                    rw (user, owes_none) compared,
                    (r.referer, ap (λ p. p.0) (step ∙ is)),
                    rw (step ∙ is) refl,
                  ))
            ]
      ]
    ]
