-- ===== src/Web/Auth/Sessions.antt =====
-- Who a session is signed in as.
use landlord_cli.Prelude.{
  ap, false, inl, inr, none, none≢some, refl, some, some-injective, subst, sym, true, ℕ, ◌∙◌, ◌≡◌,
  ◌⊎◌,
}
use landlord_cli.Errors.{ok}
use landlord_cli.Models.{User}
use landlord_cli.Web.{Web, truthy_lem}
use landlord_cli.Web.Auth.{challenge, check_code, logout}
use landlord_cli.Web.Auth.Requests.{
  Request, Trace, act, change, elsewhere, log_in, log_out, next, note, passkey_begin,
  passkey_complete, sign_up, start, verify,
}
use landlord_cli.Web.Auth.Handled.{login_cases, mfa_verify_cases, signup_cases}
use landlord_cli.User.{Bcrypt, authenticate, register_user}
use landlord_cli.Mfa.Service.{Pyotp, has_any_mfa}
use landlord_cli.Web.Passkeys.{Webauthn}
use landlord_cli.Web.Auth.PasskeyHandled.{
  Answers, passkey_auth_begin_lem, passkey_auth_complete_cases,
}

module _ (b : Bcrypt) (o : Pyotp) (a : Webauthn) where
  -- A request with the password of a user.
  abbrev pub GivesPassword : ℕ → Request → Web → Type 0
  GivesPassword u (log_in ip username password checked_at failed_at stamp) w =
      (user : User) × (authenticate b username password w.db ≡ some user) × (user.id ≡ u)
  GivesPassword u _ w = ⊥

  -- somewhere in the requests of the client
  abbrev pub PasswordGiven : {w : Web} → ℕ → Trace b o a w → Type 0
  PasswordGiven u (start w) = ⊥
  PasswordGiven u (next {w} t r) = GivesPassword u r w ⊎ PasswordGiven u t

  -- A request that completes the sign-in of a user: a password, of a user who has no second factor; a
  -- code or passkey that is right, of a user whose password was given before; or a registration.
  abbrev pub SignsIn : {w : Web} → ℕ → Request → Trace b o a w → Type 0
  SignsIn {w} u (log_in ip username password checked_at failed_at stamp) t =
      (user : User) × (authenticate b username password w.db ≡ some user)
      × (user.id ≡ u)
      × (has_any_mfa u w.db ≡ false)
  SignsIn {w} u (verify ip code method checked_at failed_at now stamp s2) t =
      PasswordGiven u t × ((check_code b o u code method now w.db).0 ≡ ok true)
  SignsIn {w} u (sign_up username email password confirm_password salt now stamp) t =
      (user : User) × ((register_user b username email password salt now w.db).0 ≡ ok user)
      × (user.id ≡ u)
  SignsIn {w} u (passkey_complete ip credential at now stamp s2) t =
      PasswordGiven u t × Answers a credential at u w
  SignsIn u _ t = ⊥

  abbrev pub SignedIn : {w : Web} → ℕ → Trace b o a w → Type 0
  SignedIn u (start w) = ⊥
  SignedIn u (next t r) = SignsIn u r t ⊎ SignedIn u t

  -- What is known of the session after the requests.
  record Known {w : Web} (t : Trace b o a w) : Type 0 where
    one : (u : ℕ) → w.session.user_id ≡ some u → w.session.mfa_pending_user_id ≡ none
    signed : (u : ℕ) → w.session.user_id ≡ some u → SignedIn u t
    pending : (u : ℕ) → w.session.mfa_pending_user_id ≡ some u → PasswordGiven u t

  same_session :
      {w : Web} (t : Trace b o a w) (r : Request)
      → (act b o a r w).session.user_id ≡ w.session.user_id
      → (act b o a r w).session.mfa_pending_user_id ≡ w.session.mfa_pending_user_id
      → Known t
      → Known (next t r)
  same_session t r same same_pending k = record {
    one = λ u is. same_pending ∙ k.one u (sym same ∙ is);
    signed = λ u is. inr (k.signed u (sym same ∙ is));
    pending = λ u is. inr (k.pending u (sym same_pending ∙ is));
  }

  new_session :
      {w : Web} (t : Trace b o a w) (r : Request) (v : ℕ)
      → (act b o a r w).session.user_id ≡ some v
      → (act b o a r w).session.mfa_pending_user_id ≡ none
      → SignsIn v r t
      → Known (next t r)
  new_session t r v is none_pending why = record {
    one = λ u has. none_pending;
    signed = λ u has. inl (subst (λ n. SignsIn n r t) (some-injective (sym is ∙ has)) why);
    pending = λ u has. absurd (none≢some (sym none_pending ∙ has));
  }

  step_Known : {w : Web} (t : Trace b o a w) (r : Request) → Known t → Known (next t r)
  unfolding logout
  step_Known {w} t (log_in ip username password checked_at failed_at stamp) k =
      let r = log_in ip username password checked_at failed_at stamp in
      elim (login_cases b ip username password checked_at failed_at stamp w) [
        | inl same ↦
            same_session t r (ap (λ s. s.user_id) same) (ap (λ s. s.mfa_pending_user_id) same) k
        | inr (user, known, inl (_, s)) ↦ record {
          one = λ u has. absurd (none≢some (sym (ap (λ s. s.user_id) s) ∙ has));
          signed = λ u has. absurd (none≢some (sym (ap (λ s. s.user_id) s) ∙ has));
          pending = λ u has.
              inl (user, known, some-injective (sym (ap (λ s. s.mfa_pending_user_id) s) ∙ has));
        }
        | inr (user, known, inr (without, s)) ↦
            new_session t r user.id (ap (λ s. s.user_id) s) (ap (λ s. s.mfa_pending_user_id) s)
              (user, known, refl, without)
      ]
  step_Known {w} t (verify ip code method checked_at failed_at now stamp s2) k =
      let r = verify ip code method checked_at failed_at now stamp s2 in
      elim (mfa_verify_cases b o ip code method checked_at failed_at now stamp s2 w) [
        | inl same ↦
            same_session t r (ap (λ s. s.user_id) same) (ap (λ s. s.mfa_pending_user_id) same) k
        | inr (u, there, right, is, gone) ↦
            new_session t r u is gone (k.pending u (truthy_lem there), right)
      ]
  step_Known {w} t (sign_up username email password confirm_password salt now stamp) k =
      let r = sign_up username email password confirm_password salt now stamp in
      elim (signup_cases b username email password confirm_password salt now stamp w) [
        | inl same ↦
            same_session t r (ap (λ s. s.user_id) same) (ap (λ s. s.mfa_pending_user_id) same) k
        | inr (user, made, is, gone) ↦ new_session t r user.id is gone (user, made, refl)
      ]
  step_Known t (log_out stamp) k = record {
    one = λ u is. refl;
    signed = λ u is. absurd (none≢some is);
    pending = λ u is. absurd (none≢some is);
  }
  step_Known {w} t (passkey_begin challenge now) k =
      let same = passkey_auth_begin_lem a challenge now w in
      same_session t (passkey_begin challenge now) same.0 same.1 k
  step_Known {w} t (passkey_complete ip credential at now stamp s2) k =
      let r = passkey_complete ip credential at now stamp s2 in
      elim (passkey_auth_complete_cases a ip credential at now stamp s2 w) [
        | inl same ↦ same_session t r same.0 same.1 k
        | inr (u, there, answers, is, gone) ↦
            new_session t r u is gone (k.pending u (truthy_lem there), answers)
      ]
  step_Known t (elsewhere session r) k = same_session t (elsewhere session r) refl refl k
  step_Known t (change f) k = same_session t (change f) refl refl k
  step_Known t (note owes token challenge messages) k =
      same_session t (note owes token challenge messages) refl refl k

  Trace-Known : {w : Web} (t : Trace b o a w) → Known t
  Trace-Known (start w) = record {
    one = λ u is. refl;
    signed = λ u is. absurd (none≢some is);
    pending = λ u is. absurd (none≢some is);
  }
  Trace-Known (next t r) = step_Known t r (Trace-Known t)

  -- After any requests of a client that began without a session, those of other clients in between, a
  -- session that is signed in as a user has been signed in by the user's password where the user had no
  -- second factor, by the password and later a code that was right or a passkey of the user that
  -- answered the challenge, or by a registration; and no session is both signed in and waiting.
  pub Trace-SignedIn :
      {w : Web} (t : Trace b o a w) (u : ℕ)
      → w.session.user_id ≡ some u
      → SignedIn u t × (w.session.mfa_pending_user_id ≡ none)
  Trace-SignedIn t u is = let k = Trace-Known t in (k.signed u is, k.one u is)
