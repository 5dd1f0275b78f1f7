-- ===== src/Web/Auth/PasskeyHandled.antt =====
-- What the handlers of a login with a passkey leave the session as.
use landlord_cli.Prelude.{
  ==_iff, Bool-cases, Option-cases, String, ap, arith, inl, inr, is_some, nat_eq, none, refl, some,
  string_eq, sym, true, ℕ, ◌==◌, ◌∙◌, ◌≡◌, ◌⊎◌,
}
use landlord_cli.Models.{UserPasskey}
use landlord_cli.Web.{Web, truthy}
use landlord_cli.Mfa.Service.{update_passkey_sign_count}
use landlord_cli.Mfa.Passkeys.{get_by_credential_id, update_last_used, update_sign_count}
use landlord_cli.Web.Passkeys.{
  Credential, Webauthn, fresh, own_passkey, passkey_auth_begin, passkey_auth_complete,
  passkey_passed, passkey_refused,
}
use landlord_cli.Audit.{Stamp}
use landlord_cli.Db.{Db}

own_passkey_lem :
    (credential_id : String) (user_id : ℕ) (db : Db) {passkey : UserPasskey}
    → own_passkey credential_id user_id db ≡ some passkey
    → (get_by_credential_id credential_id db ≡ some passkey) × (passkey.user_id ≡ user_id)
own_passkey_lem credential_id user_id db {passkey} own =
    elim (Option-cases (get_by_credential_id credential_id db)) [
      | inl absent ↦ absurd (ground (arith, absent, own))
      | inr (p, found) ↦ elim (Bool-cases (p.user_id == user_id)) [
        | inl mine ↦
            let same : p ≡ passkey = ground (arith, found, mine, own) in
            (
              found ∙ ap (λ x. some x) same,
              ap (λ x. x.user_id) (sym same) ∙ (==_iff p.user_id user_id).0 mine,
            )
        | inr other ↦ absurd (ground (arith, found, other, own))
      ]
    ]

module _ (a : Webauthn) where
  pub passkey_auth_begin_lem :
      (challenge : String) (now : ℕ) (w : Web)
      → let s = (passkey_auth_begin a challenge now w).1.session in
        (s.user_id ≡ w.session.user_id) × (s.mfa_pending_user_id ≡ w.session.mfa_pending_user_id)
  unfolding passkey_auth_begin
  passkey_auth_begin_lem challenge now w =
      elim (Option-cases (truthy w.session.mfa_pending_user_id)) [
        | inl absent ↦ (rw absent refl, rw absent refl)
        | inr (u, there) ↦ (rw there refl, rw there refl)
      ]

  -- A passkey of the user has answered the challenge of the session.
  pub record Answers (credential : Credential) (at : ℕ) (u : ℕ) (w : Web) : Type 0 where
    pub passkey : UserPasskey
    pub challenge : String
    pub found : get_by_credential_id credential.id w.db ≡ some passkey
    pub mine : passkey.user_id ≡ u
    pub given : fresh at w.session.webauthn_auth ≡ some challenge
    pub right :
        is_some
          (a.verify_authentication credential.body challenge passkey.public_key passkey.sign_count)
        ≡ true

  pub passkey_auth_complete_cases :
      (ip : String) (credential : Credential) (at now : ℕ) (stamp s2 : Stamp) (w : Web)
      → let s = (passkey_auth_complete a ip credential at now stamp s2 w).1.session in
        (s.user_id ≡ w.session.user_id) × (s.mfa_pending_user_id ≡ w.session.mfa_pending_user_id)
        ⊎ ((u : ℕ) × (truthy w.session.mfa_pending_user_id ≡ some u)
            × Answers credential at u w
            × (s.user_id ≡ some u)
            × (s.mfa_pending_user_id ≡ none))
  unfolding passkey_auth_complete passkey_refused passkey_passed update_passkey_sign_count
      update_sign_count update_last_used
  passkey_auth_complete_cases ip credential at now stamp s2 w =
      elim (Option-cases (truthy w.session.mfa_pending_user_id)) [
        | inl absent ↦ inl (rw absent refl, rw absent refl)
        | inr (u, there) ↦ elim (Option-cases (fresh at w.session.webauthn_auth)) [
          | inl expired ↦ inl (rw (there, expired) refl, rw (there, expired) refl)
          | inr (c, given) ↦ elim (Option-cases (own_passkey credential.id u w.db)) [
            | inl unknown ↦ inl (rw (there, given, unknown) refl, rw (there, given, unknown) refl)
            | inr (pk, own) ↦
                elim (Option-cases
                  (a.verify_authentication credential.body c pk.public_key pk.sign_count)) [
                    | inl wrong ↦
                        inl (rw (there, given, own, wrong) refl, rw (there, given, own, wrong) refl)
                    | inr (n, right) ↦
                        let is = own_passkey_lem credential.id u w.db own in
                        inr (
                          u,
                          there,
                          record {
                            passkey = pk;
                            challenge = c;
                            found = is.0;
                            mine = is.1;
                            given = given;
                            right = rw right refl;
                          },
                          rw (there, given, own, right) refl,
                          rw (there, given, own, right) refl,
                        )
                  ]
          ]
        ]
      ]
