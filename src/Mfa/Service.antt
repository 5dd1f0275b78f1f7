-- ===== src/Mfa/Service.antt =====
-- rentivo/services/mfa_service.py, over bcrypt, pyotp and qrcode.
pub mod Codes
pub mod Setup
pub mod Life
pub mod Owners
use landlord_cli.Prelude.{
  Bool, List, Option, String, [], false, if◌then◌else◌, is_cons, is_some, length, nat_eq, none, not,
  some, string_eq, suc, true, zero, ℕ, ◌==◌, ◌∷◌,
}
use landlord_cli.Errors.{value_error}
use landlord_cli.Models.{RecoveryCode, UserTotp}
use landlord_cli.Db.{Db, M, gets, or_raise, pure, raise_if, when, ◌>>=◌, ◌>>◌}
use landlord_cli.Mfa.Totp.{confirm, create, delete_by_user_id, get_by_user_id}
use landlord_cli.Mfa.RecoveryCodes.{
  create_batch, delete_all_by_user, list_unused_by_user, mark_used,
}
use landlord_cli.Mfa.Passkeys.{
  delete, get_by_uuid, list_by_user, update_last_used, update_sign_count,
}
use landlord_cli.User.{Bcrypt}
use landlord_cli.Organization.{user_has_enforcing_org}

-- What pyotp and qrcode give: the check of a code against a secret at a time, with the window of one
-- step on either side, the URI for a secret and a name, and the base64 of the PNG of a text.
pub record Pyotp : Type 0 where
  pub verify : ℕ → String → String → Bool
  pub provisioning_uri : String → String → String
  pub qr_base64 : String → String

abbrev pub recovery_code_count : ℕ
recovery_code_count = 10

-- `totp is not None and totp.confirmed`
abbrev pub is_confirmed : Option UserTotp → Bool
is_confirmed none = false
is_confirmed (some totp) = totp.confirmed

unfoldable pub has_confirmed_totp : ℕ → Db → Bool
has_confirmed_totp user_id db = is_confirmed (get_by_user_id user_id db)

unfoldable pub disable_totp : ℕ → M (Unit {0})
disable_totp user_id = do delete_by_user_id user_id; delete_all_by_user user_id

-- The codes and hashes of the loop of `_generate_recovery_codes`, from the number of rounds that are
-- left: the draws of `token_hex` and `gensalt` are given for each round.
abbrev pub drawn_codes : ℕ → ℕ → (ℕ → String × String) → List String
drawn_codes zero i draws = []
drawn_codes (suc n) i draws = (draws i).0 ∷ drawn_codes n (suc i) draws

abbrev pub drawn_hashes : Bcrypt → ℕ → ℕ → (ℕ → String × String) → List String
drawn_hashes b zero i draws = []
drawn_hashes b (suc n) i draws = b.hashpw (draws i).0 (draws i).1 ∷ drawn_hashes b n (suc i) draws

unfoldable pub count_unused_recovery_codes : ℕ → Db → ℕ
count_unused_recovery_codes user_id db = length (list_unused_by_user user_id db)

module _ (b : Bcrypt) where
  -- `_generate_recovery_codes`
  unfoldable pub generate_recovery_codes : ℕ → (ℕ → String × String) → ℕ → M (List String)
  generate_recovery_codes user_id draws now = do
    delete_all_by_user user_id
    create_batch user_id (drawn_hashes b recovery_code_count 0 draws) now
    pure (drawn_codes recovery_code_count 0 draws)

  unfoldable pub regenerate_recovery_codes : ℕ → (ℕ → String × String) → ℕ → M (List String)
  regenerate_recovery_codes user_id draws now = do
    totp ← gets (get_by_user_id user_id)
    raise_if (not (is_confirmed totp)) (value_error "TOTP não está ativado")
    generate_recovery_codes user_id draws now

  -- The loop of `verify_recovery_code`.
  abbrev pub use_code : String → ℕ → List RecoveryCode → M Bool
  use_code code now [] = pure false
  use_code code now (rc ∷ rcs) =
      let rest = use_code code now rcs in
      if b.checkpw code rc.code_hash then mark_used rc.id now >> pure true else rest

  unfoldable pub verify_recovery_code : ℕ → String → ℕ → M Bool
  verify_recovery_code user_id code now = do
    unused ← gets (list_unused_by_user user_id)
    use_code code now unused

module _ (o : Pyotp) where
  -- The secret is a draw of `random_base32`; the result is the record, the URI and the QR code.
  unfoldable pub setup_totp : ℕ → String → String → ℕ → M (UserTotp × String × String)
  setup_totp user_id username secret now = do
    existing ← gets (get_by_user_id user_id)
    raise_if (is_confirmed existing) (value_error "TOTP já está ativado")
    when (is_some existing) (delete_by_user_id user_id)
    created ← create user_id secret false now
    let uri = o.provisioning_uri secret username
    pure (created, uri, o.qr_base64 uri)

  -- `now` is when the code is checked, and the others are when the two writes take place.
  unfoldable pub confirm_totp :
      Bcrypt → ℕ → String → (ℕ → String × String) → ℕ → ℕ → ℕ → M (List String)
  confirm_totp b user_id code draws now confirmed_now created_now = do
    found ← gets (get_by_user_id user_id)
    totp ← or_raise found (value_error "Nenhuma configuração TOTP em andamento")
    raise_if totp.confirmed (value_error "TOTP já está confirmado")
    raise_if (not (o.verify now totp.secret code)) (value_error "Código TOTP inválido")
    confirm user_id confirmed_now
    generate_recovery_codes b user_id draws created_now

  unfoldable pub verify_totp : ℕ → String → ℕ → Db → Bool
  verify_totp user_id code now db = elim (get_by_user_id user_id db) [
    | none ↦ false
    | some totp ↦ if not totp.confirmed then false else o.verify now totp.secret code
  ]

unfoldable pub update_passkey_sign_count : ℕ → ℕ → ℕ → M (Unit {0})
update_passkey_sign_count passkey_id sign_count now = do
  update_sign_count passkey_id sign_count
  update_last_used passkey_id now

unfoldable pub delete_passkey : String → ℕ → M (Unit {0})
delete_passkey passkey_uuid user_id = do
  found ← gets (get_by_uuid passkey_uuid)
  passkey ← or_raise found (value_error "Passkey não encontrada")
  raise_if (not (passkey.user_id == user_id)) (value_error "Passkey não encontrada")
  delete passkey.id

unfoldable pub has_any_mfa : ℕ → Db → Bool
has_any_mfa user_id db =
    if has_confirmed_totp user_id db then true else is_cons (list_by_user user_id db)

unfoldable pub user_requires_mfa_setup : ℕ → Db → Bool
user_requires_mfa_setup user_id db =
    if has_any_mfa user_id db then false else user_has_enforcing_org user_id db
