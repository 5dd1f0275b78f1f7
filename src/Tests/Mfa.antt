-- ===== src/Tests/Mfa.antt =====
-- Second factors.
use landlord_cli.Prelude.{
  String, [], arith, false, if◌then◌else◌, map, nat_eq, none, refl, some, string_eq, true, ℕ, ◌==◌,
  ◌∷◌, ◌≡◌,
}
use landlord_cli.Sql.{delete_where}
use landlord_cli.Errors.{ok}
use landlord_cli.Models.{RecoveryCode, UserPasskey, UserTotp}
use landlord_cli.Db.{Db}
use landlord_cli.Tests.Sample.{plain, sample}
use landlord_cli.Mfa.Totp.{get_by_user_id, new_totp}
use landlord_cli.Mfa.RecoveryCodes.{list_unused_by_user}
use landlord_cli.Mfa.Service.{
  Pyotp, confirm_totp, delete_passkey, disable_totp, drawn_codes, drawn_hashes, has_confirmed_totp,
  is_confirmed, recovery_code_count, setup_totp, verify_recovery_code, verify_totp,
}
use landlord_cli.Mfa.Service.Codes.{verify_recovery_code_once}
use landlord_cli.Mfa.Service.Setup.{confirm_totp-verify_recovery_code}
use landlord_cli.Mfa.Service.Life.{disable_totp-verify_totp, setup_totp-verify_totp}
use landlord_cli.Mfa.Passkeys.{list_by_user}
use landlord_cli.Mfa.Service.Owners.{delete_passkey-list_by_user}

abbrev pub pending_totp : UserTotp
pending_totp = record {
  id = 1;
  user_id = 1;
  secret = "S";
  confirmed = false;
  created_at = 8;
  confirmed_at = none;
}

abbrev first_code : RecoveryCode
first_code = record { id = 1; user_id = 1; code_hash = "c1"; used_at = none; created_at = 8 }

abbrev codes_sample : Db
codes_sample = record sample {
  user_totp = record { rows = pending_totp ∷ []; next = 2 };
  user_recovery_codes = record {
    rows = first_code ∷ record first_code { id = 2; code_hash = "c2" } ∷ [];
    next = 3;
  };
}

-- An authenticator whose code is the secret.
abbrev pub fixed_code : Pyotp
fixed_code = record {
  verify = λ now secret code. secret == code;
  provisioning_uri = λ secret username. secret;
  qr_base64 = λ uri. uri;
}

abbrev draws : ℕ → String × String
draws i = (if i == 3 then "d3" else "d", "salt")

verify_recovery_code_once_example :
    let (r, db') = verify_recovery_code plain 1 "c1" 9 codes_sample in
    (r ≡ ok true)
    × (list_unused_by_user 1 db'
        ≡ delete_where (λ r. r.id == 1) (list_unused_by_user 1 codes_sample))
    × (verify_recovery_code plain 1 "c1" 10 db' ≡ (ok false, db'))
unfolding list_unused_by_user
verify_recovery_code_once_example =
    verify_recovery_code_once plain 1 "c1" 9 10 first_code codes_sample refl
      ((λ h. refl), ((λ h. ground (arith, h)), tt))

is_pending_totp : get_by_user_id 1 codes_sample ≡ some pending_totp
unfolding get_by_user_id
is_pending_totp = refl

confirm_totp-verify_recovery_code_example :
    let (r, db') = confirm_totp fixed_code plain 1 "S" draws 9 10 11 codes_sample in
    (r ≡ ok (drawn_codes recovery_code_count 0 draws))
    × (has_confirmed_totp 1 db' ≡ true)
    × (map (λ rc. rc.code_hash) (list_unused_by_user 1 db')
        ≡ drawn_hashes plain recovery_code_count 0 draws)
    × ((verify_recovery_code plain 1 "d3" 20 db').0 ≡ ok true)
confirm_totp-verify_recovery_code_example =
    confirm_totp-verify_recovery_code fixed_code plain 1 "S" draws 9 10 11 pending_totp codes_sample
      refl is_pending_totp refl refl 3 20 (omega arith)

is_open : is_confirmed (get_by_user_id 1 codes_sample) ≡ false
unfolding get_by_user_id
is_open = refl

setup_totp-verify_totp_example :
    let (r, db') = setup_totp fixed_code 1 "alice" "T" 9 codes_sample in
    (r ≡ ok (new_totp 1 "T" false 9 2, "T", "T"))
    × (get_by_user_id 1 db' ≡ some (new_totp 1 "T" false 9 2))
    × (verify_totp fixed_code 1 "T" 20 db' ≡ false)
setup_totp-verify_totp_example =
    setup_totp-verify_totp fixed_code 1 "alice" "T" 9 codes_sample refl is_open "T" 20

disable_totp-verify_totp_example :
    let db' = (disable_totp 1 codes_sample).1 in
    (verify_totp fixed_code 1 "S" 9 db' ≡ false)
    × (verify_recovery_code plain 1 "S" 9 db' ≡ (ok false, db'))
    × (verify_totp fixed_code 2 "S" 9 db' ≡ verify_totp fixed_code 2 "S" 9 codes_sample)
    × (list_unused_by_user 2 db' ≡ list_unused_by_user 2 codes_sample)
disable_totp-verify_totp_example =
    disable_totp-verify_totp fixed_code plain 1 2 "S" 9 codes_sample (omega arith)

abbrev phone : UserPasskey
phone = record {
  id = 1;
  uuid = "P1";
  user_id = 1;
  credential_id = "cred";
  public_key = "pk";
  sign_count = 0;
  name = "phone";
  transports = none;
  created_at = 8;
  last_used_at = none;
}

abbrev keys_sample : Db
keys_sample = record sample {
  user_passkeys = record {
    rows = phone ∷ record phone { id = 2; uuid = "P2"; user_id = 2 } ∷ [];
    next = 3;
  };
}

delete_passkey-list_by_user_example :
    list_by_user 2 (delete_passkey "P1" 1 keys_sample).1 ≡ list_by_user 2 keys_sample
delete_passkey-list_by_user_example =
    delete_passkey-list_by_user "P1" 1 2 keys_sample ((omega arith, tt), (tt, tt)) (omega arith)
