-- ===== src/Web/Limiter.antt =====
-- web/auth.py: the attempts that failed, by the address of the client, within a lockout of a number of
-- seconds. A time is what `time.monotonic()` gives.
pub mod Refinement
pub mod Bounds
use landlord_cli.Prelude.{
  Bool, List, String, [], if◌then◌else◌, leb, length, ltb, nat_eq, string_eq, ℕ, ◌++◌, ◌-◌, ◌==◌,
  ◌∷◌,
}
use landlord_cli.Sql.{select}

-- A key that is not in the dictionary has no attempts, which is how each function reads it.
abbrev pub Attempts : Type 0
Attempts = String → List ℕ

abbrev pub put : String → List ℕ → Attempts → Attempts
put ip times attempts key = if key == ip then times else attempts key

abbrev pub max_attempts : ℕ
max_attempts = 5

abbrev pub lockout_seconds : ℕ
lockout_seconds = 60

abbrev pub mfa_max_attempts : ℕ
mfa_max_attempts = 5

abbrev pub mfa_lockout_seconds : ℕ
mfa_lockout_seconds = 300

-- `[t for t in attempts if now - t < lockout]`
abbrev pub recent : ℕ → ℕ → List ℕ → List ℕ
recent lockout now times = select (λ t. ltb (now - t) lockout) times

-- The dictionary and the number of seconds are `_login_attempts` and 60, or `_mfa_attempts` and 300.
unfoldable pub is_rate_limited : ℕ → ℕ → String → ℕ → Attempts → Bool × Attempts
is_rate_limited limit lockout ip now attempts =
    let times = recent lockout now (attempts ip) in
    (leb limit (length times), put ip times attempts)

unfoldable pub record_failed : ℕ → String → ℕ → Attempts → Attempts
record_failed lockout ip now attempts =
    put ip (recent lockout now (attempts ip) ++ now ∷ []) attempts

unfoldable pub clear_attempts : String → Attempts → Attempts
clear_attempts ip attempts = put ip [] attempts
