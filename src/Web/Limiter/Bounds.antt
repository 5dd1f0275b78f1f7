-- ===== src/Web/Limiter/Bounds.antt =====
-- How many attempts the limiter keeps for an address.
use landlord_cli.Prelude.{
  ==_refl, Bool, Bool-cases, List, String, [], ap, arith, false, inl, inr, length, length-append,
  ltb, nat_eq, refl, string_eq, suc, ℕ, ◌++◌, ◌-◌, ◌==◌, ◌∷◌, ◌≡◌, ◌≤◌,
}
use landlord_cli.Sql.{select}
use landlord_cli.Web.Limiter.{Attempts, clear_attempts, is_rate_limited, put, recent, record_failed}

length-select-le : (p : ℕ → Bool) (times : List ℕ) → length (select p times) ≤ length times
length-select-le p [] = omega arith
length-select-le p (t ∷ times) = ground (arith, length-select-le p times)

-- At most the limit of attempts are kept for each address.
abbrev pub IsWithin : ℕ → Attempts → Type 0
IsWithin limit a = (ip : String) → length (a ip) ≤ limit

put-IsWithin :
    (limit : ℕ) (ip : String) (times : List ℕ) (a : Attempts)
    → length times ≤ limit
    → IsWithin limit a
    → IsWithin limit (put ip times a)
put-IsWithin limit ip times a le all key = elim (Bool-cases (key == ip)) [
  | inl is ↦ rw is le
  | inr is_not ↦ rw is_not (all key)
]

module _ (limit lockout : ℕ) where
  pub is_rate_limited-IsWithin :
      (ip : String) (now : ℕ) (a : Attempts)
      → IsWithin limit a
      → IsWithin limit (is_rate_limited limit lockout ip now a).1
  unfolding is_rate_limited
  is_rate_limited-IsWithin ip now a all =
      let fewer = length-select-le (λ t. ltb (now - t) lockout) (a ip) in
      let le = all ip in put-IsWithin limit ip (recent lockout now (a ip)) a (omega arith) all

  pub record_failed-IsWithin :
      (ip : String) (now later : ℕ) (a : Attempts)
      → (is_rate_limited limit lockout ip now a).0 ≡ false
      → IsWithin limit a
      → IsWithin limit (record_failed lockout ip later (is_rate_limited limit lockout ip now a).1)
  unfolding is_rate_limited record_failed
  record_failed-IsWithin ip now later a under all =
      let times = recent lockout now (a ip) in
      let kept = put ip times a in
      let again = recent lockout later (kept ip) in
      let fewer = length-select-le (λ t. ltb (later - t) lockout) (kept ip) in
      let is : kept ip ≡ times = rw (==_refl ip) refl in
      let less : suc (length times) ≤ limit = ground arith in
      let sum = length-append again (later ∷ []) in
      let same = ap length is in
      put-IsWithin limit ip (again ++ later ∷ []) kept (omega arith)
        (is_rate_limited-IsWithin ip now a all)

  pub clear_attempts-IsWithin :
      (ip : String) (a : Attempts) → IsWithin limit a → IsWithin limit (clear_attempts ip a)
  unfolding clear_attempts
  clear_attempts-IsWithin ip a all = put-IsWithin limit ip [] a (omega arith) all
