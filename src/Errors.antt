-- ===== src/Errors.antt =====
-- Python exceptions as values: the outcome of a call that may raise.
use Prim.Native.String.{◌++◌ as append, [] as nil}
use landlord_cli.Prelude.{Bool, List, String, [], false, inl, inr, refl, true, ◌∷◌, ◌≡◌, ◌⊎◌}

pub data Error : Type 0 where
  value_error : String → Error
  runtime_error : String → Error
  -- sqlalchemy.exc.IntegrityError: a UNIQUE or FOREIGN KEY constraint refuses an INSERT
  integrity_error : Error
  type_error : String → Error
  overflow_error : String → Error

pub data Result {ℓ} (A : Type ℓ) : Type ℓ where
  ok : A → Result A
  err : Error → Result A

-- An f-string, from its parts.
abbrev pub format : List String → String
format [] = nil
format (s ∷ rest) = append s (format rest)

pub Result-cases {ℓ} :
    {A : Type ℓ} (r : Result A) → ((a : A) × (r ≡ ok a)) ⊎ ((e : Error) × (r ≡ err e))
Result-cases (ok a) = inl (a, refl)
Result-cases (err e) = inr (e, refl)

abbrev pub is_ok : {A : Type 0} → Result A → Bool
is_ok (ok a) = true
is_ok (err e) = false

module _ {A B : Type 0} where
  -- The rest of a computation on values, after what may raise.
  abbrev pub and_then : Result A → (A → Result B) → Result B
  and_then (ok a) f = f a
  and_then (err e) f = err e

  abbrev pub map_ok : (A → B) → Result A → Result B
  map_ok f (ok a) = ok (f a)
  map_ok f (err e) = err e
