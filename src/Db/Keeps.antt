-- ===== src/Db/Keeps.antt =====
-- A call keeps a property of the database, whether it returns or raises: one rule for each way to
-- build a call.
use landlord_cli.Prelude.{Bool, Option, none, refl, some, ◌≡◌}
use landlord_cli.Errors.{Error, Result, err, ok}
use landlord_cli.Db.{Db, M, execute, gets, lift, or_raise, pure, raise, raise_if, ◌>>=◌}

pub record Keeps {A : Type 0} (P : Db → Type 0) (m : M A) : Type 0 where
  pub at : (db : Db) → P db → P (m db).1

module _ {P : Db → Type 0} where
  -- a call whose outcome the rest of the block may use
  pub Keeps-bind_lift :
      {A B : Type 0} (r : Db → Result A) (f : A → M B)
      → ((db : Db) (a : A) → r db ≡ ok a → P db → P (f a db).1)
      → Keeps P ((λ db. lift (r db) db) >>= f)
  Keeps-bind_lift {A} {B} r f kf = record { at = λ db h. go db h (r db) refl }
    where
      go :
          (db : Db)
          → P db
          → (x : Result A) → r db ≡ x
          → P (elim x as (λ _. Result B × Db) [ ok a ↦ f a db | err e ↦ (err e, db) ]).1
      go db h (ok a) e = kf db a e h
      go db h (err x) e = h

  pub Keeps-bind :
      {A B : Type 0} (m : M A) (f : A → M B)
      → Keeps P m
      → ((a : A) → Keeps P (f a))
      → Keeps P (m >>= f)
  Keeps-bind {A} {B} m f km kf = record { at = λ db h. go db (m db).0 (km.at db h) }
    where
      go :
          (db : Db) (r : Result A)
          → P (m db).1
          → P (elim r as (λ _. Result B × Db) [ ok a ↦ f a (m db).1 | err e ↦ (err e, (m db).1) ]).1
      go db (ok a) k = (kf a).at (m db).1 k
      go db (err e) k = k

  pub Keeps-or_raise : {A : Type 0} (o : Option A) (e : Error) → Keeps P (or_raise o e)
  Keeps-or_raise none e = record { at = λ db h. h }
  Keeps-or_raise (some a) e = record { at = λ db h. h }

  pub Keeps-lift : {A : Type 0} (r : Result A) → Keeps P (lift r)
  Keeps-lift r = record { at = λ db h. h }

  pub Keeps-gets : {A : Type 0} (f : Db → A) → Keeps P (gets f)
  Keeps-gets f = record { at = λ db h. h }

  pub Keeps-pure : {A : Type 0} (a : A) → Keeps P (pure a)
  Keeps-pure a = record { at = λ db h. h }

  pub Keeps-raise : {A : Type 0} (e : Error) → Keeps P (raise {A = A} e)
  Keeps-raise e = record { at = λ db h. h }

  pub Keeps-raise_if : (c : Bool) (e : Error) → Keeps P (raise_if c e)
  Keeps-raise_if c e = record { at = λ db h. h }

  pub Keeps-execute : (f : Db → Db) → ((db : Db) → P db → P (f db)) → Keeps P (execute f)
  Keeps-execute f k = record { at = k }

  -- a call that only its reading of the database decides
  pub Keeps-read :
      {A B : Type 0} (r : Db → Result A) (f : A → M B)
      → ((a : A) → Keeps P (f a))
      → Keeps P ((λ db. lift (r db) db) >>= f)
  Keeps-read r f kf = Keeps-bind_lift r f (λ db a e h. (kf a).at db h)

pub ruleset keeps_rules = (
  Keeps-bind, Keeps-read, Keeps-or_raise, Keeps-lift, Keeps-gets, Keeps-pure, Keeps-raise,
  Keeps-raise_if,
)
