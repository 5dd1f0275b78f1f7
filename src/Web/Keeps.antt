-- ===== src/Web/Keeps.antt =====
-- A handler keeps a property of the database, whether it returns or raises: one rule for each way to
-- build a handler.
use landlord_cli.Prelude.{Bool, Option, String, false, inl, inr, none, some, subst, sym, true, ◌⊎◌}
use landlord_cli.Errors.{Result, err, ok}
use landlord_cli.Web.{
  Session, W, Web, call, caught, choose, log, pure, query, set_session, try_call, with_some, ◌>>=◌,
}
use landlord_cli.Audit.{Entry, Stamp}
use landlord_cli.Audit.Log.{appended, safe_log_lem}
use landlord_cli.Db.Keeps.{Keeps}
use landlord_cli.Db.{Db, M}

pub record WebKeeps {A : Type 0} (P : Db → Type 0) (m : W A) : Type 0 where
  pub at : (w : Web) → P w.db → P (m w).1.db

module _ {P : Db → Type 0} where
  pub WebKeeps-bind :
      {A B : Type 0} (m : W A) (f : A → W B)
      → WebKeeps P m
      → ((a : A) → WebKeeps P (f a))
      → WebKeeps P (m >>= f)
  WebKeeps-bind {A} {B} m f km kf = record { at = λ w h. go w (m w).0 (km.at w h) }
    where
      go :
          (w : Web) (r : Result A)
          → P (m w).1.db
          → P
              (elim r as (λ _. Result B × Web) [
                | ok a ↦ f a (m w).1
                | err e ↦ (err e, (m w).1)
              ]).1.db
      go w (ok a) k = (kf a).at (m w).1 k
      go w (err e) k = k

  pub WebKeeps-pure : {A : Type 0} (a : A) → WebKeeps P (pure a)
  WebKeeps-pure a = record { at = λ w h. h }

  pub WebKeeps-query : {A : Type 0} (f : Web → A) → WebKeeps P (query f)
  WebKeeps-query f = record { at = λ w h. h }

  pub WebKeeps-set_session : (f : Session → Session) → WebKeeps P (set_session f)
  WebKeeps-set_session f = record { at = λ w h. h }

  pub WebKeeps-call : {A : Type 0} (m : M A) → Keeps P m → WebKeeps P (call m)
  WebKeeps-call m k = record { at = λ w h. k.at w.db h }

  pub WebKeeps-try_call : {A : Type 0} (m : M A) → Keeps P m → WebKeeps P (try_call m)
  WebKeeps-try_call m k = record { at = λ w h. k.at w.db h }

  pub WebKeeps-choose :
      {A : Type 0} (c : Bool) (m k : W A) → WebKeeps P m → WebKeeps P k → WebKeeps P (choose c m k)
  WebKeeps-choose true m k km kk = record { at = λ w h. km.at w h }
  WebKeeps-choose false m k km kk = record { at = λ w h. kk.at w h }

  pub WebKeeps-with_some :
      {A B : Type 0} (o : Option B) (m : W A) (k : B → W A)
      → WebKeeps P m
      → ((x : B) → WebKeeps P (k x))
      → WebKeeps P (with_some o m k)
  WebKeeps-with_some none m k km kk = record { at = λ w h. km.at w h }
  WebKeeps-with_some (some x) m k km kk = record { at = λ w h. (kk x).at w h }

  pub WebKeeps-caught :
      {A B : Type 0} (r : String ⊎ B) (f : String → W A) (g : B → W A)
      → ((e : String) → WebKeeps P (f e))
      → ((x : B) → WebKeeps P (g x))
      → WebKeeps P (caught r f g)
  WebKeeps-caught (inl e) f g kf kg = record { at = λ w h. (kf e).at w h }
  WebKeeps-caught (inr x) f g kf kg = record { at = λ w h. (kg x).at w h }

-- A property that does not look at the log is kept when an event is logged.
pub WebKeeps-log :
    {P : Db → Type 0} (e : Entry) (stamp : Stamp)
    → ((db : Db) → P db → P (appended e stamp db))
    → WebKeeps P (log e stamp)
WebKeeps-log {P} e stamp k = record {
  at = λ w h. elim (safe_log_lem e stamp w.db) [
    | inl (taken, step) ↦ subst (λ p. P p.1) (sym step) h
    | inr (free, step) ↦ subst (λ p. P p.1) (sym step) (k w.db h)
  ];
}

pub ruleset web_rules = (
  WebKeeps-bind, WebKeeps-pure, WebKeeps-query, WebKeeps-set_session, WebKeeps-call,
  WebKeeps-try_call, WebKeeps-choose, WebKeeps-with_some, WebKeeps-caught,
)
