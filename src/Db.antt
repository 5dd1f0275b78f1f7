-- ===== src/Db.antt =====
-- The database behind the repositories, a record of tables, with the files of the storage backend by
-- their keys; and the calls that read and write it.
pub mod Keeps
use landlord_cli.Prelude.{
  Bool, List, Option, String, ap, if◌then◌else◌, is_some, nat_eq, none, some, string_eq, ℕ, ◌==◌,
  ◌≡◌,
}
use landlord_cli.Sql.{Table, find}
use landlord_cli.Errors.{Error, Result, err, ok}
use landlord_cli.Models.{
  AuditLog, BillRow, BillingRow, InviteRow, ItemRow, LineRow, MemberRow, Organization, ReceiptRow,
  RecoveryCode, ThemeRow, User, UserPasskey, UserTotp,
}

pub record Db : Type 0 where
  pub users : Table User
  pub organizations : Table Organization
  pub organization_members : Table MemberRow
  pub invites : Table InviteRow
  pub billings : Table BillingRow
  pub billing_items : Table ItemRow
  pub bills : Table BillRow
  pub bill_line_items : Table LineRow
  pub receipts : Table ReceiptRow
  pub user_totp : Table UserTotp
  pub user_recovery_codes : Table RecoveryCode
  pub user_passkeys : Table UserPasskey
  pub audit_logs : Table AuditLog
  pub themes : Table ThemeRow
  pub files : List (String × List ℕ)

-- A call: what was committed before it raises stays committed.
abbrev pub M : Type 0 → Type 0
M A = Db → Result A × Db

module _ {A : Type 0} where
  abbrev pub pure : A → M A
  pure a db = (ok a, db)

  abbrev pub raise : Error → M A
  raise e db = (err e, db)

  -- a SELECT
  abbrev pub gets : (Db → A) → M A
  gets f db = (ok (f db), db)

-- a statement that is committed
abbrev pub execute : (Db → Db) → M (Unit {0})
execute f db = (ok tt, f db)

infixl 5 ◌>>=◌ ◌>>◌
abbrev pub ◌>>=◌ : {A B : Type 0} → M A → (A → M B) → M B
◌>>=◌ m f db = let (r, db') = m db in elim r [ ok a ↦ f a db' | err e ↦ (err e, db') ]

abbrev pub ◌>>◌ : {A B : Type 0} → M A → M B → M B
m >> k = m >>= λ _. k

-- a call that may raise and writes nothing
abbrev pub lift : {A : Type 0} → Result A → M A
lift r db = (r, db)

-- The rest of a block after a call that returned.
pub >>=-ok :
    {A B : Type 0} (m : M A) (f : A → M B) {a : A} {db db' : Db}
    → m db ≡ (ok a, db')
    → (m >>= f) db ≡ f a db'
>>=-ok {A} m f {db = db} e = ap (λ (p : Result A × Db). ◌>>=◌ (λ _. p) f db) e

-- `if x is None: raise e`
abbrev pub or_raise : {A : Type 0} → Option A → Error → M A
or_raise none e = raise e
or_raise (some a) e = pure a

-- `if c: raise e`
abbrev pub raise_if : Bool → Error → M (Unit {0})
raise_if c e db = (if c then err e else ok tt, db)

-- `if c: m`
abbrev pub when : Bool → M (Unit {0}) → M (Unit {0})
when c m db = if c then m db else (ok tt, db)

-- The keys that a table refers to: is there a row with this id?
abbrev pub has_user : Db → ℕ → Bool
has_user db id = is_some (find (λ u. u.id == id) db.users.rows)

abbrev pub has_organization : Db → ℕ → Bool
has_organization db id = is_some (find (λ o. o.id == id) db.organizations.rows)
