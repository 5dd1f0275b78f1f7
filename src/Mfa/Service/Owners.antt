-- ===== src/Mfa/Service/Owners.antt =====
-- Whose passkeys a user may delete.
use landlord_cli.Prelude.{
  All, All-mono, Bool, Bool-cases, List, Option-cases, String, [], ap, arith, false, inl, inr,
  nat_eq, refl, some, string_eq, sym, ℕ, ◌==◌, ◌∙◌, ◌∷◌, ◌≡◌, ◌≢◌,
}
use landlord_cli.Sql.{IsUnique, delete_where, find, find-key, select}
use landlord_cli.Models.{UserPasskey}
use landlord_cli.Db.{Db}
use landlord_cli.Mfa.Passkeys.{delete, get_by_uuid, list_by_user}
use landlord_cli.Mfa.Service.{delete_passkey}

delete_where_absent :
    (k : ℕ) (rows : List UserPasskey)
    → All (λ r. r.id ≢ k) rows
    → delete_where (λ r. r.id == k) rows ≡ rows
delete_where_absent k [] a = refl
delete_where_absent k (r ∷ rs) a = ground (arith, a.0, delete_where_absent k rs a.1)

select-delete_where_key :
    (q : UserPasskey → Bool) (p : UserPasskey) (rows : List UserPasskey)
    → IsUnique (λ r. r.id) rows
    → find (λ r. r.id == p.id) rows ≡ some p
    → q p ≡ false
    → select q (delete_where (λ r. r.id == p.id) rows) ≡ select q rows
select-delete_where_key q p [] u f h = refl
select-delete_where_key q p (r ∷ rs) u f h = elim (Bool-cases (r.id == p.id)) [
  | inl t ↦
      let is_p : r ≡ p = ground (arith, t, f) in
      let same : r.id ≡ p.id = ground (arith, t) in
      let rest : delete_where (λ y. y.id == p.id) rs ≡ rs =
        delete_where_absent p.id rs (All-mono _ _ (λ y ne e. ne (e ∙ sym same)) rs u.0) in
      let out : q r ≡ false = ap q is_p ∙ h in ground (arith, t, rest, out)
  | inr t ↦ ground (arith, t, select-delete_where_key q p rs u.1 (ground (arith, t, f)) h)
]

-- Whatever passkey a user asks to delete, in a table whose ids are distinct, the passkeys of any other
-- user are as before.
pub delete_passkey-list_by_user :
    (uuid : String) (user_id other : ℕ) (db : Db)
    → IsUnique (λ p. p.id) db.user_passkeys.rows
    → other ≢ user_id
    → list_by_user other (delete_passkey uuid user_id db).1 ≡ list_by_user other db
unfolding delete_passkey get_by_uuid delete list_by_user
delete_passkey-list_by_user uuid user_id other db u ne =
    let rows = db.user_passkeys.rows in
    elim (Option-cases (find (λ p. p.uuid == uuid) rows)) [
      | inl absent ↦ ground (arith, absent)
      | inr (p, found) ↦ elim (Bool-cases (p.user_id == user_id)) [
        | inr theirs ↦ ground (arith, found, theirs)
        | inl own ↦
            let key = find-key (λ p. p.id) (λ p. p.uuid == uuid) rows p u found in
            let out : (p.user_id == other) ≡ false = ground (arith, own, ne) in
            let left = select-delete_where_key (λ p. p.user_id == other) p rows u key out in
            ground (arith, found, own, left)
      ]
    ]
