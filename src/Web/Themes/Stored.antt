-- ===== src/Web/Themes/Stored.antt =====
-- Which themes are stored, whatever the forms give.
use mathlib.Core.Option
use landlord_cli.Prelude.{
  All, All-append, Bool-cases, Option-cases, String, [], ap, arith, false, inl, inr, is_some,
  nat_eq, not, refl, some, some-injective, string_eq, subst, sym, true, ℕ, ◌==◌, ◌∙◌, ◌∷◌, ◌≡◌, ◌⊎◌,
}
use landlord_cli.Sql.{All-select, All-update_where, All_of_find, find, update_where}
use landlord_cli.Errors.{ok}
use landlord_cli.Models.{Billing, Theme}
use landlord_cli.Db.{Db, execute, pure, ◌>>◌}
use landlord_cli.Theme.{
  Style, create, create_or_update_theme, default_theme, delete, delete_theme, get_by_owner,
  insert_theme, is_owned_by, new_theme, plain_theme, positive_id, resolve_theme_for_billing,
  rewritten, row_to_theme, set_styles, update,
}
use landlord_cli.Web.Themes.{parse_theme_fields, theme_fields}
use landlord_cli.Web.Themes.Styled.{IsStyled, default-IsStyled, parse_fields-IsStyled}
use landlord_cli.Db.Keeps.{Keeps, keeps_rules}

abbrev pub AllStyled : Db → Type 0
AllStyled db = All (λ r. IsStyled r.theme) db.themes.rows

insert_theme-AllStyled :
    (t : Theme) (uuid : String) (now : ℕ) → IsStyled t → Keeps AllStyled (insert_theme t uuid now)
insert_theme-AllStyled t uuid now styled = record {
  at = λ db h.
      elim (Bool-cases (is_some (find (is_owned_by t.owner_type t.owner_id) db.themes.rows))) [
        | inl taken ↦ rw taken h
        | inr free ↦ rw free (
            All-append (λ r. IsStyled r.theme) db.themes.rows
              (new_theme t uuid now db.themes.next ∷ []) h (styled, tt))
      ];
}

create-AllStyled :
    (t : Theme) (uuid : String) (now : ℕ) → IsStyled t → Keeps AllStyled (create t uuid now)
unfolding create
create-AllStyled t uuid now styled = search (keeps_rules, insert_theme-AllStyled t uuid now styled)

rewrite-AllStyled :
    (t : Theme) (id now : ℕ)
    → IsStyled t
    → Keeps AllStyled (
        execute λ db. record db {
          themes = record db.themes {
            rows = update_where (λ r. r.id == id) (rewritten t now) db.themes.rows;
          };
        })
rewrite-AllStyled t id now styled = record {
  at = λ db h.
      All-update_where (λ r. IsStyled r.theme) (λ r. r.id == id) (rewritten t now) (λ r k. styled)
        db.themes.rows h;
}

update-AllStyled : (t : Theme) (now : ℕ) → IsStyled t → Keeps AllStyled (update t now)
unfolding update
update-AllStyled t now styled =
    let rewrite : (id : ℕ) → _ = λ id. rewrite-AllStyled t id now styled in
    search (keeps_rules, rewrite) depth 20

owner-IsStyled :
    (owner_type : String) (owner_id : ℕ) (db : Db) {t : Theme}
    → AllStyled db
    → get_by_owner owner_type owner_id db ≡ some t
    → IsStyled t
unfolding get_by_owner
owner-IsStyled owner_type owner_id db {t} h found =
    elim (Option-cases (find (is_owned_by owner_type owner_id) db.themes.rows)) [
      | inl absent ↦ absurd (ground (arith, absent, found))
      | inr (row, there) ↦
          let stored : IsStyled row.theme =
            All_of_find (λ r. IsStyled r.theme) (is_owned_by owner_type owner_id) db.themes.rows h
              there in
          let same : row_to_theme row ≡ t =
            some-injective (sym (ap (Option.map row_to_theme) there) ∙ found) in
          subst IsStyled same stored
    ]

pub create_or_update_theme-AllStyled :
    (owner_type : String) (owner_id : ℕ) (form : Style → String) (uuid : String) (now : ℕ)
    → Keeps AllStyled
        (create_or_update_theme owner_type owner_id (parse_theme_fields form) uuid now)
unfolding create_or_update_theme
create_or_update_theme-AllStyled owner_type owner_id form uuid now =
    let fields = parse_theme_fields form in
    let plain = plain_theme owner_type owner_id in
    record {
      at = λ db h. elim (Option-cases (get_by_owner owner_type owner_id db)) [
        | inl absent ↦
            let step : create_or_update_theme owner_type owner_id fields uuid now db
                ≡ create (set_styles fields plain) uuid now db =
              rw (create_or_update_theme, absent) refl in
            let styled = parse_fields-IsStyled theme_fields form plain default-IsStyled in
            subst (λ p. AllStyled p.1) (sym step)
              ((create-AllStyled (set_styles fields plain) uuid now styled).at db h)
        | inr (existing, found) ↦
            let step : create_or_update_theme owner_type owner_id fields uuid now db
                ≡ update (set_styles fields existing) now db =
              rw (create_or_update_theme, found) refl in
            let styled =
              parse_fields-IsStyled theme_fields form existing
                (owner-IsStyled owner_type owner_id db h found) in
            subst (λ p. AllStyled p.1) (sym step)
              ((update-AllStyled (set_styles fields existing) now styled).at db h)
      ];
    }

pub delete_theme-AllStyled :
    (owner_type : String) (owner_id : ℕ) → Keeps AllStyled (delete_theme owner_type owner_id)
unfolding delete_theme delete
delete_theme-AllStyled owner_type owner_id = record {
  at = λ db h. elim (Option-cases (positive_id (get_by_owner owner_type owner_id db))) [
    | inl absent ↦
        let step : delete_theme owner_type owner_id db ≡ (ok false, db) =
          rw (delete_theme, absent) refl in
        subst (λ p. AllStyled p.1) (sym step) h
    | inr (id, found) ↦
        let step : delete_theme owner_type owner_id db ≡ (delete id >> pure true) db =
          rw (delete_theme, found) refl in
        subst (λ p. AllStyled p.1) (sym step)
          (All-select (λ r. IsStyled r.theme) (λ r. not (r.id == id)) db.themes.rows h)
  ];
}

-- The theme of a billing is the default one or is stored for an owner.
resolve_theme_cases :
    (billing : Billing) (db : Db)
    → (resolve_theme_for_billing billing db ≡ default_theme)
      ⊎ ((owner_type : String) × (owner_id : ℕ) × (t : Theme) × (get_by_owner owner_type owner_id db
            ≡ some t)
          × (resolve_theme_for_billing billing db ≡ t))
unfolding resolve_theme_for_billing
resolve_theme_cases billing db =
    let owner = get_by_owner billing.owner_type billing.owner_id db in
    elim (Option-cases billing.id) [
      | inl no_id ↦ elim (Option-cases owner) [
        | inl absent ↦ inl (rw (resolve_theme_for_billing, no_id, absent) refl)
        | inr (t, found) ↦ inr (
          billing.owner_type,
          billing.owner_id,
          t,
          found,
          rw (resolve_theme_for_billing, no_id, found) refl,
        )
      ]
      | inr (id, is) ↦ elim (Option-cases (get_by_owner "billing" id db)) [
        | inl none_own ↦ elim (Option-cases owner) [
          | inl absent ↦ inl (rw (resolve_theme_for_billing, is, none_own, absent) refl)
          | inr (t, found) ↦ inr (
            billing.owner_type,
            billing.owner_id,
            t,
            found,
            rw (resolve_theme_for_billing, is, none_own, found) refl,
          )
        ]
        | inr (t, found) ↦
            inr ("billing", id, t, found, rw (resolve_theme_for_billing, is, found) refl)
      ]
    ]

pub resolve_theme-IsStyled :
    (billing : Billing) (db : Db) → AllStyled db → IsStyled (resolve_theme_for_billing billing db)
resolve_theme-IsStyled billing db h = elim (resolve_theme_cases billing db) [
  | inl plain ↦ subst IsStyled (sym plain) default-IsStyled
  | inr (owner_type, owner_id, t, found, is) ↦
      subst IsStyled (sym is) (owner-IsStyled owner_type owner_id db h found)
]
