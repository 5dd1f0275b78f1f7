-- ===== src/Theme/Owner.antt =====
-- The theme of an owner, after it has been created or changed.
-- what a theme looks like
use landlord_cli.Prelude.{
  ==_refl, Bool, List, Option, Option-cases, String, [], ap, arith, inl, inr, nat_eq, none, refl,
  some, string_eq, ℕ, ◌++◌, ◌==◌, ◌∙◌, ◌∷◌, ◌≡◌,
}
use landlord_cli.Sql.{
  IsUnique, find, find-append, find-key, find-update_where, insert_row, update_where,
}
use landlord_cli.Errors.{Result, ok}
use landlord_cli.Models.{Billing, Theme, ThemeRow}
use landlord_cli.Db.{>>=-ok, Db, gets}
use landlord_cli.Theme.{
  Style, create, create_or_update_theme, get_by_id, get_by_owner, insert_theme, is_owned_by,
  new_theme, plain_theme, resolve_theme_for_billing, rewritten, row_to_theme, set_style, set_styles,
  update,
}

abbrev pub look : Theme → List String
look t =
    t.name ∷ t.header_font ∷ t.text_font ∷ t.primary ∷ t.primary_light ∷ t.secondary
    ∷ t.secondary_dark ∷ t.text_color ∷ t.text_contrast ∷ []

set_style-owner :
    (k : Style) (v : String) (t : Theme)
    → ((set_style k v t).owner_type ≡ t.owner_type)
      × ((set_style k v t).owner_id ≡ t.owner_id)
      × ((set_style k v t).id ≡ t.id)
set_style-owner Style.name v t = (refl, refl, refl)
set_style-owner Style.header_font v t = (refl, refl, refl)
set_style-owner Style.text_font v t = (refl, refl, refl)
set_style-owner Style.primary v t = (refl, refl, refl)
set_style-owner Style.primary_light v t = (refl, refl, refl)
set_style-owner Style.secondary v t = (refl, refl, refl)
set_style-owner Style.secondary_dark v t = (refl, refl, refl)
set_style-owner Style.text_color v t = (refl, refl, refl)
set_style-owner Style.text_contrast v t = (refl, refl, refl)

set_styles-owner :
    (fields : List (Style × String)) (t : Theme)
    → ((set_styles fields t).owner_type ≡ t.owner_type)
      × ((set_styles fields t).owner_id ≡ t.owner_id)
      × ((set_styles fields t).id ≡ t.id)
set_styles-owner [] t = (refl, refl, refl)
set_styles-owner ((k, v) ∷ fields) t =
    let rest = set_styles-owner fields (set_style k v t) in
    let one = set_style-owner k v t in (rest.0 ∙ one.0, rest.1 ∙ one.1, rest.2 ∙ one.2)

-- The theme that is changed: the owner's, or a plain one.
abbrev pub base_theme : String → ℕ → Db → Theme
base_theme owner_type owner_id db = elim (get_by_owner owner_type owner_id db) [
  | some existing ↦ existing
  | none ↦ plain_theme owner_type owner_id
]

create_lem :
    (theme : Theme) (owner_type : String) (owner_id : ℕ) (uuid : String) (now : ℕ) (db : Db)
    → find (is_owned_by owner_type owner_id) db.themes.rows ≡ none
    → theme.owner_type ≡ owner_type
    → theme.owner_id ≡ owner_id
    → let made = row_to_theme (new_theme theme uuid now db.themes.next) in
      let (r, db') = create theme uuid now db in
      (r ≡ ok (some made)) × (get_by_owner owner_type owner_id db' ≡ some made)
unfolding create get_by_owner
create_lem theme owner_type owner_id uuid now db absent same_type same_id =
    let row = new_theme theme uuid now db.themes.next in
    let q = is_owned_by theme.owner_type theme.owner_id in
    let free : find q db.themes.rows ≡ none = rw (same_type, same_id) absent in
    let new = find-append q db.themes.rows (row ∷ []) in
    let own = ==_refl theme.owner_type in
    let own_id = ==_refl theme.owner_id in
    let step : find q (db.themes.rows ++ row ∷ []) ≡ some row =
      ground (arith, free, new, own, own_id) in
    let after : Db = record db { themes = insert_row (new_theme theme uuid now) db.themes } in
    let inserted : insert_theme theme uuid now db ≡ (ok tt, after) = rw free refl in
    let made =
      >>=-ok (insert_theme theme uuid now)
        (λ _. gets (get_by_owner theme.owner_type theme.owner_id)) {a = tt} {db = db} {db' = after}
        inserted in
    let there : get_by_owner theme.owner_type theme.owner_id after ≡ some (row_to_theme row) =
      rw step refl in
    (
      ap (λ p. p.0) made ∙ ap (λ o. ok o) there,
      ap (λ (p : Result (Option Theme) × Db). get_by_owner owner_type owner_id p.1) made
          ∙ rw (← same_type, ← same_id) there,
    )

update_lem :
    (theme : Theme) (row : ThemeRow) (owner_type : String) (owner_id now : ℕ) (db : Db)
    → IsUnique (λ r. r.id) db.themes.rows
    → find (is_owned_by owner_type owner_id) db.themes.rows ≡ some row
    → theme.id ≡ some row.id
    → let made = row_to_theme (rewritten theme now row) in
      let (r, db') = update theme now db in
      (r ≡ ok (some made)) × (get_by_owner owner_type owner_id db' ≡ some made)
unfolding update get_by_id get_by_owner
update_lem theme row owner_type owner_id now db unique found has_id =
    let q = is_owned_by owner_type owner_id in
    let f = rewritten theme now in
    let p : ThemeRow → Bool = λ r. r.id == row.id in
    let by_id : find p db.themes.rows ≡ some row =
      find-key (λ r. r.id) q db.themes.rows row unique found in
    let same = ==_refl row.id in
    let left : find p (update_where p f db.themes.rows) ≡ some (f row) =
      ground (arith, by_id, same, find-update_where p p f (λ r. refl) db.themes.rows) in
    let own : find q (update_where p f db.themes.rows) ≡ some (f row) =
      ground (arith, found, same, find-update_where q p f (λ r. refl) db.themes.rows) in
    (ground (arith, has_id, left), ground (arith, has_id, left, own))

-- In a table whose ids are distinct, `create_or_update_theme` returns the theme that is then the
-- owner's: it looks as the fields given set it, over what the owner had before or a plain theme.
pub create_or_update_theme-get_by_owner :
    (owner_type : String) (owner_id : ℕ) (fields : List (Style × String)) (uuid : String) (now : ℕ)
    (db : Db)
    → IsUnique (λ r. r.id) db.themes.rows
    → let (r, db') = create_or_update_theme owner_type owner_id fields uuid now db in
      (t : Theme) × (r ≡ ok (some t))
      × (get_by_owner owner_type owner_id db' ≡ some t)
      × (look t ≡ look (set_styles fields (base_theme owner_type owner_id db)))
unfolding create_or_update_theme
create_or_update_theme-get_by_owner owner_type owner_id fields uuid now db unique =
    elim (Option-cases (find (is_owned_by owner_type owner_id) db.themes.rows)) [
      | inl absent ↦
          let theme = set_styles fields (plain_theme owner_type owner_id) in
          let none_there : get_by_owner owner_type owner_id db ≡ none =
            unfold get_by_owner in rw absent refl in
          let kept = set_styles-owner fields (plain_theme owner_type owner_id) in
          let made = create_lem theme owner_type owner_id uuid now db absent kept.0 kept.1 in
          let step : create_or_update_theme owner_type owner_id fields uuid now db
              ≡ create theme uuid now db =
            rw (create_or_update_theme, none_there) refl in
          let base : plain_theme owner_type owner_id ≡ base_theme owner_type owner_id db =
            rw (base_theme, none_there) refl in
          rw step (
            row_to_theme (new_theme theme uuid now db.themes.next),
            made.0,
            made.1,
            ap (λ t. look (set_styles fields t)) base,
          )
      | inr (row, found) ↦
          let existing = row_to_theme row in
          let there : get_by_owner owner_type owner_id db ≡ some existing =
            unfold get_by_owner in rw found refl in
          let theme = set_styles fields existing in
          let made =
            update_lem theme row owner_type owner_id now db unique found
              (set_styles-owner fields existing).2 in
          let step : create_or_update_theme owner_type owner_id fields uuid now db
              ≡ update theme now db =
            rw (create_or_update_theme, there) refl in
          let base : existing ≡ base_theme owner_type owner_id db = rw (base_theme, there) refl in
          rw step (
            row_to_theme (rewritten theme now row),
            made.0,
            made.1,
            ap (λ t. look (set_styles fields t)) base,
          )
    ]

-- In a table whose ids are distinct, the theme that is set for a billing is the one that the bills of
-- the billing are then rendered with.
pub create_or_update_theme-resolve :
    (billing : Billing) (id : ℕ) (fields : List (Style × String)) (uuid : String) (now : ℕ)
    (db : Db)
    → IsUnique (λ r. r.id) db.themes.rows
    → billing.id ≡ some id
    → let (r, db') = create_or_update_theme "billing" id fields uuid now db in
      look (resolve_theme_for_billing billing db')
      ≡ look (set_styles fields (base_theme "billing" id db))
unfolding resolve_theme_for_billing
create_or_update_theme-resolve billing id fields uuid now db unique has_id =
    let (t, _, stored, same) =
      create_or_update_theme-get_by_owner "billing" id fields uuid now db unique in
    let db' = (create_or_update_theme "billing" id fields uuid now db).1 in
    let shown : resolve_theme_for_billing billing db' ≡ t =
      rw (resolve_theme_for_billing, has_id, stored) refl in
    ap look shown ∙ same
