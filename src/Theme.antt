-- ===== src/Theme.antt =====
-- rentivo/repositories/sqlalchemy.py, SQLAlchemyThemeRepository, rentivo/models/theme.py and
-- rentivo/services/theme_service.py.
pub mod Owner
use mathlib.Core.Option
use landlord_cli.Prelude.{
  Bool, List, Option, String, [], false, if◌then◌else◌, is_some, map, nat_eq, none, some, string_eq,
  true, ℕ, ◌&&◌, ◌==◌, ◌∷◌,
}
use landlord_cli.Sql.{delete_where, find, insert_row, update_where}
use landlord_cli.Errors.{err, integrity_error, ok, runtime_error, value_error}
use landlord_cli.Models.{Billing, Theme, ThemeRow}
use landlord_cli.Db.{Db, M, execute, gets, or_raise, pure, ◌>>=◌, ◌>>◌}

abbrev pub default_theme : Theme
default_theme = record {
  id = none;
  uuid = "";
  owner_type = "user";
  owner_id = 0;
  name = "Padrão";
  header_font = "Montserrat";
  text_font = "Montserrat";
  primary = "#8A4C94";
  primary_light = "#EEE4F1";
  secondary = "#6EAFAE";
  secondary_dark = "#357B7C";
  text_color = "#282830";
  text_contrast = "#FFFFFF";
  created_at = none;
  updated_at = none;
}

abbrev pub row_to_theme : ThemeRow → Theme
row_to_theme r = record r.theme { id = some r.id }

abbrev pub is_owned_by : String → ℕ → ThemeRow → Bool
is_owned_by owner_type owner_id r = r.theme.owner_type == owner_type && r.theme.owner_id == owner_id

unfoldable pub get_by_id : ℕ → Db → Option Theme
get_by_id theme_id db = Option.map row_to_theme (find (λ r. r.id == theme_id) db.themes.rows)

unfoldable pub get_by_uuid : String → Db → Option Theme
get_by_uuid uuid db = Option.map row_to_theme (find (λ r. r.theme.uuid == uuid) db.themes.rows)

unfoldable pub get_by_owner : String → ℕ → Db → Option Theme
get_by_owner owner_type owner_id db =
    Option.map row_to_theme (find (is_owned_by owner_type owner_id) db.themes.rows)

abbrev pub new_theme : Theme → String → ℕ → ℕ → ThemeRow
new_theme theme uuid now id = record {
  id = id;
  theme = record theme { id = some id; uuid = uuid; created_at = some now; updated_at = some now };
}

-- the INSERT, with the constraint UNIQUE (owner_type, owner_id)
abbrev pub insert_theme : Theme → String → ℕ → M (Unit {0})
insert_theme theme uuid now db =
    if is_some (find (is_owned_by theme.owner_type theme.owner_id) db.themes.rows)
    then (err integrity_error, db)
    else (ok tt, record db { themes = insert_row (new_theme theme uuid now) db.themes })

unfoldable pub create : Theme → String → ℕ → M (Option Theme)
unfolding get_by_owner
create theme uuid now = do
  insert_theme theme uuid now
  gets (get_by_owner theme.owner_type theme.owner_id)

-- the row after the UPDATE of `update`
abbrev pub rewritten : Theme → ℕ → ThemeRow → ThemeRow
rewritten theme now r = record r {
  theme = record r.theme {
    name = theme.name;
    header_font = theme.header_font;
    text_font = theme.text_font;
    primary = theme.primary;
    primary_light = theme.primary_light;
    secondary = theme.secondary;
    secondary_dark = theme.secondary_dark;
    text_color = theme.text_color;
    text_contrast = theme.text_contrast;
    updated_at = some now;
  };
}

-- Without an id the UPDATE finds no row.
unfoldable pub update : Theme → ℕ → M (Option Theme)
unfolding get_by_id
update theme now = do
  theme_id ← or_raise theme.id (value_error "Cannot update theme without an id")
  execute λ db. record db {
    themes = record db.themes {
      rows = update_where (λ r. r.id == theme_id) (rewritten theme now) db.themes.rows;
    };
  }
  found ← gets (get_by_id theme_id)
  result ← or_raise found (runtime_error "Failed to retrieve theme after update")
  pure (some result)

unfoldable pub delete : ℕ → M (Unit {0})
delete theme_id = execute λ db. record db {
  themes = record db.themes { rows = delete_where (λ r. r.id == theme_id) db.themes.rows };
}

-- The fields that a caller may give to `create_or_update_theme`.
pub data Style : Type 0 where
  name header_font text_font primary primary_light secondary secondary_dark text_color
        text_contrast :
      Style

abbrev pub set_style : Style → String → Theme → Theme
set_style Style.name v t = record t { name = v }
set_style Style.header_font v t = record t { header_font = v }
set_style Style.text_font v t = record t { text_font = v }
set_style Style.primary v t = record t { primary = v }
set_style Style.primary_light v t = record t { primary_light = v }
set_style Style.secondary v t = record t { secondary = v }
set_style Style.secondary_dark v t = record t { secondary_dark = v }
set_style Style.text_color v t = record t { text_color = v }
set_style Style.text_contrast v t = record t { text_contrast = v }

-- the loop of `setattr`
abbrev pub set_styles : List (Style × String) → Theme → Theme
set_styles [] t = t
set_styles ((k, v) ∷ fields) t = set_styles fields (set_style k v t)

-- `Theme(owner_type=…, owner_id=…)`, with its defaults
abbrev pub plain_theme : String → ℕ → Theme
plain_theme owner_type owner_id = record default_theme {
  owner_type = owner_type;
  owner_id = owner_id;
  name = "";
}

-- `ThemeService.resolve_theme_for_billing`
unfoldable pub resolve_theme_for_billing : Billing → Db → Theme
unfolding get_by_owner
resolve_theme_for_billing billing db =
    let own : Option Theme = elim billing.id [
      | none ↦ none
      | some id ↦ get_by_owner "billing" id db
    ] in
    elim own [
      | some theme ↦ theme
      | none ↦ elim (get_by_owner billing.owner_type billing.owner_id db) [
        | some theme ↦ theme
        | none ↦ default_theme
      ]
    ]

-- `ThemeService.create_or_update_theme`
unfoldable pub create_or_update_theme :
    String → ℕ → List (Style × String) → String → ℕ → M (Option Theme)
create_or_update_theme owner_type owner_id fields uuid now db =
    elim (get_by_owner owner_type owner_id db) [
      | some existing ↦ update (set_styles fields existing) now db
      | none ↦ create (set_styles fields (plain_theme owner_type owner_id)) uuid now db
    ]

-- `theme and theme.id`: an id of 0 counts as none
abbrev pub positive_id : Option Theme → Option ℕ
positive_id none = none
positive_id (some theme) = elim theme.id [
  | none ↦ none
  | some id ↦ if id == 0 then none else some id
]

-- `ThemeService.delete_theme`
unfoldable pub delete_theme : String → ℕ → M Bool
unfolding get_by_owner delete
delete_theme owner_type owner_id db = elim (positive_id (get_by_owner owner_type owner_id db)) [
  | none ↦ (ok false, db)
  | some id ↦ (delete id >> pure true) db
]
