-- ===== src/Web/Themes.antt =====
-- web/routes/theme.py, the handlers of forms. `user_id` is the signed-in user, whom the middleware asks
-- for; a form gives a text for each field, stripped, and no text for a field that is not there.
pub mod Styled
pub mod Stored
pub mod Forms
use mathlib.Core.Option
use landlord_cli.Billing
use landlord_cli.Prelude.{
  Bool, List, Option, String, [], codes, contains, false, if◌then◌else◌, is_some, leb, length, map,
  nat_eq, none, not, some, string_eq, true, ℕ, ◌&&◌, ◌==◌, ◌||◌, ◌∷◌,
}
use landlord_cli.Errors.{format, runtime_error}
use landlord_cli.Models.{Billing, Theme}
use landlord_cli.Web.{
  Response, W, Web, call, choose, flash_redirect, log, query, web_entry, with_some, ◌>>=◌, ◌>>◌,
}
use landlord_cli.Json.{Json, dict, nat, str}
use landlord_cli.Audit.{Entry, Stamp}
use landlord_cli.Authorization.{can_edit_billing}
use landlord_cli.Web.Bills.Shared.{billing_path}
use landlord_cli.Web.Organizations.{as_admin}
use landlord_cli.Theme.{
  Style, create_or_update_theme, default_theme, delete_theme, get_by_owner, get_by_uuid,
}
use landlord_cli.Db.{or_raise}

abbrev pub available_fonts : List String
available_fonts =
    "Montserrat" ∷ "Roboto" ∷ "Lora" ∷ "Playfair Display" ∷ "Open Sans" ∷ "Source Sans 3"
    ∷ "Merriweather" ∷ "Raleway" ∷ "Oswald" ∷ "Nunito" ∷ []

abbrev pub theme_fields : List Style
theme_fields =
    Style.header_font ∷ Style.text_font ∷ Style.primary ∷ Style.primary_light ∷ Style.secondary
    ∷ Style.secondary_dark ∷ Style.text_color ∷ Style.text_contrast ∷ Style.name ∷ []

abbrev is_hex_digit : ℕ → Bool
is_hex_digit c = leb 48 c && leb c 57 || (leb 65 c && leb c 70 || leb 97 c && leb c 102)

abbrev all_hex : List ℕ → Bool
all_hex [] = true
all_hex (c ∷ cs) = is_hex_digit c && all_hex cs

-- `_HEX_COLOR_RE`, a number sign and six hexadecimal digits, for a text without white space at its end
unfoldable pub is_hex_color : String → Bool
is_hex_color text = elim (codes text) [
  | [] ↦ false
  | c ∷ cs ↦ c == 35 && (length cs == 6 && all_hex cs)
]

pub data Kind : Type 0 where
  a_font a_color a_name : Kind

abbrev pub kind_of : Style → Kind
kind_of Style.header_font = a_font
kind_of Style.text_font = a_font
kind_of Style.name = a_name
kind_of Style.primary = a_color
kind_of Style.primary_light = a_color
kind_of Style.secondary = a_color
kind_of Style.secondary_dark = a_color
kind_of Style.text_color = a_color
kind_of Style.text_contrast = a_color

-- `getattr(theme, key)`
abbrev pub style_of : Style → Theme → String
style_of Style.name t = t.name
style_of Style.header_font t = t.header_font
style_of Style.text_font t = t.text_font
style_of Style.primary t = t.primary
style_of Style.primary_light t = t.primary_light
style_of Style.secondary t = t.secondary
style_of Style.secondary_dark t = t.secondary_dark
style_of Style.text_color t = t.text_color
style_of Style.text_contrast t = t.text_contrast

-- the value that a field is given
abbrev pub checked : Style → String → String
checked key value = elim (kind_of key) [
  | a_font ↦ if contains value available_fonts then value else "Montserrat"
  | a_color ↦ if is_hex_color value then value else style_of key default_theme
  | a_name ↦ value
]

-- `_parse_theme_fields`
abbrev pub parse_fields : List Style → (Style → String) → List (Style × String)
parse_fields [] form = []
parse_fields (key ∷ keys) form =
    let rest = parse_fields keys form in
    if form key == "" then rest else (key, checked key (form key)) ∷ rest

abbrev pub parse_theme_fields : (Style → String) → List (Style × String)
parse_theme_fields form = parse_fields theme_fields form

abbrev serialize_theme : Theme → Json
serialize_theme theme = dict (
    ("uuid", str theme.uuid)
    ∷ ("owner_type", str theme.owner_type)
    ∷ ("owner_id", nat theme.owner_id)
    ∷ ("name", str theme.name)
    ∷ ("header_font", str theme.header_font)
    ∷ ("text_font", str theme.text_font)
    ∷ ("primary", str theme.primary)
    ∷ ("primary_light", str theme.primary_light)
    ∷ ("secondary", str theme.secondary)
    ∷ ("secondary_dark", str theme.secondary_dark)
    ∷ ("text_color", str theme.text_color)
    ∷ ("text_contrast", str theme.text_contrast)
    ∷ [])

abbrev theme_entry : String → ℕ → Option Theme → Web → Entry
theme_entry event_type user_id theme w =
    record (web_entry event_type (some user_id) w.session.username) {
      entity_type = "theme";
      entity_id = elim theme [ none ↦ none | some t ↦ t.id ];
      entity_uuid = elim theme [ none ↦ "" | some t ↦ t.uuid ];
    }

-- What the three handlers that save a theme do, for the owner and with the message and the address. A
-- theme that is not there raises at its first attribute.
unfoldable pub theme_save :
    String → ℕ → (Style → String) → String → String → ℕ → String → ℕ → Stamp → W Response
theme_save owner_type owner_id form message url user_id uuid now stamp = do
  existing ← query (λ w. get_by_owner owner_type owner_id w.db)
  made ← call (create_or_update_theme owner_type owner_id (parse_theme_fields form) uuid now)
  theme ← call (or_raise made (runtime_error "no theme"))
  let event = if is_some existing then "theme.update" else "theme.create"
  entry ← query (theme_entry event user_id (some theme))
  log
      (record entry {
        previous_state = Option.map serialize_theme existing;
        new_state = some (serialize_theme theme);
      })
      stamp
  flash_redirect message "success" url

-- What the three handlers that reset a theme do.
unfoldable pub theme_reset : String → ℕ → String → String → ℕ → Stamp → W Response
theme_reset owner_type owner_id message url user_id stamp = do
  existing ← query (λ w. get_by_owner owner_type owner_id w.db)
  deleted ← call (delete_theme owner_type owner_id)
  choose (not deleted) (flash_redirect "Nenhum tema personalizado para redefinir." "warning" url) do
    entry ← query (theme_entry "theme.delete" user_id existing)
    log (record entry { previous_state = Option.map serialize_theme existing }) stamp
    flash_redirect message "success" url

unfoldable pub user_theme_save : (Style → String) → ℕ → String → ℕ → Stamp → W Response
unfolding theme_save
user_theme_save form user_id uuid now stamp =
    theme_save "user" user_id form "Tema salvo com sucesso!" "/themes/user" user_id uuid now stamp

unfoldable pub user_theme_delete : ℕ → Stamp → W Response
user_theme_delete user_id stamp =
    theme_reset "user" user_id "Tema redefinido para o padrão." "/themes/user" user_id stamp

abbrev org_theme_path : String → String
org_theme_path org_uuid = format ("/themes/organization/" ∷ org_uuid ∷ [])

-- `_check_org_admin` is `as_admin`
unfoldable pub org_theme_save : String → (Style → String) → ℕ → String → ℕ → Stamp → W Response
org_theme_save org_uuid form user_id uuid now stamp = as_admin org_uuid user_id λ org.
    theme_save "organization" org.id form "Tema da organização salvo com sucesso!"
      (org_theme_path org_uuid) user_id uuid now stamp

unfoldable pub org_theme_delete : String → ℕ → Stamp → W Response
org_theme_delete org_uuid user_id stamp = as_admin org_uuid user_id λ org.
    theme_reset "organization" org.id "Tema da organização redefinido para o padrão."
      (org_theme_path org_uuid) user_id stamp

-- `_check_billing_access`; a stored billing has an id
unfoldable pub check_billing_access : String → ℕ → (ℕ → W Response) → W Response
check_billing_access billing_uuid user_id k = do
  found ← query (λ w. Billing.get_by_uuid billing_uuid w.db)
  with_some found (flash_redirect "Cobrança não encontrada." "danger" "/billings/") λ billing. do
    allowed ← query (λ w. can_edit_billing (some w.db) user_id billing)
    choose (not allowed) (flash_redirect "Acesso negado." "danger" (billing_path billing_uuid))
        do id ← call (or_raise billing.id (runtime_error "no id")); k id

abbrev billing_theme_path : String → String
billing_theme_path billing_uuid = format ("/themes/billing/" ∷ billing_uuid ∷ [])

unfoldable pub billing_theme_save : String → (Style → String) → ℕ → String → ℕ → Stamp → W Response
billing_theme_save billing_uuid form user_id uuid now stamp =
    check_billing_access billing_uuid user_id λ id.
      theme_save "billing" id form "Tema da cobrança salvo com sucesso!"
        (billing_theme_path billing_uuid) user_id uuid now stamp

unfoldable pub billing_theme_delete : String → ℕ → Stamp → W Response
billing_theme_delete billing_uuid user_id stamp = check_billing_access billing_uuid user_id λ id.
    theme_reset "billing" id "Tema da cobrança redefinido para o padrão."
      (billing_theme_path billing_uuid) user_id stamp
