-- ===== src/Web/Themes/Styled.antt =====
-- How a theme looks that a form gives the fields of.
use landlord_cli.Prelude.{
  Bool-cases, List, String, [], contains, if◌then◌else◌, inl, inr, nat_eq, refl, string_eq, true,
  ◌==◌, ◌∷◌, ◌≡◌,
}
use landlord_cli.Models.{Theme}
use landlord_cli.Theme.{Style, default_theme, set_style, set_styles}
use landlord_cli.Web.Themes.{available_fonts, checked, is_hex_color, parse_fields}

-- Its fonts are available, and its colours are a number sign with six hexadecimal digits.
abbrev pub IsStyled : Theme → Type 0
IsStyled t =
    (contains t.header_font available_fonts ≡ true)
    × (contains t.text_font available_fonts ≡ true)
    × (is_hex_color t.primary ≡ true)
    × (is_hex_color t.primary_light ≡ true)
    × (is_hex_color t.secondary ≡ true)
    × (is_hex_color t.secondary_dark ≡ true)
    × (is_hex_color t.text_color ≡ true)
    × (is_hex_color t.text_contrast ≡ true)

pub default-IsStyled : IsStyled default_theme
unfolding is_hex_color
default-IsStyled = (refl, refl, refl, refl, refl, refl, refl, refl)

checked_font :
    (value : String)
    → contains (if contains value available_fonts then value else "Montserrat") available_fonts
      ≡ true
checked_font value = elim (Bool-cases (contains value available_fonts)) [
  | inl is ↦ rw is is
  | inr is_not ↦ rw is_not refl
]

checked_color :
    (value default : String)
    → is_hex_color default ≡ true
    → is_hex_color (if is_hex_color value then value else default) ≡ true
checked_color value default right = elim (Bool-cases (is_hex_color value)) [
  | inl is ↦ rw is is
  | inr is_not ↦ rw is_not right
]

set_style-IsStyled :
    (key : Style) (value : String) (t : Theme)
    → IsStyled t
    → IsStyled (set_style key (checked key value) t)
set_style-IsStyled Style.name value t (a, b, c, d, e, f, g, i) = (a, b, c, d, e, f, g, i)
set_style-IsStyled Style.header_font value t (a, b, c, d, e, f, g, i) =
    (checked_font value, b, c, d, e, f, g, i)
set_style-IsStyled Style.text_font value t (a, b, c, d, e, f, g, i) =
    (a, checked_font value, c, d, e, f, g, i)
set_style-IsStyled Style.primary value t (a, b, c, d, e, f, g, i) =
    (a, b, checked_color value default_theme.primary default-IsStyled.2, d, e, f, g, i)
set_style-IsStyled Style.primary_light value t (a, b, c, d, e, f, g, i) =
    (a, b, c, checked_color value default_theme.primary_light default-IsStyled.3, e, f, g, i)
set_style-IsStyled Style.secondary value t (a, b, c, d, e, f, g, i) =
    (a, b, c, d, checked_color value default_theme.secondary default-IsStyled.4, f, g, i)
set_style-IsStyled Style.secondary_dark value t (a, b, c, d, e, f, g, i) =
    (a, b, c, d, e, checked_color value default_theme.secondary_dark default-IsStyled.5, g, i)
set_style-IsStyled Style.text_color value t (a, b, c, d, e, f, g, i) =
    (a, b, c, d, e, f, checked_color value default_theme.text_color default-IsStyled.6, i)
set_style-IsStyled Style.text_contrast value t (a, b, c, d, e, f, g, i) =
    (a, b, c, d, e, f, g, checked_color value default_theme.text_contrast default-IsStyled.7)

pub parse_fields-IsStyled :
    (keys : List Style) (form : Style → String) (t : Theme)
    → IsStyled t
    → IsStyled (set_styles (parse_fields keys form) t)
parse_fields-IsStyled [] form t h = h
parse_fields-IsStyled (key ∷ keys) form t h = elim (Bool-cases (form key == "")) [
  | inl empty ↦ rw empty (parse_fields-IsStyled keys form t h)
  | inr given ↦ rw given (
      parse_fields-IsStyled keys form (set_style key (checked key (form key)) t)
        (set_style-IsStyled key (form key) t h))
]
