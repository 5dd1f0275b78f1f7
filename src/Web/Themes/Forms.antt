-- ===== src/Web/Themes/Forms.antt =====
-- What the forms of themes keep.
use landlord_cli.Prelude.{String, ℕ}
use landlord_cli.Models.{Billing, Organization}
use landlord_cli.Web.{Response, W, Web, log}
use landlord_cli.Theme.{Style, resolve_theme_for_billing}
use landlord_cli.Web.Themes.{
  billing_theme_delete, billing_theme_save, check_billing_access, org_theme_delete, org_theme_save,
  theme_reset, theme_save, user_theme_delete, user_theme_save,
}
use landlord_cli.Web.Themes.Styled.{IsStyled}
use landlord_cli.Web.Themes.Stored.{
  AllStyled, create_or_update_theme-AllStyled, delete_theme-AllStyled, resolve_theme-IsStyled,
}
use landlord_cli.Web.Organizations.{as_admin}
use landlord_cli.Web.Keeps.{WebKeeps, WebKeeps-log, web_rules}
use landlord_cli.Db.Keeps.{keeps_rules}
use landlord_cli.Audit.{Entry, Stamp}

logged-AllStyled : (e : Entry) (stamp : Stamp) → WebKeeps AllStyled (log e stamp)
logged-AllStyled e stamp = WebKeeps-log e stamp (λ db h. h)

ruleset theme_rules = (
  web_rules, keeps_rules, logged-AllStyled, create_or_update_theme-AllStyled,
  delete_theme-AllStyled,
)

theme_save-AllStyled :
    (owner_type : String) (owner_id : ℕ) (form : Style → String) (message url : String)
    (user_id : ℕ) (uuid : String) (now : ℕ) (stamp : Stamp)
    → WebKeeps AllStyled (theme_save owner_type owner_id form message url user_id uuid now stamp)
unfolding theme_save
theme_save-AllStyled owner_type owner_id form message url user_id uuid now stamp =
    search theme_rules depth 30

theme_reset-AllStyled :
    (owner_type : String) (owner_id : ℕ) (message url : String) (user_id : ℕ) (stamp : Stamp)
    → WebKeeps AllStyled (theme_reset owner_type owner_id message url user_id stamp)
unfolding theme_reset
theme_reset-AllStyled owner_type owner_id message url user_id stamp = search theme_rules depth 30

as_admin-AllStyled :
    (org_uuid : String) (user_id : ℕ) (k : Organization → W Response)
    → ((org : Organization) → WebKeeps AllStyled (k org))
    → WebKeeps AllStyled (as_admin org_uuid user_id k)
unfolding as_admin
as_admin-AllStyled org_uuid user_id k kk = search (theme_rules, kk) depth 20

check_billing_access-AllStyled :
    (billing_uuid : String) (user_id : ℕ) (k : ℕ → W Response)
    → ((id : ℕ) → WebKeeps AllStyled (k id))
    → WebKeeps AllStyled (check_billing_access billing_uuid user_id k)
unfolding check_billing_access
check_billing_access-AllStyled billing_uuid user_id k kk = search (theme_rules, kk) depth 30

-- The forms of web/routes/theme.py, as they are sent by a user.
pub data Form : Type 0 where
  save_user : (Style → String) → String → ℕ → Stamp → Form
  reset_user : Stamp → Form
  save_org : String → (Style → String) → String → ℕ → Stamp → Form
  reset_org : String → Stamp → Form
  save_billing : String → (Style → String) → String → ℕ → Stamp → Form
  reset_billing : String → Stamp → Form

abbrev pub submit : Form → ℕ → W Response
submit (save_user form uuid now stamp) user_id = user_theme_save form user_id uuid now stamp
submit (reset_user stamp) user_id = user_theme_delete user_id stamp
submit (save_org org_uuid form uuid now stamp) user_id =
    org_theme_save org_uuid form user_id uuid now stamp
submit (reset_org org_uuid stamp) user_id = org_theme_delete org_uuid user_id stamp
submit (save_billing billing_uuid form uuid now stamp) user_id =
    billing_theme_save billing_uuid form user_id uuid now stamp
submit (reset_billing billing_uuid stamp) user_id = billing_theme_delete billing_uuid user_id stamp

submit-AllStyled : (form : Form) (user_id : ℕ) → WebKeeps AllStyled (submit form user_id)
unfolding user_theme_save user_theme_delete org_theme_save org_theme_delete billing_theme_save
    billing_theme_delete
submit-AllStyled (save_user form uuid now stamp) user_id =
    theme_save-AllStyled "user" user_id form _ _ user_id uuid now stamp
submit-AllStyled (reset_user stamp) user_id = theme_reset-AllStyled "user" user_id _ _ user_id stamp
submit-AllStyled (save_org org_uuid form uuid now stamp) user_id =
    as_admin-AllStyled org_uuid user_id _
      λ org. theme_save-AllStyled "organization" org.id form _ _ user_id uuid now stamp
submit-AllStyled (reset_org org_uuid stamp) user_id =
    as_admin-AllStyled org_uuid user_id _
      λ org. theme_reset-AllStyled "organization" org.id _ _ user_id stamp
submit-AllStyled (save_billing billing_uuid form uuid now stamp) user_id =
    check_billing_access-AllStyled billing_uuid user_id _
      λ id. theme_save-AllStyled "billing" id form _ _ user_id uuid now stamp
submit-AllStyled (reset_billing billing_uuid stamp) user_id =
    check_billing_access-AllStyled billing_uuid user_id _
      λ id. theme_reset-AllStyled "billing" id _ _ user_id stamp

-- If every stored theme has fonts that are available and colours of a number sign and six hexadecimal
-- digits, then so has every stored theme after any form for a theme, with any texts, whether the
-- handler returns or raises, and so has the theme that any billing is then rendered with.
pub submit-resolve :
    (form : Form) (user_id : ℕ) (billing : Billing) (w : Web)
    → AllStyled w.db
    → let db' = (submit form user_id w).1.db in
      AllStyled db' × IsStyled (resolve_theme_for_billing billing db')
submit-resolve form user_id billing w h =
    let kept = (submit-AllStyled form user_id).at w h in
    (kept, resolve_theme-IsStyled billing (submit form user_id w).1.db kept)
