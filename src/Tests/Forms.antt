-- ===== src/Tests/Forms.antt =====
-- Forms sent to the web front end.
use landlord_cli.Organization
use landlord_cli.Web.Organizations.Guards
use landlord_cli.Web.Bills.Kept
use landlord_cli.Web.Themes.Forms
use landlord_cli.Prelude.{String, false, none, refl, some, some-injective, subst, true, ◌≡◌, ◌⊎◌}
use landlord_cli.Errors.{Result, err, is_ok, value_error}
use landlord_cli.Web.{IsRedirect, Web, no_session}
use landlord_cli.Web.Organizations.{is_admin, member_remove}
use landlord_cli.Web.Organizations.Guards.{
  HasNoRights, delete, submit, submit_refused, toggle_mfa, with_messages,
}
use landlord_cli.Web.Organizations.Members.{member_remove-get_member}
use landlord_cli.Web.Bills.Kept.{change, submit-totals}
use landlord_cli.Web.Middleware.{
  HttpRequest, is_csrf_exempt, is_form, is_mfa_exempt, is_public, not_comparable, serve,
}
use landlord_cli.Web.Middleware.Guarded.{is_admitted, is_broken, serve_guarded}
use landlord_cli.Bill.Service.Totals.{IsSoundDb}
use landlord_cli.Prelude.Int.{ℤ}
use landlord_cli.Theme.{Style, resolve_theme_for_billing}
use landlord_cli.Web.Themes.Styled.{IsStyled}
use landlord_cli.Web.Themes.Stored.{AllStyled}
use landlord_cli.Web.Themes.Forms.{save_user, submit-resolve}
use landlord_cli.Billing.{row_to_billing}
use landlord_cli.Tests.Sample.{config, flat, houses, sample}
use landlord_cli.Tests.Requests.{first_web}
use landlord_cli.Tests.Records.{stamp}
use landlord_cli.Tests.Bills.{bills-IsSoundDb}
use landlord_cli.Pix.{Text}

-- a session of bob, and one of alice
abbrev web_of_bob : Web
web_of_bob = record first_web {
  session = record no_session { user_id = some 2; username = some "bob"; csrf_token = "T" };
}

abbrev web_of_alice : Web
web_of_alice = record first_web {
  session = record no_session { user_id = some 1; username = some "alice"; csrf_token = "T" };
  db = sample;
}

-- bob is no member
no_rights_of_bob : HasNoRights "O1" 2 web_of_bob.db
unfolding Organization.get_by_uuid Organization.get_member
no_rights_of_bob org found =
    let is : houses ≡ org = some-injective found in
    subst (λ o. is_admin (Organization.get_member o.id 2 web_of_bob.db) ≡ false) is refl

submit_refused_example :
    let (r, w') = Guards.submit (toggle_mfa 9 stamp) "O1" 2 web_of_bob in
    IsRedirect r × (w' ≡ with_messages w'.session.messages web_of_bob)
submit_refused_example = submit_refused (toggle_mfa 9 stamp) "O1" 2 web_of_bob no_rights_of_bob

member_remove-get_member_example :
    let (r, w') = member_remove "O1" 2 1 stamp web_of_alice in
    (is_ok r ≡ true)
    × (is_admin (Organization.get_member 1 1 w'.db) ≡ true)
    × (Organization.get_member 1 2 w'.db ≡ none)
unfolding Organization.get_by_uuid Organization.get_member
member_remove-get_member_example =
    member_remove-get_member "O1" houses 2 1 1 2 stamp web_of_alice refl refl

abbrev no_amounts : Text → Result ℤ
no_amounts text = err (value_error "could not convert string to float")

submit-totals_example :
    IsSoundDb (Kept.submit config no_amounts (change "B1" "C1" "paid" 9 stamp) 1 web_of_alice).1.db
submit-totals_example =
    submit-totals config no_amounts (change "B1" "C1" "paid" 9 stamp) 1 web_of_alice bills-IsSoundDb

abbrev deletion_form : HttpRequest
deletion_form = record {
  method = "POST";
  path = "/organizations/O1/delete";
  content_type = "application/x-www-form-urlencoded";
  form_token = "T";
  referer = "/";
  matches = true;
}

serve_guarded_example :
    let app = Guards.submit (delete 9 stamp) "O1" 1 in
    let (r, w') = serve deletion_form app web_of_alice in
    (is_admitted deletion_form web_of_alice.session ≡ true)
      × (serve deletion_form app web_of_alice ≡ app web_of_alice)
    ⊎ (is_admitted deletion_form web_of_alice.session ≡ false)
      × (is_broken deletion_form web_of_alice.session ≡ true)
      × (serve deletion_form app web_of_alice ≡ (err not_comparable, web_of_alice))
    ⊎ (is_admitted deletion_form web_of_alice.session ≡ false)
      × (is_broken deletion_form web_of_alice.session ≡ false)
      × IsRedirect r
      × (w' ≡ with_messages w'.session.messages web_of_alice)
unfolding is_public is_mfa_exempt is_csrf_exempt is_form
serve_guarded_example =
    serve_guarded deletion_form (Guards.submit (delete 9 stamp) "O1" 1) web_of_alice refl

-- a form with a colour that is none
abbrev red_form : Style → String
red_form Style.name = "Vermelho"
red_form Style.primary = "red"
red_form Style.secondary = "#a0B1c2"
red_form Style.header_font = ""
red_form Style.text_font = "Comic Sans"
red_form Style.primary_light = ""
red_form Style.secondary_dark = ""
red_form Style.text_color = ""
red_form Style.text_contrast = ""

submit-resolve_example :
    let db' = (Forms.submit (save_user red_form "T3" 30 stamp) 1 web_of_alice).1.db in
    AllStyled db' × IsStyled (resolve_theme_for_billing (row_to_billing sample flat) db')
submit-resolve_example =
    submit-resolve (save_user red_form "T3" 30 stamp) 1 (row_to_billing sample flat) web_of_alice tt
