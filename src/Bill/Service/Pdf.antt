-- ===== src/Bill/Service/Pdf.antt =====
-- rentivo/services/bill_service.py: what a PDF is rendered from, the PIX code and the theme. It is a
-- `generate` of the service's configuration.
use landlord_cli.Prelude.{
  Bool, List, Option, String, [], codes, if◌then◌else◌, nat_eq, none, some, string_eq, true, ℕ,
  ◌==◌, ◌||◌,
}
use landlord_cli.Errors.{Result, err, ok}
use landlord_cli.Models.{Bill, Billing, Theme}
use landlord_cli.Db.{Db}
use landlord_cli.Prelude.Int.{ℤ}
use landlord_cli.Pix.{Text, generate_pix_payload}
use landlord_cli.Theme.{resolve_theme_for_billing}
use landlord_cli.Bill.Service.{Config}

pub record PixSettings : Type 0 where
  pub pix_key : String
  pub pix_merchant_name : String
  pub pix_merchant_city : String

-- The libraries: the removal of accents, the PNG of a QR code, and the PDF of a bill with the name of
-- its billing, the PNG, the key and the payload of the PIX code, and the theme.
pub record Renderer : Type 0 where
  pub strip_accents : Text → Text
  pub qrcode_png : Text → List ℕ
  pub invoice : Bill → String → Option (List ℕ) → String → Text → Option Theme → Result (List ℕ)

pub record PixData : Type 0 where
  pub png : Option (List ℕ)
  pub key : String
  pub payload : Text

abbrev no_pix_data : PixData
no_pix_data = record { png = none; key = ""; payload = [] }

module _ (settings : PixSettings) (renderer : Renderer) where
  -- `billing.pix_key or settings.pix_key`
  abbrev pub pix_key_of : Billing → String
  pix_key_of billing = if billing.pix_key == "" then settings.pix_key else billing.pix_key

  -- `_get_pix_data`
  unfoldable pub get_pix_data : Billing → ℤ → Result PixData
  get_pix_data billing total_centavos =
      let key = pix_key_of billing in
      let made : Result Text =
        generate_pix_payload renderer.strip_accents (codes key) (codes settings.pix_merchant_name)
          (codes settings.pix_merchant_city) (some total_centavos) (codes "***") in
      if key == "" || (settings.pix_merchant_name == "" || settings.pix_merchant_city == "")
      then ok no_pix_data
      else elim made [
        | err e ↦ err e
        | ok payload ↦
            ok (record { png = some (renderer.qrcode_png payload); key = key; payload = payload })
      ]

  -- the first half of `_generate_and_store_pdf`, with a theme service where there is one
  unfoldable pub generate_pdf : Bool → Bill → Billing → Db → Result (List ℕ)
  generate_pdf has_theme_service bill billing db =
      let theme : Option Theme =
        if has_theme_service then some (resolve_theme_for_billing billing db) else none in
      elim (get_pix_data billing bill.total_amount) [
        | err e ↦ err e
        | ok pix ↦ renderer.invoice bill billing.name pix.png pix.key pix.payload theme
      ]

  -- the configuration of the web front end, which has both services
  abbrev pub with_pdf : Config → Config
  with_pdf config = record config { has_receipt_repo = true; generate = generate_pdf true }
