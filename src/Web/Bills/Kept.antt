-- ===== src/Web/Bills/Kept.antt =====
-- Every form of a bill keeps the totals of the stored bills.
use landlord_cli.Prelude.{List, String, [], ℕ, ◌∷◌}
use landlord_cli.Models.{Bill, Billing, Receipt}
use landlord_cli.Web.{Response, W, Web, log}
use landlord_cli.Audit.{Entry, Stamp}
use landlord_cli.Web.Keeps.{
  WebKeeps, WebKeeps-bind, WebKeeps-call, WebKeeps-choose, WebKeeps-log, WebKeeps-pure, web_rules,
}
use landlord_cli.Db.Keeps.{Keeps}
use landlord_cli.Web.Bills.Shared.{Row, Upload, attach, log_receipt, log_receipts, with_bill}
use landlord_cli.Web.Bills.{
  bill_change_status, bill_delete, bill_edit, bill_generate, bill_regenerate_pdf,
}
use landlord_cli.Web.Receipts.{
  Body, no_json, no_list, order, receipt_delete, receipt_reorder, receipt_upload, upload_all,
  upload_one,
}
use landlord_cli.Bill.Service.{Config, regenerate_pdf}
use landlord_cli.Bill.Service.Kept.{
  add_receipt-IsSound, change_status-IsSound, delete-IsSound, delete_receipt-IsSound,
  generate_and_store_pdf-IsSound, generate_bill-IsSound, reorder_receipts-IsSound,
  update_bill-IsSound,
}
use landlord_cli.Bill.Service.Totals.{IsSoundDb}
use landlord_cli.Prelude.Int.{ℤ}
use landlord_cli.Errors.{Result}
use landlord_cli.Pix.{Text}

logged-IsSound : (e : Entry) (stamp : Stamp) → WebKeeps IsSoundDb (log e stamp)
logged-IsSound e stamp = WebKeeps-log e stamp (λ db h. h)

regenerate_pdf-IsSound :
    (config : Config) (bill : Bill) (billing : Billing)
    → Keeps IsSoundDb (regenerate_pdf config bill billing)
unfolding regenerate_pdf
regenerate_pdf-IsSound config bill billing = generate_and_store_pdf-IsSound config bill billing

ruleset form_rules = (
  web_rules, logged-IsSound, delete-IsSound, change_status-IsSound, generate_bill-IsSound,
  update_bill-IsSound, add_receipt-IsSound, delete_receipt-IsSound, reorder_receipts-IsSound,
  regenerate_pdf-IsSound,
)

with_bill-IsSound :
    (bill_uuid : String) (k : Bill → Billing → W Response)
    → ((bill : Bill) (billing : Billing) → WebKeeps IsSoundDb (k bill billing))
    → WebKeeps IsSoundDb (with_bill bill_uuid k)
unfolding with_bill
with_bill-IsSound bill_uuid k kk = search (form_rules, kk) depth 20

bill_change_status-IsSound :
    (billing_uuid bill_uuid new_status : String) (user_id now : ℕ) (stamp : Stamp)
    → WebKeeps IsSoundDb (bill_change_status billing_uuid bill_uuid new_status user_id now stamp)
unfolding bill_change_status
bill_change_status-IsSound billing_uuid bill_uuid new_status user_id now stamp =
    with_bill-IsSound bill_uuid _ λ bill billing. search form_rules depth 30

bill_delete-IsSound :
    (billing_uuid bill_uuid : String) (user_id now : ℕ) (stamp : Stamp)
    → WebKeeps IsSoundDb (bill_delete billing_uuid bill_uuid user_id now stamp)
unfolding bill_delete
bill_delete-IsSound billing_uuid bill_uuid user_id now stamp = search form_rules depth 30

module _ (config : Config) where
  attach-IsSound :
      (bill : Bill) (billing : Billing) (uploads : List Upload)
      → WebKeeps IsSoundDb (attach config bill billing uploads)
  attach-IsSound bill billing [] = search form_rules
  attach-IsSound bill billing (u ∷ uploads) =
      WebKeeps-choose _ _ _ (attach-IsSound bill billing uploads) (
        WebKeeps-bind _ _
          (WebKeeps-call _ (
            add_receipt-IsSound config bill billing u.filename u.file_bytes u.content_type
              u.key_uuid u.uuid u.now))
          λ r. WebKeeps-bind _ _ (attach-IsSound bill billing uploads) λ a. WebKeeps-pure _)

  log_receipt-IsSound :
      (bill_uuid billing_uuid : String) (user_id : ℕ) (receipt : Receipt) (stamp : Stamp)
      → WebKeeps IsSoundDb (log_receipt bill_uuid billing_uuid user_id receipt stamp)
  unfolding log_receipt
  log_receipt-IsSound bill_uuid billing_uuid user_id receipt stamp = search form_rules depth 20

  log_receipts-IsSound :
      (bill_uuid billing_uuid : String) (user_id : ℕ) (receipts : List (Receipt × Stamp))
      → WebKeeps IsSoundDb (log_receipts bill_uuid billing_uuid user_id receipts)
  log_receipts-IsSound bill_uuid billing_uuid user_id [] = search form_rules
  log_receipts-IsSound bill_uuid billing_uuid user_id ((receipt, stamp) ∷ receipts) =
      WebKeeps-bind _ _ (log_receipt-IsSound bill_uuid billing_uuid user_id receipt stamp)
        λ _. log_receipts-IsSound bill_uuid billing_uuid user_id receipts

  bill_generate-IsSound :
      (to_centavos : Text → Result ℤ) (billing_uuid month due notes : String) (texts : ℕ → String)
      (rows : List Row) (uploads : List Upload) (uuid : String) (now user_id : ℕ) (stamp : Stamp)
      → WebKeeps IsSoundDb (
          bill_generate config to_centavos billing_uuid month due notes texts rows uploads uuid now
            user_id stamp)
  unfolding bill_generate
  bill_generate-IsSound to_centavos billing_uuid month due notes texts rows uploads uuid now user_id
        stamp =
      search (form_rules, attach-IsSound, log_receipts-IsSound) depth 40

  bill_edit-IsSound :
      (to_centavos : Text → Result ℤ) (billing_uuid bill_uuid due notes : String)
      (rows extras : List Row) (user_id : ℕ) (stamp : Stamp)
      → WebKeeps IsSoundDb
          (bill_edit config to_centavos billing_uuid bill_uuid due notes rows extras user_id stamp)
  unfolding bill_edit
  bill_edit-IsSound to_centavos billing_uuid bill_uuid due notes rows extras user_id stamp =
      with_bill-IsSound bill_uuid _ λ bill billing. search form_rules depth 30

  bill_regenerate_pdf-IsSound :
      (billing_uuid bill_uuid : String) (user_id : ℕ) (stamp : Stamp)
      → WebKeeps IsSoundDb (bill_regenerate_pdf config billing_uuid bill_uuid user_id stamp)
  unfolding bill_regenerate_pdf
  bill_regenerate_pdf-IsSound billing_uuid bill_uuid user_id stamp =
      with_bill-IsSound bill_uuid _ λ bill billing. search form_rules depth 30

  receipt_delete-IsSound :
      (billing_uuid bill_uuid receipt_uuid url : String) (user_id : ℕ) (stamp : Stamp)
      → WebKeeps IsSoundDb
          (receipt_delete config billing_uuid bill_uuid receipt_uuid url user_id stamp)
  unfolding receipt_delete
  receipt_delete-IsSound billing_uuid bill_uuid receipt_uuid url user_id stamp =
      with_bill-IsSound bill_uuid _ λ bill billing. search form_rules depth 30

  upload_one-IsSound :
      (bill : Bill) (billing : Billing) (bill_uuid billing_uuid : String) (user_id : ℕ) (u : Upload)
      → WebKeeps IsSoundDb (upload_one config bill billing bill_uuid billing_uuid user_id u)
  unfolding upload_one
  upload_one-IsSound bill billing bill_uuid billing_uuid user_id u =
      search (form_rules, log_receipt-IsSound) depth 20

  upload_all-IsSound :
      (bill : Bill) (billing : Billing) (bill_uuid billing_uuid : String) (user_id : ℕ)
      (uploads : List Upload)
      → WebKeeps IsSoundDb (upload_all config bill billing bill_uuid billing_uuid user_id uploads)
  upload_all-IsSound bill billing bill_uuid billing_uuid user_id [] = search form_rules
  upload_all-IsSound bill billing bill_uuid billing_uuid user_id (u ∷ uploads) =
      let rest = upload_all-IsSound bill billing bill_uuid billing_uuid user_id uploads in
      WebKeeps-choose _ _ _ (WebKeeps-bind _ _ rest λ counts. WebKeeps-pure _) (
        WebKeeps-bind _ _ (upload_one-IsSound bill billing bill_uuid billing_uuid user_id u)
          λ _. WebKeeps-bind _ _ rest λ counts. WebKeeps-pure _)

  receipt_upload-IsSound :
      (billing_uuid bill_uuid : String) (uploads : List Upload) (url : String) (user_id : ℕ)
      → WebKeeps IsSoundDb (receipt_upload config billing_uuid bill_uuid uploads url user_id)
  unfolding receipt_upload
  receipt_upload-IsSound billing_uuid bill_uuid uploads url user_id =
      with_bill-IsSound bill_uuid _ λ bill billing. search (form_rules, upload_all-IsSound) depth 40

  receipt_reorder-IsSound :
      (bill_uuid : String) (body : Body) (user_id : ℕ) (stamp : Stamp)
      → WebKeeps IsSoundDb (receipt_reorder config bill_uuid body user_id stamp)
  unfolding receipt_reorder
  receipt_reorder-IsSound bill_uuid no_json user_id stamp = search form_rules depth 30
  receipt_reorder-IsSound bill_uuid no_list user_id stamp = search form_rules depth 30
  receipt_reorder-IsSound bill_uuid (order uuids) user_id stamp = search form_rules depth 30

-- The forms of a bill, as they are sent by a user.
pub data Form : Type 0 where
  generate :
      String
      → String
      → String
      → String
      → (ℕ → String)
      → List Row
      → List Upload
      → String
      → ℕ
      → Stamp
      → Form
  edit : String → String → String → String → List Row → List Row → Stamp → Form
  regenerate : String → String → Stamp → Form
  change : String → String → String → ℕ → Stamp → Form
  remove : String → String → ℕ → Stamp → Form
  upload : String → String → List Upload → String → Form
  detach : String → String → String → String → Stamp → Form
  reorder : String → Body → Stamp → Form

module _ (config : Config) (to_centavos : Text → Result ℤ) where
  abbrev pub submit : Form → ℕ → W Response
  submit (generate b m d n texts rows uploads uuid now stamp) user_id =
      bill_generate config to_centavos b m d n texts rows uploads uuid now user_id stamp
  submit (edit b c d n rows extras stamp) user_id =
      bill_edit config to_centavos b c d n rows extras user_id stamp
  submit (regenerate b c stamp) user_id = bill_regenerate_pdf config b c user_id stamp
  submit (change b c s now stamp) user_id = bill_change_status b c s user_id now stamp
  submit (remove b c now stamp) user_id = bill_delete b c user_id now stamp
  submit (upload b c uploads url) user_id = receipt_upload config b c uploads url user_id
  submit (detach b c r url stamp) user_id = receipt_delete config b c r url user_id stamp
  submit (reorder c body stamp) user_id = receipt_reorder config c body user_id stamp

  -- Whatever form of a bill any user sends, and whether the handler returns or raises: a database that
  -- is sound, so that the total of every stored bill is the sum of its stored line items, is sound
  -- afterwards.
  pub submit-totals :
      (form : Form) (user_id : ℕ) (w : Web)
      → IsSoundDb w.db
      → IsSoundDb (submit form user_id w).1.db
  submit-totals (generate b m d n texts rows uploads uuid now stamp) user_id =
      (bill_generate-IsSound config to_centavos b m d n texts rows uploads uuid now user_id
        stamp).at
  submit-totals (edit b c d n rows extras stamp) user_id =
      (bill_edit-IsSound config to_centavos b c d n rows extras user_id stamp).at
  submit-totals (regenerate b c stamp) user_id =
      (bill_regenerate_pdf-IsSound config b c user_id stamp).at
  submit-totals (change b c s now stamp) user_id =
      (bill_change_status-IsSound b c s user_id now stamp).at
  submit-totals (remove b c now stamp) user_id = (bill_delete-IsSound b c user_id now stamp).at
  submit-totals (upload b c uploads url) user_id =
      (receipt_upload-IsSound config b c uploads url user_id).at
  submit-totals (detach b c r url stamp) user_id =
      (receipt_delete-IsSound config b c r url user_id stamp).at
  submit-totals (reorder c body stamp) user_id =
      (receipt_reorder-IsSound config c body user_id stamp).at
