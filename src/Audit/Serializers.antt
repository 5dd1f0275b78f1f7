-- ===== src/Audit/Serializers.antt =====
-- rentivo/services/audit_serializers.py.
use landlord_cli.Prelude.{String, [], ◌∷◌}
use landlord_cli.Models.{
  Bill, Billing, Invite, ItemType, Organization, User, extra, fixed, variable,
}
use landlord_cli.Json.{Json, arr, bool, dict, elems, int, nat, opt, str, time}

abbrev pub item_type_text : ItemType → String
item_type_text fixed = "fixed"
item_type_text variable = "variable"
item_type_text extra = "extra"

unfoldable pub serialize_billing : Billing → Json
serialize_billing billing = dict (
    ("id", opt nat billing.id)
    ∷ ("uuid", str billing.uuid)
    ∷ ("name", str billing.name)
    ∷ ("description", str billing.description)
    ∷ ("pix_key", str billing.pix_key)
    ∷ ("owner_type", str billing.owner_type)
    ∷ ("owner_id", nat billing.owner_id)
    ∷ (
      "items",
      arr (
          elems
            (λ item. dict (
              ("id", opt nat item.id)
              ∷ ("description", str item.description)
              ∷ ("amount", int item.amount)
              ∷ ("item_type", str (item_type_text item.item_type))
              ∷ ("sort_order", nat item.sort_order)
              ∷ []))
            billing.items),
    )
    ∷ ("created_at", opt time billing.created_at)
    ∷ ("updated_at", opt time billing.updated_at)
    ∷ [])

unfoldable pub serialize_bill : Bill → Json
serialize_bill bill = dict (
    ("id", opt nat bill.id)
    ∷ ("uuid", str bill.uuid)
    ∷ ("billing_id", nat bill.billing_id)
    ∷ ("reference_month", str bill.reference_month)
    ∷ ("total_amount", int bill.total_amount)
    ∷ (
      "line_items",
      arr (
          elems
            (λ item. dict (
              ("id", opt nat item.id)
              ∷ ("description", str item.description)
              ∷ ("amount", int item.amount)
              ∷ ("item_type", str (item_type_text item.item_type))
              ∷ ("sort_order", nat item.sort_order)
              ∷ []))
            bill.line_items),
    )
    ∷ ("pdf_path", opt str bill.pdf_path)
    ∷ ("notes", str bill.notes)
    ∷ ("due_date", opt str bill.due_date)
    ∷ ("status", str bill.status)
    ∷ ("status_updated_at", opt time bill.status_updated_at)
    ∷ ("created_at", opt time bill.created_at)
    ∷ [])

-- without the hash of the password
unfoldable pub serialize_user : User → Json
serialize_user user = dict (
    ("id", nat user.id)
    ∷ ("username", str user.username)
    ∷ ("email", str user.email)
    ∷ ("created_at", time user.created_at)
    ∷ [])

unfoldable pub serialize_organization : Organization → Json
serialize_organization org = dict (
    ("id", nat org.id)
    ∷ ("uuid", str org.uuid)
    ∷ ("name", str org.name)
    ∷ ("created_by", nat org.created_by)
    ∷ ("enforce_mfa", bool org.enforce_mfa)
    ∷ ("created_at", time org.created_at)
    ∷ ("updated_at", time org.updated_at)
    ∷ [])

unfoldable pub serialize_invite : Invite → Json
serialize_invite invite = dict (
    ("id", nat invite.row.id)
    ∷ ("uuid", str invite.row.uuid)
    ∷ ("organization_id", nat invite.row.organization_id)
    ∷ ("organization_name", str invite.organization_name)
    ∷ ("invited_user_id", nat invite.row.invited_user_id)
    ∷ ("invited_username", str invite.invited_username)
    ∷ ("invited_by_user_id", nat invite.row.invited_by_user_id)
    ∷ ("invited_by_username", str invite.invited_by_username)
    ∷ ("role", str invite.row.role)
    ∷ ("status", str invite.row.status)
    ∷ ("created_at", time invite.row.created_at)
    ∷ ("responded_at", opt time invite.row.responded_at)
    ∷ [])
