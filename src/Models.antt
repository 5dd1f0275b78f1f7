-- ===== src/Models.antt =====
-- rentivo/models: the records that the repositories return, and the rows of their tables where these
-- differ. Times are numbers. An `id` is an `Option` only where the code tests it against `None`.
use landlord_cli.Prelude.{Bool, List, Option, String, ℕ}
use landlord_cli.Prelude.Int.{ℤ}
use landlord_cli.Json.{Json}

pub record User : Type 0 where
  pub id : ℕ
  pub username : String
  pub email : String
  pub password_hash : String
  pub created_at : ℕ

pub record Organization : Type 0 where
  pub id : ℕ
  pub uuid : String
  pub name : String
  pub created_by : ℕ
  pub enforce_mfa : Bool
  pub created_at : ℕ
  pub updated_at : ℕ
  pub deleted_at : Option ℕ

-- a row of `organization_members`
pub record MemberRow : Type 0 where
  pub id : ℕ
  pub organization_id : ℕ
  pub user_id : ℕ
  pub role : String
  pub created_at : ℕ

pub record OrganizationMember : Type 0 where
  pub id : ℕ
  pub organization_id : ℕ
  pub user_id : ℕ
  pub username : String
  pub role : String
  pub created_at : ℕ

-- a row of `invites`
pub record InviteRow : Type 0 where
  pub id : ℕ
  pub uuid : String
  pub organization_id : ℕ
  pub invited_user_id : ℕ
  pub invited_by_user_id : ℕ
  pub role : String
  pub status : String
  pub created_at : ℕ
  pub responded_at : Option ℕ

-- an invite with the names that the joins add
pub record Invite : Type 0 where
  pub row : InviteRow
  pub open row use *
  pub organization_name : String
  pub invited_username : String
  pub invited_by_username : String
  pub enforce_mfa : Bool

pub data ItemType : Type 0 where
  fixed variable extra : ItemType

-- a row of `billing_items`
pub record ItemRow : Type 0 where
  pub id : ℕ
  pub billing_id : ℕ
  pub description : String
  pub amount : ℤ
  pub item_type : ItemType
  pub sort_order : ℕ

pub record BillingItem : Type 0 where
  pub id : Option ℕ
  pub billing_id : Option ℕ
  pub description : String
  pub amount : ℤ
  pub item_type : ItemType
  pub sort_order : ℕ

-- a row of `billings`
pub record BillingRow : Type 0 where
  pub id : ℕ
  pub uuid : String
  pub name : String
  pub description : String
  pub pix_key : String
  pub owner_type : String
  pub owner_id : ℕ
  pub created_at : ℕ
  pub updated_at : ℕ
  pub deleted_at : Option ℕ

pub record Billing : Type 0 where
  pub id : Option ℕ
  pub uuid : String
  pub name : String
  pub description : String
  pub pix_key : String
  pub owner_type : String
  pub owner_id : ℕ
  pub items : List BillingItem
  pub created_at : Option ℕ
  pub updated_at : Option ℕ
  pub deleted_at : Option ℕ

-- a row of `bill_line_items`
pub record LineRow : Type 0 where
  pub id : ℕ
  pub bill_id : ℕ
  pub description : String
  pub amount : ℤ
  pub item_type : ItemType
  pub sort_order : ℕ

pub record BillLineItem : Type 0 where
  pub id : Option ℕ
  pub bill_id : Option ℕ
  pub description : String
  pub amount : ℤ
  pub item_type : ItemType
  pub sort_order : ℕ

-- a row of `bills`
pub record BillRow : Type 0 where
  pub id : ℕ
  pub uuid : String
  pub billing_id : ℕ
  pub reference_month : String
  pub total_amount : ℤ
  pub pdf_path : Option String
  pub notes : String
  pub due_date : Option String
  pub status : String
  pub status_updated_at : Option ℕ
  pub created_at : ℕ
  pub deleted_at : Option ℕ

pub record Bill : Type 0 where
  pub id : Option ℕ
  pub uuid : String
  pub billing_id : ℕ
  pub reference_month : String
  pub total_amount : ℤ
  pub line_items : List BillLineItem
  pub pdf_path : Option String
  pub notes : String
  pub due_date : Option String
  pub status : String
  pub status_updated_at : Option ℕ
  pub created_at : Option ℕ
  pub deleted_at : Option ℕ

-- a row of `receipts`
pub record Receipt : Type 0 where
  pub id : Option ℕ
  pub uuid : String
  pub bill_id : ℕ
  pub filename : String
  pub storage_key : String
  pub content_type : String
  pub file_size : ℕ
  pub sort_order : ℕ
  pub created_at : Option ℕ

pub record ReceiptRow : Type 0 where
  pub id : ℕ
  pub uuid : String
  pub bill_id : ℕ
  pub filename : String
  pub storage_key : String
  pub content_type : String
  pub file_size : ℕ
  pub sort_order : ℕ
  pub created_at : ℕ

pub record UserTotp : Type 0 where
  pub id : ℕ
  pub user_id : ℕ
  pub secret : String
  pub confirmed : Bool
  pub created_at : ℕ
  pub confirmed_at : Option ℕ

pub record RecoveryCode : Type 0 where
  pub id : ℕ
  pub user_id : ℕ
  pub code_hash : String
  pub used_at : Option ℕ
  pub created_at : ℕ

pub record UserPasskey : Type 0 where
  pub id : ℕ
  pub uuid : String
  pub user_id : ℕ
  pub credential_id : String
  pub public_key : String
  pub sign_count : ℕ
  pub name : String
  pub transports : Option String
  pub created_at : ℕ
  pub last_used_at : Option ℕ

-- a row of `audit_logs`, its states read back from their JSON texts
pub record AuditLog : Type 0 where
  pub id : ℕ
  pub uuid : String
  pub event_type : String
  pub actor_id : Option ℕ
  pub actor_username : String
  pub source : String
  pub entity_type : String
  pub entity_id : Option ℕ
  pub entity_uuid : String
  pub previous_state : Option Json
  pub new_state : Option Json
  pub metadata : Json
  pub created_at : ℕ

pub record Theme : Type 0 where
  pub id : Option ℕ
  pub uuid : String
  pub owner_type : String
  pub owner_id : ℕ
  pub name : String
  pub header_font : String
  pub text_font : String
  pub primary : String
  pub primary_light : String
  pub secondary : String
  pub secondary_dark : String
  pub text_color : String
  pub text_contrast : String
  pub created_at : Option ℕ
  pub updated_at : Option ℕ

-- a row of `themes`
pub record ThemeRow : Type 0 where
  pub id : ℕ
  pub theme : Theme
