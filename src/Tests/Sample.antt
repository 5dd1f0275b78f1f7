-- ===== src/Tests/Sample.antt =====
-- A database with two users, an organization of the first, an invite for the second, two billings
-- and a bill.
use landlord_cli.Prelude.{==_refl, [], false, nat_eq, none, string_eq, true, ◌==◌, ◌∷◌}
use landlord_cli.Errors.{err, ok, runtime_error}
use landlord_cli.Models.{
  BillRow, BillingRow, InviteRow, ItemRow, LineRow, Organization, User, extra, fixed, variable,
}
use landlord_cli.Db.{Db}
use landlord_cli.Prelude.Int.{pos}
use landlord_cli.User.{Bcrypt}
use landlord_cli.Bill.Service.{Config}

abbrev pub alice : User
alice = record { id = 1; username = "alice"; email = "a@x"; password_hash = "old"; created_at = 1 }

abbrev pub bob : User
bob = record { id = 2; username = "bob"; email = "b@x"; password_hash = "pw"; created_at = 2 }

abbrev pub houses : Organization
houses = record {
  id = 1;
  uuid = "O1";
  name = "Casas";
  created_by = 1;
  enforce_mfa = false;
  created_at = 3;
  updated_at = 3;
  deleted_at = none;
}

abbrev pub invitation : InviteRow
invitation = record {
  id = 1;
  uuid = "I1";
  organization_id = 1;
  invited_user_id = 2;
  invited_by_user_id = 1;
  role = "viewer";
  status = "pending";
  created_at = 4;
  responded_at = none;
}

abbrev pub flat : BillingRow
flat = record {
  id = 1;
  uuid = "B1";
  name = "Apto 101";
  description = "";
  pix_key = "";
  owner_type = "user";
  owner_id = 1;
  created_at = 5;
  updated_at = 5;
  deleted_at = none;
}

abbrev pub house : BillingRow
house = record flat { id = 2; uuid = "B2"; owner_type = "organization"; created_at = 6 }

abbrev pub rent : ItemRow
rent = record {
  id = 1;
  billing_id = 1;
  description = "Aluguel";
  amount = pos 1000;
  item_type = fixed;
  sort_order = 0;
}

abbrev pub water : ItemRow
water = record rent {
  id = 2;
  description = "Agua";
  amount = pos 0;
  item_type = variable;
  sort_order = 1;
}

abbrev pub march : BillRow
march = record {
  id = 1;
  uuid = "C1";
  billing_id = 1;
  reference_month = "2025-03";
  total_amount = pos 1500;
  pdf_path = none;
  notes = "";
  due_date = none;
  status = "draft";
  status_updated_at = none;
  created_at = 7;
  deleted_at = none;
}

abbrev pub march_rent : LineRow
march_rent = record {
  id = 1;
  bill_id = 1;
  description = "Aluguel";
  amount = pos 1000;
  item_type = fixed;
  sort_order = 0;
}

abbrev pub march_repair : LineRow
march_repair = record march_rent {
  id = 2;
  description = "Reparo";
  amount = pos 500;
  item_type = extra;
  sort_order = 1;
}

abbrev pub sample : Db
sample = record {
  users = record { rows = alice ∷ bob ∷ []; next = 3 };
  organizations = record { rows = houses ∷ []; next = 2 };
  organization_members = record {
    rows = record { id = 1; organization_id = 1; user_id = 1; role = "admin"; created_at = 3 } ∷ [];
    next = 2;
  };
  invites = record { rows = invitation ∷ []; next = 2 };
  billings = record { rows = flat ∷ house ∷ []; next = 3 };
  billing_items = record { rows = rent ∷ water ∷ []; next = 3 };
  bills = record { rows = march ∷ []; next = 2 };
  bill_line_items = record { rows = march_rent ∷ march_repair ∷ []; next = 3 };
  receipts = record { rows = []; next = 1 };
  user_totp = record { rows = []; next = 1 };
  user_recovery_codes = record { rows = []; next = 1 };
  user_passkeys = record { rows = []; next = 1 };
  audit_logs = record { rows = []; next = 1 };
  themes = record { rows = []; next = 1 };
  files = [];
}

-- A hash that is the password itself.
abbrev pub plain : Bcrypt
plain = record {
  hashpw = λ password salt. password;
  checkpw = λ password hash. password == hash;
  checkpw-hashpw = λ password salt. ==_refl password;
}

-- A renderer that gives the same two bytes for every bill, and one that fails.
abbrev pub config : Config
config = record {
  storage_prefix = "bills";
  has_receipt_repo = true;
  generate = λ bill billing db. ok (1 ∷ 2 ∷ []);
  merge_receipts = λ pdf receipts. pdf;
  save_path = λ key. ok key;
}

abbrev pub failing : Config
failing = record config { generate = λ bill billing db. err (runtime_error "no font") }
