-- ===== src/Points/Model.antt =====
-- The rows of the points tables (app/models/entities.py) and the session that the service works
-- on: the locked user row and the three tables, newest row first.
use python_server.Base.{ℕ, Bool, true, false, ◌&&◌, Option, List, Text, ◌==◌, text_eq, find}

-- The columns of UserAccount that the services read or write. `balance` is in fen.
pub record User : Type 0 where
  pub id : ℕ
  pub user_no : Text
  pub points : ℕ
  pub balance : ℕ
  pub vip_enabled : Bool
  pub vip_type : Text
  pub vip_started_at : Option ℕ
  pub vip_expires_at : Option ℕ

pub data Direction : Type 0 where
  income expense : Direction

abbrev pub is_income : Direction → Bool
is_income income = true
is_income expense = false

abbrev pub is_expense : Direction → Bool
is_expense income = false
is_expense expense = true

pub record Ledger : Type 0 where
  pub id : ℕ
  pub transaction_no : Text
  pub user_id : ℕ
  pub user_no : Text
  pub direction : Direction
  pub amount : ℕ
  pub balance_before : ℕ
  pub balance_after : ℕ
  pub biz_type : Text
  pub biz_id : ℕ
  pub biz_no : Text
  pub idempotency_key : Text
  pub remark : Text

pub data LotStatus : Type 0 where
  active consumed expired revoked : LotStatus

abbrev pub is_active : LotStatus → Bool
is_active active = true
is_active _ = false

abbrev pub is_revoked : LotStatus → Bool
is_revoked revoked = true
is_revoked _ = false

pub record Lot : Type 0 where
  pub id : ℕ
  pub user_id : ℕ
  pub source_ledger_id : ℕ
  pub original_amount : ℕ
  pub remaining_amount : ℕ
  pub expires_at : Option ℕ
  pub status : LotStatus

pub record Allocation : Type 0 where
  pub id : ℕ
  pub expense_ledger_id : ℕ
  pub lot_id : ℕ
  pub amount : ℕ
  pub restored_amount : ℕ

-- `issued` counts the snowflake ids handed out; an id is represented by its place in that order.
pub record Session : Type 0 where
  pub user : User
  pub ledgers : List Ledger
  pub lots : List Lot
  pub allocations : List Allocation
  pub next_ledger : ℕ
  pub next_lot : ℕ
  pub next_allocation : ℕ
  pub issued : ℕ

-- The keyword arguments that name what a change of points is for.
pub record Posting : Type 0 where
  pub biz_type : Text
  pub biz_id : ℕ
  pub biz_no : Text
  pub idempotency_key : Text
  pub remark : Text

-- `PointService.find_ledger`; the unique constraint leaves one row at most.
abbrev pub has_key : ℕ → Text → Ledger → Bool
has_key user_id key row = (row.user_id == user_id) && text_eq row.idempotency_key key

abbrev pub find_ledger : ℕ → Text → List Ledger → Option Ledger
find_ledger user_id key = find (has_key user_id key)
