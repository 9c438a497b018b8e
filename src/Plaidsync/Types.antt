-- ===== src/Plaidsync/Types.antt =====
-- The enumerations and row types of plaid-backend-golang/internal/store/types.go.
use money_insighter.Prelude.{ℕ, Bool, true, false, Option, List, Text}
use money_insighter.Plaidsync.Civil.{Date}
use money_insighter.Plaidsync.Money.{Amount}

pub data ItemStatus : Type 0 where
  active login_required pending_expiration permission_revoked error removed : ItemStatus

pub data JobKind : Type 0 where
  initial manual webhook scheduled : JobKind

pub data JobState : Type 0 where
  queued running succeeded failed skipped : JobState

abbrev pub is_terminal : JobState → Bool
is_terminal succeeded = true
is_terminal failed = true
is_terminal skipped = true
is_terminal _ = false

pub data SyncOutcome : Type 0 where
  success retryable_error needs_reauth fatal locked canceled failure : SyncOutcome

-- A transaction row. `details` stands for the descriptive columns, which the code copies only.
pub record Transaction : Type 0 where
  pub transaction_id : Text
  pub account_id : Text
  pub item_id : Text
  pub amount : Amount
  pub date : Date
  pub pending : Bool
  pub pending_transaction_id : Option Text
  pub details : Text
  pub raw : Text
  pub superseded_by : Option Text
  pub superseded_at : Option ℕ
  pub removed_at : Option ℕ
  pub first_seen_at : ℕ

-- An account row; `details` as above.
pub record Account : Type 0 where
  pub account_id : Text
  pub item_id : Text
  pub details : Text
  pub raw : Text
  pub current_balance : Option Amount
  pub available_balance : Option Amount
  pub credit_limit : Option Amount
  pub first_seen_at : ℕ
  pub last_seen_at : ℕ
  pub missing_since : Option ℕ

pub record SyncBatch : Type 0 where
  pub accounts : List Account
  pub upserts : List Transaction
  pub removed : List Text
  pub next_cursor : Text
  pub added : ℕ
  pub modified : ℕ
