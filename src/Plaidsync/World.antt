-- ===== src/Plaidsync/World.antt =====
-- The database as the sync engine sees it: the item row, the audit rows and the committed batches
-- (plaid-backend-golang/internal/store: lock.go, items.go, runs.go, sync_batch.go), and what the
-- environment of one sync decides (the database's and Plaid's failures).
use money_insighter.Prelude.{
  ℕ, Bool, Option, none, some, List, [], ◌∷◌, ◌++◌, Text, codes, is_empty, if◌then◌else◌,
}
use money_insighter.Plaidsync.Types.{ItemStatus, JobKind, SyncOutcome, Account, SyncBatch}
use money_insighter.Plaidsync.Errors.{GoError, wrap, other, item_locked, not_found}
use money_insighter.Plaidsync.Paginate.{SyncConfig, Client, Sleep}

pub record ItemError : Type 0 where
  pub code : Text
  pub kind : Text
  pub message : Text
  pub at : ℕ

pub record Item : Type 0 where
  pub status : ItemStatus
  pub cursor : Option Text
  pub last_error : Option ItemError

pub record SyncRun : Type 0 where
  pub item_id : Text
  pub job_id : Option Text
  pub trigger : JobKind
  pub started_at : ℕ
  pub finished_at : ℕ
  pub cursor_before : Option Text
  pub cursor_after : Option Text
  pub pages : ℕ
  pub added : ℕ
  pub modified : ℕ
  pub removed : ℕ
  pub inserted : ℕ
  pub updated : ℕ
  pub superseded : ℕ
  pub accounts_seen : ℕ
  pub accounts_missing : ℕ
  pub outcome : SyncOutcome
  pub error_code : Option Text
  pub error_type : Option Text
  pub error_message : Option Text
  pub request_id : Option Text

-- `item` is the row of the synced item; `batches` holds what was applied and committed.
pub record Db : Type 0 where
  pub item : Option Item
  pub runs : List SyncRun
  pub batches : List SyncBatch

pub record ApplyResult : Type 0 where
  pub inserted : ℕ
  pub updated : ℕ
  pub unchanged : ℕ
  pub removed : ℕ
  pub superseded : ℕ
  pub accounts_upserted : ℕ
  pub missing_account_ids : List Text

pub data Fetched (A : Type 0) : Type 0 where
  got : A → Fetched A
  lost : GoError → Fetched A

-- pg_try_advisory_xact_lock
pub data LockTry : Type 0 where
  taken busy : LockTry
  lock_error : GoError → LockTry

pub record Env : Type 0 where
  pub cfg : SyncConfig
  pub recurring_enabled : Bool
  pub client : Client
  pub sleep : Sleep
  pub jitter : ℕ → ℕ
  pub fuel : ℕ
  pub begin_error : Option GoError
  pub lock : LockTry
  pub load_error : Option GoError
  pub credential_error : Option GoError
  pub key_version : ℕ
  pub decrypt_error : Option GoError
  pub accounts : Fetched (List Account)
  pub applied : Fetched ApplyResult
  pub record_in_tx : Fetched ℕ
  pub record_outside : Fetched ℕ
  pub commit_error : Option GoError
  pub set_status_error : Option GoError
  pub started : ℕ
  pub finished : ℕ

abbrev pub overwrite : ItemStatus → ItemStatus → ItemError → Item → Item
overwrite ItemStatus.removed status e row = row
overwrite _ status e row = record row { status = status; last_error = some e }

abbrev pub set_row : ItemStatus → ItemError → Option Item → Option Item
set_row status e none = none
set_row status e (some row) = some (overwrite row.status status e row)

-- `SetItemStatus` with an error to record: the UPDATE skips a removed row, and the status removed
-- is refused.
unfoldable pub set_item_status : ItemStatus → ItemError → Db → Db
set_item_status ItemStatus.removed e db = db
set_item_status status e db = record db { item = set_row status e db.item }

-- `insertSyncRun`
unfoldable pub add_run : SyncRun → Db → Db
add_run run db = record db { runs = db.runs ++ run ∷ [] }

-- A removed row is not touched.
abbrev pub move_cursor : ItemStatus → Text → Item → Item
move_cursor ItemStatus.removed next row = row
move_cursor _ next row = record {
  status = ItemStatus.active;
  cursor = some next;
  last_error = none;
}

abbrev pub store_cursor : Text → Option Item → Option Item
store_cursor next none = none
store_cursor next (some row) = some (move_cursor row.status next row)

-- The effect of `ApplySyncBatch` on these tables: the rows of the batch and its cursor.
unfoldable pub apply_batch : SyncBatch → Db → Db
apply_batch b db = record db {
  item = store_cursor b.next_cursor db.item;
  batches = db.batches ++ b ∷ [];
}

-- The outcome of a transaction: its error, the callback's variables and the database.
abbrev pub Tx : Type 0 → Type 0
Tx S = Option GoError × S × Db

abbrev pub in_lock : Text
in_lock = codes "store: with item lock"

abbrev pub in_commit : Text
in_commit = codes "store: with item lock: commit"

abbrev in_load : Text
in_load = codes "store: with item lock: load item"

abbrev in_acquire : Text
in_acquire = codes "store: with item lock: acquire lock"

-- A callback that fails, and a commit that fails, leave the database as it was; what the callback
-- wrote to its variables stays.
abbrev pub conclude : {S : Type 0} → Option GoError → Db → Option (Tx S) → Option (Tx S)
conclude commit db none = none
conclude commit db (some (some e, s, db')) = some (some (wrap in_lock e), s, db)
conclude (some e) db (some (none, s, db')) = some (some (wrap in_commit e), s, db)
conclude none db (some (none, s, db')) = some (none, s, db')

abbrev pub with_row :
    {S : Type 0}
    → Env
    → S
    → (Item → Option (Tx S))
    → Db
    → Option GoError
    → Option Item
    → Option (Tx S)
with_row env s body db (some e) row = some (some (wrap in_load e), s, db)
with_row env s body db none none = some (some (wrap in_load not_found), s, db)
with_row env s body db none (some item) = conclude env.commit_error db (body item)

abbrev pub with_lock :
    {S : Type 0} → Env → S → (Item → Option (Tx S)) → Db → LockTry → Option (Tx S)
with_lock env s body db (lock_error e) = some (some (wrap in_acquire e), s, db)
with_lock env s body db busy = some (some (wrap in_lock item_locked), s, db)
with_lock env s body db taken = with_row env s body db env.load_error db.item

abbrev pub with_tx :
    {S : Type 0} → Env → S → (Item → Option (Tx S)) → Db → Option GoError → Option (Tx S)
with_tx env s body db (some e) = some (some (wrap in_lock e), s, db)
with_tx env s body db none = with_lock env s body db env.lock

-- `WithItemLock`; the callback gets the item, and works on the database of the transaction.
unfoldable pub with_item_lock :
    {S : Type 0} → Env → Text → S → (Item → Option (Tx S)) → Db → Option (Tx S)
with_item_lock env item_id s body db =
    if is_empty item_id
    then some (some (other (codes "store: with item lock: item id is empty")), s, db)
    else with_tx env s body db env.begin_error
