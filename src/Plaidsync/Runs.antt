-- ===== src/Plaidsync/Runs.antt =====
-- What one sync keeps and records: `Result`, the captured variables, `recordRun` and `recordFailure`
-- of plaid-backend-golang/internal/sync/engine.go.
use money_insighter.Prelude.{
  ℕ, Bool, true, false, Option, none, some, [], ◌∷◌, ◌++◌, Text, codes, is_empty, if◌then◌else◌,
}
use money_insighter.Plaidsync.Types.{ItemStatus, JobKind, SyncOutcome}
use money_insighter.Plaidsync.Errors.{
  PlaidError, GoError, wrap, as_error, error_text, Class, classify, outcome,
}
use money_insighter.Plaidsync.Paginate.{Pagination}
use money_insighter.Plaidsync.World.{SyncRun, Db, ApplyResult, Fetched, got, lost, Env, add_run, Tx}

pub record Outcome : Type 0 where
  pub item_id : Text
  pub trigger : JobKind
  pub outcome : SyncOutcome
  pub run_id : ℕ
  pub err : Option GoError
  pub skipped : Bool
  pub reason : Text
  pub attempts : ℕ
  pub pages : ℕ
  pub added : ℕ
  pub modified : ℕ
  pub removed : ℕ
  pub update_status : Text
  pub apply : Option ApplyResult
  pub not_ready : Bool

-- The variables that the callback captures.
pub record Vars : Type 0 where
  pub res : Outcome
  pub status_before : ItemStatus
  pub cursor_before : Option Text
  pub failed : Option GoError
  pub run_recorded : Bool

-- The text of an error; the wrapped ones carry their context in front.
unfoldable pub message : GoError → Text
message (GoError.plaid e) = error_text e
message GoError.context_canceled = codes "context canceled"
message GoError.deadline_exceeded = codes "context deadline exceeded"
message GoError.network = codes "network error"
message GoError.item_locked = codes "store: item is locked by another sync"
message GoError.not_found = codes "store: not found"
message GoError.item_removed = codes "store: item removed"
message (GoError.other t) = t
message (wrap t e) = t ++ (codes ": " ++ message e)

abbrev pub Job : Type 0
Job = Option Text

abbrev non_empty : Text → Option Text
non_empty [] = none
non_empty (c ∷ s) = some (c ∷ s)

abbrev plaid_message : PlaidError → GoError → Text
plaid_message e failure = if is_empty e.message then message failure else e.message

abbrev with_details : SyncRun → GoError → Option PlaidError → SyncRun
with_details run failure none = record run { error_message = some (message failure) }
with_details run failure (some e) = record run {
  error_code = non_empty e.code;
  error_type = non_empty e.kind;
  request_id = non_empty e.request_id;
  error_message = some (plaid_message e failure);
}

abbrev pub blank_run : Env → Outcome → Job → Option Text → SyncRun
blank_run env res job cursor_before = record {
  item_id = res.item_id;
  job_id = job;
  trigger = res.trigger;
  started_at = env.started;
  finished_at = env.finished;
  cursor_before = cursor_before;
  cursor_after = none;
  pages = 0;
  added = 0;
  modified = 0;
  removed = 0;
  inserted = 0;
  updated = 0;
  superseded = 0;
  accounts_seen = 0;
  accounts_missing = 0;
  outcome = res.outcome;
  error_code = none;
  error_type = none;
  error_message = none;
  request_id = none;
}

abbrev pub count_run : Pagination → SyncRun → SyncRun
count_run pg run = record run {
  pages = pg.pages;
  added = pg.batch.added;
  modified = pg.batch.modified;
  removed = pg.removed;
}

abbrev pub count_res : Pagination → Outcome → Outcome
count_res pg res = record res {
  pages = pg.pages;
  added = pg.batch.added;
  modified = pg.batch.modified;
  removed = pg.removed;
  update_status = pg.update_status;
}

-- `recordRun`: a failed insert is logged, and the run stays unrecorded.
abbrev pub record_run : Fetched ℕ → SyncRun → Vars → Db → Vars × Db
record_run (got id) run v db =
    (record v { res = record v.res { run_id = id }; run_recorded = true }, add_run run db)
record_run (lost e) run v db =
    (record v { res = record v.res { run_id = 0 }; run_recorded = false }, db)

abbrev failed_run : Env → Job → Vars → Option Pagination → SyncRun
failed_run env job v none = blank_run env v.res job v.cursor_before
failed_run env job v (some pg) = count_run pg (blank_run env v.res job v.cursor_before)

abbrev counted : Vars → Option Pagination → Vars
counted v none = v
counted v (some pg) = record v { res = count_res pg v.res }

-- `recordFailure`, with the assignments of `failure` and the outcome before it; the callback then
-- returns nil.
unfoldable pub record_failure :
    Env → Job → Vars → SyncOutcome → Option Pagination → GoError → Db → Tx Vars
unfolding add_run as_error message
record_failure env job v out pg failure db =
    let v1 = record v { res = record v.res { outcome = out }; failed = some failure } in
    let run = with_details (failed_run env job v1 pg) failure (as_error failure) in
    let (v2, db') = record_run env.record_in_tx run (counted v1 pg) db in (none, v2, db')

abbrev pub is_canceled : Class → Bool
is_canceled Class.canceled = true
is_canceled _ = false

-- The first answer of a failed call: a canceled context rolls back, any other failure is recorded.
unfoldable pub fail_with : Env → Job → Vars → Option Pagination → GoError → GoError → Db → Tx Vars
unfolding record_failure
fail_with env job v pg err failure db =
    if is_canceled (classify err)
    then (some err, record v { res = record v.res { outcome = SyncOutcome.canceled } }, db)
    else record_failure env job v (outcome (classify err)) pg failure db
