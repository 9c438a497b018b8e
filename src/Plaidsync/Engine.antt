-- ===== src/Plaidsync/Engine.antt =====
-- `SyncItem` of plaid-backend-golang/internal/sync/engine.go: the locked callback, then what follows a
-- commit and a rollback. `none` is the callback's.
pub mod Reports
pub mod Verdict
pub mod Audit
pub mod Success
pub mod Keeps
pub mod Moves
pub mod Cursor
use money_insighter.Prelude.{
  ℕ, Bool, true, false, ◌&&◌, ◌||◌, not, Option, none, some, List, [], ◌∷◌, ◌++◌, Text, codes,
  is_empty, length, if◌then◌else◌,
}
use money_insighter.Plaidsync.Types.{ItemStatus, JobKind, SyncOutcome, Account, SyncBatch}
use money_insighter.Plaidsync.Errors.{
  PlaidError, GoError, wrap, as_error, root, error_text, Class, classify, outcome, item_status,
  item_locked, not_found,
}
use money_insighter.Plaidsync.Paginate.{
  Pagination, Paginated, drained, gave_up, never_tried, Paged, paginate,
}
use money_insighter.Plaidsync.World.{
  ItemError, Item, SyncRun, Db, ApplyResult, Fetched, got, lost, Env, set_item_status, add_run,
  apply_batch, Tx, with_item_lock,
}
use money_insighter.Plaidsync.Runs.{
  Outcome, Vars, message, Job, blank_run, count_run, count_res, record_run, record_failure,
  is_canceled, fail_with,
}
use money_insighter.Plaidsync.Callback.{cursor_text, locked_body}

abbrev pub error_of : Env → GoError → Option PlaidError → ItemError
error_of env failure none = record {
  code = [];
  kind = [];
  message = message failure;
  at = env.finished;
}
error_of env failure (some e) = record {
  code = e.code;
  kind = e.kind;
  message = if is_empty e.message then message failure else e.message;
  at = env.finished;
}

abbrev pub reauth_or_error : SyncOutcome → Option PlaidError → ItemStatus
reauth_or_error SyncOutcome.needs_reauth (some e) = item_status e
reauth_or_error out e = ItemStatus.error

abbrev pub status_after : SyncOutcome → ItemStatus → Option PlaidError → ItemStatus
status_after SyncOutcome.retryable_error before e = before
status_after out before e = reauth_or_error out e

abbrev pub written : Option GoError → ItemStatus → ItemError → Db → Db
written (some e) status ie db = db
written none status ie db = set_item_status status ie db

-- `setItemStatusAfterFailure`
unfoldable pub set_status_after_failure : Env → ItemStatus → SyncOutcome → GoError → Db → Db
unfolding as_error message set_item_status
set_status_after_failure env before out failure db =
    written env.set_status_error (status_after out before (as_error failure))
      (error_of env failure (as_error failure)) db

-- The result, the database, and whether the recurring streams are refreshed afterwards.
abbrev pub Finished : Type 0
Finished = Outcome × Db × Bool

abbrev pub after_commit : Env → Vars → Db → Option GoError → Finished
after_commit env v db none =
    if v.res.skipped
    then (v.res, db, false)
    else (v.res, db, env.recurring_enabled && not v.res.not_ready)
after_commit env v db (some failure) = if v.res.skipped then (v.res, db, false) else (
  record v.res { err = some failure },
  set_status_after_failure env v.status_before v.res.outcome failure db,
  false,
)

abbrev pub run_outside : SyncRun → Outcome → Db → Fetched ℕ → Outcome × Db
run_outside run res db (lost e) = (res, db)
run_outside run res db (got id) = (record res { run_id = id }, add_run run db)

-- A run that the callback did not record is recorded outside the transaction.
abbrev pub record_outside : Env → Job → Vars → Outcome → GoError → Db → Outcome × Db
record_outside env job v res lock_err db =
    if v.run_recorded
    then (res, db)
    else run_outside
        (record (blank_run env res job v.cursor_before) {
          pages = res.pages;
          error_message = some (message lock_err);
        })
        res db env.record_outside

abbrev pub set_outcome : SyncOutcome → GoError → Outcome → Outcome
set_outcome out e res = record res { err = some e; outcome = out }

abbrev pub is_canceled_outcome : SyncOutcome → Bool
is_canceled_outcome SyncOutcome.canceled = true
is_canceled_outcome _ = false

-- Any other error of the transaction.
abbrev pub rolled_back : Env → Job → Vars → GoError → Db → Finished
rolled_back env job v e db =
    if is_canceled_outcome v.res.outcome || is_canceled (classify e)
    then (set_outcome SyncOutcome.canceled e v.res, db, false)
    else (let (res, db1) =
          record_outside env job v (set_outcome SyncOutcome.failure e v.res) e db in
        (res, set_status_after_failure env v.status_before SyncOutcome.failure e db1, false))

abbrev pub after_rollback : Env → Job → Vars → GoError → Db → GoError → Finished
after_rollback env job v e db GoError.item_locked =
    let (res, db1) = record_outside env job v (set_outcome SyncOutcome.locked e v.res) e db in
    (res, db1, false)
after_rollback env job v e db GoError.not_found =
    (set_outcome SyncOutcome.failure e v.res, db, false)
after_rollback env job v e db _ = rolled_back env job v e db

abbrev pub conclude_sync : Env → Job → Option (Tx Vars) → Option Finished
conclude_sync env job none = none
conclude_sync env job (some (none, v, db)) = some (after_commit env v db v.failed)
conclude_sync env job (some (some e, v, db)) = some (after_rollback env job v e db (root e))

abbrev pub start_vars : Text → JobKind → Vars
start_vars item_id trigger = record {
  res = record {
    item_id = item_id;
    trigger = trigger;
    outcome = SyncOutcome.failure;
    run_id = 0;
    err = none;
    skipped = false;
    reason = [];
    attempts = 0;
    pages = 0;
    added = 0;
    modified = 0;
    removed = 0;
    update_status = [];
    apply = none;
    not_ready = false;
  };
  status_before = ItemStatus.active;
  cursor_before = none;
  failed = none;
  run_recorded = false;
}

unfoldable pub sync_item : Env → Text → JobKind → Job → Db → Option Finished
unfolding locked_body with_item_lock set_status_after_failure
sync_item env item_id trigger job db =
    let v = start_vars item_id trigger in
    conclude_sync env job (with_item_lock env item_id v (locked_body env job v db) db)
