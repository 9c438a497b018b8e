-- ===== src/Plaidsync/Callback.antt =====
-- The callback that `SyncItem` of plaid-backend-golang/internal/sync/engine.go runs under the item
-- lock. `none` means that a pagination has not ended within the fuel, or that MaxAttempts is 0, where
-- the source would read a nil pointer.
use money_insighter.Prelude.{
  ℕ, ◌++◌, itoa, true, Option, none, some, List, [], Text, codes, is_empty, length, if◌then◌else◌,
}
use money_insighter.Plaidsync.Types.{ItemStatus, SyncOutcome, Account}
use money_insighter.Plaidsync.Errors.{GoError, wrap}
use money_insighter.Plaidsync.Paginate.{Pagination, drained, gave_up, never_tried, Paged, paginate}
use money_insighter.Plaidsync.World.{
  Item, SyncRun, Db, ApplyResult, Fetched, got, lost, Env, add_run, apply_batch, Tx,
}
use money_insighter.Plaidsync.Runs.{
  Vars, Job, blank_run, count_run, count_res, record_run, record_failure, fail_with,
}

abbrev pub success_run : Env → Job → Vars → Pagination → List Account → ApplyResult → SyncRun
success_run env job v pg accts r = record (count_run pg (blank_run env v.res job v.cursor_before)) {
  cursor_after = some pg.batch.next_cursor;
  inserted = r.inserted;
  updated = r.updated;
  superseded = r.superseded;
  accounts_seen = length accts;
  accounts_missing = length r.missing_account_ids;
  outcome = SyncOutcome.success;
}

abbrev pub committed : Env → SyncRun → Vars → Db → Fetched ℕ → Tx Vars
committed env run v db (lost e) = (some (wrap (codes "record run") e), v, db)
committed env run v db (got id) = (
  none,
  record v {
    res = record v.res { run_id = id; outcome = SyncOutcome.success };
    run_recorded = true;
  },
  add_run run db,
)

abbrev pub apply_with :
    Env → Job → Vars → Pagination → List Account → Db → Fetched ApplyResult → Tx Vars
apply_with env job v pg accts db (lost e) = (some (wrap (codes "apply") e), v, db)
apply_with env job v pg accts db (got r) =
    let v1 = record v { res = record v.res { apply = some r } } in
    committed env (success_run env job v1 pg accts r) v1
      (apply_batch (record pg.batch { accounts = accts }) db) env.record_in_tx

abbrev pub with_accounts : Env → Job → Vars → Pagination → Db → Fetched (List Account) → Tx Vars
with_accounts env job v pg db (lost e) =
    fail_with env job v (some pg) e (wrap (codes "accounts") e) db
with_accounts env job v pg db (got accts) = apply_with env job v pg accts db env.applied

-- An empty cursor: Plaid has not finished the first pull, and nothing is applied.
abbrev pub not_ready : Env → Job → Vars → Pagination → Db → Tx Vars
not_ready env job v pg db =
    let v1 = record v { res = record v.res { not_ready = true; outcome = SyncOutcome.success } } in
    let run = record (blank_run env v1.res job v.cursor_before) {
      cursor_after = v.cursor_before;
      pages = pg.pages;
    } in
    let (v2, db') = record_run env.record_in_tx run v1 db in (none, v2, db')

abbrev pub with_pages : Env → Job → Vars → Db → Option Paged → Option (Tx Vars)
with_pages env job v db none = none
with_pages env job v db (some (never_tried, a, n)) = none
with_pages env job v db (some (gave_up pg err, a, n)) =
    some (fail_with env job (record v { res = record v.res { attempts = a } }) (some pg) err err db)
with_pages env job v db (some (drained pg, a, n)) =
    let v1 = record v { res = count_res pg (record v.res { attempts = a }) } in
    some (
      if is_empty pg.batch.next_cursor
      then not_ready env job v1 pg db
      else with_accounts env job v1 pg db env.accounts)

abbrev pub cursor_text : Option Text → Text
cursor_text none = []
cursor_text (some c) = c

abbrev pub decrypting : ℕ → Text
decrypting version = codes "decrypt access token (key version " ++ (itoa version ++ codes ")")

abbrev pub with_token : Env → Job → Vars → Db → Item → Option GoError → Option (Tx Vars)
with_token env job v db item (some e) =
    some (record_failure env job v SyncOutcome.fatal none (wrap (decrypting env.key_version) e) db)
with_token env job v db item none =
    with_pages env job v db
      (paginate env.cfg env.client env.sleep env.jitter env.fuel (cursor_text item.cursor))

abbrev pub with_credential : Env → Job → Vars → Db → Item → Option GoError → Option (Tx Vars)
with_credential env job v db item (some e) = some (some (wrap (codes "read credential") e), v, db)
with_credential env job v db item none = with_token env job v db item env.decrypt_error

abbrev pub skip : SyncOutcome → Text → Vars → Db → Option (Tx Vars)
skip out reason v db =
    some
      (none, record v { res = record v.res { skipped = true; reason = reason; outcome = out } }, db)

abbrev pub by_status : Env → Job → Vars → Db → Item → ItemStatus → Option (Tx Vars)
by_status env job v db item ItemStatus.removed =
    skip SyncOutcome.fatal (codes "item is removed") v db
by_status env job v db item ItemStatus.login_required =
    skip SyncOutcome.needs_reauth (codes "item is login_required; Link update mode is required") v
      db
by_status env job v db item ItemStatus.pending_expiration =
    skip SyncOutcome.needs_reauth (codes "item is pending_expiration; Link update mode is required")
      v db
by_status env job v db item ItemStatus.permission_revoked =
    skip SyncOutcome.needs_reauth (codes "item is permission_revoked; Link update mode is required")
      v db
by_status env job v db item _ = with_credential env job v db item env.credential_error

-- The callback of `WithItemLock`.
unfoldable pub locked_body : Env → Job → Vars → Db → Item → Option (Tx Vars)
unfolding fail_with
locked_body env job v db item =
    by_status env job (record v { status_before = item.status; cursor_before = item.cursor }) db
      item item.status
