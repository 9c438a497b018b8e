-- ===== src/Examples/Engine.antt =====
-- Runs of plaid-backend-golang's sync engine.
use money_insighter.Prelude.{
  ◌≡◌, refl, arith, Bool, true, false, Option, none, some, [], ◌∷◌, ◌++◌, Text, codes,
}
use money_insighter.Plaidsync.Types.{ItemStatus, JobKind, SyncOutcome}
use money_insighter.Plaidsync.Errors.{other, classify, root}
use money_insighter.Plaidsync.Paginate.{
  Page, Reply, answer, fails, Client, SyncConfig, Pagination, fresh, paginate, drained, gave_up,
  backoff, double_until, capped,
}
use money_insighter.Plaidsync.Paginate
use money_insighter.Plaidsync.Paginate.Drain.{collect}
use money_insighter.Plaidsync.World.{Item, Db, Env, got, taken, ApplyResult, Tx}
use money_insighter.Plaidsync.Runs.{Outcome, Vars}
use money_insighter.Plaidsync.Callback
use money_insighter.Plaidsync.Callback.{locked_body}
use money_insighter.Plaidsync.Engine.{Finished, sync_item, start_vars}
use money_insighter.Plaidsync.Engine
use money_insighter.Plaidsync.Engine.Keeps.{stored_cursor}
use money_insighter.Plaidsync.Engine.Moves.{Effect}
use money_insighter.Plaidsync.Engine.Cursor.{sync_item-Effect}
use money_insighter.Plaidsync.Engine.Reports.{Verdict}
use money_insighter.Plaidsync.Engine.Verdict.{sync_item-Verdict}
use money_insighter.Plaidsync.Engine.Success.{AllWell, sync_item-AllWell}
use money_insighter.Plaidsync.Engine.Audit.{IsUnrecorded, sync_item-lost_run}
use money_insighter.Examples.Plaidsync.{
  checking, first_page, last_page, two_pages, cfg, no_jitter, no_wait, two_pages-Chain,
}

abbrev bank : Item
bank = record { status = ItemStatus.active; cursor = none; last_error = none }

abbrev db : Db
db = record { item = some bank; runs = []; batches = [] }

abbrev stored : ApplyResult
stored = record {
  inserted = 1;
  updated = 0;
  unchanged = 0;
  removed = 1;
  superseded = 0;
  accounts_upserted = 1;
  missing_account_ids = [];
}

abbrev env : Env
env = record {
  cfg = cfg;
  recurring_enabled = true;
  client = two_pages;
  sleep = no_wait;
  jitter = no_jitter;
  fuel = 5;
  begin_error = none;
  lock = taken;
  load_error = none;
  credential_error = none;
  key_version = 1;
  decrypt_error = none;
  accounts = got (checking ∷ []);
  applied = got stored;
  record_in_tx = got 7;
  record_outside = got 8;
  commit_error = none;
  set_status_error = none;
  started = 100;
  finished = 101;
}

abbrev torn_env : Env
torn_env = record env { commit_error = some (other (codes "connection reset")) }

abbrev from_some : {A : Type 0} → A → Option A → A
from_some d none = d
from_some d (some a) = a

abbrev synced : Finished
synced =
    from_some ((start_vars (codes "i1") JobKind.manual).res, db, false)
      (sync_item env (codes "i1") JobKind.manual none db)

sync_item-Effect_example : Effect env db synced.0 synced.1
unfolding Engine.sync_item paginate
sync_item-Effect_example =
    sync_item-Effect env none (codes "i1") JobKind.manual db synced.0 synced.1 synced.2 refl

sync_item-Verdict_example : Verdict synced.0
unfolding Engine.sync_item paginate
sync_item-Verdict_example =
    sync_item-Verdict env none (codes "i1") JobKind.manual db synced.0 synced.1 synced.2 refl

abbrev all_well : AllWell env db
unfolding collect Paginate.add_page
all_well = record {
  row = bank;
  ps = first_page ∷ last_page ∷ [];
  accts = checking ∷ [];
  stored = stored;
  run_id = 7;
  held = refl;
  active = refl;
  begun = refl;
  free = refl;
  loaded = refl;
  credential = refl;
  decrypted = refl;
  tries = omega arith;
  chain = two_pages-Chain;
  fuel = omega arith;
  ready = refl;
  listed = refl;
  applied = refl;
  recorded = refl;
  committed_well = refl;
}

abbrev Succeeds : Text → Type 0
Succeeds item_id =
    (res : Outcome) × (db' : Db) × (refreshes : Bool) × (sync_item env item_id JobKind.manual none
        db
      ≡ some (res, db', refreshes))
    × (res.outcome ≡ SyncOutcome.success)
    × (res.err ≡ none)
    × (res.run_id ≡ 7)
    × (db'.batches
        ≡ []
          ++ (record (collect fresh (first_page ∷ last_page ∷ [])).batch {
            accounts = checking ∷ [];
          })
            ∷ [])
    × (stored_cursor db'.item
        ≡ some (some (collect fresh (first_page ∷ last_page ∷ [])).batch.next_cursor))

sync_item-AllWell_example : Succeeds (codes "i1")
unfolding all_well
sync_item-AllWell_example = sync_item-AllWell env none db (codes "i1") JobKind.manual all_well refl

-- The variables at the end of the callback, before the commit fails.
abbrev torn : Option (Tx Vars)
torn = locked_body torn_env none (start_vars (codes "i1") JobKind.manual) db bank

abbrev vars_of : Option (Tx Vars) → Vars
vars_of none = start_vars [] JobKind.manual
vars_of (some (e, v, db')) = v

abbrev db_of : Option (Tx Vars) → Db
db_of none = db
db_of (some (e, v, db')) = db'

sync_item-lost_run_example :
    (r : Finished) × (sync_item torn_env (codes "i1") JobKind.manual none db ≡ some r)
    × IsUnrecorded (vars_of torn) db SyncOutcome.failure r
unfolding Callback.locked_body paginate classify root
sync_item-lost_run_example =
    sync_item-lost_run torn_env none (codes "i1") JobKind.manual db (db_of torn) bank (vars_of torn)
      (other (codes "connection reset")) refl refl refl refl refl refl refl refl
