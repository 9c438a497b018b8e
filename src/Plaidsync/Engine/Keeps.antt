-- ===== src/Plaidsync/Engine/Keeps.antt =====
-- What is written after a failure, against the batches and the cursor
-- (plaid-backend-golang/internal/sync/engine.go).
use money_insighter.Prelude.{ℕ, ◌≡◌, refl, ap, ◌∙◌, Option, none, some, Text, if-elim}
use money_insighter.Plaidsync.Types.{ItemStatus, SyncOutcome}
use money_insighter.Plaidsync.Errors.{GoError, as_error}
use money_insighter.Plaidsync.World.{
  Item, ItemError, SyncRun, Db, Env, Fetched, got, lost, add_run, set_item_status, set_row,
  overwrite,
}
use money_insighter.Plaidsync.Runs.{Outcome, Vars, Job, record_run}
use money_insighter.Plaidsync.Engine.{
  record_outside, run_outside, error_of, status_after, set_status_after_failure, written,
}

abbrev pub stored_cursor : Option Item → Option (Option Text)
stored_cursor none = none
stored_cursor (some row) = some row.cursor

-- The batches and the cursor are as they were.
abbrev pub Kept : Db → Db → Type 0
Kept db db' = (db'.batches ≡ db.batches) × (stored_cursor db'.item ≡ stored_cursor db.item)

abbrev pub Recorded : Db → Vars × Db → Type 0
Recorded db (v, db') = Kept db db'

pub record_run-Kept :
    (r : Fetched ℕ) (run : SyncRun) (v : Vars) (db : Db) → Recorded db (record_run r run v db)
unfolding add_run
record_run-Kept (got id) run v db = (refl, refl)
record_run-Kept (lost e) run v db = (refl, refl)

module _ (env : Env) (job : Job) where
  abbrev pub Leaves : Db → Outcome × Db → Type 0
  Leaves db (res, db') = Kept db db'

  overwrite-cursor :
      (now s : ItemStatus) (e : ItemError) (row : Item)
      → (overwrite now s e row).cursor ≡ row.cursor
  overwrite-cursor ItemStatus.removed s e row = refl
  overwrite-cursor ItemStatus.active s e row = refl
  overwrite-cursor ItemStatus.error s e row = refl
  overwrite-cursor ItemStatus.login_required s e row = refl
  overwrite-cursor ItemStatus.pending_expiration s e row = refl
  overwrite-cursor ItemStatus.permission_revoked s e row = refl

  set_row-cursor :
      (s : ItemStatus) (e : ItemError) (row : Option Item)
      → stored_cursor (set_row s e row) ≡ stored_cursor row
  set_row-cursor s e none = refl
  set_row-cursor s e (some row) = ap some (overwrite-cursor row.status s e row)

  set_item_status-Kept :
      (s : ItemStatus) (e : ItemError) (db : Db) → Kept db (set_item_status s e db)
  unfolding set_item_status
  set_item_status-Kept ItemStatus.removed e db = (refl, refl)
  set_item_status-Kept ItemStatus.active e db = (refl, set_row-cursor ItemStatus.active e db.item)
  set_item_status-Kept ItemStatus.error e db = (refl, set_row-cursor ItemStatus.error e db.item)
  set_item_status-Kept ItemStatus.login_required e db =
      (refl, set_row-cursor ItemStatus.login_required e db.item)
  set_item_status-Kept ItemStatus.pending_expiration e db =
      (refl, set_row-cursor ItemStatus.pending_expiration e db.item)
  set_item_status-Kept ItemStatus.permission_revoked e db =
      (refl, set_row-cursor ItemStatus.permission_revoked e db.item)

  written-Kept :
      (o : Option GoError) (s : ItemStatus) (ie : ItemError) (db : Db) → Kept db (written o s ie db)
  written-Kept (some e) s ie db = (refl, refl)
  written-Kept none s ie db = set_item_status-Kept s ie db

  pub set_status-Kept :
      (s : ItemStatus) (out : SyncOutcome) (e : GoError) (db : Db)
      → Kept db (set_status_after_failure env s out e db)
  unfolding set_status_after_failure
  set_status-Kept s out e db =
      written-Kept env.set_status_error (status_after out s (as_error e))
        (error_of env e (as_error e)) db

  run_outside-Kept :
      (run : SyncRun) (res : Outcome) (db : Db) (r : Fetched ℕ)
      → Leaves db (run_outside run res db r)
  unfolding add_run
  run_outside-Kept run res db (lost e) = (refl, refl)
  run_outside-Kept run res db (got id) = (refl, refl)

  pub record_outside-Kept :
      (v : Vars) (res : Outcome) (e : GoError) (db : Db)
      → Leaves db (record_outside env job v res e db)
  record_outside-Kept v res e db =
      if-elim (Leaves db) v.run_recorded _ _ (λ _. (refl, refl))
        (λ _. run_outside-Kept _ res db env.record_outside)

  pub Kept-trans : (a b c : Db) → Kept a b → Kept b c → Kept a c
  Kept-trans a b c (p, q) (p', q') = (p' ∙ p, q' ∙ q)
