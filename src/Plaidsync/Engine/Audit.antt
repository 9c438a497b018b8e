-- ===== src/Plaidsync/Engine/Audit.antt =====
-- The audit row and a failing commit: `SyncItem` of plaid-backend-golang/internal/sync/engine.go.
use money_insighter.Prelude.{
  Bool, ◌||◌, sym, subst, true, false, ◌≡◌, refl, ap, ◌∙◌, Option, none, some, Text, is_empty,
  if-elim, arith,
}
use money_insighter.Plaidsync.Types.{ItemStatus, JobKind, SyncOutcome}
use money_insighter.Plaidsync.Errors.{GoError, plaid, classify, other, root, wrap}
use money_insighter.Plaidsync.World.{
  Item, ItemError, Db, Env, Tx, set_item_status, with_item_lock, in_commit, taken, with_tx,
  with_lock, with_row, conclude,
}
use money_insighter.Plaidsync.Runs.{Outcome, Vars, Job, is_canceled}
use money_insighter.Plaidsync.Callback.{locked_body}
use money_insighter.Plaidsync.Engine.{
  Finished, record_outside, after_rollback, sync_item, rolled_back, written, conclude_sync,
  set_outcome, set_status_after_failure, is_canceled_outcome, start_vars,
}

set_item_status-runs :
    (s : ItemStatus) (e : ItemError) (db : Db) → (set_item_status s e db).runs ≡ db.runs
unfolding set_item_status
set_item_status-runs ItemStatus.removed e db = refl
set_item_status-runs ItemStatus.active e db = refl
set_item_status-runs ItemStatus.error e db = refl
set_item_status-runs ItemStatus.login_required e db = refl
set_item_status-runs ItemStatus.pending_expiration e db = refl
set_item_status-runs ItemStatus.permission_revoked e db = refl

written-runs :
    (o : Option GoError) (s : ItemStatus) (ie : ItemError) (db : Db)
    → (written o s ie db).runs ≡ db.runs
written-runs (some e) s ie db = refl
written-runs none s ie db = set_item_status-runs s ie db

-- The locked callback runs when the transaction begins, the lock is free and the row is there.
pub with_item_lock-held :
    {S : Type 0} (env : Env) (id : Text) (s : S) (body : Item → Option (Tx S)) (db : Db)
    (row : Item)
    → is_empty id ≡ false
    → env.begin_error ≡ none
    → env.lock ≡ taken
    → env.load_error ≡ none
    → db.item ≡ some row
    → with_item_lock env id s body db ≡ conclude env.commit_error db (body row)
unfolding with_item_lock
with_item_lock-held env id s body db row named begun locked loaded held =
    if-elim (λ r. r ≡ conclude env.commit_error db (body row)) (is_empty id) _ _
      (λ e. absurd (ground (arith, e, named)))
      (λ _.
        ap (with_tx env s body db) begun
        ∙ (ap (with_lock env s body db) locked
            ∙ (ap (λ x. with_row env s body db x db.item) loaded
                ∙ ap (with_row env s body db none) held)))

-- The outcome after a rollback with an innermost error, where `was_canceled` says that the callback
-- or the error was canceled.
abbrev pub lost_outcome : Bool → GoError → SyncOutcome
lost_outcome was_canceled GoError.item_locked = SyncOutcome.locked
lost_outcome was_canceled GoError.not_found = SyncOutcome.failure
lost_outcome true _ = SyncOutcome.canceled
lost_outcome false _ = SyncOutcome.failure

abbrev pub was_canceled : Vars → GoError → Bool
was_canceled v e = is_canceled_outcome v.res.outcome || is_canceled (classify e)

-- A run that ends without a row of its own.
pub record IsUnrecorded (v : Vars) (db : Db) (out : SyncOutcome) (r : Finished) : Type 0 where
  pub not_refreshed : r.2 ≡ false
  pub runs_kept : r.1.runs ≡ db.runs
  pub id_kept : r.0.run_id ≡ v.res.run_id
  pub outcome_is : r.0.outcome ≡ out

abbrev lost_class : Bool → SyncOutcome
lost_class true = SyncOutcome.canceled
lost_class false = SyncOutcome.failure

module _ (env : Env) (job : Job) where
  recorded_outside :
      (v : Vars) (res : Outcome) (e : GoError) (db : Db)
      → v.run_recorded ≡ true
      → record_outside env job v res e db ≡ (res, db)
  recorded_outside v res e db recorded = simp (recorded)

  rolled_back-recorded :
      (v : Vars) (e : GoError) (db : Db)
      → was_canceled v e ≡ false
      → v.run_recorded ≡ true
      → rolled_back env job v e db ≡ (
        set_outcome SyncOutcome.failure e v.res,
        set_status_after_failure env v.status_before SyncOutcome.failure e db,
        false,
      )
  rolled_back-recorded v e db kind recorded = simp (kind, recorded)

  rolled_back-canceled :
      (v : Vars) (e : GoError) (db : Db)
      → was_canceled v e ≡ true
      → rolled_back env job v e db ≡ (set_outcome SyncOutcome.canceled e v.res, db, false)
  rolled_back-canceled v e db kind = simp (kind)

  failure_kept :
      (v : Vars) (e : GoError) (db : Db)
      → (set_status_after_failure env v.status_before SyncOutcome.failure e db).runs ≡ db.runs
  unfolding set_status_after_failure
  failure_kept v e db = written-runs env.set_status_error _ _ db

  rolled_back-IsUnrecorded :
      (v : Vars) (e : GoError) (db : Db) (b : Bool)
      → v.run_recorded ≡ true
      → was_canceled v e ≡ b
      → IsUnrecorded v db (lost_class b) (rolled_back env job v e db)
  rolled_back-IsUnrecorded v e db true recorded kind =
      subst (IsUnrecorded v db SyncOutcome.canceled) (sym (rolled_back-canceled v e db kind))
        (record { not_refreshed = refl; runs_kept = refl; id_kept = refl; outcome_is = refl })
  rolled_back-IsUnrecorded v e db false recorded kind =
      subst (IsUnrecorded v db SyncOutcome.failure)
        (sym (rolled_back-recorded v e db kind recorded))
        (record {
          not_refreshed = refl;
          runs_kept = failure_kept v e db;
          id_kept = refl;
          outcome_is = refl;
        })

  after_rollback-IsUnrecorded :
      (v : Vars) (e : GoError) (db : Db) (g : GoError) (b : Bool)
      → v.run_recorded ≡ true
      → was_canceled v e ≡ b
      → IsUnrecorded v db (lost_outcome b g) (after_rollback env job v e db g)
  after_rollback-IsUnrecorded v e db GoError.item_locked b recorded kind =
      subst (λ (r : Outcome × Db). IsUnrecorded v db SyncOutcome.locked (r.0, r.1, false))
        (sym (recorded_outside v (set_outcome SyncOutcome.locked e v.res) e db recorded))
        (record { not_refreshed = refl; runs_kept = refl; id_kept = refl; outcome_is = refl })
  after_rollback-IsUnrecorded v e db GoError.not_found b recorded kind = record {
    not_refreshed = refl;
    runs_kept = refl;
    id_kept = refl;
    outcome_is = refl;
  }
  after_rollback-IsUnrecorded v e db (plaid p) true recorded kind =
      rolled_back-IsUnrecorded v e db true recorded kind
  after_rollback-IsUnrecorded v e db (plaid p) false recorded kind =
      rolled_back-IsUnrecorded v e db false recorded kind
  after_rollback-IsUnrecorded v e db GoError.context_canceled true recorded kind =
      rolled_back-IsUnrecorded v e db true recorded kind
  after_rollback-IsUnrecorded v e db GoError.context_canceled false recorded kind =
      rolled_back-IsUnrecorded v e db false recorded kind
  after_rollback-IsUnrecorded v e db GoError.deadline_exceeded true recorded kind =
      rolled_back-IsUnrecorded v e db true recorded kind
  after_rollback-IsUnrecorded v e db GoError.deadline_exceeded false recorded kind =
      rolled_back-IsUnrecorded v e db false recorded kind
  after_rollback-IsUnrecorded v e db GoError.network true recorded kind =
      rolled_back-IsUnrecorded v e db true recorded kind
  after_rollback-IsUnrecorded v e db GoError.network false recorded kind =
      rolled_back-IsUnrecorded v e db false recorded kind
  after_rollback-IsUnrecorded v e db GoError.item_removed true recorded kind =
      rolled_back-IsUnrecorded v e db true recorded kind
  after_rollback-IsUnrecorded v e db GoError.item_removed false recorded kind =
      rolled_back-IsUnrecorded v e db false recorded kind
  after_rollback-IsUnrecorded v e db (other t) true recorded kind =
      rolled_back-IsUnrecorded v e db true recorded kind
  after_rollback-IsUnrecorded v e db (other t) false recorded kind =
      rolled_back-IsUnrecorded v e db false recorded kind
  after_rollback-IsUnrecorded v e db (wrap t g) true recorded kind =
      rolled_back-IsUnrecorded v e db true recorded kind
  after_rollback-IsUnrecorded v e db (wrap t g) false recorded kind =
      rolled_back-IsUnrecorded v e db false recorded kind

  -- For an item id that is not empty, when the transaction begins, gets the lock and loads the row, the
  -- callback ends without an error and has recorded its run, and the commit then fails, with whatever
  -- error: the audit row is lost with the transaction and none is written in its place, while the
  -- result keeps the id of the lost row. The sync reports locked if the innermost error is
  -- ErrItemLocked, else canceled if the callback or the error was canceled and the innermost error is
  -- not ErrNotFound, else an error, and the recurring streams are not refreshed.
  pub sync_item-lost_run :
      (item_id : Text) (trigger : JobKind) (db db1 : Db) (row : Item) (v : Vars) (e : GoError)
      → is_empty item_id ≡ false
      → env.begin_error ≡ none
      → env.lock ≡ taken
      → env.load_error ≡ none
      → env.commit_error ≡ some e
      → db.item ≡ some row
      → locked_body env job (start_vars item_id trigger) db row ≡ some (none, v, db1)
      → v.run_recorded ≡ true
      → (r : Finished) × (sync_item env item_id trigger job db ≡ some r)
        × IsUnrecorded v db (lost_outcome (was_canceled v e) (root e)) r
  unfolding sync_item root classify
  sync_item-lost_run item_id trigger db db1 row v e named begun locked loaded commit held body
        recorded =
      (
        after_rollback env job v (wrap in_commit e) db (root e),
        ap (conclude_sync env job) (
            with_item_lock-held env item_id (start_vars item_id trigger)
              (locked_body env job (start_vars item_id trigger) db) db row named begun locked loaded
              held
            ∙ (ap (λ c. conclude c db (locked_body env job (start_vars item_id trigger) db row))
                  commit
                ∙ ap (conclude (some e) db) body)),
        after_rollback-IsUnrecorded v (wrap in_commit e) db (root e) (was_canceled v e) recorded
            refl,
      )
