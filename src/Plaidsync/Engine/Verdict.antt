-- ===== src/Plaidsync/Engine/Verdict.antt =====
-- The outcome and the error of a `Result` of plaid-backend-golang/internal/sync/engine.go.
use money_insighter.Prelude.{
  ℕ, Bool, ◌||◌, ◌≡◌, refl, subst, inl, inr, Option, none, some, Text, if-elim, arith,
}
use money_insighter.Plaidsync.Types.{JobKind, SyncOutcome}
use money_insighter.Plaidsync.Errors.{GoError, classify, root, wrap}
use money_insighter.Plaidsync.World.{SyncRun, Db, Env, Fetched, got, lost, Tx}
use money_insighter.Plaidsync.Runs.{Outcome, Vars, Job, is_canceled}
use money_insighter.Plaidsync.Engine.{
  sync_item, Finished, after_commit, after_rollback, rolled_back, record_outside, run_outside,
  conclude_sync, set_outcome, is_canceled_outcome, start_vars,
}
use money_insighter.Plaidsync.Engine.Reports.{Verdict, Body, Fine, with_item_lock-Fine}

module _ (env : Env) (job : Job) where
  abbrev Result : Finished → Type 0
  Result (res, db, refreshes) = Verdict res

  abbrev OfOutside : Outcome × Db → Type 0
  OfOutside (res, db) = Verdict res

  run_outside-Verdict :
      (run : SyncRun) (res : Outcome) (db : Db) (r : Fetched ℕ)
      → Verdict res
      → OfOutside (run_outside run res db r)
  run_outside-Verdict run res db (lost e) h = h
  run_outside-Verdict run res db (got id) h = h

  record_outside-Verdict :
      (v : Vars) (res : Outcome) (e : GoError) (db : Db)
      → Verdict res
      → OfOutside (record_outside env job v res e db)
  record_outside-Verdict v res e db h =
      if-elim OfOutside v.run_recorded _ _ (λ _. h)
        (λ _. run_outside-Verdict _ res db env.record_outside h)

  rolled_back-Verdict : (v : Vars) (e : GoError) (db : Db) → Result (rolled_back env job v e db)
  rolled_back-Verdict v e db =
      if-elim Result (is_canceled_outcome v.res.outcome || is_canceled (classify e)) _ _
        (λ _. inr (e, refl, refl))
        (λ _.
          record_outside-Verdict v (set_outcome SyncOutcome.failure e v.res) e db
            (inr (e, refl, refl)))

  after_rollback-Verdict :
      (v : Vars) (e : GoError) (db : Db) (r : GoError) → Result (after_rollback env job v e db r)
  after_rollback-Verdict v e db GoError.item_locked =
      record_outside-Verdict v (set_outcome SyncOutcome.locked e v.res) e db (inr (e, refl, refl))
  after_rollback-Verdict v e db GoError.not_found = inr (e, refl, refl)
  after_rollback-Verdict v e db (GoError.plaid x) = rolled_back-Verdict v e db
  after_rollback-Verdict v e db GoError.context_canceled = rolled_back-Verdict v e db
  after_rollback-Verdict v e db GoError.deadline_exceeded = rolled_back-Verdict v e db
  after_rollback-Verdict v e db GoError.network = rolled_back-Verdict v e db
  after_rollback-Verdict v e db GoError.item_removed = rolled_back-Verdict v e db
  after_rollback-Verdict v e db (GoError.other t) = rolled_back-Verdict v e db
  after_rollback-Verdict v e db (wrap t x) = rolled_back-Verdict v e db

  after_commit-Verdict :
      (v : Vars) (db : Db) (f : Option GoError)
      → v.failed ≡ f
      → Body v
      → Result (after_commit env v db f)
  after_commit-Verdict v db none e (err, inl (clean, good)) =
      if-elim Result v.res.skipped _ _ (λ _. inl (err, good)) (λ _. inl (err, good))
  after_commit-Verdict v db none e (err, inr (x, failed, bad, skipped)) = absurd (cc)
  after_commit-Verdict v db (some failure) e (err, inl (clean, good)) = absurd (cc)
  after_commit-Verdict v db (some failure) e (err, inr (x, failed, bad, skipped)) =
      if-elim Result v.res.skipped _ _ (λ skips. absurd (ground arith))
        (λ _. inr (failure, refl, bad))

  abbrev Results : Option Finished → Type 0
  Results none = Unit
  Results (some r) = Result r

  conclude_sync-Verdict : (t : Option (Tx Vars)) → Fine t → Results (conclude_sync env job t)
  conclude_sync-Verdict none h = tt
  conclude_sync-Verdict (some (none, v, db)) h = after_commit-Verdict v db v.failed refl h
  conclude_sync-Verdict (some (some e, v, db)) h = after_rollback-Verdict v e db (root e)

  -- The result of a sync either has no error, and then reports success or a skipped item, or it
  -- has an error and another outcome than success.
  pub sync_item-Verdict :
      (item_id : Text) (trigger : JobKind) (db : Db) (res : Outcome) (db' : Db) (refreshes : Bool)
      → sync_item env item_id trigger job db ≡ some (res, db', refreshes)
      → Verdict res
  unfolding sync_item
  sync_item-Verdict item_id trigger db res db' refreshes h = subst Results h (
      conclude_sync-Verdict _
        (with_item_lock-Fine env job item_id (start_vars item_id trigger) db (refl, refl, refl)))
