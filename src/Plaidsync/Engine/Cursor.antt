-- ===== src/Plaidsync/Engine/Cursor.antt =====
-- The cursor over a whole `SyncItem` of plaid-backend-golang/internal/sync/engine.go.
use money_insighter.Prelude.{
  Bool, ◌||◌, ◌≡◌, refl, sym, subst, inl, inr, Option, none, some, Text, is_empty, if-elim,
}
use money_insighter.Plaidsync.Types.{JobKind, SyncOutcome}
use money_insighter.Plaidsync.Errors.{GoError, classify, root, wrap}
use money_insighter.Plaidsync.World.{
  Item, Db, Env, Tx, with_item_lock, LockTry, taken, busy, lock_error, with_tx, with_lock, with_row,
  conclude,
}
use money_insighter.Plaidsync.Runs.{Outcome, Vars, Job, is_canceled}
use money_insighter.Plaidsync.Callback.{locked_body}
use money_insighter.Plaidsync.Engine.{
  sync_item, Finished, after_commit, after_rollback, rolled_back, record_outside, conclude_sync,
  set_status_after_failure, set_outcome, is_canceled_outcome, start_vars,
}
use money_insighter.Plaidsync.Engine.Keeps.{set_status-Kept, record_outside-Kept, Kept-trans}
use money_insighter.Plaidsync.Engine.Moves.{Effect, Body, Fine, locked_body-Fine}

module _ (env : Env) (job : Job) where
  -- Whatever the transaction's end: a rollback leaves the database.
  abbrev Ended : Db → Option (Tx Vars) → Type 0
  Ended db none = Unit
  Ended db (some (some e, v, db')) = db' ≡ db
  Ended db (some (none, v, db')) = Body env db v db'

  conclude-Ended :
      (c : Option GoError) (db : Db) (t : Option (Tx Vars))
      → Fine env job db t
      → Ended db (conclude c db t)
  conclude-Ended c db none h = tt
  conclude-Ended c db (some (some e, v, db')) h = refl
  conclude-Ended (some e) db (some (none, v, db')) h = refl
  conclude-Ended none db (some (none, v, db')) h = h

  with_item_lock-Ended :
      (id : Text) (v : Vars) (db : Db)
      → v.failed ≡ none
      → Ended db (with_item_lock env id v (locked_body env job v db) db)
  unfolding with_item_lock
  with_item_lock-Ended id v db clean =
      if-elim (Ended db) (is_empty id) _ _ (λ _. refl) (λ _. begun env.begin_error)
    where
      at_row :
          (e : Option GoError) (row : Option Item)
          → db.item ≡ row
          → Ended db (with_row env v (locked_body env job v db) db e row)
      at_row (some e) row held = refl
      at_row none none held = refl
      at_row none (some row) held =
          conclude-Ended env.commit_error db _ (locked_body-Fine env job db row v held clean)

      locked : (t : LockTry) → Ended db (with_lock env v (locked_body env job v db) db t)
      locked (lock_error e) = refl
      locked busy = refl
      locked taken = at_row env.load_error db.item refl

      begun : (b : Option GoError) → Ended db (with_tx env v (locked_body env job v db) db b)
      begun (some e) = refl
      begun none = locked env.lock

  abbrev Result : Db → Finished → Type 0
  Result db (res, db', refreshes) = Effect env db res db'

  rolled_back-Kept : (v : Vars) (e : GoError) (db : Db) → Result db (rolled_back env job v e db)
  rolled_back-Kept v e db =
      if-elim (Result db) (is_canceled_outcome v.res.outcome || is_canceled (classify e)) _ _
        (λ _. inr (refl, refl))
        (λ _.
          let res : Outcome = set_outcome SyncOutcome.failure e v.res in
          let db1 : Db = (record_outside env job v res e db).1 in
          inr (
            Kept-trans env job db db1
              (set_status_after_failure env v.status_before SyncOutcome.failure e db1)
              (record_outside-Kept env job v res e db)
              (set_status-Kept env job v.status_before SyncOutcome.failure e db1)))

  after_rollback-Kept :
      (v : Vars) (e : GoError) (db : Db) (r : GoError) → Result db (after_rollback env job v e db r)
  after_rollback-Kept v e db GoError.item_locked = inr (record_outside-Kept env job v _ e db)
  after_rollback-Kept v e db GoError.not_found = inr (refl, refl)
  after_rollback-Kept v e db (GoError.plaid x) = rolled_back-Kept v e db
  after_rollback-Kept v e db GoError.context_canceled = rolled_back-Kept v e db
  after_rollback-Kept v e db GoError.deadline_exceeded = rolled_back-Kept v e db
  after_rollback-Kept v e db GoError.network = rolled_back-Kept v e db
  after_rollback-Kept v e db GoError.item_removed = rolled_back-Kept v e db
  after_rollback-Kept v e db (GoError.other t) = rolled_back-Kept v e db
  after_rollback-Kept v e db (wrap t x) = rolled_back-Kept v e db

  some_ne_none : {x : Option GoError} {failure : GoError} → x ≡ some failure → x ≡ none → ⊥
  some_ne_none e e' = cc

  after_commit-Effect :
      (v : Vars) (db db' : Db) (f : Option GoError)
      → v.failed ≡ f
      → Body env db v db'
      → Result db (after_commit env v db' f)
  after_commit-Effect v db db' none e (inl (a, out, clean)) =
      if-elim (Result db) v.res.skipped _ _ (λ _. inl (a, out)) (λ _. inl (a, out))
  after_commit-Effect v db db' none e (inr k) =
      if-elim (Result db) v.res.skipped _ _ (λ _. inr k) (λ _. inr k)
  after_commit-Effect v db db' (some failure) e (inl (a, out, clean)) =
      absurd (some_ne_none e clean)
  after_commit-Effect v db db' (some failure) e (inr k) =
      if-elim (Result db) v.res.skipped _ _ (λ _. inr k)
        (λ _. inr (
          Kept-trans env job db db'
            (set_status_after_failure env v.status_before v.res.outcome failure db') k
            (set_status-Kept env job v.status_before v.res.outcome failure db')))

  abbrev Results : Db → Option Finished → Type 0
  Results db none = Unit
  Results db (some r) = Result db r

  conclude_sync-Effect :
      (db : Db) (t : Option (Tx Vars)) → Ended db t → Results db (conclude_sync env job t)
  conclude_sync-Effect db none h = tt
  conclude_sync-Effect db (some (none, v, db')) h = after_commit-Effect v db db' v.failed refl h
  conclude_sync-Effect db (some (some e, v, db')) h =
      subst (λ d. Result db (after_rollback env job v e d (root e))) (sym h)
        (after_rollback-Kept v e db (root e))

  -- A sync either leaves the applied batches and the item's cursor as they were, or it reports
  -- success, the item was active or in error, and it has applied one batch: a complete drain of Plaid's pages from the stored cursor with
  -- the accounts listed after it, its last cursor (not empty) now stored, and one audit row that
  -- holds the cursors before and after.
  pub sync_item-Effect :
      (item_id : Text) (trigger : JobKind) (db : Db) (res : Outcome) (db' : Db) (refreshes : Bool)
      → sync_item env item_id trigger job db ≡ some (res, db', refreshes)
      → Effect env db res db'
  unfolding sync_item
  sync_item-Effect item_id trigger db res db' refreshes h = subst (Results db) h (
      conclude_sync-Effect db _ (with_item_lock-Ended item_id (start_vars item_id trigger) db refl))
