-- ===== src/Plaidsync/Engine/Reports.antt =====
-- The outcome and the error at the end of the locked callback of `SyncItem`
-- of plaid-backend-golang/internal/sync/engine.go.
use money_insighter.Prelude.{
  ℕ, Bool, true, false, ◌||◌, ◌≡◌, refl, ◌⊎◌, inl, inr, Option, none, some, List, Text, is_empty,
  if-elim,
}
use money_insighter.Plaidsync.Types.{ItemStatus, SyncOutcome, Account}
use money_insighter.Plaidsync.Errors.{
  GoError, Class, unclassified, retryable, needs_reauth, fatal, canceled, classify, outcome,
}
use money_insighter.Plaidsync.Paginate.{Pagination, Paged, paginate, drained, gave_up, never_tried}
use money_insighter.Plaidsync.World.{
  Item, SyncRun, Db, Env, Fetched, got, lost, ApplyResult, Tx, with_item_lock, LockTry, taken, busy,
  lock_error, with_tx, with_lock, with_row, conclude,
}
use money_insighter.Plaidsync.Runs.{
  Outcome, Vars, Job, record_run, record_failure, fail_with, is_canceled,
}
use money_insighter.Plaidsync.Callback.{
  cursor_text, locked_body, with_pages, with_accounts, with_token, with_credential, by_status,
  apply_with, committed,
}

abbrev pub is_success : SyncOutcome → Bool
is_success SyncOutcome.success = true
is_success _ = false

-- Either no error and success or a skip, or an error and another outcome.
abbrev pub Verdict : Outcome → Type 0
Verdict res =
    ((res.err ≡ none) × (is_success res.outcome || res.skipped ≡ true))
    ⊎ ((e : GoError) × (res.err ≡ some e) × (is_success res.outcome ≡ false))

-- The captured variables when the callback returns nil.
abbrev Clean : Vars → Type 0
Clean v = (v.res.err ≡ none) × (v.res.skipped ≡ false) × (v.failed ≡ none)

abbrev pub Body : Vars → Type 0
Body v =
    (v.res.err ≡ none)
    × (((v.failed ≡ none) × (is_success v.res.outcome || v.res.skipped ≡ true))
        ⊎ ((e : GoError) × (v.failed ≡ some e)
            × (is_success v.res.outcome ≡ false)
            × (v.res.skipped ≡ false)))

abbrev pub Fine : Option (Tx Vars) → Type 0
Fine none = Unit
Fine (some (some e, v, db)) = Unit
Fine (some (none, v, db)) = Body v

abbrev OfRun : Vars × Db → Type 0
OfRun (v, db) = Body v

record_run-Body :
    (r : Fetched ℕ) (run : SyncRun) (v : Vars) (db : Db) → Body v → OfRun (record_run r run v db)
record_run-Body (got id) run v db h = h
record_run-Body (lost e) run v db h = h

outcome-failed : (c : Class) → is_success (outcome c) ≡ false
unfolding outcome
outcome-failed unclassified = refl
outcome-failed retryable = refl
outcome-failed needs_reauth = refl
outcome-failed fatal = refl
outcome-failed canceled = refl

module _ (env : Env) (job : Job) where
  record_failure-Fine :
      (v : Vars) (out : SyncOutcome) (pg : Option Pagination) (e : GoError) (db : Db)
      → is_success out ≡ false
      → Clean v
      → Fine (some (record_failure env job v out pg e db))
  unfolding record_failure
  record_failure-Fine v out none e db failed (err, skipped, clean) =
      record_run-Body env.record_in_tx _ _ db (err, inr (e, refl, failed, skipped))
  record_failure-Fine v out (some pg) e db failed (err, skipped, clean) =
      record_run-Body env.record_in_tx _ _ db (err, inr (e, refl, failed, skipped))

  fail_with-Fine :
      (v : Vars) (pg : Option Pagination) (err e : GoError) (db : Db)
      → Clean v
      → Fine (some (fail_with env job v pg err e db))
  unfolding fail_with
  fail_with-Fine v pg err e db clean =
      if-elim (λ t. Fine (some t)) (is_canceled (classify err)) _ _ (λ _. tt)
        (λ _.
          record_failure-Fine v (outcome (classify err)) pg e db (outcome-failed (classify err))
            clean)

  committed-Fine :
      (run : SyncRun) (v : Vars) (db : Db) (r : Fetched ℕ)
      → Clean v
      → Fine (some (committed env run v db r))
  committed-Fine run v db (lost e) clean = tt
  committed-Fine run v db (got id) (err, skipped, clean) = (err, inl (clean, refl))

  accounts-Fine :
      (v : Vars) (pg : Pagination) (db : Db) (r : Fetched (List Account))
      → Clean v
      → Fine (some (with_accounts env job v pg db r))
  accounts-Fine v pg db (lost e) clean = fail_with-Fine v (some pg) e _ db clean
  accounts-Fine v pg db (got accts) clean = store env.applied
    where
      store : (r : Fetched ApplyResult) → Fine (some (apply_with env job v pg accts db r))
      store (lost e) = tt
      store (got a) = committed-Fine _ _ _ env.record_in_tx clean

  pages-Fine : (v : Vars) (db : Db) (r : Option Paged) → Clean v → Fine (with_pages env job v db r)
  pages-Fine v db none clean = tt
  pages-Fine v db (some (never_tried, a, n)) clean = tt
  pages-Fine v db (some (gave_up pg e, a, n)) clean = fail_with-Fine _ (some pg) e e db clean
  pages-Fine v db (some (drained pg, a, n)) (err, skipped, clean) =
      if-elim (λ t. Fine (some t)) (is_empty pg.batch.next_cursor) _ _
        (λ _. record_run-Body env.record_in_tx _ _ db (err, inl (clean, refl)))
        (λ _. accounts-Fine _ pg db env.accounts (err, skipped, clean))

  token-Fine :
      (v : Vars) (db : Db) (row : Item) (d : Option GoError)
      → Clean v
      → Fine (with_token env job v db row d)
  token-Fine v db row (some e) clean = record_failure-Fine v SyncOutcome.fatal none _ db refl clean
  token-Fine v db row none clean =
      pages-Fine v db
        (paginate env.cfg env.client env.sleep env.jitter env.fuel (cursor_text row.cursor)) clean

  credential-Fine :
      (v : Vars) (db : Db) (row : Item) (c : Option GoError)
      → Clean v
      → Fine (with_credential env job v db row c)
  credential-Fine v db row (some e) clean = tt
  credential-Fine v db row none clean = token-Fine v db row env.decrypt_error clean

  by_status-Fine :
      (v : Vars) (db : Db) (row : Item) (s : ItemStatus)
      → Clean v
      → Fine (by_status env job v db row s)
  by_status-Fine v db row ItemStatus.removed (err, _, clean) = (err, inl (clean, refl))
  by_status-Fine v db row ItemStatus.login_required (err, _, clean) = (err, inl (clean, refl))
  by_status-Fine v db row ItemStatus.pending_expiration (err, _, clean) = (err, inl (clean, refl))
  by_status-Fine v db row ItemStatus.permission_revoked (err, _, clean) = (err, inl (clean, refl))
  by_status-Fine v db row ItemStatus.active clean =
      credential-Fine v db row env.credential_error clean
  by_status-Fine v db row ItemStatus.error clean =
      credential-Fine v db row env.credential_error clean

  conclude-Fine :
      (c : Option GoError) (db : Db) (t : Option (Tx Vars)) → Fine t → Fine (conclude c db t)
  conclude-Fine c db none h = tt
  conclude-Fine c db (some (some e, v, db')) h = tt
  conclude-Fine (some e) db (some (none, v, db')) h = tt
  conclude-Fine none db (some (none, v, db')) h = h

  pub with_item_lock-Fine :
      (id : Text) (v : Vars) (db : Db)
      → Clean v
      → Fine (with_item_lock env id v (locked_body env job v db) db)
  unfolding with_item_lock locked_body
  with_item_lock-Fine id v db clean =
      if-elim Fine (is_empty id) _ _ (λ _. tt) (λ _. begun env.begin_error)
    where
      at_row :
          (e : Option GoError) (row : Option Item)
          → Fine (with_row env v (locked_body env job v db) db e row)
      at_row (some e) row = tt
      at_row none none = tt
      at_row none (some row) =
          conclude-Fine env.commit_error db _ (by_status-Fine _ db row row.status clean)

      locked : (t : LockTry) → Fine (with_lock env v (locked_body env job v db) db t)
      locked (lock_error e) = tt
      locked busy = tt
      locked taken = at_row env.load_error db.item

      begun : (b : Option GoError) → Fine (with_tx env v (locked_body env job v db) db b)
      begun (some e) = tt
      begun none = locked env.lock
