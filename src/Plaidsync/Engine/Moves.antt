-- ===== src/Plaidsync/Engine/Moves.antt =====
-- The cursor over the locked callback of `SyncItem` of plaid-backend-golang/internal/sync/engine.go.
use money_insighter.Prelude.{
  ℕ, Bool, true, false, ◌≡◌, refl, ap, ◌∙◌, ◌⊎◌, inl, inr, Option, none, some, List, [], ◌∷◌, ◌++◌,
  Text, is_empty, if-elim,
}
use money_insighter.Plaidsync.Types.{ItemStatus, SyncOutcome, Account}
use money_insighter.Plaidsync.Errors.{GoError, classify, outcome}
use money_insighter.Plaidsync.Paginate.{Pagination, Paged, paginate, drained, gave_up, never_tried}
use money_insighter.Plaidsync.Paginate.Drain.{Complete, paginate-Complete}
use money_insighter.Plaidsync.World.{
  Item, SyncRun, Db, Env, Fetched, got, lost, ApplyResult, Tx, add_run, apply_batch, store_cursor,
  move_cursor,
}
use money_insighter.Plaidsync.Runs.{Outcome, Vars, Job, record_failure, fail_with, is_canceled}
use money_insighter.Plaidsync.Callback.{
  cursor_text, locked_body, with_pages, with_accounts, success_run, with_token, with_credential,
  by_status, apply_with, committed,
}
use money_insighter.Plaidsync.Engine.Keeps.{stored_cursor, Kept, record_run-Kept}

-- The statuses in which an item is synced.
abbrev pub is_open : ItemStatus → Bool
is_open ItemStatus.active = true
is_open ItemStatus.error = true
is_open _ = false

-- One batch more, with its cursor and its audit row.
pub record Advanced (env : Env) (db db' : Db) : Type 0 where
  pub row : Item
  pub pg : Pagination
  pub accts : List Account
  pub run : SyncRun
  pub held : db.item ≡ some row
  pub allowed : is_open row.status ≡ true
  pub complete : Complete env.client (cursor_text row.cursor) pg
  pub ready : is_empty pg.batch.next_cursor ≡ false
  pub listed : env.accounts ≡ got accts
  pub applied : db'.batches ≡ db.batches ++ (record pg.batch { accounts = accts }) ∷ []
  pub moved : stored_cursor db'.item ≡ some (some pg.batch.next_cursor)
  pub audited : db'.runs ≡ db.runs ++ run ∷ []
  pub run_from : run.cursor_before ≡ row.cursor
  pub run_to : run.cursor_after ≡ some pg.batch.next_cursor

pub move_cursor-open :
    (s : ItemStatus) (next : Text) (row : Item)
    → is_open s ≡ true
    → stored_cursor (some (move_cursor s next row)) ≡ some (some next)
move_cursor-open ItemStatus.active next row h = refl
move_cursor-open ItemStatus.error next row h = refl
move_cursor-open ItemStatus.removed next row h = absurd (cc)
move_cursor-open ItemStatus.login_required next row h = absurd (cc)
move_cursor-open ItemStatus.pending_expiration next row h = absurd (cc)
move_cursor-open ItemStatus.permission_revoked next row h = absurd (cc)

abbrev pub Effect : Env → Db → Outcome → Db → Type 0
Effect env db res db' = (Advanced env db db' × (res.outcome ≡ SyncOutcome.success)) ⊎ Kept db db'

abbrev pub Body : Env → Db → Vars → Db → Type 0
Body env db v db' =
    (Advanced env db db' × (v.res.outcome ≡ SyncOutcome.success) × (v.failed ≡ none)) ⊎ Kept db db'

abbrev pub OnCommit : (Vars → Db → Type 0) → Option (Tx Vars) → Type 0
OnCommit P none = Unit
OnCommit P (some (some e, v, db')) = Unit
OnCommit P (some (none, v, db')) = P v db'

module _ (env : Env) (job : Job) where
  abbrev pub Fine : Db → Option (Tx Vars) → Type 0
  Fine db = OnCommit (Body env db)

  record_failure-Fine :
      (v : Vars) (out : SyncOutcome) (pg : Option Pagination) (e : GoError) (db : Db)
      → Fine db (some (record_failure env job v out pg e db))
  unfolding record_failure
  record_failure-Fine v out pg e db = inr (record_run-Kept env.record_in_tx _ _ db)

  fail_with-Fine :
      (v : Vars) (pg : Option Pagination) (err e : GoError) (db : Db)
      → Fine db (some (fail_with env job v pg err e db))
  unfolding fail_with
  fail_with-Fine v pg err e db =
      if-elim (λ t. Fine db (some t)) (is_canceled (classify err)) _ _ (λ _. tt)
        (λ _. record_failure-Fine v (outcome (classify err)) pg e db)

  module _ (db : Db) (row : Item) (held : db.item ≡ some row)
      (allowed : is_open row.status ≡ true) where
    committed-Fine :
        (v : Vars) (pg : Pagination) (accts : List Account) (a : ApplyResult) (r : Fetched ℕ)
        → env.accounts ≡ got accts
        → v.failed ≡ none
        → v.cursor_before ≡ row.cursor
        → Complete env.client (cursor_text row.cursor) pg
        → is_empty pg.batch.next_cursor ≡ false
        → Fine db (
            some (
              committed env
                (success_run env job v pg accts a)
                v
                (apply_batch (record pg.batch { accounts = accts }) db)
                r))
    unfolding apply_batch add_run
    committed-Fine v pg accts a (lost e) listed clean before complete ready = tt
    committed-Fine v pg accts a (got id) listed clean before complete ready = inl (
      record {
        row = row;
        pg = pg;
        accts = accts;
        run = success_run env job v pg accts a;
        held = held;
        allowed = allowed;
        complete = complete;
        ready = ready;
        listed = listed;
        applied = refl;
        moved =
            ap (λ i. stored_cursor (store_cursor pg.batch.next_cursor i)) held
            ∙ move_cursor-open row.status pg.batch.next_cursor row allowed;
        audited = refl;
        run_from = before;
        run_to = refl;
      },
      refl,
      clean,
    )

    accounts-Fine :
        (v : Vars) (pg : Pagination) (r : Fetched (List Account))
        → env.accounts ≡ r
        → v.failed ≡ none
        → v.cursor_before ≡ row.cursor
        → Complete env.client (cursor_text row.cursor) pg
        → is_empty pg.batch.next_cursor ≡ false
        → Fine db (some (with_accounts env job v pg db r))
    accounts-Fine v pg (lost e) listed clean before complete ready =
        fail_with-Fine v (some pg) e _ db
    accounts-Fine v pg (got accts) listed clean before complete ready = store env.applied
      where
        store : (r : Fetched ApplyResult) → Fine db (some (apply_with env job v pg accts db r))
        store (lost e) = tt
        store (got a) =
            committed-Fine (record v { res = record v.res { apply = some a } }) pg accts a
              env.record_in_tx listed clean before complete ready

    pages-Fine :
        (v : Vars) (r : Option Paged)
        → ((pg : Pagination) (a n : ℕ)
            → r ≡ some (drained pg, a, n)
            → Complete env.client (cursor_text row.cursor) pg)
        → v.failed ≡ none
        → v.cursor_before ≡ row.cursor
        → Fine db (with_pages env job v db r)
    pages-Fine v none complete clean before = tt
    pages-Fine v (some (never_tried, a, n)) complete clean before = tt
    pages-Fine v (some (gave_up pg e, a, n)) complete clean before =
        fail_with-Fine _ (some pg) e e db
    pages-Fine v (some (drained pg, a, n)) complete clean before =
        if-elim (λ t. Fine db (some t)) (is_empty pg.batch.next_cursor) _ _
          (λ _. inr (record_run-Kept env.record_in_tx _ _ db))
          (λ ready. accounts-Fine _ pg env.accounts refl clean before (complete pg a n refl) ready)

    token-Fine :
        (v : Vars) (d : Option GoError)
        → v.failed ≡ none
        → v.cursor_before ≡ row.cursor
        → Fine db (with_token env job v db row d)
    token-Fine v (some e) clean before = record_failure-Fine v SyncOutcome.fatal none _ db
    token-Fine v none clean before =
        pages-Fine v
          (paginate env.cfg env.client env.sleep env.jitter env.fuel (cursor_text row.cursor))
          (paginate-Complete env.cfg env.client env.sleep env.jitter (cursor_text row.cursor)
            env.fuel)
          clean before

    credential-Fine :
        (v : Vars) (c : Option GoError)
        → v.failed ≡ none
        → v.cursor_before ≡ row.cursor
        → Fine db (with_credential env job v db row c)
    credential-Fine v (some e) clean before = tt
    credential-Fine v none clean before = token-Fine v env.decrypt_error clean before

  by_status-Fine :
      (db : Db) (row : Item) (v : Vars) (s : ItemStatus)
      → db.item ≡ some row
      → row.status ≡ s
      → v.failed ≡ none
      → v.cursor_before ≡ row.cursor
      → Fine db (by_status env job v db row s)
  by_status-Fine db row v ItemStatus.removed held e clean before = inr (refl, refl)
  by_status-Fine db row v ItemStatus.login_required held e clean before = inr (refl, refl)
  by_status-Fine db row v ItemStatus.pending_expiration held e clean before = inr (refl, refl)
  by_status-Fine db row v ItemStatus.permission_revoked held e clean before = inr (refl, refl)
  by_status-Fine db row v ItemStatus.active held e clean before =
      credential-Fine db row held (ap is_open e) v env.credential_error clean before
  by_status-Fine db row v ItemStatus.error held e clean before =
      credential-Fine db row held (ap is_open e) v env.credential_error clean before

  pub locked_body-Fine :
      (db : Db) (row : Item) (v : Vars)
      → db.item ≡ some row
      → v.failed ≡ none
      → Fine db (locked_body env job v db row)
  unfolding locked_body
  locked_body-Fine db row v held clean = by_status-Fine db row _ row.status held refl clean refl
