-- ===== src/Plaidsync/Engine/Success.antt =====
-- The run of `SyncItem` in which every call succeeds (plaid-backend-golang/internal/sync/engine.go).
use money_insighter.Prelude.{
  ℕ, Bool, true, false, ◌≡◌, ◌≤◌, refl, ap, ◌∙◌, none, some, List, [], ◌∷◌, ◌++◌, Text, is_empty,
  if-elim, if◌then◌else◌, not, ◌&&◌, arith, length,
}
use money_insighter.Plaidsync.Types.{ItemStatus, JobKind, SyncOutcome, Account, SyncBatch}
use money_insighter.Plaidsync.Paginate.{Page, fresh}
use money_insighter.Plaidsync.Paginate.Drain.{Chain, collect, paginate-total}
use money_insighter.Plaidsync.World.{
  Item, Db, Env, got, ApplyResult, add_run, apply_batch, store_cursor, taken, conclude,
}
use money_insighter.Plaidsync.Runs.{Outcome, Vars, Job, count_res}
use money_insighter.Plaidsync.Callback.{
  cursor_text, locked_body, by_status, with_credential, with_token, with_pages, with_accounts,
  apply_with, committed, success_run, not_ready,
}
use money_insighter.Plaidsync.Engine.{sync_item, after_commit, conclude_sync, start_vars}
use money_insighter.Plaidsync.Engine.Keeps.{stored_cursor}
use money_insighter.Plaidsync.Engine.Moves.{is_open, move_cursor-open}
use money_insighter.Plaidsync.Engine.Audit.{with_item_lock-held}

-- The calls of one sync succeed, and Plaid's pages from the stored cursor end with a cursor.
pub record AllWell (env : Env) (db : Db) : Type 0 where
  pub row : Item
  pub ps : List Page
  pub accts : List Account
  pub stored : ApplyResult
  pub run_id : ℕ
  pub held : db.item ≡ some row
  pub active : row.status ≡ ItemStatus.active
  pub begun : env.begin_error ≡ none
  pub free : env.lock ≡ taken
  pub loaded : env.load_error ≡ none
  pub credential : env.credential_error ≡ none
  pub decrypted : env.decrypt_error ≡ none
  pub tries : 1 ≤ env.cfg.max_attempts
  pub chain : Chain env.client 0 (cursor_text row.cursor) ps
  pub fuel : length ps ≤ env.fuel
  pub ready : is_empty (collect fresh ps).batch.next_cursor ≡ false
  pub listed : env.accounts ≡ got accts
  pub applied : env.applied ≡ got stored
  pub recorded : env.record_in_tx ≡ got run_id
  pub committed_well : env.commit_error ≡ none

module _ (env : Env) (job : Job) (db : Db) where
  body-AllWell :
      (v : Vars) (ok : AllWell env db)
      → (v' : Vars) × (db' : Db) × (locked_body env job v db ok.row ≡ some (none, v', db'))
        × (v'.res.outcome ≡ SyncOutcome.success)
        × (v'.res.err ≡ v.res.err)
        × (v'.res.run_id ≡ ok.run_id)
        × (v'.res.skipped ≡ v.res.skipped)
        × (v'.res.not_ready ≡ v.res.not_ready)
        × (v'.failed ≡ v.failed)
        × (db'.batches
            ≡ db.batches ++ (record (collect fresh ok.ps).batch { accounts = ok.accts }) ∷ [])
        × (stored_cursor db'.item ≡ some (some (collect fresh ok.ps).batch.next_cursor))
  unfolding locked_body apply_batch add_run
  body-AllWell v ok =
      let row = ok.row in
      let pg = collect fresh ok.ps in
      let v0 : Vars = record v { status_before = row.status; cursor_before = row.cursor } in
      let v1 : Vars = record v0 { res = count_res pg (record v0.res { attempts = 1 }) } in
      let v2 : Vars = record v1 { res = record v1.res { apply = some ok.stored } } in
      let b : SyncBatch = record pg.batch { accounts = ok.accts } in
      let run = success_run env job v2 pg ok.accts ok.stored in
      (
        record v2 {
          res = record v2.res { run_id = ok.run_id; outcome = SyncOutcome.success };
          run_recorded = true;
        },
        add_run run (apply_batch b db),
        ap (by_status env job v0 db row) ok.active
            ∙ (ap (with_credential env job v0 db row) ok.credential
                ∙ (ap (with_token env job v0 db row) ok.decrypted
                    ∙ (ap (with_pages env job v0 db) (
                          paginate-total env.cfg env.client env.sleep env.jitter
                            (cursor_text row.cursor) env.fuel ok.ps ok.tries ok.chain ok.fuel)
                        ∙ (if-elim
                              (λ t. some t ≡ some (with_accounts env job v1 pg db env.accounts))
                              (is_empty pg.batch.next_cursor) _ _
                              (λ e. absurd (ground (arith, e, ok.ready))) (λ _. refl)
                            ∙ (ap (λ r. some (with_accounts env job v1 pg db r)) ok.listed
                                ∙ (ap (λ r. some (apply_with env job v1 pg ok.accts db r))
                                      ok.applied
                                    ∙ ap (λ r. some (committed env run v2 (apply_batch b db) r))
                                        ok.recorded)))))),
        refl,
        refl,
        refl,
        refl,
        refl,
        refl,
        refl,
        ap (λ i. stored_cursor (store_cursor pg.batch.next_cursor i)) ok.held
            ∙ move_cursor-open row.status pg.batch.next_cursor row (ap is_open ok.active),
      )

  -- When every call of a sync of an active item succeeds, Plaid's pages from the stored cursor
  -- end with a non-empty cursor, at least one attempt is allowed and the fuel covers the pages, the
  -- sync returns: success, no error, the recorded run's id, the pages' batch applied with the listed
  -- accounts, and the last cursor stored.
  pub sync_item-AllWell :
      (item_id : Text) (trigger : JobKind) (ok : AllWell env db)
      → is_empty item_id ≡ false
      → (res : Outcome) × (db' : Db) × (refreshes : Bool) × (sync_item env item_id trigger job db
          ≡ some (res, db', refreshes))
        × (res.outcome ≡ SyncOutcome.success)
        × (res.err ≡ none)
        × (res.run_id ≡ ok.run_id)
        × (db'.batches
            ≡ db.batches ++ (record (collect fresh ok.ps).batch { accounts = ok.accts }) ∷ [])
        × (stored_cursor db'.item ≡ some (some (collect fresh ok.ps).batch.next_cursor))
  unfolding sync_item
  sync_item-AllWell item_id trigger ok named =
      let v = start_vars item_id trigger in
      let (v', db', ran, out, err, id, skipped, not_ready, clean, batches, cursor) =
        body-AllWell v ok in
      (
        v'.res,
        db',
        env.recurring_enabled && not v'.res.not_ready,
        ap (conclude_sync env job) (
              with_item_lock-held env item_id v (locked_body env job v db) db ok.row named ok.begun
                ok.free ok.loaded ok.held
              ∙ (ap (λ c. conclude c db (locked_body env job v db ok.row)) ok.committed_well
                  ∙ ap (conclude none db) ran))
            ∙ (ap (λ f. some (after_commit env v' db' f)) clean
                ∙ ap
                    (λ (b : Bool). some (
                      if b
                      then (v'.res, db', false)
                      else (v'.res, db', env.recurring_enabled && not v'.res.not_ready)))
                    skipped),
        out,
        err,
        id,
        batches,
        cursor,
      )
