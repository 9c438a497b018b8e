-- ===== src/Plaidsync/Rows/Apply.antt =====
-- `ApplySyncBatch`: plaid-backend-golang/internal/store/sync_batch.go, on the tables and the item.
use money_insighter.Prelude.{
  ℕ, ◌≡◌, sym, Bool, true, false, List, [], ◌∷◌, Text, codes, is_empty, map,
}
use money_insighter.Plaidsync.Types.{ItemStatus, Transaction, Account, SyncBatch}
use money_insighter.Plaidsync.Errors.{other, wrap, item_removed}
use money_insighter.Plaidsync.World.{Item, ApplyResult, move_cursor}
use money_insighter.Plaidsync.Rows.{
  Table, Tables, Server, Outcome, good, ◌>>=◌, ◌>>◌, raise_if, run, context, >>=-eq-good,
  >>-eq-good, raise_if-eq-good, context-eq-good, good_inj, >>-eq-good_first,
}
use money_insighter.Plaidsync.Rows.Dedupe.{dedupe_accounts, dedupe_transactions}
use money_insighter.Plaidsync.Rows.Accounts.{upsert_accounts, mark_missing_accounts}
use money_insighter.Plaidsync.Rows.Transactions.{
  UpsertCounts, upsert_transactions, soft_delete_transactions,
}
use money_insighter.Plaidsync.Rows.Links.{link_pending_transactions}

abbrev pub applying : Text
applying = codes "store: apply sync batch"

abbrev pub is_removed : ItemStatus → Bool
is_removed ItemStatus.removed = true
is_removed _ = false

-- Without accounts in the batch nothing is marked.
unfoldable pub mark_if_listed :
    Server → Text → List Account → Table Account → Outcome (List Text × Table Account)
unfolding mark_missing_accounts
mark_if_listed srv item_id [] t = good ([], t)
mark_if_listed srv item_id (a ∷ rest) t =
    mark_missing_accounts srv item_id (map (λ b. b.account_id) (a ∷ rest)) t

-- What a successful call leaves.
pub record Applied : Type 0 where
  pub result : ApplyResult
  pub item : Item
  pub tables : Tables

-- The last three steps, on what the first three have learned.
unfoldable pub finish_batch :
    Server
    → Text
    → Item
    → SyncBatch
    → ℕ × Table Account
    → List Text × Table Account
    → UpsertCounts × Table Transaction
    → Outcome Applied
unfolding soft_delete_transactions link_pending_transactions dedupe_transactions
finish_batch srv item_id item b listed missing written = do
  removed ← context applying (soft_delete_transactions srv item_id b.removed written.1)
  linked ←
      context applying
        (link_pending_transactions srv item_id (dedupe_transactions b.upserts) removed.1)
  context applying (run srv.hook_error)
  context (codes "store: apply sync batch: update cursor") (run srv.cursor_error)
  good (record {
    result = record {
      inserted = written.0.inserted;
      updated = written.0.updated;
      unchanged = written.0.unchanged;
      removed = removed.0;
      superseded = linked.0;
      accounts_upserted = listed.0;
      missing_account_ids = missing.0;
    };
    item = move_cursor item.status b.next_cursor item;
    tables = record { accounts = missing.1; transactions = linked.1 };
  })

unfoldable pub apply_sync_batch : Server → Text → Item → SyncBatch → Tables → Outcome Applied
unfolding dedupe_accounts dedupe_transactions upsert_accounts mark_if_listed upsert_transactions
    finish_batch
apply_sync_batch srv item_id item b t = do
  raise_if (is_removed item.status) (wrap applying item_removed)
  raise_if (is_empty b.next_cursor) (other (codes "store: apply sync batch: next cursor is empty"))
  let accounts = dedupe_accounts b.accounts
  listed ← context applying (upsert_accounts srv item_id accounts t.accounts)
  missing ← context applying (mark_if_listed srv item_id accounts listed.1)
  written ←
      context applying
        (upsert_transactions srv item_id missing.1 (dedupe_transactions b.upserts) t.transactions)
  finish_batch srv item_id item b listed missing written

-- The steps of a call that succeeds, with the tables between them.
pub record Stages (srv : Server) (item_id : Text) (item : Item) (b : SyncBatch) (t : Tables)
    (done : Applied) : Type 0 where
  pub listed : ℕ × Table Account
  pub missing : List Text × Table Account
  pub written : UpsertCounts × Table Transaction
  pub removed : ℕ × Table Transaction
  pub linked : ℕ × Table Transaction
  pub is_live : is_removed item.status ≡ false
  pub has_cursor : is_empty b.next_cursor ≡ false
  pub listing : upsert_accounts srv item_id (dedupe_accounts b.accounts) t.accounts ≡ good listed
  pub marking : mark_if_listed srv item_id (dedupe_accounts b.accounts) listed.1 ≡ good missing
  pub writing :
      upsert_transactions srv item_id missing.1 (dedupe_transactions b.upserts) t.transactions
      ≡ good written
  pub removing : soft_delete_transactions srv item_id b.removed written.1 ≡ good removed
  pub linking :
      link_pending_transactions srv item_id (dedupe_transactions b.upserts) removed.1 ≡ good linked
  pub hooked : run srv.hook_error ≡ good tt
  pub saved : run srv.cursor_error ≡ good tt
  pub is_done : done ≡ record {
    result = record {
      inserted = written.0.inserted;
      updated = written.0.updated;
      unchanged = written.0.unchanged;
      removed = removed.0;
      superseded = linked.0;
      accounts_upserted = listed.0;
      missing_account_ids = missing.0;
    };
    item = move_cursor item.status b.next_cursor item;
    tables = record { accounts = missing.1; transactions = linked.1 };
  }

pub apply_sync_batch-Stages :
    (srv : Server) (item_id : Text) (item : Item) (b : SyncBatch) (t : Tables) (done : Applied)
    → apply_sync_batch srv item_id item b t ≡ good done
    → Stages srv item_id item b t done
unfolding apply_sync_batch finish_batch
apply_sync_batch-Stages srv item_id item b t done h =
    let live = raise_if-eq-good _ _ _ h in
    let h1 = >>-eq-good _ _ h in
    let cursor = raise_if-eq-good _ _ _ h1 in
    let h2 = >>-eq-good _ _ h1 in
    let (listed, e_listed, h3) = >>=-eq-good _ _ h2 in
    let (missing, e_missing, h4) = >>=-eq-good _ _ h3 in
    let (written, e_written, h5) = >>=-eq-good _ _ h4 in
    let (removed, e_removed, h6) = >>=-eq-good _ _ h5 in
    let (linked, e_linked, h7) = >>=-eq-good _ _ h6 in
    let h8 = >>-eq-good _ _ h7 in
    record {
      listed = listed;
      missing = missing;
      written = written;
      removed = removed;
      linked = linked;
      is_live = live;
      has_cursor = cursor;
      listing = context-eq-good _ _ e_listed;
      marking = context-eq-good _ _ e_missing;
      writing = context-eq-good _ _ e_written;
      removing = context-eq-good _ _ e_removed;
      linking = context-eq-good _ _ e_linked;
      hooked = context-eq-good _ _ (>>-eq-good_first _ _ h7);
      saved = context-eq-good _ _ (>>-eq-good_first _ _ h8);
      is_done = sym (good_inj (>>-eq-good _ _ h8));
    }
