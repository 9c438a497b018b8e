-- ===== src/Plaidsync/Rows/Keeps.antt =====
-- `ApplySyncBatch` on the rows that are stored already.
use money_insighter.Prelude.{ℕ, ◌≡◌, refl, sym, ap, ◌∙◌, subst, List, Text, lookup}
use money_insighter.Plaidsync.Types.{Transaction, SyncBatch}
use money_insighter.Plaidsync.World.{Item}
use money_insighter.Plaidsync.Rows.{at_key, Table, Tables, Server, good}
use money_insighter.Plaidsync.Rows.Dedupe.{dedupe_transactions, dedupe_accounts}
use money_insighter.Plaidsync.Rows.Latest.{find, dedupe-Distinct}
use money_insighter.Plaidsync.Rows.Transactions.{remove_row}
use money_insighter.Plaidsync.Rows.Upserts.{transaction_key, upsert_transactions_lem}
use money_insighter.Plaidsync.Rows.Links.{link_rows, link_pending_transactions}
use money_insighter.Plaidsync.Rows.Lookups.{
  lookup-link_pending_transactions, lookup-soft_delete_transactions, account_key,
  lookup-upsert_accounts, marked, lookup-mark_if_listed,
}
use money_insighter.Plaidsync.Rows.Apply.{Applied, apply_sync_batch, apply_sync_batch-Stages}
use money_insighter.Plaidsync.Rows.Later.{
  Later, Kept, KeepsFirst, Kept-trans, Kept-refl, Kept-updated, Kept-upserted, Later-remove_row,
  Later-link_rows, Kept-marked-relisted,
}

module _ (srv : Server) (item_id : Text) where
  Kept-link_pending_transactions :
      (trs : List Transaction) (t : Table Transaction) (out : ℕ × Table Transaction)
      → link_pending_transactions srv item_id trs t ≡ good out
      → (k : Text) → Kept Later (lookup k t) (lookup k out.1)
  Kept-link_pending_transactions trs t out h k =
      lookup-link_pending_transactions srv item_id (Kept Later (lookup k t)) k
        (λ choice now o kept.
          Kept-trans (lookup k t) o (at_key (link_rows choice now) k o) kept
            (Kept-updated (link_rows choice now) k o (Later-link_rows choice now k) refl))
        trs t out h (Kept-refl (lookup k t))

  -- A successful batch loses no row: every stored transaction is there afterwards, with its item
  -- and the time it was first seen, with its removal time if it had one and with its time of
  -- supersession if it had one; every stored account is there with the time it was first seen.
  pub apply_sync_batch-Kept :
      (item : Item) (b : SyncBatch) (t : Tables) (done : Applied)
      → apply_sync_batch srv item_id item b t ≡ good done
      → (k : Text)
      → Kept Later (lookup k t.transactions) (lookup k done.tables.transactions)
        × Kept KeepsFirst (lookup k t.accounts) (lookup k done.tables.accounts)
  unfolding dedupe_transactions dedupe_accounts
  apply_sync_batch-Kept item b t done h k =
      let s = apply_sync_batch-Stages srv item_id item b t done h in
      let trs = dedupe_transactions b.upserts in
      let accounts = dedupe_accounts b.accounts in
      let stored =
        (upsert_transactions_lem srv item_id s.missing.1 trs t.transactions s.written
            (dedupe-Distinct transaction_key b.upserts) s.writing).1
          k in
      (
        subst (Kept Later (lookup k t.transactions))
            (ap (λ d. lookup k d.tables.transactions) (sym s.is_done))
            (Kept-trans (lookup k t.transactions) (lookup k s.written.1) (lookup k s.linked.1)
              (subst (Kept Later (lookup k t.transactions)) (sym stored)
                (Kept-upserted srv item_id (find transaction_key k trs) (lookup k t.transactions)))
              (Kept-trans (lookup k s.written.1) (lookup k s.removed.1) (lookup k s.linked.1)
                (Kept-updated (remove_row srv item_id b.removed) k (lookup k s.written.1)
                  (Later-remove_row srv item_id b.removed k)
                  (lookup-soft_delete_transactions srv item_id b.removed s.written.1 s.removed
                    s.removing k))
                (Kept-link_pending_transactions trs s.removed.1 s.linked s.linking k))),
        subst (Kept KeepsFirst (lookup k t.accounts))
            (sym (
              ap (λ d. lookup k d.tables.accounts) s.is_done
              ∙ lookup-mark_if_listed srv item_id accounts s.listed.1 s.missing s.marking k
              ∙ ap (marked srv item_id accounts k) (
                  lookup-upsert_accounts srv item_id accounts t.accounts s.listed
                    (dedupe-Distinct account_key b.accounts) s.listing k)))
            (Kept-marked-relisted srv item_id accounts k (find account_key k accounts)
              (lookup k t.accounts)),
      )
