-- ===== src/Plaidsync/Rows/Written.antt =====
-- The rows that a batch adds or modifies, when it is done.
use money_insighter.Prelude.{
  none, ℕ, ◌≡◌, refl, sym, ap, ◌∙◌, subst, true, Option, none, some, List, Text, lookup, if-elim,
}
use money_insighter.Plaidsync.Types.{Transaction, SyncBatch}
use money_insighter.Plaidsync.World.{Item}
use money_insighter.Plaidsync.Rows.{Tables, Server, good, at_key}
use money_insighter.Plaidsync.Rows.Dedupe.{dedupe_transactions}
use money_insighter.Plaidsync.Rows.Latest.{last_from, find-dedupe, find, dedupe-Distinct}
use money_insighter.Plaidsync.Rows.Transactions.{merged_row, remove_row, is_named}
use money_insighter.Plaidsync.Rows.Links.{link_to, link_rows}
use money_insighter.Plaidsync.Rows.Upserts.{
  transaction_key, row_of, upserted, upsert_transactions_lem,
}
use money_insighter.Plaidsync.Rows.Lookups.{
  lookup-link_pending_transactions, lookup-soft_delete_transactions,
}
use money_insighter.Plaidsync.Rows.Again.{Matches}
use money_insighter.Plaidsync.Rows.Apply.{
  Applied, Stages, apply_sync_batch, apply_sync_batch-Stages,
}

-- A row keeps its raw payload when it is removed and when it is linked.
remove_row-raw :
    (srv : Server) (item_id : Text) (ids : List Text) (k : Text) (r : Transaction)
    → (remove_row srv item_id ids k r).raw ≡ r.raw
remove_row-raw srv item_id ids k r =
    if-elim (λ r'. r'.raw ≡ r.raw) (is_named item_id ids k r) _ r (λ _. refl) (λ _. refl)

link_to-raw : (now : ℕ) (o : Option Text) (r : Transaction) → (link_to now o r).raw ≡ r.raw
link_to-raw now none r = refl
link_to-raw now (some s) r = refl

Matches-at_key :
    (srv : Server) (tr : Transaction) (f : Text → Transaction → Transaction) (k : Text)
    (o : Option Transaction)
    → ((r : Transaction) → (f k r).raw ≡ r.raw)
    → Matches srv tr o
    → Matches srv tr (at_key f k o)
Matches-at_key srv tr f k none h m = m
Matches-at_key srv tr f k (some r) h m = ap (λ x. srv.same_raw x tr.raw) (h r) ∙ m

module _ (srv : Server) (raw_refl : (x : Text) → srv.same_raw x x ≡ true) (item_id : Text) where
  Matches-row_of :
      (tr : Transaction) (old : Option Transaction)
      → Matches srv tr (some (row_of srv item_id tr old))
  Matches-row_of tr none = raw_refl tr.raw
  Matches-row_of tr (some old) =
      if-elim (λ r. srv.same_raw r.raw tr.raw ≡ true) (srv.same_raw old.raw tr.raw) old
        (merged_row old tr) (λ same. same) (λ _. raw_refl tr.raw)

  -- The row of an id that the batch wrote, when it is done.
  pub Matches-found :
      (item : Item) (b : SyncBatch) (t : Tables) (done : Applied)
      → Stages srv item_id item b t done
      → (k : Text) (tr : Transaction)
      → find transaction_key k (dedupe_transactions b.upserts) ≡ some tr
      → Matches srv tr (lookup k done.tables.transactions)
  unfolding dedupe_transactions
  Matches-found item b t done s k tr found =
      let trs = dedupe_transactions b.upserts in
      let once = dedupe-Distinct transaction_key b.upserts in
      let written =
        (upsert_transactions_lem srv item_id s.missing.1 trs t.transactions s.written once
          s.writing).1 in
      subst (λ d. Matches srv tr (lookup k d.tables.transactions)) (sym s.is_done)
        (lookup-link_pending_transactions srv item_id (Matches srv tr) k
          (λ choice now o m.
            Matches-at_key srv tr (link_rows choice now) k o
              (λ r. link_to-raw (now k) (choice k r) r) m)
          trs s.removed.1 s.linked s.linking
          (subst (Matches srv tr)
            (sym (
              lookup-soft_delete_transactions srv item_id b.removed s.written.1 s.removed s.removing
                k))
            (Matches-at_key srv tr (remove_row srv item_id b.removed) k (lookup k s.written.1)
              (remove_row-raw srv item_id b.removed k)
              (subst (Matches srv tr)
                (sym (written k ∙ ap (λ f. upserted srv item_id f (lookup k t.transactions)) found))
                (Matches-row_of tr (lookup k t.transactions))))))

-- Where JSONB equality is reflexive, after a successful batch the row of every id that the batch
-- added or modified carries the raw payload of the last transaction of that id in the batch.
pub apply_sync_batch-Matches :
    (srv : Server) (item_id : Text) (item : Item) (b : SyncBatch) (t : Tables) (done : Applied)
    → ((x : Text) → srv.same_raw x x ≡ true)
    → apply_sync_batch srv item_id item b t ≡ good done
    → (k : Text) (tr : Transaction) → last_from transaction_key k b.upserts none ≡ some tr
    → Matches srv tr (lookup k done.tables.transactions)
unfolding dedupe_transactions
apply_sync_batch-Matches srv item_id item b t done raw_refl h k tr last =
    Matches-found srv raw_refl item_id item b t done
      (apply_sync_batch-Stages srv item_id item b t done h) k tr
      ((find-dedupe transaction_key b.upserts).1 k ∙ last)
