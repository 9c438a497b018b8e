-- ===== src/Plaidsync/Rows/Removed.antt =====
-- The rows that a batch names as removed.
use money_insighter.Prelude.{
  ℕ, ◌≡◌, refl, sym, ap, subst, true, false, ◌⊎◌, inl, inr, Option, none, some, List, Text, All,
  All-of, if-elim,
}
use money_insighter.Plaidsync.Types.{Transaction, SyncBatch}
use money_insighter.Plaidsync.World.{Item}
use money_insighter.Plaidsync.Rows.{Tables, Server, good}
use money_insighter.Plaidsync.Rows.Dedupe.{dedupe_transactions}
use money_insighter.Plaidsync.Rows.Accounts.{or_now}
use money_insighter.Plaidsync.Rows.Transactions.{is_named, remove_row, has_row}
use money_insighter.Plaidsync.Rows.Links.{link_to}
use money_insighter.Plaidsync.Rows.Apply.{Applied, apply_sync_batch, apply_sync_batch-Stages}
use money_insighter.Plaidsync.Rows.Entries.{
  All-update_rows, soft_delete_transactions-update_rows, All-link_pending_transactions,
}

-- A row that the item's list of removed ids names has its time of removal.
abbrev pub IsGone : Text → List Text → Text × Transaction → Type 0
IsGone item_id ids (k, r) = (is_named item_id ids k r ≡ false) ⊎ (has_row r.removed_at ≡ true)

has_row-or_now : (o : Option ℕ) (now : ℕ) → has_row (or_now o now) ≡ true
has_row-or_now none now = refl
has_row-or_now (some n) now = refl

remove_row-IsGone :
    (srv : Server) (item_id : Text) (ids : List Text) (k : Text) (r : Transaction)
    → IsGone item_id ids (k, remove_row srv item_id ids k r)
remove_row-IsGone srv item_id ids k r =
    if-elim (λ r'. IsGone item_id ids (k, r')) (is_named item_id ids k r)
      (record r { removed_at = or_now r.removed_at (srv.removed_at k) }) r
      (λ _. inr (has_row-or_now r.removed_at (srv.removed_at k))) (λ e. inl e)

pub link_to-IsGone :
    (item_id : Text) (ids : List Text) (now : ℕ) (choice : Option Text) (k : Text) (r : Transaction)
    → IsGone item_id ids (k, r)
    → IsGone item_id ids (k, link_to now choice r)
link_to-IsGone item_id ids now none k r h = h
link_to-IsGone item_id ids now (some posted) k r h = h

-- After a successful batch every stored row of the item whose id the batch lists as removed, and
-- that is any row, old or written by the same batch, has a time of removal.
pub apply_sync_batch-IsGone :
    (srv : Server) (item_id : Text) (item : Item) (b : SyncBatch) (t : Tables) (done : Applied)
    → apply_sync_batch srv item_id item b t ≡ good done
    → All (IsGone item_id b.removed) done.tables.transactions
unfolding dedupe_transactions
apply_sync_batch-IsGone srv item_id item b t done h =
    let s = apply_sync_batch-Stages srv item_id item b t done h in
    let marked =
      All-update_rows (λ _. Unit) (IsGone item_id b.removed) (remove_row srv item_id b.removed)
        (λ k r _. remove_row-IsGone srv item_id b.removed k r) s.written.1
        (All-of (λ _. Unit) (λ _. tt) s.written.1) in
    subst (All (IsGone item_id b.removed)) (ap (λ d. d.tables.transactions) (sym s.is_done)) (
      All-link_pending_transactions srv item_id (IsGone item_id b.removed)
        (λ choice now k r. link_to-IsGone item_id b.removed (now k) (choice k r) k r)
        (dedupe_transactions b.upserts) s.removed.1 s.linked s.linking
        (subst (All (IsGone item_id b.removed))
          (sym (
            soft_delete_transactions-update_rows srv item_id b.removed s.written.1 s.removed
              s.removing))
          marked))
