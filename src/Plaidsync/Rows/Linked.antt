-- ===== src/Plaidsync/Rows/Linked.antt =====
-- Pending rows and their posted successors behind `linkPendingTransactions`, in both orders of
-- arrival.
use money_insighter.Prelude.{
  ℕ, ◌≡◌, refl, sym, ap, ◌∙◌, subst, true, false, ◌&&◌, ◌⊎◌, inl, inr, Option, none, some, List, [],
  ◌∷◌, ◌++◌, arith, Text, text_eq, one_of, All, All-of, Bool-cases,
}
use money_insighter.Plaidsync.Types.{Transaction, SyncBatch}
use money_insighter.Plaidsync.World.{Item}
use money_insighter.Plaidsync.Rows.{Table, Tables, Server, good, update_rows}
use money_insighter.Plaidsync.Rows.Dedupe.{dedupe_transactions}
use money_insighter.Plaidsync.Rows.Links.{
  chosen, offered, link_to, link_rows, forward_choice, reverse_choice, stored_pairs, pending_pairs,
  ids_of, link_pending_transactions,
}
use money_insighter.Plaidsync.Rows.Apply.{Applied, apply_sync_batch, apply_sync_batch-Stages}
use money_insighter.Plaidsync.Rows.Lookups.{link_pending_transactions-passes}
use money_insighter.Plaidsync.Rows.Entries.{
  All-update_rows, link_forward-update_rows, link_reverse-update_rows,
}
use money_insighter.Plaidsync.Rows.Passes.{
  names, is_offer, link_to-is_offer, link_to-cases, stored_pairs-link_rows, is_offer-append,
}

-- A row of the item that a written posted row names points to a written or stored row that names it.
abbrev pub IsForward : Text → List (Text × Text) → List (Text × Text) → Text × Transaction → Type 0
IsForward item_id pairs stored (k, r) =
    ((text_eq r.item_id item_id && names k pairs) ≡ false)
    ⊎ (is_offer k r.superseded_by (pairs ++ stored) ≡ true)

-- A written row of the item that a stored row names points to a stored row that names it.
abbrev pub IsBack : Text → List Text → List (Text × Text) → Text × Transaction → Type 0
IsBack item_id ids stored (k, r) =
    ((text_eq r.item_id item_id && one_of k ids && names k stored) ≡ false)
    ⊎ (is_offer k r.superseded_by stored ≡ true)

module _ (srv : Server) (item_id : Text) (pairs : List (Text × Text)) where
  -- What the forward pass leaves.
  Passed : Text × Transaction → Type 0
  Passed (k, r) =
      ((text_eq r.item_id item_id && names k pairs) ≡ false)
      ⊎ (is_offer k r.superseded_by pairs ≡ true)

  item-link_to :
      (now : ℕ) (o : Option Text) (r : Transaction) → (link_to now o r).item_id ≡ r.item_id
  item-link_to now none r = refl
  item-link_to now (some s) r = refl

  forward-Passed :
      (k : Text) (r : Transaction)
      → Passed (k, link_rows (forward_choice srv item_id pairs) srv.forward_at k r)
  unfolding Passed
  forward-Passed k r = elim (Bool-cases (text_eq r.item_id item_id)) [
    | inr other ↦ inl (rw other (rw other refl))
    | inl own ↦ elim (Bool-cases (names k pairs)) [
      | inr unnamed ↦ inl (rw unnamed (ground arith))
      | inl named ↦ inr (rw own (link_to-is_offer srv (srv.forward_at k) k pairs r named))
    ]
  ]

  Passed-IsForward :
      (stored : List (Text × Text)) (k : Text) (r : Transaction)
      → Passed (k, r)
      → IsForward item_id pairs stored (k, r)
  unfolding Passed
  Passed-IsForward stored k r (inl h) = inl h
  Passed-IsForward stored k r (inr h) =
      inr (is_offer-append k r.superseded_by pairs stored ∙ rw h refl)

  offer-IsForward :
      (stored : List (Text × Text)) (k : Text) (r : Transaction)
      → is_offer k r.superseded_by stored ≡ true
      → IsForward item_id pairs stored (k, r)
  offer-IsForward stored k r h = inr (is_offer-append k r.superseded_by pairs stored ∙ ground arith)

  module _ (ids : List Text) (stored : List (Text × Text)) (k : Text) (r : Transaction) where
    Both : Transaction → Type 0
    Both r' = IsForward item_id pairs stored (k, r') × IsBack item_id ids stored (k, r')

    -- The row that the join reaches.
    reached :
        (text_eq r.item_id item_id && one_of k ids) ≡ true
        → Passed (k, r)
        → Both (link_to (srv.reverse_at k) (chosen srv k (offered k r.superseded_by stored)) r)
    unfolding Both
    reached c h = (
      elim (link_to-cases srv (srv.reverse_at k) k stored r) [
        | inl offer ↦
            offer-IsForward stored k
              (link_to (srv.reverse_at k) (chosen srv k (offered k r.superseded_by stored)) r) offer
        | inr same ↦ rw same (Passed-IsForward stored k r h)
      ],
      elim (Bool-cases (names k stored)) [
        | inl named ↦ inr (link_to-is_offer srv (srv.reverse_at k) k stored r named)
        | inr unnamed ↦ inl (rw unnamed (ground arith))
      ],
    )

    reverse-Both :
        Passed (k, r) → Both (link_rows (reverse_choice srv item_id stored ids) srv.reverse_at k r)
    unfolding Both
    reverse-Both h = elim (Bool-cases (text_eq r.item_id item_id && one_of k ids)) [
      | inl c ↦ rw c (reached c h)
      | inr c ↦ rw c (Passed-IsForward stored k r h, inl (ground arith))
    ]

-- Both properties of a table and the transactions of a batch.
abbrev BothIn : Text → List Transaction → Table Transaction → Type 0
BothIn item_id trs t =
    All (IsForward item_id (pending_pairs trs) (stored_pairs item_id t)) t
    × All (IsBack item_id (ids_of trs) (stored_pairs item_id t)) t

BothIn_none :
    (item_id : Text) (stored : List (Text × Text)) (t : Table Transaction)
    → All (IsForward item_id [] stored) t × All (IsBack item_id [] stored) t
unfolding names one_of
BothIn_none item_id stored [] = (tt, tt)
BothIn_none item_id stored ((k, r) ∷ t) =
    let (f, b) = BothIn_none item_id stored t in ((inl (ground arith), f), (inl (ground arith), b))

link_pending_transactions-Both :
    (srv : Server) (item_id : Text) (trs : List Transaction) (t : Table Transaction)
    (out : ℕ × Table Transaction)
    → link_pending_transactions srv item_id trs t ≡ good out
    → BothIn item_id trs out.1
unfolding link_pending_transactions pending_pairs Both
link_pending_transactions-Both srv item_id [] t out h =
    BothIn_none item_id (stored_pairs item_id out.1) out.1
link_pending_transactions-Both srv item_id (tr ∷ rest) t out h =
    let (mid, back, e, e1, last) = link_pending_transactions-passes srv item_id tr rest t out h in
    let pairs = pending_pairs (tr ∷ rest) in
    let ids = ids_of (tr ∷ rest) in
    let stored = stored_pairs item_id mid.1 in
    let passed =
      subst (All (Passed srv item_id pairs))
        (sym (link_forward-update_rows srv item_id pairs t mid e))
        (All-update_rows (λ _. Unit) (Passed srv item_id pairs)
          (link_rows (forward_choice srv item_id pairs) srv.forward_at)
          (λ k r _. forward-Passed srv item_id pairs k r) t (All-of (λ _. Unit) (λ _. tt) t)) in
    let choice = reverse_choice srv item_id stored ids in
    let f = link_rows choice srv.reverse_at in
    subst (BothIn item_id (tr ∷ rest))
      (sym (last ∙ link_reverse-update_rows srv item_id ids mid.1 back e1))
      (subst
        (λ st.
          All (IsForward item_id pairs st) (update_rows f mid.1)
          × All (IsBack item_id ids st) (update_rows f mid.1))
        (sym (stored_pairs-link_rows item_id choice srv.reverse_at mid.1))
        (
          All-update_rows (Passed srv item_id pairs) (IsForward item_id pairs stored) f
              (λ k r p. (reverse-Both srv item_id pairs ids stored k r p).0) mid.1 passed,
          All-update_rows (Passed srv item_id pairs) (IsBack item_id ids stored) f
              (λ k r p. (reverse-Both srv item_id pairs ids stored k r p).1) mid.1 passed,
        ))

-- After a successful batch with transactions: every stored row of the item that a posted row of the
-- batch names as its pending row points to a row that names it, whichever of the two arrived first,
-- and so does every row of the batch that any stored row of the item names.
pub apply_sync_batch-IsForward :
    (srv : Server) (item_id : Text) (item : Item) (b : SyncBatch) (t : Tables) (done : Applied)
    → apply_sync_batch srv item_id item b t ≡ good done
    → All
        (IsForward item_id
          (pending_pairs (dedupe_transactions b.upserts))
          (stored_pairs item_id done.tables.transactions))
        done.tables.transactions
      × All
          (IsBack item_id
            (ids_of (dedupe_transactions b.upserts))
            (stored_pairs item_id done.tables.transactions))
          done.tables.transactions
apply_sync_batch-IsForward srv item_id item b t done h =
    let s = apply_sync_batch-Stages srv item_id item b t done h in
    subst (BothIn item_id (dedupe_transactions b.upserts))
      (ap (λ d. d.tables.transactions) (sym s.is_done))
      (link_pending_transactions-Both srv item_id (dedupe_transactions b.upserts) s.removed.1
        s.linked s.linking)
