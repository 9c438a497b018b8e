-- ===== src/Plaidsync/Rows/Entries.antt =====
-- Predicates on every entry of a table, and the UPDATE statements that keep or establish them.
use money_insighter.Prelude.{
  ℕ, ◌≡◌, refl, sym, ap, ◌∙◌, subst, Option, List, [], ◌∷◌, arith, Text, All, one_of,
}
use money_insighter.Plaidsync.Types.{Transaction}
use money_insighter.Plaidsync.Rows.{
  Table, Server, good, good_inj, >>-eq-good, update_rows, update_rows_id,
}
use money_insighter.Plaidsync.Rows.Transactions.{remove_row, soft_delete_transactions}
use money_insighter.Plaidsync.Rows.Links.{
  link_rows, forward_choice, reverse_choice, stored_pairs, link_forward, link_reverse,
  link_pending_transactions, pending_pairs, ids_of, offered,
}
use money_insighter.Plaidsync.Rows.Lookups.{link_pending_transactions-passes}

pub All-update_rows :
    {V : Type 0} (P Q : Text × V → Type 0) (f : Text → V → V)
    → ((k : Text) (v : V) → P (k, v) → Q (k, f k v))
    → (m : Table V) → All P m
    → All Q (update_rows f m)
unfolding update_rows
All-update_rows P Q f h [] all = tt
All-update_rows P Q f h ((k, v) ∷ m) (p, all) = (h k v p, All-update_rows P Q f h m all)

module _ (srv : Server) (item_id : Text) where
  pub soft_delete_transactions-update_rows :
      (ids : List Text) (t : Table Transaction) (out : ℕ × Table Transaction)
      → soft_delete_transactions srv item_id ids t ≡ good out
      → out.1 ≡ update_rows (remove_row srv item_id ids) t
  unfolding soft_delete_transactions one_of
  soft_delete_transactions-update_rows [] t out h =
      ap (λ o. o.1) (sym (good_inj h))
      ∙ sym (update_rows_id (remove_row srv item_id []) t (λ k r. refl))
  soft_delete_transactions-update_rows (id ∷ ids) t out h =
      ap (λ o. o.1) (sym (good_inj (>>-eq-good _ _ h)))

  pub link_forward-update_rows :
      (pairs : List (Text × Text)) (t : Table Transaction) (out : ℕ × Table Transaction)
      → link_forward srv item_id pairs t ≡ good out
      → out.1 ≡ update_rows (link_rows (forward_choice srv item_id pairs) srv.forward_at) t
  unfolding link_forward offered
  link_forward-update_rows [] t out h =
      ap (λ o. o.1) (sym (good_inj h))
      ∙ sym (
          update_rows_id (link_rows (forward_choice srv item_id []) srv.forward_at) t
            (λ k r. ground arith))
  link_forward-update_rows (pair ∷ pairs) t out h =
      ap (λ o. o.1) (sym (good_inj (>>-eq-good _ _ h)))

  pub link_reverse-update_rows :
      (ids : List Text) (t : Table Transaction) (out : ℕ × Table Transaction)
      → link_reverse srv item_id ids t ≡ good out
      → out.1
        ≡ update_rows
            (link_rows (reverse_choice srv item_id (stored_pairs item_id t) ids) srv.reverse_at)
            t
  unfolding link_reverse
  link_reverse-update_rows ids t out h = ap (λ o. o.1) (sym (good_inj (>>-eq-good _ _ h)))

  -- What no link changes holds behind the links.
  pub All-link_pending_transactions :
      (P : Text × Transaction → Type 0)
      → ((choice : Text → Transaction → Option Text) (now : Text → ℕ) (k : Text) (r : Transaction)
          → P (k, r)
          → P (k, link_rows choice now k r))
      → (trs : List Transaction) (t : Table Transaction) (out : ℕ × Table Transaction)
      → link_pending_transactions srv item_id trs t ≡ good out
      → All P t
      → All P out.1
  unfolding link_pending_transactions
  All-link_pending_transactions P keep [] t out h all =
      subst (All P) (ap (λ o. o.1) (good_inj h)) all
  All-link_pending_transactions P keep (tr ∷ rest) t out h all =
      let (mid, back, e, e1, last) = link_pending_transactions-passes srv item_id tr rest t out h in
      let pairs = pending_pairs (tr ∷ rest) in
      let ids = ids_of (tr ∷ rest) in
      let mid_all =
        subst (All P) (sym (link_forward-update_rows pairs t mid e))
          (All-update_rows P P _ (keep (forward_choice srv item_id pairs) srv.forward_at) t all) in
      subst (All P) (sym (last ∙ link_reverse-update_rows ids mid.1 back e1)) (
        All-update_rows P P _
          (keep (reverse_choice srv item_id (stored_pairs item_id mid.1) ids) srv.reverse_at) mid.1
          mid_all)
