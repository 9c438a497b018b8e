-- ===== src/Plaidsync/Rows/Again.antt =====
-- The statements of a batch, sent again to the tables that they left.
use money_insighter.Prelude.{
  ℕ, suc, ◌+◌, ◌≡◌, refl, ap, ap₂, ◌∙◌, Bool, true, false, not, ◌&&◌, inl, inr, Option, none, some,
  List, [], ◌∷◌, arith, Text, text_eq-eq, lookup, assign, length, All, if◌then◌else◌,
}
use money_insighter.Plaidsync.Types.{Transaction, Account}
use money_insighter.Plaidsync.Rows.{
  Table, Server, good, raise_if, >>=-eq-good, >>-eq-good, context-eq-good, update_rows, count_rows,
}
use money_insighter.Plaidsync.Rows.Rerun.{rerun, after, context_good}
use money_insighter.Plaidsync.Rows.Accounts.{upsert_accounts, mark_missing_accounts, or_now}
use money_insighter.Plaidsync.Rows.Transactions.{
  UpsertCounts, write_row, is_written, check_row, write_rows, unknown_account, no_counts,
  upsert_transactions, is_named, is_newly_removed, remove_row, has_row, soft_delete_transactions,
}
use money_insighter.Plaidsync.Rows.Links.{
  link_forward, link_reverse, link_pending_transactions, pending_pairs, ids_of,
}
use money_insighter.Plaidsync.Rows.Lookups.{link_pending_transactions-passes}
use money_insighter.Plaidsync.Rows.Removed.{IsGone}
use money_insighter.Plaidsync.Rows.Apply.{mark_if_listed}

or_now_set : (o : Option ℕ) (now : ℕ) → has_row o ≡ true → or_now o now ≡ o
or_now_set none now h = cc
or_now_set (some n) now h = refl

if_same : {A : Type 0} (b : Bool) (x y : A) → x ≡ y → (if b then x else y) ≡ y
if_same true x y h = h
if_same false x y h = refl

zero-plus : (n : ℕ) → n ≡ 0 + n
zero-plus n = omega arith

plus_zero : (n : ℕ) → n + 0 ≡ n
plus_zero n = omega arith

plus_suc : (m n : ℕ) → m + suc n ≡ suc m + n
plus_suc m n = omega arith

and_false : (b : Bool) → (b && false) ≡ false
and_false b = ground arith

module _ (srv : Server) (item_id : Text) where
  pub upsert_accounts_again :
      (xs : List Account) (t t' : Table Account) (out : ℕ × Table Account)
      → upsert_accounts srv item_id xs t ≡ good out
      → (out' : ℕ × Table Account) × (upsert_accounts srv item_id xs t' ≡ good out')
  unfolding upsert_accounts
  upsert_accounts_again [] t t' out h = (_, refl)
  upsert_accounts_again (a ∷ rest) t t' out h = (_, rerun _ _ _ h ∙ rerun _ _ _ (>>-eq-good _ _ h))

  pub mark_if_listed_again :
      (xs : List Account) (t t' : Table Account) (out : List Text × Table Account)
      → mark_if_listed srv item_id xs t ≡ good out
      → (out' : List Text × Table Account) × (mark_if_listed srv item_id xs t' ≡ good out')
  unfolding mark_if_listed mark_missing_accounts
  mark_if_listed_again [] t t' out h = (_, refl)
  mark_if_listed_again (a ∷ rest) t t' out h = (_, rerun _ _ _ h)

  link_forward_again :
      (pairs : List (Text × Text)) (t t' : Table Transaction) (out : ℕ × Table Transaction)
      → link_forward srv item_id pairs t ≡ good out
      → (out' : ℕ × Table Transaction) × (link_forward srv item_id pairs t' ≡ good out')
  unfolding link_forward
  link_forward_again [] t t' out h = (_, refl)
  link_forward_again (pair ∷ pairs) t t' out h = (_, rerun _ _ _ h)

  link_reverse_again :
      (ids : List Text) (t t' : Table Transaction) (out : ℕ × Table Transaction)
      → link_reverse srv item_id ids t ≡ good out
      → (out' : ℕ × Table Transaction) × (link_reverse srv item_id ids t' ≡ good out')
  unfolding link_reverse
  link_reverse_again ids t t' out h = (_, rerun _ _ _ h)

  pub link_pending_transactions_again :
      (trs : List Transaction) (t t' : Table Transaction) (out : ℕ × Table Transaction)
      → link_pending_transactions srv item_id trs t ≡ good out
      → (out' : ℕ × Table Transaction) × (link_pending_transactions srv item_id trs t' ≡ good out')
  unfolding link_pending_transactions
  link_pending_transactions_again [] t t' out h = (_, refl)
  link_pending_transactions_again (tr ∷ rest) t t' out h =
      let (mid, back, e, e1, last) = link_pending_transactions-passes srv item_id tr rest t out h in
      let (mid', m) = link_forward_again (pending_pairs (tr ∷ rest)) t t' mid e in
      let (back', m1) = link_reverse_again (ids_of (tr ∷ rest)) mid.1 mid'.1 back e1 in
      ((mid'.0 + back'.0, back'.1), after _ _ m ∙ after _ _ m1)

  remove_row-IsGone_id :
      (ids : List Text) (k : Text) (r : Transaction)
      → IsGone item_id ids (k, r)
      → (remove_row srv item_id ids k r ≡ r) × (is_newly_removed item_id ids k r ≡ false)
  remove_row-IsGone_id ids k r (inl unnamed) = (rw unnamed refl, rw unnamed refl)
  remove_row-IsGone_id ids k r (inr gone) = (
    if_same (is_named item_id ids k r)
        (record r { removed_at = or_now r.removed_at (srv.removed_at k) }) r
        (ap (λ o. record r { removed_at = o }) (or_now_set r.removed_at (srv.removed_at k) gone)),
    ap (λ o. is_named item_id ids k r && not o) gone ∙ and_false (is_named item_id ids k r),
  )

  unchanged_when_gone :
      (ids : List Text) (t : Table Transaction)
      → All (IsGone item_id ids) t
      → (count_rows (is_newly_removed item_id ids) t ≡ 0)
        × (update_rows (remove_row srv item_id ids) t ≡ t)
  unfolding count_rows update_rows
  unchanged_when_gone ids [] all = (refl, refl)
  unchanged_when_gone ids ((k, r) ∷ t) (h, all) =
      let (same, old) = remove_row-IsGone_id ids k r h in
      let (none_left, rest) = unchanged_when_gone ids t all in
      (rw old none_left, ap₂ (λ v m. (k, v) ∷ m) same rest)

  -- Rows that are removed already stay as they are and are not counted.
  pub soft_delete_transactions_again :
      (ids : List Text) (t t' : Table Transaction) (out : ℕ × Table Transaction)
      → soft_delete_transactions srv item_id ids t ≡ good out
      → All (IsGone item_id ids) t'
      → soft_delete_transactions srv item_id ids t' ≡ good (0, t')
  unfolding soft_delete_transactions
  soft_delete_transactions_again [] t t' out h all = refl
  soft_delete_transactions_again (id ∷ ids) t t' out h all =
      rerun _ _ _ h
      ∙ let (n, m) = unchanged_when_gone (id ∷ ids) t' all in ap₂ (λ a b. good (a, b)) n m

assign_same : {V : Type 0} (k : Text) (v : V) (m : Table V) → lookup k m ≡ some v → assign k v m ≡ m
unfolding lookup assign
assign_same k v [] h = absurd cc
assign_same k v ((j, w) ∷ m) h = ground (arith, assign_same k v m, text_eq-eq j k)

-- The table holds a row with the raw payload of this transaction.
abbrev pub Matches : Server → Transaction → Option Transaction → Type 0
Matches srv tr none = ⊥
Matches srv tr (some r) = srv.same_raw r.raw tr.raw ≡ true

module _ (srv : Server) (item_id : Text) where
  write_row-Matches :
      (tr : Transaction) (t : Table Transaction) (o : Option Transaction) (c : UpsertCounts)
      → lookup tr.transaction_id t ≡ o
      → Matches srv tr o
      → ((write_row srv item_id tr o c).1 ≡ record c { unchanged = suc c.unchanged })
        × (assign tr.transaction_id (write_row srv item_id tr o c).0 t ≡ t)
        × (is_written srv tr o ≡ false)
  write_row-Matches tr t none c e m = absurd m
  write_row-Matches tr t (some r) c e m =
      (rw m refl, rw m (assign_same tr.transaction_id r t e), rw m refl)

  check_row_again :
      (accounts accounts' : Table Account) (tr : Transaction) (o o' : Option Transaction)
      → check_row srv accounts tr o ≡ good tt
      → is_written srv tr o' ≡ false
      → check_row srv accounts' tr o' ≡ good tt
  unfolding check_row
  check_row_again accounts accounts' tr o o' h old =
      let known = has_row (lookup tr.account_id accounts') in
      rerun _ _ (raise_if (is_written srv tr o' && not known) unknown_account) h
      ∙ ap (λ w. raise_if (w && not known) unknown_account) old

  -- Rows that match are only counted.
  write_rows_again :
      (accounts accounts' : Table Account) (trs : List Transaction) (c c' : UpsertCounts)
      (t t' : Table Transaction) (out : UpsertCounts × Table Transaction)
      → write_rows srv item_id accounts trs c t ≡ good out
      → All (λ tr. Matches srv tr (lookup tr.transaction_id t')) trs
      → write_rows srv item_id accounts' trs c' t'
        ≡ good (record c' { unchanged = length trs + c'.unchanged }, t')
  unfolding write_rows
  write_rows_again accounts accounts' [] c c' t t' out h all =
      ap (λ n. good (record c' { unchanged = n }, t')) (zero-plus c'.unchanged)
  write_rows_again accounts accounts' (tr ∷ rest) c c' t t' out h (m, all) =
      let (u, e, h1) = >>=-eq-good _ _ h in
      let (counted, same, old) = write_row-Matches tr t' (lookup tr.transaction_id t') c' refl m in
      after (check_row srv accounts' tr (lookup tr.transaction_id t')) _
        (check_row_again accounts accounts' tr _ (lookup tr.transaction_id t') e old)
      ∙ ap₂ (λ d s. write_rows srv item_id accounts' rest d s) counted same
      ∙ write_rows_again accounts accounts' rest _ (record c' { unchanged = suc c'.unchanged }) _ t'
          out h1 all
      ∙ ap (λ n. good (record c' { unchanged = n }, t')) (plus_suc (length rest) c'.unchanged)

  pub upsert_transactions_again :
      (accounts accounts' : Table Account) (trs : List Transaction) (t t' : Table Transaction)
      (out : UpsertCounts × Table Transaction)
      → upsert_transactions srv item_id accounts trs t ≡ good out
      → All (λ tr. Matches srv tr (lookup tr.transaction_id t')) trs
      → upsert_transactions srv item_id accounts' trs t'
        ≡ good (record no_counts { unchanged = length trs }, t')
  unfolding upsert_transactions
  upsert_transactions_again accounts accounts' [] t t' out h all = refl
  upsert_transactions_again accounts accounts' (tr ∷ rest) t t' out h all =
      let h1 = >>-eq-good _ _ h in
      rerun _ _ _ h
      ∙ rerun _ _ _ h1
      ∙ context_good _ _ (
          write_rows_again accounts accounts' (tr ∷ rest) no_counts no_counts t t' out
            (context-eq-good _ _ (>>-eq-good _ _ h1)) all
          ∙ ap (λ n. good (record no_counts { unchanged = n }, t'))
              (plus_zero (length (tr ∷ rest))))
