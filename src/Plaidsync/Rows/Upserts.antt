-- ===== src/Plaidsync/Rows/Upserts.antt =====
-- What `upsertTransactions` leaves under each id, and what it counts.
use money_insighter.Prelude.{
  ℕ, ◌+◌, ◌≡◌, refl, sym, ap, ◌∙◌, Bool, true, false, Option, none, some, List, [], ◌∷◌, arith,
  Text, text_eq, text_eq-eq, lookup, assign, lookup-assign, length, if◌then◌else◌,
}
use money_insighter.Plaidsync.Types.{Transaction, Account}
use money_insighter.Plaidsync.Rows.{Table, Server, good, >>-eq-good, context-eq-good, good_inj}
use money_insighter.Plaidsync.Rows.Latest.{find, Distinct}
use money_insighter.Plaidsync.Rows.Transactions.{
  UpsertCounts, new_row, merged_row, write_row, write_rows, no_counts, upsert_transactions,
}

abbrev pub transaction_key : Transaction → Text
transaction_key tr = tr.transaction_id

-- The row that one statement leaves.
abbrev pub row_of : Server → Text → Transaction → Option Transaction → Transaction
row_of srv item_id tr none = new_row srv item_id tr
row_of srv item_id tr (some old) = if srv.same_raw old.raw tr.raw then old else merged_row old tr

abbrev pub upserted : Server → Text → Option Transaction → Option Transaction → Option Transaction
upserted srv item_id none old = old
upserted srv item_id (some tr) old = some (row_of srv item_id tr old)

write_row-row_of :
    (srv : Server) (item_id : Text) (tr : Transaction) (old : Option Transaction) (c : UpsertCounts)
    → (write_row srv item_id tr old c).0 ≡ row_of srv item_id tr old
write_row-row_of srv item_id tr none c = refl
write_row-row_of srv item_id tr (some old) c = ground arith

abbrev pub total : UpsertCounts → ℕ
total c = c.inserted + c.updated + c.unchanged

and_none : (n : ℕ) → n + total no_counts ≡ n
and_none n = omega arith

total-write_row :
    (srv : Server) (item_id : Text) (tr : Transaction) (old : Option Transaction) (c : UpsertCounts)
    → total (write_row srv item_id tr old c).1 ≡ 1 + total c
total-write_row srv item_id tr none c = omega arith
total-write_row srv item_id tr (some old) c = ground arith

upserted_step :
    (srv : Server) (item_id : Text) (tr : Transaction) (same : Bool)
    (found own old : Option Transaction)
    → (same ≡ true → (found ≡ none) × (own ≡ old))
    → upserted srv item_id found (if same then some (row_of srv item_id tr own) else old)
      ≡ upserted srv item_id (if same then some tr else found) old
upserted_step srv item_id tr true found own old h = rw ((h refl).0, (h refl).1)
upserted_step srv item_id tr false found own old h = refl

module _ (srv : Server) (item_id : Text) (accounts : Table Account) where
  -- The rest of the loop behind one row.
  write_rows_rest :
      (tr : Transaction) (rest : List Transaction) (c : UpsertCounts) (t : Table Transaction)
      {out : UpsertCounts × Table Transaction}
      → write_rows srv item_id accounts (tr ∷ rest) c t ≡ good out
      → write_rows srv item_id accounts rest
          (write_row srv item_id tr (lookup tr.transaction_id t) c).1
          (assign tr.transaction_id (row_of srv item_id tr (lookup tr.transaction_id t)) t)
        ≡ good out
  unfolding write_rows
  write_rows_rest tr rest c t h =
      ap
        (λ row.
          write_rows srv item_id accounts rest
            (write_row srv item_id tr (lookup tr.transaction_id t) c).1
            (assign tr.transaction_id row t))
        (sym (write_row-row_of srv item_id tr (lookup tr.transaction_id t) c))
      ∙ >>-eq-good _ _ h

  write_rows-upserted :
      (trs : List Transaction) (c : UpsertCounts) (t : Table Transaction)
      (out : UpsertCounts × Table Transaction)
      → Distinct transaction_key trs
      → write_rows srv item_id accounts trs c t ≡ good out
      → (k : Text) → lookup k out.1 ≡ upserted srv item_id (find transaction_key k trs) (lookup k t)
  unfolding Distinct find write_rows
  write_rows-upserted [] c t out once h k = ap (λ o. lookup k o.1) (sym (good_inj h))
  write_rows-upserted (tr ∷ rest) c t out (fresh, once) h k =
      let old = lookup tr.transaction_id t in
      let row = row_of srv item_id tr old in
      write_rows-upserted rest (write_row srv item_id tr old c).1 (assign tr.transaction_id row t)
        out once (write_rows_rest tr rest c t h) k
      ∙ ap (upserted srv item_id (find transaction_key k rest))
          (lookup-assign tr.transaction_id k row t)
      ∙ upserted_step srv item_id tr (text_eq tr.transaction_id k) (find transaction_key k rest) old
          (lookup k t)
          (λ e.
            let same = text_eq-eq tr.transaction_id k e in
            (ap (λ j. find transaction_key j rest) (sym same) ∙ fresh, ap (λ j. lookup j t) same))

  write_rows-total :
      (trs : List Transaction) (c : UpsertCounts) (t : Table Transaction)
      (out : UpsertCounts × Table Transaction)
      → write_rows srv item_id accounts trs c t ≡ good out
      → total out.0 ≡ length trs + total c
  unfolding write_rows
  write_rows-total [] c t out h = omega (arith, ap (λ o. total o.0) (sym (good_inj h)))
  write_rows-total (tr ∷ rest) c t out h =
      let old = lookup tr.transaction_id t in
      let row = row_of srv item_id tr old in
      let c1 = (write_row srv item_id tr old c).1 in
      omega (
        arith,
        write_rows-total rest c1 (assign tr.transaction_id row t) out
            (write_rows_rest tr rest c t h),
        total-write_row srv item_id tr old c,
      )

  -- With every id once, each id of the input ends with the row that its statement leaves and every
  -- other id with the row that it had, and each input is counted exactly once.
  pub upsert_transactions_lem :
      (trs : List Transaction) (t : Table Transaction) (out : UpsertCounts × Table Transaction)
      → Distinct transaction_key trs
      → upsert_transactions srv item_id accounts trs t ≡ good out
      → (total out.0 ≡ length trs)
        × ((k : Text)
            → lookup k out.1 ≡ upserted srv item_id (find transaction_key k trs) (lookup k t))
  unfolding upsert_transactions find
  upsert_transactions_lem [] t out once h =
      (ap (λ o. total o.0) (sym (good_inj h)), λ k. ap (λ o. lookup k o.1) (sym (good_inj h)))
  upsert_transactions_lem (tr ∷ rest) t out once h =
      let done = context-eq-good _ _ (>>-eq-good _ _ (>>-eq-good _ _ h)) in
      (
        write_rows-total (tr ∷ rest) no_counts t out done ∙ and_none (length (tr ∷ rest)),
        write_rows-upserted (tr ∷ rest) no_counts t out once done,
      )
