-- ===== src/Plaidsync/Rows/Transactions.antt =====
-- The transaction half of `ApplySyncBatch`: plaid-backend-golang/internal/store/transactions.go.
use money_insighter.Prelude.{
  ℕ, suc, Bool, true, false, not, ◌&&◌, Option, none, some, List, [], ◌∷◌, Text, codes, text_eq,
  one_of, lookup, assign, ◌==◌, is_empty, if◌then◌else◌,
}
use money_insighter.Plaidsync.Civil.{Date, valid}
use money_insighter.Plaidsync.Types.{Transaction, Account}
use money_insighter.Plaidsync.Errors.{GoError, other}
use money_insighter.Plaidsync.Rows.{
  Table, Server, Outcome, good, ◌>>◌, raise_if, run, context, update_rows, count_rows,
}
use money_insighter.Plaidsync.Rows.Accounts.{validate_amount_scale, or_now}

abbrev is_zero_date : Date → Bool
is_zero_date d = (d.year == 0) && (d.month == 0) && (d.day == 0)

unfoldable pub validate_transaction : Transaction → Outcome (Unit {0})
unfolding validate_amount_scale
validate_transaction tr = do
  raise_if (is_empty tr.transaction_id) (other (codes "transaction id is empty"))
  raise_if (is_empty tr.account_id) (other (codes "account id is empty"))
  raise_if (is_zero_date tr.date) (other (codes "date is empty"))
  raise_if (is_empty tr.raw) (other (codes "raw payload is empty"))
  context (codes "transaction") (validate_amount_scale (some tr.amount))

unfoldable pub validate_transactions : List Transaction → Outcome (Unit {0})
unfolding validate_transaction
validate_transactions [] = good tt
validate_transactions (tr ∷ rest) = do validate_transaction tr; validate_transactions rest

pub record UpsertCounts : Type 0 where
  pub inserted : ℕ
  pub updated : ℕ
  pub unchanged : ℕ

-- The columns of a new row.
abbrev pub new_row : Server → Text → Transaction → Transaction
new_row srv item_id tr = record tr {
  item_id = item_id;
  superseded_by = none;
  superseded_at = none;
  removed_at = none;
  first_seen_at = srv.first_seen_at tr.transaction_id;
}

-- ON CONFLICT DO UPDATE: what the statement does not set stays.
abbrev pub merged_row : Transaction → Transaction → Transaction
merged_row old tr = record tr {
  item_id = old.item_id;
  superseded_by = old.superseded_by;
  superseded_at = old.superseded_at;
  removed_at = old.removed_at;
  first_seen_at = old.first_seen_at;
}

-- `upsertTransactionSQL` on what the table holds under the id: the row and its count.
abbrev pub write_row :
    Server → Text → Transaction → Option Transaction → UpsertCounts → Transaction × UpsertCounts
write_row srv item_id tr none c = (new_row srv item_id tr, record c { inserted = suc c.inserted })
write_row srv item_id tr (some old) c =
    if srv.same_raw old.raw tr.raw
    then (old, record c { unchanged = suc c.unchanged })
    else (merged_row old tr, record c { updated = suc c.updated })

abbrev pub is_written : Server → Transaction → Option Transaction → Bool
is_written srv tr none = true
is_written srv tr (some old) = not (srv.same_raw old.raw tr.raw)

abbrev pub has_row : {V : Type 0} → Option V → Bool
has_row none = false
has_row (some v) = true

abbrev pub unknown_account : GoError
unknown_account =
    other
      (codes "a transaction references an account that is neither in the batch nor in the database")

-- A row that is written needs a date that the database takes and an account that it knows.
unfoldable pub check_row :
    Server → Table Account → Transaction → Option Transaction → Outcome (Unit {0})
unfolding lookup valid
check_row srv accounts tr old = do
  raise_if (not (valid tr.date)) (other (codes "civil: invalid date"))
  raise_if (is_written srv tr old && not (has_row (lookup tr.account_id accounts))) unknown_account

unfoldable pub write_rows :
    Server
    → Text
    → Table Account
    → List Transaction
    → UpsertCounts
    → Table Transaction
    → Outcome (UpsertCounts × Table Transaction)
unfolding lookup assign check_row
write_rows srv item_id accounts [] c t = good (c, t)
write_rows srv item_id accounts (tr ∷ rest) c t = do
  let old = lookup tr.transaction_id t
  check_row srv accounts tr old
  let (row, c') = write_row srv item_id tr old c
  write_rows srv item_id accounts rest c' (assign tr.transaction_id row t)

abbrev pub no_counts : UpsertCounts
no_counts = record { inserted = 0; updated = 0; unchanged = 0 }

-- The statements of one batch are sent together, when all transactions are valid.
unfoldable pub upsert_transactions :
    Server
    → Text
    → Table Account
    → List Transaction
    → Table Transaction
    → Outcome (UpsertCounts × Table Transaction)
unfolding validate_transactions write_rows
upsert_transactions srv item_id accounts [] t = good (no_counts, t)
upsert_transactions srv item_id accounts (tr ∷ rest) t = do
  validate_transactions (tr ∷ rest)
  context (codes "upsert transactions") (run srv.transactions_error)
  context (codes "upsert transactions") (write_rows srv item_id accounts (tr ∷ rest) no_counts t)

-- The rows that `softDeleteTransactionsSQL` selects, and those of them not removed before.
abbrev pub is_named : Text → List Text → Text → Transaction → Bool
is_named item_id ids k r = one_of k ids && text_eq r.item_id item_id

abbrev pub is_newly_removed : Text → List Text → Text → Transaction → Bool
is_newly_removed item_id ids k r = is_named item_id ids k r && not (has_row r.removed_at)

abbrev pub remove_row : Server → Text → List Text → Text → Transaction → Transaction
remove_row srv item_id ids k r =
    if is_named item_id ids k r
    then record r { removed_at = or_now r.removed_at (srv.removed_at k) }
    else r

unfoldable pub soft_delete_transactions :
    Server → Text → List Text → Table Transaction → Outcome (ℕ × Table Transaction)
unfolding update_rows count_rows one_of text_eq
soft_delete_transactions srv item_id [] t = good (0, t)
soft_delete_transactions srv item_id (id ∷ ids) t = do
  context (codes "soft delete transactions") (run srv.remove_error)
  good (
    count_rows (is_newly_removed item_id (id ∷ ids)) t,
    update_rows (remove_row srv item_id (id ∷ ids)) t,
  )
