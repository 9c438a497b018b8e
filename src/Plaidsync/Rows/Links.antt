-- ===== src/Plaidsync/Rows/Links.antt =====
-- `linkPendingTransactions`: plaid-backend-golang/internal/store/transactions.go.
use money_insighter.Prelude.{
  ℕ, suc, ◌+◌, ◌%◌, Bool, true, not, ◌&&◌, Option, none, some, List, [], ◌∷◌, Text, codes, text_eq,
  one_of, length, get_elem?, map, if◌then◌else◌,
}
use money_insighter.Plaidsync.Types.{Transaction}
use money_insighter.Plaidsync.Rows.{
  Table, Server, Outcome, good, ◌>>=◌, ◌>>◌, run, context, update_rows, count_rows,
}
use money_insighter.Plaidsync.Rows.Accounts.{or_now}
use money_insighter.Plaidsync.Rows.Transactions.{has_row}

-- A (pending, posted) pair of a posted row that names the pending one.
abbrev pair_of : Text → Option Text → List (Text × Text) → List (Text × Text)
pair_of posted none rest = rest
pair_of posted (some []) rest = rest
pair_of posted (some (c ∷ pending)) rest = (c ∷ pending, posted) ∷ rest

unfoldable pub pending_pairs : List Transaction → List (Text × Text)
pending_pairs [] = []
pending_pairs (tr ∷ rest) = pair_of tr.transaction_id tr.pending_transaction_id (pending_pairs rest)

abbrev pub differs : Option Text → Text → Bool
differs none s = true
differs (some r) s = not (text_eq r s)

-- The ids of the posted rows that a join offers to a pending row.
unfoldable pub offered : Text → Option Text → List (Text × Text) → List Text
unfolding text_eq
offered k link [] = []
offered k link ((pending, posted) ∷ pairs) =
    let rest = offered k link pairs in
    if text_eq k pending && differs link posted then posted ∷ rest else rest

-- UPDATE … FROM takes one of the joined rows, whichever.
abbrev pub chosen : Server → Text → List Text → Option Text
chosen srv k [] = none
chosen srv k (s ∷ rest) = get_elem? (s ∷ rest) (srv.pick k % suc (length rest))

abbrev pub link_to : ℕ → Option Text → Transaction → Transaction
link_to now none r = r
link_to now (some posted) r = record r {
  superseded_by = some posted;
  superseded_at = or_now r.superseded_at now;
}

abbrev pub forward_choice : Server → Text → List (Text × Text) → Text → Transaction → Option Text
forward_choice srv item_id pairs k r =
    if text_eq r.item_id item_id then chosen srv k (offered k r.superseded_by pairs) else none

abbrev named_pair : Text → Option Text → List (Text × Text) → List (Text × Text)
named_pair posted none rest = rest
named_pair posted (some pending) rest = (pending, posted) ∷ rest

-- The pairs that the table holds for an item: a row's own id under the id that it names.
unfoldable pub stored_pairs : Text → Table Transaction → List (Text × Text)
stored_pairs item_id [] = []
stored_pairs item_id ((k, r) ∷ t) =
    let rest = stored_pairs item_id t in
    let more = named_pair k r.pending_transaction_id rest in
    if text_eq r.item_id item_id then more else rest

abbrev pub reverse_choice :
    Server → Text → List (Text × Text) → List Text → Text → Transaction → Option Text
reverse_choice srv item_id pairs ids k r =
    if text_eq r.item_id item_id && one_of k ids
    then chosen srv k (offered k r.superseded_by pairs)
    else none

abbrev pub link_rows :
    (Text → Transaction → Option Text) → (Text → ℕ) → Text → Transaction → Transaction
link_rows choice now k r = link_to (now k) (choice k r) r

-- RowsAffected: the rows that the join offers something.
abbrev pub linked_by : (Text → Transaction → Option Text) → Text → Transaction → Bool
linked_by choice k r = has_row (choice k r)

abbrev pub ids_of : List Transaction → List Text
ids_of trs = map (λ tr. tr.transaction_id) trs

-- `linkPendingForwardSQL`, which is sent only when there are pairs.
unfoldable pub link_forward :
    Server → Text → List (Text × Text) → Table Transaction → Outcome (ℕ × Table Transaction)
unfolding offered update_rows count_rows text_eq
link_forward srv item_id [] t = good (0, t)
link_forward srv item_id (pair ∷ pairs) t = do
  context (codes "link pending transactions (forward)") (run srv.forward_error)
  let choice = forward_choice srv item_id (pair ∷ pairs)
  good (count_rows (linked_by choice) t, update_rows (link_rows choice srv.forward_at) t)

-- `linkPendingReverseSQL`
unfoldable pub link_reverse :
    Server → Text → List Text → Table Transaction → Outcome (ℕ × Table Transaction)
unfolding offered stored_pairs update_rows count_rows text_eq one_of
link_reverse srv item_id ids t = do
  context (codes "link pending transactions (reverse)") (run srv.reverse_error)
  let choice = reverse_choice srv item_id (stored_pairs item_id t) ids
  good (count_rows (linked_by choice) t, update_rows (link_rows choice srv.reverse_at) t)

unfoldable pub link_pending_transactions :
    Server → Text → List Transaction → Table Transaction → Outcome (ℕ × Table Transaction)
unfolding pending_pairs link_forward link_reverse
link_pending_transactions srv item_id [] t = good (0, t)
link_pending_transactions srv item_id (tr ∷ rest) t = do
  forward ← link_forward srv item_id (pending_pairs (tr ∷ rest)) t
  back ← link_reverse srv item_id (ids_of (tr ∷ rest)) forward.1
  good (forward.0 + back.0, back.1)
