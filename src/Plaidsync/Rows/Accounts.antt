-- ===== src/Plaidsync/Rows/Accounts.antt =====
-- The account half of `ApplySyncBatch`: plaid-backend-golang/internal/store/accounts.go.
use money_insighter.Prelude.{
  ℕ, Bool, not, ◌&&◌, Option, none, some, List, [], ◌∷◌, Text, codes, text_eq, one_of, sort, lookup,
  assign, length, is_empty, ltb, if◌then◌else◌,
}
use money_insighter.Plaidsync.Money.{Amount, scale}
use money_insighter.Plaidsync.Types.{Account}
use money_insighter.Plaidsync.Errors.{other}
use money_insighter.Plaidsync.Rows.{
  Table, Server, Outcome, good, ◌>>◌, raise_if, run, context, update_rows,
}

abbrev pub max_amount_scale : ℕ
max_amount_scale = 6

-- `validateAmountScale`; the text of its error is not modelled.
unfoldable pub validate_amount_scale : Option Amount → Outcome (Unit {0})
unfolding scale
validate_amount_scale none = good tt
validate_amount_scale (some v) =
    raise_if (ltb max_amount_scale (scale v)) (other (codes "too many fractional digits"))

unfoldable pub validate_account : Account → Outcome (Unit {0})
unfolding validate_amount_scale
validate_account a = do
  raise_if (is_empty a.account_id) (other (codes "account id is empty"))
  raise_if (is_empty a.raw) (other (codes "raw payload is empty"))
  context (codes "account") (validate_amount_scale a.current_balance)
  context (codes "account") (validate_amount_scale a.available_balance)
  context (codes "account") (validate_amount_scale a.credit_limit)

-- `upsertAccountSQL` on what the table holds under the id.
abbrev pub write_account : Server → Text → Account → Option Account → Account
write_account srv item_id a none = record a {
  item_id = item_id;
  first_seen_at = srv.account_seen_at a.account_id;
  last_seen_at = srv.account_seen_at a.account_id;
  missing_since = none;
}
write_account srv item_id a (some old) = record a {
  item_id = item_id;
  first_seen_at = old.first_seen_at;
  last_seen_at = srv.account_seen_at a.account_id;
  missing_since = none;
}

unfoldable pub validate_accounts : List Account → Outcome (Unit {0})
unfolding validate_account
validate_accounts [] = good tt
validate_accounts (a ∷ rest) = do validate_account a; validate_accounts rest

unfoldable pub write_accounts : Server → Text → List Account → Table Account → Table Account
unfolding lookup assign
write_accounts srv item_id [] t = t
write_accounts srv item_id (a ∷ rest) t =
    write_accounts srv item_id rest
      (assign a.account_id (write_account srv item_id a (lookup a.account_id t)) t)

-- The statements of one batch are sent together, when all accounts are valid.
unfoldable pub upsert_accounts :
    Server → Text → List Account → Table Account → Outcome (ℕ × Table Account)
unfolding validate_accounts write_accounts
upsert_accounts srv item_id [] t = good (0, t)
upsert_accounts srv item_id (a ∷ rest) t = do
  validate_accounts (a ∷ rest)
  context (codes "upsert accounts") (run srv.accounts_error)
  good (length (a ∷ rest), write_accounts srv item_id (a ∷ rest) t)

abbrev pub or_now : Option ℕ → ℕ → Option ℕ
or_now none now = some now
or_now (some t) now = some t

-- `account_id <> ALL(seen)` in the rows of the item
abbrev pub is_unlisted : Text → List Text → Text → Account → Bool
is_unlisted item_id seen k a = text_eq a.item_id item_id && not (one_of k seen)

-- `markMissingAccountsSQL` on one row
abbrev pub flag_missing : Server → Text → List Text → Text → Account → Account
flag_missing srv item_id seen k a =
    if is_unlisted item_id seen k a
    then record a { missing_since = or_now a.missing_since (srv.missing_at k) }
    else a

-- RETURNING account_id
unfoldable pub keys_where : {V : Type 0} → (Text → V → Bool) → Table V → List Text
keys_where p [] = []
keys_where p ((k, v) ∷ t) = let rest = keys_where p t in if p k v then k ∷ rest else rest

unfoldable pub mark_missing_accounts :
    Server → Text → List Text → Table Account → Outcome (List Text × Table Account)
unfolding update_rows keys_where one_of text_eq sort
mark_missing_accounts srv item_id seen t = do
  context (codes "mark missing accounts") (run srv.missing_error)
  good (
    sort (keys_where (is_unlisted item_id seen) t),
    update_rows (flag_missing srv item_id seen) t,
  )
