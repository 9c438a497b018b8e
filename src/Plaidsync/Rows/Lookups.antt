-- ===== src/Plaidsync/Rows/Lookups.antt =====
-- What stands under each id behind each statement of `ApplySyncBatch`.
use money_insighter.Prelude.{
  ℕ, ◌≡◌, refl, sym, ap, ◌∙◌, subst, Bool, true, false, Option, none, some, List, [], ◌∷◌, arith,
  Text, map, lookup, assign, lookup-assign, text_eq, text_eq-eq, one_of, if◌then◌else◌,
}
use money_insighter.Plaidsync.Types.{Transaction, Account}
use money_insighter.Plaidsync.Rows.{
  Table, Server, good, good_inj, >>=-eq-good, >>-eq-good, at_key, update_rows, lookup-update_rows,
}
use money_insighter.Plaidsync.Rows.Latest.{find, Distinct}
use money_insighter.Plaidsync.Rows.Accounts.{
  write_account, write_accounts, upsert_accounts, flag_missing, mark_missing_accounts,
}
use money_insighter.Plaidsync.Rows.Transactions.{remove_row, soft_delete_transactions}
use money_insighter.Plaidsync.Rows.Links.{
  link_rows, forward_choice, reverse_choice, stored_pairs, link_forward, link_reverse,
  link_pending_transactions, pending_pairs, ids_of, offered,
}
use money_insighter.Plaidsync.Rows.Apply.{mark_if_listed}

-- An update of no row.
at_key_id :
    {V : Type 0} (f : Text → V → V) (k : Text) (o : Option V)
    → ((v : V) → f k v ≡ v)
    → o ≡ at_key f k o
at_key_id f k none h = refl
at_key_id f k (some v) h = ap some (sym (h v))

-- The table behind an UPDATE.
updated :
    {B V : Type 0} (f : Text → V → V) (n : B) (t : Table V) {out : B × Table V}
    → good (n, update_rows f t) ≡ good out
    → (k : Text) → lookup k out.1 ≡ at_key f k (lookup k t)
updated f n t h k = ap (λ o. lookup k o.1) (sym (good_inj h)) ∙ lookup-update_rows f k t

module _ (srv : Server) (item_id : Text) where
  pub lookup-soft_delete_transactions :
      (ids : List Text) (t : Table Transaction) (out : ℕ × Table Transaction)
      → soft_delete_transactions srv item_id ids t ≡ good out
      → (k : Text) → lookup k out.1 ≡ at_key (remove_row srv item_id ids) k (lookup k t)
  unfolding soft_delete_transactions one_of
  lookup-soft_delete_transactions [] t out h k =
      ap (λ o. lookup k o.1) (sym (good_inj h))
      ∙ at_key_id (remove_row srv item_id []) k (lookup k t) (λ r. refl)
  lookup-soft_delete_transactions (id ∷ ids) t out h k =
      updated (remove_row srv item_id (id ∷ ids)) _ t (>>-eq-good _ _ h) k

  pub lookup-link_forward :
      (pairs : List (Text × Text)) (t : Table Transaction) (out : ℕ × Table Transaction)
      → link_forward srv item_id pairs t ≡ good out
      → (k : Text)
      → lookup k out.1
        ≡ at_key (link_rows (forward_choice srv item_id pairs) srv.forward_at) k (lookup k t)
  unfolding link_forward offered
  lookup-link_forward [] t out h k =
      ap (λ o. lookup k o.1) (sym (good_inj h))
      ∙ at_key_id (link_rows (forward_choice srv item_id []) srv.forward_at) k (lookup k t)
          (λ r. ground arith)
  lookup-link_forward (pair ∷ pairs) t out h k =
      updated (link_rows (forward_choice srv item_id (pair ∷ pairs)) srv.forward_at) _ t
        (>>-eq-good _ _ h) k

  pub lookup-link_reverse :
      (ids : List Text) (t : Table Transaction) (out : ℕ × Table Transaction)
      → link_reverse srv item_id ids t ≡ good out
      → (k : Text)
      → lookup k out.1
        ≡ at_key
            (link_rows (reverse_choice srv item_id (stored_pairs item_id t) ids) srv.reverse_at)
            k
            (lookup k t)
  unfolding link_reverse
  lookup-link_reverse ids t out h = updated _ _ t (>>-eq-good _ _ h)

  -- The two passes of a call with transactions, and the table between them.
  pub link_pending_transactions-passes :
      (tr : Transaction) (rest : List Transaction) (t : Table Transaction)
      (out : ℕ × Table Transaction)
      → link_pending_transactions srv item_id (tr ∷ rest) t ≡ good out
      → (mid : ℕ × Table Transaction) × (back : ℕ × Table Transaction) × (link_forward srv item_id
            (pending_pairs (tr ∷ rest))
            t
          ≡ good mid)
        × (link_reverse srv item_id (ids_of (tr ∷ rest)) mid.1 ≡ good back)
        × (out.1 ≡ back.1)
  unfolding link_pending_transactions
  link_pending_transactions-passes tr rest t out h =
      let (mid, e, h1) = >>=-eq-good _ _ h in
      let (back, e1, h2) = >>=-eq-good _ _ h1 in
      (mid, back, e, e1, ap (λ o. o.1) (sym (good_inj h2)))

  -- What no link changes of the row under an id holds behind the links.
  pub lookup-link_pending_transactions :
      (P : Option Transaction → Type 0) (k : Text)
      → ((choice : Text → Transaction → Option Text) (now : Text → ℕ) (o : Option Transaction)
          → P o
          → P (at_key (link_rows choice now) k o))
      → (trs : List Transaction) (t : Table Transaction) (out : ℕ × Table Transaction)
      → link_pending_transactions srv item_id trs t ≡ good out
      → P (lookup k t)
      → P (lookup k out.1)
  unfolding link_pending_transactions
  lookup-link_pending_transactions P k keep [] t out h p =
      subst P (ap (λ o. lookup k o.1) (good_inj h)) p
  lookup-link_pending_transactions P k keep (tr ∷ rest) t out h p =
      let (mid, back, e, e1, last) = link_pending_transactions-passes tr rest t out h in
      let pairs = pending_pairs (tr ∷ rest) in
      let ids = ids_of (tr ∷ rest) in
      subst P (sym (ap (lookup k) last ∙ lookup-link_reverse ids mid.1 back e1 k)) (
        keep (reverse_choice srv item_id (stored_pairs item_id mid.1) ids) srv.reverse_at
          (lookup k mid.1)
          (subst P (sym (lookup-link_forward pairs t mid e k))
            (keep (forward_choice srv item_id pairs) srv.forward_at (lookup k t) p)))

-- What a list of accounts leaves under an id.
abbrev pub relisted : Server → Text → Option Account → Option Account → Option Account
relisted srv item_id none old = old
relisted srv item_id (some a) old = some (write_account srv item_id a old)

abbrev pub account_key : Account → Text
account_key a = a.account_id

relisted_step :
    (srv : Server) (item_id : Text) (a : Account) (same : Bool) (found own old : Option Account)
    → (same ≡ true → (found ≡ none) × (own ≡ old))
    → relisted srv item_id found (if same then some (write_account srv item_id a own) else old)
      ≡ relisted srv item_id (if same then some a else found) old
relisted_step srv item_id a true found own old h = rw ((h refl).0, (h refl).1)
relisted_step srv item_id a false found own old h = refl

module _ (srv : Server) (item_id : Text) where
  lookup-write_accounts :
      (xs : List Account) (t : Table Account)
      → Distinct account_key xs
      → (k : Text)
      → lookup k (write_accounts srv item_id xs t)
        ≡ relisted srv item_id (find account_key k xs) (lookup k t)
  unfolding write_accounts Distinct find
  lookup-write_accounts [] t once k = refl
  lookup-write_accounts (a ∷ rest) t (fresh, once) k =
      let row = write_account srv item_id a (lookup a.account_id t) in
      lookup-write_accounts rest (assign a.account_id row t) once k
      ∙ ap (relisted srv item_id (find account_key k rest)) (lookup-assign a.account_id k row t)
      ∙ relisted_step srv item_id a (text_eq a.account_id k) (find account_key k rest)
          (lookup a.account_id t) (lookup k t)
          (λ e.
            let same = text_eq-eq a.account_id k e in
            (ap (λ j. find account_key j rest) (sym same) ∙ fresh, ap (λ j. lookup j t) same))

  pub lookup-upsert_accounts :
      (xs : List Account) (t : Table Account) (out : ℕ × Table Account)
      → Distinct account_key xs
      → upsert_accounts srv item_id xs t ≡ good out
      → (k : Text) → lookup k out.1 ≡ relisted srv item_id (find account_key k xs) (lookup k t)
  unfolding upsert_accounts find
  lookup-upsert_accounts [] t out once h k = ap (λ o. lookup k o.1) (sym (good_inj h))
  lookup-upsert_accounts (a ∷ rest) t out once h k =
      ap (λ o. lookup k o.1) (sym (good_inj (>>-eq-good _ _ (>>-eq-good _ _ h))))
      ∙ lookup-write_accounts (a ∷ rest) t once k

  -- Without accounts the table stays.
  abbrev pub marked : List Account → Text → Option Account → Option Account
  marked [] k o = o
  marked (a ∷ rest) k o = at_key (flag_missing srv item_id (map (λ b. b.account_id) (a ∷ rest))) k o

  pub lookup-mark_if_listed :
      (xs : List Account) (t : Table Account) (out : List Text × Table Account)
      → mark_if_listed srv item_id xs t ≡ good out
      → (k : Text) → lookup k out.1 ≡ marked xs k (lookup k t)
  unfolding mark_if_listed mark_missing_accounts
  lookup-mark_if_listed [] t out h k = ap (λ o. lookup k o.1) (sym (good_inj h))
  lookup-mark_if_listed (a ∷ rest) t out h k =
      updated (flag_missing srv item_id (map (λ b. b.account_id) (a ∷ rest))) _ t (>>-eq-good _ _ h)
        k
