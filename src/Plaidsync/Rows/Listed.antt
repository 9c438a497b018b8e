-- ===== src/Plaidsync/Rows/Listed.antt =====
-- The accounts of the item behind a batch: those that it lists and those that it does not.
use money_insighter.Prelude.{
  ℕ, ◌≡◌, refl, sym, ap, ◌∙◌, subst, true, false, not, ◌⊎◌, inl, inr, Option, none, some, List, [],
  ◌∷◌, arith, Text, text_eq, text_eq_refl, text_eq-eq, one_of, lookup, map, if-elim, Bool-cases,
}
use money_insighter.Plaidsync.Types.{Account, SyncBatch}
use money_insighter.Plaidsync.World.{Item}
use money_insighter.Plaidsync.Rows.{Table, Tables, Server, good, good_inj, at_key}
use money_insighter.Plaidsync.Rows.Dedupe.{dedupe_accounts}
use money_insighter.Plaidsync.Rows.Latest.{find, Distinct, dedupe-Distinct}
use money_insighter.Plaidsync.Rows.Accounts.{
  or_now, write_account, is_unlisted, flag_missing, upsert_accounts,
}
use money_insighter.Plaidsync.Rows.Transactions.{has_row}
use money_insighter.Plaidsync.Rows.Lookups.{
  account_key, relisted, marked, lookup-upsert_accounts, lookup-mark_if_listed,
}
use money_insighter.Plaidsync.Rows.Apply.{
  Applied, apply_sync_batch, apply_sync_batch-Stages, mark_if_listed,
}

abbrev pub account_ids : List Account → List Text
account_ids xs = map (λ a. a.account_id) xs

-- A row of the item is flagged exactly if the batch does not list it.
abbrev pub IsMarked : Text → List Text → Text → Option Account → Type 0
IsMarked item_id ids k none = Unit
IsMarked item_id ids k (some a) =
    (text_eq a.item_id item_id ≡ false) ⊎ (has_row a.missing_since ≡ not (one_of k ids))

-- The rows after a batch: unchanged if it lists no account, marked by what it lists otherwise.
abbrev pub Marks : Text → List Account → Table Account → Table Account → Type 0
Marks item_id [] t t' = t' ≡ t
Marks item_id (a ∷ rest) t t' =
    (k : Text) → IsMarked item_id (account_ids (a ∷ rest)) k (lookup k t')

has_row-or_now : (o : Option ℕ) (now : ℕ) → has_row (or_now o now) ≡ true
has_row-or_now none now = refl
has_row-or_now (some n) now = refl

-- An account that the batch does not list.
unlisted-IsMarked :
    (srv : Server) (item_id : Text) (ids : List Text) (k : Text) (a : Account)
    → one_of k ids ≡ false
    → IsMarked item_id ids k (some (flag_missing srv item_id ids k a))
unlisted-IsMarked srv item_id ids k a away =
    if-elim (λ a'. IsMarked item_id ids k (some a')) (is_unlisted item_id ids k a)
      (record a { missing_since = or_now a.missing_since (srv.missing_at k) }) a
      (λ _. inr (has_row-or_now a.missing_since (srv.missing_at k) ∙ sym (ap not away)))
      (λ e. inl (ground (arith)))

-- An account that it lists, as it was just written.
listed-IsMarked :
    (srv : Server) (item_id : Text) (ids : List Text) (k : Text) (a : Account)
    → one_of k ids ≡ true
    → a.missing_since ≡ none
    → IsMarked item_id ids k (some (flag_missing srv item_id ids k a))
listed-IsMarked srv item_id ids k a there clear =
    if-elim (λ a'. IsMarked item_id ids k (some a')) (is_unlisted item_id ids k a)
      (record a { missing_since = or_now a.missing_since (srv.missing_at k) }) a (λ e. ground arith)
      (λ _. inr (ap has_row clear ∙ sym (ap not there)))

write_account-missing_since :
    (srv : Server) (item_id : Text) (a : Account) (old : Option Account)
    → (write_account srv item_id a old).missing_since ≡ none
write_account-missing_since srv item_id a none = refl
write_account-missing_since srv item_id a (some old) = refl

-- The ids of a list are those that it finds.
data Found (xs : List Account) (k : Text) : Type 0 where
  there :
      (a : Account) → find account_key k xs ≡ some a → one_of k (account_ids xs) ≡ true → Found xs k
  absent : find account_key k xs ≡ none → one_of k (account_ids xs) ≡ false → Found xs k

text_eq_apart : (s k : Text) → text_eq s k ≡ false → text_eq k s ≡ false
text_eq_apart s k h = ground (arith, text_eq-eq k s, text_eq_refl k)

find_cases : (xs : List Account) (k : Text) → Found xs k
unfolding find one_of
find_cases [] k = absent refl refl
find_cases (a ∷ rest) k = elim (Bool-cases (text_eq a.account_id k)) [
  | inl same ↦ there a (rw same refl) (ground (arith, text_eq-eq a.account_id k, text_eq_refl k))
  | inr apart ↦
      let away = text_eq_apart a.account_id k apart in
      elim (find_cases rest k) [
        | there b e h ↦ there b (rw apart e) (rw away h)
        | absent e h ↦ absent (rw apart e) (rw away h)
      ]
]

flagged-IsMarked :
    (srv : Server) (item_id : Text) (xs : List Account) (k : Text) (old : Option Account)
    → Found xs k
    → IsMarked item_id (account_ids xs) k (
        at_key
          (flag_missing srv item_id (account_ids xs))
          k
          (relisted srv item_id (find account_key k xs) old))
flagged-IsMarked srv item_id xs k old (there a e h) = rw e (
    listed-IsMarked srv item_id (account_ids xs) k (write_account srv item_id a old) h
      (write_account-missing_since srv item_id a old))
flagged-IsMarked srv item_id xs k none (absent e h) = rw e tt
flagged-IsMarked srv item_id xs k (some a) (absent e h) =
    rw e (unlisted-IsMarked srv item_id (account_ids xs) k a h)

Marks_lem :
    (srv : Server) (item_id : Text) (xs : List Account) (t : Table Account)
    (listed : ℕ × Table Account) (missing : List Text × Table Account)
    → Distinct account_key xs
    → upsert_accounts srv item_id xs t ≡ good listed
    → mark_if_listed srv item_id xs listed.1 ≡ good missing
    → Marks item_id xs t missing.1
unfolding upsert_accounts mark_if_listed
Marks_lem srv item_id [] t listed missing once h h1 =
    ap (λ o. o.1) (sym (good_inj h1)) ∙ ap (λ o. o.1) (sym (good_inj h))
Marks_lem srv item_id (a ∷ rest) t listed missing once h h1 = λ k.
    subst (IsMarked item_id (account_ids (a ∷ rest)) k)
      (sym (
        lookup-mark_if_listed srv item_id (a ∷ rest) listed.1 missing h1 k
        ∙ ap (marked srv item_id (a ∷ rest) k)
            (lookup-upsert_accounts srv item_id (a ∷ rest) t listed once h k)))
      (flagged-IsMarked srv item_id (a ∷ rest) k (lookup k t) (find_cases (a ∷ rest) k))

-- A successful batch that lists no account leaves the accounts as they are; after one that lists
-- some, the item's accounts that it lists are not flagged as missing and all its others are.
pub apply_sync_batch-Marks :
    (srv : Server) (item_id : Text) (item : Item) (b : SyncBatch) (t : Tables) (done : Applied)
    → apply_sync_batch srv item_id item b t ≡ good done
    → Marks item_id (dedupe_accounts b.accounts) t.accounts done.tables.accounts
unfolding dedupe_accounts
apply_sync_batch-Marks srv item_id item b t done h =
    let s = apply_sync_batch-Stages srv item_id item b t done h in
    subst (λ d. Marks item_id (dedupe_accounts b.accounts) t.accounts d.tables.accounts)
      (sym s.is_done)
      (Marks_lem srv item_id (dedupe_accounts b.accounts) t.accounts s.listed s.missing
        (dedupe-Distinct account_key b.accounts) s.listing s.marking)
