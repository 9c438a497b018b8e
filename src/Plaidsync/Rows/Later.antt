-- ===== src/Plaidsync/Rows/Later.antt =====
-- What the statements of one batch leave of a stored row.
use money_insighter.Prelude.{
  ℕ, ◌≡◌, refl, sym, ◌∙◌, subst, Option, none, some, List, [], ◌∷◌, Text, if-elim, map,
}
use money_insighter.Plaidsync.Types.{Transaction, Account}
use money_insighter.Plaidsync.Rows.{Server, at_key}
use money_insighter.Plaidsync.Rows.Accounts.{or_now, write_account, is_unlisted, flag_missing}
use money_insighter.Plaidsync.Rows.Transactions.{merged_row, remove_row, is_named}
use money_insighter.Plaidsync.Rows.Upserts.{upserted}
use money_insighter.Plaidsync.Rows.Links.{link_to, link_rows}
use money_insighter.Plaidsync.Rows.Lookups.{relisted, marked}

-- A time that is set stays as it is.
abbrev pub Stays : Option ℕ → Option ℕ → Type 0
Stays none after = Unit
Stays (some n) after = after ≡ some n

pub record Later (r r' : Transaction) : Type 0 where
  pub same_item : r'.item_id ≡ r.item_id
  pub same_first_seen : r'.first_seen_at ≡ r.first_seen_at
  pub removal : Stays r.removed_at r'.removed_at
  pub supersession : Stays r.superseded_at r'.superseded_at

-- A row that is there stays there.
abbrev pub Kept : {V : Type 0} → (V → V → Type 0) → Option V → Option V → Type 0
Kept R none after = Unit
Kept R (some r) none = ⊥
Kept R (some r) (some r') = R r r'

Stays-refl : (o : Option ℕ) → Stays o o
Stays-refl none = tt
Stays-refl (some n) = refl

Stays-trans : (a b c : Option ℕ) → Stays a b → Stays b c → Stays a c
Stays-trans none b c h h' = tt
Stays-trans (some n) b c h h' = subst (λ o. Stays o c) h h'

Stays-or_now : (o : Option ℕ) (now : ℕ) → Stays o (or_now o now)
Stays-or_now none now = tt
Stays-or_now (some n) now = refl

Later-refl : (r : Transaction) → Later r r
Later-refl r = record {
  same_item = refl;
  same_first_seen = refl;
  removal = Stays-refl r.removed_at;
  supersession = Stays-refl r.superseded_at;
}

Later-trans : (a b c : Transaction) → Later a b → Later b c → Later a c
Later-trans a b c h h' = record {
  same_item = h'.same_item ∙ h.same_item;
  same_first_seen = h'.same_first_seen ∙ h.same_first_seen;
  removal = Stays-trans _ _ _ h.removal h'.removal;
  supersession = Stays-trans _ _ _ h.supersession h'.supersession;
}

pub Kept-trans : (a b c : Option Transaction) → Kept Later a b → Kept Later b c → Kept Later a c
Kept-trans none b c h h' = tt
Kept-trans (some r) none c h h' = absurd h
Kept-trans (some r) (some r') none h h' = absurd h'
Kept-trans (some r) (some r') (some r'') h h' = Later-trans r r' r'' h h'

pub Kept-at_key :
    {V : Type 0} (R : V → V → Type 0) (f : Text → V → V) (k : Text) (o : Option V)
    → ((v : V) → R v (f k v))
    → Kept R o (at_key f k o)
Kept-at_key R f k none h = tt
Kept-at_key R f k (some v) h = h v

pub Kept-refl : (o : Option Transaction) → Kept Later o o
Kept-refl none = tt
Kept-refl (some r) = Later-refl r

-- A row behind an update that keeps it.
pub Kept-updated :
    (f : Text → Transaction → Transaction) (k : Text) (o : Option Transaction)
    {o' : Option Transaction}
    → ((r : Transaction) → Later r (f k r))
    → o' ≡ at_key f k o
    → Kept Later o o'
Kept-updated f k o h e = subst (Kept Later o) (sym e) (Kept-at_key Later f k o h)

Later-merged_row : (old tr : Transaction) → Later old (merged_row old tr)
Later-merged_row old tr = record {
  same_item = refl;
  same_first_seen = refl;
  removal = Stays-refl old.removed_at;
  supersession = Stays-refl old.superseded_at;
}

pub Kept-upserted :
    (srv : Server) (item_id : Text) (found old : Option Transaction)
    → Kept Later old (upserted srv item_id found old)
Kept-upserted srv item_id none none = tt
Kept-upserted srv item_id none (some old) = Later-refl old
Kept-upserted srv item_id (some tr) none = tt
Kept-upserted srv item_id (some tr) (some old) =
    if-elim (Later old) (srv.same_raw old.raw tr.raw) old (merged_row old tr) (λ _. Later-refl old)
      (λ _. Later-merged_row old tr)

pub Later-remove_row :
    (srv : Server) (item_id : Text) (ids : List Text) (k : Text) (r : Transaction)
    → Later r (remove_row srv item_id ids k r)
Later-remove_row srv item_id ids k r =
    if-elim (Later r) (is_named item_id ids k r)
      (record r { removed_at = or_now r.removed_at (srv.removed_at k) }) r
      (λ _. record {
        same_item = refl;
        same_first_seen = refl;
        removal = Stays-or_now r.removed_at (srv.removed_at k);
        supersession = Stays-refl r.superseded_at;
      })
      (λ _. Later-refl r)

Later-link_to : (now : ℕ) (choice : Option Text) (r : Transaction) → Later r (link_to now choice r)
Later-link_to now none r = Later-refl r
Later-link_to now (some posted) r = record {
  same_item = refl;
  same_first_seen = refl;
  removal = Stays-refl r.removed_at;
  supersession = Stays-or_now r.superseded_at now;
}

pub Later-link_rows :
    (choice : Text → Transaction → Option Text) (now : Text → ℕ) (k : Text) (r : Transaction)
    → Later r (link_rows choice now k r)
Later-link_rows choice now k r = Later-link_to (now k) (choice k r) r

-- An account keeps the time at which it was first seen.
abbrev pub KeepsFirst : Account → Account → Type 0
KeepsFirst a a' = a'.first_seen_at ≡ a.first_seen_at

KeepsFirst-flag_missing :
    (srv : Server) (item_id : Text) (seen : List Text) (k : Text) (a : Account)
    → KeepsFirst a (flag_missing srv item_id seen k a)
KeepsFirst-flag_missing srv item_id seen k a =
    if-elim (KeepsFirst a) (is_unlisted item_id seen k a)
      (record a { missing_since = or_now a.missing_since (srv.missing_at k) }) a (λ _. refl)
      (λ _. refl)

pub Kept-marked-relisted :
    (srv : Server) (item_id : Text) (xs : List Account) (k : Text) (found old : Option Account)
    → Kept KeepsFirst old (marked srv item_id xs k (relisted srv item_id found old))
Kept-marked-relisted srv item_id xs k found none = tt
Kept-marked-relisted srv item_id [] k none (some a) = refl
Kept-marked-relisted srv item_id [] k (some b) (some a) = refl
Kept-marked-relisted srv item_id (x ∷ xs) k none (some a) =
    KeepsFirst-flag_missing srv item_id (map (λ b. b.account_id) (x ∷ xs)) k a
Kept-marked-relisted srv item_id (x ∷ xs) k (some b) (some a) =
    KeepsFirst-flag_missing srv item_id (map (λ c. c.account_id) (x ∷ xs)) k
      (write_account srv item_id b (some a))
