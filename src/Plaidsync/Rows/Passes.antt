-- ===== src/Plaidsync/Rows/Passes.antt =====
-- One pass of `linkPendingTransactions` over a row, and the pairs that it joins.
use native.Mathlib.Nat.{mod-lt, zero-lt-suc}
use money_insighter.Prelude.{
  ℕ, zero, suc, ◌%◌, ◌<◌, ◌≡◌, refl, sym, Bool, true, false, ◌&&◌, ◌||◌, ◌⊎◌, inl, inr, Option,
  none, some, List, [], ◌∷◌, ◌++◌, arith, Text, text_eq, text_eq_refl, one_of, length, get_elem?,
}
use money_insighter.Plaidsync.Types.{Transaction}
use money_insighter.Plaidsync.Rows.{Table, Server, update_rows}
use money_insighter.Plaidsync.Rows.Links.{
  differs, offered, chosen, link_to, link_rows, stored_pairs,
}

-- Some pair is about this pending id.
unfoldable pub names : Text → List (Text × Text) → Bool
unfolding text_eq
names k [] = false
names k ((pending, posted) ∷ pairs) = text_eq k pending || names k pairs

abbrev pub points_to : Option Text → Text → Bool
points_to none s = false
points_to (some r) s = text_eq r s

-- The link is the posted id of a pair about this pending id.
unfoldable pub is_offer : Text → Option Text → List (Text × Text) → Bool
unfolding text_eq
is_offer k link [] = false
is_offer k link ((pending, posted) ∷ pairs) =
    (text_eq k pending && points_to link posted) || is_offer k link pairs

get_elem-one_of :
    (xs : List Text) (i : ℕ)
    → i < length xs
    → (s : Text) × (get_elem? xs i ≡ some s) × (one_of s xs ≡ true)
unfolding one_of
get_elem-one_of [] i h = absurd (omega arith)
get_elem-one_of (x ∷ xs) zero h = (x, refl, rw (text_eq_refl x))
get_elem-one_of (x ∷ xs) (suc i) h =
    let (s, e, m) = get_elem-one_of xs i (omega arith) in (s, e, ground arith)

data Choice (srv : Server) (k : Text) (xs : List Text) : Type 0 where
  nothing : xs ≡ [] → chosen srv k xs ≡ none → Choice srv k xs
  taken : (s : Text) → chosen srv k xs ≡ some s → one_of s xs ≡ true → Choice srv k xs

choose : (srv : Server) (k : Text) (xs : List Text) → Choice srv k xs
choose srv k [] = nothing refl refl
choose srv k (x ∷ xs) =
    let (s, e, m) =
      get_elem-one_of (x ∷ xs) (srv.pick k % suc (length xs))
        (mod-lt (srv.pick k) (zero-lt-suc (length xs))) in
    taken s e m

offered-is_offer :
    (k s : Text) (link : Option Text) (pairs : List (Text × Text))
    → one_of s (offered k link pairs) ≡ true
    → is_offer k (some s) pairs ≡ true
unfolding offered is_offer one_of
offered-is_offer k s link [] h = h
offered-is_offer k s link ((pending, posted) ∷ pairs) h =
    ground (arith, offered-is_offer k s link pairs)

points_to-differs :
    (link : Option Text) (s : Text) → differs link s ≡ false → points_to link s ≡ true
points_to-differs none s h = sym h
points_to-differs (some r) s h = ground arith

offered_none :
    (k : Text) (link : Option Text) (pairs : List (Text × Text))
    → offered k link pairs ≡ []
    → names k pairs ≡ true
    → is_offer k link pairs ≡ true
unfolding offered is_offer names
offered_none k link [] e h = h
offered_none k link ((pending, posted) ∷ pairs) e h =
    ground (arith, offered_none k link pairs, points_to-differs link posted)

-- A row that a pair is about points to the posted id of one of its pairs behind the pass.
pub link_to-is_offer :
    (srv : Server) (now : ℕ) (k : Text) (pairs : List (Text × Text)) (r : Transaction)
    → names k pairs ≡ true
    → is_offer k
        (link_to now (chosen srv k (offered k r.superseded_by pairs)) r).superseded_by
        pairs
      ≡ true
link_to-is_offer srv now k pairs r h = elim (choose srv k (offered k r.superseded_by pairs)) [
  | nothing e c ↦ rw c (offered_none k r.superseded_by pairs e h)
  | taken s c m ↦ rw c (offered-is_offer k s r.superseded_by pairs m)
]

-- Any row either points to a posted id of its pairs or is the row that it was.
pub link_to-cases :
    (srv : Server) (now : ℕ) (k : Text) (pairs : List (Text × Text)) (r : Transaction)
    → (is_offer k
          (link_to now (chosen srv k (offered k r.superseded_by pairs)) r).superseded_by
          pairs
        ≡ true)
      ⊎ (link_to now (chosen srv k (offered k r.superseded_by pairs)) r ≡ r)
link_to-cases srv now k pairs r = elim (choose srv k (offered k r.superseded_by pairs)) [
  | nothing e c ↦ inr (rw c refl)
  | taken s c m ↦ inl (rw c (offered-is_offer k s r.superseded_by pairs m))
]

link_to-pending :
    (now : ℕ) (o : Option Text) (r : Transaction)
    → ((link_to now o r).pending_transaction_id ≡ r.pending_transaction_id)
      × ((link_to now o r).item_id ≡ r.item_id)
link_to-pending now none r = (refl, refl)
link_to-pending now (some s) r = (refl, refl)

-- The links do not change which pairs the table holds.
pub stored_pairs-link_rows :
    (item_id : Text) (choice : Text → Transaction → Option Text) (now : Text → ℕ)
    (t : Table Transaction)
    → stored_pairs item_id (update_rows (link_rows choice now) t) ≡ stored_pairs item_id t
unfolding stored_pairs update_rows
stored_pairs-link_rows item_id choice now [] = refl
stored_pairs-link_rows item_id choice now ((k, r) ∷ t) =
    let (p, i) = link_to-pending (now k) (choice k r) r in
    rw (p, i, stored_pairs-link_rows item_id choice now t)

pub is_offer-append :
    (k : Text) (link : Option Text) (ps qs : List (Text × Text))
    → is_offer k link (ps ++ qs) ≡ (is_offer k link ps || is_offer k link qs)
unfolding is_offer
is_offer-append k link [] qs = refl
is_offer-append k link ((p, s) ∷ ps) qs = ground (arith, is_offer-append k link ps qs)
