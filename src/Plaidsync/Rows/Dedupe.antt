-- ===== src/Plaidsync/Rows/Dedupe.antt =====
-- `dedupeTransactions` and `dedupeAccounts`: the output slice and the map from ids to positions.
use money_insighter.Prelude.{
  ℕ, suc, ◌≡◌, refl, Option, none, some, List, [], ◌∷◌, ◌++◌, arith, length, set, Text, text_eq,
  text_eq_refl, text_eq-eq, lookup, assign, lookup-assign, if◌then◌else◌,
}
use money_insighter.Plaidsync.Types.{Transaction, Account}

pub record Deduped (A : Type 0) : Type 0 where
  pub out : List A
  pub index : List (Text × ℕ)

-- One round of the loop, on what the map knows of the id.
abbrev pub place : {A : Type 0} → A → Text → Option ℕ → Deduped A → Deduped A
place a k (some i) st = record st { out = set st.out i a }
place a k none st = record { out = st.out ++ a ∷ []; index = assign k (length st.out) st.index }

unfoldable pub dedupe_from : {A : Type 0} → (A → Text) → List A → Deduped A → List A
dedupe_from key [] st = st.out
dedupe_from key (a ∷ rest) st = dedupe_from key rest (place a (key a) (lookup (key a) st.index) st)

unfoldable pub dedupe : {A : Type 0} → (A → Text) → List A → List A
unfolding dedupe_from
dedupe key xs = dedupe_from key xs (record { out = []; index = [] })

unfoldable pub dedupe_transactions : List Transaction → List Transaction
unfolding dedupe
dedupe_transactions trs = dedupe (λ tr. tr.transaction_id) trs

unfoldable pub dedupe_accounts : List Account → List Account
unfolding dedupe
dedupe_accounts xs = dedupe (λ a. a.account_id) xs

-- The reference: a map in which a later element replaces an earlier one of its id.
unfoldable pub latest_from : {A : Type 0} → (A → Text) → List A → List (Text × A) → List (Text × A)
latest_from key [] m = m
latest_from key (a ∷ rest) m = latest_from key rest (assign (key a) a m)

unfoldable pub values : {A : Type 0} → List (Text × A) → List A
values [] = []
values ((k, a) ∷ m) = a ∷ values m

abbrev later_position : Option ℕ → Option ℕ
later_position none = none
later_position (some i) = some (suc i)

position : {A : Type 0} → Text → List (Text × A) → Option ℕ
position k [] = none
position k ((j, a) ∷ m) = if text_eq j k then some 0 else later_position (position k m)

abbrev placed : {A : Type 0} → A → Option ℕ → List A → List A
placed a none out = out ++ a ∷ []
placed a (some i) out = set out i a

placed-later_position :
    {A : Type 0} (a b : A) (i : Option ℕ) (out : List A)
    → placed a (later_position i) (b ∷ out) ≡ b ∷ placed a i out
placed-later_position a b none out = refl
placed-later_position a b (some i) out = refl

values-assign :
    {A : Type 0} (k : Text) (a : A) (m : List (Text × A))
    → values (assign k a m) ≡ placed a (position k m) (values m)
unfolding values assign position
values-assign k a [] = refl
values-assign k a ((j, b) ∷ m) =
    ground (arith, values-assign k a m, placed-later_position a b (position k m) (values m))

abbrev or_else : ℕ → Option ℕ → ℕ
or_else n none = n
or_else n (some i) = i

or_else_later : (n : ℕ) (i : Option ℕ) → or_else (suc n) (later_position i) ≡ suc (or_else n i)
or_else_later n none = refl
or_else_later n (some i) = refl

position-assign :
    {A : Type 0} (k j : Text) (a : A) (m : List (Text × A))
    → position j (assign k a m)
      ≡ (if text_eq k j then some (or_else (length (values m)) (position k m)) else position j m)
unfolding position assign values
position-assign k j a [] = ground arith
position-assign k j a ((l, b) ∷ m) = ground (
  arith,
  position-assign k j a m,
  or_else_later (length (values m)) (position k m),
  text_eq-eq l k,
  text_eq-eq k j,
  text_eq_refl k,
  text_eq_refl j,
)

-- The output slice holds the values of the reference, and the map their positions.
record Agrees {A : Type 0} (st : Deduped A) (m : List (Text × A)) : Type 0 where
  outputs : st.out ≡ values m
  positions : (j : Text) → lookup j st.index ≡ position j m

place-Agrees :
    {A : Type 0} (a : A) (k : Text) (st : Deduped A) (m : List (Text × A)) (i : Option ℕ)
    → lookup k st.index ≡ i
    → Agrees st m
    → Agrees (place a k i st) (assign k a m)
place-Agrees a k st m none e h = record {
  outputs = ground (arith, values-assign k a m, h.outputs, h.positions k);
  positions = λ j. ground (
    arith,
    lookup-assign k j (length st.out) st.index,
    position-assign k j a m,
    h.outputs,
    h.positions k,
    h.positions j,
  );
}
place-Agrees a k st m (some i) e h = record {
  outputs = ground (arith, values-assign k a m, h.outputs, h.positions k);
  positions =
      λ j. ground (arith, position-assign k j a m, h.positions k, h.positions j, text_eq-eq k j);
}

dedupe_from-Agrees :
    {A : Type 0} (key : A → Text) (xs : List A) (st : Deduped A) (m : List (Text × A))
    → Agrees st m
    → dedupe_from key xs st ≡ values (latest_from key xs m)
unfolding dedupe_from latest_from
dedupe_from-Agrees key [] st m h = h.outputs
dedupe_from-Agrees key (a ∷ rest) st m h =
    dedupe_from-Agrees key rest (place a (key a) (lookup (key a) st.index) st) (assign (key a) a m)
      (place-Agrees a (key a) st m (lookup (key a) st.index) refl h)

-- The two slices of the code are the values of a map that is written element by element.
pub dedupe-latest_from :
    {A : Type 0} (key : A → Text) (xs : List A) → dedupe key xs ≡ values (latest_from key xs [])
unfolding dedupe lookup position values
dedupe-latest_from key xs =
    dedupe_from-Agrees key xs (record { out = []; index = [] }) []
      (record { outputs = refl; positions = λ j. refl })
