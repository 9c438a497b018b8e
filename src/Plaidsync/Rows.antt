-- ===== src/Plaidsync/Rows.antt =====
-- The tables that one batch writes (plaid-backend-golang/internal/store: transactions.go,
-- accounts.go, sync_batch.go, and migrations/00001_init.sql): rows under their primary keys, and
-- what the database decides for itself.
pub mod Dedupe
pub mod Latest
pub mod Accounts
pub mod Transactions
pub mod Upserts
pub mod Links
pub mod Apply
pub mod Lookups
pub mod Later
pub mod Keeps
pub mod Listed
pub mod Entries
pub mod Removed
pub mod Rerun
pub mod Again
pub mod Written
pub mod Replay
pub mod Passes
pub mod Linked
use money_insighter.Prelude.{
  ℕ, suc, ◌≡◌, refl, Bool, true, false, Option, none, some, List, [], ◌∷◌, arith, Text, lookup,
  text_eq, text_eq-eq, if◌then◌else◌,
}
use money_insighter.Plaidsync.Types.{Transaction, Account}
use money_insighter.Plaidsync.Errors.{GoError, wrap}

-- A table: its rows under the primary key.
abbrev pub Table : Type 0 → Type 0
Table V = List (Text × V)

pub record Tables : Type 0 where
  pub accounts : Table Account
  pub transactions : Table Transaction

-- What the database server decides: whether two JSONB values are equal, `clock_timestamp()` at the
-- write of a row, which of several joined rows an UPDATE takes, and the statements that fail.
pub record Server : Type 0 where
  pub same_raw : Text → Text → Bool
  pub account_seen_at : Text → ℕ
  pub missing_at : Text → ℕ
  pub first_seen_at : Text → ℕ
  pub removed_at : Text → ℕ
  pub forward_at : Text → ℕ
  pub reverse_at : Text → ℕ
  pub pick : Text → ℕ
  pub accounts_error : Option GoError
  pub missing_error : Option GoError
  pub transactions_error : Option GoError
  pub remove_error : Option GoError
  pub forward_error : Option GoError
  pub reverse_error : Option GoError
  pub hook_error : Option GoError
  pub cursor_error : Option GoError

pub data Outcome (A : Type 0) : Type 0 where
  bad : GoError → Outcome A
  good : A → Outcome A

infixl 5 ◌>>=◌
abbrev pub ◌>>=◌ : {A B : Type 0} → Outcome A → (A → Outcome B) → Outcome B
bad why >>= next = bad why
good value >>= next = next value

infixl 5 ◌>>◌
abbrev pub ◌>>◌ : {B : Type 0} → Outcome (Unit {0}) → Outcome B → Outcome B
first >> second = first >>= λ _. second

abbrev pub raise_if : Bool → GoError → Outcome (Unit {0})
raise_if false why = good tt
raise_if true why = bad why

-- A statement that may fail.
abbrev pub run : Option GoError → Outcome (Unit {0})
run none = good tt
run (some e) = bad e

-- `fmt.Errorf("…: %w", err)`
abbrev pub context : {A : Type 0} → Text → Outcome A → Outcome A
context t (good a) = good a
context t (bad e) = bad (wrap t e)

pub good_inj : {A : Type 0} {a b : A} → good a ≡ good b → a ≡ b
good_inj h = cc

pub >>=-eq-good :
    {A B : Type 0} (m : Outcome A) (f : A → Outcome B) {b : B}
    → (m >>= f) ≡ good b
    → (a : A) × (m ≡ good a) × (f a ≡ good b)
>>=-eq-good (good a) f h = (a, refl, h)
>>=-eq-good (bad e) f h = cc

pub >>-eq-good :
    {B : Type 0} (m : Outcome (Unit {0})) (k : Outcome B) {b : B} → (m >> k) ≡ good b → k ≡ good b
>>-eq-good (good _) k h = h
>>-eq-good (bad e) k h = cc

pub >>-eq-good_first :
    {B : Type 0} (m : Outcome (Unit {0})) (k : Outcome B) {b : B} → (m >> k) ≡ good b → m ≡ good tt
>>-eq-good_first (good _) k h = refl
>>-eq-good_first (bad e) k h = cc

pub raise_if-eq-good :
    {B : Type 0} (c : Bool) (e : GoError) (k : Outcome B) {b : B}
    → (raise_if c e >> k) ≡ good b
    → c ≡ false
raise_if-eq-good true e k h = cc
raise_if-eq-good false e k h = refl

pub context-eq-good :
    {A : Type 0} (t : Text) (m : Outcome A) {a : A} → context t m ≡ good a → m ≡ good a
context-eq-good t (good a) h = h
context-eq-good t (bad e) h = cc

-- UPDATE of every row by a function of its key and its columns.
unfoldable pub update_rows {ℓ} : {V : Type ℓ} → (Text → V → V) → List (Text × V) → List (Text × V)
update_rows f [] = []
update_rows f ((j, v) ∷ m) = (j, f j v) ∷ update_rows f m

-- The rows that pass a test.
unfoldable pub count_rows {ℓ} : {V : Type ℓ} → (Text → V → Bool) → List (Text × V) → ℕ
count_rows p [] = 0
count_rows p ((j, v) ∷ m) = let rest = count_rows p m in if p j v then suc rest else rest

abbrev pub at_key {ℓ} : {V : Type ℓ} → (Text → V → V) → Text → Option V → Option V
at_key f k none = none
at_key f k (some v) = some (f k v)

pub lookup-update_rows {ℓ} :
    {V : Type ℓ} (f : Text → V → V) (k : Text) (m : List (Text × V))
    → lookup k (update_rows f m) ≡ at_key f k (lookup k m)
unfolding lookup update_rows
lookup-update_rows f k [] = refl
lookup-update_rows f k ((j, v) ∷ m) = ground (arith, text_eq-eq j k, lookup-update_rows f k m)

-- A function that changes nothing on the rows that it meets.
pub update_rows_id {ℓ} :
    {V : Type ℓ} (f : Text → V → V) (m : List (Text × V))
    → ((k : Text) (v : V) → f k v ≡ v)
    → update_rows f m ≡ m
unfolding update_rows
update_rows_id f [] h = refl
update_rows_id f ((j, v) ∷ m) h = rw (h j v, update_rows_id f m h)
