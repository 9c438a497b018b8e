-- ===== src/Plaidsync/Items.antt =====
-- The item rows: plaid-backend-golang/internal/store/items.go, and the cursor update of
-- sync_batch.go, on plaid_items under its primary key.
pub mod Steps
pub mod Consistent
pub mod Removed
pub mod Lifecycle
pub mod Transitions
use money_insighter.Prelude.{
  ℕ, ◌≡◌, Bool, true, false, ◌&&◌, not, Option, none, some, List, [], ◌∷◌, Text, codes, text_eq,
  is_empty, lookup, assign, ◌==◌, if◌then◌else◌,
}
use money_insighter.Plaidsync.Types.{ItemStatus}
use money_insighter.Plaidsync.Errors.{GoError, other, wrap, not_found}
use money_insighter.Plaidsync.World.{ItemError}
use money_insighter.Plaidsync.Rows.{
  Table, Outcome, good, bad, ◌>>=◌, ◌>>◌, raise_if, run, context, update_rows,
}

pub record Credential : Type 0 where
  pub ciphertext : Text
  pub key_version : ℕ

pub record NewItem : Type 0 where
  pub item_id : Text
  pub institution_id : Option Text
  pub institution_name : Option Text
  pub credential : Credential
  pub consent_expires_at : Option ℕ
  pub raw : Option Text

-- A row of plaid_items.
pub record ItemRow : Type 0 where
  pub institution_id : Option Text
  pub institution_name : Option Text
  pub encrypted_access_token : Option Text
  pub key_version : Option ℕ
  pub cursor : Option Text
  pub status : ItemStatus
  pub last_error : Option ItemError
  pub last_successful_sync_at : Option ℕ
  pub consent_expires_at : Option ℕ
  pub raw : Option Text

unfoldable pub validate_credential : Credential → Outcome (Unit {0})
validate_credential c = do
  raise_if (is_empty c.ciphertext) (other (codes "store: credential ciphertext is empty"))
  raise_if (c.key_version == 0)
      (other (codes "store: credential key version must be greater than zero"))

-- COALESCE(new, old)
abbrev pub or_old : {A : Type 0} → Option A → Option A → Option A
or_old none old = old
or_old (some a) old = some a

abbrev pub inserted_row : NewItem → ItemRow
inserted_row n = record {
  institution_id = n.institution_id;
  institution_name = n.institution_name;
  encrypted_access_token = some n.credential.ciphertext;
  key_version = some n.credential.key_version;
  cursor = none;
  status = ItemStatus.active;
  last_error = none;
  last_successful_sync_at = none;
  consent_expires_at = n.consent_expires_at;
  raw = n.raw;
}

abbrev pub relinked_row : NewItem → ItemRow → ItemRow
relinked_row n old = record old {
  institution_id = or_old n.institution_id old.institution_id;
  institution_name = or_old n.institution_name old.institution_name;
  encrypted_access_token = some n.credential.ciphertext;
  key_version = some n.credential.key_version;
  consent_expires_at = n.consent_expires_at;
  raw = or_old n.raw old.raw;
  status = ItemStatus.active;
  last_error = none;
}

abbrev pub linked_row : NewItem → Option ItemRow → ItemRow
linked_row n none = inserted_row n
linked_row n (some old) = relinked_row n old

-- `fault` is the error of the statement, if it fails.
unfoldable pub upsert_item : Option GoError → NewItem → Table ItemRow → Outcome (Table ItemRow)
unfolding validate_credential lookup assign
upsert_item fault n t = do
  raise_if (is_empty n.item_id) (other (codes "store: upsert item: item id is empty"))
  context (codes "store: upsert item") (validate_credential n.credential)
  context (codes "store: upsert item") (run fault)
  good (assign n.item_id (linked_row n (lookup n.item_id t)) t)

abbrev pub has_token : ItemRow → Bool
has_token r = elim r.encrypted_access_token [ none ↦ false | some _ ↦ true ]

abbrev pub removed_status : ItemStatus → Bool
removed_status ItemStatus.removed = true
removed_status _ = false

-- RowsAffected of an UPDATE by primary key: whether the row is there and passes the test.
abbrev pub row_affected : (ItemRow → Bool) → Option ItemRow → Bool
row_affected p none = false
row_affected p (some r) = p r

-- An UPDATE of one row; no row affected is ErrNotFound.
unfoldable pub update_item :
    Option GoError
    → Text
    → (ItemRow → Bool)
    → (ItemRow → ItemRow)
    → Table ItemRow
    → Outcome (Table ItemRow)
unfolding lookup assign
update_item fault id p f t = do
  run fault
  raise_if (not (row_affected p (lookup id t))) not_found
  good (elim (lookup id t) [ none ↦ t | some r ↦ assign id (f r) t ])

abbrev pub rekeyed : Credential → ItemRow → ItemRow
rekeyed c r = record r {
  encrypted_access_token = some c.ciphertext;
  key_version = some c.key_version;
}

unfoldable pub update_credential :
    Option GoError → Text → Credential → Table ItemRow → Outcome (Table ItemRow)
unfolding validate_credential update_item
update_credential fault id c t = do
  context (codes "store: update credential") (validate_credential c)
  context (codes "store: update credential") (update_item fault id has_token (rekeyed c) t)

-- COALESCE($6, now()): a zero time is not passed on.
abbrev pub stamped : ℕ → ItemError → ItemError
stamped now e = if e.at == 0 then record e { at = now } else e

-- With no error to record the last one stays.
abbrev pub with_status : ItemStatus → ℕ → Option ItemError → ItemRow → ItemRow
with_status status now none r = record r { status = status }
with_status status now (some e) r = record r { status = status; last_error = some (stamped now e) }

abbrev pub not_removed : ItemRow → Bool
not_removed r = not (removed_status r.status)

-- `now` is the database's clock.
unfoldable pub set_status :
    Option GoError
    → ℕ
    → Text
    → ItemStatus
    → Option ItemError
    → Table ItemRow
    → Outcome (Table ItemRow)
unfolding update_item
set_status fault now id status e t = do
  raise_if (removed_status status)
      (other (codes "store: set item status: use MarkItemRemoved to remove an item"))
  context (codes "store: set item status")
      (update_item fault id not_removed (with_status status now e) t)

abbrev pub purged : ItemRow → ItemRow
purged r = record r {
  status = ItemStatus.removed;
  encrypted_access_token = none;
  key_version = none;
}

unfoldable pub mark_item_removed : Option GoError → Text → Table ItemRow → Outcome (Table ItemRow)
unfolding update_item
mark_item_removed fault id t =
    context (codes "store: mark item removed") (update_item fault id (λ _. true) purged t)

-- `updateItemCursorSQL`
abbrev pub synced : Text → ℕ → ItemRow → ItemRow
synced next now r = record r {
  cursor = some next;
  last_successful_sync_at = some now;
  status = ItemStatus.active;
  last_error = none;
}

unfoldable pub save_cursor :
    Option GoError → Text → Text → ℕ → Table ItemRow → Outcome (Table ItemRow)
unfolding update_item
save_cursor fault id next now t = update_item fault id not_removed (synced next now) t

-- A NULL key version beside a token does not scan: `scan` is the driver's error.
abbrev pub credential_of : GoError → Option Text → Option ℕ → Outcome Credential
credential_of scan none v = bad not_found
credential_of scan (some token) none = bad scan
credential_of scan (some token) (some v) = good (record { ciphertext = token; key_version = v })

abbrev pub of_row : GoError → Option ItemRow → Outcome Credential
of_row scan none = bad not_found
of_row scan (some r) = credential_of scan r.encrypted_access_token r.key_version

unfoldable pub get_credential : Option GoError → GoError → Text → Table ItemRow → Outcome Credential
unfolding lookup
get_credential fault scan id t =
    context (codes "store: get credential") (do run fault; of_row scan (lookup id t))
