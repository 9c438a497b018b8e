-- ===== src/Plaidsync/Items/Consistent.antt =====
-- The CHECK constraints of plaid_items under the operations of the store.
use money_insighter.Prelude.{
  ℕ, ◌≡◌, refl, subst, Bool, true, false, not, Option, none, some, [], Text, is_empty, lookup, All,
  All-assign, All-lookup, ◌==◌,
}
use money_insighter.Plaidsync.Types.{ItemStatus}
use money_insighter.Plaidsync.Errors.{GoError}
use money_insighter.Plaidsync.World.{ItemError}
use money_insighter.Plaidsync.Rows.{
  Table, good, raise_if, good_inj, >>-eq-good, raise_if-eq-good, >>-eq-good_first, context-eq-good,
}
use money_insighter.Plaidsync.Items.{
  Credential, NewItem, ItemRow, validate_credential, linked_row, upsert_item, has_token,
  removed_status, rekeyed, update_credential, with_status, not_removed, set_status, purged,
  mark_item_removed, synced, save_cursor,
}
use money_insighter.Plaidsync.Items.Steps.{
  Step, link, rekey, set, remove, sync, Steps, start, next, Updated, updated, update_item-Updated,
}

-- The token and its key version of a row that is not removed: both there, neither empty nor zero.
abbrev pub HasCredential : Option Text → Option ℕ → Type 0
HasCredential (some token) (some v) = (is_empty token ≡ false) × ((v == 0) ≡ false)
HasCredential _ _ = ⊥

abbrev pub HasNone : Option Text → Option ℕ → Type 0
HasNone none none = Unit
HasNone _ _ = ⊥

-- A row is removed exactly if it has no credential.
abbrev pub Holds : ItemStatus → Option Text → Option ℕ → Type 0
Holds ItemStatus.removed token v = HasNone token v
Holds ItemStatus.active token v = HasCredential token v
Holds ItemStatus.login_required token v = HasCredential token v
Holds ItemStatus.pending_expiration token v = HasCredential token v
Holds ItemStatus.permission_revoked token v = HasCredential token v
Holds ItemStatus.error token v = HasCredential token v

abbrev pub IsConsistent : ItemRow → Type 0
IsConsistent r = Holds r.status r.encrypted_access_token r.key_version

-- A status that is not removed wants a credential.
live-Holds :
    (s : ItemStatus) (token : Option Text) (v : Option ℕ)
    → removed_status s ≡ false
    → HasCredential token v
    → Holds s token v
live-Holds ItemStatus.removed token v e h = cc
live-Holds ItemStatus.active token v e h = h
live-Holds ItemStatus.login_required token v e h = h
live-Holds ItemStatus.pending_expiration token v e h = h
live-Holds ItemStatus.permission_revoked token v e h = h
live-Holds ItemStatus.error token v e h = h

Holds-live :
    (s : ItemStatus) (token : Option Text) (v : Option ℕ)
    → removed_status s ≡ false
    → Holds s token v
    → HasCredential token v
Holds-live ItemStatus.removed token v e h = cc
Holds-live ItemStatus.active token v e h = h
Holds-live ItemStatus.login_required token v e h = h
Holds-live ItemStatus.pending_expiration token v e h = h
Holds-live ItemStatus.permission_revoked token v e h = h
Holds-live ItemStatus.error token v e h = h

-- A row with a token has a key version and is not removed.
Holds-token :
    (s : ItemStatus) (token : Option Text) (v : Option ℕ)
    → (elim token [ none ↦ false | some _ ↦ true ]) ≡ true
    → Holds s token v
    → removed_status s ≡ false
Holds-token ItemStatus.removed none v e h = cc
Holds-token ItemStatus.removed (some token) v e h = absurd h
Holds-token ItemStatus.active token v e h = refl
Holds-token ItemStatus.login_required token v e h = refl
Holds-token ItemStatus.pending_expiration token v e h = refl
Holds-token ItemStatus.permission_revoked token v e h = refl
Holds-token ItemStatus.error token v e h = refl

abbrev pub AllConsistent : Table ItemRow → Type 0
AllConsistent t = All (λ e. IsConsistent e.1) t

no_raise : (b : Bool) (e : GoError) → raise_if b e ≡ good tt → b ≡ false
no_raise true e h = cc
no_raise false e h = refl

validate_credential_lem :
    (c : Credential)
    → validate_credential c ≡ good tt
    → (is_empty c.ciphertext ≡ false) × ((c.key_version == 0) ≡ false)
unfolding validate_credential
validate_credential_lem c h = (raise_if-eq-good _ _ _ h, no_raise _ _ (>>-eq-good _ _ h))

Updated-AllConsistent :
    (id : Text) (p : ItemRow → Bool) (f : ItemRow → ItemRow) (t t' : Table ItemRow)
    → Updated id p f t t'
    → ((r : ItemRow) → p r ≡ true → IsConsistent r → IsConsistent (f r))
    → AllConsistent t
    → AllConsistent t'
Updated-AllConsistent id p f t t' (updated r found a same) keep all = subst AllConsistent same (
    All-assign (λ e. IsConsistent e.1) id (f r) t
      (keep r a (All-lookup IsConsistent id r t all found)) all)

linked_row-IsConsistent :
    (n : NewItem) (o : Option ItemRow)
    → validate_credential n.credential ≡ good tt
    → IsConsistent (linked_row n o)
linked_row-IsConsistent n none h = validate_credential_lem n.credential h
linked_row-IsConsistent n (some old) h = validate_credential_lem n.credential h

with_status-IsConsistent :
    (s : ItemStatus) (now : ℕ) (e : Option ItemError) (r : ItemRow)
    → removed_status s ≡ false
    → HasCredential r.encrypted_access_token r.key_version
    → IsConsistent (with_status s now e r)
with_status-IsConsistent s now none r live h = live-Holds s _ _ live h
with_status-IsConsistent s now (some e) r live h = live-Holds s _ _ live h

live_credential :
    (r : ItemRow)
    → not_removed r ≡ true
    → IsConsistent r
    → HasCredential r.encrypted_access_token r.key_version
live_credential r a h =
    Holds-live r.status r.encrypted_access_token r.key_version
      (not_true (removed_status r.status) a) h
  where
    not_true : (b : Bool) → not b ≡ true → b ≡ false
    not_true true e = cc
    not_true false e = refl

Step-AllConsistent : (t t' : Table ItemRow) → Step t t' → AllConsistent t → AllConsistent t'
unfolding upsert_item update_credential set_status mark_item_removed save_cursor
Step-AllConsistent t t' (link fault n h) all =
    let h1 = >>-eq-good _ _ h in
    let valid = context-eq-good _ _ (>>-eq-good_first _ _ h1) in
    subst AllConsistent (good_inj (>>-eq-good _ _ (>>-eq-good _ _ h1))) (
      All-assign (λ e. IsConsistent e.1) n.item_id (linked_row n (lookup n.item_id t)) t
        (linked_row-IsConsistent n (lookup n.item_id t) valid) all)
Step-AllConsistent t t' (rekey fault id c h) all =
    let valid = context-eq-good _ _ (>>-eq-good_first _ _ h) in
    Updated-AllConsistent id has_token (rekeyed c) t t'
      (update_item-Updated fault id _ _ t t' (context-eq-good _ _ (>>-eq-good _ _ h)))
      (λ r a k.
        live-Holds r.status _ _ (Holds-token r.status r.encrypted_access_token r.key_version a k)
          (validate_credential_lem c valid))
      all
Step-AllConsistent t t' (set fault now id s e h) all =
    Updated-AllConsistent id not_removed (with_status s now e) t t'
      (update_item-Updated fault id _ _ t t' (context-eq-good _ _ (>>-eq-good _ _ h)))
      (λ r a k.
        with_status-IsConsistent s now e r (raise_if-eq-good _ _ _ h) (live_credential r a k))
      all
Step-AllConsistent t t' (remove fault id h) all =
    Updated-AllConsistent id (λ _. true) purged t t'
      (update_item-Updated fault id _ _ t t' (context-eq-good _ _ h)) (λ r a k. tt) all
Step-AllConsistent t t' (sync fault id cursor now h) all =
    Updated-AllConsistent id not_removed (synced cursor now) t t'
      (update_item-Updated fault id _ _ t t' h) (λ r a k. live_credential r a k) all

-- Whatever sequence of the store's operations runs from an empty table, with whatever failures in
-- between, every item's row is removed exactly if it has neither a token nor a key version, and
-- otherwise has a token that is not empty and a key version above 0.
pub Steps-AllConsistent : (t : Table ItemRow) → Steps [] t → AllConsistent t
Steps-AllConsistent t start = tt
Steps-AllConsistent t (next steps step) = Step-AllConsistent _ t step (Steps-AllConsistent _ steps)
