-- ===== src/Plaidsync/Items/Removed.antt =====
-- Removed items: what `MarkItemRemoved` leaves and what can change it.
use money_insighter.Prelude.{
  codes, is_empty, ◌≡◌, refl, sym, ap, ◌∙◌, subst, Bool, true, false, not, Option, none, some, Text,
  text_eq, text_eq-eq, text_eq_refl, lookup, assign, lookup-assign, if◌then◌else◌, if-elim,
}
use money_insighter.Plaidsync.Types.{ItemStatus}
use money_insighter.Plaidsync.Errors.{GoError, other, wrap, not_found}
use money_insighter.Plaidsync.Rows.{
  bad, Table, good, raise_if, context, run, good_inj, >>-eq-good, context-eq-good,
}
use money_insighter.Plaidsync.Items.{
  validate_credential, NewItem, ItemRow, linked_row, upsert_item, has_token, removed_status,
  rekeyed, update_credential, with_status, not_removed, set_status, purged, mark_item_removed,
  synced, save_cursor, get_credential, of_row, credential_of,
}
use money_insighter.Plaidsync.Items.Steps.{
  Step, link, rekey, set, remove, sync, Updated, updated, update_item-Updated,
}

-- Operations other than a new link of this item.
abbrev pub NoLink : Text → (t t' : Table ItemRow) → Step t t' → Type 0
NoLink id t t' (link fault n h) = text_eq n.item_id id ≡ false
NoLink id t t' (rekey fault j c h) = Unit
NoLink id t t' (set fault now j s e h) = Unit
NoLink id t t' (remove fault j h) = Unit
NoLink id t t' (sync fault j cursor now h) = Unit

pub data QuietSteps (id : Text) (t : Table ItemRow) : Table ItemRow → Type 0 where
  start : QuietSteps id t t
  next :
      {u v : Table ItemRow}
      → QuietSteps id t u
      → (step : Step u v) → NoLink id u v step
      → QuietSteps id t v

-- A removed row without its credential, and its cursor.
pub record IsPurged (cursor : Option Text) (r : ItemRow) : Type 0 where
  pub status_removed : r.status ≡ ItemStatus.removed
  pub no_token : r.encrypted_access_token ≡ none
  pub no_key : r.key_version ≡ none
  pub cursor_kept : r.cursor ≡ cursor

abbrev pub Found : {V : Type 0} → (V → Type 0) → Option V → Type 0
Found P none = ⊥
Found P (some v) = P v

Found_at : {V : Type 0} (P : V → Type 0) (o : Option V) (v : V) → Found P o → o ≡ some v → P v
Found_at P none v h e = absurd h
Found_at P (some w) v h e = subst (Found P) e h

-- An UPDATE of one row keeps a purged row if what it lets through it keeps purged.
Updated-IsPurged :
    (id j : Text) (cursor : Option Text) (p : ItemRow → Bool) (f : ItemRow → ItemRow)
    (t t' : Table ItemRow)
    → Updated j p f t t'
    → ((r : ItemRow) → p r ≡ true → IsPurged cursor r → IsPurged cursor (f r))
    → Found (IsPurged cursor) (lookup id t)
    → Found (IsPurged cursor) (lookup id t')
Updated-IsPurged id j cursor p f t t' (updated r found a same) keep h =
    subst (λ u. Found (IsPurged cursor) (lookup id u)) same
      (subst (Found (IsPurged cursor)) (sym (lookup-assign j id (f r) t)) (
        if-elim (Found (IsPurged cursor)) (text_eq j id) (some (f r)) (lookup id t)
          (λ own. keep r a (
            Found_at (IsPurged cursor) (lookup id t) r h
              (ap (λ k. lookup k t) (sym (text_eq-eq j id own)) ∙ found)))
          (λ _. h)))

token_there : Option Text → Bool
token_there o = elim o [ none ↦ false | some _ ↦ true ]

gone_not_live : (cursor : Option Text) (r : ItemRow) → not_removed r ≡ true → IsPurged cursor r → ⊥
gone_not_live cursor r live purge =
    cc (sym (ap (λ s. not (removed_status s)) purge.status_removed) ∙ live)

no_token_left : (cursor : Option Text) (r : ItemRow) → has_token r ≡ true → IsPurged cursor r → ⊥
unfolding token_there
no_token_left cursor r has purge = cc (sym (ap token_there purge.no_token) ∙ has)

pub upsert_item-assign :
    (fault : Option GoError) (n : NewItem) (t t' : Table ItemRow)
    → upsert_item fault n t ≡ good t'
    → assign n.item_id (linked_row n (lookup n.item_id t)) t ≡ t'
unfolding upsert_item
upsert_item-assign fault n t t' h =
    let h1 =
      >>-eq-good
        (raise_if (is_empty n.item_id) (other (codes "store: upsert item: item id is empty"))) _
        h in
    let h2 =
      >>-eq-good (context (codes "store: upsert item") (validate_credential n.credential)) _ h1 in
    good_inj (>>-eq-good (context (codes "store: upsert item") (run fault)) _ h2)

Step-IsPurged :
    (id : Text) (cursor : Option Text) (t t' : Table ItemRow) (step : Step t t')
    → NoLink id t t' step
    → Found (IsPurged cursor) (lookup id t)
    → Found (IsPurged cursor) (lookup id t')
unfolding update_credential set_status mark_item_removed save_cursor
Step-IsPurged id cursor t t' (link fault n h) apart all =
    subst (λ u. Found (IsPurged cursor) (lookup id u)) (upsert_item-assign fault n t t' h)
      (subst (Found (IsPurged cursor))
        (sym (
          lookup-assign n.item_id id (linked_row n (lookup n.item_id t)) t
          ∙ ap (λ b. if b then some (linked_row n (lookup n.item_id t)) else lookup id t) apart))
        all)
Step-IsPurged id cursor t t' (rekey fault j c h) q all =
    Updated-IsPurged id j cursor has_token (rekeyed c) t t'
      (update_item-Updated fault j _ _ t t' (context-eq-good _ _ (>>-eq-good _ _ h)))
      (λ r a k. absurd (no_token_left cursor r a k)) all
Step-IsPurged id cursor t t' (set fault now j s e h) q all =
    Updated-IsPurged id j cursor not_removed (with_status s now e) t t'
      (update_item-Updated fault j _ _ t t' (context-eq-good _ _ (>>-eq-good _ _ h)))
      (λ r a k. absurd (gone_not_live cursor r a k)) all
Step-IsPurged id cursor t t' (remove fault j h) q all =
    Updated-IsPurged id j cursor (λ _. true) purged t t'
      (update_item-Updated fault j _ _ t t' (context-eq-good _ _ h))
      (λ r a k. record {
        status_removed = refl;
        no_token = refl;
        no_key = refl;
        cursor_kept = k.cursor_kept;
      })
      all
Step-IsPurged id cursor t t' (sync fault j c now h) q all =
    Updated-IsPurged id j cursor not_removed (synced c now) t t'
      (update_item-Updated fault j _ _ t t' h) (λ r a k. absurd (gone_not_live cursor r a k)) all

QuietSteps-IsPurged :
    (id : Text) (cursor : Option Text) (t u : Table ItemRow)
    → QuietSteps id t u
    → Found (IsPurged cursor) (lookup id t)
    → Found (IsPurged cursor) (lookup id u)
QuietSteps-IsPurged id cursor t u start h = h
QuietSteps-IsPurged id cursor t u (next steps step quiet) h =
    Step-IsPurged id cursor _ u step quiet (QuietSteps-IsPurged id cursor t _ steps h)

purge_now :
    (id : Text) (t t' : Table ItemRow) (r : ItemRow)
    → lookup id t ≡ some r
    → Updated id (λ _. true) purged t t'
    → Found (IsPurged r.cursor) (lookup id t')
purge_now id t t' r found (updated q at _ same) =
    subst (Found (IsPurged r.cursor))
      (sym (
        ap (lookup id) (sym same)
        ∙ lookup-assign id id (purged q) t
        ∙ ap (λ b. if b then some (purged q) else lookup id t) (text_eq_refl id)))
      (record {
        status_removed = refl;
        no_token = refl;
        no_key = refl;
        cursor_kept = ap (λ x. x.cursor) (row_eq (sym at ∙ found));
      })
  where
    row_eq : {x y : ItemRow} → some x ≡ some y → x ≡ y
    row_eq e = cc

of_row-IsPurged :
    (scan : GoError) (cursor : Option Text) (o : Option ItemRow)
    → Found (IsPurged cursor) o
    → of_row scan o ≡ bad not_found
of_row-IsPurged scan cursor none h = absurd h
of_row-IsPurged scan cursor (some r) h =
    ap (λ token. credential_of scan token r.key_version) h.no_token

-- After a successful removal and any operations that do not link the item again, the item's row is
-- still removed, without token and key version and with the cursor that it had, and to read its
-- credential gives the wrapped ErrNotFound.
pub mark_item_removed-IsPurged :
    (fault : Option GoError) (scan : GoError) (id : Text) (t t' u : Table ItemRow) (r : ItemRow)
    → lookup id t ≡ some r
    → mark_item_removed fault id t ≡ good t'
    → QuietSteps id t' u
    → Found (IsPurged r.cursor) (lookup id u)
      × (get_credential none scan id u ≡ bad (wrap (codes "store: get credential") not_found))
unfolding mark_item_removed get_credential
mark_item_removed-IsPurged fault scan id t t' u r found h steps =
    let purge =
      QuietSteps-IsPurged id r.cursor t' u steps (
        purge_now id t t' r found
          (update_item-Updated fault id _ _ t t' (context-eq-good _ _ h))) in
    (
      purge,
      ap (context (codes "store: get credential"))
          (of_row-IsPurged scan r.cursor (lookup id u) purge),
    )
