-- ===== src/Plaidsync/Items/Steps.antt =====
-- The operations of the store on the item rows as a relation.
use money_insighter.Prelude.{
  ℕ, ◌≡◌, refl, Bool, true, false, not, Option, none, some, Text, lookup, assign,
}
use money_insighter.Plaidsync.Types.{ItemStatus}
use money_insighter.Plaidsync.Errors.{GoError}
use money_insighter.Plaidsync.World.{ItemError}
use money_insighter.Plaidsync.Rows.{Table, good, good_inj, >>-eq-good, raise_if-eq-good}
use money_insighter.Plaidsync.Items.{
  Credential, NewItem, ItemRow, upsert_item, row_affected, update_item, update_credential,
  set_status, mark_item_removed, save_cursor,
}

-- The operations of the store that write an item's row.
pub data Step (t t' : Table ItemRow) : Type 0 where
  link : (fault : Option GoError) (n : NewItem) → upsert_item fault n t ≡ good t' → Step t t'
  rekey :
      (fault : Option GoError) (id : Text) (c : Credential)
      → update_credential fault id c t ≡ good t'
      → Step t t'
  set :
      (fault : Option GoError) (now : ℕ) (id : Text) (s : ItemStatus) (e : Option ItemError)
      → set_status fault now id s e t ≡ good t'
      → Step t t'
  remove : (fault : Option GoError) (id : Text) → mark_item_removed fault id t ≡ good t' → Step t t'
  sync :
      (fault : Option GoError) (id cursor : Text) (now : ℕ)
      → save_cursor fault id cursor now t ≡ good t'
      → Step t t'

pub data Steps (t : Table ItemRow) : Table ItemRow → Type 0 where
  start : Steps t t
  next : {u v : Table ItemRow} → Steps t u → Step u v → Steps t v

-- The table behind an UPDATE of one row that the test lets through.
pub data Updated (id : Text) (p : ItemRow → Bool) (f : ItemRow → ItemRow) (t t' : Table ItemRow)
    : Type 0 where
  updated :
      (r : ItemRow)
      → lookup id t ≡ some r
      → p r ≡ true
      → assign id (f r) t ≡ t'
      → Updated id p f t t'

negated : (b : Bool) → not b ≡ false → b ≡ true
negated true h = refl
negated false h = cc

pub update_item-Updated :
    (fault : Option GoError) (id : Text) (p : ItemRow → Bool) (f : ItemRow → ItemRow)
    (t t' : Table ItemRow)
    → update_item fault id p f t ≡ good t'
    → Updated id p f t t'
unfolding update_item
update_item-Updated fault id p f t t' h =
    let h1 = >>-eq-good _ _ h in
    go (lookup id t) refl (negated _ (raise_if-eq-good _ _ _ h1)) (good_inj (>>-eq-good _ _ h1))
  where
    go :
        (o : Option ItemRow)
        → lookup id t ≡ o
        → row_affected p o ≡ true
        → (elim o [ none ↦ t | some r ↦ assign id (f r) t ]) ≡ t'
        → Updated id p f t t'
    go none e a h' = cc
    go (some r) e a h' = updated r e a h'
