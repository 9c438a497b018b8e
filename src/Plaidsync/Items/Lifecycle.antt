-- ===== src/Plaidsync/Items/Lifecycle.antt =====
-- The item rows as `SyncItem` sees them: the operations of the store on the table against those on
-- one item (Plaidsync/World.antt).
use money_insighter.Prelude.{
  ℕ, ◌≡◌, refl, sym, ap, ◌∙◌, Bool, true, false, not, Option, none, some, subst, Text, text_eq,
  text_eq_refl, lookup, lookup-assign, if◌then◌else◌,
}
use money_insighter.Plaidsync.Types.{ItemStatus}
use money_insighter.Plaidsync.World.{ItemError, Item, overwrite, set_row, move_cursor, store_cursor}
use money_insighter.Plaidsync.Rows.{Table}
use money_insighter.Plaidsync.Items.{
  NewItem, ItemRow, linked_row, removed_status, stamped, with_status, not_removed,
}
use money_insighter.Plaidsync.Items.Steps.{Step, link, rekey, set, remove, sync, Updated, updated}

-- What `loadItem` reads of a row.
abbrev pub seen : ItemRow → Item
seen r = record { status = r.status; cursor = r.cursor; last_error = r.last_error }

abbrev pub seen_at : Text → Table ItemRow → Option Item
seen_at id t = elim (lookup id t) [ none ↦ none | some r ↦ some (seen r) ]

-- The item that a step writes.
abbrev pub target : {t t' : Table ItemRow} → Step t t' → Text
target (link fault n h) = n.item_id
target (rekey fault id c h) = id
target (set fault now id s e h) = id
target (remove fault id h) = id
target (sync fault id cursor now h) = id

abbrev pub cursor_of : Option Item → Option Text
cursor_of none = none
cursor_of (some i) = i.cursor

abbrev pub IsLive : Option Item → Type 0
IsLive none = ⊥
IsLive (some i) = removed_status i.status ≡ false

abbrev pub IsPresent : Option Item → Type 0
IsPresent none = ⊥
IsPresent (some i) = Unit

abbrev pub set_plain : ItemStatus → Option Item → Option Item
set_plain s none = none
set_plain s (some i) = some (record i { status = s })

abbrev pub set_state : ItemStatus → ℕ → Option ItemError → Option Item → Option Item
set_state s now none o = set_plain s o
set_state s now (some e) o = set_row s (stamped now e) o

-- The transition of the target's item that each operation makes.
abbrev pub Moves : {t t' : Table ItemRow} → Step t t' → Option Item → Option Item → Type 0
Moves (link fault n h) o o' =
    o' ≡ some (record { status = ItemStatus.active; cursor = cursor_of o; last_error = none })
Moves (rekey fault id c h) o o' = IsPresent o × (o' ≡ o)
Moves (set fault now id s e h) o o' = IsLive o × (o' ≡ set_state s now e o)
Moves (remove fault id h) o o' = IsPresent o × (o' ≡ set_plain ItemStatus.removed o)
Moves (sync fault id cursor now h) o o' = IsLive o × (o' ≡ store_cursor cursor o)

abbrev pub at_row : Option ItemRow → Option Item
at_row o = elim o [ none ↦ none | some r ↦ some (seen r) ]

-- What an UPDATE of one row leaves under its key and under the others.
pub Updated-own :
    (id : Text) (p : ItemRow → Bool) (f : ItemRow → ItemRow) (t t' : Table ItemRow)
    (q : Option Item → Option Item → Type 0)
    → Updated id p f t t'
    → ((r : ItemRow) → p r ≡ true → q (some (seen r)) (some (seen (f r))))
    → q (seen_at id t) (seen_at id t')
Updated-own id p f t t' q (updated r found a same) h =
    subst (λ o. q (at_row o) (seen_at id t')) (sym found)
      (subst (λ o. q (some (seen r)) (at_row o))
        (sym (
          ap (lookup id) (sym same)
          ∙ lookup-assign id id (f r) t
          ∙ ap (λ b. if b then some (f r) else lookup id t) (text_eq_refl id)))
        (h r a))

pub Updated-other :
    (id j : Text) (p : ItemRow → Bool) (f : ItemRow → ItemRow) (t t' : Table ItemRow)
    → Updated j p f t t'
    → text_eq j id ≡ false
    → lookup id t' ≡ lookup id t
Updated-other id j p f t t' (updated r found a same) other =
    ap (lookup id) (sym same)
    ∙ lookup-assign j id (f r) t
    ∙ ap (λ b. if b then some (f r) else lookup id t) other

pub live : (r : ItemRow) → not_removed r ≡ true → removed_status r.status ≡ false
live r h = go (removed_status r.status) h
  where
    go : (b : Bool) → not b ≡ true → b ≡ false
    go true e = cc
    go false e = refl

overwrite_lem :
    (old s : ItemStatus) (e : ItemError) (i : Item)
    → removed_status old ≡ false
    → overwrite old s e i ≡ record i { status = s; last_error = some e }
overwrite_lem ItemStatus.removed s e i h = cc
overwrite_lem ItemStatus.active s e i h = refl
overwrite_lem ItemStatus.login_required s e i h = refl
overwrite_lem ItemStatus.pending_expiration s e i h = refl
overwrite_lem ItemStatus.permission_revoked s e i h = refl
overwrite_lem ItemStatus.error s e i h = refl

pub move_cursor_lem :
    (old : ItemStatus) (cursor : Text) (i : Item)
    → removed_status old ≡ false
    → move_cursor old cursor i
      ≡ record { status = ItemStatus.active; cursor = some cursor; last_error = none }
move_cursor_lem ItemStatus.removed cursor i h = cc
move_cursor_lem ItemStatus.active cursor i h = refl
move_cursor_lem ItemStatus.login_required cursor i h = refl
move_cursor_lem ItemStatus.pending_expiration cursor i h = refl
move_cursor_lem ItemStatus.permission_revoked cursor i h = refl
move_cursor_lem ItemStatus.error cursor i h = refl

pub seen-with_status :
    (s : ItemStatus) (now : ℕ) (e : Option ItemError) (r : ItemRow)
    → removed_status r.status ≡ false
    → some (seen (with_status s now e r)) ≡ set_state s now e (some (seen r))
seen-with_status s now none r h = refl
seen-with_status s now (some e) r h =
    ap some (sym (overwrite_lem r.status s (stamped now e) (seen r) h))

pub seen-linked_row :
    (n : NewItem) (o : Option ItemRow)
    → seen (linked_row n o)
      ≡ record { status = ItemStatus.active; cursor = cursor_of (at_row o); last_error = none }
seen-linked_row n none = refl
seen-linked_row n (some r) = refl
