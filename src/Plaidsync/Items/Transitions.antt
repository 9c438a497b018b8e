-- ===== src/Plaidsync/Items/Transitions.antt =====
-- Each operation on the item rows as a transition of the item that it names.
use money_insighter.Prelude.{
  ◌≡◌, refl, sym, ap, ◌∙◌, true, false, some, Text, text_eq, text_eq_refl, lookup, lookup-assign,
  if◌then◌else◌,
}
use money_insighter.Plaidsync.Types.{ItemStatus}
use money_insighter.Plaidsync.World.{store_cursor}
use money_insighter.Plaidsync.Rows.{Table, >>-eq-good, context-eq-good}
use money_insighter.Plaidsync.Items.{
  ItemRow, linked_row, has_token, rekeyed, update_credential, with_status, not_removed, set_status,
  purged, mark_item_removed, synced, save_cursor,
}
use money_insighter.Plaidsync.Items.Steps.{
  Step, link, rekey, set, remove, sync, update_item-Updated,
}
use money_insighter.Plaidsync.Items.Removed.{upsert_item-assign}
use money_insighter.Plaidsync.Items.Lifecycle.{
  seen, seen_at, at_row, target, IsLive, IsPresent, set_plain, set_state, Moves, Updated-own,
  Updated-other, live, move_cursor_lem, seen-with_status, seen-linked_row,
}

own_step :
    (t t' : Table ItemRow) (step : Step t t')
    → Moves step (seen_at (target step) t) (seen_at (target step) t')
unfolding update_credential set_status mark_item_removed save_cursor
own_step t t' (link fault n h) =
    ap at_row (
      ap (lookup n.item_id) (sym (upsert_item-assign fault n t t' h))
      ∙ lookup-assign n.item_id n.item_id (linked_row n (lookup n.item_id t)) t
      ∙ ap (λ b. if b then some (linked_row n (lookup n.item_id t)) else lookup n.item_id t)
          (text_eq_refl n.item_id))
    ∙ ap some (seen-linked_row n (lookup n.item_id t))
own_step t t' (rekey fault id c h) =
    Updated-own id has_token (rekeyed c) t t' (λ o o'. IsPresent o × (o' ≡ o))
      (update_item-Updated fault id _ _ t t' (context-eq-good _ _ (>>-eq-good _ _ h)))
      (λ r a. (tt, refl))
own_step t t' (set fault now id s e h) =
    Updated-own id not_removed (with_status s now e) t t'
      (λ o o'. IsLive o × (o' ≡ set_state s now e o))
      (update_item-Updated fault id _ _ t t' (context-eq-good _ _ (>>-eq-good _ _ h)))
      (λ r a. (live r a, seen-with_status s now e r (live r a)))
own_step t t' (remove fault id h) =
    Updated-own id (λ _. true) purged t t'
      (λ o o'. IsPresent o × (o' ≡ set_plain ItemStatus.removed o))
      (update_item-Updated fault id _ _ t t' (context-eq-good _ _ h)) (λ r a. (tt, refl))
own_step t t' (sync fault id cursor now h) =
    Updated-own id not_removed (synced cursor now) t t'
      (λ o o'. IsLive o × (o' ≡ store_cursor cursor o)) (update_item-Updated fault id _ _ t t' h)
      (λ r a. (live r a, ap some (sym (move_cursor_lem r.status cursor (seen r) (live r a)))))

other_step :
    (id : Text) (t t' : Table ItemRow) (step : Step t t')
    → text_eq (target step) id ≡ false
    → lookup id t' ≡ lookup id t
unfolding update_credential set_status mark_item_removed save_cursor
other_step id t t' (link fault n h) other =
    ap (lookup id) (sym (upsert_item-assign fault n t t' h))
    ∙ lookup-assign n.item_id id (linked_row n (lookup n.item_id t)) t
    ∙ ap (λ b. if b then some (linked_row n (lookup n.item_id t)) else lookup id t) other
other_step id t t' (rekey fault j c h) other =
    Updated-other id j has_token (rekeyed c) t t'
      (update_item-Updated fault j _ _ t t' (context-eq-good _ _ (>>-eq-good _ _ h))) other
other_step id t t' (set fault now j s e h) other =
    Updated-other id j not_removed (with_status s now e) t t'
      (update_item-Updated fault j _ _ t t' (context-eq-good _ _ (>>-eq-good _ _ h))) other
other_step id t t' (remove fault j h) other =
    Updated-other id j (λ _. true) purged t t'
      (update_item-Updated fault j _ _ t t' (context-eq-good _ _ h)) other
other_step id t t' (sync fault j cursor now h) other =
    Updated-other id j not_removed (synced cursor now) t t' (update_item-Updated fault j _ _ t t' h)
      other

-- Each successful operation of the store on the table of items is one transition of the item that it
-- names, as `SyncItem` sees it, and leaves every other row as it was: a link makes the item active
-- without a last error and keeps its cursor; a new credential changes nothing of it; a status and a
-- cursor are set only on an item that is not removed, as the updates of SyncItem's database do it; a
-- removal sets the status alone.
pub Step-Moves :
    (t t' : Table ItemRow) (step : Step t t')
    → Moves step (seen_at (target step) t) (seen_at (target step) t')
      × ((id : Text) → text_eq (target step) id ≡ false → lookup id t' ≡ lookup id t)
Step-Moves t t' step = (own_step t t' step, λ id other. other_step id t t' step other)
