-- ===== src/Examples/Items.antt =====
-- Runs of the store's operations on item rows (plaid-backend-golang/internal/store/items.go).
use money_insighter.Prelude.{
  Text, false, ◌≡◌, refl, none, some, [], ◌∷◌, codes, text_eq, lookup, assign,
}
use money_insighter.Plaidsync.Types.{ItemStatus}
use money_insighter.Plaidsync.Errors.{wrap, not_found, other}
use money_insighter.Plaidsync.World.{ItemError}
use money_insighter.Plaidsync.Rows.{Table, good, bad}
use money_insighter.Plaidsync.Items.{
  NewItem, ItemRow, validate_credential, inserted_row, upsert_item, update_item, with_status,
  set_status, purged, synced, mark_item_removed, save_cursor, get_credential,
}
use money_insighter.Plaidsync.Items.Steps.{Step, link, set, remove, sync, start, next}
use money_insighter.Plaidsync.Items.Consistent.{AllConsistent, Steps-AllConsistent}
use money_insighter.Plaidsync.Items.Lifecycle.{Moves, seen_at}
use money_insighter.Plaidsync.Items.Transitions.{Step-Moves}
use money_insighter.Plaidsync.Items.Removed.{
  QuietSteps, IsPurged, Found, mark_item_removed-IsPurged,
}

abbrev linked : NewItem
linked = record {
  item_id = codes "i1";
  institution_id = none;
  institution_name = some (codes "Bank");
  credential = record { ciphertext = codes "blob"; key_version = 2 };
  consent_expires_at = none;
  raw = none;
}

abbrev failing : ItemError
failing = record {
  code = codes "ITEM_LOGIN_REQUIRED";
  kind = codes "ITEM_ERROR";
  message = [];
  at = 0;
}

abbrev with_item : Table ItemRow
with_item = (codes "i1", inserted_row linked) ∷ []

abbrev with_cursor : Table ItemRow
with_cursor = (codes "i1", synced (codes "c1") 5 (inserted_row linked)) ∷ []

abbrev with_error : Table ItemRow
with_error =
    (
      codes "i1",
      with_status ItemStatus.login_required 6 (some failing)
          (synced (codes "c1") 5 (inserted_row linked)),
    )
    ∷ []

abbrev with_none : Table ItemRow
with_none =
    (
      codes "i1",
      purged (
          with_status ItemStatus.login_required 6 (some failing)
            (synced (codes "c1") 5 (inserted_row linked))),
    )
    ∷ []

is_linked : upsert_item none linked [] ≡ good with_item
unfolding upsert_item validate_credential lookup assign text_eq
is_linked = refl

is_synced : save_cursor none (codes "i1") (codes "c1") 5 with_item ≡ good with_cursor
unfolding save_cursor update_item lookup assign text_eq
is_synced = refl

is_set :
    set_status none 6 (codes "i1") ItemStatus.login_required (some failing) with_cursor
    ≡ good with_error
unfolding set_status update_item lookup assign text_eq
is_set = refl

is_purged : mark_item_removed none (codes "i1") with_error ≡ good with_none
unfolding mark_item_removed update_item lookup assign text_eq
is_purged = refl

Steps-AllConsistent_example : AllConsistent with_none
Steps-AllConsistent_example = Steps-AllConsistent with_none (
    next
      (next
        (next (next start (link none linked is_linked))
          (sync none (codes "i1") (codes "c1") 5 is_synced))
        (set none 6 (codes "i1") ItemStatus.login_required (some failing) is_set))
      (remove none (codes "i1") is_purged))

is_purged_again : mark_item_removed none (codes "i1") with_none ≡ good with_none
unfolding mark_item_removed update_item lookup assign text_eq
is_purged_again = refl

found :
    lookup (codes "i1") with_error
    ≡ some (
        with_status ItemStatus.login_required 6
          (some failing)
          (synced (codes "c1") 5 (inserted_row linked)))
unfolding lookup text_eq
found = refl

mark_item_removed-IsPurged_example :
    Found (IsPurged (some (codes "c1"))) (lookup (codes "i1") with_none)
    × (get_credential none (other []) (codes "i1") with_none
        ≡ bad (wrap (codes "store: get credential") not_found))
mark_item_removed-IsPurged_example =
    mark_item_removed-IsPurged none (other []) (codes "i1") with_error with_none with_none
      (with_status ItemStatus.login_required 6 (some failing)
        (synced (codes "c1") 5 (inserted_row linked)))
      found is_purged
      (QuietSteps.next QuietSteps.start (remove none (codes "i1") is_purged_again) tt)

abbrev a_set : Step with_cursor with_error
a_set = set none 6 (codes "i1") ItemStatus.login_required (some failing) is_set

Step-Moves_example :
    Moves a_set (seen_at (codes "i1") with_cursor) (seen_at (codes "i1") with_error)
    × ((id : Text) → text_eq (codes "i1") id ≡ false → lookup id with_error ≡ lookup id with_cursor)
Step-Moves_example = Step-Moves with_cursor with_error a_set
