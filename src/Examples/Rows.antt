-- ===== src/Examples/Rows.antt =====
-- Runs of the store's batch of rows (plaid-backend-golang/internal/store/sync_batch.go).
use money_insighter.Prelude.{
  ◌≡◌, refl, true, false, none, some, [], ◌∷◌, Text, codes, text_eq, text_eq_refl, length, lookup,
  All,
}
use money_insighter.Plaidsync.Types.{ItemStatus, Transaction, Account, SyncBatch}
use money_insighter.Plaidsync.World.{Item}
use money_insighter.Plaidsync.Rows.{Tables, Server, Outcome, good, bad}
use money_insighter.Plaidsync.Rows.Dedupe.{
  dedupe, dedupe_transactions, dedupe_accounts, latest_from, values, dedupe-latest_from,
}
use money_insighter.Plaidsync.Rows.Latest.{find, last_from, Distinct, find-dedupe}
use money_insighter.Plaidsync.Rows.Upserts.{transaction_key}
use money_insighter.Plaidsync.Rows.Links.{pending_pairs, stored_pairs, ids_of}
use money_insighter.Plaidsync.Rows.Apply.{Applied, apply_sync_batch}
use money_insighter.Plaidsync.Rows.Later.{Kept, Later, KeepsFirst}
use money_insighter.Plaidsync.Rows.Keeps.{apply_sync_batch-Kept}
use money_insighter.Plaidsync.Rows.Removed.{IsGone, apply_sync_batch-IsGone}
use money_insighter.Plaidsync.Rows.Linked.{IsForward, IsBack, apply_sync_batch-IsForward}
use money_insighter.Plaidsync.Rows.Listed.{Marks, apply_sync_batch-Marks}
use money_insighter.Plaidsync.Rows.Again.{Matches}
use money_insighter.Plaidsync.Rows.Written.{apply_sync_batch-Matches}
use money_insighter.Plaidsync.Rows.Replay.{apply_sync_batch-replay}

abbrev pending_row : Transaction
pending_row = record {
  transaction_id = codes "p1";
  account_id = codes "a1";
  item_id = [];
  amount = record { s = codes "4.5" };
  date = record { year = 2024; month = 1; day = 2 };
  pending = true;
  pending_transaction_id = none;
  details = codes "COFFEE";
  raw = codes "{1}";
  superseded_by = none;
  superseded_at = none;
  removed_at = none;
  first_seen_at = 0;
}

abbrev posted_row : Transaction
posted_row = record pending_row {
  transaction_id = codes "t1";
  pending = false;
  pending_transaction_id = some (codes "p1");
  raw = codes "{2}";
}

abbrev gone_row : Transaction
gone_row = record pending_row {
  transaction_id = codes "g1";
  item_id = codes "i1";
  raw = codes "{3}";
}

abbrev listed_account : Account
listed_account = record {
  account_id = codes "a1";
  item_id = [];
  details = codes "Checking";
  raw = codes "{4}";
  current_balance = some (record { s = codes "10" });
  available_balance = none;
  credit_limit = none;
  first_seen_at = 0;
  last_seen_at = 0;
  missing_since = none;
}

abbrev old_account : Account
old_account = record listed_account { account_id = codes "a0"; item_id = codes "i1" }

-- The posted row arrives before the pending one, which is reported twice.
abbrev batch : SyncBatch
batch = record {
  accounts = listed_account ∷ [];
  upserts = pending_row ∷ posted_row ∷ record pending_row { raw = codes "{5}" } ∷ [];
  removed = codes "g1" ∷ codes "unknown" ∷ [];
  next_cursor = codes "c2";
  added = 2;
  modified = 1;
}

abbrev stored : Tables
stored = record {
  accounts = (codes "a0", old_account) ∷ [];
  transactions = (codes "g1", gone_row) ∷ [];
}

abbrev server : Server
server = record {
  same_raw = text_eq;
  account_seen_at = λ _. 1;
  missing_at = λ _. 2;
  first_seen_at = λ _. 3;
  removed_at = λ _. 4;
  forward_at = λ _. 5;
  reverse_at = λ _. 6;
  pick = λ _. 0;
  accounts_error = none;
  missing_error = none;
  transactions_error = none;
  remove_error = none;
  forward_error = none;
  reverse_error = none;
  hook_error = none;
  cursor_error = none;
}

abbrev live_item : Item
live_item = record { status = ItemStatus.error; cursor = some (codes "c1"); last_error = none }

abbrev nothing_done : Applied
nothing_done = record {
  result = record {
    inserted = 0;
    updated = 0;
    unchanged = 0;
    removed = 0;
    superseded = 0;
    accounts_upserted = 0;
    missing_account_ids = [];
  };
  item = live_item;
  tables = stored;
}

abbrev or_nothing : Outcome Applied → Applied
or_nothing (good d) = d
or_nothing (bad e) = nothing_done

abbrev done : Applied
unfolding apply_sync_batch
done = or_nothing (apply_sync_batch server (codes "i1") live_item batch stored)

is_done : apply_sync_batch server (codes "i1") live_item batch stored ≡ good done
unfolding done
is_done = refl

counts : done.result.superseded ≡ 1
unfolding done
counts = refl

find-dedupe_example :
    Distinct transaction_key (dedupe transaction_key batch.upserts)
    × ((k : Text)
        → find transaction_key k (dedupe transaction_key batch.upserts)
          ≡ last_from transaction_key k batch.upserts none)
find-dedupe_example = find-dedupe transaction_key batch.upserts

dedupe-latest_from_example :
    dedupe transaction_key batch.upserts ≡ values (latest_from transaction_key batch.upserts [])
dedupe-latest_from_example = dedupe-latest_from transaction_key batch.upserts

apply_sync_batch-Kept_example :
    Kept Later
      (lookup (codes "g1") stored.transactions)
      (lookup (codes "g1") done.tables.transactions)
    × Kept KeepsFirst
        (lookup (codes "g1") stored.accounts)
        (lookup (codes "g1") done.tables.accounts)
apply_sync_batch-Kept_example =
    apply_sync_batch-Kept server (codes "i1") live_item batch stored done is_done (codes "g1")

apply_sync_batch-IsGone_example : All (IsGone (codes "i1") batch.removed) done.tables.transactions
apply_sync_batch-IsGone_example =
    apply_sync_batch-IsGone server (codes "i1") live_item batch stored done is_done

apply_sync_batch-IsForward_example :
    All
      (IsForward
        (codes "i1")
        (pending_pairs (dedupe_transactions batch.upserts))
        (stored_pairs (codes "i1") done.tables.transactions))
      done.tables.transactions
    × All
        (IsBack
          (codes "i1")
          (ids_of (dedupe_transactions batch.upserts))
          (stored_pairs (codes "i1") done.tables.transactions))
        done.tables.transactions
apply_sync_batch-IsForward_example =
    apply_sync_batch-IsForward server (codes "i1") live_item batch stored done is_done

apply_sync_batch-Marks_example :
    Marks (codes "i1") (dedupe_accounts batch.accounts) stored.accounts done.tables.accounts
apply_sync_batch-Marks_example =
    apply_sync_batch-Marks server (codes "i1") live_item batch stored done is_done

last_one :
    last_from transaction_key (codes "p1") batch.upserts none
    ≡ some (record pending_row { raw = codes "{5}" })
unfolding last_from text_eq
last_one = refl

apply_sync_batch-Matches_example :
    Matches server
      (record pending_row { raw = codes "{5}" })
      (lookup (codes "p1") done.tables.transactions)
apply_sync_batch-Matches_example =
    apply_sync_batch-Matches server (codes "i1") live_item batch stored done text_eq_refl is_done
      (codes "p1") (record pending_row { raw = codes "{5}" }) last_one

apply_sync_batch-replay_example :
    (again : Applied) × (apply_sync_batch server (codes "i1") done.item batch done.tables
      ≡ good again)
    × (again.result.inserted ≡ 0)
    × (again.result.updated ≡ 0)
    × (again.result.unchanged ≡ length (dedupe_transactions batch.upserts))
    × (again.result.removed ≡ 0)
apply_sync_batch-replay_example =
    apply_sync_batch-replay server (codes "i1") live_item batch stored done text_eq_refl is_done
