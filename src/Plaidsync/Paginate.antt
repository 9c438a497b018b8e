-- ===== src/Plaidsync/Paginate.antt =====
-- `paginate` and `backoff` of plaid-backend-golang/internal/sync/engine.go. Plaid's answers are a
-- parameter: the reply to the n-th call, at the cursor of the call.
pub mod Drain
pub mod Attempts
pub mod Delay
use money_insighter.Prelude.{
  ℕ, zero, suc, ◌+◌, ◌-◌, ◌*◌, Bool, true, false, ◌||◌, not, Option, none, some, List, [], ◌∷◌,
  ◌++◌, Text, codes, length, is_empty, ltb, ◌==◌, if◌then◌else◌,
}
use money_insighter.Plaidsync.Types.{Transaction, SyncBatch}
use money_insighter.Plaidsync.Errors.{GoError, plaid, Class, retryable, classify}

pub record Page : Type 0 where
  pub added : List Transaction
  pub modified : List Transaction
  pub removed : List Text
  pub next_cursor : Text
  pub has_more : Bool
  pub update_status : Text
  pub request_id : Text

pub data Reply : Type 0 where
  answer : Page → Reply
  fails : GoError → Reply

abbrev pub Client : Type 0
Client = ℕ → Text → Reply

pub record Pagination : Type 0 where
  pub batch : SyncBatch
  pub pages : ℕ
  pub removed : ℕ
  pub update_status : Text

abbrev pub empty_batch : SyncBatch
empty_batch = record {
  accounts = [];
  upserts = [];
  removed = [];
  next_cursor = [];
  added = 0;
  modified = 0;
}

abbrev pub fresh : Pagination
fresh = record { batch = empty_batch; pages = 0; removed = 0; update_status = [] }

-- What one page adds to the state of the attempt.
unfoldable pub add_page : Pagination → Page → Pagination
add_page pg page = record {
  batch = record {
    accounts = pg.batch.accounts;
    upserts = pg.batch.upserts ++ page.added ++ page.modified;
    removed = pg.batch.removed ++ page.removed;
    next_cursor = page.next_cursor;
    added = pg.batch.added + length page.added;
    modified = pg.batch.modified + length page.modified;
  };
  pages = pg.pages + 1;
  removed = pg.removed + length page.removed;
  update_status = page.update_status;
}

abbrev pub empty_cursor_error : Page → GoError
empty_cursor_error page = plaid (record {
  endpoint = codes "/transactions/sync";
  kind = codes "INVALID_RESULT";
  code = codes "EMPTY_CURSOR_WITH_HAS_MORE";
  message = codes "Plaid reported has_more with an empty next_cursor";
  display_message = [];
  request_id = page.request_id;
  http_status = 0;
})

-- How the inner loop ended.
pub data Ended : Type 0 where
  done : Ended
  broke : GoError → Ended

abbrev pub Attempt : Type 0
Attempt = Ended × Pagination × ℕ

abbrev after_page : (Text → Pagination → Option Attempt) → Pagination → ℕ → Page → Option Attempt
after_page go_on pg n page =
    if not page.has_more
    then some (done, pg, n)
    else if is_empty page.next_cursor
    then some (broke (empty_cursor_error page), pg, n)
    else go_on page.next_cursor pg

abbrev after_reply : (Text → Pagination → Option Attempt) → Pagination → ℕ → Reply → Option Attempt
after_reply go_on pg n (fails e) = some (broke e, pg, n)
after_reply go_on pg n (answer page) = after_page go_on (add_page pg page) n page

-- The inner loop from call `n` at a cursor; `none` means that it still runs when the fuel ends.
unfoldable pub run_pages : Client → ℕ → ℕ → Text → Pagination → Option Attempt
unfolding add_page
run_pages cl zero n cursor pg = none
run_pages cl (suc f) n cursor pg = after_reply (run_pages cl f (suc n)) pg (suc n) (cl n cursor)

pub record SyncConfig : Type 0 where
  pub max_attempts : ℕ
  pub retry_base : ℕ
  pub retry_max : ℕ

-- `never_tried` is the pair of nils that no attempt leaves.
pub data Paginated : Type 0 where
  drained : Pagination → Paginated
  gave_up : Pagination → GoError → Paginated
  never_tried : Paginated

-- The loop of `backoff`, with the rounds that are left.
unfoldable pub double_until : ℕ → ℕ → ℕ → ℕ
double_until zero max d = d
double_until (suc i) max d = if ltb d max then double_until i max (d * 2) else d

abbrev pub capped : ℕ → ℕ → ℕ
capped max d = if ltb max d then max else d

-- The jitter multiplies by a random factor; what it gives is a parameter.
unfoldable pub backoff : SyncConfig → (ℕ → ℕ) → ℕ → ℕ
unfolding double_until
backoff cfg jitter attempt =
    let d = capped cfg.retry_max (double_until (attempt - 1) cfg.retry_max cfg.retry_base) in
    capped cfg.retry_max (jitter d)

-- The wait between attempts, and the error when the context ends first.
abbrev pub Sleep : Type 0
Sleep = ℕ → ℕ → Option GoError

-- The result of `paginate`, the attempts made and the calls made.
abbrev pub Paged : Type 0
Paged = Paginated × ℕ × ℕ

abbrev is_retryable : Class → Bool
is_retryable retryable = true
is_retryable _ = false

abbrev after_sleep : (ℕ → Option Paged) → Pagination → ℕ → ℕ → Option GoError → Option Paged
after_sleep again pg attempt n (some e) = some (gave_up pg e, attempt, n)
after_sleep again pg attempt n none = again n

abbrev after_attempt :
    SyncConfig → Sleep → (ℕ → ℕ) → (ℕ → Option Paged) → ℕ → Option Attempt → Option Paged
after_attempt cfg sleep jitter again attempt none = none
after_attempt cfg sleep jitter again attempt (some (done, pg, n)) = some (drained pg, attempt, n)
after_attempt cfg sleep jitter again attempt (some (broke e, pg, n)) =
    if not (is_retryable (classify e)) || (attempt == cfg.max_attempts)
    then some (gave_up pg e, attempt, n)
    else after_sleep again pg attempt n (sleep attempt (backoff cfg jitter attempt))

-- The outer loop, with the attempts that are left.
unfoldable pub attempts :
    SyncConfig → Client → Sleep → (ℕ → ℕ) → ℕ → Text → ℕ → ℕ → ℕ → Option Paged
unfolding run_pages
attempts cfg cl sleep jitter fuel orig zero attempt n = some (never_tried, attempt - 1, n)
attempts cfg cl sleep jitter fuel orig (suc left) attempt n =
    after_attempt cfg sleep jitter (attempts cfg cl sleep jitter fuel orig left (suc attempt))
      attempt (run_pages cl fuel n orig fresh)

unfoldable pub paginate : SyncConfig → Client → Sleep → (ℕ → ℕ) → ℕ → Text → Option Paged
unfolding attempts
paginate cfg cl sleep jitter fuel orig = attempts cfg cl sleep jitter fuel orig cfg.max_attempts 1 0
