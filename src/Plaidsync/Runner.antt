-- ===== src/Plaidsync/Runner.antt =====
-- The job runner's decisions: plaid-backend-golang/internal/jobs/runner.go. The item's status comes
-- from the store, none when it has no such item; the result of `SyncItem` is an argument.
pub mod Decisions
use money_insighter.Prelude.{
  ℕ, suc, ◌+◌, Bool, true, false, ◌&&◌, Option, none, some, List, [], ◌∷◌, ◌++◌, Text, codes,
  length, get_elem?, leb, ltb, if◌then◌else◌, is_empty, lookup, assign,
}
use money_insighter.Plaidsync.Types.{ItemStatus, JobKind, JobState, SyncOutcome}
use money_insighter.Plaidsync.Errors.{GoError}
use money_insighter.Plaidsync.Runs.{Outcome, message}
use money_insighter.Plaidsync.Jobs.{
  Job, Jobs, JobError, Answer, answered, refused, queued_job, create_job, finish_job,
}

pub data EnqueueError : Type 0 where
  no_item item_removed : EnqueueError
  not_syncable : ItemStatus → EnqueueError
  not_created : JobError → EnqueueError

pub data Enqueued : Type 0 where
  queued_as : Job → Enqueued
  rejected : EnqueueError → Enqueued

-- The answer, the table, and whether a worker is woken.
abbrev pub Enqueue : Type 0
Enqueue = Enqueued × Jobs × Bool

abbrev pub after_create : Answer × Jobs → Enqueue
after_create (answered j, jobs) = (queued_as j, jobs, true)
after_create (refused e, jobs) = (rejected (not_created e), jobs, false)

abbrev pub unless_queued : Option Job → Answer × Jobs → Jobs → Enqueue
unless_queued (some j) made jobs = (queued_as j, jobs, false)
unless_queued none made jobs = after_create made

abbrev pub by_status : Option ItemStatus → Enqueue → Jobs → Enqueue
by_status none go_on jobs = (rejected no_item, jobs, false)
by_status (some ItemStatus.removed) go_on jobs = (rejected item_removed, jobs, false)
by_status (some ItemStatus.login_required) go_on jobs =
    (rejected (not_syncable ItemStatus.login_required), jobs, false)
by_status (some ItemStatus.pending_expiration) go_on jobs =
    (rejected (not_syncable ItemStatus.pending_expiration), jobs, false)
by_status (some ItemStatus.permission_revoked) go_on jobs =
    (rejected (not_syncable ItemStatus.permission_revoked), jobs, false)
by_status (some ItemStatus.active) go_on jobs = go_on
by_status (some ItemStatus.error) go_on jobs = go_on

-- `Enqueue`; `exists` is the foreign key's test when the job is created.
unfoldable pub enqueue :
    Option ItemStatus → (Text → Bool) → Text → ℕ → Text → JobKind → Jobs → Enqueue
unfolding queued_job create_job
enqueue status exists id now item_id kind jobs =
    by_status status
      (unless_queued (queued_job item_id jobs) (create_job exists id now item_id kind jobs) jobs)
      jobs

-- What the worker does with a claimed job: an end with its code and message, or nothing.
pub data Ending : Type 0 where
  ends : JobState → Text → Text → Ending
  left_running : Ending

abbrev pub outcome_text : SyncOutcome → Text
outcome_text SyncOutcome.success = codes "success"
outcome_text SyncOutcome.retryable_error = codes "retryable_error"
outcome_text SyncOutcome.needs_reauth = codes "needs_reauth"
outcome_text SyncOutcome.fatal = codes "fatal"
outcome_text SyncOutcome.locked = codes "locked"
outcome_text SyncOutcome.canceled = codes "canceled"
outcome_text SyncOutcome.failure = codes "error"

abbrev pub failure_text : Outcome → Option GoError → Text
failure_text res none = if res.skipped then res.reason else codes "sync failed"
failure_text res (some e) = if res.skipped then res.reason else message e

abbrev pub ending_at : Outcome → SyncOutcome → Ending
ending_at res SyncOutcome.success = ends JobState.succeeded [] []
ending_at res SyncOutcome.locked =
    ends JobState.skipped (codes "locked") (codes "another sync of this item was in progress")
ending_at res SyncOutcome.canceled = left_running
ending_at res out = ends JobState.failed (outcome_text out) (failure_text res res.err)

-- The switch on the outcome of `SyncItem`.
unfoldable pub ending : Outcome → Ending
unfolding message
ending res = ending_at res res.outcome

-- What `process` reads of the item: its status and its last successful sync, or the lookup's error.
pub data ItemLookup : Type 0 where
  found : ItemStatus → Option ℕ → ItemLookup
  lookup_failed : Text → ItemLookup

abbrev pub is_manual : JobKind → Bool
is_manual JobKind.manual = true
is_manual _ = false

-- now - last < MinInterval, where the last sync may lie in the future.
abbrev pub too_soon : ℕ → ℕ → Option ℕ → Bool
too_soon min_interval now none = false
too_soon min_interval now (some last) = ltb now (last + min_interval)

-- The check before a manual sync; `since` is the message's text.
abbrev pub debounce : ℕ → ℕ → Text → JobKind → Option ℕ → Ending → Ending
debounce min_interval now since kind last go_on =
    if is_manual kind && (ltb 0 min_interval && too_soon min_interval now last)
    then ends JobState.skipped (codes "debounced") since
    else go_on

abbrev pub needs_reauth_end : Text → Ending
needs_reauth_end status =
    ends JobState.skipped (codes "needs_reauth")
      (codes "item is " ++ (status ++ codes "; Link update mode is required"))

-- `process`, up to the end of its job; `res` is the result of `SyncItem`, if it gets there.
unfoldable pub process : ℕ → ℕ → Text → JobKind → Outcome → ItemLookup → Ending
unfolding ending
process min_interval now since kind res (lookup_failed e) =
    ends JobState.failed (codes "item_lookup") e
process min_interval now since kind res (found ItemStatus.removed last) =
    ends JobState.skipped (codes "item_removed") (codes "item is removed")
process min_interval now since kind res (found ItemStatus.login_required last) =
    needs_reauth_end (codes "login_required")
process min_interval now since kind res (found ItemStatus.pending_expiration last) =
    needs_reauth_end (codes "pending_expiration")
process min_interval now since kind res (found ItemStatus.permission_revoked last) =
    needs_reauth_end (codes "permission_revoked")
process min_interval now since kind res (found ItemStatus.active last) =
    debounce min_interval now since kind last (ending res)
process min_interval now since kind res (found ItemStatus.error last) =
    debounce min_interval now since kind last (ending res)

-- The follow-ups counted per item.
abbrev pub FollowUps : Type 0
FollowUps = List (Text × ℕ)

abbrev pub or_zero : Option ℕ → ℕ
or_zero none = 0
or_zero (some n) = n

-- `retryNotReady`: the wait before the next follow-up, or none after the last.
unfoldable pub retry_not_ready : List ℕ → Text → FollowUps → Option ℕ × FollowUps
retry_not_ready delays item_id m =
    let attempt = or_zero (lookup item_id m) in
    if leb (length delays) attempt
    then (none, m)
    else (get_elem? delays attempt, assign item_id (suc attempt) m)
