-- ===== src/Plaidsync/Jobs.antt =====
-- The job queue: plaid-backend-golang/internal/store/jobs.go, queue.go and uuid.go. The table is a list
-- of rows, the database clock and a fresh id are arguments, and a failing database is left out.
pub mod Steps
pub mod Once
pub mod Claim
pub mod Claimed
use money_insighter.Prelude.{
  ℕ, suc, Bool, true, false, ◌&&◌, ◌||◌, Option, none, some, List, [], ◌∷◌, ◌++◌, Text, length, ltb,
  leb, ◌==◌, if◌then◌else◌, is_empty, text_eq, text_le, to_lower,
}
use money_insighter.Plaidsync.Types.{JobKind, JobState, is_terminal}

pub record Job : Type 0 where
  pub job_id : Text
  pub item_id : Text
  pub kind : JobKind
  pub state : JobState
  pub created_at : ℕ
  pub started_at : Option ℕ
  pub finished_at : Option ℕ
  pub error_code : Option Text
  pub error_message : Option Text

abbrev pub Jobs : Type 0
Jobs = List Job

pub data JobError : Type 0 where
  empty_item malformed missing : JobError
  wrong_state not_terminal : JobState → JobError

-- `wrong_state` where the code answers ErrJobState, `missing` and `malformed` where ErrNotFound.
pub data Answer : Type 0 where
  answered : Job → Answer
  refused : JobError → Answer

abbrev pub is_dash : ℕ → Bool
is_dash i = i == 8 || (i == 13 || (i == 18 || (i == 23)))

abbrev pub is_hex : ℕ → Bool
is_hex c = (leb b'0' c && leb c b'9') || ((leb b'a' c && leb c b'f') || (leb b'A' c && leb c b'F'))

unfoldable pub is_uuid_from : ℕ → Text → Bool
is_uuid_from i [] = true
is_uuid_from i (c ∷ s) = (if is_dash i then c == b'-' else is_hex c) && is_uuid_from (suc i) s

unfoldable pub normalize_uuid : Text → Option Text
unfolding is_uuid_from
normalize_uuid s = if (length s == 36) && is_uuid_from 0 s then some (to_lower s) else none

-- The row with an id.
unfoldable pub find_job : Text → Jobs → Option Job
find_job id [] = none
find_job id (j ∷ jobs) = if text_eq j.job_id id then some j else find_job id jobs

-- An UPDATE: the rows that pass the test, and the others as they were.
unfoldable pub touch : (Job → Bool) → (Job → Job) → Jobs → Jobs
touch p f [] = []
touch p f (j ∷ jobs) = (if p j then f j else j) ∷ touch p f jobs

unfoldable pub affected : (Job → Bool) → Jobs → ℕ
affected p [] = 0
affected p (j ∷ jobs) = let rest = affected p jobs in if p j then suc rest else rest

abbrev pub is_queued : JobState → Bool
is_queued JobState.queued = true
is_queued _ = false

abbrev pub is_running : JobState → Bool
is_running JobState.running = true
is_running _ = false

abbrev pub new_job : Text → ℕ → Text → JobKind → Job
new_job id now item_id kind = record {
  job_id = id;
  item_id = item_id;
  kind = kind;
  state = JobState.queued;
  created_at = now;
  started_at = none;
  finished_at = none;
  error_code = none;
  error_message = none;
}

-- `CreateJob`; `exists` is the foreign key's test. The kinds are those that it accepts.
unfoldable pub create_job : (Text → Bool) → Text → ℕ → Text → JobKind → Jobs → Answer × Jobs
create_job exists id now item_id kind jobs =
    if is_empty item_id
    then (refused JobError.empty_item, jobs)
    else if exists item_id
    then (answered (new_job id now item_id kind), jobs ++ new_job id now item_id kind ∷ [])
    else (refused JobError.missing, jobs)

-- `explainJobMiss`
abbrev pub explain : Option Job → JobError
explain none = JobError.missing
explain (some j) = JobError.wrong_state j.state

-- The answer to an UPDATE of the job `id` under a guard on its state.
abbrev pub guarded : Text → (Job → Bool) → (Job → Job) → Jobs → Option JobError × Jobs
guarded id p f jobs =
    if affected p jobs == 0
    then (some (explain (find_job id jobs)), jobs)
    else (none, touch p f jobs)

abbrev pub set_running : ℕ → Job → Job
set_running now j = record j { state = JobState.running; started_at = some now }

abbrev pub start_id : ℕ → Option Text → Jobs → Option JobError × Jobs
start_id now none jobs = (some JobError.malformed, jobs)
start_id now (some id) jobs =
    guarded id (λ j. text_eq j.job_id id && is_queued j.state) (set_running now) jobs

-- `StartJob`
unfoldable pub start_job : ℕ → Text → Jobs → Option JobError × Jobs
unfolding normalize_uuid touch affected find_job
start_job now raw jobs = start_id now (normalize_uuid raw) jobs

abbrev pub set_finished : ℕ → JobState → Option Text → Option Text → Job → Job
set_finished now state code message j = record j {
  state = state;
  finished_at = some now;
  error_code = code;
  error_message = message;
}

abbrev pub finish_id :
    ℕ → JobState → Option Text → Option Text → Option Text → Jobs → Option JobError × Jobs
finish_id now state code message none jobs = (some JobError.malformed, jobs)
finish_id now state code message (some id) jobs =
    guarded id (λ j. text_eq j.job_id id && (is_queued j.state || is_running j.state))
      (set_finished now state code message) jobs

-- `FinishJob`
unfoldable pub finish_job :
    ℕ → Text → JobState → Option Text → Option Text → Jobs → Option JobError × Jobs
unfolding normalize_uuid touch affected find_job
finish_job now raw state code message jobs =
    if is_terminal state
    then finish_id now state code message (normalize_uuid raw) jobs
    else (some (JobError.not_terminal state), jobs)

-- ORDER BY created_at, job_id
abbrev pub earlier : Job → Job → Bool
earlier a b =
    ltb a.created_at b.created_at || (a.created_at == b.created_at && text_le a.job_id b.job_id)

abbrev pub first_of : Job → Option Job → Job
first_of j none = j
first_of j (some k) = if earlier j k then j else k

-- The oldest of the jobs that pass a test.
unfoldable pub oldest : (Job → Bool) → Jobs → Option Job
oldest p [] = none
oldest p (j ∷ jobs) = let rest = oldest p jobs in if p j then some (first_of j rest) else rest

-- `job_id` is the key: the row that is updated is the one that was selected, which is queued.
abbrev pub claim_at : ℕ → Option Job → Jobs → Option Job × Jobs
claim_at now none jobs = (none, jobs)
claim_at now (some j) jobs = (
  some (set_running now j),
  touch (λ k. text_eq k.job_id j.job_id && is_queued k.state) (set_running now) jobs,
)

-- `ClaimJob`; none is ErrNotFound.
unfoldable pub claim_job : ℕ → Jobs → Option Job × Jobs
unfolding oldest touch
claim_job now jobs = claim_at now (oldest (λ j. is_queued j.state) jobs) jobs

-- `QueuedJob`
unfoldable pub queued_job : Text → Jobs → Option Job
unfolding oldest
queued_job item_id jobs = oldest (λ j. text_eq j.item_id item_id && is_queued j.state) jobs

-- `RequeueRunningJobs`
unfoldable pub requeue_running : Jobs → ℕ × Jobs
unfolding touch affected
requeue_running jobs = (
  affected (λ j. is_running j.state) jobs,
  touch (λ j. is_running j.state) (λ j. record j { state = JobState.queued; started_at = none })
      jobs,
)
