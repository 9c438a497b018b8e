-- ===== src/Plaidsync/Jobs/Steps.antt =====
-- The operations of plaid-backend-golang/internal/store/jobs.go and queue.go as a relation, and
-- the stamps of a job.
use money_insighter.Prelude.{
  ℕ, ◌≡◌, refl, Bool, true, ◌&&◌, ◌||◌, Option, none, some, [], ◌∷◌, ◌++◌, Text, if◌then◌else◌,
  if-elim, arith, ◌==◌, is_empty, text_eq, All, All-append,
}
use money_insighter.Plaidsync.Types.{JobKind, JobState, is_terminal}
use money_insighter.Plaidsync.Jobs.{
  Job, Jobs, JobError, Answer, answered, refused, normalize_uuid, find_job, touch, affected,
  is_queued, is_running, new_job, create_job, guarded, explain, set_running, start_id, start_job,
  set_finished, finish_id, finish_job, oldest, claim_at, claim_job, requeue_running,
}

-- What the store does to the table, one operation at a time.
pub data Step : Jobs → Jobs → Type 0 where
  create :
      {jobs : Jobs} (exists : Text → Bool) (id : Text) (now : ℕ) (item_id : Text) (kind : JobKind)
      → Step jobs (create_job exists id now item_id kind jobs).1
  start : {jobs : Jobs} (now : ℕ) (raw : Text) → Step jobs (start_job now raw jobs).1
  finish :
      {jobs : Jobs} (now : ℕ) (raw : Text) (state : JobState) (code message : Option Text)
      → Step jobs (finish_job now raw state code message jobs).1
  claim : {jobs : Jobs} (now : ℕ) → Step jobs (claim_job now jobs).1
  requeue : {jobs : Jobs} → Step jobs (requeue_running jobs).1

pub data Steps : Jobs → Jobs → Type 0 where
  stay : {jobs : Jobs} → Steps jobs jobs
  next : {a b c : Jobs} → Step a b → Steps b c → Steps a c

-- The stamps of a job in each state.
abbrev pub HasStamps : JobState → Option ℕ → Option ℕ → Type 0
HasStamps JobState.queued started finished = (started ≡ none) × (finished ≡ none)
HasStamps JobState.running started finished = ((t : ℕ) × (started ≡ some t)) × (finished ≡ none)
HasStamps _ started finished = (t : ℕ) × (finished ≡ some t)

abbrev pub IsStamped : Job → Type 0
IsStamped j = HasStamps j.state j.started_at j.finished_at

touch-All :
    (P : Job → Type 0) (p : Job → Bool) (f : Job → Job)
    → ((j : Job) → p j ≡ true → P j → P (f j))
    → (jobs : Jobs) → All P jobs
    → All P (touch p f jobs)
unfolding touch
touch-All P p f step [] h = tt
touch-All P p f step (j ∷ jobs) (h, hs) =
    (if-elim P (p j) (f j) j (λ t. step j t h) (λ _. h), touch-All P p f step jobs hs)

guarded-All :
    (P : Job → Type 0) (id : Text) (p : Job → Bool) (f : Job → Job)
    → ((j : Job) → p j ≡ true → P j → P (f j))
    → (jobs : Jobs) → All P jobs
    → All P (guarded id p f jobs).1
guarded-All P id p f step jobs h =
    if-elim (λ (r : Option JobError × Jobs). All P r.1) (affected p jobs == 0)
      (some (explain (find_job id jobs)), jobs) (none, touch p f jobs) (λ _. h)
      (λ _. touch-All P p f step jobs h)

running-IsStamped :
    (now : ℕ) (j : Job) → is_queued j.state ≡ true → IsStamped j → IsStamped (set_running now j)
running-IsStamped now j q h = go j.state q h
  where
    go :
        (s : JobState)
        → is_queued s ≡ true
        → HasStamps s j.started_at j.finished_at
        → ((t : ℕ) × (some now ≡ some t)) × (j.finished_at ≡ none)
    go JobState.queued q (a, b) = ((now, refl), b)
    go JobState.running q h = absurd (cc)
    go JobState.succeeded q h = absurd (cc)
    go JobState.failed q h = absurd (cc)
    go JobState.skipped q h = absurd (cc)

finished-stamps :
    (now : ℕ) (s : JobState) (started : Option ℕ)
    → is_terminal s ≡ true
    → HasStamps s started (some now)
finished-stamps now JobState.queued a t = absurd (cc)
finished-stamps now JobState.running a t = absurd (cc)
finished-stamps now JobState.succeeded a t = (now, refl)
finished-stamps now JobState.failed a t = (now, refl)
finished-stamps now JobState.skipped a t = (now, refl)

requeued-stamps :
    (j : Job)
    → is_running j.state ≡ true
    → IsStamped j
    → IsStamped (record j { state = JobState.queued; started_at = none })
requeued-stamps j r h = go j.state r h
  where
    go :
        (s : JobState)
        → is_running s ≡ true
        → HasStamps s j.started_at j.finished_at
        → HasStamps JobState.queued none j.finished_at
    go JobState.queued q h = absurd (cc)
    go JobState.running q (a, b) = (refl, b)
    go JobState.succeeded q h = absurd (cc)
    go JobState.failed q h = absurd (cc)
    go JobState.skipped q h = absurd (cc)

module _ (P : Job → Type 0)
    (made : (id : Text) (now : ℕ) (item_id : Text) (kind : JobKind)
      → P (new_job id now item_id kind))
    (ran : (now : ℕ) (j : Job) → is_queued j.state ≡ true → P j → P (set_running now j))
    (ended : (now : ℕ) (s : JobState) (code message : Option Text) (j : Job)
      → is_terminal s ≡ true
      → P j
      → P (set_finished now s code message j))
    (again : (j : Job)
      → is_running j.state ≡ true
      → P j
      → P (record j { state = JobState.queued; started_at = none })) where
  start-All :
      (now : ℕ) (id : Option Text) (jobs : Jobs) → All P jobs → All P (start_id now id jobs).1
  start-All now none jobs h = h
  start-All now (some id) jobs h =
      guarded-All P id (λ j. text_eq j.job_id id && is_queued j.state) (set_running now)
        (λ j t. ran now j (ground arith)) jobs h

  finish-All :
      (now : ℕ) (s : JobState) (code message id : Option Text) (jobs : Jobs)
      → is_terminal s ≡ true
      → All P jobs
      → All P (finish_id now s code message id jobs).1
  finish-All now s code message none jobs t h = h
  finish-All now s code message (some id) jobs t h =
      guarded-All P id (λ j. text_eq j.job_id id && (is_queued j.state || is_running j.state))
        (set_finished now s code message) (λ j _. ended now s code message j t) jobs h

  claim-All : (now : ℕ) (o : Option Job) (jobs : Jobs) → All P jobs → All P (claim_at now o jobs).1
  claim-All now none jobs h = h
  claim-All now (some j) jobs h =
      touch-All P (λ k. text_eq k.job_id j.job_id && is_queued k.state) (set_running now)
        (λ k t. ran now k (ground arith)) jobs h

  Step-All : (a b : Jobs) → Step a b → All P a → All P b
  unfolding create_job start_job finish_job claim_job requeue_running
  Step-All a b (create exists id now item_id kind) h =
      if-elim (λ (r : Answer × Jobs). All P r.1) (is_empty item_id) (refused JobError.empty_item, a)
        (if exists item_id
          then (answered (new_job id now item_id kind), a ++ new_job id now item_id kind ∷ [])
          else (refused JobError.missing, a))
        (λ _. h)
        (λ _.
          if-elim (λ (r : Answer × Jobs). All P r.1) (exists item_id)
            (answered (new_job id now item_id kind), a ++ new_job id now item_id kind ∷ [])
            (refused JobError.missing, a) (λ _. All-append P a _ h (made id now item_id kind, tt))
            (λ _. h))
  Step-All a b (start now raw) h = start-All now (normalize_uuid raw) a h
  Step-All a b (finish now raw s code message) h =
      if-elim (λ (r : Option JobError × Jobs). All P r.1) (is_terminal s)
        (finish_id now s code message (normalize_uuid raw) a) (some (JobError.not_terminal s), a)
        (λ t. finish-All now s code message (normalize_uuid raw) a t h) (λ _. h)
  Step-All a b (claim now) h = claim-All now (oldest (λ j. is_queued j.state) a) a h
  Step-All a b requeue h =
      touch-All P (λ j. is_running j.state)
        (λ j. record j { state = JobState.queued; started_at = none }) again a h

-- The operations of the queue keep each job's stamps in agreement with its state: a queued job has
-- none, a running one has its start and no end, a finished one has its end.
pub Steps-IsStamped : (a b : Jobs) → Steps a b → All IsStamped a → All IsStamped b
Steps-IsStamped a b stay h = h
Steps-IsStamped a c (next {b = b} one rest) h = Steps-IsStamped b c rest (
    Step-All IsStamped (λ id now item kind. (refl, refl)) running-IsStamped
      (λ now s code message j t _. finished-stamps now s j.started_at t) requeued-stamps a b one h)
