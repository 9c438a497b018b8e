-- ===== src/Plaidsync/Jobs/Once.antt =====
-- Finished jobs under the operations of plaid-backend-golang/internal/store/jobs.go and queue.go.
use money_insighter.Prelude.{
  ℕ, ◌≡◌, ◌⊎◌, inl, inr, refl, ap, ◌∙◌, sym, Bool, true, false, ◌&&◌, ◌||◌, Option, none, some, [],
  ◌∷◌, ◌++◌, Text, if◌then◌else◌, if-elim, arith, ◌==◌, is_empty, text_eq,
}
use money_insighter.Plaidsync.Types.{JobState, is_terminal}
use money_insighter.Plaidsync.Jobs.{
  Job, Jobs, JobError, Answer, answered, refused, normalize_uuid, find_job, touch, affected,
  is_queued, is_running, new_job, create_job, guarded, explain, set_running, start_id, start_job,
  set_finished, finish_id, finish_job, oldest, claim_at, claim_job, requeue_running,
}
use money_insighter.Plaidsync.Jobs.Steps.{
  Step, create, start, finish, claim, requeue, Steps, stay, next,
}

abbrev Found : Text → Job → Jobs → Job → Type 0
Found id k jobs j =
    ((text_eq k.job_id id ≡ true) × (k ≡ j))
    ⊎ ((text_eq k.job_id id ≡ false) × (find_job id jobs ≡ some j))

find-Found :
    (id : Text) (k : Job) (jobs : Jobs) (j : Job)
    → find_job id (k ∷ jobs) ≡ some j
    → Found id k jobs j
unfolding find_job
find-Found id k jobs j =
    if-elim (λ r. r ≡ some j → Found id k jobs j) (text_eq k.job_id id) (some k) (find_job id jobs)
      (λ t h. let same : k ≡ j = cc in inl (t, same)) (λ t h. inr (t, h))

find-here :
    (id : Text) (k : Job) (jobs : Jobs)
    → text_eq k.job_id id ≡ true
    → find_job id (k ∷ jobs) ≡ some k
unfolding find_job
find-here id k jobs t = ap (λ (b : Bool). if b then some k else find_job id jobs) t

find-there :
    (id : Text) (k : Job) (jobs : Jobs)
    → text_eq k.job_id id ≡ false
    → find_job id (k ∷ jobs) ≡ find_job id jobs
unfolding find_job
find-there id k jobs t = ap (λ (b : Bool). if b then some k else find_job id jobs) t

find-nil : (id : Text) (j : Job) → find_job id [] ≡ some j → ⊥
unfolding find_job
find-nil id j h = cc

true_ne_false : true ≡ false → ⊥
true_ne_false h = cc

append-find :
    (id : Text) (jobs more : Jobs) (j : Job)
    → find_job id jobs ≡ some j
    → find_job id (jobs ++ more) ≡ some j
append-find id [] more j h = absurd (find-nil id j h)
append-find id (k ∷ jobs) more j h = elim (find-Found id k jobs j h) [
  | inl (t, same) ↦ find-here id k (jobs ++ more) t ∙ ap some same
  | inr (t, later) ↦ find-there id k (jobs ++ more) t ∙ append-find id jobs more j later
]

touch-find :
    (id : Text) (p : Job → Bool) (f : Job → Job) (jobs : Jobs) (j : Job)
    → ((k : Job) → (f k).job_id ≡ k.job_id)
    → p j ≡ false
    → find_job id jobs ≡ some j
    → find_job id (touch p f jobs) ≡ some j
unfolding touch
touch-find id p f [] j same off h = h
touch-find id p f (k ∷ jobs) j same off h = elim (find-Found id k jobs j h) [
  | inl (t, here) ↦
      if-elim (λ x. find_job id (x ∷ touch p f jobs) ≡ some j) (p k) (f k) k
        (λ on. absurd (true_ne_false (sym on ∙ (ap p here ∙ off))))
        (λ _. find-here id k (touch p f jobs) t ∙ ap some here)
  | inr (t, later) ↦
      if-elim (λ x. find_job id (x ∷ touch p f jobs) ≡ some j) (p k) (f k) k
        (λ _.
          find-there id (f k) (touch p f jobs) (ap (λ i. text_eq i id) (same k) ∙ t)
          ∙ touch-find id p f jobs j same off later)
        (λ _. find-there id k (touch p f jobs) t ∙ touch-find id p f jobs j same off later)
]

guarded-find :
    (key id : Text) (p : Job → Bool) (f : Job → Job) (jobs : Jobs) (j : Job)
    → ((k : Job) → (f k).job_id ≡ k.job_id)
    → p j ≡ false
    → find_job id jobs ≡ some j
    → find_job id (guarded key p f jobs).1 ≡ some j
guarded-find key id p f jobs j same off h =
    if-elim (λ (r : Option JobError × Jobs). find_job id r.1 ≡ some j) (affected p jobs == 0)
      (some (explain (find_job key jobs)), jobs) (none, touch p f jobs) (λ _. h)
      (λ _. touch-find id p f jobs j same off h)

terminal-closed :
    (s : JobState) → is_terminal s ≡ true → (is_queued s ≡ false) × (is_running s ≡ false)
terminal-closed JobState.queued t = absurd (cc)
terminal-closed JobState.running t = absurd (cc)
terminal-closed JobState.succeeded t = (refl, refl)
terminal-closed JobState.failed t = (refl, refl)
terminal-closed JobState.skipped t = (refl, refl)

module _ (id : Text) (j : Job) (ended : is_terminal j.state ≡ true) where
  start-find :
      (now : ℕ) (key : Option Text) (jobs : Jobs)
      → find_job id jobs ≡ some j
      → find_job id (start_id now key jobs).1 ≡ some j
  start-find now none jobs h = h
  start-find now (some key) jobs h =
      let (q, r) = terminal-closed j.state ended in
      guarded-find key id (λ k. text_eq k.job_id key && is_queued k.state) (set_running now) jobs j
        (λ k. refl) (ground (arith, q)) h

  finish-find :
      (now : ℕ) (s : JobState) (code message key : Option Text) (jobs : Jobs)
      → find_job id jobs ≡ some j
      → find_job id (finish_id now s code message key jobs).1 ≡ some j
  finish-find now s code message none jobs h = h
  finish-find now s code message (some key) jobs h =
      let (q, r) = terminal-closed j.state ended in
      guarded-find key id (λ k. text_eq k.job_id key && (is_queued k.state || is_running k.state))
        (set_finished now s code message) jobs j (λ k. refl) (ground (arith, q, r)) h

  claim-find :
      (now : ℕ) (o : Option Job) (jobs : Jobs)
      → find_job id jobs ≡ some j
      → find_job id (claim_at now o jobs).1 ≡ some j
  claim-find now none jobs h = h
  claim-find now (some x) jobs h =
      let (q, r) = terminal-closed j.state ended in
      touch-find id (λ k. text_eq k.job_id x.job_id && is_queued k.state) (set_running now) jobs j
        (λ k. refl) (ground (arith, q)) h

  Step-find : (a b : Jobs) → Step a b → find_job id a ≡ some j → find_job id b ≡ some j
  unfolding create_job start_job finish_job claim_job requeue_running
  Step-find a b (create exists new now item_id kind) h =
      if-elim (λ (r : Answer × Jobs). find_job id r.1 ≡ some j) (is_empty item_id)
        (refused JobError.empty_item, a)
        (if exists item_id
          then (answered (new_job new now item_id kind), a ++ new_job new now item_id kind ∷ [])
          else (refused JobError.missing, a))
        (λ _. h)
        (λ _.
          if-elim (λ (r : Answer × Jobs). find_job id r.1 ≡ some j) (exists item_id)
            (answered (new_job new now item_id kind), a ++ new_job new now item_id kind ∷ [])
            (refused JobError.missing, a) (λ _. append-find id a _ j h) (λ _. h))
  Step-find a b (start now raw) h = start-find now (normalize_uuid raw) a h
  Step-find a b (finish now raw s code message) h =
      if-elim (λ (r : Option JobError × Jobs). find_job id r.1 ≡ some j) (is_terminal s)
        (finish_id now s code message (normalize_uuid raw) a) (some (JobError.not_terminal s), a)
        (λ _. finish-find now s code message (normalize_uuid raw) a h) (λ _. h)
  Step-find a b (claim now) h = claim-find now (oldest (λ k. is_queued k.state) a) a h
  Step-find a b requeue h =
      touch-find id (λ k. is_running k.state)
        (λ k. record k { state = JobState.queued; started_at = none }) a j (λ k. refl)
        ((terminal-closed j.state ended).1) h

  -- A finished job stays as it is: no sequence of the queue's operations changes its row, its end
  -- state, its stamps or its error.
  pub Steps-find_job : (a b : Jobs) → Steps a b → find_job id a ≡ some j → find_job id b ≡ some j
  Steps-find_job a b stay h = h
  Steps-find_job a c (next {b = b} one rest) h = Steps-find_job b c rest (Step-find a b one h)
