-- ===== src/Plaidsync/Paginate/Attempts.antt =====
-- How many attempts are made, and when the pagination gives up.
use money_insighter.Prelude.{
  ℕ, zero, suc, ◌+◌, ◌≤◌, ◌≡◌, ◌≢◌, refl, arith, Bool, true, false, ◌||◌, not, ◌⊎◌, inl, inr,
  Option, none, some, Text, ◌==◌, ==-eq, if-elim,
}
use mathlib.Core.Path.{subst₂}
use money_insighter.Plaidsync.Errors.{GoError, Class, retryable, classify}
use money_insighter.Plaidsync.Paginate.{
  Client, Pagination, fresh, done, broke, Attempt, run_pages, SyncConfig, gave_up, Sleep, Paged,
  after_sleep, after_attempt, attempts, paginate, backoff, is_retryable,
}

-- Why attempt `a` was the last one.
pub record GaveUp (cfg : SyncConfig) (sleep : Sleep) (jitter : ℕ → ℕ) (err : GoError) (a : ℕ)
    : Type 0 where
  pub tried : 1 ≤ a
  pub bounded : a ≤ cfg.max_attempts
  pub reason :
      (classify err ≢ retryable)
      ⊎ ((a ≡ cfg.max_attempts) ⊎ (sleep a (backoff cfg jitter a) ≡ some err))

is_retryable-false : (c : Class) → not (is_retryable c) ≡ true → c ≢ retryable
is_retryable-false c h e = ground arith

-- The error of the attempt itself.
last_reason :
    (cfg : SyncConfig) (sleep : Sleep) (jitter : ℕ → ℕ) (err : GoError) (a : ℕ)
    → (not (is_retryable (classify err)) || (a == cfg.max_attempts)) ≡ true
    → (classify err ≢ retryable)
      ⊎ ((a ≡ cfg.max_attempts) ⊎ (sleep a (backoff cfg jitter a) ≡ some err))
last_reason cfg sleep jitter err a h = go (is_retryable (classify err)) refl
  where
    go :
        (b : Bool)
        → is_retryable (classify err) ≡ b
        → (classify err ≢ retryable)
          ⊎ ((a ≡ cfg.max_attempts) ⊎ (sleep a (backoff cfg jitter a) ≡ some err))
    go true e = inr (inl (==-eq a cfg.max_attempts (rw e at h)))
    go false e = inl (is_retryable-false (classify err) (rw e))

module _ (cfg : SyncConfig) (cl : Client) (sleep : Sleep) (jitter : ℕ → ℕ) (orig : Text) where
  abbrev Explained : Option Paged → Type 0
  Explained r =
      (pg : Pagination) (err : GoError) (a n' : ℕ)
      → r ≡ some (gave_up pg err, a, n')
      → GaveUp cfg sleep jitter err a

  after_attempt-Explained :
      (attempt : ℕ) (again : ℕ → Option Paged) (r : Option Attempt)
      → 1 ≤ attempt
      → attempt ≤ cfg.max_attempts
      → ((m : ℕ) → Explained (again m))
      → Explained (after_attempt cfg sleep jitter again attempt r)
  after_attempt-Explained attempt again none low high ih = λ pg err a n' h. cc h
  after_attempt-Explained attempt again (some (done, pg0, m)) low high ih = λ pg err a n' h. cc h
  after_attempt-Explained attempt again (some (broke err0, pg0, m)) low high ih =
      if-elim Explained (not (is_retryable (classify err0)) || (attempt == cfg.max_attempts)) _ _
        (λ stop pg err a n' h. subst₂ (GaveUp cfg sleep jitter) (cc h) (cc h) (record {
          tried = low;
          bounded = high;
          reason = last_reason cfg sleep jitter err0 attempt stop;
        }))
        (λ _. slept (sleep attempt (backoff cfg jitter attempt)) refl)
    where
      slept :
          (o : Option GoError)
          → sleep attempt (backoff cfg jitter attempt) ≡ o
          → Explained (after_sleep again pg0 attempt m o)
      slept none e = ih m
      slept (some err') e = λ pg err a n' h.
          subst₂ (GaveUp cfg sleep jitter) (cc h) (cc h)
            (record { tried = low; bounded = high; reason = inr (inr e) })

  attempts-Explained :
      (fuel left attempt n : ℕ)
      → 1 ≤ attempt
      → attempt + left ≡ suc cfg.max_attempts
      → Explained (attempts cfg cl sleep jitter fuel orig left attempt n)
  unfolding attempts
  attempts-Explained fuel zero attempt n low sum = λ pg err a n' h. cc h
  attempts-Explained fuel (suc left) attempt n low sum =
      after_attempt-Explained attempt (attempts cfg cl sleep jitter fuel orig left (suc attempt))
        (run_pages cl fuel n orig fresh) low (omega arith)
        (λ m. attempts-Explained fuel left (suc attempt) m (omega arith) (omega arith))

  -- When `paginate` gives up, it made between 1 and MaxAttempts attempts, and its error is not
  -- retryable, or that was the last attempt, or the context ended during the wait.
  pub paginate-GaveUp :
      (fuel : ℕ) (pg : Pagination) (err : GoError) (a n' : ℕ)
      → paginate cfg cl sleep jitter fuel orig ≡ some (gave_up pg err, a, n')
      → GaveUp cfg sleep jitter err a
  unfolding paginate
  paginate-GaveUp fuel = attempts-Explained fuel cfg.max_attempts 1 0 (omega arith) (omega arith)
