-- ===== src/Plaidsync/Jobs/Claimed.antt =====
-- The table after `ClaimJob` of plaid-backend-golang/internal/store/queue.go.
use money_insighter.Prelude.{
  ℕ, ◌≡◌, ◌⊎◌, inl, inr, refl, sym, ap, subst, ◌∙◌, Bool, true, false, ◌&&◌, Option, none, some, [],
  ◌∷◌, Text, if◌then◌else◌, arith, All, text_eq,
}
use money_insighter.Plaidsync.Jobs.{
  Job, Jobs, is_queued, set_running, touch, oldest, claim_at, claim_job,
}
use money_insighter.Plaidsync.Jobs.Claim.{Among, Searched, IsOldest, oldest-Searched}

-- No two rows have one id, the primary key.
abbrev pub DistinctIds : Jobs → Type 0
DistinctIds [] = Unit
DistinctIds (j ∷ jobs) = All (λ k. text_eq k.job_id j.job_id ≡ false) jobs × DistinctIds jobs

-- Each row is as it was, but the rows of the id are running since `now`.
abbrev pub OnlyRuns : ℕ → Text → Jobs → Jobs → Type 0
OnlyRuns now id [] [] = Unit
OnlyRuns now id [] (k ∷ after) = ⊥
OnlyRuns now id (j ∷ jobs) [] = ⊥
OnlyRuns now id (j ∷ jobs) (k ∷ after) =
    (k ≡ (if text_eq j.job_id id then set_running now j else j)) × OnlyRuns now id jobs after

Among-id :
    (q j : Job) (jobs : Jobs)
    → All (λ k. text_eq k.job_id j.job_id ≡ false) jobs
    → Among q jobs
    → text_eq q.job_id j.job_id ≡ false
Among-id q j [] off h = absurd h
Among-id q j (k ∷ jobs) (off, rest) (inl same) =
    ap (λ (x : Job). text_eq x.job_id j.job_id) same ∙ off
Among-id q j (k ∷ jobs) (off, rest) (inr later) = Among-id q j jobs rest later

text_eq_sym : (s t : Text) → text_eq s t ≡ text_eq t s
unfolding text_eq
text_eq_sym [] [] = refl
text_eq_sym [] (d ∷ t) = refl
text_eq_sym (c ∷ s) [] = refl
text_eq_sym (c ∷ s) (d ∷ t) = ground (arith, text_eq_sym s t)

abbrev picked : Job → Job → Bool
picked q k = text_eq k.job_id q.job_id && is_queued k.state

-- Where the id does not occur, nothing changes.
absent-OnlyRuns :
    (now : ℕ) (q : Job) (jobs : Jobs)
    → All (λ k. text_eq k.job_id q.job_id ≡ false) jobs
    → OnlyRuns now q.job_id jobs (touch (picked q) (set_running now) jobs)
unfolding touch
absent-OnlyRuns now q [] h = tt
absent-OnlyRuns now q (k ∷ jobs) (off, rest) = (
  ap (λ b. if b && is_queued k.state then set_running now k else k) off
      ∙ sym (ap (λ b. if b then set_running now k else k) off),
  absent-OnlyRuns now q jobs rest,
)

touch-OnlyRuns :
    (now : ℕ) (q : Job) (jobs : Jobs)
    → DistinctIds jobs
    → is_queued q.state ≡ true
    → Among q jobs
    → OnlyRuns now q.job_id jobs (touch (picked q) (set_running now) jobs)
unfolding touch
touch-OnlyRuns now q [] distinct on h = absurd h
touch-OnlyRuns now q (j ∷ jobs) (off, distinct) on (inl same) = (
  ap (λ b. if text_eq j.job_id q.job_id && b then set_running now j else j)
        (ap (λ (x : Job). is_queued x.state) (sym same) ∙ on)
      ∙ ap (λ b. if b then set_running now j else j) (and_true (text_eq j.job_id q.job_id)),
  absent-OnlyRuns now q jobs
      (subst (λ (x : Job). All (λ k. text_eq k.job_id x.job_id ≡ false) jobs) (sym same) off),
)
  where
    and_true : (b : Bool) → (b && true) ≡ b
    and_true true = refl
    and_true false = refl
touch-OnlyRuns now q (j ∷ jobs) (off, distinct) on (inr later) =
    let apart : text_eq j.job_id q.job_id ≡ false =
      text_eq_sym j.job_id q.job_id ∙ Among-id q j jobs off later in
    (
      ap (λ b. if b && is_queued j.state then set_running now j else j) apart
          ∙ sym (ap (λ b. if b then set_running now j else j) apart),
      touch-OnlyRuns now q jobs distinct on later,
    )

-- In a table whose ids are distinct a claim either finds no queued job and leaves the table, or it
-- takes a queued job of the table that no other queued job precedes in creation time and id, hands it
-- out as running, and leaves the table with exactly the row of that id running since now and every
-- other row as it was.
pub claim_job-cases :
    (now : ℕ) (jobs : Jobs)
    → DistinctIds jobs
    → ((claim_job now jobs ≡ (none, jobs)) × All (λ j. is_queued j.state ≡ false) jobs)
      ⊎ ((q : Job) × IsOldest (λ j. is_queued j.state) jobs q
          × ((claim_job now jobs).0 ≡ some (set_running now q))
          × OnlyRuns now q.job_id jobs (claim_job now jobs).1)
unfolding claim_job
claim_job-cases now jobs distinct =
    go (oldest (λ j. is_queued j.state) jobs) (oldest-Searched (λ j. is_queued j.state) jobs)
  where
    go :
        (o : Option Job)
        → Searched (λ j. is_queued j.state) jobs o
        → ((claim_at now o jobs ≡ (none, jobs)) × All (λ j. is_queued j.state ≡ false) jobs)
          ⊎ ((q : Job) × IsOldest (λ j. is_queued j.state) jobs q
              × ((claim_at now o jobs).0 ≡ some (set_running now q))
              × OnlyRuns now q.job_id jobs (claim_at now o jobs).1)
    go none h = inl (refl, h)
    go (some q) h = inr (q, h, refl, touch-OnlyRuns now q jobs distinct h.passes h.among)
