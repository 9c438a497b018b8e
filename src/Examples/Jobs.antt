-- ===== src/Examples/Jobs.antt =====
-- Runs of plaid-backend-golang's job queue.
use money_insighter.Prelude.{◌≡◌, ◌⊎◌, refl, false, none, some, [], ◌∷◌, codes, All, text_eq}
use money_insighter.Plaidsync.Types.{JobKind, JobState}
use money_insighter.Plaidsync.Jobs
use money_insighter.Plaidsync.Jobs.{
  Job, Jobs, find_job, new_job, set_running, set_finished, create_job, is_queued, claim_job,
  requeue_running,
}
use money_insighter.Plaidsync.Jobs.Steps.{
  claim, requeue, Steps, stay, next, IsStamped, Steps-IsStamped,
}
use money_insighter.Plaidsync.Jobs.Once.{Steps-find_job}
use money_insighter.Plaidsync.Jobs.Claim.{IsOldest}
use money_insighter.Plaidsync.Jobs.Claimed.{DistinctIds, OnlyRuns, claim_job-cases}

abbrev waiting : Job
waiting = new_job (codes "j1") 5 (codes "i1") JobKind.manual

abbrev older : Job
older = new_job (codes "j2") 4 (codes "i2") JobKind.webhook

abbrev finished : Job
finished =
    set_finished 9 JobState.succeeded none none
      (set_running 8 (new_job (codes "j0") 7 (codes "i1") JobKind.initial))

abbrev queue : Jobs
queue = finished ∷ waiting ∷ older ∷ []

abbrev claimed : Jobs
claimed = (claim_job 10 queue).1

abbrev restarted : Jobs
restarted = (requeue_running claimed).1

abbrev path : Steps queue restarted
path = next (claim 10) (next requeue stay)

Steps-IsStamped_example : All IsStamped restarted
Steps-IsStamped_example =
    Steps-IsStamped queue restarted path ((9, refl), ((refl, refl), ((refl, refl), tt)))

Steps-find_job_example : find_job (codes "j0") restarted ≡ some finished
unfolding Jobs.find_job text_eq
Steps-find_job_example = Steps-find_job (codes "j0") finished refl queue restarted path refl

distinct : DistinctIds queue
unfolding text_eq
distinct = ((refl, (refl, tt)), ((refl, tt), (tt, tt)))

claim_job-cases_example :
    ((claim_job 10 queue ≡ (none, queue)) × All (λ j. is_queued j.state ≡ false) queue)
    ⊎ ((q : Job) × IsOldest (λ j. is_queued j.state) queue q
        × ((claim_job 10 queue).0 ≡ some (set_running 10 q))
        × OnlyRuns 10 q.job_id queue (claim_job 10 queue).1)
claim_job-cases_example = claim_job-cases 10 queue distinct
