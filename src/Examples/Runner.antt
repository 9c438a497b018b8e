-- ===== src/Examples/Runner.antt =====
-- Runs of plaid-backend-golang's job runner.
use money_insighter.Prelude.{ℕ, ◌≡◌, refl, Bool, true, false, some, List, [], ◌∷◌, Text, codes}
use money_insighter.Plaidsync.Types.{ItemStatus, JobKind}
use money_insighter.Plaidsync.Jobs.{Job, Jobs, new_job, queued_job}
use money_insighter.Plaidsync.Jobs
use money_insighter.Plaidsync.Jobs.Claim.{IsOldest}
use money_insighter.Plaidsync.Engine.{start_vars}
use money_insighter.Plaidsync.Runner
use money_insighter.Plaidsync.Runner.{
  enqueue, queued_as, process, found, FollowUps, or_zero, retry_not_ready,
}
use money_insighter.Plaidsync.Runner.Decisions.{waits, Fair, process-Fair, enqueue-again}

abbrev every : Text → Bool
every id = true

abbrev first_job : Job
first_job = new_job (codes "j1") 5 (codes "i1") JobKind.webhook

enqueue-again_example :
    (q : Job) × IsOldest (waits (codes "i1")) (first_job ∷ []) q
    × (enqueue
          (some ItemStatus.active)
          every
          (codes "j2")
          6
          (codes "i1")
          JobKind.manual
          (first_job ∷ [])
        ≡ (queued_as q, first_job ∷ [], false))
unfolding Runner.enqueue Jobs.queued_job
enqueue-again_example =
    enqueue-again every (codes "j1") 5 (codes "i1") JobKind.webhook [] first_job (first_job ∷ [])
      true (some ItemStatus.active) (codes "j2") 6 JobKind.manual refl

process-Fair_example : Fair (start_vars (codes "i1") JobKind.manual).res (
    process 60 100
      (codes "too soon")
      JobKind.manual
      (start_vars (codes "i1") JobKind.manual).res
      (found ItemStatus.active (some 90)))
process-Fair_example =
    process-Fair 60 100 (codes "too soon") JobKind.manual
      (start_vars (codes "i1") JobKind.manual).res (found ItemStatus.active (some 90))

abbrev delays : List ℕ
delays = 15 ∷ 30 ∷ []

abbrev one_left : FollowUps
one_left = (codes "i1", 1) ∷ []
