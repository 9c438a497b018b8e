-- ===== src/Plaidsync/Runner/Decisions.antt =====
-- The decisions of the runner: `Enqueue`, `process` and `retryNotReady`
-- of plaid-backend-golang/internal/jobs/runner.go.
use money_insighter.Prelude.{
  ℕ, suc, ◌≡◌, ◌≢◌, ◌<◌, ◌⊎◌, inl, inr, refl, sym, ap, subst, ◌∙◌, Bool, true, false, ◌&&◌, Option,
  none, some, List, [], ◌∷◌, ◌++◌, Text, length, get_elem?, leb, ltb, if◌then◌else◌, if-elim, arith,
  is_empty, lookup, assign, lookup-assign, text_eq, text_eq_refl, All-right,
}
use money_insighter.Plaidsync.Types.{ItemStatus, JobKind, JobState, is_terminal, SyncOutcome}
use money_insighter.Plaidsync.Runs.{Outcome}
use money_insighter.Plaidsync.Jobs.{
  Job, Jobs, JobError, Answer, answered, refused, new_job, is_queued, oldest, queued_job,
  create_job,
}
use money_insighter.Plaidsync.Jobs.Claim.{IsOldest, Searched, oldest-Searched}
use money_insighter.Plaidsync.Runner.{
  EnqueueError, queued_as, rejected, Enqueue, after_create, unless_queued, enqueue, Ending, ends,
  left_running, ending, ending_at, ItemLookup, found, lookup_failed, debounce, is_manual, too_soon,
  process, FollowUps, or_zero, retry_not_ready,
}

-- What an end of a job may be: a terminal state, succeeded only after a sync that succeeded, and
-- no end only after a sync that was canceled.
abbrev pub Fair : Outcome → Ending → Type 0
Fair res left_running = res.outcome ≡ SyncOutcome.canceled
Fair res (ends state code text) =
    (is_terminal state ≡ true)
    × ((state ≢ JobState.succeeded) ⊎ (res.outcome ≡ SyncOutcome.success))

ending_at-Fair :
    (res : Outcome) (out : SyncOutcome) → res.outcome ≡ out → Fair res (ending_at res out)
ending_at-Fair res SyncOutcome.success e = (refl, inr e)
ending_at-Fair res SyncOutcome.locked e = (refl, inl (λ h. cc))
ending_at-Fair res SyncOutcome.canceled e = e
ending_at-Fair res SyncOutcome.retryable_error e = (refl, inl (λ h. cc))
ending_at-Fair res SyncOutcome.needs_reauth e = (refl, inl (λ h. cc))
ending_at-Fair res SyncOutcome.fatal e = (refl, inl (λ h. cc))
ending_at-Fair res SyncOutcome.failure e = (refl, inl (λ h. cc))

module _ (min_interval now : ℕ) (since : Text) (kind : JobKind) (res : Outcome) where
  debounce-Fair :
      (last : Option ℕ) → Fair res (debounce min_interval now since kind last (ending res))
  unfolding ending
  debounce-Fair last =
      if-elim (Fair res) (is_manual kind && (ltb 0 min_interval && too_soon min_interval now last))
        _ (ending_at res res.outcome) (λ _. (refl, inl (λ h. cc)))
        (λ _. ending_at-Fair res res.outcome refl)

  -- However a claimed job is processed, it ends in a terminal state, which is succeeded only when
  -- its sync reported success, or it is left running and its sync was canceled.
  pub process-Fair : (item : ItemLookup) → Fair res (process min_interval now since kind res item)
  unfolding process
  process-Fair (lookup_failed e) = (refl, inl (λ h. cc))
  process-Fair (found ItemStatus.removed last) = (refl, inl (λ h. cc))
  process-Fair (found ItemStatus.login_required last) = (refl, inl (λ h. cc))
  process-Fair (found ItemStatus.pending_expiration last) = (refl, inl (λ h. cc))
  process-Fair (found ItemStatus.permission_revoked last) = (refl, inl (λ h. cc))
  process-Fair (found ItemStatus.active last) = debounce-Fair last
  process-Fair (found ItemStatus.error last) = debounce-Fair last

queued_job-new :
    (item_id : Text) (jobs : Jobs) (j : Job)
    → j.item_id ≡ item_id
    → is_queued j.state ≡ true
    → (q : Job) × (queued_job item_id (jobs ++ j ∷ []) ≡ some q)
unfolding queued_job
queued_job-new item_id jobs j same on =
    go (oldest p (jobs ++ j ∷ [])) refl (oldest-Searched p (jobs ++ j ∷ []))
  where
    p : Job → Bool
    p k = text_eq k.item_id item_id && is_queued k.state

    go :
        (o : Option Job)
        → oldest p (jobs ++ j ∷ []) ≡ o
        → Searched p (jobs ++ j ∷ []) o
        → (q : Job) × (oldest p (jobs ++ j ∷ []) ≡ some q)
    go (some q) e h = (q, e)
    go none e h =
        let (off, rest) = All-right (λ k. p k ≡ false) jobs (j ∷ []) h in
        let same_item : text_eq j.item_id item_id ≡ true =
          ap (λ i. text_eq i item_id) same ∙ text_eq_refl item_id in
        absurd (ground (arith, off, same_item, on))

-- A queued job of the item.
abbrev pub waits : Text → Job → Bool
waits item_id k = text_eq k.item_id item_id && is_queued k.state

queued_job-IsOldest :
    (item_id : Text) (jobs : Jobs) (q : Job)
    → queued_job item_id jobs ≡ some q
    → IsOldest (waits item_id) jobs q
unfolding queued_job
queued_job-IsOldest item_id jobs q h =
    subst (Searched (waits item_id) jobs) h (oldest-Searched (waits item_id) jobs)

not_rejected :
    {e : EnqueueError} {j : Job} {jobs jobs' : Jobs} {a b : Bool}
    → ◌≡◌ {A = Enqueue} (rejected e, jobs, a) (queued_as j, jobs', b)
    → ⊥
not_rejected h = cc

enqueue_eq : {a b : Enqueue} → a ≡ b → a.1 ≡ b.1
enqueue_eq h = ap (λ (r : Enqueue). r.1) h

module _ (exists : Text → Bool) (id : Text) (now : ℕ) (item_id : Text) (kind : JobKind)
    (jobs : Jobs) (j : Job) (jobs' : Jobs) (woke : Bool) where
  made-queued :
      after_create (create_job exists id now item_id kind jobs) ≡ (queued_as j, jobs', woke)
      → (q : Job) × (queued_job item_id jobs' ≡ some q)
  unfolding create_job
  made-queued =
      if-elim
        (λ (r : Answer × Jobs).
          after_create r ≡ (queued_as j, jobs', woke)
          → (q : Job) × (queued_job item_id jobs' ≡ some q))
        (is_empty item_id) _ _ (λ _ h. absurd (not_rejected h))
        (λ _.
          if-elim
            (λ (r : Answer × Jobs).
              after_create r ≡ (queued_as j, jobs', woke)
              → (q : Job) × (queued_job item_id jobs' ≡ some q))
            (exists item_id)
            (answered (new_job id now item_id kind), jobs ++ new_job id now item_id kind ∷ [])
            (refused JobError.missing, jobs)
            (λ _ h.
              subst (λ t. (q : Job) × (queued_job item_id t ≡ some q)) (enqueue_eq h)
                (queued_job-new item_id jobs (new_job id now item_id kind) refl refl))
            (λ _ h. absurd (not_rejected h)))

  inner-queued :
      (o : Option Job)
      → queued_job item_id jobs ≡ o
      → unless_queued o (create_job exists id now item_id kind jobs) jobs
        ≡ (queued_as j, jobs', woke)
      → (q : Job) × (queued_job item_id jobs' ≡ some q)
  inner-queued (some k) e h = (k, ap (queued_job item_id) (sym (enqueue_eq h)) ∙ e)
  inner-queued none e h = made-queued h

  -- Asking again for an item whose sync was just queued, whoever asks, answers with the oldest queued
  -- job of the item in the table, adds no second one and wakes no worker.
  pub enqueue-again :
      (status : Option ItemStatus) (id' : Text) (now' : ℕ) (kind' : JobKind)
      → enqueue status exists id now item_id kind jobs ≡ (queued_as j, jobs', woke)
      → (q : Job) × IsOldest (waits item_id) jobs' q
        × (enqueue status exists id' now' item_id kind' jobs' ≡ (queued_as q, jobs', false))
  unfolding enqueue
  enqueue-again none id' now' kind' h = absurd (not_rejected h)
  enqueue-again (some ItemStatus.removed) id' now' kind' h = absurd (not_rejected h)
  enqueue-again (some ItemStatus.login_required) id' now' kind' h = absurd (not_rejected h)
  enqueue-again (some ItemStatus.pending_expiration) id' now' kind' h = absurd (not_rejected h)
  enqueue-again (some ItemStatus.permission_revoked) id' now' kind' h = absurd (not_rejected h)
  enqueue-again (some ItemStatus.active) id' now' kind' h =
      let (q, e) = inner-queued (queued_job item_id jobs) refl h in
      (
        q,
        queued_job-IsOldest item_id jobs' q e,
        ap (λ o. unless_queued o (create_job exists id' now' item_id kind' jobs') jobs') e,
      )
  enqueue-again (some ItemStatus.error) id' now' kind' h =
      let (q, e) = inner-queued (queued_job item_id jobs) refl h in
      (
        q,
        queued_job-IsOldest item_id jobs' q e,
        ap (λ o. unless_queued o (create_job exists id' now' item_id kind' jobs') jobs') e,
      )

-- A follow-up is either refused, and nothing is counted, or it is counted as one more and the count
-- was below the number of delays.
pub retry_not_ready-cases :
    (delays : List ℕ) (item_id : Text) (m : FollowUps)
    → (retry_not_ready delays item_id m ≡ (none, m))
      ⊎ ((or_zero (lookup item_id m) < length delays)
          × (or_zero (lookup item_id (retry_not_ready delays item_id m).1)
              ≡ suc (or_zero (lookup item_id m))))
unfolding retry_not_ready
retry_not_ready-cases delays item_id m =
    let n = or_zero (lookup item_id m) in
    if-elim
      (λ (r : Option ℕ × FollowUps).
        (r ≡ (none, m)) ⊎ ((n < length delays) × (or_zero (lookup item_id r.1) ≡ suc n)))
      (leb (length delays) n) (none, m) (get_elem? delays n, assign item_id (suc n) m)
      (λ _. inl refl)
      (λ more. inr (
        ground (arith, more),
        ap or_zero (
            lookup-assign item_id item_id (suc n) m
            ∙ ap (λ (b : Bool). if b then some (suc n) else lookup item_id m)
                (text_eq_refl item_id)),
      ))
