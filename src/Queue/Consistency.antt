-- ===== src/Queue/Consistency.antt =====
-- The columns of a row that each status calls for, and the operations of
-- src/workers/base_worker.py on them.
use a_pag_ai_knowledge_base.Prelude.{
  ℕ, ◌≡◌, refl, Bool, true, not, ◌&&◌, inl, inr, List, arith, All, Option-cases, Text, codes, ◌++◌,
  is_some,
}
use a_pag_ai_knowledge_base.Documents.{pending, running, completed, failed}
use a_pag_ai_knowledge_base.Queue.{
  Job, JobItem, Worker, update_where, has_id, pick_job, reap_stuck_jobs, mark_job_completed,
  mark_job_failed, handle_job_retry_or_fail, renew_once, claimed_by, reset_by_reaper,
  failed_by_reaper, select_job, failed_at, retried_at, completed_at, cut, give_up_message,
  holds_lease, backoff, is_recoverable, is_exhausted,
}
use a_pag_ai_knowledge_base.Queue.Execution.{
  Outcome, finish_job, returned, transient_error, permanent_error, unexpected_error,
}
use a_pag_ai_knowledge_base.Queue.Table.{update_where-All}

-- A pending row has no worker and no lease; a running one has both and a start; a finished one has
-- an end and no lease.
abbrev pub is_consistent : Job → Bool
is_consistent j = elim j.status [
  | pending ↦ not (is_some j.worker_id) && not (is_some j.lease_expires_at)
  | running ↦ is_some j.worker_id && (is_some j.lease_expires_at && is_some j.started_at)
  | completed ↦ is_some j.finished_at && not (is_some j.lease_expires_at)
  | failed ↦ is_some j.finished_at && not (is_some j.lease_expires_at)
]

abbrev pub IsConsistent : Job → Type 0
IsConsistent j = is_consistent j ≡ true

-- A row that a test passes and a change makes consistent leaves a consistent table.
update_where-IsConsistent :
    (test : Job → Bool) (change : Job → Job)
    → ((j : Job) → test j ≡ true → IsConsistent (change j))
    → (jobs : List Job) → All IsConsistent jobs
    → All IsConsistent (update_where test change jobs)
update_where-IsConsistent test change hit jobs =
    update_where-All IsConsistent IsConsistent test change jobs (λ j _. hit j) (λ j h _. h)

mark_job_failed-IsConsistent :
    (now : ℕ) (item : JobItem) (e : Text) (jobs : List Job)
    → All IsConsistent jobs
    → All IsConsistent (mark_job_failed now item e jobs)
unfolding mark_job_failed
mark_job_failed-IsConsistent now item e =
    update_where-IsConsistent (has_id item.job_id) (failed_at now (cut e)) (λ j _. refl)

retry_or_fail-IsConsistent :
    (w : Worker) (now : ℕ) (item : JobItem) (e : Text) (jobs : List Job)
    → All IsConsistent jobs
    → All IsConsistent (handle_job_retry_or_fail w now item e jobs)
unfolding handle_job_retry_or_fail
retry_or_fail-IsConsistent w now item e jobs h = ground (
  arith,
  mark_job_failed-IsConsistent now item (give_up_message w.max_retries (cut e)) jobs h,
  update_where-IsConsistent (has_id item.job_id)
      (retried_at now (backoff w item.retry_count) (cut e)) (λ j _. refl) jobs h,
)

pub finish_job-IsConsistent :
    (w : Worker) (now : ℕ) (item : JobItem) (o : Outcome) (jobs : List Job)
    → All IsConsistent jobs
    → All IsConsistent (finish_job w now item o jobs)
unfolding finish_job mark_job_completed
finish_job-IsConsistent w now item returned =
    update_where-IsConsistent (has_id item.job_id) (completed_at now) (λ j _. refl)
finish_job-IsConsistent w now item (transient_error e) = retry_or_fail-IsConsistent w now item e
finish_job-IsConsistent w now item (permanent_error e) = mark_job_failed-IsConsistent now item e
finish_job-IsConsistent w now item (unexpected_error e) =
    retry_or_fail-IsConsistent w now item (codes "Unexpected error: " ++ e)

pub pick_job-IsConsistent :
    (w : Worker) (now : ℕ) (locked : ℕ → Bool) (jobs : List Job)
    → All IsConsistent jobs
    → All IsConsistent (pick_job w now locked jobs).1
unfolding pick_job
pick_job-IsConsistent w now locked jobs h =
    elim (Option-cases (select_job w.stage now locked jobs)) [
      | inl e ↦ rw e h
      | inr (sel, e) ↦
          rw e
            (update_where-IsConsistent (has_id sel.job_id) (claimed_by w now) (λ j _. refl) jobs h)
    ]

pub renew_once-IsConsistent :
    (w : Worker) (now : ℕ) (item : JobItem) (jobs : List Job)
    → All IsConsistent jobs
    → All IsConsistent (renew_once w now item jobs).1
unfolding renew_once
renew_once-IsConsistent w now item jobs =
    update_where-All IsConsistent IsConsistent (holds_lease item) _ jobs
      (λ j h hit. ground (arith, h, hit)) (λ j h _. h)

pub reap_stuck_jobs-IsConsistent :
    (w : Worker) (now : ℕ) (jobs : List Job)
    → All IsConsistent jobs
    → All IsConsistent (reap_stuck_jobs w now jobs).1
unfolding reap_stuck_jobs
reap_stuck_jobs-IsConsistent w now jobs h =
    update_where-IsConsistent (is_recoverable now w.max_retries) (reset_by_reaper now) (λ j _. refl)
      _
      (update_where-IsConsistent (is_exhausted now w.max_retries) (failed_by_reaper now)
        (λ j _. refl) jobs h)
