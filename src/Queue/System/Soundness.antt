-- ===== src/Queue/System/Soundness.antt =====
-- Consistency of the rows and of the key, in every reachable state.
use a_pag_ai_knowledge_base.Prelude.{
  ℕ, refl, Bool, Option-cases, inl, inr, List, arith, All, ltb, Text, codes, ◌++◌, Bool-cases,
}
use a_pag_ai_knowledge_base.Queue.{
  Job, JobItem, Worker, has_id, pick_job, reap_stuck_jobs, renew_once, select_job, claimed_by,
  failed_at, retried_at, completed_at, mark_job_completed, mark_job_failed,
  handle_job_retry_or_fail, cut, give_up_message, backoff, is_exhausted, is_recoverable,
  failed_by_reaper, reset_by_reaper, holds_lease,
}
use a_pag_ai_knowledge_base.Queue.Execution.{
  Outcome, finish_job, returned, transient_error, permanent_error, unexpected_error,
}
use a_pag_ai_knowledge_base.Queue.Table.{IsKeyed, update_where-IsKeyed}
use a_pag_ai_knowledge_base.Queue.Consistency.{
  IsConsistent, finish_job-IsConsistent, pick_job-IsConsistent, renew_once-IsConsistent,
  reap_stuck_jobs-IsConsistent,
}
use a_pag_ai_knowledge_base.Queue.System.Defs.{
  System, Step, Reach, IsNew, tick, enqueue, claim, renew, reap, finish, crash, here, next,
}

pick_job-IsKeyed :
    (w : Worker) (now : ℕ) (locked : ℕ → Bool) (jobs : List Job)
    → IsKeyed jobs
    → IsKeyed (pick_job w now locked jobs).1
unfolding pick_job
pick_job-IsKeyed w now locked jobs h = elim (Option-cases (select_job w.stage now locked jobs)) [
  | inl e ↦ rw e h
  | inr (sel, e) ↦
      rw e (update_where-IsKeyed (has_id sel.job_id) (claimed_by w now) (λ _. refl) jobs h)
]

reap_stuck_jobs-IsKeyed :
    (w : Worker) (now : ℕ) (jobs : List Job) → IsKeyed jobs → IsKeyed (reap_stuck_jobs w now jobs).1
unfolding reap_stuck_jobs
reap_stuck_jobs-IsKeyed w now jobs h =
    update_where-IsKeyed (is_recoverable now w.max_retries) (reset_by_reaper now) (λ _. refl) _
      (update_where-IsKeyed (is_exhausted now w.max_retries) (failed_by_reaper now) (λ _. refl) jobs
        h)

renew_once-IsKeyed :
    (w : Worker) (now : ℕ) (item : JobItem) (jobs : List Job)
    → IsKeyed jobs
    → IsKeyed (renew_once w now item jobs).1
unfolding renew_once
renew_once-IsKeyed w now item = update_where-IsKeyed (holds_lease item) _ (λ _. refl)

mark_job_failed-IsKeyed :
    (now : ℕ) (item : JobItem) (e : Text) (jobs : List Job)
    → IsKeyed jobs
    → IsKeyed (mark_job_failed now item e jobs)
unfolding mark_job_failed
mark_job_failed-IsKeyed now item e =
    update_where-IsKeyed (has_id item.job_id) (failed_at now (cut e)) (λ _. refl)

retry_or_fail-IsKeyed :
    (w : Worker) (now : ℕ) (item : JobItem) (e : Text) (jobs : List Job)
    → IsKeyed jobs
    → IsKeyed (handle_job_retry_or_fail w now item e jobs)
unfolding handle_job_retry_or_fail
retry_or_fail-IsKeyed w now item e jobs h = elim (Bool-cases (ltb item.retry_count w.max_retries)) [
  | inl b ↦ rw b (
      update_where-IsKeyed (has_id item.job_id)
        (retried_at now (backoff w item.retry_count) (cut e)) (λ _. refl) jobs h)
  | inr b ↦ rw b (mark_job_failed-IsKeyed now item (give_up_message w.max_retries (cut e)) jobs h)
]

finish_job-IsKeyed :
    (w : Worker) (now : ℕ) (item : JobItem) (o : Outcome) (jobs : List Job)
    → IsKeyed jobs
    → IsKeyed (finish_job w now item o jobs)
unfolding finish_job mark_job_completed
finish_job-IsKeyed w now item returned =
    update_where-IsKeyed (has_id item.job_id) (completed_at now) (λ _. refl)
finish_job-IsKeyed w now item (transient_error e) = retry_or_fail-IsKeyed w now item e
finish_job-IsKeyed w now item (permanent_error e) = mark_job_failed-IsKeyed now item e
finish_job-IsKeyed w now item (unexpected_error e) =
    retry_or_fail-IsKeyed w now item (codes "Unexpected error: " ++ e)

-- What holds of the table whatever has happened.
pub record IsSound (s : System) : Type 0 where
  pub consistent : All IsConsistent s.jobs
  pub keyed : IsKeyed s.jobs

IsNew-IsConsistent : {s : System} {j : Job} → IsNew s j → IsConsistent j
IsNew-IsConsistent n = ground (arith, n.is_pending, n.no_worker, n.no_lease)

pub Step-IsSound : {limit : ℕ} {s t : System} → Step limit s t → IsSound s → IsSound t
Step-IsSound (tick s n) h = record { consistent = h.consistent; keyed = h.keyed }
Step-IsSound (enqueue s j new) h = record {
  consistent = (IsNew-IsConsistent new, h.consistent);
  keyed = (new.fresh, h.keyed);
}
Step-IsSound (claim s w locked item e) h = record {
  consistent = pick_job-IsConsistent w s.now locked s.jobs h.consistent;
  keyed = pick_job-IsKeyed w s.now locked s.jobs h.keyed;
}
Step-IsSound (renew s w item) h = record {
  consistent = renew_once-IsConsistent w s.now item s.jobs h.consistent;
  keyed = renew_once-IsKeyed w s.now item s.jobs h.keyed;
}
Step-IsSound (reap s w e) h = record {
  consistent = reap_stuck_jobs-IsConsistent w s.now s.jobs h.consistent;
  keyed = reap_stuck_jobs-IsKeyed w s.now s.jobs h.keyed;
}
Step-IsSound (finish s w before after item o e split) h = record {
  consistent = finish_job-IsConsistent w s.now item o s.jobs h.consistent;
  keyed = finish_job-IsKeyed w s.now item o s.jobs h.keyed;
}
Step-IsSound (crash s before after item split) h = record {
  consistent = h.consistent;
  keyed = h.keyed;
}

-- If every row has the columns that its status calls for and no two rows share an id, the same
-- holds after any sequence of claims, renewals, reaper runs, finishes, crashes and new jobs.
pub Reach-IsSound : {limit : ℕ} {s t : System} → Reach limit s t → IsSound s → IsSound t
Reach-IsSound here h = h
Reach-IsSound (next r st) h = Step-IsSound st (Reach-IsSound r h)
