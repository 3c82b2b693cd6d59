-- ===== src/Queue/LateRetry.antt =====
-- `_handle_job_retry_or_fail` of src/workers/base_worker.py after the reaper: it decides on the
-- item's own retry count, and updates whatever row has the job's id.
use a_pag_ai_knowledge_base.Prelude.{ℕ, ◌+◌, ◌≡◌, List, arith, All, true, Text, ltb, ap, refl}
use a_pag_ai_knowledge_base.Documents.{pending}
use a_pag_ai_knowledge_base.Queue.{
  Job, JobItem, Worker, has_id, reap_stuck_jobs, handle_job_retry_or_fail, is_expired, is_exhausted,
  update_where, is_recoverable, failed_by_reaper, reset_by_reaper,
}
use a_pag_ai_knowledge_base.Queue.Table.{IsKeyed, Among, keyed_row, update_where-All}

module _ (w : Worker) (now later : ℕ) (e : Text) (item : JobItem) (jobs : List Job) (j : Job)
    (keyed : IsKeyed jobs) (among : Among j jobs) (same : item.job_id ≡ j.job_id)
    (snapshot : item.retry_count ≡ j.retry_count) (last : j.retry_count + 1 ≡ w.max_retries)
    (expired : is_expired now j ≡ true) where
  abbrev IsThat : Job → Type 0
  IsThat k = has_id j.job_id k ≡ true → k ≡ j

  abbrev IsReset : Job → Type 0
  IsReset k = has_id j.job_id k ≡ true → k.retry_count ≡ w.max_retries

  reset :
      (k : Job)
      → IsThat k
      → is_recoverable now w.max_retries k ≡ true
      → IsReset (reset_by_reaper now k)
  reset k h on hit = rw (h hit) last

  recoverable : is_recoverable now w.max_retries j ≡ true
  recoverable = ground (arith, expired, last)

  not_exhausted : is_exhausted now w.max_retries j ≡ true → ⊥
  not_exhausted on = ground (arith, on, last)

  left : All IsThat (update_where (is_exhausted now w.max_retries) (failed_by_reaper now) jobs)
  left =
      update_where-All IsThat IsThat (is_exhausted now w.max_retries) (failed_by_reaper now) jobs
        (λ k h on hit. absurd (not_exhausted (rw (h hit) at on))) (λ k h _. h)
        (keyed_row jobs j keyed among)

  reaped : All IsReset (reap_stuck_jobs w now jobs).1
  unfolding reap_stuck_jobs
  reaped =
      update_where-All IsThat IsReset (is_recoverable now w.max_retries) (reset_by_reaper now) _
        reset (λ k h off on. absurd (cc (rw (h on) at off, recoverable))) left

  low : ltb item.retry_count w.max_retries ≡ true
  low = ground (arith, snapshot, last)

  -- In a keyed table, when the lease of an attempt that saw a retry count of one below the limit
  -- has expired, the reaper followed by the late transient failure of that attempt leaves the job
  -- pending with a retry count of one past the limit.
  pub late_retry_passes_limit :
      All
        (λ k. has_id j.job_id k ≡ true → (k.retry_count ≡ w.max_retries + 1) × (k.status ≡ pending))
        (handle_job_retry_or_fail w later item e (reap_stuck_jobs w now jobs).1)
  unfolding handle_job_retry_or_fail
  late_retry_passes_limit = rw low (
      update_where-All IsReset
        (λ k. has_id j.job_id k ≡ true → (k.retry_count ≡ w.max_retries + 1) × (k.status ≡ pending))
        (has_id item.job_id) _ _ (λ k h _ hit. (ap (λ (n : ℕ). n + 1) (h hit), refl))
        (λ k h off on. absurd (cc (off, on, same))) reaped)
