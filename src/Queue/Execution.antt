-- ===== src/Queue/Execution.antt =====
-- `execute_job` and `run_once` of src/workers/base_worker.py.
use a_pag_ai_knowledge_base.Prelude.{
  ℕ, ◌-◌, Option, none, some, List, ◌++◌, Text, codes, leb, Bool, if◌then◌else◌,
}
use a_pag_ai_knowledge_base.Queue.{
  Job, JobItem, Worker, pick_job, reap_stuck_jobs, mark_job_completed, mark_job_failed,
  handle_job_retry_or_fail,
}

-- How `process_job`, which the stages implement, ends: it returns, or raises with a message.
pub data Outcome : Type 0 where
  returned : Outcome
  transient_error permanent_error unexpected_error : Text → Outcome

-- What `execute_job` does to the table once `process_job` has ended.
unfoldable pub finish_job : Worker → ℕ → JobItem → Outcome → List Job → List Job
unfolding mark_job_completed mark_job_failed handle_job_retry_or_fail
finish_job w now item returned jobs = mark_job_completed now item jobs
finish_job w now item (transient_error e) jobs = handle_job_retry_or_fail w now item e jobs
finish_job w now item (permanent_error e) jobs = mark_job_failed now item e jobs
finish_job w now item (unexpected_error e) jobs =
    handle_job_retry_or_fail w now item (codes "Unexpected error: " ++ e) jobs

-- What a worker meets: the rows that others lock, what other transactions do to the table while it
-- processes, when it is done, and how processing ends.
pub record Circumstances : Type 0 where
  pub locked : ℕ → Bool
  pub meanwhile : List Job → List Job
  pub end_time : ℕ
  pub process_job : JobItem → Outcome

abbrev execute_claimed :
    Worker → Circumstances → Option JobItem × List Job → Option JobItem × List Job
execute_claimed w c (none, jobs) = (none, jobs)
execute_claimed w c (some item, jobs) =
    (some item, finish_job w c.end_time item (c.process_job item) (c.meanwhile jobs))

-- The reaper runs when it is due. The results: the claimed job, `_last_reaper_run`, the table.
unfoldable pub run_once : Worker → Circumstances → ℕ → ℕ → List Job → Option JobItem × ℕ × List Job
unfolding finish_job pick_job reap_stuck_jobs
run_once w c now last_reaper_run jobs =
    let due = leb w.reaper_interval_seconds (now - last_reaper_run) in
    let reaped = if due then (reap_stuck_jobs w now jobs).1 else jobs in
    let (item, after) = execute_claimed w c (pick_job w now c.locked reaped) in
    (item, if due then now else last_reaper_run, after)
