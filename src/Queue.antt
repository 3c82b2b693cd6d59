-- ===== src/Queue.antt =====
-- The `jobs` table (src/db/models.py) and the statements of src/workers/base_worker.py on it.
-- The table is the list of its rows, less the columns that no statement of that file reads or sets.
-- A time is a number of seconds; `now` is what `NOW()` returns in the statement's transaction. Each
-- function is one committed transaction.
pub mod Claim
pub mod Table
pub mod Consistency
pub mod Execution
pub mod System
pub mod LateRetry
pub mod Examples
use a_pag_ai_knowledge_base.Prelude.{
  ℕ, ◌+◌, ◌*◌, ◌^◌, ◌≡◌, Bool, true, false, not, ◌&&◌, ◌||◌, Option, none, some, List, [], ◌∷◌,
  ◌++◌, Text, codes, decimal, take, map, length, keep_if, str_eq, ltb, leb, ◌==◌, if◌then◌else◌,
  is_value, min,
}
use a_pag_ai_knowledge_base.Documents.{JobStage, JobStatus, pending, running, completed, failed}

pub record Job : Type 0 where
  pub job_id : ℕ
  pub document_id : ℕ
  pub stage : JobStage
  pub status : JobStatus
  pub priority : ℕ
  pub retry_count : ℕ
  pub scheduled_at : ℕ
  pub started_at : Option ℕ
  pub finished_at : Option ℕ
  pub worker_id : Option ℕ
  pub lease_expires_at : Option ℕ
  pub error_message : Option Text

-- `JobItem`: what a worker keeps of the row that it claimed.
pub record JobItem : Type 0 where
  pub job_id : ℕ
  pub document_id : ℕ
  pub stage : JobStage
  pub worker_id : ℕ
  pub retry_count : ℕ
  pub lease_expires_at : ℕ

-- The settings of `BaseWorker.__init__`.
pub record Worker : Type 0 where
  pub stage : JobStage
  pub worker_id : ℕ
  pub lease_seconds : ℕ
  pub max_retries : ℕ
  pub backoff_base_seconds : ℕ
  pub backoff_max_seconds : ℕ
  pub reaper_interval_seconds : ℕ

abbrev pub is_pending : JobStatus → Bool
is_pending pending = true
is_pending _ = false

abbrev pub is_running : JobStatus → Bool
is_running running = true
is_running _ = false

abbrev pub same_stage : JobStage → JobStage → Bool
same_stage JobStage.scan JobStage.scan = true
same_stage JobStage.extract JobStage.extract = true
same_stage JobStage.normalize JobStage.normalize = true
same_stage JobStage.chunk JobStage.chunk = true
same_stage JobStage.embed JobStage.embed = true
same_stage _ _ = false

-- The `WHERE` of the claim. `locked` says which rows another transaction holds: `SKIP LOCKED`.
abbrev pub is_claimable : JobStage → ℕ → (ℕ → Bool) → Job → Bool
is_claimable stage now locked j =
    same_stage j.stage stage
    && (is_pending j.status && (leb j.scheduled_at now && not (locked j.job_id)))

-- `ORDER BY priority DESC, scheduled_at ASC`: whether `a` may stand before `b`.
abbrev pub comes_first : Job → Job → Bool
comes_first a b =
    ltb b.priority a.priority || (a.priority == b.priority && leb a.scheduled_at b.scheduled_at)

abbrev better : Job → Option Job → Option Job
better j none = some j
better j (some b) = if comes_first j b then some j else some b

-- `LIMIT 1` over the claimable rows in that order; rows that tie keep the table's order.
pub select_job : JobStage → ℕ → (ℕ → Bool) → List Job → Option Job
select_job stage now locked [] = none
select_job stage now locked (j ∷ jobs) =
    let rest = select_job stage now locked jobs in
    if is_claimable stage now locked j then better j rest else rest

-- `UPDATE jobs SET ... WHERE test`
unfoldable pub update_where : (Job → Bool) → (Job → Job) → List Job → List Job
update_where test change [] = []
update_where test change (j ∷ jobs) =
    let rest = update_where test change jobs in if test j then change j ∷ rest else j ∷ rest

abbrev pub has_id : ℕ → Job → Bool
has_id job_id j = j.job_id == job_id

abbrev pub claimed_by : Worker → ℕ → Job → Job
claimed_by w now j = record j {
  status = running;
  started_at = some now;
  worker_id = some w.worker_id;
  lease_expires_at = some (now + w.lease_seconds);
}

abbrev pub item_of : Worker → ℕ → Job → JobItem
item_of w now j = record {
  job_id = j.job_id;
  document_id = j.document_id;
  stage = j.stage;
  worker_id = w.worker_id;
  retry_count = j.retry_count;
  lease_expires_at = now + w.lease_seconds;
}

abbrev claim : Worker → ℕ → Option Job → List Job → Option JobItem × List Job
claim w now none jobs = (none, jobs)
claim w now (some j) jobs =
    (some (item_of w now j), update_where (has_id j.job_id) (claimed_by w now) jobs)

unfoldable pub pick_job : Worker → ℕ → (ℕ → Bool) → List Job → Option JobItem × List Job
unfolding select_job update_where
pick_job w now locked jobs = claim w now (select_job w.stage now locked jobs) jobs

-- `status = 'RUNNING' AND lease_expires_at < NOW()`; a NULL lease is not below anything.
abbrev pub is_expired : ℕ → Job → Bool
is_expired now j =
    is_running j.status && elim j.lease_expires_at [ none ↦ false | some t ↦ ltb t now ]

abbrev pub reaper_message : Text
reaper_message = codes "Job failed: exceeded maximum retries via lease expiry recovery."

abbrev pub failed_by_reaper : ℕ → Job → Job
failed_by_reaper now j = record j {
  status = failed;
  worker_id = none;
  lease_expires_at = none;
  finished_at = some now;
  error_message = some reaper_message;
}

abbrev pub reset_by_reaper : ℕ → Job → Job
reset_by_reaper now j = record j {
  status = pending;
  retry_count = j.retry_count + 1;
  worker_id = none;
  lease_expires_at = none;
  scheduled_at = now + 5;
}

abbrev pub is_exhausted : ℕ → ℕ → Job → Bool
is_exhausted now max_retries j = is_expired now j && leb max_retries j.retry_count

abbrev pub is_recoverable : ℕ → ℕ → Job → Bool
is_recoverable now max_retries j = is_expired now j && ltb j.retry_count max_retries

-- The two statements of the reaper, in one transaction; the number of rows that it reset.
unfoldable pub reap_stuck_jobs : Worker → ℕ → List Job → ℕ × List Job
unfolding update_where
reap_stuck_jobs w now jobs =
    let left = update_where (is_exhausted now w.max_retries) (failed_by_reaper now) jobs in
    (
      length (keep_if (is_recoverable now w.max_retries) left),
      update_where (is_recoverable now w.max_retries) (reset_by_reaper now) left,
    )

abbrev pub completed_at : ℕ → Job → Job
completed_at now j = record j {
  status = completed;
  finished_at = some now;
  lease_expires_at = none;
}

unfoldable pub mark_job_completed : ℕ → JobItem → List Job → List Job
unfolding update_where
mark_job_completed now item = update_where (has_id item.job_id) (completed_at now)

abbrev pub failed_at : ℕ → Text → Job → Job
failed_at now error_message j = record j {
  status = failed;
  finished_at = some now;
  lease_expires_at = none;
  error_message = some error_message;
}

-- `str(error_message)[:500]`
abbrev pub cut : Text → Text
cut = take 500

unfoldable pub mark_job_failed : ℕ → JobItem → Text → List Job → List Job
unfolding update_where
mark_job_failed now item error_message =
    update_where (has_id item.job_id) (failed_at now (cut error_message))

unfoldable pub backoff : Worker → ℕ → ℕ
backoff w retry_count = min w.backoff_max_seconds (w.backoff_base_seconds * 2 ^ retry_count)

abbrev pub retried_at : ℕ → ℕ → Text → Job → Job
retried_at now backoff_sec error_message j = record j {
  status = pending;
  retry_count = j.retry_count + 1;
  scheduled_at = now + backoff_sec;
  worker_id = none;
  lease_expires_at = none;
  error_message = some error_message;
}

abbrev pub give_up_message : ℕ → Text → Text
give_up_message max_retries err_msg =
    codes "Max retries (" ++ (decimal max_retries ++ (codes ") exceeded: " ++ err_msg))

unfoldable pub handle_job_retry_or_fail : Worker → ℕ → JobItem → Text → List Job → List Job
unfolding update_where mark_job_failed
handle_job_retry_or_fail w now item error_message jobs =
    if ltb item.retry_count w.max_retries
    then update_where (has_id item.job_id)
        (retried_at now (backoff w item.retry_count) (cut error_message)) jobs
    else mark_job_failed now item (give_up_message w.max_retries (cut error_message)) jobs

-- `status = 'RUNNING' AND worker_id = :worker_id` for the row of the job.
abbrev pub holds_lease : JobItem → Job → Bool
holds_lease item j =
    has_id item.job_id j && (is_running j.status && is_value j.worker_id item.worker_id)

-- `_LeaseRenewer._renew_once`: whether a row was updated.
unfoldable pub renew_once : Worker → ℕ → JobItem → List Job → Bool × List Job
unfolding update_where
renew_once w now item jobs =
    let renewed = λ (j : Job). record j { lease_expires_at = some (now + w.lease_seconds) } in
    (
      not (length (keep_if (holds_lease item) jobs) == 0),
      update_where (holds_lease item) renewed jobs,
    )
