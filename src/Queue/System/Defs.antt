-- ===== src/Queue/System/Defs.antt =====
-- The states and the steps.
use a_pag_ai_knowledge_base.Prelude.{
  ℕ, ◌+◌, ◌≡◌, Bool, false, none, some, List, [], ◌∷◌, ◌++◌, ◌==◌, ◌&&◌, ltb, All, keep_if, length,
}
use a_pag_ai_knowledge_base.Documents.{pending}
use a_pag_ai_knowledge_base.Queue.{
  Job, JobItem, Worker, has_id, pick_job, reap_stuck_jobs, renew_once,
}
use a_pag_ai_knowledge_base.Queue.Execution.{Outcome, finish_job}

-- The table, the items that some worker is processing, and the clock of the database.
pub record System : Type 0 where
  pub jobs : List Job
  pub in_flight : List JobItem
  pub now : ℕ

-- The items of a job whose claim saw a retry count below the limit: these may still retry it.
abbrev pub may_retry : ℕ → ℕ → JobItem → Bool
may_retry limit job_id item = job_id == item.job_id && ltb item.retry_count limit

abbrev pub retriers : ℕ → ℕ → List JobItem → ℕ
retriers limit job_id items = length (keep_if (may_retry limit job_id) items)

-- A row as the pipeline inserts it.
pub record IsNew (s : System) (j : Job) : Type 0 where
  pub is_pending : j.status ≡ pending
  pub no_retries : j.retry_count ≡ 0
  pub no_worker : j.worker_id ≡ none
  pub no_lease : j.lease_expires_at ≡ none
  pub fresh : All (λ k. has_id j.job_id k ≡ false) s.jobs
  pub unclaimed : All (λ item. has_id item.job_id j ≡ false) s.in_flight

-- One transaction, or the passing of time. Every worker has the same `limit` on retries. A worker
-- may crash, or finish long after its lease was lost.
pub data Step (limit : ℕ) : System → System → Type 0 where
  tick : (s : System) (n : ℕ) → Step limit s (record s { now = s.now + n })
  enqueue : (s : System) (j : Job) → IsNew s j → Step limit s (record s { jobs = j ∷ s.jobs })
  claim :
      (s : System) (w : Worker) (locked : ℕ → Bool) (item : JobItem)
      → (pick_job w s.now locked s.jobs).0 ≡ some item
      → Step limit s
          (record s { jobs = (pick_job w s.now locked s.jobs).1; in_flight = item ∷ s.in_flight })
  renew :
      (s : System) (w : Worker) (item : JobItem)
      → Step limit s (record s { jobs = (renew_once w s.now item s.jobs).1 })
  reap :
      (s : System) (w : Worker)
      → w.max_retries ≡ limit
      → Step limit s (record s { jobs = (reap_stuck_jobs w s.now s.jobs).1 })
  finish :
      (s : System) (w : Worker) (before after : List JobItem) (item : JobItem) (o : Outcome)
      → w.max_retries ≡ limit
      → s.in_flight ≡ before ++ item ∷ after
      → Step limit s
          (record s { jobs = finish_job w s.now item o s.jobs; in_flight = before ++ after })
  crash :
      (s : System) (before after : List JobItem) (item : JobItem)
      → s.in_flight ≡ before ++ item ∷ after
      → Step limit s (record s { in_flight = before ++ after })

pub data Reach (limit : ℕ) (s : System) : System → Type 0 where
  here : Reach limit s s
  next : {t u : System} → Reach limit s t → Step limit t u → Reach limit s u

-- The empty queue.
abbrev pub start : System
start = record { jobs = []; in_flight = []; now = 0 }
