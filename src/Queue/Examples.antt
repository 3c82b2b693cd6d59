-- ===== src/Queue/Examples.antt =====
-- Claims, retries and the reaper on small tables.
use a_pag_ai_knowledge_base.Prelude.{
  ℕ, ◌+◌, ◌*◌, ◌≤◌, ◌≡◌, ◌≢◌, refl, inl, Bool, true, false, none, some, List, [], ◌∷◌, codes, All,
}
use a_pag_ai_knowledge_base.Documents.{JobStage, pending}
use a_pag_ai_knowledge_base.Queue.{
  Job, Worker, has_id, pick_job, update_where, item_of, claimed_by, reap_stuck_jobs,
  handle_job_retry_or_fail, backoff,
}
use a_pag_ai_knowledge_base.Queue.Execution.{transient_error, finish_job}
use a_pag_ai_knowledge_base.Queue.Claim.{pick_job_exclusive}
use a_pag_ai_knowledge_base.Queue.System.{
  System, Step, Reach, IsNew, IsSound, Reach-IsSound, retry_count-le, start,
}
use a_pag_ai_knowledge_base.Queue.System.Defs.{enqueue, claim, finish, here, next}
use a_pag_ai_knowledge_base.Queue.LateRetry.{late_retry_passes_limit}

abbrev scanner : Worker
scanner = record {
  stage = JobStage.scan;
  worker_id = 1;
  lease_seconds = 60;
  max_retries = 3;
  backoff_base_seconds = 5;
  backoff_max_seconds = 300;
  reaper_interval_seconds = 60;
}

abbrev job : ℕ → ℕ → Job
job job_id scheduled_at = record {
  job_id = job_id;
  document_id = 40 + job_id;
  stage = JobStage.scan;
  status = pending;
  priority = 0;
  retry_count = 0;
  scheduled_at = scheduled_at;
  started_at = none;
  finished_at = none;
  worker_id = none;
  lease_expires_at = none;
  error_message = none;
}

abbrev unlocked : ℕ → Bool
unlocked job_id = false

abbrev jobs : List Job
jobs = job 1 8 ∷ job 2 5 ∷ job 3 90 ∷ []

-- At time 10 the second job is the oldest that is due, and the first one is next.
claims_oldest : (pick_job scanner 10 unlocked jobs).0 ≡ some (item_of scanner 10 (job 2 5))
unfolding pick_job
claims_oldest = refl

claims_next :
    (pick_job scanner 11 unlocked (pick_job scanner 10 unlocked jobs).1).0
    ≡ some (item_of scanner 11 (job 1 8))
unfolding pick_job
claims_next = refl

claims_nothing : (pick_job scanner 4 unlocked jobs).0 ≡ none
unfolding pick_job
claims_nothing = refl

pick_job_exclusive_example :
    (item_of scanner 10 (job 2 5)).job_id ≢ (item_of scanner 11 (job 1 8)).job_id
pick_job_exclusive_example =
    pick_job_exclusive scanner scanner 10 11 unlocked unlocked jobs (item_of scanner 10 (job 2 5))
      (item_of scanner 11 (job 1 8)) claims_oldest claims_next

-- A job is put in, claimed, and fails for a moment.
abbrev queued : System
queued = record { jobs = job 1 0 ∷ []; in_flight = []; now = 0 }

abbrev held : System
held = record {
  jobs = claimed_by scanner 0 (job 1 0) ∷ [];
  in_flight = item_of scanner 0 (job 1 0) ∷ [];
  now = 0;
}

abbrev retried : Job
retried = record (job 1 5) {
  retry_count = 1;
  started_at = some 0;
  error_message = some (codes "down");
}

abbrev put_back : System
put_back = record { jobs = retried ∷ []; in_flight = []; now = 0 }

new : IsNew start (job 1 0)
new = record {
  is_pending = refl;
  no_retries = refl;
  no_worker = refl;
  no_lease = refl;
  fresh = tt;
  unclaimed = tt;
}

queued_step : Step 3 start queued
queued_step = enqueue start (job 1 0) new

claimed_first : (pick_job scanner 0 unlocked (job 1 0 ∷ [])).0 ≡ some (item_of scanner 0 (job 1 0))
unfolding pick_job
claimed_first = refl

held_step : Step 3 queued held
unfolding pick_job
held_step = claim queued scanner unlocked (item_of scanner 0 (job 1 0)) claimed_first

put_back_step : Step 3 held put_back
unfolding finish_job handle_job_retry_or_fail backoff update_where
put_back_step =
    finish held scanner [] [] (item_of scanner 0 (job 1 0)) (transient_error (codes "down")) refl
      refl

retried_later : Reach 3 start put_back
retried_later = next (next (next here queued_step) held_step) put_back_step

start-IsSound : IsSound start
start-IsSound = record { consistent = tt; keyed = tt }

Reach-IsSound_example : IsSound put_back
Reach-IsSound_example = Reach-IsSound retried_later start-IsSound

retry_count-le_example : 1 ≤ 2 * 3
retry_count-le_example = retry_count-le retried retried_later (inl refl)

-- The last attempt of three, whose lease ended at 60.
abbrev last_attempt : Job
last_attempt = record (claimed_by scanner 0 (job 1 0)) { retry_count = 2 }

late_retry_passes_limit_example :
    All
      (λ k. has_id 1 k ≡ true → (k.retry_count ≡ 3 + 1) × (k.status ≡ pending))
      (handle_job_retry_or_fail scanner 62
        (item_of scanner 0 last_attempt)
        (codes "down")
        (reap_stuck_jobs scanner 61 (last_attempt ∷ [])).1)
late_retry_passes_limit_example =
    late_retry_passes_limit scanner 61 62 (codes "down") (item_of scanner 0 last_attempt)
      (last_attempt ∷ []) last_attempt (tt, tt) (inl refl) refl refl refl refl
