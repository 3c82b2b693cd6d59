-- ===== src/Queue/System/Budget.antt =====
-- The retry count of a row in every reachable state.
use a_pag_ai_knowledge_base.Prelude.{
  ℕ, ◌*◌, ◌≤◌, ◌≡◌, subst, Bool, true, some, List, ◌∷◌, All, All-map, All-zip,
}
use a_pag_ai_knowledge_base.Queue.{
  Job, JobItem, Worker, has_id, pick_job, item_of, claimed_by, is_pending,
}
use a_pag_ai_knowledge_base.Queue.Table.{update_where-All, keyed_row, IsKeyed, Among, All-Among}
use a_pag_ai_knowledge_base.Queue.Claim.{pick_job-IsBest, claimable_pending}
use a_pag_ai_knowledge_base.Queue.System.Defs.{
  System, Step, Reach, tick, enqueue, claim, renew, reap, finish, crash, here, next, start,
}
use a_pag_ai_knowledge_base.Queue.System.Soundness.{IsSound, Step-IsSound}
use a_pag_ai_knowledge_base.Queue.System.Retries.{IsBounded, drop-IsBounded, finish_job-IsBounded}
use a_pag_ai_knowledge_base.Queue.System.Rows.{
  claimed-IsBounded, others-IsBounded, reap_stuck_jobs-IsBounded, renew_once-IsBounded,
  new-IsBounded, IsBounded-le,
}

module _ (limit : ℕ) (items : List JobItem) (w : Worker) (now : ℕ) (sel : Job)
    (idle : is_pending sel.status ≡ true) where
  claim_row-IsBounded :
      (j : Job)
      → IsBounded limit items j × (has_id sel.job_id j ≡ true → j ≡ sel)
      → has_id sel.job_id j ≡ true
      → IsBounded limit (item_of w now sel ∷ items) (claimed_by w now j)
  claim_row-IsBounded j h hit =
      let same = h.1 hit in
      rw same
        (claimed-IsBounded limit items w now sel idle (subst (IsBounded limit items) same h.0))

pick_job-IsBounded :
    (limit : ℕ) (items : List JobItem) (w : Worker) (now : ℕ) (locked : ℕ → Bool) (jobs : List Job)
    (item : JobItem)
    → IsKeyed jobs
    → All (IsBounded limit items) jobs
    → (pick_job w now locked jobs).0 ≡ some item
    → All (IsBounded limit (item ∷ items)) (pick_job w now locked jobs).1
pick_job-IsBounded limit items w now locked jobs item keyed h found =
    let (sel, best, is_item, after) = pick_job-IsBest w now locked jobs item found in
    let idle = claimable_pending w.stage now locked sel best.claimable in
    rw (after, is_item)
      (update_where-All (λ j. IsBounded limit items j × (has_id sel.job_id j ≡ true → j ≡ sel))
        (IsBounded limit (item_of w now sel ∷ items)) (has_id sel.job_id) (claimed_by w now) jobs
        (claim_row-IsBounded limit items w now sel idle)
        (λ j b off. others-IsBounded limit items w now sel j off b.0)
        (All-zip _ _ jobs h (keyed_row jobs sel keyed best.among)))

record IsWithin (limit : ℕ) (s : System) : Type 0 where
  sound : IsSound s
  rows : All (IsBounded limit s.in_flight) s.jobs

Step-IsWithin : {limit : ℕ} {s t : System} → Step limit s t → IsWithin limit s → IsWithin limit t
Step-IsWithin {limit} st h = record { sound = Step-IsSound st h.sound; rows = go st h }
  where
    go :
        {s t : System}
        → Step limit s t
        → IsWithin limit s
        → All (IsBounded limit t.in_flight) t.jobs
    go (tick s n) h = h.rows
    go (enqueue s j new) h =
        (new-IsBounded limit s.in_flight j new.no_retries new.unclaimed, h.rows)
    go (claim s w locked item e) h =
        pick_job-IsBounded limit s.in_flight w s.now locked s.jobs item h.sound.keyed h.rows e
    go (renew s w item) h = renew_once-IsBounded limit s.in_flight w s.now item s.jobs h.rows
    go (reap s w e) h = reap_stuck_jobs-IsBounded limit s.in_flight w s.now s.jobs e h.rows
    go (finish s w before after item o e split) h =
        finish_job-IsBounded limit before after item w e s.now o s.jobs (rw split at h.rows)
    go (crash s before after item split) h =
        All-map (drop-IsBounded limit before after item) s.jobs (rw split at h.rows)

Reach-IsWithin : {limit : ℕ} {s t : System} → Reach limit s t → IsWithin limit s → IsWithin limit t
Reach-IsWithin here h = h
Reach-IsWithin (next r st) h = Step-IsWithin st (Reach-IsWithin r h)

-- From the empty queue, however workers of one retry limit, the reaper, lease renewals, crashes and
-- new jobs interleave, the retry count of no row exceeds twice the limit.
pub retry_count-le :
    {limit : ℕ} {t : System} (j : Job)
    → Reach limit start t
    → Among j t.jobs
    → j.retry_count ≤ 2 * limit
retry_count-le {limit} {t} j r m =
    let h =
      Reach-IsWithin r (record { sound = record { consistent = tt; keyed = tt }; rows = tt }) in
    IsBounded-le limit t.in_flight j (All-Among (IsBounded limit t.in_flight) t.jobs j h.rows m)
