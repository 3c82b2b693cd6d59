-- ===== src/Queue/System/Rows.antt =====
-- The retry budget of a row under the reaper, a claim, a renewal and an insertion.
use native.Mathlib.Nat.{le_refl}
use a_pag_ai_knowledge_base.Prelude.{ℕ, ◌*◌, ◌≤◌, ◌≡◌, true, false, List, ◌∷◌, arith, All, All-map}
use a_pag_ai_knowledge_base.Queue.{
  Job, JobItem, Worker, has_id, reap_stuck_jobs, renew_once, is_recoverable, is_exhausted,
  reset_by_reaper, failed_by_reaper, item_of, claimed_by, is_pending, holds_lease,
}
use a_pag_ai_knowledge_base.Queue.Table.{update_where-All}
use a_pag_ai_knowledge_base.Queue.System.Retries.{IsBounded, Seen-more, retriers-none}

module _ (limit : ℕ) (items : List JobItem) where
  reset-IsBounded :
      (now later : ℕ) (j : Job)
      → is_recoverable now limit j ≡ true
      → IsBounded limit items j
      → IsBounded limit items (reset_by_reaper later j)
  reset-IsBounded now later j on h = record {
    within_budget = ground (arith, h.within_budget, on);
    seen = Seen-more j items h.seen;
  }

  exhausted-IsBounded :
      (now later : ℕ) (j : Job)
      → is_exhausted now limit j ≡ true
      → IsBounded limit items j
      → IsBounded limit items (failed_by_reaper later j)
  exhausted-IsBounded now later j on h = record {
    within_budget = ground (arith, h.within_budget, on);
    seen = h.seen;
  }

  pub reap_stuck_jobs-IsBounded :
      (w : Worker) (now : ℕ) (jobs : List Job)
      → w.max_retries ≡ limit
      → All (IsBounded limit items) jobs
      → All (IsBounded limit items) (reap_stuck_jobs w now jobs).1
  unfolding reap_stuck_jobs
  reap_stuck_jobs-IsBounded w now jobs same h = rw same (
      update_where-All (IsBounded limit items) (IsBounded limit items) (is_recoverable now limit)
        (reset_by_reaper now) _ (λ j b on. reset-IsBounded now now j on b) (λ j b _. b)
        (update_where-All (IsBounded limit items) (IsBounded limit items) (is_exhausted now limit)
          (failed_by_reaper now) jobs (λ j b on. exhausted-IsBounded now now j on b) (λ j b _. b)
          h))

  -- A claimed row, and the rows that the claim leaves alone.
  pub claimed-IsBounded :
      (w : Worker) (now : ℕ) (sel : Job)
      → is_pending sel.status ≡ true
      → IsBounded limit items sel
      → IsBounded limit (item_of w now sel ∷ items) (claimed_by w now sel)
  claimed-IsBounded w now sel idle h = record {
    within_budget = ground (arith, h.within_budget, idle);
    seen = (λ _. le_refl _, h.seen);
  }

  pub others-IsBounded :
      (w : Worker) (now : ℕ) (sel j : Job)
      → has_id sel.job_id j ≡ false
      → IsBounded limit items j
      → IsBounded limit (item_of w now sel ∷ items) j
  others-IsBounded w now sel j off h = record {
    within_budget = ground (arith, h.within_budget, off);
    seen = (λ on. absurd (cc (off, on)), h.seen);
  }

  pub renew_once-IsBounded :
      (w : Worker) (now : ℕ) (item : JobItem) (jobs : List Job)
      → All (IsBounded limit items) jobs
      → All (IsBounded limit items) (renew_once w now item jobs).1
  unfolding renew_once
  renew_once-IsBounded w now item jobs =
      update_where-All (IsBounded limit items) (IsBounded limit items) (holds_lease item) _ jobs
        (λ j b _. record { within_budget = b.within_budget; seen = b.seen }) (λ j b _. b)

  pub new-IsBounded :
      (j : Job)
      → j.retry_count ≡ 0
      → All (λ item. has_id item.job_id j ≡ false) items
      → IsBounded limit items j
  new-IsBounded j zero_retries fresh = record {
    within_budget = ground (arith, retriers-none limit j items fresh, zero_retries);
    seen = All-map (λ item off on. absurd (cc (off, on))) items fresh;
  }

  pub IsBounded-le : (j : Job) → IsBounded limit items j → j.retry_count ≤ 2 * limit
  IsBounded-le j h = ground (arith, h.within_budget)
