-- ===== src/Queue/System/Retries.antt =====
-- The retry budget of a row, and that ending or retrying an item keeps to it.
use a_pag_ai_knowledge_base.Prelude.{
  ℕ, ◌+◌, ◌*◌, ◌≤◌, ◌≡◌, refl, Bool, Bool-cases, true, false, List, [], ◌∷◌, ◌++◌, arith, All, ltb,
  leb, if◌then◌else◌, Text, codes, inl, inr,
}
use a_pag_ai_knowledge_base.Queue.{
  Job, JobItem, Worker, has_id, is_running, completed_at, failed_at, retried_at, update_where,
  mark_job_failed, mark_job_completed, handle_job_retry_or_fail, cut, backoff, give_up_message,
}
use a_pag_ai_knowledge_base.Queue.Execution.{
  Outcome, finish_job, returned, transient_error, permanent_error, unexpected_error,
}
use a_pag_ai_knowledge_base.Queue.Table.{update_where-All}
use a_pag_ai_knowledge_base.Queue.System.Defs.{retriers, may_retry}

-- Below the limit, the items that may still retry a row are at most its count, and one more while
-- it runs; from the limit on, they and its count together stay within twice the limit.
abbrev pub within : ℕ → ℕ → Job → Bool
within limit r j =
    if ltb j.retry_count limit
    then leb r (j.retry_count + (if is_running j.status then 1 else 0))
    else leb (j.retry_count + r) (2 * limit)

-- No item in flight has seen more retries than its row has.
abbrev pub Seen : List JobItem → Job → Type 0
Seen items j = All (λ item. has_id item.job_id j ≡ true → item.retry_count ≤ j.retry_count) items

pub record IsBounded (limit : ℕ) (items : List JobItem) (j : Job) : Type 0 where
  pub within_budget : within limit (retriers limit j.job_id items) j ≡ true
  pub seen : Seen items j

retriers-split :
    (limit job_id : ℕ) (before after : List JobItem) (item : JobItem)
    → retriers limit job_id (before ++ item ∷ after)
      ≡ retriers limit job_id (before ++ after) + (if may_retry limit job_id item then 1 else 0)
retriers-split limit job_id [] after item = ground arith
retriers-split limit job_id (b ∷ before) after item =
    ground (arith, retriers-split limit job_id before after item)

All-without :
    (P : JobItem → Type 0) (before after : List JobItem) (item : JobItem)
    → All P (before ++ item ∷ after)
    → P item × All P (before ++ after)
All-without P [] after item h = h
All-without P (b ∷ before) after item h =
    let (here', rest) = All-without P before after item h.1 in (here', (h.0, rest))

pub retriers-none :
    (limit : ℕ) (j : Job) (items : List JobItem)
    → All (λ item. has_id item.job_id j ≡ false) items
    → retriers limit j.job_id items ≡ 0
retriers-none limit j [] h = refl
retriers-none limit j (item ∷ items) h = ground (arith, h.0, retriers-none limit j items h.1)

pub Seen-more :
    (j : Job) (items : List JobItem)
    → Seen items j
    → All (λ item. has_id item.job_id j ≡ true → item.retry_count ≤ j.retry_count + 1) items
Seen-more j [] h = tt
Seen-more j (item ∷ items) h = (λ same. omega (arith, h.0 same), Seen-more j items h.1)

module _ (limit : ℕ) (before after : List JobItem) (item : JobItem) where
  pub drop-IsBounded :
      (j : Job) → IsBounded limit (before ++ item ∷ after) j → IsBounded limit (before ++ after) j
  drop-IsBounded j h = record {
    within_budget =
        ground (arith, retriers-split limit j.job_id before after item, h.within_budget);
    seen = (All-without _ before after item h.seen).1;
  }

  -- The row that the item is for ends, or goes back to the queue.
  completed-IsBounded :
      (now : ℕ) (j : Job)
      → has_id item.job_id j ≡ true
      → IsBounded limit (before ++ item ∷ after) j
      → IsBounded limit (before ++ after) (completed_at now j)
  completed-IsBounded now j hit h = record {
    within_budget = ground (
      arith,
      retriers-split limit j.job_id before after item,
      h.within_budget,
      (All-without _ before after item h.seen).0 hit,
    );
    seen = (All-without _ before after item h.seen).1;
  }

  failed-IsBounded :
      (now : ℕ) (e : Text) (j : Job)
      → has_id item.job_id j ≡ true
      → IsBounded limit (before ++ item ∷ after) j
      → IsBounded limit (before ++ after) (failed_at now e j)
  failed-IsBounded now e j hit h = record {
    within_budget = ground (
      arith,
      retriers-split limit j.job_id before after item,
      h.within_budget,
      (All-without _ before after item h.seen).0 hit,
    );
    seen = (All-without _ before after item h.seen).1;
  }

  retried-IsBounded :
      (now delay : ℕ) (e : Text) (j : Job)
      → ltb item.retry_count limit ≡ true
      → has_id item.job_id j ≡ true
      → IsBounded limit (before ++ item ∷ after) j
      → IsBounded limit (before ++ after) (retried_at now delay e j)
  retried-IsBounded now delay e j low hit h = record {
    within_budget = ground (
      arith,
      retriers-split limit j.job_id before after item,
      h.within_budget,
      (All-without _ before after item h.seen).0 hit,
    );
    seen = Seen-more j (before ++ after) (All-without _ before after item h.seen).1;
  }

  -- Every row after the item's transaction.
  update_item-IsBounded :
      (change : Job → Job)
      → ((j : Job)
          → has_id item.job_id j ≡ true
          → IsBounded limit (before ++ item ∷ after) j
          → IsBounded limit (before ++ after) (change j))
      → (jobs : List Job) → All (IsBounded limit (before ++ item ∷ after)) jobs
      → All (IsBounded limit (before ++ after)) (update_where (has_id item.job_id) change jobs)
  update_item-IsBounded change ends jobs =
      update_where-All (IsBounded limit (before ++ item ∷ after))
        (IsBounded limit (before ++ after)) (has_id item.job_id) change jobs
        (λ j h hit. ends j hit h) (λ j h _. drop-IsBounded j h)

  mark_job_failed-IsBounded :
      (now : ℕ) (e : Text) (jobs : List Job)
      → All (IsBounded limit (before ++ item ∷ after)) jobs
      → All (IsBounded limit (before ++ after)) (mark_job_failed now item e jobs)
  unfolding mark_job_failed
  mark_job_failed-IsBounded now e =
      update_item-IsBounded (failed_at now (cut e)) (failed-IsBounded now (cut e))

  module _ (w : Worker) (same : w.max_retries ≡ limit) (now : ℕ) where
    retry_or_fail-IsBounded :
        (e : Text) (jobs : List Job)
        → All (IsBounded limit (before ++ item ∷ after)) jobs
        → All (IsBounded limit (before ++ after)) (handle_job_retry_or_fail w now item e jobs)
    unfolding handle_job_retry_or_fail
    retry_or_fail-IsBounded e jobs h = elim (Bool-cases (ltb item.retry_count w.max_retries)) [
      | inl b ↦ rw b (
          update_item-IsBounded (retried_at now (backoff w item.retry_count) (cut e))
            (λ j. retried-IsBounded now (backoff w item.retry_count) (cut e) j (rw same at b)) jobs
            h)
      | inr b ↦ rw b (mark_job_failed-IsBounded now (give_up_message w.max_retries (cut e)) jobs h)
    ]

    pub finish_job-IsBounded :
        (o : Outcome) (jobs : List Job)
        → All (IsBounded limit (before ++ item ∷ after)) jobs
        → All (IsBounded limit (before ++ after)) (finish_job w now item o jobs)
    unfolding finish_job mark_job_completed
    finish_job-IsBounded returned =
        update_item-IsBounded (completed_at now) (completed-IsBounded now)
    finish_job-IsBounded (transient_error e) = retry_or_fail-IsBounded e
    finish_job-IsBounded (permanent_error e) = mark_job_failed-IsBounded now e
    finish_job-IsBounded (unexpected_error e) =
        retry_or_fail-IsBounded (codes "Unexpected error: " ++ e)
