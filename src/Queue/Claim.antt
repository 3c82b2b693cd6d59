-- ===== src/Queue/Claim.antt =====
-- Which row a claim takes.
use a_pag_ai_knowledge_base.Prelude.{
  ℕ, ◌≡◌, refl, subst, sym, ◌≢◌, Bool, true, false, Bool-cases, inl, inr, Option, none, some, List,
  [], ◌∷◌, arith, All, All-map, some_eq, All-unit, Option-cases,
}
use a_pag_ai_knowledge_base.Documents.{JobStage}
use a_pag_ai_knowledge_base.Queue.{
  Job, JobItem, Worker, update_where, has_id, pick_job, select_job, better, is_claimable,
  comes_first, claimed_by, item_of, is_pending,
}
use a_pag_ai_knowledge_base.Queue.Table.{Among, All-Among, update_where-All}

-- What a selected row is: a claimable row of the table, in front of every other claimable row.
pub record IsBest (stage : JobStage) (now : ℕ) (locked : ℕ → Bool) (jobs : List Job) (sel : Job)
    : Type 0 where
  pub claimable : is_claimable stage now locked sel ≡ true
  pub among : Among sel jobs
  pub first : All (λ j. is_claimable stage now locked j ≡ true → comes_first sel j ≡ true) jobs

comes_first_trans :
    (a b c : Job) → comes_first a b ≡ true → comes_first b c ≡ true → comes_first a c ≡ true
comes_first_trans a b c h k = ground arith

comes_first_total : (a b : Job) → comes_first a b ≡ false → comes_first b a ≡ true
comes_first_total a b h = ground arith

comes_first_self : (a : Job) → comes_first a a ≡ true
comes_first_self a = ground arith

better-ne-none : (j : Job) (o : Option Job) → better j o ≢ none
better-ne-none j none h = cc
better-ne-none j (some b) h = ground arith

module _ (stage : JobStage) (now : ℕ) (locked : ℕ → Bool) where
  -- No row is selected only if none is claimable.
  pub select_job-none :
      (jobs : List Job)
      → select_job stage now locked jobs ≡ none
      → All (λ j. is_claimable stage now locked j ≡ false) jobs
  unfolding select_job
  select_job-none [] h = tt
  select_job-none (j ∷ jobs) h = elim (Bool-cases (is_claimable stage now locked j)) [
    | inl e ↦ absurd (better-ne-none j (select_job stage now locked jobs) (rw e at h))
    | inr e ↦ (e, select_job-none jobs (rw e at h))
  ]

  IsBest-newcomer :
      (jobs : List Job) (j : Job)
      → is_claimable stage now locked j ≡ true
      → All (λ k. is_claimable stage now locked k ≡ true → comes_first j k ≡ true) jobs
      → IsBest stage now locked (j ∷ jobs) j
  IsBest-newcomer jobs j e h = record {
    claimable = e;
    among = inl refl;
    first = (λ _. comes_first_self j, h);
  }

  IsBest-cons :
      (jobs : List Job) (j sel : Job)
      → (is_claimable stage now locked j ≡ true → comes_first sel j ≡ true)
      → IsBest stage now locked jobs sel
      → IsBest stage now locked (j ∷ jobs) sel
  IsBest-cons jobs j sel before h = record {
    claimable = h.claimable;
    among = inr h.among;
    first = (before, h.first);
  }

  better-IsBest :
      (jobs : List Job) (j b sel : Job)
      → is_claimable stage now locked j ≡ true
      → IsBest stage now locked jobs b
      → better j (some b) ≡ some sel
      → IsBest stage now locked (j ∷ jobs) sel
  better-IsBest jobs j b sel e best h = elim (Bool-cases (comes_first j b)) [
    | inl c ↦
        let same : j ≡ sel = some_eq (rw c at h) in
        subst (IsBest stage now locked (j ∷ jobs)) same (
          IsBest-newcomer jobs j e
            (All-map (λ k first on. comes_first_trans j b k c (first on)) jobs best.first))
    | inr c ↦
        let same : b ≡ sel = some_eq (rw c at h) in
        subst (IsBest stage now locked (j ∷ jobs)) same
          (IsBest-cons jobs j b (λ _. comes_first_total j b c) best)
  ]

  pub select_job-IsBest :
      (jobs : List Job) (sel : Job)
      → select_job stage now locked jobs ≡ some sel
      → IsBest stage now locked jobs sel
  unfolding select_job
  select_job-IsBest [] sel h = absurd (cc)
  select_job-IsBest (j ∷ jobs) sel h = elim (Bool-cases (is_claimable stage now locked j)) [
    | inr e ↦
        IsBest-cons jobs j sel (λ on. absurd (cc (e, on))) (select_job-IsBest jobs sel (rw e at h))
    | inl e ↦ elim (Option-cases (select_job stage now locked jobs)) [
      | inl empty ↦
          let same : j ≡ sel = some_eq (rw (e, empty) at h) in
          subst (IsBest stage now locked (j ∷ jobs)) same (
            IsBest-newcomer jobs j e
              (All-map (λ k off on. absurd (cc (off, on))) jobs (select_job-none jobs empty)))
      | inr (b, found) ↦
          better-IsBest jobs j b sel e (select_job-IsBest jobs b found) (rw (e, found) at h)
    ]
  ]

-- A claim that returns nothing means that no row of the table is claimable, and leaves the table as
-- it is.
pub pick_job-none :
    (w : Worker) (now : ℕ) (locked : ℕ → Bool) (jobs : List Job)
    → (pick_job w now locked jobs).0 ≡ none
    → All (λ j. is_claimable w.stage now locked j ≡ false) jobs
      × ((pick_job w now locked jobs).1 ≡ jobs)
unfolding pick_job
pick_job-none w now locked jobs h = elim (Option-cases (select_job w.stage now locked jobs)) [
  | inl e ↦ (select_job-none w.stage now locked jobs e, rw e)
  | inr (sel, e) ↦ ground (arith, e)
]

pub pick_job-IsBest :
    (w : Worker) (now : ℕ) (locked : ℕ → Bool) (jobs : List Job) (item : JobItem)
    → (pick_job w now locked jobs).0 ≡ some item
    → (sel : Job) × IsBest w.stage now locked jobs sel
      × (item ≡ item_of w now sel)
      × ((pick_job w now locked jobs).1 ≡ update_where (has_id sel.job_id) (claimed_by w now) jobs)
unfolding pick_job
pick_job-IsBest w now locked jobs item h =
    elim (Option-cases (select_job w.stage now locked jobs)) [
      | inl e ↦ absurd (ground (arith, e))
      | inr (sel, e) ↦
          (sel, select_job-IsBest w.stage now locked jobs sel e, sym (some_eq (rw e at h)), rw e)
    ]

pub claimable_pending :
    (stage : JobStage) (now : ℕ) (locked : ℕ → Bool) (j : Job)
    → is_claimable stage now locked j ≡ true
    → is_pending j.status ≡ true
claimable_pending stage now locked j h = ground arith

-- Two claims on the jobs table, one after the other, by whichever workers and at whatever times,
-- never return the same job.
pub pick_job_exclusive :
    (w v : Worker) (now later : ℕ) (locked skipped : ℕ → Bool) (jobs : List Job) (a b : JobItem)
    → (pick_job w now locked jobs).0 ≡ some a
    → (pick_job v later skipped (pick_job w now locked jobs).1).0 ≡ some b
    → a.job_id ≢ b.job_id
pick_job_exclusive w v now later locked skipped jobs a b first second same =
    let (sel, best, item, after) = pick_job-IsBest w now locked jobs a first in
    let (sel', best', item', _) =
      pick_job-IsBest v later skipped (pick_job w now locked jobs).1 b second in
    let taken =
      update_where-All (λ _. Unit {0})
        (λ j. has_id sel.job_id j ≡ true → is_pending j.status ≡ false) (has_id sel.job_id)
        (claimed_by w now) jobs (λ j _ _ _. refl) (λ j _ off on. absurd (cc (off, on)))
        (All-unit jobs) in
    let busy : is_pending sel'.status ≡ false =
      All-Among (λ j. has_id sel.job_id j ≡ true → is_pending j.status ≡ false) _ sel' taken
        (subst (Among sel') after best'.among) (ground (arith, item, item', same)) in
    cc (busy, claimable_pending v.stage later skipped sel' best'.claimable)
