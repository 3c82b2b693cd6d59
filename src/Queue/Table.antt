-- ===== src/Queue/Table.antt =====
-- The rows of the table: how an `UPDATE` acts on them, and their primary key.
use a_pag_ai_knowledge_base.Prelude.{
  ◌≡◌, refl, sym, subst, Bool, Bool-cases, true, false, ◌⊎◌, inl, inr, List, [], ◌∷◌, arith, All,
  All-map,
}
use a_pag_ai_knowledge_base.Queue.{Job, update_where, has_id}

pub update_where-All :
    (P Q : Job → Type 0) (test : Job → Bool) (change : Job → Job) (jobs : List Job)
    → ((j : Job) → P j → test j ≡ true → Q (change j))
    → ((j : Job) → P j → test j ≡ false → Q j)
    → All P jobs
    → All Q (update_where test change jobs)
unfolding update_where
update_where-All P Q test change [] hit miss h = tt
update_where-All P Q test change (j ∷ jobs) hit miss h =
    ground (arith, hit j h.0, miss j h.0, update_where-All P Q test change jobs hit miss h.1)

-- The row is one of the table's.
abbrev pub Among : Job → List Job → Type 0
Among j [] = ⊥
Among j (k ∷ ks) = (j ≡ k) ⊎ Among j ks

-- No two rows share a `job_id`, the primary key.
abbrev pub IsKeyed : List Job → Type 0
IsKeyed [] = Unit
IsKeyed (j ∷ js) = All (λ k. has_id j.job_id k ≡ false) js × IsKeyed js

pub update_where-IsKeyed :
    (test : Job → Bool) (change : Job → Job)
    → ((j : Job) → (change j).job_id ≡ j.job_id)
    → (jobs : List Job) → IsKeyed jobs
    → IsKeyed (update_where test change jobs)
unfolding update_where
update_where-IsKeyed test change same [] h = tt
update_where-IsKeyed test change same (j ∷ jobs) h =
    let away =
      update_where-All (λ k. has_id j.job_id k ≡ false) (λ k. has_id j.job_id k ≡ false) test change
        jobs (λ k off _. rw same off) (λ k off _. off) h.0 in
    let rest = update_where-IsKeyed test change same jobs h.1 in
    elim (Bool-cases (test j)) [ inl e ↦ rw e (rw (same j) away, rest) | inr e ↦ rw e (away, rest) ]

pub All-Among : (P : Job → Type 0) (jobs : List Job) (j : Job) → All P jobs → Among j jobs → P j
All-Among P [] j h m = absurd m
All-Among P (k ∷ ks) j h (inl e) = subst P (sym e) h.0
All-Among P (k ∷ ks) j h (inr m) = All-Among P ks j h.1 m

pub keyed_row :
    (jobs : List Job) (sel : Job)
    → IsKeyed jobs
    → Among sel jobs
    → All (λ k. has_id sel.job_id k ≡ true → k ≡ sel) jobs
keyed_row [] sel h m = tt
keyed_row (j ∷ jobs) sel h (inl e) = rw e (λ _. refl, All-map (λ k off hit. cc (off, hit)) jobs h.0)
keyed_row (j ∷ jobs) sel h (inr m) =
    let off = All-Among (λ k. has_id j.job_id k ≡ false) jobs sel h.0 m in
    (λ hit. ground (arith, off, hit), keyed_row jobs sel h.1 m)
