-- ===== src/Retrieval/Search/Ranking.antt =====
-- The order in which a reranker that has run leaves the rows.
use a_pag_ai_knowledge_base.Prelude.{
  ℕ, zero, suc, ◌≡◌, ◌≤◌, ◌<◌, ◌⊎◌, refl, ap, ◌∙◌, Bool-cases, inl, inr, none, some, List, [], ◌∷◌,
  ◌+◌, get_elem?, some_eq, All, All-map, All-zip, All-take, length, length-take, min, take, map,
  Text, leb, arith, tests, if_either, ==_iff, subst,
}
use a_pag_ai_knowledge_base.Stages.{Fallible, returned}
use a_pag_ai_knowledge_base.Retrieval.{Engine, Fused}
use a_pag_ai_knowledge_base.Retrieval.Search.{
  Placed, score_rows, score_of, insert_placed, sort_placed, rerank, keep_best,
}

module _ {V : Type 0} where
  abbrev place : Placed V → ℕ
  place p = elim p.fusion_rank [ none ↦ 0 | some n ↦ n ]

  -- The higher score goes first, and of equal scores the earlier place.
  abbrev pub IsBefore : Placed V → Placed V → Type 0
  IsBefore p q = (score_of q < score_of p) ⊎ ((score_of q ≡ score_of p) × (place p < place q))

  abbrev pub IsRanked : List (Placed V) → Type 0
  IsRanked [] = Unit
  IsRanked (p ∷ l) = All (IsBefore p) l × IsRanked l

  later :
      (p q x : Placed V) → score_of q ≤ score_of p → place p < place x → IsBefore q x → IsBefore p x
  later p q x le lt (inl below) = inl (omega arith)
  later p q x le lt (inr (same, after)) = elim (Bool-cases (leb (score_of p) (score_of q))) [
    | inl equal ↦ inr (omega tests, lt)
    | inr differ ↦ inl (omega tests)
  ]

  first : (p x : Placed V) → score_of x ≤ score_of p → place p < place x → IsBefore p x
  first p x le lt = elim (Bool-cases (leb (score_of p) (score_of x))) [
    | inl equal ↦ inr (omega tests, lt)
    | inr differ ↦ inl (omega tests)
  ]

  insert_placed-Before :
      (q p : Placed V) (l : List (Placed V))
      → IsBefore q p
      → All (IsBefore q) l
      → All (IsBefore q) (insert_placed p l)
  unfolding insert_placed
  insert_placed-Before q p [] h k = (h, tt)
  insert_placed-Before q p (x ∷ l) h k = elim (Bool-cases (leb (score_of x) (score_of p))) [
    | inl here ↦ rw here (h, k)
    | inr there ↦ rw there (k.0, insert_placed-Before q p l h k.1)
  ]

  insert_placed-IsRanked :
      (p : Placed V) (l : List (Placed V))
      → All (λ x. place p < place x) l
      → IsRanked l
      → IsRanked (insert_placed p l)
  unfolding insert_placed
  insert_placed-IsRanked p [] h k = (tt, tt)
  insert_placed-IsRanked p (x ∷ l) h k = elim (Bool-cases (leb (score_of x) (score_of p))) [
    | inl here ↦ rw here (
      (
        first p x (omega tests) h.0,
        All-map (λ y b. later p x y (omega tests) b.1 b.0) l (All-zip _ _ l k.0 h.1),
      ),
      k,
    )
    | inr there ↦
        rw there
          (insert_placed-Before x p l (inl (omega tests)) k.0, insert_placed-IsRanked p l h.1 k.1)
  ]

  insert_placed-All :
      (P : Placed V → Type 0) (p : Placed V) (l : List (Placed V))
      → P p
      → All P l
      → All P (insert_placed p l)
  unfolding insert_placed
  insert_placed-All P p [] h k = (h, tt)
  insert_placed-All P p (x ∷ l) h k =
      if_either (All P) (leb (score_of x) (score_of p)) (h, k) (k.0, insert_placed-All P p l h k.1)

  sort_placed-All : (P : Placed V → Type 0) (l : List (Placed V)) → All P l → All P (sort_placed l)
  unfolding sort_placed
  sort_placed-All P [] h = tt
  sort_placed-All P (p ∷ l) h = insert_placed-All P p (sort_placed l) h.0 (sort_placed-All P l h.1)

  score_rows-later :
      (m n : ℕ) (rows : List (Fused V)) (scores : List ℕ)
      → m < n
      → All (λ x. m < place x) (score_rows n rows scores)
  score_rows-later m n [] scores h = tt
  score_rows-later m n (row ∷ rows) [] h = tt
  score_rows-later m n (row ∷ rows) (score ∷ scores) h =
      (h, score_rows-later m (suc n) rows scores (omega arith))

  sort_score_rows-IsRanked :
      (n : ℕ) (rows : List (Fused V)) (scores : List ℕ)
      → IsRanked (sort_placed (score_rows n rows scores))
  unfolding sort_placed
  sort_score_rows-IsRanked n [] scores = tt
  sort_score_rows-IsRanked n (row ∷ rows) [] = tt
  sort_score_rows-IsRanked n (row ∷ rows) (score ∷ scores) =
      insert_placed-IsRanked _ _
        (sort_placed-All (λ x. n < place x) _
          (score_rows-later n (suc n) rows scores (omega arith)))
        (sort_score_rows-IsRanked (suc n) rows scores)

  take-IsRanked : (n : ℕ) (l : List (Placed V)) → IsRanked l → IsRanked (take n l)
  take-IsRanked zero l h = tt
  take-IsRanked (suc n) [] h = tt
  take-IsRanked (suc n) (p ∷ l) h = (All-take (IsBefore p) n l h.0, take-IsRanked n l h.1)

  -- The row at this place of the fused order, with its score.
  abbrev pub placed : ℕ → Fused V → ℕ → Placed V
  placed n row score = record { row = row; rerank_score = some score; fusion_rank = some n }

  -- The entry stands for a row of those that were scored, at its place and with its score.
  abbrev pub IsScored : ℕ → List (Fused V) → List ℕ → Placed V → Type 0
  IsScored n rows scores p =
      (i : ℕ) × (row : Fused V) × (score : ℕ) × (get_elem? rows i ≡ some row)
      × (get_elem? scores i ≡ some score)
      × (p ≡ placed (n + i) row score)

  score_rows-IsScored :
      (n : ℕ) (rows : List (Fused V)) (scores : List ℕ)
      → All (IsScored n rows scores) (score_rows n rows scores)
  score_rows-IsScored n [] scores = tt
  score_rows-IsScored n (row ∷ rows) [] = tt
  score_rows-IsScored n (row ∷ rows) (score ∷ scores) = (
    (0, row, score, refl, refl, ap (λ (m : ℕ). placed m row score) (omega arith)),
    All-map
        (λ p s. (suc s.0, s.1, s.2, s.3, s.4, s.5 ∙ ap (λ (m : ℕ). placed m s.1 s.2) (omega arith)))
        _ (score_rows-IsScored (suc n) rows scores),
  )

  abbrev pub IsIn : Placed V → List (Placed V) → Type 0
  IsIn p [] = ⊥
  IsIn p (q ∷ l) = (q ≡ p) ⊎ IsIn p l

  IsIn-All : (P : Placed V → Type 0) (p : Placed V) (l : List (Placed V)) → All P l → IsIn p l → P p
  IsIn-All P p [] h x = elim x [ ]
  IsIn-All P p (q ∷ l) h (inl same) = subst P same h.0
  IsIn-All P p (q ∷ l) h (inr deeper) = IsIn-All P p l h.1 deeper

  insert_placed-IsIn :
      (p q : Placed V) (l : List (Placed V)) → IsIn p (q ∷ l) → IsIn p (insert_placed q l)
  unfolding insert_placed
  insert_placed-IsIn p q [] h = h
  insert_placed-IsIn p q (x ∷ l) h =
      if_either (IsIn p) (leb (score_of x) (score_of q)) h
        (behind (λ k. insert_placed-IsIn p q l k) h)
    where
      behind :
          (IsIn p (q ∷ l) → IsIn p (insert_placed q l))
          → IsIn p (q ∷ x ∷ l)
          → IsIn p (x ∷ insert_placed q l)
      behind step (inl same) = inr (step (inl same))
      behind step (inr (inl same)) = inl same
      behind step (inr (inr deeper)) = inr (step (inr deeper))

  sort_placed-IsIn : (p : Placed V) (l : List (Placed V)) → IsIn p l → IsIn p (sort_placed l)
  unfolding sort_placed
  sort_placed-IsIn p [] h = elim h [ ]
  sort_placed-IsIn p (q ∷ l) (inl same) = insert_placed-IsIn p q (sort_placed l) (inl same)
  sort_placed-IsIn p (q ∷ l) (inr deeper) =
      insert_placed-IsIn p q (sort_placed l) (inr (sort_placed-IsIn p l deeper))

  score_rows-IsIn :
      (n i : ℕ) (rows : List (Fused V)) (scores : List ℕ) (row : Fused V) (score : ℕ)
      → get_elem? rows i ≡ some row
      → get_elem? scores i ≡ some score
      → IsIn (placed (n + i) row score) (score_rows n rows scores)
  score_rows-IsIn n i [] scores row score h k = absurd (cc h)
  score_rows-IsIn n i (r ∷ rows) [] row score h k = absurd (cc k)
  score_rows-IsIn n zero (r ∷ rows) (s ∷ scores) row score h k = inl (
      ap (λ (m : ℕ). placed m r s) (omega arith)
      ∙ ap (λ t. placed (n + 0) t s) (some_eq h)
      ∙ ap (λ (t : ℕ). placed (n + 0) row t) (some_eq k))
  score_rows-IsIn n (suc i) (r ∷ rows) (s ∷ scores) row score h k = inr (
      subst (λ (m : ℕ). IsIn (placed m row score) (score_rows (suc n) rows scores)) (omega arith)
        (score_rows-IsIn (suc n) i rows scores row score h k))

  -- What is not among the first ones goes behind them.
  kept_or_behind :
      (k : ℕ) (p : Placed V) (l : List (Placed V))
      → IsRanked l
      → IsIn p l
      → IsIn p (take k l) ⊎ All (λ q. IsBefore q p) (take k l)
  kept_or_behind zero p l ranked h = inr tt
  kept_or_behind (suc k) p [] ranked h = elim h [ ]
  kept_or_behind (suc k) p (q ∷ l) ranked (inl same) = inl (inl same)
  kept_or_behind (suc k) p (q ∷ l) ranked (inr deeper) =
      elim (kept_or_behind k p l ranked.1 deeper) [
        | inl kept ↦ inl (inr kept)
        | inr behind ↦ inr (IsIn-All (IsBefore q) p l ranked.0 deeper, behind)
      ]

  length-insert_placed :
      (p : Placed V) (l : List (Placed V)) → length (insert_placed p l) ≡ suc (length l)
  unfolding insert_placed
  length-insert_placed p [] = refl
  length-insert_placed p (q ∷ l) = elim (Bool-cases (leb (score_of q) (score_of p))) [
    | inl here ↦ rw here refl
    | inr there ↦ rw there (ap suc (length-insert_placed p l))
  ]

  length-sort_score_rows :
      (n : ℕ) (rows : List (Fused V)) (scores : List ℕ)
      → length scores ≡ length rows
      → length (sort_placed (score_rows n rows scores)) ≡ length rows
  unfolding sort_placed
  length-sort_score_rows n [] scores h = refl
  length-sort_score_rows n (row ∷ rows) [] h = absurd (omega (arith, h))
  length-sort_score_rows n (row ∷ rows) (score ∷ scores) h =
      length-insert_placed _ (sort_placed (score_rows (suc n) rows scores))
      ∙ ap suc (length-sort_score_rows (suc n) rows scores (omega (arith, h)))

  abbrev pub shortened : Engine V → List (Fused V) → List Text
  shortened e rows = map (λ (r : Fused V). take e.rerank_max_chars r.candidate.passage.text) rows

  -- When the reranker gives as many scores as there are rows, as many rows are kept as the limit
  -- and the rows allow. Each goes before the next ones because its score is higher, or equal with
  -- an earlier place in the fused order; each is one of the rows, at its place in the fused order
  -- and with the score that the reranker gave to it; and every row is kept with its score, or goes
  -- behind all the rows kept.
  pub rerank_ranks :
      (e : Engine V) (model : Text → List Text → Fallible (List ℕ)) (query : Text)
      (rows : List (Fused V)) (limit : ℕ) (scores : List ℕ) (i : ℕ) (row : Fused V) (score : ℕ)
      → model query (shortened e rows) ≡ returned scores
      → length scores ≡ length rows
      → get_elem? rows i ≡ some row
      → get_elem? scores i ≡ some score
      → IsRanked (rerank e (some model) query rows limit)
        × (length (rerank e (some model) query rows limit) ≡ min limit (length rows))
        × All (IsScored 1 rows scores) (rerank e (some model) query rows limit)
        × (IsIn (placed (1 + i) row score) (rerank e (some model) query rows limit)
            ⊎ All
                (λ q. IsBefore q (placed (1 + i) row score))
                (rerank e (some model) query rows limit))
  unfolding rerank
  rerank_ranks e model query [] limit scores i row score ran same at_row at_score =
      absurd (cc at_row)
  rerank_ranks e model query (r ∷ rows) limit scores i row score ran same at_row at_score =
      let rated = score_rows 1 (r ∷ rows) scores in
      let order = sort_score_rows-IsRanked 1 (r ∷ rows) scores in
      let ranked : keep_best e (r ∷ rows) limit (model query (shortened e (r ∷ rows)))
          ≡ take limit (sort_placed rated) =
        ap (keep_best e (r ∷ rows) limit) ran ∙ simp ((==_iff _ _).1 same) refl in
      rw ranked (
        take-IsRanked limit _ order,
        length-take limit (sort_placed rated)
            ∙ ap (min limit) (length-sort_score_rows 1 (r ∷ rows) scores same),
        All-take _ limit (sort_placed rated)
            (sort_placed-All _ rated (score_rows-IsScored 1 (r ∷ rows) scores)),
        kept_or_behind limit _ (sort_placed rated) order (
            sort_placed-IsIn _ rated
              (score_rows-IsIn 1 i (r ∷ rows) scores row score at_row at_score)),
      )
