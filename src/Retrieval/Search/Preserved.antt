-- ===== src/Retrieval/Search/Preserved.antt =====
-- A property of all the rows of the arms is one of what the fusion and the reranker make of them.
use a_pag_ai_knowledge_base.Prelude.{
  ℕ, suc, ◌≡◌, refl, Bool, true, false, not, ◌&&◌, Option, none, some, List, [], ◌∷◌, map, take,
  length, All, All-append, All-keep_if, All-take, Text, leb, ◌==◌, if_either,
}
use a_pag_ai_knowledge_base.Stages.{Fallible, raised, returned}
use a_pag_ai_knowledge_base.Retrieval.{
  Candidate, Engine, Ranked, Fused, number_from, fuse, fuse_row, lexical_row, insert_by_score,
  sort_by_score, ranks_first, is_ranked, chunk_id_of,
}
use a_pag_ai_knowledge_base.Retrieval.Search.{
  Placed, score_rows, insert_placed, sort_placed, fused_order, keep_best, rerank, score_of,
  unscored,
}

pub All-over {ℓ κ} :
    {A B : Type ℓ} (f : A → B) (P : B → Type κ) (l : List A)
    → All (λ a. P (f a)) l
    → All P (map f l)
All-over f P [] h = tt
All-over f P (a ∷ l) h = (h.0, All-over f P l h.1)

pub both : (a b : Bool) → a && b ≡ true → (a ≡ true) × (b ≡ true)
both true true h = (refl, refl)
both true false h = absurd (cc h)
both false b h = absurd (cc h)

-- A property of the candidates is one of what becomes of them.
module _ {V : Type 0} (P : Candidate V → Type 0) where
  pub number_from-All :
      (n : ℕ) (rows : List (Candidate V × Option ℕ))
      → All (λ r. P r.0) rows
      → All (λ (r : Ranked V). P r.candidate) (number_from n rows)
  number_from-All n [] h = tt
  number_from-All n (row ∷ rows) h = (h.0, number_from-All (suc n) rows h.1)

  pub fuse-All :
      (sem lex : List (Ranked V))
      → All (λ r. P r.candidate) sem
      → All (λ r. P r.candidate) lex
      → All (λ (f : Fused V). P f.candidate) (fuse sem lex)
  unfolding fuse
  fuse-All sem lex h k =
      All-append (λ (f : Fused V). P f.candidate) (map (fuse_row lex) sem) _
        (All-over (fuse_row lex) (λ (f : Fused V). P f.candidate) sem h)
        (All-over lexical_row (λ (f : Fused V). P f.candidate) _
          (All-keep_if (λ (r : Ranked V). P r.candidate)
            (λ r. not (is_ranked (chunk_id_of r.candidate) sem)) lex k))

  insert_by_score-All :
      (f : Fused V) (l : List (Fused V))
      → P f.candidate
      → All (λ (g : Fused V). P g.candidate) l
      → All (λ (g : Fused V). P g.candidate) (insert_by_score f l)
  unfolding insert_by_score
  insert_by_score-All f [] h k = (h, tt)
  insert_by_score-All f (g ∷ l) h k =
      if_either (All (λ (x : Fused V). P x.candidate)) (ranks_first f g) (h, k)
        (k.0, insert_by_score-All f l h k.1)

  pub sort_by_score-All :
      (l : List (Fused V))
      → All (λ (g : Fused V). P g.candidate) l
      → All (λ (g : Fused V). P g.candidate) (sort_by_score l)
  unfolding sort_by_score
  sort_by_score-All [] h = tt
  sort_by_score-All (f ∷ l) h =
      insert_by_score-All f (sort_by_score l) h.0 (sort_by_score-All l h.1)

  abbrev pub Holds : Placed V → Type 0
  Holds p = P p.row.candidate

  score_rows-All :
      (n : ℕ) (rows : List (Fused V)) (scores : List ℕ)
      → All (λ (f : Fused V). P f.candidate) rows
      → All Holds (score_rows n rows scores)
  score_rows-All n [] scores h = tt
  score_rows-All n (row ∷ rows) [] h = tt
  score_rows-All n (row ∷ rows) (score ∷ scores) h = (h.0, score_rows-All (suc n) rows scores h.1)

  insert_placed-All :
      (p : Placed V) (l : List (Placed V)) → Holds p → All Holds l → All Holds (insert_placed p l)
  unfolding insert_placed
  insert_placed-All p [] h k = (h, tt)
  insert_placed-All p (q ∷ l) h k =
      if_either (All Holds) (leb (score_of q) (score_of p)) (h, k)
        (k.0, insert_placed-All p l h k.1)

  sort_placed-All : (l : List (Placed V)) → All Holds l → All Holds (sort_placed l)
  unfolding sort_placed
  sort_placed-All [] h = tt
  sort_placed-All (p ∷ l) h = insert_placed-All p (sort_placed l) h.0 (sort_placed-All l h.1)

  fused_order-All :
      (limit : ℕ) (rows : List (Fused V))
      → All (λ (f : Fused V). P f.candidate) rows
      → All Holds (fused_order limit rows)
  fused_order-All limit rows h =
      All-over unscored Holds (take limit rows)
        (All-take (λ (f : Fused V). P f.candidate) limit rows h)

  keep_best-All :
      (e : Engine V) (rows : List (Fused V)) (limit : ℕ) (scores : Fallible (List ℕ))
      → All (λ (f : Fused V). P f.candidate) rows
      → All Holds (keep_best e rows limit scores)
  keep_best-All e rows limit (raised error) h = fused_order-All limit rows h
  keep_best-All e rows limit (returned scores) h =
      if_either (All Holds) (not (length scores == length rows)) (fused_order-All limit rows h) (
        All-take Holds limit (sort_placed (score_rows 1 rows scores))
          (sort_placed-All (score_rows 1 rows scores) (score_rows-All 1 rows scores h)))

  pub rerank-All :
      (e : Engine V) (model : Option (Text → List Text → Fallible (List ℕ))) (query : Text)
      (rows : List (Fused V)) (limit : ℕ)
      → All (λ (f : Fused V). P f.candidate) rows
      → All Holds (rerank e model query rows limit)
  unfolding rerank
  rerank-All e none query rows limit h = fused_order-All limit rows h
  rerank-All e (some scores) query [] limit h = tt
  rerank-All e (some scores) query (row ∷ rows) limit h = keep_best-All e (row ∷ rows) limit _ h
