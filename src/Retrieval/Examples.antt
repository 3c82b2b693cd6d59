-- ===== src/Retrieval/Examples.antt =====
-- A search over two passages, of a public document and of another owner's restricted one.
use a_pag_ai_knowledge_base.Prelude.{
  ℕ, min, ◌≡◌, ◌⊎◌, refl, false, none, some, List, [], ◌∷◌, map, keep_if, All, All-keep_if,
  keep_if-true, Text, codes, length,
}
use a_pag_ai_knowledge_base.Access.{public, restricted}
use a_pag_ai_knowledge_base.Documents.{DocumentStatus}
use a_pag_ai_knowledge_base.Repository.{Storage}
use a_pag_ai_knowledge_base.Repository.Examples.{document}
use a_pag_ai_knowledge_base.Stages.{Fallible, returned}
use a_pag_ai_knowledge_base.Retrieval.{Passage, Candidate, SearchMode, Engine, Fused, in_scope}
use a_pag_ai_knowledge_base.Retrieval.Search.{search, rerank}
use a_pag_ai_knowledge_base.Retrieval.Search.Visibility.{IsShown, search_stays_authorised}
use a_pag_ai_knowledge_base.Retrieval.Search.Ranking.{
  IsBefore, IsRanked, IsScored, IsIn, placed, rerank_ranks,
}

abbrev scores : Text → List Text → Fallible (List ℕ)
scores query passages = returned (map (λ (t : Text). length t) passages)

abbrev engine : Engine ℕ
engine = record {
  embed_query = λ text. length text;
  nearest = λ v l. map (λ c. (c, 7)) l;
  best_matches = λ query ids l. keep_if (λ (c : Candidate ℕ). in_scope ids c.document.id) l;
  reranker = some scores;
  count_tokens = λ text. length text;
  max_sequence_tokens = 512;
  model_name = "model";
  rerank_candidates = 50;
  rerank_max_chars = 900;
  search_min_similarity = 5;
  split = λ text. text ∷ [];
  trim_edges = λ text. text;
  is_upper = λ _. false;
  lower = λ text. text;
  find_words = λ text. text ∷ [];
}

abbrev passage : ℕ → ℕ → Text → Passage ℕ
passage chunk_id document_id text = record {
  chunk_id = chunk_id;
  document_id = document_id;
  text = text;
  page_number = some 1;
  section_heading = none;
  is_table = false;
  embedding = some 3;
}

abbrev storage : Storage
storage = document 1 DocumentStatus.live public ∷ document 2 DocumentStatus.live restricted ∷ []

abbrev passages : List (Passage ℕ)
passages = passage 11 1 (codes "open") ∷ passage 12 2 (codes "closed") ∷ []

nearest_selects :
    (P : Candidate ℕ → Type 0) (v : ℕ) (l : List (Candidate ℕ))
    → All P l
    → All (λ r. P r.0) (engine.nearest v l)
nearest_selects P v [] h = tt
nearest_selects P v (c ∷ l) h = (h.0, nearest_selects P v l h.1)

search_stays_authorised_example :
    All
      (IsShown storage (some 8) false [])
      (search engine storage passages (codes "open") (some 8) false 5 SearchMode.hybrid none []).0
search_stays_authorised_example =
    search_stays_authorised engine nearest_selects
      (λ P query ids l h. All-keep_if P (λ (c : Candidate ℕ). in_scope ids c.document.id) l h)
      (λ query ids l. keep_if-true (λ (c : Candidate ℕ). in_scope ids c.document.id) l) storage
      passages (some 8) false [] (codes "open") 5 SearchMode.hybrid none

abbrev fused : ℕ → Text → Fused ℕ
fused chunk_id text = record {
  candidate = record {
    passage = passage chunk_id 1 text;
    document = document 1 DocumentStatus.live public;
  };
  score = record { num = 1; den = 61 };
  semantic_rank = some 1;
  lexical_rank = none;
  similarity = some 7;
}

abbrev rows : List (Fused ℕ)
rows = fused 11 (codes "short") ∷ fused 12 (codes "longer") ∷ fused 13 (codes "again") ∷ []

rerank_ranks_example :
    IsRanked (rerank engine (some scores) (codes "open") rows 2)
    × (length (rerank engine (some scores) (codes "open") rows 2) ≡ min 2 3)
    × All (IsScored 1 rows (5 ∷ 6 ∷ 5 ∷ [])) (rerank engine (some scores) (codes "open") rows 2)
    × (IsIn
          (placed 3 (fused 13 (codes "again")) 5)
          (rerank engine (some scores) (codes "open") rows 2)
        ⊎ All
            (λ q. IsBefore q (placed 3 (fused 13 (codes "again")) 5))
            (rerank engine (some scores) (codes "open") rows 2))
rerank_ranks_example =
    rerank_ranks engine scores (codes "open") rows 2 (5 ∷ 6 ∷ 5 ∷ []) 2 (fused 13 (codes "again")) 5
      refl refl refl refl
