-- ===== src/Retrieval/Search.antt =====
-- `search`, `_rerank`, `informative_terms` and `assess` of src/modules/retrieval/service.py.
pub mod Preserved
pub mod Visibility
pub mod Grounding
pub mod Ranking
use a_pag_ai_knowledge_base.Prelude.{
  ℕ, zero, suc, ◌+◌, max, String, Bool, true, false, not, ◌&&◌, ◌||◌, Option, none, some, List, [],
  ◌∷◌, ◌++◌, map, any, all, keep_if, take, length, Text, codes, text_eq, is_some, ltb, leb, ◌==◌,
  if◌then◌else◌,
}
use a_pag_ai_knowledge_base.Documents.{Document}
use a_pag_ai_knowledge_base.Repository.{Storage}
use a_pag_ai_knowledge_base.Stages.{Fallible, raised, returned}
use a_pag_ai_knowledge_base.Validation.{occurs_in}
use a_pag_ai_knowledge_base.Retrieval.{
  Passage, Candidate, SearchMode, Engine, Fraction, Ranked, Fused, candidate_pool, is_searchable,
  join_documents, number_from, fuse, sort_by_score, has_semantic_arm, has_lexical_arm,
}
use a_pag_ai_knowledge_base.Retrieval.Query.{lexical_query, is_in}

pub record RetrievedChunk : Type 0 where
  pub chunk_id : ℕ
  pub document_id : ℕ
  pub filename : String
  pub text : Text
  pub page_number : Option ℕ
  pub section_heading : Option String
  pub is_table : Bool
  pub score : Fraction
  pub semantic_rank : Option ℕ
  pub lexical_rank : Option ℕ
  pub similarity : Option ℕ
  pub token_count : ℕ
  pub truncated : Bool
  pub rerank_score : Option ℕ
  pub fusion_rank : Option ℕ

pub record TokenUsage : Type 0 where
  pub query_tokens : ℕ
  pub context_tokens : ℕ
  pub max_sequence_tokens : ℕ
  pub truncated_results : ℕ
  pub model : String
  pub mode : SearchMode
  pub semantic_hits : ℕ
  pub lexical_hits : ℕ

-- A row with its score and the place it held before, where the reranker has run.
pub record Placed (V : Type 0) : Type 0 where
  pub row : Fused V
  pub rerank_score : Option ℕ
  pub fusion_rank : Option ℕ

-- `enumerate` from the rank `n`, with the scores.
abbrev score_rows : {V : Type 0} → ℕ → List (Fused V) → List ℕ → List (Placed V)
score_rows n [] scores = []
score_rows n (row ∷ rows) [] = []
score_rows n (row ∷ rows) (score ∷ scores) =
    record { row = row; rerank_score = some score; fusion_rank = some n }
    ∷ score_rows (suc n) rows scores

-- `sorted(..., key=lambda i: (-scores[i], i))`: the highest score first, ties in their old order.
abbrev score_of : {V : Type 0} → Placed V → ℕ
score_of p = elim p.rerank_score [ none ↦ 0 | some score ↦ score ]

insert_placed : {V : Type 0} → Placed V → List (Placed V) → List (Placed V)
insert_placed p [] = p ∷ []
insert_placed p (q ∷ l) =
    let rest = insert_placed p l in if leb (score_of q) (score_of p) then p ∷ q ∷ l else q ∷ rest

unfoldable pub sort_placed : {V : Type 0} → List (Placed V) → List (Placed V)
unfolding insert_placed
sort_placed [] = []
sort_placed (p ∷ l) = insert_placed p (sort_placed l)

abbrev unscored : {V : Type 0} → Fused V → Placed V
unscored row = record { row = row; rerank_score = none; fusion_rank = none }

abbrev fused_order : {V : Type 0} → ℕ → List (Fused V) → List (Placed V)
fused_order limit rows = map unscored (take limit rows)

abbrev uninformative : List String
uninformative =
    "the" ∷ "a" ∷ "an" ∷ "of" ∷ "for" ∷ "and" ∷ "or" ∷ "in" ∷ "on" ∷ "to" ∷ "is" ∷ "are" ∷ "was"
    ∷ "were" ∷ "what" ∷ "which" ∷ "who" ∷ "whom" ∷ "when" ∷ "where" ∷ "why" ∷ "how" ∷ "does" ∷ "do"
    ∷ "did" ∷ "can" ∷ "could" ∷ "should" ∷ "would" ∷ "that" ∷ "this" ∷ "these" ∷ "those" ∷ "with"
    ∷ "from" ∷ "by" ∷ "at" ∷ "as" ∷ "be" ∷ "been" ∷ "being" ∷ "it" ∷ "its" ∷ "any" ∷ "all" ∷ "best"
    ∷ "about" ∷ "there" ∷ "their" ∷ "you" ∷ "your" ∷ "our" ∷ "we" ∷ "they" ∷ "them" ∷ "has" ∷ "have"
    ∷ "had" ∷ "will" ∷ "may" ∷ "must" ∷ []

-- The best similarity, and none where no result has one.
abbrev higher : Option ℕ → Option ℕ → Option ℕ
higher none best = best
higher (some s) none = some s
higher (some s) (some best) = some (max s best)

unfoldable pub best_similarity : List RetrievedChunk → Option ℕ
best_similarity [] = none
best_similarity (r ∷ results) = higher r.similarity (best_similarity results)

abbrev count_if : {A : Type 0} → (A → Bool) → List A → ℕ
count_if test l = length (keep_if test l)

abbrev total : List ℕ → ℕ
total [] = 0
total (n ∷ l) = n + total l

module _ {V : Type 0} (e : Engine V) where
  -- `_rerank`, with a model that has run.
  abbrev keep_best : List (Fused V) → ℕ → Fallible (List ℕ) → List (Placed V)
  keep_best rows limit (raised error) = fused_order limit rows
  keep_best rows limit (returned scores) =
      if not (length scores == length rows)
      then fused_order limit rows
      else take limit (sort_placed (score_rows 1 rows scores))

  unfoldable pub rerank :
      Option (Text → List Text → Fallible (List ℕ)) → Text → List (Fused V) → ℕ → List (Placed V)
  unfolding sort_placed
  rerank none query rows limit = fused_order limit rows
  rerank (some scores) query [] limit = []
  rerank (some scores) query (row ∷ rows) limit = keep_best (row ∷ rows) limit (
      scores query
        (map (λ (r : Fused V). take e.rerank_max_chars r.candidate.passage.text) (row ∷ rows)))

  abbrev is_embedded : Candidate V → Bool
  is_embedded c = is_some c.passage.embedding

  unfoldable pub semantic_arm :
      Text → ℕ → Option ℕ → Bool → List ℕ → List (Candidate V) → List (Ranked V)
  unfolding is_searchable
  semantic_arm query pool user_id viewer_is_admin document_ids candidates = number_from 1 (
      take pool (
        map (λ (r : Candidate V × ℕ). (r.0, some r.1))
          (e.nearest (e.embed_query query) (
            keep_if (λ c. is_embedded c && is_searchable user_id viewer_is_admin document_ids c)
              candidates))))

  unfoldable pub lexical_arm :
      Text → ℕ → Option ℕ → Bool → List ℕ → List (Candidate V) → List (Ranked V)
  unfolding is_searchable lexical_query
  lexical_arm query pool user_id viewer_is_admin document_ids candidates = number_from 1 (
      take pool (
        map (λ (c : Candidate V). (c, none))
          (e.best_matches (lexical_query e query) document_ids
            (keep_if (is_searchable user_id viewer_is_admin []) candidates))))

  abbrev asked_reranker : Option Bool → Option (Text → List Text → Fallible (List ℕ))
  asked_reranker (some false) = none
  asked_reranker (some true) = e.reranker
  asked_reranker none = e.reranker

  -- The rows that the statement returns: how many it may, and the arms that the mode has.
  unfoldable pub select_rows :
      Text → Option ℕ → Bool → ℕ → SearchMode → List ℕ → List (Candidate V) → List (Fused V)
  unfolding semantic_arm lexical_arm fuse sort_by_score candidate_pool
  select_rows query user_id viewer_is_admin fetch mode document_ids candidates =
      let pool = candidate_pool fetch in
      let sem =
        if has_semantic_arm mode
        then semantic_arm query pool user_id viewer_is_admin document_ids candidates
        else [] in
      let lex =
        if has_lexical_arm mode
        then lexical_arm query pool user_id viewer_is_admin document_ids candidates
        else [] in
      take fetch (sort_by_score (fuse sem lex))

  abbrev fetch_size : Option (Text → List Text → Fallible (List ℕ)) → ℕ → ℕ
  fetch_size none limit = limit
  fetch_size (some scores) limit = max limit e.rerank_candidates

  unfoldable pub retrieved : Placed V → RetrievedChunk
  retrieved p =
      let passage = p.row.candidate.passage in
      let tokens = e.count_tokens passage.text in
      record {
        chunk_id = passage.chunk_id;
        document_id = passage.document_id;
        filename = p.row.candidate.document.filename;
        text = passage.text;
        page_number = passage.page_number;
        section_heading = passage.section_heading;
        is_table = passage.is_table;
        score = p.row.score;
        semantic_rank = p.row.semantic_rank;
        lexical_rank = p.row.lexical_rank;
        similarity = p.row.similarity;
        token_count = tokens;
        truncated = ltb e.max_sequence_tokens tokens;
        rerank_score = p.rerank_score;
        fusion_rank = p.fusion_rank;
      }

  abbrev query_size : Text → ℕ
  query_size [] = 0
  query_size (c ∷ query) = e.count_tokens (c ∷ query)

  unfoldable pub usage_of : Text → SearchMode → List RetrievedChunk → TokenUsage
  usage_of query mode results = record {
    query_tokens = query_size query;
    context_tokens = total (map (λ (r : RetrievedChunk). r.token_count) results);
    max_sequence_tokens = e.max_sequence_tokens;
    truncated_results = count_if (λ (r : RetrievedChunk). r.truncated) results;
    model = e.model_name;
    mode = mode;
    semantic_hits = count_if (λ (r : RetrievedChunk). is_some r.semantic_rank) results;
    lexical_hits = count_if (λ (r : RetrievedChunk). is_some r.lexical_rank) results;
  }

  unfoldable pub search :
      Storage
      → List (Passage V)
      → Text
      → Option ℕ
      → Bool
      → ℕ
      → SearchMode
      → Option Bool
      → List ℕ
      → List RetrievedChunk × TokenUsage
  unfolding rerank select_rows retrieved usage_of join_documents
  search storage passages query user_id viewer_is_admin limit mode reranks document_ids =
      let reranker = asked_reranker reranks in
      let rows =
        select_rows query user_id viewer_is_admin (fetch_size reranker limit) mode document_ids
          (join_documents storage passages) in
      let results = map retrieved (rerank reranker query rows limit) in
      (results, usage_of query mode results)

  -- `[t for t in words if len(t) > 2 and t not in _UNINFORMATIVE]`
  unfoldable pub informative_terms : Text → List Text
  informative_terms query =
      keep_if (λ t. ltb 2 (length t) && not (is_in t uninformative)) (e.find_words (e.lower query))

  abbrev contains_all : List Text → RetrievedChunk → Bool
  contains_all terms r =
      is_some r.lexical_rank && all (λ term. occurs_in term (e.lower r.text)) terms

  abbrev literal_match : List Text → List RetrievedChunk → Bool
  literal_match [] results = false
  literal_match (t ∷ terms) results = any (contains_all (t ∷ terms)) results

  unfoldable pub has_literal_match : Text → List RetrievedChunk → Bool
  unfolding informative_terms occurs_in
  has_literal_match query results = literal_match (informative_terms query) results

  abbrev is_asked : Text → Bool
  is_asked [] = false
  is_asked (c ∷ query) = true

  unfoldable pub assess : List RetrievedChunk → Text → Bool × Option ℕ
  unfolding best_similarity has_literal_match
  assess results query =
      let best = best_similarity results in
      if is_asked query && has_literal_match query results
      then (true, best)
      else elim best [ none ↦ (false, none) | some s ↦ (leb e.search_min_similarity s, some s) ]
