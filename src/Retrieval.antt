-- ===== src/Retrieval.antt =====
-- RetrievalService of src/modules/retrieval/service.py with fusion.py, models.py and lexical_query.py:
-- the arms of a search and their fusion. A float of a model is only compared, so a natural number
-- stands for its place among the floats; the fusion scores are the fractions that the code rounds.
pub mod Query
pub mod Search
pub mod Examples
use a_pag_ai_knowledge_base.Prelude.{
  ℕ, zero, suc, ◌+◌, ◌*◌, min, max, String, Bool, true, false, not, ◌&&◌, ◌||◌, Option, none, some,
  List, [], ◌∷◌, ◌++◌, map, any, keep_if, take, length, Text, is_some, ltb, leb, ◌==◌,
  if◌then◌else◌,
}
use a_pag_ai_knowledge_base.Access.{can_view}
use a_pag_ai_knowledge_base.Documents.{Document}
use a_pag_ai_knowledge_base.Repository.{Storage, find_by_id}
use a_pag_ai_knowledge_base.Stages.{Fallible}

-- A row of `document_chunks`.
pub record Passage (V : Type 0) : Type 0 where
  pub chunk_id : ℕ
  pub document_id : ℕ
  pub text : Text
  pub page_number : Option ℕ
  pub section_heading : Option String
  pub is_table : Bool
  pub embedding : Option V

-- A passage joined with its document.
pub record Candidate (V : Type 0) : Type 0 where
  pub passage : Passage V
  pub document : Document

pub data SearchMode : Type 0 where
  hybrid semantic lexical : SearchMode

-- The embedding model, the indexes of pgvector and pg_search, the reranker, and what Python's strings
-- and regular expressions give. An index returns rows of those that the WHERE clause selects, the
-- best ones first; a scope goes inside the query of pg_search.
pub record Engine (V : Type 0) : Type 0 where
  pub embed_query : Text → V
  pub nearest : V → List (Candidate V) → List (Candidate V × ℕ)
  pub best_matches : Text → List ℕ → List (Candidate V) → List (Candidate V)
  pub reranker : Option (Text → List Text → Fallible (List ℕ))
  pub count_tokens : Text → ℕ
  pub max_sequence_tokens : ℕ
  pub model_name : String
  pub rerank_candidates : ℕ
  pub rerank_max_chars : ℕ
  pub search_min_similarity : ℕ
  pub split : Text → List Text
  pub trim_edges : Text → Text
  pub is_upper : Text → Bool
  pub lower : Text → Text
  pub find_words : Text → List Text

abbrev pub rrf_k : ℕ
rrf_k = 60

abbrev pub max_candidates : ℕ
max_candidates = 200

unfoldable pub candidate_pool : ℕ → ℕ
candidate_pool limit = min max_candidates (max limit (limit * 5))

pub record Fraction : Type 0 where
  pub num : ℕ
  pub den : ℕ

unfoldable pub rrf_score : Option ℕ → Fraction
rrf_score none = record { num = 0; den = 1 }
rrf_score (some rank) = record { num = 1; den = rrf_k + rank }

abbrev pub add : Fraction → Fraction → Fraction
add a b = record { num = a.num * b.den + b.num * a.den; den = a.den * b.den }

abbrev pub is_above : Fraction → Fraction → Bool
is_above a b = ltb (b.num * a.den) (a.num * b.den)

-- `document_id IN (...)`, where a scope is given.
abbrev pub in_scope : List ℕ → ℕ → Bool
in_scope [] document_id = true
in_scope (i ∷ ids) document_id = any (λ j. document_id == j) (i ∷ ids)

abbrev pub shows : Option ℕ → Bool → Document → Bool
shows user_id viewer_is_admin d =
    not (is_some d.deleted_at) && can_view d.classification d.owner_id user_id viewer_is_admin

-- `_visible`
unfoldable pub is_searchable : {V : Type 0} → Option ℕ → Bool → List ℕ → Candidate V → Bool
unfolding can_view
is_searchable user_id viewer_is_admin document_ids c =
    shows user_id viewer_is_admin c.document && in_scope document_ids c.document.id

-- `.join(DocumentORM, DocumentORM.document_id == ChunkORM.document_id)`
unfoldable pub join_documents : {V : Type 0} → Storage → List (Passage V) → List (Candidate V)
unfolding find_by_id
join_documents s [] = []
join_documents s (p ∷ passages) =
    let rest = join_documents s passages in
    elim (find_by_id p.document_id s) [
      | none ↦ rest
      | some d ↦ record { passage = p; document = d } ∷ rest
    ]

-- A row of an arm. `chunk_id` is the primary key, so that the row stands for its passage.
pub record Ranked (V : Type 0) : Type 0 where
  pub candidate : Candidate V
  pub rank : ℕ
  pub similarity : Option ℕ

-- `row_number()`
abbrev number_from : {V : Type 0} → ℕ → List (Candidate V × Option ℕ) → List (Ranked V)
number_from n [] = []
number_from n (row ∷ rows) =
    record { candidate = row.0; rank = n; similarity = row.1 } ∷ number_from (suc n) rows

pub record Fused (V : Type 0) : Type 0 where
  pub candidate : Candidate V
  pub score : Fraction
  pub semantic_rank : Option ℕ
  pub lexical_rank : Option ℕ
  pub similarity : Option ℕ

abbrev pub chunk_id_of : {V : Type 0} → Candidate V → ℕ
chunk_id_of c = c.passage.chunk_id

-- The rank that the other arm gives to the passage.
abbrev rank_in : {V : Type 0} → ℕ → List (Ranked V) → Option ℕ
rank_in chunk_id [] = none
rank_in chunk_id (r ∷ rows) =
    let rest = rank_in chunk_id rows in
    if chunk_id_of r.candidate == chunk_id then some r.rank else rest

abbrev pub is_ranked : {V : Type 0} → ℕ → List (Ranked V) → Bool
is_ranked chunk_id rows = any (λ r. chunk_id_of r.candidate == chunk_id) rows

abbrev fuse_row : {V : Type 0} → List (Ranked V) → Ranked V → Fused V
fuse_row lex r =
    let lexical_rank = rank_in (chunk_id_of r.candidate) lex in
    record {
      candidate = r.candidate;
      score = add (rrf_score (some r.rank)) (rrf_score lexical_rank);
      semantic_rank = some r.rank;
      lexical_rank = lexical_rank;
      similarity = r.similarity;
    }

abbrev lexical_row : {V : Type 0} → Ranked V → Fused V
lexical_row r = record {
  candidate = r.candidate;
  score = add (rrf_score none) (rrf_score (some r.rank));
  semantic_rank = none;
  lexical_rank = some r.rank;
  similarity = none;
}

-- The arms joined by FULL OUTER JOIN. An arm that does not run has no rows.
unfoldable pub fuse : {V : Type 0} → List (Ranked V) → List (Ranked V) → List (Fused V)
unfolding rrf_score
fuse sem lex =
    map (fuse_row lex) sem
    ++ map lexical_row (keep_if (λ r. not (is_ranked (chunk_id_of r.candidate) sem)) lex)

-- `ORDER BY score DESC, chunk_id`
abbrev ranks_first : {V : Type 0} → Fused V → Fused V → Bool
ranks_first a b =
    is_above a.score b.score
    || (not (is_above b.score a.score) && leb (chunk_id_of a.candidate) (chunk_id_of b.candidate))

insert_by_score : {V : Type 0} → Fused V → List (Fused V) → List (Fused V)
insert_by_score f [] = f ∷ []
insert_by_score f (g ∷ l) =
    let rest = insert_by_score f l in if ranks_first f g then f ∷ g ∷ l else g ∷ rest

unfoldable pub sort_by_score : {V : Type 0} → List (Fused V) → List (Fused V)
unfolding insert_by_score
sort_by_score [] = []
sort_by_score (f ∷ l) = insert_by_score f (sort_by_score l)

abbrev pub has_semantic_arm : SearchMode → Bool
has_semantic_arm SearchMode.lexical = false
has_semantic_arm _ = true

abbrev pub has_lexical_arm : SearchMode → Bool
has_lexical_arm SearchMode.semantic = false
has_lexical_arm _ = true
