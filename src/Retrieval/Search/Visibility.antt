-- ===== src/Retrieval/Search/Visibility.antt =====
-- What a search may return.
use a_pag_ai_knowledge_base.Prelude.{
  ℕ, ◌≡◌, refl, Bool, true, ◌&&◌, Option-cases, inl, inr, Option, none, some, List, [], ◌∷◌,
  keep_if, All, All-keep_if, All-take, All-map, All-zip, keep_if-true, Text, if_either,
}
use a_pag_ai_knowledge_base.Documents.{Document}
use a_pag_ai_knowledge_base.Repository.{Storage, find_by_id}
use a_pag_ai_knowledge_base.Retrieval.{
  Passage, Candidate, SearchMode, Engine, Ranked, Fused, candidate_pool, shows, in_scope,
  is_searchable, join_documents, has_semantic_arm, has_lexical_arm,
}
use a_pag_ai_knowledge_base.Retrieval.Query.{lexical_query}
use a_pag_ai_knowledge_base.Retrieval.Search.{
  RetrievedChunk, semantic_arm, lexical_arm, select_rows, fetch_size, asked_reranker, retrieved,
  search, is_embedded,
}
use a_pag_ai_knowledge_base.Retrieval.Search.Preserved.{
  All-over, both, number_from-All, fuse-All, sort_by_score-All, rerank-All,
}

join_documents-step :
    {V : Type 0} (s : Storage) (p : Passage V) (passages : List (Passage V))
    → join_documents s (p ∷ passages)
      ≡ elim (find_by_id p.document_id s) as (λ _. List (Candidate V)) [
        | none ↦ join_documents s passages
        | some d ↦ record { passage = p; document = d } ∷ join_documents s passages
      ]
unfolding join_documents
join_documents-step s p passages = refl

join_documents-joined :
    {V : Type 0} (s : Storage) (passages : List (Passage V))
    → All
        (λ (c : Candidate V). find_by_id c.passage.document_id s ≡ some c.document)
        (join_documents s passages)
unfolding join_documents
join_documents-joined s [] = tt
join_documents-joined s (p ∷ passages) = elim (Option-cases (find_by_id p.document_id s)) [
  | inl e ↦ rw (join_documents-step s p passages) (rw e (join_documents-joined s passages))
  | inr (d, e) ↦ rw (join_documents-step s p passages) (rw e (e, join_documents-joined s passages))
]

-- The document of a result is stored, shown to the viewer, and in the scope.
abbrev pub IsShown : Storage → Option ℕ → Bool → List ℕ → RetrievedChunk → Type 0
IsShown storage user_id viewer_is_admin document_ids r =
    (d : Document) × (find_by_id r.document_id storage ≡ some d)
    × (shows user_id viewer_is_admin d ≡ true)
    × (in_scope document_ids d.id ≡ true)

-- The WHERE clauses, and what the indexes promise: they return rows that are selected, and the lexical
-- one rows in the scope.
module _ {V : Type 0} (e : Engine V)
    (nearest_selects : (P : Candidate V → Type 0) (v : V) (l : List (Candidate V))
      → All P l
      → All (λ r. P r.0) (e.nearest v l))
    (best_matches_selects : (P : Candidate V → Type 0) (query : Text) (ids : List ℕ)
        (l : List (Candidate V))
      → All P l
      → All P (e.best_matches query ids l))
    (best_matches_in_scope : (query : Text) (ids : List ℕ) (l : List (Candidate V))
      → All (λ c. in_scope ids c.document.id ≡ true) (e.best_matches query ids l))
    (storage : Storage) (passages : List (Passage V)) (user_id : Option ℕ) (viewer_is_admin : Bool)
    (document_ids : List ℕ) where
  abbrev IsOpen : Candidate V → Type 0
  IsOpen c =
      (find_by_id c.passage.document_id storage ≡ some c.document)
      × (shows user_id viewer_is_admin c.document ≡ true)
      × (in_scope document_ids c.document.id ≡ true)

  semantic_arm-IsOpen :
      (query : Text) (pool : ℕ)
      → All
          (λ (r : Ranked V). IsOpen r.candidate)
          (semantic_arm e query pool user_id viewer_is_admin document_ids
            (join_documents storage passages))
  unfolding semantic_arm is_searchable
  semantic_arm-IsOpen query pool =
      let candidates = join_documents storage passages in
      let test : Candidate V → Bool =
        λ c. is_embedded e c && is_searchable user_id viewer_is_admin document_ids c in
      let joined : Candidate V → Type 0 =
        λ c. find_by_id c.passage.document_id storage ≡ some c.document in
      let selected : All IsOpen (keep_if test candidates) =
        All-map (λ c h. (h.0, (both _ _ (both _ _ h.1).1).0, (both _ _ (both _ _ h.1).1).1)) _
          (All-zip joined (λ c. test c ≡ true) _
            (All-keep_if joined test candidates (join_documents-joined storage passages))
            (keep_if-true test candidates)) in
      number_from-All IsOpen 1 _ (
        All-take (λ (r : Candidate V × Option ℕ). IsOpen r.0) pool _
          (All-over (λ (r : Candidate V × ℕ). (r.0, some r.1)) (λ r. IsOpen r.0) _
            (nearest_selects IsOpen (e.embed_query query) (keep_if test candidates) selected)))

  lexical_arm-IsOpen :
      (query : Text) (pool : ℕ)
      → All
          (λ (r : Ranked V). IsOpen r.candidate)
          (lexical_arm e query pool user_id viewer_is_admin document_ids
            (join_documents storage passages))
  unfolding lexical_arm is_searchable
  lexical_arm-IsOpen query pool =
      let candidates = join_documents storage passages in
      let test : Candidate V → Bool = is_searchable user_id viewer_is_admin [] in
      let joined : Candidate V → Type 0 =
        λ c. find_by_id c.passage.document_id storage ≡ some c.document in
      let shown : Candidate V → Type 0 =
        λ c. joined c × (shows user_id viewer_is_admin c.document ≡ true) in
      let selected : All shown (keep_if test candidates) =
        All-map (λ c h. (h.0, (both _ _ h.1).0)) _
          (All-zip joined (λ c. test c ≡ true) _
            (All-keep_if joined test candidates (join_documents-joined storage passages))
            (keep_if-true test candidates)) in
      let found = e.best_matches (lexical_query e query) document_ids (keep_if test candidates) in
      number_from-All IsOpen 1 _ (
        All-take (λ (r : Candidate V × Option ℕ). IsOpen r.0) pool _
          (All-over (λ (c : Candidate V). (c, none)) (λ r. IsOpen r.0) found
            (All-map (λ c h. (h.0.0, h.0.1, h.1)) found
              (All-zip shown (λ c. in_scope document_ids c.document.id ≡ true) found
                (best_matches_selects shown (lexical_query e query) document_ids _ selected)
                (best_matches_in_scope (lexical_query e query) document_ids
                  (keep_if test candidates))))))

  select_rows-IsOpen :
      (query : Text) (fetch : ℕ) (mode : SearchMode)
      → All
          (λ (f : Fused V). IsOpen f.candidate)
          (select_rows e query user_id viewer_is_admin fetch mode document_ids
            (join_documents storage passages))
  unfolding select_rows
  select_rows-IsOpen query fetch mode =
      All-take (λ (f : Fused V). IsOpen f.candidate) fetch _
        (sort_by_score-All IsOpen _ (
          fuse-All IsOpen _ _
            (if_either (All (λ (r : Ranked V). IsOpen r.candidate)) (has_semantic_arm mode)
              (semantic_arm-IsOpen query (candidate_pool fetch)) tt)
            (if_either (All (λ (r : Ranked V). IsOpen r.candidate)) (has_lexical_arm mode)
              (lexical_arm-IsOpen query (candidate_pool fetch)) tt)))

  -- Where the indexes return rows of those that the WHERE clauses select, and the lexical index
  -- rows in the scope that it is given, every result of a search is a passage of a stored document
  -- that is not deleted, that the viewer may see, and that is in the scope, in every mode, and
  -- whether or not a reranker runs, fails, or gives the wrong number of scores.
  pub search_stays_authorised :
      (query : Text) (limit : ℕ) (mode : SearchMode) (reranks : Option Bool)
      → All
          (IsShown storage user_id viewer_is_admin document_ids)
          (search e storage passages query user_id viewer_is_admin limit mode reranks
            document_ids).0
  unfolding search retrieved
  search_stays_authorised query limit mode reranks =
      All-over (retrieved e) (IsShown storage user_id viewer_is_admin document_ids) _ (
        All-map (λ p open_. (p.row.candidate.document, open_.0, open_.1, open_.2)) _
          (rerank-All IsOpen e (asked_reranker e reranks) query _ limit
            (select_rows-IsOpen query (fetch_size e (asked_reranker e reranks) limit) mode)))
