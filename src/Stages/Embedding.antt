-- ===== src/Stages/Embedding.antt =====
-- `EmbeddingJobHandler.process`, a function to a branch.
use a_pag_ai_knowledge_base.Prelude.{
  ℕ, String, Bool, not, ◌&&◌, Option, none, some, List, [], ◌∷◌, map, keep_if, length,
  if◌then◌else◌, leb, ◌==◌,
}
use a_pag_ai_knowledge_base.Access.{names}
use a_pag_ai_knowledge_base.Documents.{Document, DocumentStatus, AuditEventType, same_status}
use a_pag_ai_knowledge_base.Repository.{get_by_id, update_document}
use a_pag_ai_knowledge_base.Scan.{embedding, language_skipped, failure}
use a_pag_ai_knowledge_base.Stages.{
  Fallible, raised, returned, NormalizationResult, ChunkRow, State, StageOutcome, Tools, Embedded,
  value_error, inference_error, vectors, outcome, failed_outcome, transient_outcome, around,
  log_event, save,
}
use a_pag_ai_knowledge_base.Stages.Chunking.{read_normalized}

-- `order_by(chunk_index)`
unfoldable pub insert_by_index : {V : Type 0} → ChunkRow V → List (ChunkRow V) → List (ChunkRow V)
insert_by_index r [] = r ∷ []
insert_by_index r (q ∷ qs) =
    let rest = insert_by_index r qs in
    if leb r.chunk.index q.chunk.index then r ∷ q ∷ qs else q ∷ rest

unfoldable pub order_by_index : {V : Type 0} → List (ChunkRow V) → List (ChunkRow V)
unfolding insert_by_index
order_by_index [] = []
order_by_index (r ∷ rs) = insert_by_index r (order_by_index rs)

-- The passages of a document, in order.
abbrev pub passages_of : {V : Type 0} → ℕ → List (ChunkRow V) → List (ChunkRow V)
passages_of document_id rows = order_by_index (keep_if (λ r. r.document_id == document_id) rows)

-- The vector that `zip` pairs with the passage of this index.
unfoldable pub vector_at : {V : Type 0} → ℕ → List (ChunkRow V) → List V → Option V
vector_at index [] vs = none
vector_at index (r ∷ rs) [] = none
vector_at index (r ∷ rs) (v ∷ vs) =
    let rest = vector_at index rs vs in if r.chunk.index == index then some v else rest

-- `chunk.embedding = vector`, for the rows of the document.
abbrev pub with_vectors :
    {V : Type 0} → ℕ → List (ChunkRow V) → List V → List (ChunkRow V) → List (ChunkRow V)
with_vectors document_id passages vs rows =
    map
      (λ r.
        if r.document_id == document_id
        then record r { embedding = vector_at r.chunk.index passages vs }
        else r)
      rows

module _ {O U V : Type 0} (t : Tools O U V) where
  abbrev pub embed_fail : Document → String → State O V → StageOutcome × State O V
  embed_fail doc reason s =
      let ended = record doc {
        status = DocumentStatus.embedding_failed;
        rejection_reason = some reason;
      } in
      (
        failed_outcome DocumentStatus.embedding_failed reason,
        log_event t doc.id AuditEventType.embedding_failed_event (failure doc.filename reason)
            (save t ended s),
      )

  abbrev pub skip_language : Document → Option String → State O V → StageOutcome × State O V
  skip_language doc language s = (
    outcome DocumentStatus.skipped_unsupported_language,
    log_event t doc.id AuditEventType.embedding_skipped (language_skipped doc.filename language)
        (save t (record doc { status = DocumentStatus.skipped_unsupported_language }) s),
  )

  abbrev pub embedded_document : Document → List V → State O V → StageOutcome × State O V
  embedded_document doc vs s = (
    outcome DocumentStatus.live,
    log_event t doc.id AuditEventType.embedding_completed (embedding (length vs))
        (save t (record doc { status = DocumentStatus.live }) s),
  )

  abbrev pub commit_vectors :
      Document → List (ChunkRow V) → List V → State O V → StageOutcome × State O V
  commit_vectors doc passages vs s =
      let rows = with_vectors doc.id passages vs s.chunks in
      elim (t.commit_error rows) [
        | some e ↦ (
          transient_outcome doc.status
              (around "STORAGE_ERROR: Failed to persist embeddings (" e ")."),
          s,
        )
        | none ↦ embedded_document doc vs (record s { chunks = rows })
      ]

  abbrev pub keep_vectors :
      Document → List (ChunkRow V) → Embedded V → State O V → StageOutcome × State O V
  keep_vectors doc passages (value_error e) s =
      embed_fail doc (around "EMBEDDING_CONFIG_ERROR: " e "") s
  keep_vectors doc passages (inference_error e) s =
      (transient_outcome doc.status (around "EMBEDDING_ERROR: " e ""), s)
  keep_vectors doc passages (vectors vs) s =
      if not (length vs == length passages)
      then embed_fail doc
          (around "VECTOR_COUNT_MISMATCH: " (t.str (length vs))
            (around " vectors for " (t.str (length passages)) " chunks."))
          s
      else commit_vectors doc passages vs s

  abbrev pub embed_passages : Document → List (ChunkRow V) → State O V → StageOutcome × State O V
  embed_passages doc [] s =
      embed_fail doc "NO_CHUNKS_FOUND: Document is CHUNKED but has no passages to embed." s
  embed_passages doc (r ∷ rs) s =
      keep_vectors doc (r ∷ rs)
        (t.embed_document doc.id (map (λ (q : ChunkRow V). q.chunk.text) (r ∷ rs))) s

  -- `_detected_language`
  abbrev pub believed_language : Fallible (NormalizationResult U) → Option String
  believed_language (raised e) = none
  believed_language (returned result) =
      if t.has_little_prose result.full_text then some "en" else result.language

  abbrev pub is_unsupported : Option String → Bool
  is_unsupported language = t.skip_non_english && not (names language "en")

  abbrev pub embed_in_language : Document → Option String → State O V → StageOutcome × State O V
  embed_in_language doc language s =
      if is_unsupported language
      then skip_language doc language s
      else if not t.has_db
      then (transient_outcome doc.status "NO_DB_SESSION: Embedding requires a database session.", s)
      else embed_passages doc (passages_of doc.id s.chunks) s

  abbrev pub embed_found : Option Document → State O V → StageOutcome × State O V
  embed_found none s = (
    failed_outcome DocumentStatus.embedding_failed
        "DOCUMENT_NOT_FOUND: Document ID not registered in database.",
    s,
  )
  embed_found (some doc) s =
      if not (same_status doc.status DocumentStatus.chunked)
      then (outcome doc.status, s)
      else embed_in_language doc (believed_language (read_normalized t doc.id s)) s

  unfoldable pub process_embed : ℕ → State O V → StageOutcome × State O V
  unfolding get_by_id update_document log_event order_by_index vector_at
  process_embed document_id s = embed_found (get_by_id document_id s.world.storage) s
