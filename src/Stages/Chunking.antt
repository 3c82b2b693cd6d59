-- ===== src/Stages/Chunking.antt =====
-- `ChunkingJobHandler.process`, a function to a branch.
use a_pag_ai_knowledge_base.Prelude.{
  ℕ, ◌+◌, String, not, Option, none, some, List, [], ◌∷◌, ◌++◌, map, keep_if, length, if◌then◌else◌,
  str_eq, ◌==◌,
}
use a_pag_ai_knowledge_base.Documents.{
  Document, DocumentStatus, JobStage, AuditEventType, same_status,
}
use a_pag_ai_knowledge_base.Repository.{get_by_id, update_document}
use a_pag_ai_knowledge_base.Scan.{chunking, failure}
use a_pag_ai_knowledge_base.Stages.{
  Fallible, raised, returned, NormalizationResult, Chunk, ChunkRow, State, StageOutcome, Tools,
  outcome, failed_outcome, transient_outcome, around, log_event, save, enqueue,
}

-- `ChunkingResult.total_chars`
abbrev pub total_chars : List Chunk → ℕ
total_chars [] = 0
total_chars (c ∷ cs) = length c.text + total_chars cs

abbrev pub new_row : {V : Type 0} → ℕ → String → Chunk → ChunkRow V
new_row document_id title c = record {
  document_id = document_id;
  chunk = c;
  document_title = title;
  embedding = none;
}

-- The rows of other documents stay, and the document's are replaced.
abbrev pub replaced_rows :
    {V : Type 0} → ℕ → String → List Chunk → List (ChunkRow V) → List (ChunkRow V)
replaced_rows document_id title new rows =
    keep_if (λ r. not (r.document_id == document_id)) rows ++ map (new_row document_id title) new

module _ {O U V : Type 0} (t : Tools O U V) where
  abbrev pub chunk_fail : Document → String → State O V → StageOutcome × State O V
  chunk_fail doc reason s =
      let ended = record doc {
        status = DocumentStatus.chunking_failed;
        rejection_reason = some reason;
      } in
      (
        failed_outcome DocumentStatus.chunking_failed reason,
        log_event t doc.id AuditEventType.chunking_failed_event (failure doc.filename reason)
            (save t ended s),
      )

  abbrev non_empty_or : String → String → String
  non_empty_or title fallback = if str_eq title "" then fallback else title

  -- `(doc.title or "").strip() or doc.filename.rsplit("/", 1)[-1]`
  abbrev pub title_of : Document → String
  title_of doc =
      non_empty_or (t.strip (elim doc.title [ none ↦ "" | some title ↦ title ]))
        (t.last_segment doc.filename)

  abbrev pub chunked_document : Document → List Chunk → State O V → StageOutcome × State O V
  chunked_document doc new s = (
    outcome DocumentStatus.chunked,
    log_event t doc.id AuditEventType.chunking_completed
        (chunking (length new) (length (keep_if (λ (c : Chunk). c.is_table) new)) (total_chars new))
        (enqueue t JobStage.embed doc.id
          (save t (record doc { status = DocumentStatus.chunked }) s)),
  )

  -- `_persist`: none where it succeeds; without a database it does nothing.
  abbrev pub persist : ℕ → String → List Chunk → State O V → Fallible (State O V)
  persist document_id title new s =
      let rows = replaced_rows document_id title new s.chunks in
      if not t.has_db then returned s else elim (t.persist_error rows) [
        | some e ↦ raised e
        | none ↦ returned (record s { chunks = rows })
      ]

  abbrev pub persist_chunks : Document → List Chunk → State O V → StageOutcome × State O V
  persist_chunks doc new s = elim (persist doc.id (title_of doc) new s) [
    | raised e ↦ (
      transient_outcome doc.status (around "STORAGE_ERROR: Failed to persist chunks (" e ")."),
      s,
    )
    | returned s' ↦ chunked_document doc new s'
  ]

  abbrev pub keep_chunks : Document → List Chunk → State O V → StageOutcome × State O V
  keep_chunks doc [] s =
      chunk_fail doc "NO_CHUNKS_PRODUCED: Normalized document yielded no passages." s
  keep_chunks doc (c ∷ cs) s = persist_chunks doc (c ∷ cs) s

  abbrev pub read_normalized : ℕ → State O V → Fallible (NormalizationResult U)
  read_normalized document_id s =
      elim (t.get_object t.normalized (t.normalized_key_for document_id) s.world.objects) [
        | raised e ↦ raised e
        | returned text ↦ t.load_normalized text
      ]

  abbrev pub chunk_artifact :
      Document → Fallible (NormalizationResult U) → State O V → StageOutcome × State O V
  chunk_artifact doc (raised e) s = (
    transient_outcome doc.status
        (around "STORAGE_ERROR: Failed to read normalized artifact (" e ")."),
    s,
  )
  chunk_artifact doc (returned normalized) s = keep_chunks doc (t.chunk normalized) s

  abbrev pub chunk_found : Option Document → State O V → StageOutcome × State O V
  chunk_found none s = (
    failed_outcome DocumentStatus.chunking_failed
        "DOCUMENT_NOT_FOUND: Document ID not registered in database.",
    s,
  )
  chunk_found (some doc) s =
      if not (same_status doc.status DocumentStatus.awaiting_classification)
      then (outcome doc.status, s)
      else chunk_artifact doc (read_normalized doc.id s) s

  unfoldable pub process_chunk : ℕ → State O V → StageOutcome × State O V
  unfolding get_by_id update_document log_event
  process_chunk document_id s = chunk_found (get_by_id document_id s.world.storage) s
