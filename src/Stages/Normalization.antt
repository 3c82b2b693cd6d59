-- ===== src/Stages/Normalization.antt =====
-- `NormalizationJobHandler.process`, a function to a branch.
use a_pag_ai_knowledge_base.Prelude.{
  ℕ, String, not, Option, none, some, List, [], ◌∷◌, if◌then◌else◌,
}
use a_pag_ai_knowledge_base.Documents.{
  Document, DocumentStatus, JobStage, AuditEventType, same_status,
}
use a_pag_ai_knowledge_base.Repository.{get_by_id, update_document}
use a_pag_ai_knowledge_base.Scan.{normalization, quality_failure}
use a_pag_ai_knowledge_base.Stages.{
  Fallible, raised, returned, ExtractionResult, NormalizationResult, State, StageOutcome, Tools,
  outcome, failed_outcome, transient_outcome, around, log_event, save, enqueue,
}

-- `", ".join(failures)`
abbrev comma_separated : List String → String
comma_separated [] = ""
comma_separated (f ∷ []) = f
comma_separated (f ∷ g ∷ fs) = around f ", " (comma_separated (g ∷ fs))

module _ {O U V : Type 0} (t : Tools O U V) where
  abbrev pub normalize_fail :
      Document → NormalizationResult U → State O V → StageOutcome × State O V
  normalize_fail doc result s =
      let reason = around "QUALITY_CHECK_FAILED: " (comma_separated result.failures) "" in
      let ended = record doc {
        status = DocumentStatus.normalization_failed;
        rejection_reason = some reason;
      } in
      (
        failed_outcome DocumentStatus.normalization_failed reason,
        log_event t doc.id AuditEventType.normalization_failed_event
            (quality_failure doc.filename result.failures) (save t ended s),
      )

  abbrev pub normalized_document :
      Document → NormalizationResult U → State O V → StageOutcome × State O V
  normalized_document doc result s =
      let ended = record doc { status = DocumentStatus.awaiting_classification } in
      (
        outcome DocumentStatus.awaiting_classification,
        enqueue t JobStage.chunk doc.id (
            log_event t doc.id AuditEventType.normalization_completed
              (normalization (t.normalized_key_for doc.id) result.char_count result.unit_count
                result.language result.table_count)
              (save t ended s)),
      )

  abbrev pub store_normalized :
      Document → NormalizationResult U → State O V → StageOutcome × State O V
  store_normalized doc result s =
      elim (t.put_object t.normalized (t.normalized_key_for doc.id) (t.dump_normalized result)
        s.world.objects) [
          | raised e ↦ (
            transient_outcome doc.status
                (around "STORAGE_ERROR: Failed to write normalized artifact (" e ")."),
            s,
          )
          | returned objects ↦
              normalized_document doc result
                (record s { world = record s.world { objects = objects } })
        ]

  abbrev pub gate : Document → NormalizationResult U → State O V → StageOutcome × State O V
  gate doc result s =
      if not result.passed then normalize_fail doc result s else store_normalized doc result s

  -- `get_object` and `model_validate_json`, under one `try`.
  abbrev pub read_extraction : ℕ → State O V → Fallible (ExtractionResult U)
  read_extraction document_id s =
      elim (t.get_object t.extracted (t.extraction_key_for document_id) s.world.objects) [
        | raised e ↦ raised e
        | returned text ↦ t.load_extraction text
      ]

  abbrev pub normalize_artifact :
      Document → Fallible (ExtractionResult U) → State O V → StageOutcome × State O V
  normalize_artifact doc (raised e) s = (
    transient_outcome doc.status
        (around "STORAGE_ERROR: Failed to read extraction artifact (" e ")."),
    s,
  )
  normalize_artifact doc (returned extraction) s = gate doc (t.normalize extraction) s

  abbrev pub normalize_found : Option Document → State O V → StageOutcome × State O V
  normalize_found none s = (
    failed_outcome DocumentStatus.normalization_failed
        "DOCUMENT_NOT_FOUND: Document ID not registered in database.",
    s,
  )
  normalize_found (some doc) s =
      if not (same_status doc.status DocumentStatus.extracted)
      then (outcome doc.status, s)
      else normalize_artifact doc (read_extraction doc.id s) s

  unfoldable pub process_normalize : ℕ → State O V → StageOutcome × State O V
  unfolding get_by_id update_document log_event
  process_normalize document_id s = normalize_found (get_by_id document_id s.world.storage) s
