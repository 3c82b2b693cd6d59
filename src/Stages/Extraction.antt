-- ===== src/Stages/Extraction.antt =====
-- `ExtractionJobHandler.process`, a function to a branch.
use a_pag_ai_knowledge_base.Prelude.{
  ℕ, String, not, Option, none, some, Text, if◌then◌else◌, str_eq,
}
use a_pag_ai_knowledge_base.Documents.{
  Document, DocumentStatus, JobStage, AuditEventType, same_status,
}
use a_pag_ai_knowledge_base.Repository.{get_by_id, update_document}
use a_pag_ai_knowledge_base.Scan.{extraction, failure}
use a_pag_ai_knowledge_base.Stages.{
  raised, returned, ExtractionResult, State, StageOutcome, Tools, outcome, failed_outcome,
  transient_outcome, around, log_event, save, enqueue,
}

module _ {O U V : Type 0} (t : Tools O U V) where
  abbrev pub extract_fail : Document → String → State O V → StageOutcome × State O V
  extract_fail doc reason s =
      let ended = record doc {
        status = DocumentStatus.extraction_failed;
        rejection_reason = some reason;
      } in
      (
        failed_outcome DocumentStatus.extraction_failed reason,
        log_event t doc.id AuditEventType.extraction_failed_event (failure doc.filename reason)
            (save t ended s),
      )

  abbrev pub extracted_document :
      Document → ExtractionResult U → State O V → StageOutcome × State O V
  extracted_document doc result s =
      let key = t.extraction_key_for doc.id in
      let ended = record doc {
        status = DocumentStatus.extracted;
        extraction_method = result.extraction_method;
      } in
      (
        outcome DocumentStatus.extracted,
        enqueue t JobStage.normalize doc.id (
            log_event t doc.id AuditEventType.extraction_completed
              (extraction key result.unit_count result.char_count result.table_count
                result.heading_count result.extraction_method)
              (save t ended s)),
      )

  abbrev pub store_extraction : Document → ExtractionResult U → State O V → StageOutcome × State O V
  store_extraction doc result s =
      elim (t.put_object t.extracted (t.extraction_key_for doc.id) (t.dump_extraction result)
        s.world.objects) [
          | raised e ↦ (
            transient_outcome doc.status
                (around "STORAGE_ERROR: Failed to write extraction artifact (" e ")."),
            s,
          )
          | returned objects ↦
              extracted_document doc result
                (record s { world = record s.world { objects = objects } })
        ]

  abbrev pub extract_bytes : Document → Text → State O V → StageOutcome × State O V
  extract_bytes doc content s = elim (t.extract doc.id content doc.mime_type) [
    | raised e ↦ extract_fail doc (around "EXTRACTION_FAILED: " e "") s
    | returned result ↦ store_extraction doc result s
  ]

  abbrev pub read_raw : Document → String → State O V → StageOutcome × State O V
  read_raw doc path s = elim (t.get_object t.raw (t.last_segment path) s.world.objects) [
    | raised e ↦ (
      transient_outcome doc.status (around "STORAGE_ERROR: Failed to read raw object (" e ")."),
      s,
    )
    | returned content ↦ extract_bytes doc content s
  ]

  abbrev missing_raw_object : String
  missing_raw_object = "MISSING_RAW_OBJECT: Document is VALIDATED but has no raw_path to read."

  abbrev pub extract_from : Document → Option String → State O V → StageOutcome × State O V
  extract_from doc none s = extract_fail doc missing_raw_object s
  extract_from doc (some path) s =
      if str_eq path "" then extract_fail doc missing_raw_object s else read_raw doc path s

  abbrev pub extract_found : Option Document → State O V → StageOutcome × State O V
  extract_found none s = (
    failed_outcome DocumentStatus.extraction_failed
        "DOCUMENT_NOT_FOUND: Document ID not registered in database.",
    s,
  )
  extract_found (some doc) s =
      if not (same_status doc.status DocumentStatus.validated)
      then (outcome doc.status, s)
      else extract_from doc doc.raw_path s

  unfoldable pub process_extract : ℕ → State O V → StageOutcome × State O V
  unfolding get_by_id update_document log_event
  process_extract document_id s = extract_found (get_by_id document_id s.world.storage) s
