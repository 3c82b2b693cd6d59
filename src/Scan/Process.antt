-- ===== src/Scan/Process.antt =====
-- `process` of src/modules/document_pipeline/scan_job_handler.py, a function to a branch.
use a_pag_ai_knowledge_base.Prelude.{
  ℕ, ◌+◌, String, Bool, false, not, ◌&&◌, Option, none, some, [], ◌∷◌, ◌++◌, any, length, ◌==◌,
  if◌then◌else◌,
}
use a_pag_ai_knowledge_base.Access.{names}
use a_pag_ai_knowledge_base.Documents.{
  Document, DocumentStatus, JobStage, AuditEventType, is_not_a_copy_source, is_duplicate,
}
use a_pag_ai_knowledge_base.Repository.{Storage, get_by_id, get_by_checksum, update_document}
use a_pag_ai_knowledge_base.Scan.{
  ValidationResult, rejection, duplicate_of, supersession, validation, promotion, World,
  UploadRequest, UploadResponse, Services, is_processed, is_finalized, answer, duplicate_answer,
  audit, save, drop_quarantined, escalate_tier_if_stricter,
}

module _ {O : Type 0} (e : Services O) where
  -- The quarantined object cannot be read.
  abbrev pub unreadable : Document → World O → UploadResponse × World O
  unreadable doc w =
      let reason = some "STORAGE_ERROR: Failed to retrieve quarantined file." in
      let failed = record doc {
        status = DocumentStatus.validation_failed;
        rejection_reason = reason;
      } in
      (answer doc.id DocumentStatus.validation_failed none reason, save e failed w)

  abbrev pub reject : Document → String → ℕ → ValidationResult → World O → UploadResponse × World O
  reject doc key size v w =
      let rejected = record doc {
        status = DocumentStatus.rejected;
        rejection_reason = v.rejection_reason;
        quarantine_path = none;
      } in
      (
        answer doc.id DocumentStatus.rejected none v.rejection_reason,
        drop_quarantined e key (
            audit e doc.id AuditEventType.document_rejected
              (rejection doc.filename v.rejection_reason size) false (save e rejected w)),
      )

  abbrev pub drop_duplicate :
      Document → String → String → Document → World O → UploadResponse × World O
  drop_duplicate doc key sha256 existing w =
      let (escalated, raised) =
        escalate_tier_if_stricter e existing doc.classification doc.id sha256 w in
      let refused = record doc { status = DocumentStatus.duplicate; quarantine_path = none } in
      (
        duplicate_answer existing.id sha256 escalated,
        audit e doc.id AuditEventType.document_rejected
            (duplicate_of doc.filename (some existing.id) sha256 escalated) false
            (drop_quarantined e key (save e refused raised)),
      )

  -- The older version takes its new status, and the document the next version number.
  abbrev pub supersede_prior : Bool → Document → Option Document → World O → Document × World O
  supersede_prior keep_previous doc none w = (doc, w)
  supersede_prior keep_previous doc (some prior) w =
      let status = if keep_previous then DocumentStatus.superseded else DocumentStatus.archived in
      let next = record doc { version = prior.version + 1; supersedes_id = some prior.id } in
      (
        next,
        audit e prior.id AuditEventType.document_superseded
            (supersession doc.id next.version status) false
            (save e (record prior { status = status }) w),
      )

  abbrev pub supersede : Option UploadRequest → Document → World O → Document × World O
  supersede none doc w = (doc, w)
  supersede (some meta) doc w = elim meta.supersedes_doc_id [
    | none ↦ (doc, w)
    | some prior_id ↦
        supersede_prior meta.keep_previous_version doc (get_by_id prior_id w.storage) w
  ]

  -- `object_exists`, `copy_object` and `delete_object` of the promotion; none when it raises.
  abbrev pub move_to_raw : String → String → O → Option O
  move_to_raw key raw_key objects =
      let moved = λ (o : O). some (e.delete_object e.quarantine key o) in
      if e.object_exists e.raw raw_key objects
      then moved objects
      else elim (e.copy_object e.quarantine key e.raw raw_key objects) [
        | none ↦ none
        | some copied ↦ moved copied
      ]

  abbrev pub not_promoted : Document → String → World O → UploadResponse × World O
  not_promoted doc sha256 w =
      let reason = some "STORAGE_ERROR: Failed to promote file from quarantine to raw storage." in
      let failed = record doc {
        status = DocumentStatus.validation_failed;
        rejection_reason = reason;
      } in
      (answer doc.id DocumentStatus.validation_failed (some sha256) reason, save e failed w)

  -- The write that ends a promotion breaks `uq_documents_active_sha256` (src/db/models.py).
  abbrev pub conflicts : Document → String → Storage → Bool
  conflicts doc sha256 s =
      any
        (λ (d : Document).
          not (d.id == doc.id) && (names d.checksum sha256 && not (is_not_a_copy_source d.status)))
        s

  abbrev pub canonical_of : Document → String → Option Document → World O → Bool × World O
  canonical_of doc sha256 none w = (false, w)
  canonical_of doc sha256 (some canonical) w =
      if canonical.id == doc.id
      then (false, w)
      else escalate_tier_if_stricter e canonical doc.classification doc.id sha256 w

  -- The race that the promotion lost; `canonical` is the document found under the checksum.
  abbrev pub lose_race_to : Document → String → Option Document → World O → UploadResponse × World O
  lose_race_to doc sha256 canonical w =
      let (escalated, raised) = canonical_of doc sha256 canonical w in
      let found : Option ℕ = elim canonical [ none ↦ none | some d ↦ some d.id ] in
      (
        duplicate_answer (elim canonical [ none ↦ doc.id | some d ↦ d.id ]) sha256 escalated,
        audit e doc.id AuditEventType.document_rejected
            (duplicate_of doc.filename found sha256 escalated) false raised,
      )

  abbrev pub lose_race : Document → String → World O → UploadResponse × World O
  lose_race doc sha256 w =
      let lost = save e (record doc { status = DocumentStatus.duplicate; raw_path = none }) w in
      lose_race_to doc sha256 (get_by_checksum sha256 lost.storage) lost

  abbrev pub announce : Document → ValidationResult → World O → World O
  announce doc v w =
      let audited =
        audit e doc.id AuditEventType.document_promoted
          (promotion doc.raw_path v.sha256 doc.version) false
          (audit e doc.id AuditEventType.validation_passed
            (validation v.sha256 v.page_count v.file_size_bytes) false w) in
      if e.has_db
      then record audited { new_jobs = audited.new_jobs ++ (doc.id, JobStage.extract) ∷ [] }
      else audited

  abbrev pub finish_promotion : Document → ValidationResult → World O → UploadResponse × World O
  finish_promotion doc v w =
      if conflicts doc v.sha256 w.storage then lose_race doc v.sha256 w else (
        answer doc.id DocumentStatus.validated (some v.sha256) none,
        announce doc v (save e doc w),
      )

  abbrev pub promote : Document → String → ValidationResult → World O → UploadResponse × World O
  promote doc key v w =
      let raw_key = e.build_raw_key v.sha256 doc.mime_type in
      elim (move_to_raw key raw_key w.objects) [
        | none ↦ not_promoted doc v.sha256 w
        | some objects ↦
            finish_promotion
              (record doc {
                status = DocumentStatus.validated;
                raw_path = some (e.path_of e.raw raw_key);
                quarantine_path = none;
                page_count = v.page_count;
              })
              v (record w { objects = objects; storage = e.meanwhile w.storage })
      ]

  abbrev pub supersede_and_promote :
      Document
      → String
      → ValidationResult
      → Option UploadRequest
      → World O
      → UploadResponse × World O
  supersede_and_promote doc key v meta w =
      let (versioned, after) = supersede meta doc w in promote versioned key v after

  -- The critical section; `existing` is the document found under the checksum.
  abbrev pub deduplicate :
      Document
      → String
      → ValidationResult
      → Option UploadRequest
      → Option Document
      → World O
      → UploadResponse × World O
  deduplicate doc key v meta none w = supersede_and_promote doc key v meta w
  deduplicate doc key v meta (some existing) w =
      if not (existing.id == doc.id)
      then drop_duplicate doc key v.sha256 existing w
      else supersede_and_promote doc key v meta w

  abbrev pub judge :
      Document
      → String
      → ℕ
      → ValidationResult
      → Option UploadRequest
      → World O
      → UploadResponse × World O
  judge doc key size v meta w =
      if not v.is_valid
      then reject doc key size v w
      else deduplicate (record doc { checksum = some v.sha256 }) key v meta
          (get_by_checksum v.sha256 w.storage) w

  abbrev pub examine : Document → Option UploadRequest → World O → UploadResponse × World O
  examine doc meta w =
      let key = e.quarantine_key_for doc in
      elim (e.get_object e.quarantine key w.objects) [
        | none ↦ unreadable doc w
        | some content ↦
            judge doc key (length content) (e.validate_document content doc.mime_type) meta w
      ]

  abbrev pub process_found :
      ℕ → Option UploadRequest → Option Document → World O → UploadResponse × World O
  process_found document_id meta none w = (
    answer document_id DocumentStatus.validation_failed none
        (some "DOCUMENT_NOT_FOUND: Document ID not registered in database."),
    w,
  )
  process_found document_id meta (some doc) w =
      if is_processed doc.status
      then (answer doc.id doc.status doc.checksum none, w)
      else if is_finalized doc.status
      then (
        record (answer doc.id doc.status doc.checksum doc.rejection_reason) {
          was_duplicate = is_duplicate doc.status;
        },
        w,
      )
      else examine doc meta w

  unfoldable pub process : ℕ → Option UploadRequest → World O → UploadResponse × World O
  unfolding audit escalate_tier_if_stricter get_by_id get_by_checksum update_document
  process document_id meta w = process_found document_id meta (get_by_id document_id w.storage) w
