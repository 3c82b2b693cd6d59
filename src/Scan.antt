-- ===== src/Scan.antt =====
-- `ScanJobHandler` of src/modules/document_pipeline/scan_job_handler.py.
-- A run threads the state that it shares with other components. The correlation id and the log are
-- left out.
pub mod Process
pub mod Tiers
pub mod Escalation
pub mod Rerun
pub mod Examples
use a_pag_ai_knowledge_base.Prelude.{
  ℕ, ◌+◌, String, Bool, true, false, not, ◌&&◌, ◌||◌, Option, none, some, List, [], ◌∷◌, ◌++◌, Text,
  any, length, ◌==◌, if◌then◌else◌, is_some,
}
use a_pag_ai_knowledge_base.Access.{is_stricter, names}
use a_pag_ai_knowledge_base.Documents.{
  same_event, Document, DocumentStatus, JobStage, AuditEventType, is_not_a_copy_source,
  is_duplicate,
}
use a_pag_ai_knowledge_base.Repository.{
  Storage, get_by_id, get_by_checksum, update_document, set_classification,
}

pub record ValidationResult : Type 0 where
  pub is_valid : Bool
  pub sha256 : String
  pub page_count : Option ℕ
  pub file_size_bytes : ℕ
  pub rejection_reason : Option String

-- What `details` holds of each entry.
pub data Details : Type 0 where
  rejection : (filename : String) (rejection_reason : Option String) (file_size_bytes : ℕ) → Details
  duplicate_of :
      (filename : String) (canonical_document_id : Option ℕ) (sha256 : String) (escalated : Bool)
      → Details
  reclassification :
      (old_tier new_tier : Option String) (duplicate_document_id : ℕ) (sha256 : String) → Details
  supersession : (superseded_by new_version : ℕ) (prior_status : DocumentStatus) → Details
  validation : (sha256 : String) (page_count : Option ℕ) (file_size_bytes : ℕ) → Details
  extraction :
      (extraction_key : String) (unit_count char_count table_count heading_count : ℕ)
      (extraction_method : Option String)
      → Details
  failure : (filename reason : String) → Details
  normalization :
      (normalized_key : String) (char_count unit_count : ℕ) (language : Option String)
      (table_count : ℕ)
      → Details
  quality_failure : (filename : String) (failures : List String) → Details
  chunking : (chunk_count table_chunk_count total_chars : ℕ) → Details
  embedding : (vector_count : ℕ) → Details
  language_skipped : (filename : String) (language : Option String) → Details
  upload :
      (filename : String) (size_bytes : ℕ) (classification : Option String)
      (quarantine_key : String)
      → Details
  promotion : (raw_path : Option String) (sha256 : String) (version : ℕ) → Details
  drive_event : (reason drive_file_id : String) → Details
  folder_move : (old_tier : Option String) (new_tier drive_file_id : String) → Details
  drive_edit : (superseded_by : Option ℕ) (drive_file_id : String) → Details

pub record AuditEntry : Type 0 where
  pub document_id : ℕ
  pub event_type : AuditEventType
  pub details : Details

-- The repository's storage, the object store, the audit log, and the rows put into the jobs table.
pub record World (O : Type 0) : Type 0 where
  pub storage : Storage
  pub objects : O
  pub audit_log : List AuditEntry
  pub new_jobs : List (ℕ × JobStage)

pub record UploadRequest : Type 0 where
  pub supersedes_doc_id : Option ℕ
  pub keep_previous_version : Bool

pub record UploadResponse : Type 0 where
  pub document_id : ℕ
  pub status : DocumentStatus
  pub checksum : Option String
  pub rejection_reason : Option String
  pub was_duplicate : Bool
  pub canonical_tier_escalated : Bool

-- What the handler is built with: the object store, `storage_keys.py`, the validator, the
-- database. A run of the object store may fail where the result is an Option. `meanwhile` is what
-- other processes do to the documents before the write that ends a promotion.
pub record Services (O : Type 0) : Type 0 where
  pub quarantine : String
  pub raw : String
  pub get_object : String → String → O → Option Text
  pub object_exists : String → String → O → Bool
  pub delete_object : String → String → O → O
  pub copy_object : String → String → String → String → O → Option O
  pub quarantine_key_for : Document → String
  pub build_raw_key : String → String → String
  pub path_of : String → String → String
  pub validate_document : Text → String → ValidationResult
  pub has_db : Bool
  pub audit_fails : AuditEntry → Bool
  pub now : ℕ
  pub meanwhile : Storage → Storage

abbrev pub same_entry : AuditEntry → AuditEntry → Bool
same_entry a b = a.document_id == b.document_id && same_event a.event_type b.event_type

-- Past this stage, and ended by it: the two tests of the idempotency guard.
abbrev pub is_processed : DocumentStatus → Bool
is_processed DocumentStatus.validated = true
is_processed DocumentStatus.extracted = true
is_processed DocumentStatus.extraction_failed = true
is_processed DocumentStatus.normalization_failed = true
is_processed DocumentStatus.awaiting_classification = true
is_processed DocumentStatus.live = true
is_processed _ = false

abbrev pub is_finalized : DocumentStatus → Bool
is_finalized DocumentStatus.rejected = true
is_finalized DocumentStatus.duplicate = true
is_finalized _ = false

abbrev pub answer : ℕ → DocumentStatus → Option String → Option String → UploadResponse
answer document_id status checksum rejection_reason = record {
  document_id = document_id;
  status = status;
  checksum = checksum;
  rejection_reason = rejection_reason;
  was_duplicate = false;
  canonical_tier_escalated = false;
}

abbrev pub duplicate_answer : ℕ → String → Bool → UploadResponse
duplicate_answer document_id sha256 escalated = record {
  document_id = document_id;
  status = DocumentStatus.duplicate;
  checksum = some sha256;
  rejection_reason = none;
  was_duplicate = true;
  canonical_tier_escalated = escalated;
}

module _ {O : Type 0} (e : Services O) where
  unfoldable pub audit : ℕ → AuditEventType → Details → Bool → World O → World O
  audit document_id event_type details allow_repeat w =
      let entry : AuditEntry = record {
        document_id = document_id;
        event_type = event_type;
        details = details;
      } in
      if not e.has_db || (not allow_repeat && any (same_entry entry) w.audit_log)
      then w
      else if e.audit_fails entry
      then w
      else record w { audit_log = w.audit_log ++ entry ∷ [] }

  abbrev pub save : Document → World O → World O
  save doc w = record w { storage = (update_document e.now doc w.storage).1 }

  abbrev pub drop_quarantined : String → World O → World O
  drop_quarantined key w = record w { objects = e.delete_object e.quarantine key w.objects }

  unfoldable pub escalate_tier_if_stricter :
      Document → Option String → ℕ → String → World O → Bool × World O
  unfolding audit set_classification is_stricter
  escalate_tier_if_stricter canonical none duplicate_id sha256 w = (false, w)
  escalate_tier_if_stricter canonical (some new_tier) duplicate_id sha256 w =
      if is_stricter (some new_tier) canonical.classification
      then (
        true,
        audit canonical.id AuditEventType.document_reclassified
            (reclassification canonical.classification (some new_tier) duplicate_id sha256) true
            (record w { storage = (set_classification e.now canonical.id new_tier w.storage).1 }),
      )
      else (false, w)
