-- ===== src/Documents.antt =====
-- The document record of src/modules/document_pipeline/models.py and the enumerations of
-- src/db/enums.py that the pipeline branches on. UUIDs and times are numbers.
use a_pag_ai_knowledge_base.Prelude.{ℕ, String, Bool, true, false, Option, ◌==◌}

pub data DocumentStatus : Type 0 where
  uploaded quarantined validated validation_failed rejected : DocumentStatus
  extracted extraction_failed normalization_failed awaiting_classification : DocumentStatus
  chunked chunking_failed embedding_failed skipped_unsupported_language : DocumentStatus
  duplicate live superseded archived : DocumentStatus

pub data JobStage : Type 0 where
  scan extract normalize chunk embed : JobStage

pub data JobStatus : Type 0 where
  pending running completed failed : JobStatus

pub data AuditEventType : Type 0 where
  document_uploaded document_quarantined validation_passed validation_failed_event : AuditEventType
  document_promoted document_rejected document_superseded document_archived : AuditEventType
  document_deleted extraction_completed extraction_failed_event : AuditEventType
  normalization_completed normalization_failed_event document_reclassified : AuditEventType
  chunking_completed chunking_failed_event embedding_completed : AuditEventType
  embedding_failed_event embedding_skipped document_restored : AuditEventType

pub record Document : Type 0 where
  pub id : ℕ
  pub filename : String
  pub owner_id : Option ℕ
  pub title : Option String
  pub description : Option String
  pub mime_type : String
  pub page_count : Option ℕ
  pub extraction_method : Option String
  pub upload_batch_id : Option ℕ
  pub size : ℕ
  pub checksum : Option String
  pub status : DocumentStatus
  pub classification : Option String
  pub document_date : Option ℕ
  pub version : ℕ
  pub supersedes_id : Option ℕ
  pub quarantine_path : Option String
  pub raw_path : Option String
  pub rejection_reason : Option String
  pub created_at : ℕ
  pub updated_at : ℕ
  pub deleted_at : Option ℕ
  pub purged_at : Option ℕ

-- The states that `get_by_checksum` leaves out.
abbrev pub is_not_a_copy_source : DocumentStatus → Bool
is_not_a_copy_source superseded = true
is_not_a_copy_source archived = true
is_not_a_copy_source rejected = true
is_not_a_copy_source duplicate = true
is_not_a_copy_source _ = false

abbrev pub is_duplicate : DocumentStatus → Bool
is_duplicate duplicate = true
is_duplicate _ = false

abbrev pub is_superseded : DocumentStatus → Bool
is_superseded superseded = true
is_superseded _ = false

-- The members by their place in the enumeration, to compare them.
abbrev pub event_number : AuditEventType → ℕ
event_number document_uploaded = 0
event_number document_quarantined = 1
event_number validation_passed = 2
event_number validation_failed_event = 3
event_number document_promoted = 4
event_number document_rejected = 5
event_number document_superseded = 6
event_number document_archived = 7
event_number document_deleted = 8
event_number extraction_completed = 9
event_number extraction_failed_event = 10
event_number normalization_completed = 11
event_number normalization_failed_event = 12
event_number document_reclassified = 13
event_number chunking_completed = 14
event_number chunking_failed_event = 15
event_number embedding_completed = 16
event_number embedding_failed_event = 17
event_number embedding_skipped = 18
event_number document_restored = 19

abbrev pub same_event : AuditEventType → AuditEventType → Bool
same_event a b = event_number a == event_number b

abbrev pub status_number : DocumentStatus → ℕ
status_number uploaded = 0
status_number quarantined = 1
status_number validated = 2
status_number validation_failed = 3
status_number rejected = 4
status_number extracted = 5
status_number extraction_failed = 6
status_number normalization_failed = 7
status_number awaiting_classification = 8
status_number chunked = 9
status_number chunking_failed = 10
status_number embedding_failed = 11
status_number skipped_unsupported_language = 12
status_number duplicate = 13
status_number live = 14
status_number superseded = 15
status_number archived = 16

abbrev pub same_status : DocumentStatus → DocumentStatus → Bool
same_status a b = status_number a == status_number b
