-- ===== src/Stages.antt =====
-- What the stages behind the scan share: the handlers of
-- src/modules/document_pipeline/extraction_job_handler.py, normalization_job_handler.py,
-- chunking_job_handler.py and embedding_job_handler.py. The log, the correlation id and the messages
-- for people are left out.
pub mod Lifecycle
pub mod Extraction
pub mod Normalization
pub mod Chunking
pub mod Embedding
pub mod Ends
pub mod Runs
pub mod Vectors
pub mod Progress
pub mod Live
pub mod Examples
use Prim.Native.String.{◌++◌ as str_append}
use a_pag_ai_knowledge_base.Prelude.{
  ℕ, String, Bool, true, false, not, ◌&&◌, ◌||◌, Option, none, some, List, [], ◌∷◌, ◌++◌, Text, any,
  length, ◌==◌, if◌then◌else◌,
}
use a_pag_ai_knowledge_base.Documents.{
  Document, DocumentStatus, JobStage, AuditEventType, same_event,
}
use a_pag_ai_knowledge_base.Repository.{update_document}
use a_pag_ai_knowledge_base.Scan.{World, AuditEntry, Details, same_entry}

-- A call that may raise an exception, with its text.
pub data Fallible {ℓ} (A : Type ℓ) : Type ℓ where
  raised : String → Fallible A
  returned : A → Fallible A

-- Of the extracted and the normalized text, what the handlers read; the rest is the payload.
pub record ExtractionResult (U : Type 0) : Type 0 where
  pub payload : U
  pub unit_count : ℕ
  pub char_count : ℕ
  pub table_count : ℕ
  pub heading_count : ℕ
  pub extraction_method : Option String

pub record NormalizationResult (U : Type 0) : Type 0 where
  pub payload : U
  pub char_count : ℕ
  pub unit_count : ℕ
  pub language : Option String
  pub table_count : ℕ
  pub full_text : Text
  pub passed : Bool
  pub failures : List String

pub record Chunk : Type 0 where
  pub index : ℕ
  pub text : Text
  pub page_number : Option ℕ
  pub section_heading : Option Text
  pub is_table : Bool
  pub scale : String

-- A row of `document_chunks`.
pub record ChunkRow (V : Type 0) : Type 0 where
  pub document_id : ℕ
  pub chunk : Chunk
  pub document_title : String
  pub embedding : Option V

-- The shared state, with the table of passages.
pub record State (O V : Type 0) : Type 0 where
  pub world : World O
  pub chunks : List (ChunkRow V)

-- `ExtractionOutcome` and its like.
pub record StageOutcome : Type 0 where
  pub status : DocumentStatus
  pub failure_reason : Option String
  pub transient : Bool

-- The embedding model's answer: a ValueError, another exception, or the vectors.
pub data Embedded (V : Type 0) : Type 0 where
  value_error inference_error : String → Embedded V
  vectors : List V → Embedded V

-- What the handlers are built with, as it answers during one run; another run may meet another.
-- The artifacts are JSON texts that pydantic writes and reads;
-- `persist_error` and `commit_error` are the database's refusals of the writes of passages and vectors.
pub record Tools (O U V : Type 0) : Type 0 where
  pub raw : String
  pub extracted : String
  pub normalized : String
  pub get_object : String → String → O → Fallible Text
  pub put_object : String → String → Text → O → Fallible O
  pub last_segment : String → String
  pub extraction_key_for : ℕ → String
  pub normalized_key_for : ℕ → String
  pub dump_extraction : ExtractionResult U → Text
  pub load_extraction : Text → Fallible (ExtractionResult U)
  pub dump_normalized : NormalizationResult U → Text
  pub load_normalized : Text → Fallible (NormalizationResult U)
  pub extract : ℕ → Text → String → Fallible (ExtractionResult U)
  pub normalize : ExtractionResult U → NormalizationResult U
  pub chunk : NormalizationResult U → List Chunk
  pub strip : String → String
  pub str : ℕ → String
  pub persist_error : List (ChunkRow V) → Option String
  pub embed_document : ℕ → List Text → Embedded V
  pub commit_error : List (ChunkRow V) → Option String
  pub skip_non_english : Bool
  pub has_little_prose : Text → Bool
  pub has_db : Bool
  pub audit_fails : AuditEntry → Bool
  pub now : ℕ

abbrev pub outcome : DocumentStatus → StageOutcome
outcome status = record { status = status; failure_reason = none; transient = false }

abbrev pub failed_outcome : DocumentStatus → String → StageOutcome
failed_outcome status reason = record {
  status = status;
  failure_reason = some reason;
  transient = false;
}

abbrev pub transient_outcome : DocumentStatus → String → StageOutcome
transient_outcome status reason = record {
  status = status;
  failure_reason = some reason;
  transient = true;
}

-- f"{before}{e}{after}"
abbrev pub around : String → String → String → String
around before e after = str_append before (str_append e after)

module _ {O U V : Type 0} (t : Tools O U V) where
  -- `_audit`, the same in the four handlers.
  unfoldable pub log_event : ℕ → AuditEventType → Details → State O V → State O V
  log_event document_id event_type details s =
      let entry : AuditEntry = record {
        document_id = document_id;
        event_type = event_type;
        details = details;
      } in
      if not t.has_db || (any (same_entry entry) s.world.audit_log || t.audit_fails entry)
      then s
      else record s { world = record s.world { audit_log = s.world.audit_log ++ entry ∷ [] } }

  abbrev pub save : Document → State O V → State O V
  save doc s = record s {
    world = record s.world { storage = (update_document t.now doc s.world.storage).1 };
  }

  -- `_enqueue_normalize` and its like.
  abbrev pub enqueue : JobStage → ℕ → State O V → State O V
  enqueue stage document_id s =
      if t.has_db
      then record s {
        world = record s.world { new_jobs = s.world.new_jobs ++ (document_id, stage) ∷ [] };
      }
      else s
