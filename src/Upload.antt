-- ===== src/Upload.antt =====
-- Receiving an upload, and the keys of the object store: `UploadService.receive` of
-- src/modules/document_pipeline/upload_service.py, and storage_keys.py.
pub mod Keys
pub mod Examples
use Prim.Native.Char.{code}
use a_pag_ai_knowledge_base.Prelude.{
  ℕ, String, Bool, true, false, not, ◌||◌, Option, none, some, List, [], ◌∷◌, ◌++◌, Text, length,
  ◌==◌, if◌then◌else◌,
}
use a_pag_ai_knowledge_base.Documents.{Document, DocumentStatus, JobStage, AuditEventType}
use a_pag_ai_knowledge_base.Repository.{create}
use a_pag_ai_knowledge_base.Scan.{World, AuditEntry, Details, upload}
use a_pag_ai_knowledge_base.Stages.{Fallible, raised, returned}

-- The strings of an f-string, one behind the other.
abbrev pub concatenated : String → String → String
concatenated String.[] t = t
concatenated (String.◌∷◌ c s) t = String.◌∷◌ c (concatenated s t)

-- f"{bucket}/{key}"
abbrev pub path_of : String → String → String
path_of bucket key = concatenated bucket (concatenated "/" key)

abbrev pub has_slash : String → Bool
has_slash String.[] = false
has_slash (String.◌∷◌ c s) = code c == 47 || has_slash s

-- `s.rsplit("/", 1)[-1]`
abbrev pub last_segment : String → String
last_segment String.[] = String.[]
last_segment (String.◌∷◌ c s) =
    let rest = last_segment s in
    if has_slash s then rest else if code c == 47 then s else String.◌∷◌ c s

-- What the upload is given beside the bytes; `owner_id` and the like may be missing.
pub record UploadMeta : Type 0 where
  pub classification : String
  pub owner_id : Option ℕ
  pub title : Option String
  pub description : Option String
  pub document_date : Option ℕ
  pub upload_batch_id : Option ℕ

-- The object store, the text of an id, the extensions of the formats, and the clock.
pub record Service (O : Type 0) : Type 0 where
  pub quarantine : String
  pub put_object : String → String → Text → O → Fallible O
  pub str : ℕ → String
  pub format_extension : String → Option String
  pub pdf_extension : String
  pub has_db : Bool
  pub audit_fails : AuditEntry → Bool
  pub now : ℕ

module _ {O : Type 0} (v : Service O) where
  abbrev pub extension_for : String → String
  extension_for mime_type = elim (v.format_extension mime_type) [
    | none ↦ v.pdf_extension
    | some extension ↦ extension
  ]

  abbrev pub build_quarantine_key : ℕ → String → String
  build_quarantine_key document_id mime_type =
      concatenated (v.str document_id) (extension_for mime_type)

  abbrev pub build_raw_key : String → String → String
  build_raw_key sha256 mime_type = concatenated sha256 (extension_for mime_type)

  abbrev pub key_or : Option String → String → String
  key_or none key = key
  key_or (some String.[]) key = key
  key_or (some (String.◌∷◌ c s)) key = last_segment (String.◌∷◌ c s)

  abbrev pub quarantine_key_for : Document → String
  quarantine_key_for doc = key_or doc.quarantine_path (build_quarantine_key doc.id doc.mime_type)

  abbrev pub received_document : ℕ → String → ℕ → UploadMeta → String → Document
  received_document document_id filename size meta mime_type = record {
    id = document_id;
    filename = filename;
    owner_id = meta.owner_id;
    title = meta.title;
    description = meta.description;
    mime_type = mime_type;
    page_count = none;
    extraction_method = none;
    upload_batch_id = meta.upload_batch_id;
    size = size;
    checksum = none;
    status = DocumentStatus.quarantined;
    classification = some meta.classification;
    document_date = meta.document_date;
    version = 1;
    supersedes_id = none;
    quarantine_path = some (path_of v.quarantine (build_quarantine_key document_id mime_type));
    raw_path = none;
    rejection_reason = none;
    created_at = v.now;
    updated_at = v.now;
    deleted_at = none;
    purged_at = none;
  }

  abbrev pub note_upload : ℕ → Details → World O → World O
  note_upload document_id details s =
      let entry : AuditEntry = record {
        document_id = document_id;
        event_type = AuditEventType.document_quarantined;
        details = details;
      } in
      if not v.has_db || v.audit_fails entry
      then s
      else record s { audit_log = s.audit_log ++ entry ∷ [] }

  abbrev pub queue_scan : ℕ → World O → World O
  queue_scan document_id s =
      if v.has_db
      then record s { new_jobs = s.new_jobs ++ (document_id, JobStage.scan) ∷ [] }
      else s

  -- The steps behind the write to quarantine, with the store that it left.
  unfoldable pub register : ℕ → String → Text → UploadMeta → String → O → World O → World O
  unfolding create
  register document_id filename content meta mime_type objects s =
      let key = build_quarantine_key document_id mime_type in
      let doc = received_document document_id filename (length content) meta mime_type in
      note_upload document_id (upload filename (length content) (some meta.classification) key) (
        queue_scan document_id (record s { objects = objects; storage = (create doc s.storage).1 }))

  -- `document_id` is the fresh `uuid.uuid4()`. A store that raises ends the call.
  unfoldable pub receive : ℕ → String → Text → UploadMeta → String → World O → Fallible (World O)
  unfolding register
  receive document_id filename content meta mime_type s =
      elim (v.put_object v.quarantine (build_quarantine_key document_id mime_type) content
        s.objects) [
          | raised e ↦ raised e
          | returned objects ↦
              returned (register document_id filename content meta mime_type objects s)
        ]
