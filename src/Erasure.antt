-- ===== src/Erasure.antt =====
-- `erase_document` of src/modules/document_pipeline/erasure.py, with the audit entry that the delete
-- route of src/api/v1/ingestion.py records. The documents are those of Repository; the rows of the
-- other tables are behind a session, which holds what is committed and what is not yet.
pub mod Keys
pub mod Laws
pub mod Failure
pub mod Examples
use Prim.Native.Char.{code}
use a_pag_ai_knowledge_base.Prelude.{
  ℕ, String, Bool, true, false, not, ◌&&◌, ◌||◌, Option, none, some, List, [], ◌∷◌, ◌++◌, map,
  keep_if, any, ◌==◌, codes, str_eq, if◌then◌else◌,
}
use a_pag_ai_knowledge_base.Documents.{Document, JobStatus, AuditEventType}
use a_pag_ai_knowledge_base.Repository.{Storage, purge, purge_duplicates_of}
use a_pag_ai_knowledge_base.Queue.{Job, is_pending, is_running}
use a_pag_ai_knowledge_base.Stages.{ChunkRow}
use a_pag_ai_knowledge_base.Upload.{concatenated}

-- The tables that one transaction writes. Of an audit entry, the document and the event.
pub record Tables (V : Type 0) : Type 0 where
  pub jobs : List Job
  pub chunks : List (ChunkRow V)
  pub audit_log : List (ℕ × AuditEventType)

pub record State (O V : Type 0) : Type 0 where
  pub committed : Tables V
  pub working : Tables V
  pub storage : Storage
  pub objects : O

-- The object store. A deletion answers whether it succeeded.
pub record Buckets (O : Type 0) : Type 0 where
  pub raw : String
  pub quarantine : String
  pub extracted : String
  pub normalized : String
  pub object_exists : String → String → O → Bool
  pub delete_object : String → String → O → Bool × O
  pub str : ℕ → String

-- The exceptions `DocumentBusy` and `StorageEraseFailed`, the PendingRollbackError of the session, or
-- the return.
pub data Erasing : Type 0 where
  document_busy pending_rollback erased : Erasing
  storage_erase_failed : String → String → Erasing

-- `not path`
abbrev pub is_empty : String → Bool
is_empty String.[] = true
is_empty (String.◌∷◌ c path) = false

-- `path.startswith(prefix)`
abbrev pub starts_with : String → String → Bool
starts_with String.[] path = true
starts_with (String.◌∷◌ p prefix) String.[] = false
starts_with (String.◌∷◌ p prefix) (String.◌∷◌ c path) = code p == code c && starts_with prefix path

-- What follows the first slash: `path.split("/", 1)[-1]` of a path that has one.
abbrev pub behind_slash : String → String
behind_slash String.[] = ""
behind_slash (String.◌∷◌ c path) =
    let rest = behind_slash path in if code c == 47 then path else rest

abbrev pub with_slash : String → String
with_slash String.[] = "/"
with_slash (String.◌∷◌ c bucket) = String.◌∷◌ c (with_slash bucket)

unfoldable pub key_in : String → String → String
key_in bucket path = if starts_with (with_slash bucket) path then behind_slash path else path

abbrev pub commit : {O V : Type 0} → State O V → State O V
commit s = record s { committed = s.working }

abbrev pub rollback : {O V : Type 0} → State O V → State O V
rollback s = record s { working = s.committed }

-- `error_details`, where the code notes that the document was deleted, is left out.
-- The `WHERE` of the jobs: those of the document that are pending or running.
abbrev pub is_unfinished : ℕ → Job → Bool
is_unfinished document_id j =
    j.document_id == document_id && (is_pending j.status || is_running j.status)

abbrev pub fail_job : ℕ → ℕ → Job → Job
fail_job now document_id j =
    if is_unfinished document_id j
    then record j { status = JobStatus.failed; finished_at = some now }
    else j

-- `record` of the delete route: `AuditService.log_event` adds the entry and commits. When the commit
-- fails in its flush, SQLAlchemy rolls the transaction back and refuses the next statement; the route
-- drops the exception. With the state goes whether the session takes statements.
abbrev pub record_deletion : {O V : Type 0} → Bool → Document → State O V → Bool × State O V
record_deletion audit_fails doc s =
    let entered = record s {
      working = record s.working {
        audit_log = s.working.audit_log ++ (doc.id, AuditEventType.document_deleted) ∷ [];
      };
    } in
    if audit_fails then (false, rollback s) else (true, commit entered)

module _ {O : Type 0} (b : Buckets O) where
  abbrev pub extraction_key_for : ℕ → String
  extraction_key_for document_id = concatenated (b.str document_id) ".json"

  abbrev pub normalized_key_for : ℕ → String
  normalized_key_for document_id = concatenated (b.str document_id) ".json"

  abbrev pub objects_of : Document → List (String × Option String)
  objects_of doc =
      (b.raw, doc.raw_path)
      ∷ (b.quarantine, doc.quarantine_path)
      ∷ (b.extracted, some (extraction_key_for doc.id))
      ∷ (b.normalized, some (normalized_key_for doc.id))
      ∷ []

  -- Deleting one object, if it exists: whether that succeeded, and the store behind it.
  abbrev pub delete_existing : String → String → O → Bool × O
  delete_existing bucket key o =
      if b.object_exists bucket key o then b.delete_object bucket key o else (true, o)

  -- The loop over the objects: the one that could not be deleted, if any.
  unfoldable pub delete_objects : List (String × Option String) → O → Option (String × String) × O
  unfolding key_in
  delete_objects [] o = (none, o)
  delete_objects ((bucket, none) ∷ rest) o = delete_objects rest o
  delete_objects ((bucket, some path) ∷ rest) o =
      let key = key_in bucket path in
      let empty = is_empty path in
      let deleted = if empty then (true, o) else delete_existing bucket key o in
      let others = delete_objects rest deleted.1 in
      if deleted.0 then others else (some (bucket, key), deleted.1)

  unfoldable pub erase_copies : ℕ → Option String → Storage → Storage
  unfolding purge_duplicates_of
  erase_copies now none storage = storage
  erase_copies now (some checksum) storage =
      if is_empty checksum then storage else (purge_duplicates_of now checksum storage).1

  unfoldable pub finish : {V : Type 0} → ℕ → Document → State O V → State O V
  unfolding purge purge_duplicates_of erase_copies
  finish now doc s =
      let emptied = commit (record s {
        working = record s.working {
          chunks = keep_if (λ c. not (c.document_id == doc.id)) s.working.chunks;
        };
      }) in
      record emptied {
        storage = erase_copies now doc.checksum (purge now doc.id emptied.storage).1;
      }

  -- The passages are deleted by a statement, if the session takes any.
  unfoldable pub answer :
      {V : Type 0}
      → ℕ
      → Document
      → Bool
      → Option (String × String)
      → State O V
      → Erasing × State O V
  unfolding finish
  answer now doc usable none s =
      if usable then (erased, finish now doc s) else (pending_rollback, s)
  answer now doc usable (some failed) s = (storage_erase_failed failed.0 failed.1, rollback s)

  unfoldable pub erase_document :
      {V : Type 0} → ℕ → Document → (State O V → Bool × State O V) → State O V → Erasing × State O V
  unfolding delete_objects answer
  erase_document now doc record_entry s =
      let busy = any (λ j. is_unfinished doc.id j && is_running j.status) s.working.jobs in
      let recorded = record_entry (record s {
        working = record s.working { jobs = map (fail_job now doc.id) s.working.jobs };
      }) in
      let claimed = recorded.1 in
      let deleted = delete_objects (objects_of doc) claimed.objects in
      if busy
      then (document_busy, rollback s)
      else answer now doc recorded.0 deleted.0 (record claimed { objects = deleted.1 })
