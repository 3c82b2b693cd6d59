-- ===== src/Drive.antt =====
-- The Drive connector: src/modules/connectors/drive/service.py with its models.py, and the tables
-- drive_files and drive_file_versions of src/db/models.py. The log, the notes on a version and the
-- cache of owners are left out; a rollback after a failed audit write has nothing to undo.
pub mod Export
pub mod Folders
pub mod Moves
pub mod Reconcile
pub mod Import
pub mod Pass
use Prim.Native.Char.{code}
use a_pag_ai_knowledge_base.Prelude.{
  ℕ, String, Bool, true, false, not, ◌&&◌, ◌||◌, Option, none, some, List, [], ◌∷◌, ◌++◌, any, map,
  keep_if, Text, ◌==◌, str_eq, if◌then◌else◌,
}
use a_pag_ai_knowledge_base.Documents.{Document, DocumentStatus, AuditEventType, same_event}
use a_pag_ai_knowledge_base.Scan.{World, AuditEntry, Details, duplicate_of}
use a_pag_ai_knowledge_base.Stages.{Fallible}
use a_pag_ai_knowledge_base.Upload.{Service, concatenated}

pub data DriveFileState : Type 0 where
  imported skipped removed failed : DriveFileState

pub data VersionState : Type 0 where
  pending current superseded duplicate failed removed : VersionState

-- One file as Drive describes it. The parents and the bin are the listing's business.
pub record DriveFile : Type 0 where
  pub file_id : String
  pub name : String
  pub mime_type : String
  pub modified_time : String
  pub size : Option ℕ
  pub owner_email : Option String
  pub md5 : Option String

-- A row of `drive_files`.
pub record FileRow : Type 0 where
  pub drive_file_id : String
  pub document_id : Option ℕ
  pub drive_modified_time : String
  pub drive_md5 : Option String
  pub drive_name : String
  pub drive_mime_type : String
  pub folder_id : Option String
  pub classification : Option String
  pub drive_owner_email : Option String
  pub state : DriveFileState
  pub skip_reason : Option String
  pub last_synced_at : ℕ

-- A row of `drive_file_versions`. The table is in the order of `imported_at`.
pub record Version : Type 0 where
  pub drive_file_id : String
  pub document_id : ℕ
  pub drive_modified_time : String
  pub drive_md5 : Option String
  pub state : VersionState
  pub settled_at : Option ℕ

pub record SyncOutcome : Type 0 where
  pub files_found : ℕ
  pub imported : List String
  pub edited : List String
  pub unchanged : ℕ
  pub skipped : List (String × String)
  pub failed : List (String × String)
  pub removed : List String
  pub restored : List String
  pub reclassified : List (String × String × String)
  pub owner_fallbacks : List (String × String)
  pub superseded : List String
  pub duplicates : List (String × String)
  pub escalated : List String
  pub pipeline_failed : List (String × DocumentStatus)
  pub still_processing : ℕ

-- The database, the object store, and the id that the next `uuid4` gives.
pub record SyncState (O : Type 0) : Type 0 where
  pub world : World O
  pub files : List FileRow
  pub versions : List Version
  pub next_id : ℕ

-- The service's configuration, Drive's API, the users table, the upload service, `detect_format`, and
-- what Python's strings and floats give.
pub record Connector (O : Type 0) : Type 0 where
  pub public_root : String
  pub restricted_root : String
  pub fallback_owner_email : String
  pub max_bytes : ℕ
  pub list_subfolders : String → List DriveFile
  pub list_children : String → List DriveFile
  pub download : String → Fallible Text
  pub export : String → String → Fallible Text
  pub find_user : String → Option ℕ
  pub strip_lower : String → String
  pub lower_ends_with : String → String → Bool
  pub detect_format : Text → Option String
  pub too_large : ℕ → ℕ → String
  pub service : Service O
  pub audit_fails : AuditEntry → Bool
  pub now : ℕ

abbrev pub is_imported : DriveFileState → Bool
is_imported DriveFileState.imported = true
is_imported _ = false

abbrev pub is_removed : DriveFileState → Bool
is_removed DriveFileState.removed = true
is_removed _ = false

abbrev pub is_pending : VersionState → Bool
is_pending VersionState.pending = true
is_pending _ = false

abbrev pub is_current : VersionState → Bool
is_current VersionState.current = true
is_current _ = false

abbrev pub is_retired : VersionState → Bool
is_retired VersionState.removed = true
is_retired _ = false

-- `state in (CURRENT, PENDING)`
abbrev pub is_visible : VersionState → Bool
is_visible state = is_current state || is_pending state

-- `session.get(DriveFileORM, file_id)`
unfoldable pub find_file : String → List FileRow → Option FileRow
find_file file_id [] = none
find_file file_id (r ∷ rows) =
    let rest = find_file file_id rows in if str_eq r.drive_file_id file_id then some r else rest

-- `session.merge(row)`
unfoldable pub put_file : FileRow → List FileRow → List FileRow
put_file row [] = row ∷ []
put_file row (r ∷ rows) =
    let rest = put_file row rows in
    if str_eq r.drive_file_id row.drive_file_id then row ∷ rows else r ∷ rest

abbrev pub versions_of : String → List Version → List Version
versions_of drive_file_id versions = keep_if (λ v. str_eq v.drive_file_id drive_file_id) versions

-- The row that the file has, or a new one.
abbrev pub row_or_new : String → Option FileRow → FileRow
row_or_new file_id none = record {
  drive_file_id = file_id;
  document_id = none;
  drive_modified_time = "";
  drive_md5 = none;
  drive_name = "";
  drive_mime_type = "";
  folder_id = none;
  classification = none;
  drive_owner_email = none;
  state = DriveFileState.imported;
  skip_reason = none;
  last_synced_at = 0;
}
row_or_new file_id (some row) = row

abbrev or_kept : Option ℕ → Option ℕ → Option ℕ
or_kept none kept = kept
or_kept (some document_id) kept = some document_id

-- `row.drive_name or row.drive_file_id`
abbrev pub name_of : FileRow → String
name_of row = if str_eq row.drive_name "" then row.drive_file_id else row.drive_name

module _ {O : Type 0} (c : Connector O) where
  -- `_record`, for a file under a watched folder.
  unfoldable pub record_file :
      DriveFile
      → DriveFileState
      → String
      → String
      → Option ℕ
      → Option String
      → SyncState O
      → SyncState O
  unfolding find_file put_file
  record_file item state tier folder_id document_id skip_reason s =
      let row = row_or_new item.file_id (find_file item.file_id s.files) in
      record s {
        files =
            put_file
              (record row {
                document_id = or_kept document_id row.document_id;
                drive_modified_time = item.modified_time;
                drive_md5 = item.md5;
                drive_name = item.name;
                drive_mime_type = item.mime_type;
                folder_id = some folder_id;
                classification = some tier;
                drive_owner_email = item.owner_email;
                state = state;
                skip_reason = skip_reason;
                last_synced_at = c.now;
              })
              s.files;
      }

  unfoldable pub log_change : ℕ → AuditEventType → Details → SyncState O → SyncState O
  log_change document_id event details s =
      let entry : AuditEntry = record {
        document_id = document_id;
        event_type = event;
        details = details;
      } in
      if c.audit_fails entry
      then s
      else record s { world = record s.world { audit_log = s.world.audit_log ++ entry ∷ [] } }

-- `a and b and a != b` and the fallback on the modified time.
abbrev is_empty : String → Bool
is_empty String.[] = true
is_empty (String.◌∷◌ c s) = false

abbrev changed_md5 : Bool → Option String → Option String → Bool
changed_md5 fallback none old = fallback
changed_md5 fallback (some new) none = fallback
changed_md5 fallback (some new) (some old) =
    if is_empty new || is_empty old then fallback else not (str_eq new old)

abbrev pub content_changed : FileRow → DriveFile → Bool
content_changed row item =
    changed_md5 (not (str_eq item.modified_time row.drive_modified_time)) item.md5 row.drive_md5

-- f"{item.name} [{tier.value}]"
abbrev pub label_of : DriveFile → String → String
label_of item tier = concatenated item.name (concatenated " [" (concatenated tier "]"))
