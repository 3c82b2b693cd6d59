-- ===== src/Drive/Import.antt =====
-- `_sync_one` and `_inherited_tier`, a function to a stretch of the code.
use a_pag_ai_knowledge_base.Prelude.{
  str_eq, ℕ, ◌+◌, String, Bool, false, not, ◌&&◌, ◌||◌, Option, none, some, [], ◌∷◌, ◌++◌, is_some,
  ltb, Text, if◌then◌else◌,
}
use a_pag_ai_knowledge_base.Access.{is_stricter, names}
use a_pag_ai_knowledge_base.Documents.{Document}
use a_pag_ai_knowledge_base.Repository.{get_by_id}
use a_pag_ai_knowledge_base.Scan.{World}
use a_pag_ai_knowledge_base.Stages.{raised, returned}
use a_pag_ai_knowledge_base.Upload.{UploadMeta, receive}
use a_pag_ai_knowledge_base.Drive.{
  DriveFile, DriveFileState, VersionState, FileRow, SyncOutcome, SyncState, Connector, is_imported,
  is_removed, find_file, record_file, content_changed, label_of,
}
use a_pag_ai_knowledge_base.Drive.Export.{unexportable_reason, fetch_bytes}
use a_pag_ai_knowledge_base.Drive.Folders.{
  Owner, owner, no_fallback_email, fallback_not_registered, resolve_owner,
}
use a_pag_ai_knowledge_base.Drive.Moves.{unchanged_content}

-- How the work on a file ended: a `DriveSyncError` ends the pass, any other exception is noted.
pub data Ending : Type 0 where
  finished : Ending
  sync_error : Owner → Ending
  surprised : String → Ending

pub record Step (O : Type 0) : Type 0 where
  pub ending : Ending
  pub outcome : SyncOutcome
  pub state : SyncState O

abbrev pub ended_with : {O : Type 0} → SyncOutcome → SyncState O → Step O
ended_with outcome s = record { ending = finished; outcome = outcome; state = s }

-- The file was imported before, or was removed.
abbrev pub is_known : Option FileRow → Bool
is_known none = false
is_known (some row) = is_some row.document_id && (is_imported row.state || is_removed row.state)

abbrev note_import : Bool → String → SyncOutcome → SyncOutcome
note_import is_new_version label outcome = record outcome {
  imported = outcome.imported ++ label ∷ [];
  edited = if is_new_version then outcome.edited ++ label ∷ [] else outcome.edited;
}

-- The stricter of the folder's tier and the previous version's.
abbrev stricter_tier : String → Option Document → String
stricter_tier tier none = tier
stricter_tier tier (some previous) = elim previous.classification [
  | none ↦ tier
  | some old ↦ if is_stricter (some old) (some tier) then old else tier
]

unfoldable pub previous_tier : FileRow → String → Option Document → String
unfolding is_stricter
previous_tier existing tier previous =
    if not (names existing.classification tier) then tier else stricter_tier tier previous

abbrev find_previous : {O : Type 0} → Option ℕ → SyncState O → Option Document
find_previous none s = none
find_previous (some document_id) s = get_by_id document_id s.world.storage

-- `_inherited_tier`, for a new version; any other import takes the folder's tier.
unfoldable pub import_tier : {O : Type 0} → Bool → Option FileRow → String → SyncState O → String
unfolding previous_tier
import_tier is_new_version none tier s = tier
import_tier is_new_version (some existing) tier s =
    if is_new_version
    then previous_tier existing tier (find_previous existing.document_id s)
    else tier

module _ {O : Type 0} (c : Connector O) where
  unfoldable pub skip_file :
      Bool → DriveFile → String → String → String → SyncOutcome → SyncState O → Step O
  unfolding record_file
  skip_file dry_run item tier folder_id reason outcome s =
      ended_with (record outcome { skipped = outcome.skipped ++ (item.name, reason) ∷ [] })
        (if dry_run
          then s
          else record_file c item DriveFileState.skipped tier folder_id none (some reason) s)

  abbrev upload_meta : String → ℕ → UploadMeta
  upload_meta tier owner_id = record {
    classification = tier;
    owner_id = some owner_id;
    title = none;
    description = none;
    document_date = none;
    upload_batch_id = none;
  }

  -- The record of an import, and the version that is pending from now on.
  unfoldable pub add_version : DriveFile → String → String → World O → SyncState O → SyncState O
  unfolding record_file
  add_version item tier folder_id world s =
      let received = record s { world = world; next_id = s.next_id + 1 } in
      let recorded =
        record_file c item DriveFileState.imported tier folder_id (some s.next_id) none received in
      record recorded {
        versions =
            recorded.versions
            ++ record {
              drive_file_id = item.file_id;
              document_id = s.next_id;
              drive_modified_time = item.modified_time;
              drive_md5 = item.md5;
              state = VersionState.pending;
              settled_at = none;
            }
              ∷ [];
      }

  unfoldable pub hand_over :
      Bool
      → Option FileRow
      → DriveFile
      → String
      → String
      → Text
      → String
      → String
      → ℕ
      → SyncOutcome
      → SyncState O
      → Step O
  unfolding import_tier receive add_version
  hand_over is_new_version existing item tier folder_id content filename mime_type owner_id outcome
        s =
      let meta = upload_meta (import_tier is_new_version existing tier s) owner_id in
      elim (receive c.service s.next_id filename content meta mime_type s.world) [
        | raised e ↦ record { ending = surprised e; outcome = outcome; state = s }
        | returned world ↦
            ended_with (note_import is_new_version (label_of item tier) outcome)
              (add_version item tier folder_id world s)
      ]

  -- `item.owner_email or "unknown"`
  abbrev email_or_unknown : Option String → String
  email_or_unknown none = "unknown"
  email_or_unknown (some email) = if str_eq email "" then "unknown" else email

  abbrev note_owner : Bool → DriveFile → SyncOutcome → SyncOutcome
  note_owner used_fallback item outcome =
      if used_fallback
      then record outcome {
        owner_fallbacks =
            outcome.owner_fallbacks ++ (item.name, email_or_unknown item.owner_email) ∷ [];
      }
      else outcome

  unfoldable pub import_content :
      Bool
      → Option FileRow
      → DriveFile
      → String
      → String
      → Text
      → String
      → SyncOutcome
      → SyncState O
      → Step O
  unfolding skip_file hand_over resolve_owner
  import_content is_new_version existing item tier folder_id [] filename outcome s =
      skip_file false item tier folder_id "the file is empty" outcome s
  import_content is_new_version existing item tier folder_id (byte ∷ bytes) filename outcome s =
      elim (c.detect_format (byte ∷ bytes)) [
        | none ↦ skip_file false item tier folder_id "not a PDF, DOCX, XLSX or PPTX" outcome s
        | some mime_type ↦ elim (resolve_owner c item.owner_email) [
          | owner owner_id used_fallback ↦
              hand_over is_new_version existing item tier folder_id (byte ∷ bytes) filename
                mime_type owner_id (note_owner used_fallback item outcome) s
          | no_fallback_email ↦ record {
            ending = sync_error no_fallback_email;
            outcome = outcome;
            state = s;
          }
          | fallback_not_registered email ↦ record {
            ending = sync_error (fallback_not_registered email);
            outcome = outcome;
            state = s;
          }
        ]
      ]

  unfoldable pub fetch_and_import :
      Bool → Option FileRow → DriveFile → String → String → SyncOutcome → SyncState O → Step O
  unfolding fetch_bytes import_content
  fetch_and_import is_new_version existing item tier folder_id outcome s =
      elim (fetch_bytes c item) [
        | raised e ↦ record { ending = surprised e; outcome = outcome; state = s }
        | returned (content, filename) ↦
            import_content is_new_version existing item tier folder_id content filename outcome s
      ]

  -- `item.size is not None and item.size > self._max_bytes`
  abbrev pub is_too_large : Option ℕ → Bool
  is_too_large none = false
  is_too_large (some size) = ltb c.max_bytes size

  abbrev pub size_reason : Option ℕ → String
  size_reason none = ""
  size_reason (some size) = c.too_large size c.max_bytes

  -- The gates before the file is fetched.
  unfoldable pub import_file :
      Bool
      → Bool
      → Option FileRow
      → DriveFile
      → String
      → String
      → SyncOutcome
      → SyncState O
      → Step O
  unfolding unexportable_reason skip_file fetch_and_import
  import_file dry_run is_new_version existing item tier folder_id outcome s =
      elim (unexportable_reason item.mime_type) [
        | some reason ↦ skip_file dry_run item tier folder_id reason outcome s
        | none ↦
            if is_too_large item.size
            then skip_file dry_run item tier folder_id (size_reason item.size) outcome s
            else if dry_run
            then ended_with (note_import is_new_version (label_of item tier) outcome) s
            else fetch_and_import is_new_version existing item tier folder_id outcome s
      ]

  -- The new file, the edited one, and the one whose content is the same.
  unfoldable pub sync_known :
      Bool → Option FileRow → DriveFile → String → String → SyncOutcome → SyncState O → Step O
  unfolding import_file unchanged_content
  sync_known dry_run none item tier folder_id outcome s =
      import_file dry_run false none item tier folder_id outcome s
  sync_known dry_run (some existing) item tier folder_id outcome s =
      let same = unchanged_content c dry_run existing item tier folder_id outcome s in
      if not (is_known (some existing))
      then import_file dry_run false (some existing) item tier folder_id outcome s
      else if content_changed existing item
      then import_file dry_run (is_imported existing.state) (some existing) item tier folder_id
          outcome s
      else ended_with same.0 same.1

  unfoldable pub sync_one : Bool → DriveFile → String → String → SyncOutcome → SyncState O → Step O
  unfolding sync_known find_file
  sync_one dry_run item tier folder_id outcome s =
      sync_known dry_run (find_file item.file_id s.files) item tier folder_id outcome s
