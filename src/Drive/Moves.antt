-- ===== src/Drive/Moves.antt =====
-- `_restore`, `_reclassify`, `_unchanged_content` and `_retire_vanished`.
pub mod Retirement
use a_pag_ai_knowledge_base.Prelude.{
  ℕ, ◌+◌, String, Bool, true, false, not, ◌&&◌, ◌||◌, Option, none, some, List, [], ◌∷◌, ◌++◌, map,
  any, keep_if, is_some, ◌==◌, str_eq, if◌then◌else◌,
}
use a_pag_ai_knowledge_base.Access.{names}
use a_pag_ai_knowledge_base.Documents.{Document, AuditEventType}
use a_pag_ai_knowledge_base.Repository.{get_by_id, soft_delete, restore, set_classification}
use a_pag_ai_knowledge_base.Scan.{World, drive_event, folder_move}
use a_pag_ai_knowledge_base.Drive.{
  DriveFile, DriveFileState, VersionState, FileRow, Version, SyncOutcome, SyncState, Connector,
  is_removed, is_imported, is_retired, is_visible, versions_of, find_file, put_file, record_file,
  log_change, label_of, name_of,
}

-- The last version of the file that was retired with it: `order_by(imported_at.desc())`, first.
unfoldable pub last_retired : String → List Version → Option Version
last_retired drive_file_id [] = none
last_retired drive_file_id (v ∷ versions) = elim (last_retired drive_file_id versions) [
  | none ↦ if str_eq v.drive_file_id drive_file_id && is_retired v.state then some v else none
  | some later ↦ some later
]

-- `version.state = state`, `version.settled_at = settled_at`: a document belongs to one version.
abbrev pub settle : ℕ → VersionState → Option ℕ → List Version → List Version
settle document_id state settled_at versions =
    map
      (λ v.
        if v.document_id == document_id
        then record v { state = state; settled_at = settled_at }
        else v)
      versions

-- `[v.document_id for v in live] or ([row.document_id] if row.document_id else [])`
abbrev or_last : List ℕ → Option ℕ → List ℕ
or_last [] none = []
or_last [] (some document_id) = document_id ∷ []
or_last (i ∷ ids) document_id = i ∷ ids

abbrev pub live_versions : String → List Version → List Version
live_versions drive_file_id versions =
    keep_if (λ v. is_visible v.state) (versions_of drive_file_id versions)

abbrev pub visible_documents : FileRow → List Version → List ℕ
visible_documents row versions =
    or_last (map (λ (v : Version). v.document_id) (live_versions row.drive_file_id versions))
      row.document_id

module _ {O : Type 0} (c : Connector O) where
  -- `if repo.restore(document_id)`, with its entry.
  unfoldable pub restore_document : ℕ → String → SyncState O → SyncState O
  unfolding restore log_change
  restore_document document_id drive_file_id s =
      let restored = restore document_id s.world.storage in
      if restored.0
      then log_change c document_id AuditEventType.document_restored
          (drive_event "drive-file-returned" drive_file_id)
          (record s { world = record s.world { storage = restored.1 } })
      else s

  unfoldable pub restore_last : Option Version → FileRow → SyncState O → SyncState O
  unfolding restore_document
  restore_last (some version) row s =
      let restored = restore_document version.document_id row.drive_file_id s in
      record restored {
        versions = settle version.document_id VersionState.pending none restored.versions;
      }
  restore_last none row s = elim row.document_id [
    | none ↦ s
    | some document_id ↦ restore_document document_id row.drive_file_id s
  ]

  unfoldable pub restore_file : FileRow → SyncState O → SyncState O
  unfolding last_retired restore_last
  restore_file row s = restore_last (last_retired row.drive_file_id s.versions) row s

  -- A document that is stored, not purged, and not at the tier yet.
  abbrev changes_tier : String → Option Document → Bool
  changes_tier tier none = false
  changes_tier tier (some doc) = not (is_some doc.purged_at) && not (names doc.classification tier)

  abbrev old_tier : Option Document → Option String
  old_tier none = none
  old_tier (some doc) = doc.classification

  unfoldable pub move_document : String → String → ℕ → SyncState O → SyncState O
  unfolding set_classification get_by_id log_change
  move_document tier drive_file_id document_id s =
      let found = get_by_id document_id s.world.storage in
      if changes_tier tier found
      then log_change c document_id AuditEventType.document_reclassified
          (folder_move (old_tier found) tier drive_file_id)
          (record s {
            world = record s.world {
              storage = (set_classification c.now document_id tier s.world.storage).1;
            };
          })
      else s

  unfoldable pub move_documents : String → String → List ℕ → SyncState O → SyncState O
  unfolding move_document
  move_documents tier drive_file_id [] s = s
  move_documents tier drive_file_id (i ∷ ids) s =
      move_documents tier drive_file_id ids (move_document tier drive_file_id i s)

  -- `_reclassify`
  unfoldable pub reclassify_file : FileRow → String → SyncState O → SyncState O
  unfolding move_documents
  reclassify_file row tier s =
      move_documents tier row.drive_file_id (visible_documents row s.versions) s

  abbrev tier_or_dash : Option String → String
  tier_or_dash none = "-"
  tier_or_dash (some tier) = if str_eq tier "" then "-" else tier

  -- What a pass notes of a file whose content is the same.
  abbrev note_unchanged : Bool → Bool → DriveFile → String → String → SyncOutcome → SyncOutcome
  note_unchanged returned moved item old tier outcome = record outcome {
    restored = if returned then outcome.restored ++ label_of item tier ∷ [] else outcome.restored;
    reclassified =
        if moved then outcome.reclassified ++ (item.name, old, tier) ∷ [] else outcome.reclassified;
    unchanged = if returned || moved then outcome.unchanged else outcome.unchanged + 1;
  }

  -- `_unchanged_content`, with what it writes unless the run is dry.
  unfoldable pub unchanged_content :
      Bool
      → FileRow
      → DriveFile
      → String
      → String
      → SyncOutcome
      → SyncState O
      → SyncOutcome × SyncState O
  unfolding restore_file reclassify_file record_file
  unchanged_content dry_run existing item tier folder_id outcome s =
      let returned = is_removed existing.state in
      let old = tier_or_dash existing.classification in
      let moved = not (str_eq old tier) in
      let back = if returned then restore_file existing s else s in
      let placed = if moved then reclassify_file existing tier back else back in
      (
        note_unchanged returned moved item old tier outcome,
        if dry_run
            then s
            else record_file c item DriveFileState.imported tier folder_id none none placed,
      )

  -- `if repo.soft_delete(document_id)`, with its entry.
  unfoldable pub retire_document : String → ℕ → SyncState O → SyncState O
  unfolding soft_delete log_change
  retire_document drive_file_id document_id s =
      let deleted = soft_delete c.now document_id s.world.storage in
      if deleted.0
      then log_change c document_id AuditEventType.document_deleted
          (drive_event "drive-file-removed" drive_file_id)
          (record s { world = record s.world { storage = deleted.1 } })
      else s

  unfoldable pub retire_documents : String → List ℕ → SyncState O → SyncState O
  unfolding retire_document
  retire_documents drive_file_id [] s = s
  retire_documents drive_file_id (i ∷ ids) s =
      retire_documents drive_file_id ids (retire_document drive_file_id i s)

  abbrev pub retire_versions : String → List Version → List Version
  retire_versions drive_file_id versions =
      map
        (λ v.
          if str_eq v.drive_file_id drive_file_id && is_visible v.state
          then record v { state = VersionState.removed; settled_at = some c.now }
          else v)
        versions

  -- A row whose file is gone: its documents leave the search, its versions are retired.
  unfoldable pub retire_file : FileRow → SyncState O → SyncState O
  unfolding retire_documents put_file
  retire_file row s =
      let retired = retire_documents row.drive_file_id (visible_documents row s.versions) s in
      record retired {
        versions = retire_versions row.drive_file_id retired.versions;
        files =
            put_file
              (record row {
                state = DriveFileState.removed;
                skip_reason = some "no longer in a watched Drive folder";
              })
              retired.files;
      }

  -- The loop over the rows that were IMPORTED; `found` says which files are in the listing.
  unfoldable pub retire_rows :
      Bool → (String → Bool) → List FileRow → SyncOutcome → SyncState O → SyncOutcome × SyncState O
  unfolding retire_file
  retire_rows dry_run found [] outcome s = (outcome, s)
  retire_rows dry_run found (row ∷ rows) outcome s =
      let gone = not (found row.drive_file_id) in
      retire_rows dry_run found rows
        (if gone then record outcome { removed = outcome.removed ++ name_of row ∷ [] } else outcome)
        (if gone && not dry_run then retire_file row s else s)

  unfoldable pub retire_vanished :
      Bool → Bool → (String → Bool) → SyncOutcome → SyncState O → SyncOutcome × SyncState O
  unfolding retire_rows
  retire_vanished dry_run partial found outcome s =
      if partial
      then (outcome, s)
      else retire_rows dry_run found (keep_if (λ r. is_imported r.state) s.files) outcome s
