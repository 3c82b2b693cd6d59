-- ===== src/Drive/Reconcile.antt =====
-- `reconcile`, `_reconcile_file`, `_supersede`, `_canonical_for` and `_was_escalation`.
pub mod Visibility
use a_pag_ai_knowledge_base.Prelude.{
  ℕ, ◌+◌, String, Bool, true, false, not, ◌&&◌, ◌||◌, Option, none, some, List, [], ◌∷◌, ◌++◌, map,
  any, keep_if, is_some, str_eq, ◌==◌, if◌then◌else◌,
}
use a_pag_ai_knowledge_base.Access.{names}
use a_pag_ai_knowledge_base.Documents.{
  Document, DocumentStatus, AuditEventType, same_status, same_event, is_duplicate,
}
use a_pag_ai_knowledge_base.Repository.{Storage, get_by_id, update_document, soft_delete}
use a_pag_ai_knowledge_base.Scan.{World, AuditEntry, Details, duplicate_of, drive_edit}
use a_pag_ai_knowledge_base.Drive.{
  VersionState, FileRow, Version, SyncOutcome, SyncState, Connector, is_pending, is_visible,
  versions_of, find_file, log_change, name_of,
}

-- `status in _FAILED_STATUSES`
abbrev pub is_failure : DocumentStatus → Bool
is_failure DocumentStatus.rejected = true
is_failure DocumentStatus.validation_failed = true
is_failure DocumentStatus.extraction_failed = true
is_failure DocumentStatus.normalization_failed = true
is_failure DocumentStatus.chunking_failed = true
is_failure DocumentStatus.embedding_failed = true
is_failure DocumentStatus.skipped_unsupported_language = true
is_failure _ = false

abbrev is_refused : DocumentStatus → Bool
is_refused DocumentStatus.duplicate = true
is_refused DocumentStatus.rejected = true
is_refused _ = false

-- The same bytes, in a document that is neither this one nor refused.
abbrev is_canonical : String → ℕ → Document → Bool
is_canonical sha256 document_id d =
    names d.checksum sha256 && (not (d.id == document_id) && not (is_refused d.status))

abbrev first_such : (Document → Bool) → Storage → Option Document
first_such test [] = none
first_such test (d ∷ s) = let rest = first_such test s in if test d then some d else rest

unfoldable pub canonical_for : Document → Storage → Option Document
canonical_for doc s = elim doc.checksum [
  | none ↦ none
  | some sha256 ↦ if str_eq sha256 "" then none else first_such (is_canonical sha256 doc.id) s
]

-- The details say that the tier of the canonical document was raised.
abbrev says_escalated : Details → Bool
says_escalated (duplicate_of filename canonical sha256 escalated) = escalated
says_escalated _ = false

unfoldable pub was_escalation : ℕ → List AuditEntry → Bool
was_escalation document_id log =
    any
      (λ (e : AuditEntry).
        e.document_id == document_id
        && (same_event e.event_type AuditEventType.document_rejected && says_escalated e.details))
      log

abbrev canonical_name : Option Document → String
canonical_name none = "an existing document"
canonical_name (some canonical) = canonical.filename

-- What became of a pending version: it was refused as a copy, it failed, or it is undecided.
pub data Fate : Type 0 where
  copied fails undecided : Fate

abbrev fate_of_status : DocumentStatus → Fate
fate_of_status status =
    if is_duplicate status then copied else if is_failure status then fails else undecided

abbrev pub fate_of : Option Document → Fate
fate_of none = undecided
fate_of (some doc) = fate_of_status doc.status

abbrev pub is_live : Option Document → Bool
is_live none = false
is_live (some doc) = same_status doc.status DocumentStatus.live

-- `newest = versions[-1]`
unfoldable pub newest_of : List Version → Option Version
newest_of [] = none
newest_of (v ∷ []) = some v
newest_of (v ∷ w ∷ versions) = newest_of (w ∷ versions)

abbrev next_version : ℕ → ℕ
next_version version = if version == 0 then 2 else version + 1

module _ {O : Type 0} (c : Connector O) where
  -- A version whose fate is known is settled; an undecided one stays as it is.
  abbrev settled_as : Version → Fate → Version
  settled_as v undecided = v
  settled_as v copied = record v { state = VersionState.duplicate; settled_at = some c.now }
  settled_as v fails = record v { state = VersionState.failed; settled_at = some c.now }

  abbrev is_pending_of : String → Version → Bool
  is_pending_of drive_file_id v = str_eq v.drive_file_id drive_file_id && is_pending v.state

  -- The first loop of `_reconcile_file`, on a version.
  unfoldable pub settle_version : String → Storage → Version → Version
  unfolding get_by_id
  settle_version drive_file_id storage v =
      if is_pending_of drive_file_id v
      then settled_as v (fate_of (get_by_id v.document_id storage))
      else v

  unfoldable note_copy : String → Document → SyncState O → SyncOutcome → SyncOutcome
  unfolding canonical_for was_escalation
  note_copy name doc s outcome = record outcome {
    duplicates =
        outcome.duplicates ++ (name, canonical_name (canonical_for doc s.world.storage)) ∷ [];
    escalated =
        if was_escalation doc.id s.world.audit_log
        then outcome.escalated ++ name ∷ []
        else outcome.escalated;
  }

  unfoldable note_fate : String → Option Document → SyncState O → SyncOutcome → SyncOutcome
  unfolding note_copy
  note_fate name none s outcome = outcome
  note_fate name (some doc) s outcome =
      if is_duplicate doc.status
      then note_copy name doc s outcome
      else if is_failure doc.status
      then record outcome { pipeline_failed = outcome.pipeline_failed ++ (name, doc.status) ∷ [] }
      else outcome

  -- What the first loop notes.
  unfoldable pub note_fates : String → List Version → SyncState O → SyncOutcome → SyncOutcome
  unfolding note_fate get_by_id
  note_fates name [] s outcome = outcome
  note_fates name (v ∷ versions) s outcome =
      let doc = get_by_id v.document_id s.world.storage in
      note_fates name versions s
        (if is_pending v.state then note_fate name doc s outcome else outcome)

  -- `_supersede`: the old document is hidden, and the new one, if it is there, points back to it.
  unfoldable pub link_new : Document → Option Document → Storage → Storage
  unfolding update_document
  link_new old none s = s
  link_new old (some new) s =
      (update_document c.now
        (record new { supersedes_id = some old.id; version = next_version old.version }) s).1

  unfoldable pub supersede_old : Option Document → ℕ → String → SyncState O → SyncState O
  unfolding update_document soft_delete get_by_id link_new log_change
  supersede_old none new_id drive_file_id s = s
  supersede_old (some old) new_id drive_file_id s =
      let retired = record old { status = DocumentStatus.superseded } in
      let hidden = (soft_delete c.now old.id (update_document c.now retired s.world.storage).1).1 in
      let linked = link_new old (get_by_id new_id hidden) hidden in
      if is_some old.purged_at
      then s
      else log_change c old.id AuditEventType.document_superseded
          (drive_edit (some new_id) drive_file_id)
          (record s { world = record s.world { storage = linked } })

  abbrev is_older : ℕ → Version → Bool
  is_older new_id v = is_visible v.state && not (v.document_id == new_id)

  -- The loop over `versions[:-1]`: the documents that can still be seen give way to the newest.
  unfoldable pub supersede_documents : String → ℕ → List Version → SyncState O → SyncState O
  unfolding supersede_old get_by_id
  supersede_documents drive_file_id new_id [] s = s
  supersede_documents drive_file_id new_id (v ∷ versions) s =
      supersede_documents drive_file_id new_id versions (
        if is_older new_id v
        then supersede_old (get_by_id v.document_id s.world.storage) new_id drive_file_id s
        else s)

  -- The same loop on the versions, and the newest becomes current.
  abbrev pub replace_version : String → ℕ → Version → Version
  replace_version drive_file_id new_id v =
      if not (str_eq v.drive_file_id drive_file_id)
      then v
      else if v.document_id == new_id
      then record v { state = VersionState.current; settled_at = some c.now }
      else if is_visible v.state
      then record v { state = VersionState.superseded; settled_at = some c.now }
      else v

  abbrev names_of : String → List Version → ℕ → List String
  names_of name versions new_id = map (λ _. name) (keep_if (is_older new_id) versions)

  -- The newest version is pending and live: it becomes the one that people see.
  unfoldable pub promote_newest :
      Bool
      → String
      → String
      → Version
      → List Version
      → SyncOutcome
      → SyncState O
      → SyncOutcome × SyncState O
  unfolding supersede_documents
  promote_newest dry_run drive_file_id name newest versions outcome s =
      let replaced = supersede_documents drive_file_id newest.document_id versions s in
      (
        record outcome {
          superseded = outcome.superseded ++ names_of name versions newest.document_id;
        },
        if dry_run then s else record replaced {
          versions = map (replace_version drive_file_id newest.document_id) replaced.versions;
        },
      )

  -- `_reconcile_file` behind the first loop.
  unfoldable pub conclude :
      Bool
      → String
      → String
      → Option Version
      → SyncOutcome
      → SyncState O
      → SyncOutcome × SyncState O
  unfolding promote_newest get_by_id
  conclude dry_run drive_file_id name none outcome s = (outcome, s)
  conclude dry_run drive_file_id name (some newest) outcome s =
      if not (is_pending newest.state)
      then (outcome, s)
      else if not (is_live (get_by_id newest.document_id s.world.storage))
      then (record outcome { still_processing = outcome.still_processing + 1 }, s)
      else promote_newest dry_run drive_file_id name newest (versions_of drive_file_id s.versions)
          outcome s

  abbrev shown_name : String → Option FileRow → String
  shown_name drive_file_id none = drive_file_id
  shown_name drive_file_id (some row) = name_of row

  unfoldable pub reconcile_file :
      Bool → String → SyncOutcome → SyncState O → SyncOutcome × SyncState O
  unfolding settle_version note_fates conclude newest_of find_file
  reconcile_file dry_run drive_file_id outcome s =
      let name = shown_name drive_file_id (find_file drive_file_id s.files) in
      let noted = note_fates name (versions_of drive_file_id s.versions) s outcome in
      let settled = if dry_run then s else record s {
        versions = map (settle_version drive_file_id s.world.storage) s.versions;
      } in
      conclude dry_run drive_file_id name (newest_of (versions_of drive_file_id settled.versions))
        noted settled

  -- `select(drive_file_id).where(state == PENDING).distinct()`
  abbrev with_file : String → List String → List String
  with_file drive_file_id ids = if any (str_eq drive_file_id) ids then ids else drive_file_id ∷ ids

  unfoldable pub pending_files : List Version → List String
  pending_files [] = []
  pending_files (v ∷ versions) =
      let rest = pending_files versions in
      if is_pending v.state then with_file v.drive_file_id rest else rest

  unfoldable pub reconcile_files :
      Bool → List String → SyncOutcome → SyncState O → SyncOutcome × SyncState O
  unfolding reconcile_file
  reconcile_files dry_run [] outcome s = (outcome, s)
  reconcile_files dry_run (i ∷ ids) outcome s =
      let reconciled = reconcile_file dry_run i outcome s in
      reconcile_files dry_run ids reconciled.0 reconciled.1

  unfoldable pub reconcile : Bool → SyncOutcome → SyncState O → SyncOutcome × SyncState O
  unfolding reconcile_files pending_files
  reconcile dry_run outcome s = reconcile_files dry_run (pending_files s.versions) outcome s
