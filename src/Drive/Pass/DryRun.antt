-- ===== src/Drive/Pass/DryRun.antt =====
-- `--dry-run`: a pass that only says what it would do.
use a_pag_ai_knowledge_base.Prelude.{
  ℕ, ◌≡◌, refl, ◌∙◌, inl, inr, String, Bool, true, false, not, ◌&&◌, Option, none, some, List, [],
  ◌∷◌, if◌then◌else◌, arith, if_either, keep_if, Option-cases,
}
use a_pag_ai_knowledge_base.Drive.{
  DriveFile, FileRow, SyncOutcome, SyncState, Connector, find_file, is_imported,
}
use a_pag_ai_knowledge_base.Drive.Export.{unexportable_reason}
use a_pag_ai_knowledge_base.Drive.Folders.{Found, resolve_folder_tiers}
use a_pag_ai_knowledge_base.Drive.Moves.{unchanged_content, retire_rows, retire_vanished}
use a_pag_ai_knowledge_base.Drive.Reconcile.{
  pending_files, promote_newest, conclude, reconcile_file, reconcile_files, reconcile,
}
use a_pag_ai_knowledge_base.Drive.Import.{
  Step, Ending, finished, sync_error, surprised, skip_file, import_file, sync_known, sync_one,
  is_too_large,
}
use a_pag_ai_knowledge_base.Drive.Pass.{
  Pass, passed, no_folder_set, misconfigured, is_in_listing, note_failure, noted, close, sync_files,
  sync_found, sync_once,
}

-- The database and the object store when a pass ends; it began at `s`.
abbrev pub state_after : {O : Type 0} → SyncState O → Pass O → SyncState O
state_after s (passed outcome s') = s'
state_after s no_folder_set = s
state_after s (misconfigured e s') = s'

module _ {O : Type 0} (c : Connector O) where
  import_file_dry :
      (is_new_version : Bool) (existing : Option FileRow) (item : DriveFile)
      (tier folder_id : String) (outcome : SyncOutcome) (s : SyncState O)
      → (import_file c true is_new_version existing item tier folder_id outcome s).state ≡ s
  unfolding import_file skip_file
  import_file_dry is_new_version existing item tier folder_id outcome s =
      elim (Option-cases (unexportable_reason item.mime_type)) [
        | inl none_given ↦
            rw (none_given, import_file)
              (if_either (λ (step : Step O). step.state ≡ s) (is_too_large c item.size) refl refl)
        | inr (reason, given) ↦ rw (given, import_file) refl
      ]

  sync_known_dry :
      (existing : Option FileRow) (item : DriveFile) (tier folder_id : String)
      (outcome : SyncOutcome) (s : SyncState O)
      → (sync_known c true existing item tier folder_id outcome s).state ≡ s
  unfolding sync_known unchanged_content
  sync_known_dry none item tier folder_id outcome s =
      import_file_dry false none item tier folder_id outcome s
  sync_known_dry (some existing) item tier folder_id outcome s = ground (
    arith,
    import_file_dry false (some existing) item tier folder_id outcome s,
    import_file_dry (is_imported existing.state) (some existing) item tier folder_id outcome s,
  )

  retire_rows_dry :
      (found : String → Bool) (rows : List FileRow) (outcome : SyncOutcome) (s : SyncState O)
      → (retire_rows c true found rows outcome s).1 ≡ s
  unfolding retire_rows
  retire_rows_dry found [] outcome s = refl
  retire_rows_dry found (row ∷ rows) outcome s =
      retire_rows_dry found rows _ _ ∙ kept (found row.drive_file_id) _
    where
      kept : (b : Bool) (gone : SyncState O) → (if not b && false then gone else s) ≡ s
      kept true gone = refl
      kept false gone = refl

  retire_vanished_dry :
      (partial : Bool) (found : String → Bool) (outcome : SyncOutcome) (s : SyncState O)
      → (retire_vanished c true partial found outcome s).1 ≡ s
  unfolding retire_vanished
  retire_vanished_dry true found outcome s = refl
  retire_vanished_dry false found outcome s =
      retire_rows_dry found (keep_if (λ r. is_imported r.state) s.files) outcome s

  reconcile_file_dry :
      (file : String) (outcome : SyncOutcome) (s : SyncState O)
      → (reconcile_file c true file outcome s).1 ≡ s
  unfolding reconcile_file conclude promote_newest
  reconcile_file_dry file outcome s = ground arith

  reconcile_files_dry :
      (ids : List String) (outcome : SyncOutcome) (s : SyncState O)
      → (reconcile_files c true ids outcome s).1 ≡ s
  unfolding reconcile_files
  reconcile_files_dry [] outcome s = refl
  reconcile_files_dry (i ∷ ids) outcome s =
      reconcile_files_dry ids _ _ ∙ reconcile_file_dry i outcome s

  close_dry :
      (partial : Bool) (found : List Found) (outcome : SyncOutcome) (s s' : SyncState O)
      → state_after s' (close c true partial found outcome s) ≡ s
  unfolding close reconcile retire_vanished
  close_dry partial found outcome s s' =
      let retired = retire_vanished c true partial (is_in_listing found) outcome s in
      reconcile_files_dry (pending_files c retired.1.versions) retired.0 retired.1
      ∙ retire_vanished_dry partial (is_in_listing found) outcome s

  noted_dry :
      (brief : String → String) (f : Found) (step : Step O)
      → (noted c brief true f step).1 ≡ step.state
  unfolding noted note_failure
  noted_dry brief f step = kept step.ending
    where
      kept :
          (e : Ending)
          → (elim e as (λ _. SyncOutcome × SyncState O) [
            | finished ↦ (step.outcome, step.state)
            | sync_error e ↦ (step.outcome, step.state)
            | surprised e ↦ note_failure c brief true f e step.outcome step.state
          ]).1
            ≡ step.state
      kept finished = refl
      kept (sync_error e) = refl
      kept (surprised e) = refl

  sync_one_dry :
      (f : Found) (outcome : SyncOutcome) (s : SyncState O)
      → (sync_one c true f.item f.tier f.folder_id outcome s).state ≡ s
  unfolding sync_one
  sync_one_dry f outcome s =
      sync_known_dry (find_file f.item.file_id s.files) f.item f.tier f.folder_id outcome s

  sync_files_dry :
      (brief : String → String) (partial : Bool) (found items : List Found) (outcome : SyncOutcome)
      (s s' : SyncState O)
      → state_after s' (sync_files c brief true partial found items outcome s) ≡ s
  unfolding sync_files
  sync_files_dry brief partial found [] outcome s s' = close_dry partial found outcome s s'
  sync_files_dry brief partial found (f ∷ items) outcome s s' =
      let step = sync_one c true f.item f.tier f.folder_id outcome s in
      let next = noted c brief true f step in
      ends step.ending _ _ (sync_one_dry f outcome s) (
        sync_files_dry brief partial found items next.0 next.1 s'
        ∙ noted_dry brief f step
        ∙ sync_one_dry f outcome s)
    where
      ends :
          (e : Ending) (rest : Pass O) (stopped : SyncState O)
          → stopped ≡ s
          → state_after s' rest ≡ s
          → state_after s' (elim e [
            | finished ↦ rest
            | sync_error e ↦ misconfigured e stopped
            | surprised e ↦ rest
          ])
            ≡ s
      ends finished rest stopped stopped_at rest_at = rest_at
      ends (sync_error e) rest stopped stopped_at rest_at = stopped_at
      ends (surprised e) rest stopped stopped_at rest_at = rest_at

  -- A dry pass leaves the tables, the documents, the audit log and the object store as they were,
  -- with or without a limit, whether it ends or stops at an error of the configuration.
  pub sync_once_dry :
      (brief : String → String) (limit : Option ℕ) (s : SyncState O)
      → state_after s (sync_once c brief true limit s) ≡ s
  unfolding sync_once sync_found
  sync_once_dry brief limit s = elim (Option-cases (resolve_folder_tiers c)) [
    | inl unset ↦ rw (unset, sync_once) refl
    | inr (tiers, resolved) ↦ rw (resolved, sync_once) (sync_files_dry brief _ _ _ _ s s)
  ]
