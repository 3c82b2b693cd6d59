-- ===== src/Drive/Pass.antt =====
-- `_sync_once`: the order of a pass.
pub mod DryRun
pub mod Forgotten
pub mod Examples
use Prim.Native.String.{compare}
use Prim.Native.Nat.{Ordering}
use a_pag_ai_knowledge_base.Prelude.{
  ℕ, String, Bool, true, false, not, Option, none, some, List, [], ◌∷◌, ◌++◌, any, take, length,
  is_some, str_eq, if◌then◌else◌,
}
use a_pag_ai_knowledge_base.Drive.{
  DriveFile, DriveFileState, SyncOutcome, SyncState, Connector, record_file,
}
use a_pag_ai_knowledge_base.Drive.Folders.{
  Owner, Tiers, Found, resolve_folder_tiers, list_watched_files,
}
use a_pag_ai_knowledge_base.Drive.Import.{Ending, finished, sync_error, surprised, Step, sync_one}
use a_pag_ai_knowledge_base.Drive.Moves.{retire_vanished}
use a_pag_ai_knowledge_base.Drive.Reconcile.{reconcile}

abbrev comes_first : String → String → Bool
comes_first a b = elim (compare a b) [ Ordering.gt ↦ false | _ ↦ true ]

-- `sorted(found.values(), key=name)`
unfoldable pub insert_by_name : Found → List Found → List Found
insert_by_name f [] = f ∷ []
insert_by_name f (g ∷ l) =
    let rest = insert_by_name f l in
    if comes_first f.item.name g.item.name then f ∷ g ∷ l else g ∷ rest

unfoldable pub sort_by_name : List Found → List Found
unfolding insert_by_name
sort_by_name [] = []
sort_by_name (f ∷ l) = insert_by_name f (sort_by_name l)

abbrev limited : Option ℕ → List Found → List Found
limited none items = items
limited (some n) items = take n items

abbrev pub is_in_listing : List Found → String → Bool
is_in_listing found file_id = any (λ (f : Found). str_eq f.item.file_id file_id) found

abbrev pub nothing_done : SyncOutcome
nothing_done = record {
  files_found = 0;
  imported = [];
  edited = [];
  unchanged = 0;
  skipped = [];
  failed = [];
  removed = [];
  restored = [];
  reclassified = [];
  owner_fallbacks = [];
  superseded = [];
  duplicates = [];
  escalated = [];
  pipeline_failed = [];
  still_processing = 0;
}

-- A pass that ran to its end, or the `DriveSyncError` with what was done before it.
pub data Pass (O : Type 0) : Type 0 where
  passed : SyncOutcome → SyncState O → Pass O
  no_folder_set : Pass O
  misconfigured : Owner → SyncState O → Pass O

module _ {O : Type 0} (c : Connector O) where
  -- `except Exception as e`; `brief` is `str(e)[:500]`.
  unfoldable pub note_failure :
      (String → String)
      → Bool
      → Found
      → String
      → SyncOutcome
      → SyncState O
      → SyncOutcome × SyncState O
  unfolding record_file
  note_failure brief dry_run f e outcome s = (
    record outcome { failed = outcome.failed ++ (f.item.name, e) ∷ [] },
    if dry_run
        then s
        else record_file c f.item DriveFileState.failed f.tier f.folder_id none (some (brief e)) s,
  )

  -- Behind the loop over the files.
  unfoldable pub close : Bool → Bool → List Found → SyncOutcome → SyncState O → Pass O
  unfolding retire_vanished reconcile
  close dry_run partial found outcome s =
      let retired = retire_vanished c dry_run partial (is_in_listing found) outcome s in
      let reconciled = reconcile c dry_run retired.0 retired.1 in passed reconciled.0 reconciled.1

  -- A step that did not raise, or whose exception was noted, goes on.
  unfoldable pub noted : (String → String) → Bool → Found → Step O → SyncOutcome × SyncState O
  unfolding note_failure
  noted brief dry_run f step = elim step.ending [
    | finished ↦ (step.outcome, step.state)
    | sync_error e ↦ (step.outcome, step.state)
    | surprised e ↦ note_failure brief dry_run f e step.outcome step.state
  ]

  -- The loop over the files.
  unfoldable pub sync_files :
      (String → String) → Bool → Bool → List Found → List Found → SyncOutcome → SyncState O → Pass O
  unfolding sync_one close noted
  sync_files brief dry_run partial found [] outcome s = close dry_run partial found outcome s
  sync_files brief dry_run partial found (f ∷ items) outcome s =
      let step = sync_one c dry_run f.item f.tier f.folder_id outcome s in
      let next = noted brief dry_run f step in
      let rest = sync_files brief dry_run partial found items next.0 next.1 in
      elim step.ending [
        | finished ↦ rest
        | sync_error e ↦ misconfigured e step.state
        | surprised e ↦ rest
      ]

  unfoldable pub sync_found :
      (String → String) → Bool → Option ℕ → List Found → SyncState O → Pass O
  unfolding sync_files sort_by_name
  sync_found brief dry_run limit found s =
      sync_files brief dry_run (is_some limit) found (limited limit (sort_by_name found))
        (record nothing_done { files_found = length found }) s

  unfoldable pub sync_once : (String → String) → Bool → Option ℕ → SyncState O → Pass O
  unfolding sync_found resolve_folder_tiers list_watched_files
  sync_once brief dry_run limit s = elim (resolve_folder_tiers c) [
    | none ↦ no_folder_set
    | some tiers ↦ sync_found brief dry_run limit (list_watched_files c tiers) s
  ]
