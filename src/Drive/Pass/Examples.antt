-- ===== src/Drive/Pass/Examples.antt =====
-- A connector over two folders, and a database with one file in two versions.
use a_pag_ai_knowledge_base.Prelude.{
  ◌⊎◌, any, ℕ, ◌≡◌, refl, String, true, false, Option, none, some, List, [], ◌∷◌, any, keep_if, All,
  str_eq, if◌then◌else◌,
}
use a_pag_ai_knowledge_base.Access.{public, restricted, tier_rank}
use a_pag_ai_knowledge_base.Documents.{DocumentStatus}
use a_pag_ai_knowledge_base.Repository.Examples.{document}
use a_pag_ai_knowledge_base.Stages.{raised}
use a_pag_ai_knowledge_base.Upload.Examples.{Last, service}
use a_pag_ai_knowledge_base.Drive.{
  DriveFile, VersionState, FileRow, Version, SyncState, Connector, find_file, row_or_new,
}
use a_pag_ai_knowledge_base.Drive.Export.{folder_mime, unexportable_reason}
use a_pag_ai_knowledge_base.Drive.Folders.{
  Tiers, resolve_folder_tiers, walk_folder_tree, list_watched_files,
}
use a_pag_ai_knowledge_base.Drive.Folders.Strictness.{IsFoundAt, restricted_tree_stays_restricted}
use a_pag_ai_knowledge_base.Drive.Moves.{retire_file, retire_vanished}
use a_pag_ai_knowledge_base.Drive.Moves.Retirement.{Unseen, IsHidden, is_shown, retire_file_hides}
use a_pag_ai_knowledge_base.Drive.Reconcile.{reconcile_file, newest_of, settle_version}
use a_pag_ai_knowledge_base.Drive.Reconcile.Visibility.{
  has_current, IsOnly, is_waiting, reconcile_file_replaces, reconcile_file_stuck,
}
use a_pag_ai_knowledge_base.Drive.Import.{sync_one}
use a_pag_ai_knowledge_base.Drive.Pass.{sync_once, nothing_done}
use a_pag_ai_knowledge_base.Drive.Pass.DryRun.{state_after, sync_once_dry}
use a_pag_ai_knowledge_base.Drive.Pass.Forgotten.{skipped_file_is_forgotten}

abbrev item : String → String → Option ℕ → DriveFile
item file_id mime_type size = record {
  file_id = file_id;
  name = "plan.pdf";
  mime_type = mime_type;
  modified_time = "t2";
  size = size;
  owner_email = none;
  md5 = none;
}

abbrev report : DriveFile
report = item "f1" "application/pdf" (some 9)

abbrev subfolder : DriveFile
subfolder = item "S" folder_mime none

abbrev children : String → List DriveFile
children folder_id = if str_eq folder_id "S" then report ∷ [] else subfolder ∷ []

abbrev connector : Connector Last
connector = record {
  public_root = "P";
  restricted_root = "R";
  fallback_owner_email = "";
  max_bytes = 8;
  list_subfolders = λ folder_id. if str_eq folder_id "S" then [] else subfolder ∷ [];
  list_children = children;
  download = λ _. raised "offline";
  export = λ _ _. raised "offline";
  find_user = λ _. none;
  strip_lower = λ s. s;
  lower_ends_with = λ _ _. false;
  detect_format = λ _. none;
  too_large = λ _ _. "too large";
  service = service;
  audit_fails = λ _. false;
  now = 6;
}

abbrev version : ℕ → VersionState → Version
version document_id state = record {
  drive_file_id = "f1";
  document_id = document_id;
  drive_modified_time = "t1";
  drive_md5 = none;
  state = state;
  settled_at = none;
}

abbrev row : FileRow
row = record (row_or_new "f1" none) { document_id = some 2; drive_modified_time = "t1" }

abbrev database : VersionState → DocumentStatus → SyncState Last
database state status = record {
  world = record {
    storage = document 1 DocumentStatus.live public ∷ document 2 status public ∷ [];
    objects = none;
    audit_log = [];
    new_jobs = [];
  };
  files = row ∷ [];
  versions = version 1 state ∷ version 2 VersionState.pending ∷ [];
  next_id = 3;
}

-- Both versions are pending, and the second one fails.
abbrev failing : SyncState Last
failing = database VersionState.pending DocumentStatus.rejected

-- The first version is the one that people see, and the second is ready.
abbrev ready : SyncState Last
ready = database VersionState.current DocumentStatus.live

abbrev tiers : Tiers
tiers = ("P", public) ∷ ("S", restricted) ∷ ("R", restricted) ∷ []

restricted_tree_stays_restricted_example :
    IsFoundAt "f1" (tier_rank (some restricted)) (list_watched_files connector tiers)
unfolding resolve_folder_tiers walk_folder_tree
restricted_tree_stays_restricted_example =
    restricted_tree_stays_restricted connector report "S" ("R" ∷ []) [] [] [] tiers refl refl refl
      refl refl

sync_once_dry_example : state_after ready (sync_once connector (λ e. e) true none ready) ≡ ready
sync_once_dry_example = sync_once_dry connector (λ e. e) none ready

skipped_file_is_forgotten_example :
    let after =
      retire_vanished connector false false
        (λ _. false)
        nothing_done
        (sync_one connector false report public "P" nothing_done ready).state in
    (after.0 ≡ nothing_done) × (after.1.world ≡ ready.world) × (after.1.versions ≡ ready.versions)
unfolding find_file unexportable_reason
skipped_file_is_forgotten_example =
    skipped_file_is_forgotten connector report public "P" row (λ _. false) nothing_done nothing_done
      ready refl refl refl refl refl refl refl

retire_file_hides_example :
    let after = retire_file connector row ready in
    All (Unseen connector "f1") after.versions
    × All (λ v. Unseen connector "f1" v ⊎ IsHidden after.world.storage v.document_id) ready.versions
    × ((any (is_shown connector "f1") ready.versions ≡ true) ⊎ IsHidden after.world.storage 2)
retire_file_hides_example = retire_file_hides connector row ready

reconcile_file_replaces_example :
    (has_current "f1" (reconcile_file connector false "f1" nothing_done ready).1.versions ≡ true)
    × IsOnly connector "f1" 2 (reconcile_file connector false "f1" nothing_done ready).1.versions
unfolding newest_of settle_version
reconcile_file_replaces_example =
    reconcile_file_replaces connector "f1" nothing_done ready (version 2 VersionState.pending) refl
      refl refl

reconcile_file_stuck_example :
    let after = (reconcile_file connector false "f1" nothing_done failing).1 in
    (after.world.storage ≡ failing.world.storage)
    × (keep_if (is_waiting connector "f1" failing.world.storage) after.versions
        ≡ version 1 VersionState.pending ∷ [])
    × (has_current "f1" after.versions ≡ false)
unfolding newest_of settle_version
reconcile_file_stuck_example =
    reconcile_file_stuck connector "f1" nothing_done failing
      (record (version 2 VersionState.failed) { settled_at = some 6 }) refl refl
