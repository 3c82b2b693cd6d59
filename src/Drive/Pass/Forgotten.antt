-- ===== src/Drive/Pass/Forgotten.antt =====
-- A file whose latest edit was skipped, and the pass that finds it gone.
use a_pag_ai_knowledge_base.Prelude.{
  ◌≡◌, refl, ap, sym, subst, ◌∙◌, inl, inr, String, Bool, true, false, not, ◌&&◌, Bool-cases,
  some_eq, Option-cases, Option, none, some, List, [], ◌∷◌, any, keep_if, str_eq, if◌then◌else◌,
  arith, eq_iff,
}
use a_pag_ai_knowledge_base.Drive.{
  DriveFile, DriveFileState, FileRow, SyncOutcome, SyncState, Connector, is_imported, find_file,
  put_file, record_file, content_changed, row_or_new,
}
use a_pag_ai_knowledge_base.Drive.Export.{unexportable_reason}
use a_pag_ai_knowledge_base.Drive.Moves.{retire_rows, retire_vanished}
use a_pag_ai_knowledge_base.Drive.Import.{
  Step, skip_file, import_file, sync_known, sync_one, is_known, is_too_large, size_reason,
}

-- The file has at most one row: `drive_file_id` is the primary key.
abbrev pub has_one_row : String → List FileRow → Bool
has_one_row file_id [] = true
has_one_row file_id (r ∷ rows) =
    let rest = has_one_row file_id rows in
    if str_eq r.drive_file_id file_id
    then not (any (λ (x : FileRow). str_eq x.drive_file_id file_id) rows)
    else rest

abbrev is_vanished : (String → Bool) → FileRow → Bool
is_vanished found r = is_imported r.state && not (found r.drive_file_id)

-- Another file than this one is gone.
abbrev pub other_vanished : String → (String → Bool) → List FileRow → Bool
other_vanished file_id found rows =
    any (λ (r : FileRow). not (str_eq r.drive_file_id file_id) && is_vanished found r) rows

any-keep_if :
    (p test : FileRow → Bool) (l : List FileRow)
    → any p (keep_if test l) ≡ any (λ r. test r && p r) l
any-keep_if p test [] = refl
any-keep_if p test (r ∷ l) = ground (arith, any-keep_if p test l)

no_other_row :
    (file_id : String) (found : String → Bool) (rows : List FileRow)
    → any (λ (x : FileRow). str_eq x.drive_file_id file_id) rows ≡ false
    → other_vanished file_id found rows ≡ false
    → any (is_vanished found) rows ≡ false
no_other_row file_id found [] none_here h = refl
no_other_row file_id found (r ∷ rows) none_here h =
    ground (arith, no_other_row file_id found rows, none_here, h)

put_file-vanished :
    (row : FileRow) (found : String → Bool) (rows : List FileRow)
    → is_imported row.state ≡ false
    → has_one_row row.drive_file_id rows ≡ true
    → other_vanished row.drive_file_id found rows ≡ false
    → any (is_vanished found) (put_file row rows) ≡ false
unfolding put_file
put_file-vanished row found [] skipped one h = ground (arith, skipped)
put_file-vanished row found (r ∷ rows) skipped one h = ground (
  arith,
  skipped,
  one,
  h,
  no_other_row row.drive_file_id found rows,
  put_file-vanished row found rows skipped,
)

find_file-id :
    (file_id : String) (rows : List FileRow) (r : FileRow)
    → find_file file_id rows ≡ some r
    → r.drive_file_id ≡ file_id
unfolding find_file
find_file-id file_id [] r h = absurd (cc h)
find_file-id file_id (x ∷ rows) r h = elim (Bool-cases (str_eq x.drive_file_id file_id)) [
  | inl same ↦
      let here : some x ≡ some r = simp same at h in
      ap (λ (y : FileRow). y.drive_file_id) (sym (some_eq here)) ∙ (eq_iff _ _).0 same
  | inr other ↦ find_file-id file_id rows r (ground (arith, h, other))
]

row_or_new-id :
    (file_id : String) (rows : List FileRow)
    → (row_or_new file_id (find_file file_id rows)).drive_file_id ≡ file_id
row_or_new-id file_id rows = elim (Option-cases (find_file file_id rows)) [
  | inl none_found ↦ rw none_found refl
  | inr (r, found) ↦ rw found (find_file-id file_id rows r found)
]

module _ {O : Type 0} (c : Connector O) where
  retire_rows_none :
      (found : String → Bool) (rows : List FileRow) (outcome : SyncOutcome) (s : SyncState O)
      → any (λ (r : FileRow). not (found r.drive_file_id)) rows ≡ false
      → retire_rows c false found rows outcome s ≡ (outcome, s)
  unfolding retire_rows
  retire_rows_none found [] outcome s h = refl
  retire_rows_none found (r ∷ rows) outcome s h = elim (Bool-cases (found r.drive_file_id)) [
    | inl here ↦
        rw (here, retire_rows) (retire_rows_none found rows outcome s (ground (arith, here, h)))
    | inr gone ↦ absurd (ground (arith, gone, h))
  ]

  retire_vanished_none :
      (found : String → Bool) (outcome : SyncOutcome) (s : SyncState O)
      → any (is_vanished found) s.files ≡ false
      → retire_vanished c false false found outcome s ≡ (outcome, s)
  unfolding retire_vanished
  retire_vanished_none found outcome s h =
      retire_rows_none found (keep_if (λ r. is_imported r.state) s.files) outcome s
        (any-keep_if (λ r. not (found r.drive_file_id)) (λ r. is_imported r.state) s.files ∙ h)

  -- The edited file is too large.
  import_file_skips :
      (is_new_version : Bool) (existing : Option FileRow) (item : DriveFile)
      (tier folder_id : String) (outcome : SyncOutcome) (s : SyncState O)
      → unexportable_reason item.mime_type ≡ none
      → is_too_large c item.size ≡ true
      → import_file c false is_new_version existing item tier folder_id outcome s
        ≡ skip_file c false item tier folder_id (size_reason c item.size) outcome s
  unfolding import_file skip_file
  import_file_skips is_new_version existing item tier folder_id outcome s exportable large =
      rw (exportable, import_file) (rw large refl)

  sync_known_skips :
      (item : DriveFile) (tier folder_id : String) (existing : FileRow) (outcome : SyncOutcome)
      (s : SyncState O)
      → is_known (some existing) ≡ true
      → content_changed existing item ≡ true
      → unexportable_reason item.mime_type ≡ none
      → is_too_large c item.size ≡ true
      → sync_known c false (some existing) item tier folder_id outcome s
        ≡ skip_file c false item tier folder_id (size_reason c item.size) outcome s
  unfolding sync_known
  sync_known_skips item tier folder_id existing outcome s known edited exportable large =
      rw (known, edited)
        (import_file_skips (is_imported existing.state) (some existing) item tier folder_id outcome
          s exportable large)

  skipped_state :
      (item : DriveFile) (tier folder_id : String) (existing : FileRow) (outcome : SyncOutcome)
      (s : SyncState O)
      → find_file item.file_id s.files ≡ some existing
      → is_known (some existing) ≡ true
      → content_changed existing item ≡ true
      → unexportable_reason item.mime_type ≡ none
      → is_too_large c item.size ≡ true
      → (sync_one c false item tier folder_id outcome s).state
        ≡ record_file c item DriveFileState.skipped tier folder_id none
            (some (size_reason c item.size))
            s
  unfolding sync_one skip_file
  skipped_state item tier folder_id existing outcome s row known edited exportable large =
      ap (λ (step : Step O). step.state)
        (ap (λ (o : Option FileRow). sync_known c false o item tier folder_id outcome s) row
          ∙ sync_known_skips item tier folder_id existing outcome s known edited exportable large)

  -- When an imported or removed file whose content changed, of a type that is no unexportable one,
  -- is too large, the work on it followed by a removal of vanished files leaves the documents and
  -- the versions as they were and notes no removal, whether the file is listed or gone, provided
  -- that the file has one row and no other imported file is gone.
  pub skipped_file_is_forgotten :
      (item : DriveFile) (tier folder_id : String) (existing : FileRow) (found : String → Bool)
      (outcome later : SyncOutcome) (s : SyncState O)
      → find_file item.file_id s.files ≡ some existing
      → is_known (some existing) ≡ true
      → content_changed existing item ≡ true
      → unexportable_reason item.mime_type ≡ none
      → is_too_large c item.size ≡ true
      → has_one_row item.file_id s.files ≡ true
      → other_vanished item.file_id found s.files ≡ false
      → let after =
          retire_vanished c false false found later
            (sync_one c false item tier folder_id outcome s).state in
        (after.0 ≡ later) × (after.1.world ≡ s.world) × (after.1.versions ≡ s.versions)
  unfolding record_file
  skipped_file_is_forgotten item tier folder_id existing found outcome later s row known edited
        exportable large one others =
      let key = row_or_new-id item.file_id s.files in
      let skipped =
        record_file c item DriveFileState.skipped tier folder_id none
          (some (size_reason c item.size)) s in
      let same =
        ap (λ (x : SyncState O). retire_vanished c false false found later x)
          (skipped_state item tier folder_id existing outcome s row known edited exportable large)
        ∙ retire_vanished_none found later skipped (
            put_file-vanished _ found s.files refl
              (subst (λ i. has_one_row i s.files ≡ true) (sym key) one)
              (subst (λ i. other_vanished i found s.files ≡ false) (sym key) others)) in
      (
        ap (λ (r : SyncOutcome × SyncState O). r.0) same,
        ap (λ (r : SyncOutcome × SyncState O). r.1.world) same,
        ap (λ (r : SyncOutcome × SyncState O). r.1.versions) same,
      )
