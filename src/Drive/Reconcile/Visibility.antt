-- ===== src/Drive/Reconcile/Visibility.antt =====
-- What people see of a file before and after a reconciliation.
use a_pag_ai_knowledge_base.Prelude.{
  ℕ, ◌≡◌, refl, ap, sym, subst, ◌∙◌, inl, inr, String, Bool, true, false, ◌&&◌, Bool-cases,
  Option-cases, Option, none, some, List, [], ◌∷◌, map, any, keep_if, All, str_eq, ◌==◌,
  if◌then◌else◌, arith,
}
use a_pag_ai_knowledge_base.Documents.{Document}
use a_pag_ai_knowledge_base.Repository.{Storage, get_by_id}
use a_pag_ai_knowledge_base.Drive.{
  Version, SyncOutcome, SyncState, Connector, is_pending, is_current, is_visible, versions_of,
  find_file, log_change,
}
use a_pag_ai_knowledge_base.Drive.Reconcile.{
  undecided, fate_of, is_live, newest_of, settle_version, note_fates, supersede_old,
  supersede_documents, replace_version, promote_newest, conclude, reconcile_file, shown_name,
  is_older,
}

-- The file has a version that is CURRENT.
abbrev pub has_current : String → List Version → Bool
has_current drive_file_id versions =
    any (λ (v : Version). str_eq v.drive_file_id drive_file_id && is_current v.state) versions

abbrev has_document : ℕ → List Version → Bool
has_document i l = any (λ (w : Version). w.document_id == i) l

newest_of_listed :
    (l : List Version) (v : Version) → newest_of l ≡ some v → has_document v.document_id l ≡ true
unfolding newest_of
newest_of_listed [] v h = absurd (cc h)
newest_of_listed (w ∷ []) v h = ground (arith, h)
newest_of_listed (w ∷ x ∷ l) v h = rw (newest_of_listed (x ∷ l) v h) (ground arith)

any-keep_if :
    (p test : Version → Bool) (l : List Version)
    → any p (keep_if test l) ≡ any (λ w. test w && p w) l
any-keep_if p test [] = refl
any-keep_if p test (w ∷ l) = ground (arith, any-keep_if p test l)

live_undecided : (d : Document) → is_live (some d) ≡ true → fate_of (some d) ≡ undecided
live_undecided d h = ground (arith, h)

module _ {O : Type 0} (c : Connector O) where
  settle_version-current :
      (file : String) (storage : Storage) (v : Version)
      → (str_eq (settle_version c file storage v).drive_file_id file
          && is_current (settle_version c file storage v).state)
        ≡ (str_eq v.drive_file_id file && is_current v.state)
  unfolding settle_version
  settle_version-current file storage v = ground arith

  has_current-settle :
      (file : String) (storage : Storage) (versions : List Version)
      → has_current file (map (settle_version c file storage) versions) ≡ has_current file versions
  unfolding settle_version
  has_current-settle file storage [] = refl
  has_current-settle file storage (v ∷ versions) =
      rw (settle_version-current file storage v, has_current-settle file storage versions) refl

  supersede_old-versions :
      (old : Option Document) (new_id : ℕ) (file : String) (s : SyncState O)
      → (supersede_old c old new_id file s).versions ≡ s.versions
  unfolding supersede_old log_change
  supersede_old-versions none new_id file s = refl
  supersede_old-versions (some old) new_id file s = ground arith

  supersede_documents-versions :
      (file : String) (new_id : ℕ) (versions : List Version) (s : SyncState O)
      → (supersede_documents c file new_id versions s).versions ≡ s.versions
  unfolding supersede_documents
  supersede_documents-versions file new_id [] s = refl
  supersede_documents-versions file new_id (v ∷ versions) s =
      let replaced = supersede_old c (get_by_id v.document_id s.world.storage) new_id file s in
      supersede_documents-versions file new_id versions
        (if is_older c new_id v then replaced else s)
      ∙ replaced_or_kept (is_older c new_id v) replaced
          (supersede_old-versions (get_by_id v.document_id s.world.storage) new_id file s)
    where
      replaced_or_kept :
          (b : Bool) (s' : SyncState O)
          → s'.versions ≡ s.versions
          → (if b then s' else s).versions ≡ s.versions
      replaced_or_kept true s' h = h
      replaced_or_kept false s' h = refl

  has_current-replace :
      (file : String) (i : ℕ) (versions : List Version)
      → has_document i (versions_of file versions) ≡ true
      → has_current file (map (replace_version c file i) versions) ≡ true
  has_current-replace file i [] h = absurd (cc h)
  has_current-replace file i (v ∷ versions) h =
      ground (arith, has_current-replace file i versions, h)

  -- Every version of the file that can be seen is that of the document.
  abbrev pub IsOnly : String → ℕ → List Version → Type 0
  IsOnly file i =
      All (λ v. (str_eq v.drive_file_id file && is_visible v.state) ≡ true → v.document_id ≡ i)

  replace-IsOnly :
      (file : String) (i : ℕ) (versions : List Version)
      → IsOnly file i (map (replace_version c file i) versions)
  replace-IsOnly file i [] = tt
  replace-IsOnly file i (v ∷ versions) = (one, replace-IsOnly file i versions)
    where
      one :
          (str_eq (replace_version c file i v).drive_file_id file
              && is_visible (replace_version c file i v).state)
            ≡ true
          → (replace_version c file i v).document_id ≡ i
      one h = ground (arith, h)

  -- The state behind the first loop.
  abbrev settled : String → SyncState O → SyncState O
  settled file s = record s { versions = map (settle_version c file s.world.storage) s.versions }

  abbrev newest : String → SyncState O → Option Version
  newest file s = newest_of (versions_of file (settled file s).versions)

  promote_newest-versions :
      (file name : String) (v : Version) (outcome : SyncOutcome) (s : SyncState O)
      → (promote_newest c false file name v (versions_of file s.versions) outcome s).1.versions
        ≡ map (replace_version c file v.document_id) s.versions
  unfolding promote_newest
  promote_newest-versions file name v outcome s =
      ap (λ (l : List Version). map (replace_version c file v.document_id) l)
        (supersede_documents-versions file v.document_id (versions_of file s.versions) s)

  promote_newest-current :
      (file name : String) (v : Version) (outcome : SyncOutcome) (s : SyncState O)
      → newest_of (versions_of file s.versions) ≡ some v
      → has_current file
          (promote_newest c false file name v (versions_of file s.versions) outcome s).1.versions
        ≡ true
  promote_newest-current file name v outcome s h =
      ap (λ (l : List Version). has_current file l) (promote_newest-versions file name v outcome s)
      ∙ has_current-replace file v.document_id s.versions
          (newest_of_listed (versions_of file s.versions) v h)

  conclude-current :
      (file name : String) (o : Option Version) (outcome : SyncOutcome) (s : SyncState O)
      → newest_of (versions_of file s.versions) ≡ o
      → has_current file s.versions ≡ true
      → has_current file (conclude c false file name o outcome s).1.versions ≡ true
  unfolding conclude
  conclude-current file name none outcome s h shown = shown
  conclude-current file name (some v) outcome s h shown = elim (Bool-cases (is_pending v.state)) [
    | inr settled ↦ simp settled shown
    | inl pending ↦ elim (Bool-cases (is_live (get_by_id v.document_id s.world.storage))) [
      | inr unready ↦ simp (pending, unready) shown
      | inl live ↦ simp (pending, live) (promote_newest-current file name v outcome s h)
    ]
  ]

  -- A file with a CURRENT version still has one after a reconciliation of it that is not dry,
  -- whatever became of its pending versions.
  pub reconcile_file_keeps_current :
      (file : String) (outcome : SyncOutcome) (s : SyncState O)
      → has_current file s.versions ≡ true
      → has_current file (reconcile_file c false file outcome s).1.versions ≡ true
  unfolding reconcile_file
  reconcile_file_keeps_current file outcome s shown =
      conclude-current file (shown_name c file (find_file file s.files)) (newest file s)
        (note_fates c (shown_name c file (find_file file s.files)) (versions_of file s.versions) s
          outcome)
        (settled file s) refl (has_current-settle file s.world.storage s.versions ∙ shown)

  -- When the newest version of a file, behind the settling of the pending ones, is pending and its
  -- document is live, a reconciliation that is not dry leaves the file a CURRENT version, and every
  -- version of the file that is CURRENT or PENDING has the document of the newest one.
  pub reconcile_file_replaces :
      (file : String) (outcome : SyncOutcome) (s : SyncState O) (v : Version)
      → newest file s ≡ some v
      → is_pending v.state ≡ true
      → is_live (get_by_id v.document_id s.world.storage) ≡ true
      → (has_current file (reconcile_file c false file outcome s).1.versions ≡ true)
        × IsOnly file v.document_id (reconcile_file c false file outcome s).1.versions
  unfolding reconcile_file conclude
  reconcile_file_replaces file outcome s v h pending live =
      let name = shown_name c file (find_file file s.files) in
      let noted = note_fates c name (versions_of file s.versions) s outcome in
      let same : (reconcile_file c false file outcome s).1.versions
          ≡ (promote_newest c false file name v (versions_of file (settled file s).versions) noted
              (settled file s)).1.versions =
        simp (h, pending, live) refl in
      (
        ap (λ (l : List Version). has_current file l) same
            ∙ promote_newest-current file name v noted (settled file s) h,
        subst (λ (l : List Version). IsOnly file v.document_id l)
            (sym (same ∙ promote_newest-versions file name v noted (settled file s)))
            (replace-IsOnly file v.document_id (settled file s).versions),
      )

  -- The versions of the file that are pending although their documents are live.
  abbrev pub is_waiting : String → Storage → Version → Bool
  is_waiting file storage w =
      str_eq w.drive_file_id file
      && (is_pending w.state && is_live (get_by_id w.document_id storage))

  is_waiting-settle :
      (file : String) (storage : Storage) (w : Version)
      → is_waiting file storage (settle_version c file storage w) ≡ is_waiting file storage w
  unfolding settle_version
  is_waiting-settle file storage w = ground arith

  settle_version_waiting :
      (file : String) (storage : Storage) (w : Version)
      → is_waiting file storage w ≡ true
      → settle_version c file storage w ≡ w
  unfolding settle_version
  settle_version_waiting file storage w h = elim (Option-cases (get_by_id w.document_id storage)) [
    | inl e ↦ ground (arith, h, e)
    | inr (d, e) ↦ ground (arith, h, e, live_undecided d)
  ]

  waiting-settle :
      (file : String) (storage : Storage) (l : List Version)
      → keep_if (is_waiting file storage) (map (settle_version c file storage) l)
        ≡ keep_if (is_waiting file storage) l
  waiting-settle file storage [] = refl
  waiting-settle file storage (w ∷ l) = elim (Bool-cases (is_waiting file storage w)) [
    | inl waits ↦
        rw (is_waiting-settle file storage w, waits, settle_version_waiting file storage w waits)
          (ap (λ (r : List Version). w ∷ r) (waiting-settle file storage l))
    | inr other ↦ rw (is_waiting-settle file storage w, other) (waiting-settle file storage l)
  ]

  settled_only :
      (file : String) (outcome : SyncOutcome) (s : SyncState O) (v : Version)
      → newest file s ≡ some v
      → is_pending v.state ≡ false
      → (reconcile_file c false file outcome s).1 ≡ settled file s
  unfolding reconcile_file conclude
  settled_only file outcome s v h done = simp (h, done) refl

  -- When the newest version of a file, behind the settling of the pending ones, is not pending, a
  -- reconciliation that is not dry changes no document, leaves every pending version of the file
  -- whose document is live as it was, and neither gives the file a CURRENT version nor takes one
  -- away.
  pub reconcile_file_stuck :
      (file : String) (outcome : SyncOutcome) (s : SyncState O) (v : Version)
      → newest file s ≡ some v
      → is_pending v.state ≡ false
      → let after = (reconcile_file c false file outcome s).1 in
        (after.world.storage ≡ s.world.storage)
        × (keep_if (is_waiting file s.world.storage) after.versions
            ≡ keep_if (is_waiting file s.world.storage) s.versions)
        × (has_current file after.versions ≡ has_current file s.versions)
  reconcile_file_stuck file outcome s v h done =
      let same : (reconcile_file c false file outcome s).1 ≡ settled file s =
        settled_only file outcome s v h done in
      (
        ap (λ (x : SyncState O). x.world.storage) same,
        ap (λ (x : SyncState O). keep_if (is_waiting file s.world.storage) x.versions) same
            ∙ waiting-settle file s.world.storage s.versions,
        ap (λ (x : SyncState O). has_current file x.versions) same
            ∙ has_current-settle file s.world.storage s.versions,
      )
