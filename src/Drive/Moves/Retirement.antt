-- ===== src/Drive/Moves/Retirement.antt =====
-- What is left of a file whose row is retired.
use a_pag_ai_knowledge_base.Prelude.{
  ℕ, ◌≡◌, refl, inl, inr, String, Bool, true, false, ◌&&◌, ◌||◌, Bool-cases, if◌then◌else◌, map,
  subst, ◌⊎◌, ◌≢◌, eq_iff, Option-cases, Option, none, some, List, [], ◌∷◌, any, All, is_some,
  str_eq, arith,
}
use a_pag_ai_knowledge_base.Documents.{Document}
use a_pag_ai_knowledge_base.Repository.{Storage, find_by_id, soft_delete}
use a_pag_ai_knowledge_base.Repository.Lookup.{find_by_id-put, find_by_id-id}
use a_pag_ai_knowledge_base.Drive.{
  VersionState, FileRow, Version, SyncState, Connector, is_visible, log_change,
}
use a_pag_ai_knowledge_base.Drive.Moves.{
  or_last, live_versions, visible_documents, retire_document, retire_documents, retire_versions,
  retire_file,
}

abbrev is_gone : Option Document → Bool
is_gone none = true
is_gone (some doc) = is_some doc.deleted_at || is_some doc.purged_at

-- No document of this id is there to be found by a search.
abbrev pub IsHidden : Storage → ℕ → Type 0
IsHidden s i = is_gone (find_by_id i s) ≡ true

soft_delete-IsHidden : (now i : ℕ) (s : Storage) → IsHidden (soft_delete now i s).1 i
unfolding soft_delete
soft_delete-IsHidden now i s = elim (Option-cases (find_by_id i s)) [
  | inl e ↦ ground (arith, e)
  | inr (d, e) ↦
      ground
        (arith, e, find_by_id-id i s d e, find_by_id-put (record d { deleted_at = some now }) s i)
]

soft_delete_keeps : (now i j : ℕ) (s : Storage) → IsHidden s j → IsHidden (soft_delete now i s).1 j
unfolding soft_delete
soft_delete_keeps now i j s h = elim (Option-cases (find_by_id i s)) [
  | inl e ↦ ground (arith, e, h)
  | inr (d, e) ↦
      ground (
        arith,
        h,
        e,
        find_by_id-id i s d e,
        find_by_id-put (record d { deleted_at = some now }) s j,
      )
]

soft_delete_refused :
    (now i : ℕ) (s : Storage) → (soft_delete now i s).0 ≡ false → (soft_delete now i s).1 ≡ s
unfolding soft_delete
soft_delete_refused now i s h = elim (Option-cases (find_by_id i s)) [
  | inl e ↦ ground (arith, e, h)
  | inr (d, e) ↦ ground (arith, e, h)
]

module _ {O : Type 0} (c : Connector O) where
  retire_document-storage :
      (file : String) (i : ℕ) (s : SyncState O)
      → (retire_document c file i s).world.storage ≡ (soft_delete c.now i s.world.storage).1
  unfolding retire_document log_change
  retire_document-storage file i s = elim (Bool-cases (soft_delete c.now i s.world.storage).0) [
    | inl deleted ↦ ground (arith, deleted)
    | inr refused ↦ ground (arith, refused, soft_delete_refused c.now i s.world.storage refused)
  ]

  retire_documents_keeps :
      (file : String) (ids : List ℕ) (j : ℕ) (s : SyncState O)
      → IsHidden s.world.storage j
      → IsHidden (retire_documents c file ids s).world.storage j
  unfolding retire_documents
  retire_documents_keeps file [] j s h = h
  retire_documents_keeps file (i ∷ ids) j s h =
      retire_documents_keeps file ids j (retire_document c file i s)
        (rw (retire_document-storage file i s) (soft_delete_keeps c.now i j s.world.storage h))

  retire_documents-IsHidden :
      (file : String) (ids : List ℕ) (s : SyncState O)
      → All (IsHidden (retire_documents c file ids s).world.storage) ids
  unfolding retire_documents
  retire_documents-IsHidden file [] s = tt
  retire_documents-IsHidden file (i ∷ ids) s = (
    retire_documents_keeps file ids i (retire_document c file i s)
        (rw (retire_document-storage file i s) (soft_delete-IsHidden c.now i s.world.storage)),
    retire_documents-IsHidden file ids (retire_document c file i s),
  )

  -- CURRENT or PENDING.
  abbrev pub IsSeen : Version → Type 0
  IsSeen v = (v.state ≡ VersionState.current) ⊎ (v.state ≡ VersionState.pending)

  IsSeen-visible : (v : Version) → IsSeen v → is_visible v.state ≡ true
  IsSeen-visible v (inl e) = rw e refl
  IsSeen-visible v (inr e) = rw e refl

  abbrev pub Unseen : String → Version → Type 0
  Unseen file v =
      (v.drive_file_id ≢ file)
      ⊎ ((v.state ≢ VersionState.current) × (v.state ≢ VersionState.pending))

  after_retiring :
      (file : String) (v : Version)
      → Unseen file (
          if str_eq v.drive_file_id file && is_visible v.state
          then record v { state = VersionState.removed; settled_at = some c.now }
          else v)
  after_retiring file v = elim (Bool-cases (str_eq v.drive_file_id file)) [
    | inr other ↦ rw other (inl (λ same. absurd (cc (other, (eq_iff _ _).1 same))))
    | inl same ↦ elim (Bool-cases (is_visible v.state)) [
      | inl seen ↦ rw (same, seen) (inr (λ e. absurd (cc e), λ e. absurd (cc e)))
      | inr unseen ↦
          rw (same, unseen)
            (inr (
              λ e. absurd (cc (IsSeen-visible v (inl e), unseen)),
              λ e. absurd (cc (IsSeen-visible v (inr e), unseen)),
            ))
    ]
  ]

  retire_versions-Unseen :
      (file : String) (versions : List Version)
      → All (Unseen file) (retire_versions c file versions)
  retire_versions-Unseen file [] = tt
  retire_versions-Unseen file (v ∷ versions) =
      (after_retiring file v, retire_versions-Unseen file versions)

  or_last-All :
      (P : ℕ → Type 0) (ids : List ℕ) (last : Option ℕ) → All P (or_last ids last) → All P ids
  or_last-All P [] last h = tt
  or_last-All P (i ∷ ids) last h = h

  -- A version that is seen has its document among those that are retired.
  listed_or_not :
      (P : ℕ → Type 0) (file : String) (versions : List Version)
      → All P (map (λ (w : Version). w.document_id) (live_versions file versions))
      → All (λ v. Unseen file v ⊎ P v.document_id) versions
  listed_or_not P file [] h = tt
  listed_or_not P file (v ∷ versions) h = elim (Bool-cases (str_eq v.drive_file_id file)) [
    | inr other ↦ (
      inl (inl (λ same. absurd (cc (other, (eq_iff _ _).1 same)))),
      listed_or_not P file versions (rw other at h),
    )
    | inl same ↦ elim (Bool-cases (is_visible v.state)) [
      | inl seen ↦
          let listed : P v.document_id
              × All P (map (λ (w : Version). w.document_id) (live_versions file versions)) =
            simp (same, seen) at h in
          (inr listed.0, listed_or_not P file versions listed.1)
      | inr unseen ↦ (
        inl (
            inr (
              λ e. absurd (cc (IsSeen-visible v (inl e), unseen)),
              λ e. absurd (cc (IsSeen-visible v (inr e), unseen)),
            )),
        listed_or_not P file versions (simp (same, unseen) at h),
      )
    ]
  ]

  -- The last document that was imported, if there is one.
  abbrev pub AllLast : (ℕ → Type 0) → Option ℕ → Type 0
  AllLast P none = Unit
  AllLast P (some i) = P i

  abbrev pub is_shown : String → Version → Bool
  is_shown file v = str_eq v.drive_file_id file && is_visible v.state

  nothing_shown :
      (file : String) (versions : List Version)
      → any (is_shown file) versions ≡ false
      → map (λ (w : Version). w.document_id) (live_versions file versions) ≡ []
  nothing_shown file [] h = refl
  nothing_shown file (v ∷ versions) h = ground (arith, h, nothing_shown file versions)

  shown_or_last :
      (P : ℕ → Type 0) (row : FileRow) (versions : List Version)
      → All P (visible_documents row versions)
      → (any (is_shown row.drive_file_id) versions ≡ true) ⊎ AllLast P row.document_id
  shown_or_last P row versions h = elim (Bool-cases (any (is_shown row.drive_file_id) versions)) [
    | inl shown ↦ inl shown
    | inr none_shown ↦ inr (
        of_last row.document_id (
          subst (λ ids. All P (or_last ids row.document_id))
            (nothing_shown row.drive_file_id versions none_shown) h))
  ]
    where
      of_last : (last : Option ℕ) → All P (or_last [] last) → AllLast P last
      of_last none h = tt
      of_last (some i) h = h.0

  -- After a row is retired no version of its file is CURRENT or PENDING; the document of every
  -- version of the file that was is absent from the storage, deleted or purged; and where no
  -- version was, so is the document that the row names as the last one imported, if it names one.
  pub retire_file_hides :
      (row : FileRow) (s : SyncState O)
      → let after = retire_file c row s in
        All (Unseen row.drive_file_id) after.versions
        × All
            (λ v. Unseen row.drive_file_id v ⊎ IsHidden after.world.storage v.document_id)
            s.versions
        × ((any (is_shown row.drive_file_id) s.versions ≡ true)
            ⊎ AllLast (IsHidden after.world.storage) row.document_id)
  unfolding retire_file
  retire_file_hides row s =
      let gone = retire_documents c row.drive_file_id (visible_documents row s.versions) s in
      let hidden =
        retire_documents-IsHidden row.drive_file_id (visible_documents row s.versions) s in
      (
        retire_versions-Unseen row.drive_file_id gone.versions,
        listed_or_not (IsHidden gone.world.storage) row.drive_file_id s.versions
            (or_last-All (IsHidden gone.world.storage) _ row.document_id hidden),
        shown_or_last (IsHidden gone.world.storage) row s.versions hidden,
      )
