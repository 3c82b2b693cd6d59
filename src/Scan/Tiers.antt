-- ===== src/Scan/Tiers.antt =====
-- What a scan does to the tiers of the stored documents.
use a_pag_ai_knowledge_base.Prelude.{
  ℕ, ◌≤◌, ◌≡◌, refl, ◌∙◌, String, Bool, Bool-cases, Option-cases, inl, inr, true, false, Option,
  none, some, List, arith, ◌==◌, if◌then◌else◌, length,
}
use a_pag_ai_knowledge_base.Access.{tier_rank, is_stricter}
use a_pag_ai_knowledge_base.Documents.{Document, DocumentStatus, JobStage, AuditEventType}
use a_pag_ai_knowledge_base.Repository.{
  Storage, find_by_id, get_by_id, get_by_checksum, update_document, set_classification, put,
}
use a_pag_ai_knowledge_base.Repository.Lookup.{find_by_id-put}
use a_pag_ai_knowledge_base.Scan.{
  Details, ValidationResult, World, UploadRequest, Services, audit, save, escalate_tier_if_stricter,
  is_processed, is_finalized,
}
use a_pag_ai_knowledge_base.Scan.Process.{
  process, reject, drop_duplicate, supersede_prior, supersede, canonical_of, lose_race, announce,
  finish_promotion, conflicts, promote, move_to_raw, deduplicate, judge, examine,
  supersede_and_promote, process_found,
}

-- Every document of `s` is in `t` under its id, with a tier that is at least as strict.
abbrev pub Keeps : Storage → Storage → Type 0
Keeps s t =
    (i : ℕ) (d : Document)
    → find_by_id i s ≡ some d
    → (k : Document) × (find_by_id i t ≡ some k)
      × (tier_rank d.classification ≤ tier_rank k.classification)

pub Keeps-refl : (s : Storage) → Keeps s s
Keeps-refl s i d h = (d, h, omega arith)

pub Keeps-trans : (s t u : Storage) → Keeps s t → Keeps t u → Keeps s u
Keeps-trans s t u h k i d found =
    let (d', found', le) = h i d found in
    let (d'', found'', le') = k i d' found' in (d'', found'', omega (arith, le, le'))

-- A document is put where none is stored, or over one whose tier is not stricter.
put-Keeps :
    (d : Document) (s : Storage)
    → ((k : Document)
        → find_by_id d.id s ≡ some k
        → tier_rank k.classification ≤ tier_rank d.classification)
    → Keeps s (put d s)
put-Keeps d s over i k found = elim (Bool-cases (d.id == i)) [
  | inl e ↦ (d, rw (find_by_id-put, e), over k (ground (arith, e, found)))
  | inr e ↦ (k, rw (find_by_id-put, e) found, omega arith)
]

pub update_document-Keeps :
    (now : ℕ) (d : Document) (s : Storage) → Keeps s (update_document now d s).1
unfolding update_document
update_document-Keeps now d s = elim (Option-cases (find_by_id d.id s)) [
  | inl e ↦ rw e (put-Keeps (record d { updated_at = now }) s (λ k h. absurd (cc (e, h))))
  | inr (stored, e) ↦ rw e (
      put-Keeps (record d { updated_at = now; classification = stored.classification }) s
        (λ k h. ground (arith, e, h)))
]

strictest :
    (new_tier : String) (old other : Option String)
    → is_stricter (some new_tier) old ≡ true
    → tier_rank other ≤ tier_rank (some new_tier)
unfolding is_stricter tier_rank
strictest new_tier old other h = ground arith

set_classification-Keeps :
    (now i : ℕ) (new_tier : String) (old : Option String) (s : Storage)
    → is_stricter (some new_tier) old ≡ true
    → Keeps s (set_classification now i new_tier s).1
unfolding set_classification
set_classification-Keeps now i new_tier old s h = elim (Option-cases (find_by_id i s)) [
  | inl e ↦ rw e (Keeps-refl s)
  | inr (stored, e) ↦ rw e (
      put-Keeps (record stored { classification = some new_tier; updated_at = now }) s
        (λ k found. strictest new_tier old k.classification h))
]

module _ {O : Type 0} (e : Services O) where
  pub audit-storage :
      (i : ℕ) (event : AuditEventType) (d : Details) (allow_repeat : Bool) (w : World O)
      → (audit e i event d allow_repeat w).storage ≡ w.storage
  unfolding audit
  audit-storage i event d allow_repeat w = ground arith

  escalate-Keeps :
      (canonical : Document) (incoming : Option String) (i : ℕ) (sha256 : String) (w : World O)
      → Keeps w.storage (escalate_tier_if_stricter e canonical incoming i sha256 w).1.storage
  unfolding escalate_tier_if_stricter
  escalate-Keeps canonical none i sha256 w = Keeps-refl w.storage
  escalate-Keeps canonical (some c) i sha256 w =
      elim (Bool-cases (is_stricter (some c) canonical.classification)) [
        | inl h ↦
            rw (h, audit-storage)
              (set_classification-Keeps e.now canonical.id c canonical.classification w.storage h)
        | inr h ↦ rw h (Keeps-refl w.storage)
      ]

  reject-Keeps :
      (doc : Document) (key : String) (size : ℕ) (v : ValidationResult) (w : World O)
      → Keeps w.storage (reject e doc key size v w).1.storage
  reject-Keeps doc key size v w = rw audit-storage (update_document-Keeps e.now _ w.storage)

  drop_duplicate-Keeps :
      (doc : Document) (key sha256 : String) (existing : Document) (w : World O)
      → Keeps w.storage (drop_duplicate e doc key sha256 existing w).1.storage
  drop_duplicate-Keeps doc key sha256 existing w =
      let raised = (escalate_tier_if_stricter e existing doc.classification doc.id sha256 w).1 in
      rw audit-storage (
        Keeps-trans w.storage raised.storage _
          (escalate-Keeps existing doc.classification doc.id sha256 w)
          (update_document-Keeps e.now _ raised.storage))

  supersede_prior-Keeps :
      (keep : Bool) (doc : Document) (prior : Option Document) (w : World O)
      → Keeps w.storage (supersede_prior e keep doc prior w).1.storage
  supersede_prior-Keeps keep doc none w = Keeps-refl w.storage
  supersede_prior-Keeps keep doc (some prior) w =
      rw audit-storage (update_document-Keeps e.now _ w.storage)

  supersede-Keeps :
      (meta : Option UploadRequest) (doc : Document) (w : World O)
      → Keeps w.storage (supersede e meta doc w).1.storage
  supersede-Keeps none doc w = Keeps-refl w.storage
  supersede-Keeps (some meta) doc w = elim (Option-cases meta.supersedes_doc_id) [
    | inl h ↦ rw h (Keeps-refl w.storage)
    | inr (prior, h) ↦
        rw h (supersede_prior-Keeps meta.keep_previous_version doc (get_by_id prior w.storage) w)
  ]

  canonical_of-Keeps :
      (doc : Document) (sha256 : String) (canonical : Option Document) (w : World O)
      → Keeps w.storage (canonical_of e doc sha256 canonical w).1.storage
  canonical_of-Keeps doc sha256 none w = Keeps-refl w.storage
  canonical_of-Keeps doc sha256 (some canonical) w = elim (Bool-cases (canonical.id == doc.id)) [
    | inl h ↦ rw h (Keeps-refl w.storage)
    | inr h ↦ rw h (escalate-Keeps canonical doc.classification doc.id sha256 w)
  ]

  lose_race-Keeps :
      (doc : Document) (sha256 : String) (w : World O)
      → Keeps w.storage (lose_race e doc sha256 w).1.storage
  lose_race-Keeps doc sha256 w =
      let lost = save e (record doc { status = DocumentStatus.duplicate; raw_path = none }) w in
      rw audit-storage (
        Keeps-trans w.storage lost.storage _ (update_document-Keeps e.now _ w.storage)
          (canonical_of-Keeps doc sha256 (get_by_checksum sha256 lost.storage) lost))

  enqueued-storage :
      (b : Bool) (jobs : List (ℕ × JobStage)) (w : World O)
      → (if b then record w { new_jobs = jobs } else w).storage ≡ w.storage
  enqueued-storage true jobs w = refl
  enqueued-storage false jobs w = refl

  pub announce-storage :
      (doc : Document) (v : ValidationResult) (w : World O)
      → (announce e doc v w).storage ≡ w.storage
  announce-storage doc v w =
      enqueued-storage e.has_db _ _ ∙ audit-storage _ _ _ _ _ ∙ audit-storage _ _ _ _ w

  finish_promotion-Keeps :
      (doc : Document) (v : ValidationResult) (w : World O)
      → Keeps w.storage (finish_promotion e doc v w).1.storage
  finish_promotion-Keeps doc v w = elim (Bool-cases (conflicts e doc v.sha256 w.storage)) [
    | inl h ↦ rw h (lose_race-Keeps doc v.sha256 w)
    | inr h ↦ rw (h, announce-storage) (update_document-Keeps e.now doc w.storage)
  ]

  module _ (meanwhile-Keeps : (s : Storage) → Keeps s (e.meanwhile s)) where
    promote-Keeps :
        (doc : Document) (key : String) (v : ValidationResult) (w : World O)
        → Keeps w.storage (promote e doc key v w).1.storage
    promote-Keeps doc key v w =
        elim (Option-cases (move_to_raw e key (e.build_raw_key v.sha256 doc.mime_type) w.objects)) [
          | inl h ↦ rw (h, promote) (update_document-Keeps e.now _ w.storage)
          | inr (objects, h) ↦
              let moved = record w { objects = objects; storage = e.meanwhile w.storage } in
              rw (h, promote)
                (Keeps-trans w.storage (e.meanwhile w.storage) _ (meanwhile-Keeps w.storage)
                  (finish_promotion-Keeps _ v moved))
        ]

    supersede_and_promote-Keeps :
        (doc : Document) (key : String) (v : ValidationResult) (meta : Option UploadRequest)
        (w : World O)
        → Keeps w.storage (supersede_and_promote e doc key v meta w).1.storage
    supersede_and_promote-Keeps doc key v meta w =
        let after = (supersede e meta doc w).1 in
        Keeps-trans w.storage after.storage _ (supersede-Keeps meta doc w)
          (promote-Keeps (supersede e meta doc w).0 key v after)

    deduplicate-Keeps :
        (doc : Document) (key : String) (v : ValidationResult) (meta : Option UploadRequest)
        (existing : Option Document) (w : World O)
        → Keeps w.storage (deduplicate e doc key v meta existing w).1.storage
    deduplicate-Keeps doc key v meta none w = supersede_and_promote-Keeps doc key v meta w
    deduplicate-Keeps doc key v meta (some existing) w = elim (Bool-cases (existing.id == doc.id)) [
      | inl h ↦ rw h (supersede_and_promote-Keeps doc key v meta w)
      | inr h ↦ rw h (drop_duplicate-Keeps doc key v.sha256 existing w)
    ]

    judge-Keeps :
        (doc : Document) (key : String) (size : ℕ) (v : ValidationResult)
        (meta : Option UploadRequest) (w : World O)
        → Keeps w.storage (judge e doc key size v meta w).1.storage
    judge-Keeps doc key size v meta w = elim (Bool-cases v.is_valid) [
      | inl h ↦ simp h (
          deduplicate-Keeps (record doc { checksum = some v.sha256 }) key v meta
            (get_by_checksum v.sha256 w.storage) w)
      | inr h ↦ simp h (reject-Keeps doc key size v w)
    ]

    examine-Keeps :
        (doc : Document) (meta : Option UploadRequest) (w : World O)
        → Keeps w.storage (examine e doc meta w).1.storage
    examine-Keeps doc meta w =
        elim (Option-cases (e.get_object e.quarantine (e.quarantine_key_for doc) w.objects)) [
          | inl h ↦ rw (h, examine) (update_document-Keeps e.now _ w.storage)
          | inr (content, h) ↦
              rw (h, examine)
                (judge-Keeps doc (e.quarantine_key_for doc) (length content)
                  (e.validate_document content doc.mime_type) meta w)
        ]

    process_found-Keeps :
        (i : ℕ) (meta : Option UploadRequest) (found : Option Document) (w : World O)
        → Keeps w.storage (process_found e i meta found w).1.storage
    process_found-Keeps i meta none w = Keeps-refl w.storage
    process_found-Keeps i meta (some doc) w = elim (Bool-cases (is_processed doc.status)) [
      | inl h ↦ rw h (Keeps-refl w.storage)
      | inr h ↦ elim (Bool-cases (is_finalized doc.status)) [
        | inl k ↦ rw (h, k) (Keeps-refl w.storage)
        | inr k ↦ rw (h, k) (examine-Keeps doc meta w)
      ]
    ]

    -- If what other processes do meanwhile removes no document and relaxes no tier, a scan does
    -- neither: every document stored before it is stored after it, with a tier at least as strict.
    pub process-Keeps :
        (i : ℕ) (meta : Option UploadRequest) (w : World O)
        → Keeps w.storage (process e i meta w).1.storage
    unfolding process
    process-Keeps i meta w = process_found-Keeps i meta (get_by_id i w.storage) w
