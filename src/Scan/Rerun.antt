-- ===== src/Scan/Rerun.antt =====
-- A SCAN job that is run again: what the first run leaves stored, and what the second one does.
use a_pag_ai_knowledge_base.Prelude.{
  ℕ, ◌≡◌, refl, ◌∙◌, String, Bool, Bool-cases, Option-cases, inl, inr, true, ◌||◌, Option, none,
  some, arith, subst, ◌==◌, length,
}
use a_pag_ai_knowledge_base.Documents.{Document, DocumentStatus}
use a_pag_ai_knowledge_base.Access.{is_stricter}
use a_pag_ai_knowledge_base.Repository.{
  Storage, find_by_id, get_by_id, get_by_checksum, update_document, set_classification,
}
use a_pag_ai_knowledge_base.Repository.Lookup.{find_by_id-put, find_by_id-id}
use a_pag_ai_knowledge_base.Scan.{
  ValidationResult, World, UploadRequest, UploadResponse, Services, escalate_tier_if_stricter, save,
  is_processed, is_finalized,
}
use a_pag_ai_knowledge_base.Scan.Process.{
  process, reject, drop_duplicate, supersede, supersede_prior, canonical_of, lose_race,
  finish_promotion, conflicts, promote, move_to_raw, deduplicate, judge, examine,
  supersede_and_promote, process_found,
}
use a_pag_ai_knowledge_base.Scan.Tiers.{audit-storage, announce-storage}

-- The states on which a run does nothing.
abbrev pub is_done : DocumentStatus → Bool
is_done status = is_processed status || is_finalized status

-- The document is stored in the state.
abbrev HasStatus : DocumentStatus → ℕ → Storage → Type 0
HasStatus status i s = (d : Document) × (find_by_id i s ≡ some d) × (d.status ≡ status)

update_document-HasStatus :
    (now : ℕ) (doc : Document) (s : Storage)
    → HasStatus doc.status doc.id (update_document now doc s).1
unfolding update_document
update_document-HasStatus now doc s = elim (Option-cases (find_by_id doc.id s)) [
  | inl e ↦ rw e (record doc { updated_at = now }, rw find_by_id-put (ground arith), refl)
  | inr (stored, e) ↦ rw e (
    record doc { updated_at = now; classification = stored.classification },
    rw find_by_id-put (ground arith),
    refl,
  )
]

set_classification-HasStatus :
    (now j : ℕ) (c : String) (status : DocumentStatus) (i : ℕ) (s : Storage)
    → HasStatus status i s
    → HasStatus status i (set_classification now j c s).1
unfolding set_classification
set_classification-HasStatus now j c status i s (d, found, its) =
    elim (Option-cases (find_by_id j s)) [
      | inl e ↦ rw e (d, found, its)
      | inr (stored, e) ↦ elim (Bool-cases (stored.id == i)) [
        | inl same ↦ rw e (
          record stored { classification = some c; updated_at = now },
          rw (find_by_id-put, same),
          ground (arith, e, found, its, same, find_by_id-id j s stored e),
        )
        | inr other ↦ rw e (d, rw (find_by_id-put, other) found, its)
      ]
    ]

module _ {O : Type 0} (e : Services O) where
  escalate-HasStatus :
      (canonical : Document) (incoming : Option String) (j : ℕ) (sha256 : String)
      (status : DocumentStatus) (i : ℕ) (w : World O)
      → HasStatus status i w.storage
      → HasStatus status i (escalate_tier_if_stricter e canonical incoming j sha256 w).1.storage
  unfolding escalate_tier_if_stricter
  escalate-HasStatus canonical none j sha256 status i w h = h
  escalate-HasStatus canonical (some c) j sha256 status i w h =
      elim (Bool-cases (is_stricter (some c) canonical.classification)) [
        | inl s ↦
            rw (s, audit-storage)
              (set_classification-HasStatus e.now canonical.id c status i w.storage h)
        | inr s ↦ rw s h
      ]

  canonical_of-HasStatus :
      (doc : Document) (sha256 : String) (canonical : Option Document) (status : DocumentStatus)
      (i : ℕ) (w : World O)
      → HasStatus status i w.storage
      → HasStatus status i (canonical_of e doc sha256 canonical w).1.storage
  canonical_of-HasStatus doc sha256 none status i w h = h
  canonical_of-HasStatus doc sha256 (some canonical) status i w h =
      elim (Bool-cases (canonical.id == doc.id)) [
        | inl s ↦ rw s h
        | inr s ↦ rw s (escalate-HasStatus canonical doc.classification doc.id sha256 status i w h)
      ]

  supersede_prior-id :
      (keep : Bool) (doc : Document) (prior : Option Document) (w : World O)
      → (supersede_prior e keep doc prior w).0.id ≡ doc.id
  supersede_prior-id keep doc none w = refl
  supersede_prior-id keep doc (some prior) w = refl

  supersede-id :
      (meta : Option UploadRequest) (doc : Document) (w : World O)
      → (supersede e meta doc w).0.id ≡ doc.id
  supersede-id none doc w = refl
  supersede-id (some meta) doc w = elim (Option-cases meta.supersedes_doc_id) [
    | inl h ↦ rw h
    | inr (prior, h) ↦
        rw h (supersede_prior-id meta.keep_previous_version doc (get_by_id prior w.storage) w)
  ]

  -- When the answer names a state in which the stage is over, the document is stored in it.
  abbrev IsSettled : ℕ → UploadResponse × World O → Type 0
  IsSettled i r = is_done r.0.status ≡ true → HasStatus r.0.status i r.1.storage

  reject-IsSettled :
      (doc : Document) (key : String) (size : ℕ) (v : ValidationResult) (w : World O)
      → IsSettled doc.id (reject e doc key size v w)
  reject-IsSettled doc key size v w done =
      rw audit-storage (update_document-HasStatus e.now _ w.storage)

  drop_duplicate-IsSettled :
      (doc : Document) (key sha256 : String) (existing : Document) (w : World O)
      → IsSettled doc.id (drop_duplicate e doc key sha256 existing w)
  drop_duplicate-IsSettled doc key sha256 existing w done =
      rw audit-storage (update_document-HasStatus e.now _ _)

  lose_race-IsSettled :
      (doc : Document) (sha256 : String) (w : World O) → IsSettled doc.id (lose_race e doc sha256 w)
  lose_race-IsSettled doc sha256 w done =
      let refused = record doc { status = DocumentStatus.duplicate; raw_path = none } in
      let lost = save e refused w in
      rw audit-storage (
        canonical_of-HasStatus doc sha256 (get_by_checksum sha256 lost.storage)
          DocumentStatus.duplicate doc.id lost (update_document-HasStatus e.now refused w.storage))

  finish_promotion-IsSettled :
      (doc : Document) (v : ValidationResult) (w : World O)
      → doc.status ≡ DocumentStatus.validated
      → IsSettled doc.id (finish_promotion e doc v w)
  finish_promotion-IsSettled doc v w its = elim (Bool-cases (conflicts e doc v.sha256 w.storage)) [
    | inl h ↦ rw h (lose_race-IsSettled doc v.sha256 w)
    | inr h ↦
        rw (h, announce-storage)
          (λ done.
            let (d, found, same) = update_document-HasStatus e.now doc w.storage in
            (d, found, same ∙ its))
  ]

  promote-IsSettled :
      (doc : Document) (key : String) (v : ValidationResult) (w : World O)
      → IsSettled doc.id (promote e doc key v w)
  promote-IsSettled doc key v w =
      elim (Option-cases (move_to_raw e key (e.build_raw_key v.sha256 doc.mime_type) w.objects)) [
        | inl h ↦ rw (h, promote) (λ done. absurd (cc (done)))
        | inr (objects, h) ↦
            rw (h, promote)
              (finish_promotion-IsSettled _ v
                (record w { objects = objects; storage = e.meanwhile w.storage }) refl)
      ]

  supersede_and_promote-IsSettled :
      (doc : Document) (key : String) (v : ValidationResult) (meta : Option UploadRequest)
      (w : World O)
      → IsSettled doc.id (supersede_and_promote e doc key v meta w)
  supersede_and_promote-IsSettled doc key v meta w =
      subst (λ (n : ℕ). IsSettled n (supersede_and_promote e doc key v meta w))
        (supersede-id meta doc w)
        (promote-IsSettled (supersede e meta doc w).0 key v (supersede e meta doc w).1)

  deduplicate-IsSettled :
      (doc : Document) (key : String) (v : ValidationResult) (meta : Option UploadRequest)
      (existing : Option Document) (w : World O)
      → IsSettled doc.id (deduplicate e doc key v meta existing w)
  deduplicate-IsSettled doc key v meta none w = supersede_and_promote-IsSettled doc key v meta w
  deduplicate-IsSettled doc key v meta (some existing) w =
      elim (Bool-cases (existing.id == doc.id)) [
        | inl h ↦ rw h (supersede_and_promote-IsSettled doc key v meta w)
        | inr h ↦ rw h (drop_duplicate-IsSettled doc key v.sha256 existing w)
      ]

  judge-IsSettled :
      (doc : Document) (key : String) (size : ℕ) (v : ValidationResult)
      (meta : Option UploadRequest) (w : World O)
      → IsSettled doc.id (judge e doc key size v meta w)
  judge-IsSettled doc key size v meta w = elim (Bool-cases v.is_valid) [
    | inl h ↦ simp h (
        deduplicate-IsSettled (record doc { checksum = some v.sha256 }) key v meta
          (get_by_checksum v.sha256 w.storage) w)
    | inr h ↦ simp h (reject-IsSettled doc key size v w)
  ]

  examine-IsSettled :
      (doc : Document) (meta : Option UploadRequest) (w : World O)
      → IsSettled doc.id (examine e doc meta w)
  examine-IsSettled doc meta w =
      elim (Option-cases (e.get_object e.quarantine (e.quarantine_key_for doc) w.objects)) [
        | inl h ↦ rw (h, examine) (λ done. absurd (cc (done)))
        | inr (content, h) ↦
            rw (h, examine)
              (judge-IsSettled doc (e.quarantine_key_for doc) (length content)
                (e.validate_document content doc.mime_type) meta w)
      ]

  process_found-IsSettled :
      (i : ℕ) (meta : Option UploadRequest) (found : Option Document) (w : World O)
      → find_by_id i w.storage ≡ found
      → IsSettled i (process_found e i meta found w)
  process_found-IsSettled i meta none w at_i = λ done. absurd (cc (done))
  process_found-IsSettled i meta (some doc) w at_i = elim (Bool-cases (is_processed doc.status)) [
    | inl h ↦ rw h (λ done. (doc, at_i, refl))
    | inr h ↦ elim (Bool-cases (is_finalized doc.status)) [
      | inl k ↦ rw (h, k) (λ done. (doc, at_i, refl))
      | inr k ↦
          rw (h, k)
            (subst (λ (n : ℕ). IsSettled n (examine e doc meta w))
              (find_by_id-id i w.storage doc at_i) (examine-IsSettled doc meta w))
    ]
  ]

  process_found-done :
      (i : ℕ) (meta : Option UploadRequest) (doc : Document) (w : World O)
      → is_done doc.status ≡ true
      → ((process_found e i meta (some doc) w).1 ≡ w)
        × ((process_found e i meta (some doc) w).0.status ≡ doc.status)
  process_found-done i meta doc w done = elim (Bool-cases (is_processed doc.status)) [
    | inl h ↦ rw h (refl, refl)
    | inr h ↦ rw (h, rw h at done) (refl, refl)
  ]

  -- When the answer of a scan names a state in which the stage is over, a second scan of the same
  -- document, with any request data, leaves the documents, objects, audit log and jobs as they are
  -- and answers with the same status.
  pub process_rerun :
      (i : ℕ) (meta again : Option UploadRequest) (w : World O)
      → is_done (process e i meta w).0.status ≡ true
      → ((process e i again (process e i meta w).1).1 ≡ (process e i meta w).1)
        × ((process e i again (process e i meta w).1).0.status ≡ (process e i meta w).0.status)
  unfolding process get_by_id
  process_rerun i meta again w done =
      let after = (process e i meta w).1 in
      let (d, found, its) = process_found-IsSettled i meta (find_by_id i w.storage) w refl done in
      let (same, status) = process_found-done i again d after (rw its done) in
      rw found (same, status ∙ its)
