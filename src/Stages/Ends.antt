-- ===== src/Stages/Ends.antt =====
-- How a run of a stage can end: nothing has changed, or the document has been written once, in a state
-- that an edge of its life leads to.
use a_pag_ai_knowledge_base.Prelude.{
  ℕ, ◌≡◌, refl, ap, ◌∙◌, ◌⊎◌, inl, inr, Bool-cases, Option-cases, Option, none, some, List, [], ◌∷◌,
  String, Text, arith, str_eq, length, ◌==◌,
}
use a_pag_ai_knowledge_base.Documents.{Document, DocumentStatus, JobStage, AuditEventType}
use a_pag_ai_knowledge_base.Repository.{Storage, update_document}
use a_pag_ai_knowledge_base.Scan.{Details}
use a_pag_ai_knowledge_base.Stages.{
  Fallible, raised, returned, ExtractionResult, NormalizationResult, Chunk, ChunkRow, Embedded,
  value_error, inference_error, vectors, State, StageOutcome, Tools, log_event, enqueue,
}
use a_pag_ai_knowledge_base.Stages.Lifecycle.{
  ◌⟶◌, extracts, fails_extraction, normalizes, fails_normalization, chunks, fails_chunking, embeds,
  fails_embedding, skips,
}
use a_pag_ai_knowledge_base.Stages.Extraction.{
  extract_fail, store_extraction, extract_bytes, read_raw, extract_from,
}
use a_pag_ai_knowledge_base.Stages.Normalization.{store_normalized, gate, normalize_artifact}
use a_pag_ai_knowledge_base.Stages.Chunking.{
  persist, persist_chunks, keep_chunks, chunk_artifact, title_of,
}
use a_pag_ai_knowledge_base.Stages.Embedding.{
  embed_fail, commit_vectors, keep_vectors, embed_passages, is_unsupported, embed_in_language,
  passages_of, with_vectors,
}

Fallible-cases {ℓ} :
    {A : Type ℓ} (f : Fallible A) → ((e : String) × (f ≡ raised e)) ⊎ ((a : A) × (f ≡ returned a))
Fallible-cases (raised e) = inl (e, refl)
Fallible-cases (returned a) = inr (a, refl)

module _ {O U V : Type 0} (t : Tools O U V) where
  pub log_event-storage :
      (i : ℕ) (event : AuditEventType) (d : Details) (s : State O V)
      → (log_event t i event d s).world.storage ≡ s.world.storage
  unfolding log_event
  log_event-storage i event d s = ground arith

  pub enqueue-storage :
      (stage : JobStage) (i : ℕ) (s : State O V)
      → (enqueue t stage i s).world.storage ≡ s.world.storage
  enqueue-storage stage i s = ground arith

  abbrev pub Ends : Document → State O V → StageOutcome × State O V → Type 0
  Ends doc s r =
      (r.1 ≡ s)
      ⊎ ((k : Document) × (k.id ≡ doc.id)
          × (doc.status ⟶ k.status)
          × (r.1.world.storage ≡ (update_document t.now k s.world.storage).1))

  module _ (doc : Document) (s : State O V)
      (validated : doc.status ≡ DocumentStatus.validated) where
    extract_fail-Ends : (reason : String) → Ends doc s (extract_fail t doc reason s)
    extract_fail-Ends reason =
        inr (_, refl, rw validated fails_extraction, log_event-storage _ _ _ _)

    store_extraction-Ends :
        (result : ExtractionResult U) → Ends doc s (store_extraction t doc result s)
    store_extraction-Ends result =
        elim (Fallible-cases (
          t.put_object t.extracted (t.extraction_key_for doc.id) (t.dump_extraction result)
            s.world.objects)) [
              | inl (e, h) ↦ rw (h, store_extraction) (inl refl)
              | inr (objects, h) ↦
                  rw (h, store_extraction)
                    (inr (
                      _,
                      refl,
                      rw validated extracts,
                      enqueue-storage _ _ _ ∙ log_event-storage _ _ _ _,
                    ))
            ]

    extract_bytes-Ends : (content : Text) → Ends doc s (extract_bytes t doc content s)
    extract_bytes-Ends content = elim (Fallible-cases (t.extract doc.id content doc.mime_type)) [
      | inl (e, h) ↦ rw (h, extract_bytes) (extract_fail-Ends _)
      | inr (result, h) ↦ rw (h, extract_bytes) (store_extraction-Ends result)
    ]

    read_raw-Ends : (path : String) → Ends doc s (read_raw t doc path s)
    read_raw-Ends path =
        elim (Fallible-cases (t.get_object t.raw (t.last_segment path) s.world.objects)) [
          | inl (e, h) ↦ rw (h, read_raw) (inl refl)
          | inr (content, h) ↦ rw (h, read_raw) (extract_bytes-Ends content)
        ]

    pub extract_from-Ends : (path : Option String) → Ends doc s (extract_from t doc path s)
    extract_from-Ends none = extract_fail-Ends _
    extract_from-Ends (some path) = elim (Bool-cases (str_eq path "")) [
      | inl h ↦ rw h (extract_fail-Ends _)
      | inr h ↦ rw h (read_raw-Ends path)
    ]

  module _ (doc : Document) (s : State O V)
      (extracted : doc.status ≡ DocumentStatus.extracted) where
    store_normalized-Ends :
        (result : NormalizationResult U) → Ends doc s (store_normalized t doc result s)
    store_normalized-Ends result =
        elim (Fallible-cases (
          t.put_object t.normalized (t.normalized_key_for doc.id) (t.dump_normalized result)
            s.world.objects)) [
              | inl (e, h) ↦ rw (h, store_normalized) (inl refl)
              | inr (objects, h) ↦
                  rw (h, store_normalized)
                    (inr (
                      _,
                      refl,
                      rw extracted normalizes,
                      enqueue-storage _ _ _ ∙ log_event-storage _ _ _ _,
                    ))
            ]

    gate-Ends : (result : NormalizationResult U) → Ends doc s (gate t doc result s)
    gate-Ends result = elim (Bool-cases result.passed) [
      | inl h ↦ simp h (store_normalized-Ends result)
      | inr h ↦ simp h (inr (_, refl, rw extracted fails_normalization, log_event-storage _ _ _ _))
    ]

    pub normalize_artifact-Ends :
        (f : Fallible (ExtractionResult U)) → Ends doc s (normalize_artifact t doc f s)
    normalize_artifact-Ends (raised e) = inl refl
    normalize_artifact-Ends (returned x) = gate-Ends (t.normalize x)

  module _ (doc : Document) (s : State O V)
      (waiting : doc.status ≡ DocumentStatus.awaiting_classification) where
    persist-storage :
        (title : String) (new : List Chunk) (s' : State O V)
        → persist t doc.id title new s ≡ returned s'
        → s'.world.storage ≡ s.world.storage
    persist-storage title new s' h = ground arith

    persist_chunks-Ends : (new : List Chunk) → Ends doc s (persist_chunks t doc new s)
    persist_chunks-Ends new = elim (Fallible-cases (persist t doc.id (title_of t doc) new s)) [
      | inl (e, h) ↦ rw (h, persist_chunks) (inl refl)
      | inr (s', h) ↦
          rw (h, persist_chunks)
            (inr (
              record doc { status = DocumentStatus.chunked },
              refl,
              rw waiting chunks,
              log_event-storage _ _ _ _
                  ∙ enqueue-storage _ _ _
                  ∙ ap
                      (λ (x : Storage).
                        (update_document t.now (record doc { status = DocumentStatus.chunked })
                          x).1)
                      (persist-storage (title_of t doc) new s' h),
            ))
    ]

    keep_chunks-Ends : (new : List Chunk) → Ends doc s (keep_chunks t doc new s)
    keep_chunks-Ends [] = inr (_, refl, rw waiting fails_chunking, log_event-storage _ _ _ _)
    keep_chunks-Ends (c ∷ cs) = persist_chunks-Ends (c ∷ cs)

    pub chunk_artifact-Ends :
        (f : Fallible (NormalizationResult U)) → Ends doc s (chunk_artifact t doc f s)
    chunk_artifact-Ends (raised e) = inl refl
    chunk_artifact-Ends (returned x) = keep_chunks-Ends (t.chunk x)

  module _ (doc : Document) (s : State O V) (chunked : doc.status ≡ DocumentStatus.chunked) where
    embed_fail-Ends : (reason : String) → Ends doc s (embed_fail t doc reason s)
    embed_fail-Ends reason = inr (_, refl, rw chunked fails_embedding, log_event-storage _ _ _ _)

    commit_vectors-Ends :
        (passages : List (ChunkRow V)) (vs : List V)
        → Ends doc s (commit_vectors t doc passages vs s)
    commit_vectors-Ends passages vs =
        elim (Option-cases (t.commit_error (with_vectors doc.id passages vs s.chunks))) [
          | inl h ↦
              rw (h, commit_vectors) (inr (_, refl, rw chunked embeds, log_event-storage _ _ _ _))
          | inr (e, h) ↦ rw (h, commit_vectors) (inl refl)
        ]

    keep_vectors-Ends :
        (passages : List (ChunkRow V)) (vs : Embedded V)
        → Ends doc s (keep_vectors t doc passages vs s)
    keep_vectors-Ends passages (value_error e) = embed_fail-Ends _
    keep_vectors-Ends passages (inference_error e) = inl refl
    keep_vectors-Ends passages (vectors vs) = elim (Bool-cases (length vs == length passages)) [
      | inl h ↦ rw h (commit_vectors-Ends passages vs)
      | inr h ↦ rw h (embed_fail-Ends _)
    ]

    embed_passages-Ends : (rows : List (ChunkRow V)) → Ends doc s (embed_passages t doc rows s)
    embed_passages-Ends [] = embed_fail-Ends _
    embed_passages-Ends (r ∷ rs) = keep_vectors-Ends (r ∷ rs) _

    pub embed_in_language-Ends :
        (language : Option String) → Ends doc s (embed_in_language t doc language s)
    embed_in_language-Ends language = elim (Bool-cases (is_unsupported t language)) [
      | inl h ↦ simp h (inr (_, refl, rw chunked skips, log_event-storage _ _ _ _))
      | inr h ↦ elim (Bool-cases t.has_db) [
        | inl db ↦ simp (h, db) (embed_passages-Ends (passages_of doc.id s.chunks))
        | inr db ↦ simp (h, db) (inl refl)
      ]
    ]
