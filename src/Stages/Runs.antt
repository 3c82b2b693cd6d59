-- ===== src/Stages/Runs.antt =====
-- The stages as one family, and what holds of a run of any of them.
use a_pag_ai_knowledge_base.Prelude.{
  ℕ, ◌≡◌, refl, ap, ◌∙◌, ◌⊎◌, inl, inr, true, false, Bool-cases, Option, none, some, arith,
}
use a_pag_ai_knowledge_base.Documents.{Document, DocumentStatus, same_status}
use a_pag_ai_knowledge_base.Repository.{find_by_id, get_by_id, update_document}
use a_pag_ai_knowledge_base.Repository.Lookup.{find_by_id-id}
use a_pag_ai_knowledge_base.Stages.{State, StageOutcome, Tools}
use a_pag_ai_knowledge_base.Stages.Lifecycle.{
  ◌⟶◌, ⟶-moves, Follows, Follows-refl, update_document-Follows, update_document-found, written,
  written-status,
}
use a_pag_ai_knowledge_base.Stages.Extraction.{process_extract, extract_found}
use a_pag_ai_knowledge_base.Stages.Normalization.{
  process_normalize, normalize_found, read_extraction,
}
use a_pag_ai_knowledge_base.Stages.Chunking.{process_chunk, chunk_found, read_normalized}
use a_pag_ai_knowledge_base.Stages.Embedding.{process_embed, embed_found, believed_language}
use a_pag_ai_knowledge_base.Stages.Ends.{
  Ends, extract_from-Ends, normalize_artifact-Ends, chunk_artifact-Ends, embed_in_language-Ends,
}

pub data Stage : Type 0 where
  extraction normalization chunking embedding : Stage

-- The state in which a document must be for the stage.
abbrev pub required : Stage → DocumentStatus
required extraction = DocumentStatus.validated
required normalization = DocumentStatus.extracted
required chunking = DocumentStatus.awaiting_classification
required embedding = DocumentStatus.chunked

same_status-eq : (a b : DocumentStatus) → same_status a b ≡ true → a ≡ b
same_status-eq a b h = ground (arith, h)

module _ {O U V : Type 0} (t : Tools O U V) where
  abbrev pub run_found : Stage → Option Document → State O V → StageOutcome × State O V
  run_found extraction = extract_found t
  run_found normalization = normalize_found t
  run_found chunking = chunk_found t
  run_found embedding = embed_found t

  unfoldable pub run : Stage → ℕ → State O V → StageOutcome × State O V
  unfolding process_extract process_normalize process_chunk process_embed
  run extraction = process_extract t
  run normalization = process_normalize t
  run chunking = process_chunk t
  run embedding = process_embed t

  run-found :
      (stage : Stage) (i : ℕ) (s : State O V)
      → run stage i s ≡ run_found stage (get_by_id i s.world.storage) s
  unfolding run
  run-found extraction i s = refl
  run-found normalization i s = refl
  run-found chunking i s = refl
  run-found embedding i s = refl

  -- Without a document in the state that the stage requires, nothing changes.
  run_found-none : (stage : Stage) (s : State O V) → (run_found stage none s).1 ≡ s
  run_found-none extraction s = refl
  run_found-none normalization s = refl
  run_found-none chunking s = refl
  run_found-none embedding s = refl

  run_found-guard :
      (stage : Stage) (doc : Document) (s : State O V)
      → same_status doc.status (required stage) ≡ false
      → (run_found stage (some doc) s).1 ≡ s
  run_found-guard extraction doc s h = simp h
  run_found-guard normalization doc s h = simp h
  run_found-guard chunking doc s h = simp h
  run_found-guard embedding doc s h = simp h

  run_found-Ends :
      (stage : Stage) (doc : Document) (s : State O V)
      → same_status doc.status (required stage) ≡ true
      → Ends t doc s (run_found stage (some doc) s)
  run_found-Ends extraction doc s h =
      simp h (extract_from-Ends t doc s (same_status-eq doc.status _ h) doc.raw_path)
  run_found-Ends normalization doc s h =
      simp h (
        normalize_artifact-Ends t doc s (same_status-eq doc.status _ h)
          (read_extraction t doc.id s))
  run_found-Ends chunking doc s h =
      simp h
        (chunk_artifact-Ends t doc s (same_status-eq doc.status _ h) (read_normalized t doc.id s))
  run_found-Ends embedding doc s h = simp h (
      embed_in_language-Ends t doc s (same_status-eq doc.status _ h)
        (believed_language t (read_normalized t doc.id s)))

  -- A run has changed nothing, or has moved the document along an edge.
  data Run (stage : Stage) (i : ℕ) (s : State O V) (after : State O V) : Type 0 where
    kept : after ≡ s → Run stage i s after
    moved :
        (d k : Document)
        → find_by_id i s.world.storage ≡ some d
        → d.status ≡ required stage
        → k.id ≡ d.id
        → d.status ⟶ k.status
        → after.world.storage ≡ (update_document t.now k s.world.storage).1
        → Run stage i s after

  run_found-Run :
      (stage : Stage) (i : ℕ) (s : State O V) (found : Option Document)
      → find_by_id i s.world.storage ≡ found
      → Run stage i s (run_found stage found s).1
  run_found-Run stage i s none h = kept (run_found-none stage s)
  run_found-Run stage i s (some doc) h =
      elim (Bool-cases (same_status doc.status (required stage))) [
        | inr e ↦ kept (run_found-guard stage doc s e)
        | inl e ↦ elim (run_found-Ends stage doc s e) [
          | inl same ↦ kept same
          | inr (k, same, edge, stored) ↦
              moved doc k h (same_status-eq doc.status _ e) same edge stored
        ]
      ]

  run-Run : (stage : Stage) (i : ℕ) (s : State O V) → Run stage i s (run stage i s).1
  unfolding get_by_id
  run-Run stage i s = rw run-found (run_found-Run stage i s (find_by_id i s.world.storage) refl)

  Run-Follows :
      (stage : Stage) (i : ℕ) (s after : State O V)
      → Run stage i s after
      → Follows s.world.storage after.world.storage
  Run-Follows stage i s after (kept e) = rw e (Follows-refl s.world.storage)
  Run-Follows stage i s after (moved d k found at_stage same edge stored) =
      let its_id = find_by_id-id i s.world.storage d found in
      rw stored (
        update_document-Follows t.now d k s.world.storage
          (ap (λ (n : ℕ). find_by_id n s.world.storage) its_id ∙ found) same edge)

  -- A run of any stage, whatever its services answer, refines the life of a document: every stored
  -- document is still stored, and its status is what it was or has moved along the edges of that
  -- diagram.
  pub run-Follows :
      (stage : Stage) (i : ℕ) (s : State O V)
      → Follows s.world.storage (run stage i s).1.world.storage
  run-Follows stage i s = Run-Follows stage i s (run stage i s).1 (run-Run stage i s)

module _ {O U V : Type 0} (t later : Tools O U V) where
  settled :
      (stage : Stage) (i : ℕ) (s after : State O V)
      → Run t stage i s after
      → (after ≡ s) ⊎ ((run later stage i after).1 ≡ after)
  unfolding get_by_id
  settled stage i s after (kept e) = inl e
  settled stage i s after (moved d k found at_stage same edge stored) =
      let its_id = find_by_id-id i s.world.storage d found in
      let doc = written t.now k (find_by_id k.id s.world.storage) in
      let stays : same_status doc.status (required stage) ≡ false =
        rw (written-status, ← at_stage) (⟶-moves d.status k.status edge) in
      let there : find_by_id i after.world.storage ≡ some doc =
        rw (stored, update_document-found) (ground (arith, same, its_id)) in
      inr (rw (run-found later stage i after, there) (run_found-guard later stage doc after stays))

  -- A run of a stage changes nothing, neither the documents nor the objects, passages, audit log
  -- and jobs, or it is final: every later run of the same stage on the same document, whatever its
  -- services answer by then, changes nothing of what the first run left.
  pub run_final :
      (stage : Stage) (i : ℕ) (s : State O V)
      → ((run t stage i s).1 ≡ s)
        ⊎ ((run later stage i (run t stage i s).1).1 ≡ (run t stage i s).1)
  run_final stage i s = settled stage i s (run t stage i s).1 (run-Run t stage i s)
