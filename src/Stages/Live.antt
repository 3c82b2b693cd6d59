-- ===== src/Stages/Live.antt =====
-- A document that is VALIDATED goes through the four stages and becomes LIVE.
use a_pag_ai_knowledge_base.Prelude.{
  ℕ, ◌≡◌, refl, ap, sym, ◌∙◌, Bool, true, false, not, none, some, List, [], ◌∷◌, ◌++◌, String, Text,
  arith, ◌==◌, ==_refl, str_eq, length, map, keep_if,
}
use a_pag_ai_knowledge_base.Documents.{
  Document, DocumentStatus, JobStage, AuditEventType, same_status,
}
use a_pag_ai_knowledge_base.Repository.{get_by_id, find_by_id}
use a_pag_ai_knowledge_base.Repository.Lookup.{find_by_id-id}
use a_pag_ai_knowledge_base.Scan.{embedding}
use a_pag_ai_knowledge_base.Stages.{
  returned, ExtractionResult, NormalizationResult, Chunk, ChunkRow, vectors, State, Tools,
}
use a_pag_ai_knowledge_base.Stages.Extraction.{process_extract}
use a_pag_ai_knowledge_base.Stages.Normalization.{process_normalize}
use a_pag_ai_knowledge_base.Stages.Chunking.{process_chunk, replaced_rows, new_row, read_normalized}
use a_pag_ai_knowledge_base.Stages.Embedding.{
  process_embed, insert_by_index, order_by_index, passages_of, with_vectors, is_unsupported,
  believed_language, keep_vectors, commit_vectors, embedded_document, embed_passages,
}
use a_pag_ai_knowledge_base.Stages.Progress.{
  IsAt, save-IsAt, log_event-IsAt, extraction-IsAt, normalization-IsAt, chunking-IsAt,
}

module _ {V : Type 0} where
  abbrev is_empty : List (ChunkRow V) → Bool
  is_empty [] = true
  is_empty (r ∷ rs) = false

  is_empty-insert :
      (r : ChunkRow V) (rs : List (ChunkRow V)) → is_empty (insert_by_index r rs) ≡ false
  unfolding insert_by_index
  is_empty-insert r [] = refl
  is_empty-insert r (q ∷ qs) = ground arith

  is_empty-order : (rs : List (ChunkRow V)) → is_empty (order_by_index rs) ≡ is_empty rs
  unfolding order_by_index
  is_empty-order [] = refl
  is_empty-order (r ∷ rs) = is_empty-insert r (order_by_index rs)

  is_empty-kept :
      (i : ℕ) (xs : List (ChunkRow V)) (r : ChunkRow V) (rs : List (ChunkRow V))
      → r.document_id ≡ i
      → is_empty (keep_if (λ (q : ChunkRow V). q.document_id == i) (xs ++ r ∷ rs)) ≡ false
  is_empty-kept i [] r rs same = ground (arith, same)
  is_empty-kept i (x ∷ xs) r rs same = ground (arith, is_empty-kept i xs r rs same)

  -- A document whose passages have just been replaced has passages.
  is_empty-replaced :
      (i : ℕ) (title : String) (c : Chunk) (cs : List Chunk) (rows : List (ChunkRow V))
      → is_empty (passages_of i (replaced_rows i title (c ∷ cs) rows)) ≡ false
  is_empty-replaced i title c cs rows =
      is_empty-order
        (keep_if (λ (q : ChunkRow V). q.document_id == i) (replaced_rows i title (c ∷ cs) rows))
      ∙ is_empty-kept i (keep_if (λ (q : ChunkRow V). not (q.document_id == i)) rows)
          (new_row i title c) (map (new_row i title) cs) refl

  non_empty :
      (rs : List (ChunkRow V))
      → is_empty rs ≡ false
      → (r : ChunkRow V) × (rest : List (ChunkRow V)) × (rs ≡ r ∷ rest)
  non_empty [] h = absurd (cc h)
  non_empty (r ∷ rest) h = (r, rest, refl)

abbrev texts_of : {V : Type 0} → List (ChunkRow V) → List Text
texts_of rows = map (λ r. r.chunk.text) rows

length-texts_of : {V : Type 0} (rows : List (ChunkRow V)) → length (texts_of rows) ≡ length rows
length-texts_of [] = refl
length-texts_of (r ∷ rows) = omega (arith, length-texts_of rows)

-- The four stages, one after the other.
abbrev pub through : {O U V : Type 0} → Tools O U V → ℕ → State O V → State O V
through t i s =
    (process_embed t i (process_chunk t i (process_normalize t i (process_extract t i s).1).1).1).1

module _ {O U V : Type 0} (t : Tools O U V) (i : ℕ) (db : t.has_db ≡ true) where
  -- The vectors are stored, one for each passage.
  embed_passages-stored :
      (doc : Document) (rows : List (ChunkRow V)) (vs : List V) (s : State O V)
      → is_empty rows ≡ false
      → t.embed_document doc.id (texts_of rows) ≡ vectors vs
      → length vs ≡ length rows
      → ((new : List (ChunkRow V)) → t.commit_error new ≡ none)
      → embed_passages t doc rows s
        ≡ embedded_document t doc vs (record s { chunks = with_vectors doc.id rows vs s.chunks })
  embed_passages-stored doc [] vs s some_rows embedded same accepted = absurd (cc some_rows)
  embed_passages-stored doc (r ∷ rs) vs s some_rows embedded same accepted =
      let count : (length vs == length (r ∷ rs)) ≡ true = rw same (==_refl (length (r ∷ rs))) in
      let rows = with_vectors doc.id (r ∷ rs) vs s.chunks in
      rw (embedded, keep_vectors) (simp count (rw (accepted rows, commit_vectors) refl))

  embedding-IsAt :
      (path : String) (objects : O) (rows : List (ChunkRow V)) (jobs : List (ℕ × JobStage))
      (text : Text) (y : NormalizationResult U) (vs : List V) (s : State O V)
      → IsAt t i DocumentStatus.chunked (some path) objects rows jobs s
      → t.get_object t.normalized (t.normalized_key_for i) objects ≡ returned text
      → t.load_normalized text ≡ returned y
      → is_unsupported t (believed_language t (returned y)) ≡ false
      → is_empty (passages_of i rows) ≡ false
      → t.embed_document i (texts_of (passages_of i rows)) ≡ vectors vs
      → length vs ≡ length (passages_of i rows)
      → ((new : List (ChunkRow V)) → t.commit_error new ≡ none)
      → IsAt t i DocumentStatus.live
          (some path)
          objects
          (with_vectors i (passages_of i rows) vs rows)
          jobs
          (process_embed t i s).1
  unfolding process_embed get_by_id
  embedding-IsAt path objects rows jobs text y vs s h got loaded supported some_rows embedded
        same_length accepted =
      let its_id : h.doc.id ≡ i = find_by_id-id i s.world.storage h.doc h.found in
      let here : same_status h.doc.status DocumentStatus.chunked ≡ true = rw h.its_status refl in
      let got' : t.get_object t.normalized (t.normalized_key_for i) s.world.objects
          ≡ returned text =
        ap (λ (o : O). t.get_object t.normalized (t.normalized_key_for i) o) h.its_objects ∙ got in
      let read : read_normalized t h.doc.id s ≡ returned y =
        ap (λ (n : ℕ). read_normalized t n s) its_id ∙ rw (got', read_normalized) loaded in
      let same : passages_of h.doc.id s.chunks ≡ passages_of i rows =
        ap (λ (n : ℕ). passages_of n s.chunks) its_id
        ∙ ap (λ (l : List (ChunkRow V)). passages_of i l) h.its_rows in
      let same_rows : with_vectors h.doc.id (passages_of h.doc.id s.chunks) vs s.chunks
          ≡ with_vectors i (passages_of i rows) vs rows =
        ap (λ (n : ℕ). with_vectors n (passages_of n s.chunks) vs s.chunks) its_id
        ∙ ap (λ (l : List (ChunkRow V)). with_vectors i (passages_of i l) vs l) h.its_rows in
      let stored : embed_passages t h.doc (passages_of h.doc.id s.chunks) s
          ≡ embedded_document t h.doc vs (record s {
            chunks = with_vectors h.doc.id (passages_of h.doc.id s.chunks) vs s.chunks;
          }) =
        embed_passages-stored h.doc (passages_of h.doc.id s.chunks) vs s
          (ap is_empty same ∙ some_rows)
          (ap (λ (n : ℕ). t.embed_document n (texts_of (passages_of h.doc.id s.chunks))) its_id
            ∙ ap (λ (l : List (ChunkRow V)). t.embed_document i (texts_of l)) same
            ∙ embedded)
          (same_length ∙ sym (ap (λ (l : List (ChunkRow V)). length l) same)) accepted in
      simp (h.found, here)
        (rw read (
          simp (supported, db)
            (rw stored (
              log_event-IsAt t h.doc.id AuditEventType.embedding_completed (embedding (length vs)) _
                (save-IsAt t i (record h.doc { status = DocumentStatus.live })
                  (record s {
                    chunks = with_vectors h.doc.id (passages_of h.doc.id s.chunks) vs s.chunks;
                  })
                  its_id h.its_path h.its_objects same_rows h.its_jobs)))))

  -- Where there is a database, what is stored is read back, the two artifacts load as they were
  -- dumped, extraction succeeds, the quality gate passes, there are passages, the writes of the
  -- database are accepted, every text gets a vector and the language is supported, the four stages
  -- take a VALIDATED document with a promoted file to LIVE and queue one job for normalization,
  -- chunking and embedding, in this order.
  pub pipeline_reaches_live :
      (path : String) (content : Text) (x : ExtractionResult U) (c : Chunk) (cs : List Chunk)
      (doc : Document) (s : State O V)
      (stored_is_read : (bucket key : String) (text : Text) (o : O)
        → (o' : O) × (t.put_object bucket key text o ≡ returned o')
          × (t.get_object bucket key o' ≡ returned text))
      (embeds_all : (texts : List Text)
        → (vs : List V) × (t.embed_document i texts ≡ vectors vs) × (length vs ≡ length texts))
      (persists : (new : List (ChunkRow V)) → t.persist_error new ≡ none)
      (commits : (new : List (ChunkRow V)) → t.commit_error new ≡ none)
      → find_by_id i s.world.storage ≡ some doc
      → doc.status ≡ DocumentStatus.validated
      → doc.raw_path ≡ some path
      → str_eq path "" ≡ false
      → t.get_object t.raw (t.last_segment path) s.world.objects ≡ returned content
      → ((mime : String) → t.extract i content mime ≡ returned x)
      → t.load_extraction (t.dump_extraction x) ≡ returned x
      → (t.normalize x).passed ≡ true
      → t.load_normalized (t.dump_normalized (t.normalize x)) ≡ returned (t.normalize x)
      → t.chunk (t.normalize x) ≡ c ∷ cs
      → is_unsupported t (believed_language t (returned (t.normalize x))) ≡ false
      → (d : Document) × (find_by_id i (through t i s).world.storage ≡ some d)
        × (d.status ≡ DocumentStatus.live)
        × ((through t i s).world.new_jobs
            ≡ ((s.world.new_jobs ++ (i, JobStage.normalize) ∷ []) ++ (i, JobStage.chunk) ∷ [])
              ++ (i, JobStage.embed) ∷ [])
  pipeline_reaches_live path content x c cs doc s stored_is_read embeds_all persists commits found
        validated its_path named got extracted extraction_loads passed normalized_loads cut
        supported =
      let start : IsAt t i DocumentStatus.validated (some path) s.world.objects s.chunks
          s.world.new_jobs s =
        record {
          doc = doc;
          found = found;
          its_status = validated;
          its_path = its_path;
          its_objects = refl;
          its_rows = refl;
          its_jobs = refl;
        } in
      let y = t.normalize x in
      let (o1, put1, get1) =
        stored_is_read t.extracted (t.extraction_key_for i) (t.dump_extraction x) s.world.objects in
      let (o2, put2, get2) =
        stored_is_read t.normalized (t.normalized_key_for i) (t.dump_normalized y) o1 in
      let s1 = (process_extract t i s).1 in
      let s2 = (process_normalize t i s1).1 in
      let s3 = (process_chunk t i s2).1 in
      let at1 =
        extraction-IsAt t i db path s.world.objects o1 s.chunks s.world.new_jobs content x s start
          named got extracted put1 in
      let at2 =
        normalization-IsAt t i db path o1 o2 s.chunks _ (t.dump_extraction x) x s1 at1 get1
          extraction_loads passed put2 in
      let (title, at3) =
        chunking-IsAt t i db path o2 s.chunks _ (t.dump_normalized y) y c cs s2 at2 get2
          normalized_loads cut persists in
      let rows = replaced_rows i title (c ∷ cs) s.chunks in
      let (vs, embedded, same) = embeds_all (texts_of (passages_of i rows)) in
      let at4 =
        embedding-IsAt path o2 rows _ (t.dump_normalized y) y vs s3 at3 get2 normalized_loads
          supported (is_empty-replaced i title c cs s.chunks) embedded
          (same ∙ length-texts_of (passages_of i rows)) commits in
      (at4.doc, at4.found, at4.its_status, at4.its_jobs)
