-- ===== src/Stages/Progress.antt =====
-- A run of the four stages in which no service fails.
use a_pag_ai_knowledge_base.Prelude.{
  ℕ, ◌≡◌, refl, ap, ◌∙◌, true, false, Option, none, some, List, [], ◌∷◌, ◌++◌, String, Text, arith,
  str_eq, length, keep_if,
}
use a_pag_ai_knowledge_base.Documents.{
  Document, DocumentStatus, JobStage, AuditEventType, same_status,
}
use a_pag_ai_knowledge_base.Repository.{get_by_id, find_by_id}
use a_pag_ai_knowledge_base.Repository.Lookup.{find_by_id-id}
use a_pag_ai_knowledge_base.Scan.{Details, extraction, normalization, chunking}
use a_pag_ai_knowledge_base.Stages.{
  returned, ExtractionResult, NormalizationResult, Chunk, ChunkRow, State, Tools, log_event,
  enqueue, save,
}
use a_pag_ai_knowledge_base.Stages.Lifecycle.{update_document-found, written, written-status}
use a_pag_ai_knowledge_base.Stages.Extraction.{
  process_extract, store_extraction, extract_bytes, read_raw,
}
use a_pag_ai_knowledge_base.Stages.Normalization.{
  process_normalize, store_normalized, read_extraction,
}
use a_pag_ai_knowledge_base.Stages.Chunking.{
  process_chunk, replaced_rows, title_of, persist, persist_chunks, read_normalized, total_chars,
}
use a_pag_ai_knowledge_base.Stages.Ends.{log_event-storage}

module _ {O U V : Type 0} (t : Tools O U V) where
  -- The document is stored in a state, and what else a stage hands on.
  pub record IsAt (i : ℕ) (status : DocumentStatus) (raw_path : Option String) (objects : O)
      (rows : List (ChunkRow V)) (jobs : List (ℕ × JobStage)) (s : State O V) : Type 0 where
    pub doc : Document
    pub found : find_by_id i s.world.storage ≡ some doc
    pub its_status : doc.status ≡ status
    pub its_path : doc.raw_path ≡ raw_path
    pub its_objects : s.world.objects ≡ objects
    pub its_rows : s.chunks ≡ rows
    pub its_jobs : s.world.new_jobs ≡ jobs

  log_event-rest :
      (i : ℕ) (event : AuditEventType) (d : Details) (s : State O V)
      → ((log_event t i event d s).world.objects ≡ s.world.objects)
        × ((log_event t i event d s).chunks ≡ s.chunks)
        × ((log_event t i event d s).world.new_jobs ≡ s.world.new_jobs)
  unfolding log_event
  log_event-rest i event d s = ground arith

  -- The document is written in its next state.
  pub save-IsAt :
      (i : ℕ) (k : Document) {path : Option String} {objects : O} {rows : List (ChunkRow V)}
      {jobs : List (ℕ × JobStage)} (s : State O V)
      → k.id ≡ i
      → k.raw_path ≡ path
      → s.world.objects ≡ objects
      → s.chunks ≡ rows
      → s.world.new_jobs ≡ jobs
      → IsAt i k.status path objects rows jobs (save t k s)
  save-IsAt i k s same its_path same_objects same_rows same_jobs = record {
    doc = written t.now k (find_by_id k.id s.world.storage);
    found = rw update_document-found (ground (arith, same));
    its_status = written-status t.now k (find_by_id k.id s.world.storage);
    its_path = written-path t.now k (find_by_id k.id s.world.storage) ∙ its_path;
    its_objects = same_objects;
    its_rows = same_rows;
    its_jobs = same_jobs;
  }
    where
      written-path :
          (now : ℕ) (k : Document) (o : Option Document) → (written now k o).raw_path ≡ k.raw_path
      written-path now k none = refl
      written-path now k (some stored) = refl

  pub log_event-IsAt :
      (j : ℕ) (event : AuditEventType) (d : Details) (s : State O V) {i : ℕ}
      {status : DocumentStatus} {path : Option String} {objects : O} {rows : List (ChunkRow V)}
      {jobs : List (ℕ × JobStage)}
      → IsAt i status path objects rows jobs s
      → IsAt i status path objects rows jobs (log_event t j event d s)
  log_event-IsAt j event d s h =
      let (objects, rows, jobs) = log_event-rest j event d s in
      record {
        doc = h.doc;
        found = rw log_event-storage h.found;
        its_status = h.its_status;
        its_path = h.its_path;
        its_objects = objects ∙ h.its_objects;
        its_rows = rows ∙ h.its_rows;
        its_jobs = jobs ∙ h.its_jobs;
      }

  enqueue-IsAt :
      (stage : JobStage) (j : ℕ) (s : State O V) {i : ℕ} {status : DocumentStatus}
      {path : Option String} {objects : O} {rows : List (ChunkRow V)} {jobs : List (ℕ × JobStage)}
      → t.has_db ≡ true
      → j ≡ i
      → IsAt i status path objects rows jobs s
      → IsAt i status path objects rows (jobs ++ (i, stage) ∷ []) (enqueue t stage j s)
  enqueue-IsAt stage j s {i} {jobs} db same h = simp db (record {
    doc = h.doc;
    found = h.found;
    its_status = h.its_status;
    its_path = h.its_path;
    its_objects = h.its_objects;
    its_rows = h.its_rows;
    its_jobs =
        ap (λ (l : List (ℕ × JobStage)). l ++ (j, stage) ∷ []) h.its_jobs
        ∙ ap (λ (n : ℕ). jobs ++ (n, stage) ∷ []) same;
  })

  module _ (i : ℕ) (db : t.has_db ≡ true) where
    pub extraction-IsAt :
        (path : String) (objects objects' : O) (rows : List (ChunkRow V))
        (jobs : List (ℕ × JobStage)) (content : Text) (x : ExtractionResult U) (s : State O V)
        → IsAt i DocumentStatus.validated (some path) objects rows jobs s
        → str_eq path "" ≡ false
        → t.get_object t.raw (t.last_segment path) objects ≡ returned content
        → ((mime : String) → t.extract i content mime ≡ returned x)
        → t.put_object t.extracted (t.extraction_key_for i) (t.dump_extraction x) objects
          ≡ returned objects'
        → IsAt i DocumentStatus.extracted
            (some path)
            objects'
            rows
            (jobs ++ (i, JobStage.normalize) ∷ [])
            (process_extract t i s).1
    unfolding process_extract get_by_id
    extraction-IsAt path objects objects' rows jobs content x s h named got extracted put =
        let its_id : h.doc.id ≡ i = find_by_id-id i s.world.storage h.doc h.found in
        let here : same_status h.doc.status DocumentStatus.validated ≡ true =
          rw h.its_status refl in
        let got' : t.get_object t.raw (t.last_segment path) s.world.objects ≡ returned content =
          ap (λ (o : O). t.get_object t.raw (t.last_segment path) o) h.its_objects ∙ got in
        let extracted' : t.extract h.doc.id content h.doc.mime_type ≡ returned x =
          ap (λ (n : ℕ). t.extract n content h.doc.mime_type) its_id ∙ extracted h.doc.mime_type in
        let put' : t.put_object t.extracted (t.extraction_key_for h.doc.id) (t.dump_extraction x)
              s.world.objects
            ≡ returned objects' =
          ap
            (λ (n : ℕ).
              t.put_object t.extracted (t.extraction_key_for n) (t.dump_extraction x)
                s.world.objects)
            its_id
          ∙ ap
              (λ (o : O). t.put_object t.extracted (t.extraction_key_for i) (t.dump_extraction x) o)
              h.its_objects
          ∙ put in
        let stored = record s { world = record s.world { objects = objects' } } in
        let ended = record h.doc {
          status = DocumentStatus.extracted;
          extraction_method = x.extraction_method;
        } in
        simp (h.found, here, h.its_path, named)
          (rw (got', read_raw)
            (rw (extracted', extract_bytes)
              (rw (put', store_extraction)
                (enqueue-IsAt JobStage.normalize h.doc.id _ db its_id (
                  log_event-IsAt h.doc.id AuditEventType.extraction_completed
                    (extraction (t.extraction_key_for h.doc.id) x.unit_count x.char_count
                      x.table_count x.heading_count x.extraction_method)
                    _ (save-IsAt i ended stored its_id h.its_path refl h.its_rows h.its_jobs))))))

    pub normalization-IsAt :
        (path : String) (objects objects' : O) (rows : List (ChunkRow V))
        (jobs : List (ℕ × JobStage)) (text : Text) (x : ExtractionResult U) (s : State O V)
        → IsAt i DocumentStatus.extracted (some path) objects rows jobs s
        → t.get_object t.extracted (t.extraction_key_for i) objects ≡ returned text
        → t.load_extraction text ≡ returned x
        → (t.normalize x).passed ≡ true
        → t.put_object t.normalized
            (t.normalized_key_for i)
            (t.dump_normalized (t.normalize x))
            objects
          ≡ returned objects'
        → IsAt i DocumentStatus.awaiting_classification
            (some path)
            objects'
            rows
            (jobs ++ (i, JobStage.chunk) ∷ [])
            (process_normalize t i s).1
    unfolding process_normalize get_by_id
    normalization-IsAt path objects objects' rows jobs text x s h got loaded passed put =
        let its_id : h.doc.id ≡ i = find_by_id-id i s.world.storage h.doc h.found in
        let here : same_status h.doc.status DocumentStatus.extracted ≡ true =
          rw h.its_status refl in
        let got' : t.get_object t.extracted (t.extraction_key_for i) s.world.objects
            ≡ returned text =
          ap (λ (o : O). t.get_object t.extracted (t.extraction_key_for i) o) h.its_objects ∙ got in
        let read : read_extraction t h.doc.id s ≡ returned x =
          ap (λ (n : ℕ). read_extraction t n s) its_id ∙ rw (got', read_extraction) loaded in
        let put' : t.put_object t.normalized (t.normalized_key_for h.doc.id)
              (t.dump_normalized (t.normalize x)) s.world.objects
            ≡ returned objects' =
          ap
            (λ (n : ℕ).
              t.put_object t.normalized (t.normalized_key_for n) (t.dump_normalized (t.normalize x))
                s.world.objects)
            its_id
          ∙ ap
              (λ (o : O).
                t.put_object t.normalized (t.normalized_key_for i)
                  (t.dump_normalized (t.normalize x)) o)
              h.its_objects
          ∙ put in
        let y = t.normalize x in
        let stored = record s { world = record s.world { objects = objects' } } in
        let ended = record h.doc { status = DocumentStatus.awaiting_classification } in
        simp (h.found, here)
          (rw read (
            simp passed (
              rw (put', store_normalized)
                (enqueue-IsAt JobStage.chunk h.doc.id _ db its_id (
                  log_event-IsAt h.doc.id AuditEventType.normalization_completed
                    (normalization (t.normalized_key_for h.doc.id) y.char_count y.unit_count
                      y.language y.table_count)
                    _ (save-IsAt i ended stored its_id h.its_path refl h.its_rows h.its_jobs))))))

    pub chunking-IsAt :
        (path : String) (objects : O) (rows : List (ChunkRow V)) (jobs : List (ℕ × JobStage))
        (text : Text) (y : NormalizationResult U) (c : Chunk) (cs : List Chunk) (s : State O V)
        → IsAt i DocumentStatus.awaiting_classification (some path) objects rows jobs s
        → t.get_object t.normalized (t.normalized_key_for i) objects ≡ returned text
        → t.load_normalized text ≡ returned y
        → t.chunk y ≡ c ∷ cs
        → ((new : List (ChunkRow V)) → t.persist_error new ≡ none)
        → (title : String) × IsAt i DocumentStatus.chunked
            (some path)
            objects
            (replaced_rows i title (c ∷ cs) rows)
            (jobs ++ (i, JobStage.embed) ∷ [])
            (process_chunk t i s).1
    unfolding process_chunk get_by_id
    chunking-IsAt path objects rows jobs text y c cs s h got loaded cut accepted =
        let its_id : h.doc.id ≡ i = find_by_id-id i s.world.storage h.doc h.found in
        let here : same_status h.doc.status DocumentStatus.awaiting_classification ≡ true =
          rw h.its_status refl in
        let got' : t.get_object t.normalized (t.normalized_key_for i) s.world.objects
            ≡ returned text =
          ap (λ (o : O). t.get_object t.normalized (t.normalized_key_for i) o) h.its_objects
          ∙ got in
        let read : read_normalized t h.doc.id s ≡ returned y =
          ap (λ (n : ℕ). read_normalized t n s) its_id ∙ rw (got', read_normalized) loaded in
        let title = title_of t h.doc in
        let new = replaced_rows h.doc.id title (c ∷ cs) s.chunks in
        let persisted : persist t h.doc.id title (c ∷ cs) s ≡ returned (record s { chunks = new }) =
          simp (db, accepted new) in
        let same_rows : new ≡ replaced_rows i title (c ∷ cs) rows =
          ap (λ (n : ℕ). replaced_rows n title (c ∷ cs) s.chunks) its_id
          ∙ ap (λ (l : List (ChunkRow V)). replaced_rows i title (c ∷ cs) l) h.its_rows in
        let ended = record h.doc { status = DocumentStatus.chunked } in
        (
          title,
          simp (h.found, here)
              (rw read (
                rw cut (
                  rw (persisted, persist_chunks)
                    (log_event-IsAt h.doc.id AuditEventType.chunking_completed
                      (chunking (length (c ∷ cs))
                        (length (keep_if (λ (k : Chunk). k.is_table) (c ∷ cs)))
                        (total_chars (c ∷ cs)))
                      _
                      (enqueue-IsAt JobStage.embed h.doc.id _ db its_id (
                        save-IsAt i ended (record s { chunks = new }) its_id h.its_path
                          h.its_objects same_rows h.its_jobs)))))),
        )
