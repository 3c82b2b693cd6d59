-- ===== src/Stages/Examples.antt =====
-- The four stages on one document, with services that never fail.
use a_pag_ai_knowledge_base.Prelude.{
  ◌⊎◌, ℕ, ◌≡◌, refl, true, false, ◌&&◌, none, some, List, [], ◌∷◌, String, Text, str_eq, eq_iff,
  arith, map, length, if◌then◌else◌,
}
use a_pag_ai_knowledge_base.Access.{public}
use a_pag_ai_knowledge_base.Documents.{Document, DocumentStatus, JobStage}
use a_pag_ai_knowledge_base.Repository.{find_by_id, get_by_id}
use a_pag_ai_knowledge_base.Repository.Examples.{document}
use a_pag_ai_knowledge_base.Stages.{
  Fallible, returned, raised, ExtractionResult, NormalizationResult, Chunk, ChunkRow, vectors,
  State, Tools,
}
use a_pag_ai_knowledge_base.Stages.Embedding.{process_embed}
use a_pag_ai_knowledge_base.Stages.Lifecycle.{Follows}
use a_pag_ai_knowledge_base.Stages.Runs.{extraction, run, run-Follows, run_final}
use a_pag_ai_knowledge_base.Stages.Vectors.{HasVectors, live-HasVectors}
use a_pag_ai_knowledge_base.Stages.Live.{through, pipeline_reaches_live}

-- The objects, each under its bucket and key, newest first.
abbrev Objects : Type 0
Objects = List (String × String × Text)

abbrev get_object : String → String → Objects → Fallible Text
get_object bucket key [] = raised "NoSuchKey"
get_object bucket key (o ∷ l) =
    let rest = get_object bucket key l in
    if str_eq o.0 bucket && str_eq o.1 key then returned o.2 else rest

abbrev extracted_text : ExtractionResult ℕ
extracted_text = record {
  payload = 0;
  unit_count = 1;
  char_count = 3;
  table_count = 0;
  heading_count = 0;
  extraction_method = some "text";
}

abbrev normalized_text : NormalizationResult ℕ
normalized_text = record {
  payload = 0;
  char_count = 3;
  unit_count = 1;
  language = some "en";
  table_count = 0;
  full_text = 97 ∷ 98 ∷ 99 ∷ [];
  passed = true;
  failures = [];
}

abbrev passage : Chunk
passage = record {
  index = 0;
  text = 97 ∷ 98 ∷ 99 ∷ [];
  page_number = some 1;
  section_heading = none;
  is_table = false;
  scale = "";
}

abbrev tools : Tools Objects ℕ ℕ
tools = record {
  raw = "raw";
  extracted = "extracted";
  normalized = "normalized";
  get_object = get_object;
  put_object = λ bucket key text l. returned ((bucket, key, text) ∷ l);
  last_segment = λ path. path;
  extraction_key_for = λ _. "1.json";
  normalized_key_for = λ _. "1.json";
  dump_extraction = λ _. 1 ∷ [];
  load_extraction = λ _. returned extracted_text;
  dump_normalized = λ _. 2 ∷ [];
  load_normalized = λ _. returned normalized_text;
  extract = λ _ _ _. returned extracted_text;
  normalize = λ _. normalized_text;
  chunk = λ _. passage ∷ [];
  strip = λ title. title;
  str = λ _. "1";
  persist_error = λ _. none;
  embed_document = λ _ texts. vectors (map (λ (x : Text). length x) texts);
  commit_error = λ _. none;
  skip_non_english = true;
  has_little_prose = λ _. false;
  has_db = true;
  audit_fails = λ _. false;
  now = 9;
}

abbrev validated_document : Document
validated_document = record (document 1 DocumentStatus.validated public) {
  raw_path = some "raw/c0ffee.pdf";
}

abbrev at : Document → List (ChunkRow ℕ) → State Objects ℕ
at doc rows = record {
  world = record {
    storage = doc ∷ [];
    objects = ("raw", "raw/c0ffee.pdf", 97 ∷ []) ∷ ("normalized", "1.json", 2 ∷ []) ∷ [];
    audit_log = [];
    new_jobs = [];
  };
  chunks = rows;
}

eq_refl : (a : String) → str_eq a a ≡ true
eq_refl a = (eq_iff a a).1 refl

stored_is_read :
    (bucket key : String) (text : Text) (o : Objects)
    → (o' : Objects) × (tools.put_object bucket key text o ≡ returned o')
      × (tools.get_object bucket key o' ≡ returned text)
stored_is_read bucket key text o =
    ((bucket, key, text) ∷ o, refl, rw (eq_refl bucket, eq_refl key) refl)

run-Follows_example :
    Follows
      (validated_document ∷ [])
      (run tools extraction 1 (at validated_document [])).1.world.storage
run-Follows_example = run-Follows tools extraction 1 (at validated_document [])

-- The same services, with a store that cannot be read at the moment.
abbrev offline : Tools Objects ℕ ℕ
offline = record tools { get_object = λ bucket key objects. raised "ConnectionError" }

run_final_example :
    ((run tools extraction 1 (at validated_document [])).1 ≡ at validated_document [])
    ⊎ ((run offline extraction 1 (run tools extraction 1 (at validated_document [])).1).1
        ≡ (run tools extraction 1 (at validated_document [])).1)
run_final_example = run_final tools offline extraction 1 (at validated_document [])

abbrev rows : List (ChunkRow ℕ)
rows = record { document_id = 1; chunk = passage; document_title = "a.pdf"; embedding = none } ∷ []

abbrev chunked_document : Document
chunked_document = document 1 DocumentStatus.chunked public

embedded_live : (process_embed tools 1 (at chunked_document rows)).0.status ≡ DocumentStatus.live
unfolding process_embed
embedded_live = refl

found_chunked : get_by_id 1 (chunked_document ∷ []) ≡ some chunked_document
unfolding get_by_id
found_chunked = refl

live-HasVectors_example : HasVectors 1 (process_embed tools 1 (at chunked_document rows)).1.chunks
live-HasVectors_example =
    live-HasVectors tools 1 chunked_document (at chunked_document rows) found_chunked refl
      embedded_live

found_first : find_by_id 1 (validated_document ∷ []) ≡ some validated_document
unfolding find_by_id
found_first = refl

embeds_all :
    (texts : List Text)
    → (vs : List ℕ) × (tools.embed_document 1 texts ≡ vectors vs) × (length vs ≡ length texts)
embeds_all texts = (map (λ (x : Text). length x) texts, refl, lengths texts)
  where
    lengths : (texts : List Text) → length (map (λ (x : Text). length x) texts) ≡ length texts
    lengths [] = refl
    lengths (x ∷ texts) = omega (arith, lengths texts)

pipeline_reaches_live_example :
    (d : Document) × (find_by_id 1 (through tools 1 (at validated_document [])).world.storage
      ≡ some d)
    × (d.status ≡ DocumentStatus.live)
    × ((through tools 1 (at validated_document [])).world.new_jobs
        ≡ (1, JobStage.normalize) ∷ (1, JobStage.chunk) ∷ (1, JobStage.embed) ∷ [])
pipeline_reaches_live_example =
    pipeline_reaches_live tools 1 refl "raw/c0ffee.pdf" (97 ∷ []) extracted_text passage []
      validated_document (at validated_document []) stored_is_read embeds_all (λ _. refl)
      (λ _. refl) found_first refl refl refl refl (λ _. refl) refl refl refl refl refl
