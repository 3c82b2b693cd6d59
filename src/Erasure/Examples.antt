-- ===== src/Erasure/Examples.antt =====
-- A document with a stored file, a pending job and a passage, on a store that deletes and on one that
-- refuses to.
use a_pag_ai_knowledge_base.Prelude.{
  ℕ, String, ◌≡◌, refl, Bool, true, false, not, ◌&&◌, none, some, All, ◌≢◌, List, [], ◌∷◌, keep_if,
  any, str_eq, arith,
}
use a_pag_ai_knowledge_base.Access.{public}
use a_pag_ai_knowledge_base.Documents.{Document, DocumentStatus, JobStage, JobStatus}
use a_pag_ai_knowledge_base.Repository.Examples.{document}
use a_pag_ai_knowledge_base.Queue.{Job}
use a_pag_ai_knowledge_base.Stages.{ChunkRow}
use a_pag_ai_knowledge_base.Erasure.{
  Tables, State, Buckets, erased, record_deletion, erase_document,
}
use a_pag_ai_knowledge_base.Erasure.Laws.{IsOver, erase_complete}

abbrev Objects : Type 0
Objects = List (String × String)

abbrev is_object : String → String → String × String → Bool
is_object bucket key o = str_eq o.0 bucket && str_eq o.1 key

abbrev store : Buckets Objects
store = record {
  raw = "raw";
  quarantine = "quarantine";
  extracted = "extracted";
  normalized = "normalized";
  object_exists = λ bucket key l. any (is_object bucket key) l;
  delete_object = λ bucket key l. (true, keep_if (λ o. not (is_object bucket key o)) l);
  str = λ _. "1";
}

abbrev refusing : Buckets Objects
refusing = record store { delete_object = λ bucket key l. (false, l) }

any_kept :
    (test : String × String → Bool) (l : Objects) → any test (keep_if (λ o. not (test o)) l) ≡ false
any_kept test [] = refl
any_kept test (o ∷ l) = ground (arith, any_kept test l)

any-keep_if :
    (test kept : String × String → Bool) (l : Objects)
    → any test l ≡ false
    → any test (keep_if kept l) ≡ false
any-keep_if test kept [] h = refl
any-keep_if test kept (o ∷ l) h = ground (arith, any-keep_if test kept l, h)

abbrev doc : Document
doc = record (document 1 DocumentStatus.live public) { raw_path = some "raw/c0ffee.pdf" }

abbrev job : Job
job = record {
  job_id = 4;
  document_id = 1;
  stage = JobStage.embed;
  status = JobStatus.pending;
  priority = 0;
  retry_count = 0;
  scheduled_at = 0;
  started_at = none;
  finished_at = none;
  worker_id = none;
  lease_expires_at = none;
  error_message = none;
}

abbrev passage : ChunkRow ℕ
passage = record {
  document_id = 1;
  chunk = record {
    index = 0;
    text = 97 ∷ [];
    page_number = none;
    section_heading = none;
    is_table = false;
    scale = "section";
  };
  document_title = "a";
  embedding = none;
}

abbrev tables : Tables ℕ
tables = record { jobs = job ∷ []; chunks = passage ∷ []; audit_log = [] }

abbrev before : State Objects ℕ
before = record {
  committed = tables;
  working = tables;
  storage = doc ∷ [];
  objects = ("raw", "c0ffee.pdf") ∷ ("raw", "other.pdf") ∷ [];
}

answers_erased : (erase_document store 9 doc (record_deletion false doc) before).0 ≡ erased
unfolding erase_document
answers_erased = refl

erase_complete_example :
    let after = (erase_document store 9 doc (record_deletion false doc) before).1 in
    IsOver 1 after.committed.jobs
    × All (λ c. c.document_id ≢ 1) after.committed.chunks
    × (store.object_exists "raw" "c0ffee.pdf" after.objects ≡ false)
    × Unit {0}
    × (store.object_exists "extracted" "1.json" after.objects ≡ false)
    × (store.object_exists "normalized" "1.json" after.objects ≡ false)
erase_complete_example =
    erase_complete store (λ bucket key o _. any_kept (is_object bucket key) o)
      (λ bucket key bucket' key' o h.
        any-keep_if (is_object bucket key) (λ x. not (is_object bucket' key' x)) o h)
      9 doc (some "c0ffee.pdf") none before refl refl refl refl refl answers_erased
