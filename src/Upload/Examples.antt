-- ===== src/Upload/Examples.antt =====
-- One upload into an empty store.
use a_pag_ai_knowledge_base.Prelude.{
  String, ◌≡◌, refl, ap, sym, ◌∙◌, true, false, ◌&&◌, Option, none, some, [], ◌∷◌, Text, codes,
  str_eq, eq_iff, if◌then◌else◌,
}
use a_pag_ai_knowledge_base.Access.{restricted}
use a_pag_ai_knowledge_base.Documents.{Document, DocumentStatus, JobStage}
use a_pag_ai_knowledge_base.Repository.{find_by_id}
use a_pag_ai_knowledge_base.Scan.{World}
use a_pag_ai_knowledge_base.Stages.{Fallible, raised, returned}
use a_pag_ai_knowledge_base.Upload.{Service, UploadMeta, receive, quarantine_key_for}
use a_pag_ai_knowledge_base.Upload.Keys.{receive_readable}

-- The object that was written last.
abbrev pub Last : Type 0
Last = Option (String × String × Text)

abbrev get_object : String → String → Last → Fallible Text
get_object bucket key none = raised "NoSuchKey"
get_object bucket key (some o) =
    if str_eq o.0 bucket && str_eq o.1 key then returned o.2 else raised "NoSuchKey"

abbrev pub service : Service Last
service = record {
  quarantine = "quarantine";
  put_object = λ bucket key text _. returned (some (bucket, key, text));
  str = λ _. "1f0e";
  format_extension = λ _. none;
  pdf_extension = ".pdf";
  has_db = true;
  audit_fails = λ _. false;
  now = 3;
}

eq_refl : (a : String) → str_eq a a ≡ true
eq_refl a = (eq_iff a a).1 refl

abbrev read_from : String → String → Fallible Last → Fallible Text
read_from bucket key (raised e) = raised e
read_from bucket key (returned o) = get_object bucket key o

stored_is_read :
    (bucket key : String) (text : Text) (o o' : Last)
    → service.put_object bucket key text o ≡ returned o'
    → get_object bucket key o' ≡ returned text
stored_is_read bucket key text o o' h =
    sym (ap (read_from bucket key) h) ∙ rw (eq_refl bucket, eq_refl key) refl

abbrev meta : UploadMeta
meta = record {
  classification = restricted;
  owner_id = some 7;
  title = none;
  description = none;
  document_date = none;
  upload_batch_id = none;
}

abbrev empty : World Last
empty = record { storage = []; objects = none; audit_log = []; new_jobs = [] }

receive_readable_example :
    (s' : World Last) × (doc : Document) × (receive service 1 "a.pdf"
        (codes "%PDF")
        meta
        "application/pdf"
        empty
      ≡ returned s')
    × (find_by_id 1 s'.storage ≡ some doc)
    × (doc.status ≡ DocumentStatus.quarantined)
    × (doc.classification ≡ some restricted)
    × (get_object "quarantine" (quarantine_key_for service doc) s'.objects
        ≡ returned (codes "%PDF"))
    × (s'.new_jobs ≡ (1, JobStage.scan) ∷ [])
receive_readable_example =
    receive_readable service get_object stored_is_read (λ _. refl) (λ _. refl) 1 "a.pdf"
      (codes "%PDF") meta "application/pdf" empty (some ("quarantine", "1f0e.pdf", codes "%PDF"))
      refl refl
