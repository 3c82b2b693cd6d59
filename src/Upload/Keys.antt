-- ===== src/Upload/Keys.antt =====
-- What the upload stores is what the scan stage reads.
use a_pag_ai_knowledge_base.Prelude.{
  ℕ, String, ◌≡◌, refl, ap, ◌∙◌, Bool, true, false, ◌||◌, some, [], ◌∷◌, ◌++◌, Text, arith, ==_refl,
  length,
}
use a_pag_ai_knowledge_base.Documents.{Document, DocumentStatus, JobStage}
use a_pag_ai_knowledge_base.Repository.{Storage, find_by_id, create, put}
use a_pag_ai_knowledge_base.Repository.Lookup.{find_by_id-put}
use a_pag_ai_knowledge_base.Scan.{World}
use a_pag_ai_knowledge_base.Stages.{Fallible, returned}
use a_pag_ai_knowledge_base.Upload.{
  concatenated, path_of, has_slash, last_segment, UploadMeta, Service, extension_for,
  build_quarantine_key, quarantine_key_for, received_document, register, receive, key_or,
}

pub has_slash-concatenated :
    (s t : String) → has_slash (concatenated s t) ≡ (has_slash s || has_slash t)
has_slash-concatenated String.[] t = refl
has_slash-concatenated (String.◌∷◌ c s) t = ground (arith, has_slash-concatenated s t)

or_true : (x : Bool) → (x || true) ≡ true
or_true x = ground arith

last_segment-path_of :
    (bucket key : String) → has_slash key ≡ false → last_segment (path_of bucket key) ≡ key
last_segment-path_of String.[] key h = rw h refl
last_segment-path_of (String.◌∷◌ c bucket) key h =
    let slash : has_slash (path_of bucket key) ≡ true =
      has_slash-concatenated bucket (concatenated "/" key) ∙ or_true (has_slash bucket) in
    rw slash (last_segment-path_of bucket key h)

module _ {O : Type 0} (v : Service O) where
  key_or-path_of :
      (bucket key other : String)
      → has_slash key ≡ false
      → key_or v (some (path_of bucket key)) other ≡ key
  key_or-path_of String.[] key other h = last_segment-path_of String.[] key h
  key_or-path_of (String.◌∷◌ c bucket) key other h =
      last_segment-path_of (String.◌∷◌ c bucket) key h

  register-rest :
      (i : ℕ) (filename : String) (content : Text) (meta : UploadMeta) (mime_type : String)
      (objects : O) (s : World O)
      → v.has_db ≡ true
      → ((register v i filename content meta mime_type objects s).storage
          ≡ put (received_document v i filename (length content) meta mime_type) s.storage)
        × ((register v i filename content meta mime_type objects s).objects ≡ objects)
        × ((register v i filename content meta mime_type objects s).new_jobs
            ≡ s.new_jobs ++ (i, JobStage.scan) ∷ [])
  unfolding register create
  register-rest i filename content meta mime_type objects s db = ground (arith, db)

  -- Where the store gives back what it has taken, neither the text of an id nor an extension has a
  -- slash, there is a database and the store takes the bytes, an upload returns, leaves the
  -- document QUARANTINED with the tier of the request and one SCAN job for it, and the bytes read
  -- from quarantine under the key that the scan stage derives from the stored document are those
  -- received.
  pub receive_readable :
      (get_object : String → String → O → Fallible Text)
      (stored_is_read : (bucket key : String) (text : Text) (o o' : O)
        → v.put_object bucket key text o ≡ returned o'
        → get_object bucket key o' ≡ returned text)
      (plain_ids : (i : ℕ) → has_slash (v.str i) ≡ false)
      (plain_extensions : (mime : String) → has_slash (extension_for v mime) ≡ false) (i : ℕ)
      (filename : String) (content : Text) (meta : UploadMeta) (mime_type : String) (s : World O)
      (objects : O)
      → v.has_db ≡ true
      → v.put_object v.quarantine (build_quarantine_key v i mime_type) content s.objects
        ≡ returned objects
      → (s' : World O) × (doc : Document) × (receive v i filename content meta mime_type s
          ≡ returned s')
        × (find_by_id i s'.storage ≡ some doc)
        × (doc.status ≡ DocumentStatus.quarantined)
        × (doc.classification ≡ some meta.classification)
        × (get_object v.quarantine (quarantine_key_for v doc) s'.objects ≡ returned content)
        × (s'.new_jobs ≡ s.new_jobs ++ (i, JobStage.scan) ∷ [])
  unfolding receive
  receive_readable get_object stored_is_read plain_ids plain_extensions i filename content meta
        mime_type s objects db put_ok =
      let key = build_quarantine_key v i mime_type in
      let doc = received_document v i filename (length content) meta mime_type in
      let s' = register v i filename content meta mime_type objects s in
      let (its_storage, its_objects, its_jobs) =
        register-rest i filename content meta mime_type objects s db in
      let plain : has_slash key ≡ false =
        has_slash-concatenated (v.str i) (extension_for v mime_type)
        ∙ rw (plain_ids i) (plain_extensions mime_type) in
      let same : quarantine_key_for v doc ≡ key = key_or-path_of v.quarantine key key plain in
      let stored : find_by_id i s'.storage ≡ some doc =
        ap (λ (l : Storage). find_by_id i l) its_storage
        ∙ find_by_id-put doc s.storage i
        ∙ rw (==_refl i) refl in
      let read : get_object v.quarantine (quarantine_key_for v doc) s'.objects ≡ returned content =
        ap (λ (k : String). get_object v.quarantine k s'.objects) same
        ∙ ap (λ (o : O). get_object v.quarantine key o) its_objects
        ∙ stored_is_read v.quarantine key content s.objects objects put_ok in
      (s', doc, rw (put_ok, receive) refl, stored, refl, refl, read, its_jobs)
