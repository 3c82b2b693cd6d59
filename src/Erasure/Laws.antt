-- ===== src/Erasure/Laws.antt =====
-- What an erasure that succeeds leaves behind.
use a_pag_ai_knowledge_base.Prelude.{
  ℕ, String, ◌≡◌, refl, sym, subst, inl, inr, true, false, not, ◌&&◌, Bool-cases, Option-cases,
  Option, none, some, List, [], ◌∷◌, ◌≢◌, ◌∙◌, ==_iff, All-map, map, keep_if-true, any, All, ◌==◌,
  arith,
}
use a_pag_ai_knowledge_base.Documents.{Document}
use a_pag_ai_knowledge_base.Queue.{Job, is_running}
use a_pag_ai_knowledge_base.Upload.{concatenated, path_of, has_slash}
use a_pag_ai_knowledge_base.Upload.Keys.{has_slash-concatenated}
use a_pag_ai_knowledge_base.Erasure.Keys.{key_in-path_of, key_in-plain, is_empty-path_of}
use a_pag_ai_knowledge_base.Erasure.{
  State, Buckets, is_empty, erased, key_in, is_unfinished, fail_job, record_deletion, objects_of,
  delete_existing, delete_objects, finish, answer, erase_document,
}

-- The document has no pending and no running job.
abbrev pub IsOver : ℕ → List Job → Type 0
IsOver i = All (λ j. is_unfinished i j ≡ false)

fail_job-IsOver : (now i : ℕ) (jobs : List Job) → IsOver i (map (fail_job now i) jobs)
fail_job-IsOver now i [] = tt
fail_job-IsOver now i (j ∷ jobs) = (one, fail_job-IsOver now i jobs)
  where
    one : is_unfinished i (fail_job now i j) ≡ false
    one = ground arith

other_document : (i j : ℕ) → not (i == j) ≡ true → i ≢ j
other_document i j kept same = absurd (ground (arith, kept, (==_iff i j).1 same))

module _ {O : Type 0} (b : Buckets O) where
  -- The object behind a path, if there is a path, is gone.
  abbrev pub IsGone : O → String × Option String → Type 0
  IsGone o (bucket, none) = Unit
  IsGone o (bucket, some path) =
      is_empty path ≡ false → b.object_exists bucket (key_in bucket path) o ≡ false

  -- The object is absent, where there is a key.
  abbrev pub IsAbsent : String → Option String → O → Type 0
  IsAbsent bucket none o = Unit
  IsAbsent bucket (some key) o = b.object_exists bucket key o ≡ false

  -- The path under which an object is stored, where there is one.
  abbrev pub stored_at : String → Option String → Option String
  stored_at bucket none = none
  stored_at bucket (some key) = some (path_of bucket key)

  IsGone-IsAbsent :
      (bucket : String) (path key : Option String) (o : O)
      → has_slash bucket ≡ false
      → path ≡ stored_at bucket key
      → IsGone o (bucket, path)
      → IsAbsent bucket key o
  IsGone-IsAbsent bucket path none o plain same gone = tt
  IsGone-IsAbsent bucket path (some key) o plain same gone =
      subst (λ k. b.object_exists bucket k o ≡ false) (key_in-path_of bucket key plain)
        (subst (λ x. IsGone o (bucket, x)) same gone (is_empty-path_of bucket key))

  json_gone :
      (bucket : String) (i : ℕ) (o : O)
      → has_slash (b.str i) ≡ false
      → IsGone o (bucket, some (concatenated (b.str i) ".json"))
      → b.object_exists bucket (concatenated (b.str i) ".json") o ≡ false
  json_gone bucket i o plain gone =
      subst (λ k. b.object_exists bucket k o ≡ false)
        (key_in-plain bucket (concatenated (b.str i) ".json")
          (has_slash-concatenated (b.str i) ".json" ∙ rw plain refl))
        (gone (is_empty-concatenated (b.str i)))
    where
      is_empty-concatenated : (s : String) → is_empty (concatenated s ".json") ≡ false
      is_empty-concatenated String.[] = refl
      is_empty-concatenated (String.◌∷◌ c s) = refl

  module _
      (deletes : (bucket key : String) (o : O)
        → (b.delete_object bucket key o).0 ≡ true
        → b.object_exists bucket key (b.delete_object bucket key o).1 ≡ false)
      (keeps_gone : (bucket key bucket' key' : String) (o : O)
        → b.object_exists bucket key o ≡ false
        → b.object_exists bucket key (b.delete_object bucket' key' o).1 ≡ false) where
    delete_existing-gone :
        (bucket key : String) (o : O)
        → (delete_existing b bucket key o).0 ≡ true
        → b.object_exists bucket key (delete_existing b bucket key o).1 ≡ false
    delete_existing-gone bucket key o h = elim (Bool-cases (b.object_exists bucket key o)) [
      | inl there ↦ rw there (deletes bucket key o (ground (arith, there, h)))
      | inr gone ↦ rw gone gone
    ]

    delete_existing-keeps :
        (bucket key bucket' key' : String) (o : O)
        → b.object_exists bucket key o ≡ false
        → b.object_exists bucket key (delete_existing b bucket' key' o).1 ≡ false
    delete_existing-keeps bucket key bucket' key' o h =
        elim (Bool-cases (b.object_exists bucket' key' o)) [
          | inl there ↦ rw there (keeps_gone bucket key bucket' key' o h)
          | inr gone ↦ rw gone h
        ]

    delete_objects-keeps :
        (bucket key : String) (l : List (String × Option String)) (o : O)
        → b.object_exists bucket key o ≡ false
        → b.object_exists bucket key (delete_objects b l o).1 ≡ false
    unfolding delete_objects
    delete_objects-keeps bucket key [] o h = h
    delete_objects-keeps bucket key ((bucket', none) ∷ l) o h =
        delete_objects-keeps bucket key l o h
    delete_objects-keeps bucket key ((bucket', some path) ∷ l) o h =
        let d = delete_existing b bucket' (key_in bucket' path) o in
        let k = delete_existing-keeps bucket key bucket' (key_in bucket' path) o h in
        elim (Bool-cases (is_empty path)) [
          | inl empty ↦ simp empty (delete_objects-keeps bucket key l o h)
          | inr named ↦ elim (Bool-cases d.0) [
            | inl ok ↦ simp (named, ok) (delete_objects-keeps bucket key l d.1 k)
            | inr failed ↦ simp (named, failed) k
          ]
        ]

    delete_objects-IsGone :
        (l : List (String × Option String)) (o : O)
        → (delete_objects b l o).0 ≡ none
        → All (IsGone (delete_objects b l o).1) l
    unfolding delete_objects
    delete_objects-IsGone [] o h = tt
    delete_objects-IsGone ((bucket, none) ∷ l) o h = (tt, delete_objects-IsGone l o h)
    delete_objects-IsGone ((bucket, some path) ∷ l) o h =
        let d = delete_existing b bucket (key_in bucket path) o in
        elim (Bool-cases (is_empty path)) [
          | inl empty ↦
              let rest : (delete_objects b l o).0 ≡ none = simp empty at h in
              let same : (delete_objects b ((bucket, some path) ∷ l) o).1
                  ≡ (delete_objects b l o).1 =
                simp empty refl in
              subst (λ (x : O). All (IsGone x) ((bucket, some path) ∷ l)) (sym same)
                (λ named. absurd (cc (empty, named)), delete_objects-IsGone l o rest)
          | inr named ↦ elim (Bool-cases d.0) [
            | inl ok ↦
                let rest : (delete_objects b l d.1).0 ≡ none = simp (named, ok) at h in
                let same : (delete_objects b ((bucket, some path) ∷ l) o).1
                    ≡ (delete_objects b l d.1).1 =
                  simp (named, ok) refl in
                subst (λ (x : O). All (IsGone x) ((bucket, some path) ∷ l)) (sym same)
                  (
                    λ _.
                        delete_objects-keeps bucket (key_in bucket path) l d.1
                          (delete_existing-gone bucket (key_in bucket path) o ok),
                    delete_objects-IsGone l d.1 rest,
                  )
            | inr failed ↦ absurd (cc (simp (named, failed) at h))
          ]
        ]

    -- Before the passages go: the jobs are claimed, the entry recorded, the objects deleted.
    abbrev cleared : {V : Type 0} → ℕ → Document → State O V → State O V
    cleared now doc s =
        record (record_deletion false doc (record s {
          working = record s.working { jobs = map (fail_job now doc.id) s.working.jobs };
        })).1 { objects = (delete_objects b (objects_of b doc) s.objects).1 }

    erased_state :
        {V : Type 0} (now : ℕ) (doc : Document) (s : State O V)
        → (erase_document b now doc (record_deletion false doc) s).0 ≡ erased
        → ((erase_document b now doc (record_deletion false doc) s).1
            ≡ finish b now doc (cleared now doc s))
          × ((delete_objects b (objects_of b doc) s.objects).0 ≡ none)
    unfolding erase_document answer
    erased_state now doc s h =
        elim (Bool-cases
          (any (λ j. is_unfinished doc.id j && is_running j.status) s.working.jobs)) [
            | inl busy ↦ absurd (cc (simp busy at h))
            | inr idle ↦ elim (Option-cases (delete_objects b (objects_of b doc) s.objects).0) [
              | inl ok ↦ (simp (idle, ok) refl, ok)
              | inr (failed, e) ↦ absurd (cc (simp (idle, e) at h))
            ]
          ]

    -- Where a deletion that the store reports as done leaves no such object, and a deletion brings
    -- no object back, the names of the raw and quarantine buckets and the text of the id have no
    -- slash, the paths of the document, where it has them, are a bucket and a key joined by a
    -- slash, and the audit entry can be written, an erasure that answers erased leaves no pending
    -- or running job of the document, no passage of it, no object under its keys in the raw and
    -- quarantine buckets, and no object under its id with .json behind it in the extracted and
    -- normalized buckets.
    pub erase_complete :
        {V : Type 0} (now : ℕ) (doc : Document) (raw_key quarantine_key : Option String)
        (s : State O V)
        → has_slash b.raw ≡ false
        → has_slash b.quarantine ≡ false
        → has_slash (b.str doc.id) ≡ false
        → doc.raw_path ≡ stored_at b.raw raw_key
        → doc.quarantine_path ≡ stored_at b.quarantine quarantine_key
        → (erase_document b now doc (record_deletion false doc) s).0 ≡ erased
        → let after = (erase_document b now doc (record_deletion false doc) s).1 in
          IsOver doc.id after.committed.jobs
          × All (λ c. c.document_id ≢ doc.id) after.committed.chunks
          × IsAbsent b.raw raw_key after.objects
          × IsAbsent b.quarantine quarantine_key after.objects
          × (b.object_exists b.extracted (concatenated (b.str doc.id) ".json") after.objects
              ≡ false)
          × (b.object_exists b.normalized (concatenated (b.str doc.id) ".json") after.objects
              ≡ false)
    unfolding finish
    erase_complete {V} now doc raw_key quarantine_key s plain_raw plain_quarantine plain_id raw_at
          quarantine_at h =
        let (end, ok) = erased_state now doc s h in
        let gone = delete_objects-IsGone (objects_of b doc) s.objects ok in
        subst
          (λ (after : State O V).
            IsOver doc.id after.committed.jobs
            × All (λ c. c.document_id ≢ doc.id) after.committed.chunks
            × IsAbsent b.raw raw_key after.objects
            × IsAbsent b.quarantine quarantine_key after.objects
            × (b.object_exists b.extracted (concatenated (b.str doc.id) ".json") after.objects
                ≡ false)
            × (b.object_exists b.normalized (concatenated (b.str doc.id) ".json") after.objects
                ≡ false))
          (sym end)
          (
            fail_job-IsOver now doc.id s.working.jobs,
            All-map (λ c kept. other_document c.document_id doc.id kept) _
                (keep_if-true (λ c. not (c.document_id == doc.id)) s.working.chunks),
            IsGone-IsAbsent b.raw doc.raw_path raw_key _ plain_raw raw_at gone.0,
            IsGone-IsAbsent b.quarantine doc.quarantine_path quarantine_key _ plain_quarantine
                quarantine_at gone.1.0,
            json_gone b.extracted doc.id _ plain_id gone.1.1.0,
            json_gone b.normalized doc.id _ plain_id gone.1.1.1.0,
          )
