-- ===== src/Erasure/Failure.antt =====
-- What an erasure that ends with an exception leaves behind.
use a_pag_ai_knowledge_base.Prelude.{
  ℕ, ◌≡◌, ◌&&◌, List, [], ◌∷◌, ◌++◌, Bool, if◌then◌else◌, map, any, ◌==◌,
}
use a_pag_ai_knowledge_base.Documents.{Document, AuditEventType}
use a_pag_ai_knowledge_base.Queue.{Job, is_running}
use a_pag_ai_knowledge_base.Erasure.{
  State, Tables, Buckets, fail_job, record_deletion, objects_of, delete_objects,
}

module _ {O : Type 0} (b : Buckets O) where
  -- What the route commits before the objects are deleted, where the document is not being processed
  -- and the audit entry can be written.
  abbrev pub committed_by : {V : Type 0} → Bool → ℕ → Document → State O V → Tables V
  committed_by kept now doc s = if kept then s.committed else record s.working {
    jobs = map (fail_job now doc.id) s.working.jobs;
    audit_log = s.working.audit_log ++ (doc.id, AuditEventType.document_deleted) ∷ [];
  }

  abbrev pub has_running_job : ℕ → List Job → Bool
  has_running_job document_id jobs =
      any (λ (j : Job). j.document_id == document_id && is_running j.status) jobs

  -- The documents are those of `s`, nothing is left uncommitted, and this is committed.
  abbrev IsKept : {V : Type 0} → ℕ → Document → State O V → Bool → State O V → Type 0
  IsKept now doc s kept after =
      (after.storage ≡ s.storage)
      × (after.working ≡ after.committed)
      × (after.committed ≡ committed_by kept now doc s)

  -- What is handed to the loop over the objects, and what it leaves.
  abbrev claimed : {V : Type 0} → ℕ → Document → Bool → State O V → Bool × State O V
  claimed now doc audit_fails s =
      record_deletion audit_fails doc (record s {
        working = record s.working { jobs = map (fail_job now doc.id) s.working.jobs };
      })

  abbrev behind_loop : {V : Type 0} → ℕ → Document → Bool → State O V → State O V
  behind_loop now doc audit_fails s = record (claimed now doc audit_fails s).1 {
    objects = (delete_objects b (objects_of b doc) (claimed now doc audit_fails s).1.objects).1;
  }
