-- ===== src/Scan/Escalation.antt =====
-- What the document that a copy duplicates gets from the copy's tier.
use a_pag_ai_knowledge_base.Prelude.{
  ℕ, ◌≤◌, ◌≡◌, String, Bool-cases, inl, inr, false, Option, none, some, arith, tests,
}
use a_pag_ai_knowledge_base.Access.{tier_rank, is_stricter}
use a_pag_ai_knowledge_base.Documents.{Document, DocumentStatus}
use a_pag_ai_knowledge_base.Repository.{find_by_id, set_classification}
use a_pag_ai_knowledge_base.Repository.Lookup.{find_by_id-put}
use a_pag_ai_knowledge_base.Scan.{World, Services, escalate_tier_if_stricter}
use a_pag_ai_knowledge_base.Scan.Tiers.{audit-storage, update_document-Keeps}
use a_pag_ai_knowledge_base.Scan.Process.{drop_duplicate}

no_tier : (o : Option String) → tier_rank none ≤ tier_rank o
unfolding tier_rank
no_tier o = ground arith

not_stricter :
    (c : String) (o : Option String)
    → is_stricter (some c) o ≡ false
    → tier_rank (some c) ≤ tier_rank o
unfolding is_stricter
not_stricter c o s = omega (tests, s)

module _ {O : Type 0} (e : Services O) where
  escalated_tier :
      (canonical : Document) (incoming : Option String) (i : ℕ) (sha256 : String) (w : World O)
      → find_by_id canonical.id w.storage ≡ some canonical
      → (k : Document) × (find_by_id canonical.id
            (escalate_tier_if_stricter e canonical incoming i sha256 w).1.storage
          ≡ some k)
        × (tier_rank incoming ≤ tier_rank k.classification)
  unfolding escalate_tier_if_stricter set_classification
  escalated_tier canonical none i sha256 w h = (canonical, h, no_tier canonical.classification)
  escalated_tier canonical (some c) i sha256 w h =
      elim (Bool-cases (is_stricter (some c) canonical.classification)) [
        | inl s ↦
            rw (s, audit-storage, h)
              (
                record canonical { classification = some c; updated_at = e.now },
                rw find_by_id-put (ground arith),
                omega arith,
              )
        | inr s ↦ rw s (canonical, h, not_stricter c canonical.classification s)
      ]

  -- When the document that a copy duplicates is stored, dropping the copy leaves it stored with a
  -- tier at least as strict as that of the copy.
  pub drop_duplicate-tier :
      (doc : Document) (key sha256 : String) (existing : Document) (w : World O)
      → find_by_id existing.id w.storage ≡ some existing
      → (k : Document) × (find_by_id existing.id
            (drop_duplicate e doc key sha256 existing w).1.storage
          ≡ some k)
        × (tier_rank doc.classification ≤ tier_rank k.classification)
  drop_duplicate-tier doc key sha256 existing w h =
      let raised = (escalate_tier_if_stricter e existing doc.classification doc.id sha256 w).1 in
      let (d, found, le) = escalated_tier existing doc.classification doc.id sha256 w h in
      let (k, found', le') =
        update_document-Keeps e.now
          (record doc { status = DocumentStatus.duplicate; quarantine_path = none }) raised.storage
          existing.id d found in
      (k, rw audit-storage found', omega (arith, le, le'))
