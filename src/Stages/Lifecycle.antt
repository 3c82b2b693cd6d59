-- ===== src/Stages/Lifecycle.antt =====
-- The life of a document behind the scan, with the code left out: the states, and the edges that the
-- stages may follow.
use a_pag_ai_knowledge_base.Prelude.{
  ℕ, ◌≡◌, refl, inl, inr, true, false, Bool-cases, Option-cases, Option, none, some, arith, ◌==◌,
}
use a_pag_ai_knowledge_base.Documents.{Document, DocumentStatus, same_status}
use a_pag_ai_knowledge_base.Repository.{Storage, find_by_id, update_document}
use a_pag_ai_knowledge_base.Repository.Lookup.{find_by_id-put}

infix 40 ◌⟶◌ ◌⟶*◌
pub data ◌⟶◌ : DocumentStatus → DocumentStatus → Type 0 where
  extracts : DocumentStatus.validated ⟶ DocumentStatus.extracted
  fails_extraction : DocumentStatus.validated ⟶ DocumentStatus.extraction_failed
  normalizes : DocumentStatus.extracted ⟶ DocumentStatus.awaiting_classification
  fails_normalization : DocumentStatus.extracted ⟶ DocumentStatus.normalization_failed
  chunks : DocumentStatus.awaiting_classification ⟶ DocumentStatus.chunked
  fails_chunking : DocumentStatus.awaiting_classification ⟶ DocumentStatus.chunking_failed
  embeds : DocumentStatus.chunked ⟶ DocumentStatus.live
  fails_embedding : DocumentStatus.chunked ⟶ DocumentStatus.embedding_failed
  skips : DocumentStatus.chunked ⟶ DocumentStatus.skipped_unsupported_language

pub data ◌⟶*◌ : DocumentStatus → DocumentStatus → Type 0 where
  here : {a : DocumentStatus} → a ⟶* a
  then : {a b c : DocumentStatus} → a ⟶* b → b ⟶ c → a ⟶* c

-- An edge leads elsewhere.
pub ⟶-moves : (a b : DocumentStatus) → a ⟶ b → same_status b a ≡ false
⟶-moves a b extracts = refl
⟶-moves a b fails_extraction = refl
⟶-moves a b normalizes = refl
⟶-moves a b fails_normalization = refl
⟶-moves a b chunks = refl
⟶-moves a b fails_chunking = refl
⟶-moves a b embeds = refl
⟶-moves a b fails_embedding = refl
⟶-moves a b skips = refl

pub ⟶*-trans : {a b c : DocumentStatus} → a ⟶* b → b ⟶* c → a ⟶* c
⟶*-trans p here = p
⟶*-trans p (then q e) = then (⟶*-trans p q) e

-- Every document of `s` is in `t` under its id, further along its life or where it was.
abbrev pub Follows : Storage → Storage → Type 0
Follows s t =
    (i : ℕ) (d : Document)
    → find_by_id i s ≡ some d
    → (k : Document) × (find_by_id i t ≡ some k) × (d.status ⟶* k.status)

pub Follows-refl : (s : Storage) → Follows s s
Follows-refl s i d h = (d, h, here)

pub Follows-trans : (s t u : Storage) → Follows s t → Follows t u → Follows s u
Follows-trans s t u h k i d found =
    let (d', found', along) = h i d found in
    let (d'', found'', along') = k i d' found' in (d'', found'', ⟶*-trans along along')

-- The document found after a write of `k`.
abbrev pub written : ℕ → Document → Option Document → Document
written now k none = record k { updated_at = now }
written now k (some stored) = record k { updated_at = now; classification = stored.classification }

pub update_document-found :
    (now : ℕ) (k : Document) (s : Storage) (i : ℕ)
    → find_by_id i (update_document now k s).1 ≡ elim (k.id == i) [
      | true ↦ some (written now k (find_by_id k.id s))
      | false ↦ find_by_id i s
    ]
unfolding update_document
update_document-found now k s i = elim (Option-cases (find_by_id k.id s)) [
  | inl e ↦ rw (e, find_by_id-put) (ground arith)
  | inr (stored, e) ↦ rw (e, find_by_id-put) (ground arith)
]

pub written-status :
    (now : ℕ) (k : Document) (o : Option Document) → (written now k o).status ≡ k.status
written-status now k none = refl
written-status now k (some stored) = refl

-- Writing back the stored document `d` in its next state.
pub update_document-Follows :
    (now : ℕ) (d k : Document) (s : Storage)
    → find_by_id d.id s ≡ some d
    → k.id ≡ d.id
    → d.status ⟶ k.status
    → Follows s (update_document now k s).1
update_document-Follows now d k s stored same edge i x found = elim (Bool-cases (k.id == i)) [
  | inr e ↦ (x, rw (update_document-found, e) found, here)
  | inl e ↦
      let is_d : x ≡ d = ground (arith, e, same, stored, found) in
      (
        written now k (find_by_id k.id s),
        rw (update_document-found, e),
        rw (is_d, written-status now k (find_by_id k.id s)) (then here edge),
      )
]
