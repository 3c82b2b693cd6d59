-- ===== src/Repository/Lookup.antt =====
-- Reads after writes, and the tier of a document, which only `set_classification` changes.
use mathlib.Core.Option
use a_pag_ai_knowledge_base.Prelude.{
  ℕ, String, ◌≡◌, refl, ap, Option, some, [], ◌∷◌, arith, ◌==◌, ==_refl, ◌∙◌, if◌then◌else◌,
}
use a_pag_ai_knowledge_base.Documents.{Document}
use a_pag_ai_knowledge_base.Repository.{
  Storage, find_by_id, put, get_by_id, update_document, set_classification,
}

pub find_by_id-put :
    (d : Document) (s : Storage) (i : ℕ)
    → find_by_id i (put d s) ≡ (if d.id == i then some d else find_by_id i s)
unfolding find_by_id put
find_by_id-put d [] i = refl
find_by_id-put d (e ∷ s) i = ground (arith, find_by_id-put d s i)

-- What is found under an id carries that id.
pub find_by_id-id : (i : ℕ) (s : Storage) (d : Document) → find_by_id i s ≡ some d → d.id ≡ i
unfolding find_by_id
find_by_id-id i [] d h = cc
find_by_id-id i (e ∷ s) d h = ground (arith, find_by_id-id i s d)

abbrev pub tier_of : Option Document → Option (Option String)
tier_of = Option.map (λ d. d.classification)

-- Writing back the document of a stored id leaves the tier of every document as it is stored,
-- whatever tier the written copy carries.
pub update_document-tier :
    (now : ℕ) (doc stored : Document) (s : Storage) (i : ℕ)
    → get_by_id doc.id s ≡ some stored
    → tier_of (get_by_id i (update_document now doc s).1) ≡ tier_of (get_by_id i s)
unfolding update_document get_by_id
update_document-tier now doc stored s i h =
    rw h (rw find_by_id-put (ground (arith, ap (λ (o : Option Document). tier_of o) h)))

-- Setting the tier of a stored document changes the tier of that document to the one given, and the
-- tier of no other.
pub set_classification-tier :
    (now : ℕ) (c : String) (doc_id : ℕ) (stored : Document) (s : Storage) (i : ℕ)
    → get_by_id doc_id s ≡ some stored
    → tier_of (get_by_id i (set_classification now doc_id c s).1)
      ≡ (if doc_id == i then some (some c) else tier_of (get_by_id i s))
unfolding set_classification get_by_id
set_classification-tier now c doc_id stored s i h =
    rw h (rw find_by_id-put (ground (arith, find_by_id-id doc_id s stored h)))

reclassified_found :
    (now : ℕ) (c : String) (doc_id : ℕ) (stored : Document) (s : Storage)
    → get_by_id doc_id s ≡ some stored
    → get_by_id doc_id (set_classification now doc_id c s).1
      ≡ some (record stored { classification = some c; updated_at = now })
unfolding set_classification get_by_id
reclassified_found now c doc_id stored s h =
    rw h (rw find_by_id-put (ground (arith, find_by_id-id doc_id s stored h)))

-- A reclassification of a stored document survives the write-back of an older copy of it.
pub reclassified_mid_stage :
    (now later : ℕ) (c : String) (doc stored : Document) (s : Storage)
    → get_by_id doc.id s ≡ some stored
    → tier_of (get_by_id doc.id (update_document later doc (set_classification now doc.id c s).1).1)
      ≡ some (some c)
reclassified_mid_stage now later c doc stored s h =
    let tiered = record stored { classification = some c; updated_at = now } in
    update_document-tier later doc tiered (set_classification now doc.id c s).1 doc.id
      (reclassified_found now c doc.id stored s h)
    ∙ set_classification-tier now c doc.id stored s doc.id h
    ∙ rw ==_refl
