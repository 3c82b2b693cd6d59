-- ===== src/Repository/Examples.antt =====
-- The repository's operations on a small storage.
use mathlib.Core.List.{Perm}
use a_pag_ai_knowledge_base.Prelude.{
  ℕ, ◌≡◌, refl, String, true, false, none, some, [], ◌∷◌, All, keep_if,
}
use a_pag_ai_knowledge_base.Access.{public, restricted, can_view}
use a_pag_ai_knowledge_base.Documents.{Document, DocumentStatus, live, duplicate}
use a_pag_ai_knowledge_base.Repository.{
  Storage, get_by_id, find_by_id, soft_delete, purge, list_paginated,
}
use a_pag_ai_knowledge_base.Repository.Listing.{IsNewestFirst, list_paginated-safe}

abbrev pub document : ℕ → DocumentStatus → String → Document
document id status tier = record {
  id = id;
  filename = "a.pdf";
  owner_id = some 7;
  title = none;
  description = none;
  mime_type = "application/pdf";
  page_count = none;
  extraction_method = none;
  upload_batch_id = none;
  size = 12;
  checksum = some "c0ffee";
  status = status;
  classification = some tier;
  document_date = none;
  version = 1;
  supersedes_id = none;
  quarantine_path = none;
  raw_path = none;
  rejection_reason = none;
  created_at = id;
  updated_at = 5;
  deleted_at = none;
  purged_at = none;
}

abbrev first : Document
first = document 1 live public

abbrev second : Document
second = document 2 live restricted

abbrev copy : Document
copy = document 3 duplicate public

abbrev storage : Storage
storage = first ∷ second ∷ copy ∷ []

found : get_by_id 1 storage ≡ some first
unfolding get_by_id find_by_id
found = refl

deleted : (soft_delete 9 2 storage).0 ≡ true
unfolding soft_delete
deleted = refl

purged : (purge 9 2 storage).0 ≡ true
unfolding purge
purged = refl

list_paginated-safe_example :
    All
      (λ d. (d.deleted_at ≡ none) × (can_view d.classification d.owner_id none false ≡ true))
      (list_paginated 2 0 none false storage).0
    × IsNewestFirst (λ d. d.created_at) (list_paginated 2 0 none false storage).0
    × Perm (list_paginated (list_paginated 2 0 none false storage).1 0 none false storage).0 (
        keep_if
          (λ d. elim d.deleted_at [
            | none ↦ can_view d.classification d.owner_id none false
            | some t ↦ false
          ])
          storage)
list_paginated-safe_example = list_paginated-safe none false 2 0 storage
