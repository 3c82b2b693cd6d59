-- ===== src/Repository.antt =====
-- `InMemoryDocumentRepository` of src/modules/document_pipeline/repository.py.
-- The dictionary `_storage` is the list of its values in insertion order, each under its own id.
-- A time that the source reads from the clock is the argument `now`.
pub mod Listing
pub mod Lookup
pub mod Deletion
pub mod Examples
use a_pag_ai_knowledge_base.Prelude.{
  ℕ, zero, ◌+◌, String, ◌≡◌, Bool, true, false, not, ◌&&◌, ◌||◌, Option, none, some, List, [], ◌∷◌,
  ◌++◌, map, length, take, drop, keep_if, str_eq, ltb, leb, ◌==◌, if◌then◌else◌, is_some, min, max,
}
use a_pag_ai_knowledge_base.Access.{can_view, owns, names}
use a_pag_ai_knowledge_base.Documents.{
  Document, DocumentStatus, is_not_a_copy_source, is_duplicate, is_superseded,
}

abbrev pub Storage : Type 0
Storage = List Document

-- `self._storage.get(doc_id)`
unfoldable pub find_by_id : ℕ → Storage → Option Document
find_by_id doc_id [] = none
find_by_id doc_id (d ∷ s) =
    let rest = find_by_id doc_id s in if d.id == doc_id then some d else rest

-- `self._storage[doc.id] = doc`: a key keeps its place, a new one goes to the end.
unfoldable pub put : Document → Storage → Storage
put doc [] = doc ∷ []
put doc (d ∷ s) = let rest = put doc s in if d.id == doc.id then doc ∷ s else d ∷ rest

unfoldable pub create : Document → Storage → Document × Storage
create doc s = (doc, put doc s)

unfoldable pub get_by_id : ℕ → Storage → Option Document
unfolding find_by_id
get_by_id = find_by_id

-- `doc.checksum == checksum and doc.status not in [...]`
abbrev pub is_copy_source : String → Document → Bool
is_copy_source checksum doc = names doc.checksum checksum && not (is_not_a_copy_source doc.status)

unfoldable pub get_by_checksum : String → Storage → Option Document
get_by_checksum checksum [] = none
get_by_checksum checksum (d ∷ s) =
    let rest = get_by_checksum checksum s in if is_copy_source checksum d then some d else rest

-- The stored tier wins over the one that the caller carries.
abbrev pub saved_over : Option Document → Document → Document
saved_over none doc = doc
saved_over (some stored) doc = record doc { classification = stored.classification }

unfoldable pub update_document : ℕ → Document → Storage → Document × Storage
unfolding put find_by_id
update_document now doc s =
    let saved = saved_over (find_by_id doc.id s) (record doc { updated_at = now }) in
    (saved, put saved s)

abbrev reclassify : ℕ → String → Option Document → Storage → Option Document × Storage
reclassify now classification none s = (none, s)
reclassify now classification (some stored) s =
    let stored' = record stored { classification = some classification; updated_at = now } in
    (some stored', put stored' s)

unfoldable pub set_classification : ℕ → ℕ → String → Storage → Option Document × Storage
unfolding put find_by_id
set_classification now doc_id classification s =
    reclassify now classification (find_by_id doc_id s) s

-- `sorted(..., key=key, reverse=True)`: largest key first, equal keys in their old order.
insert_by : (Document → ℕ) → Document → List Document → List Document
insert_by key d [] = d ∷ []
insert_by key d (e ∷ l) =
    let rest = insert_by key d l in if leb (key e) (key d) then d ∷ e ∷ l else e ∷ rest

unfoldable pub sort_newest : (Document → ℕ) → List Document → List Document
unfolding insert_by
sort_newest key [] = []
sort_newest key (d ∷ l) = insert_by key d (sort_newest key l)

abbrev pub is_listed : Option ℕ → Bool → Document → Bool
is_listed viewer_id viewer_is_admin d =
    not (is_some d.deleted_at) && can_view d.classification d.owner_id viewer_id viewer_is_admin

-- `docs[offset : offset + limit]`
abbrev pub page_of : ℕ → ℕ → List Document → List Document
page_of limit offset docs = take limit (drop offset docs)

-- The arguments: limit, offset, viewer_id, viewer_is_admin.
unfoldable pub list_paginated : ℕ → ℕ → Option ℕ → Bool → Storage → List Document × ℕ
unfolding sort_newest
list_paginated limit offset viewer_id viewer_is_admin s =
    let docs = sort_newest (λ d. d.created_at) (keep_if (is_listed viewer_id viewer_is_admin) s) in
    (page_of limit offset docs, length docs)

-- Python's `str.lower` and `in` on strings.
pub record TextSearch : Type 0 where
  pub lower : String → String
  pub occurs_in : String → String → Bool

abbrev or_empty : Option String → String
or_empty none = ""
or_empty (some t) = t

abbrev pub is_match : TextSearch → String → Document → Bool
is_match t q d =
    t.occurs_in q (t.lower (or_empty d.title))
    || (t.occurs_in q (t.lower d.filename) || t.occurs_in q (t.lower (or_empty d.description)))

unfoldable pub search_documents :
    TextSearch → String → ℕ → ℕ → Option ℕ → Bool → Storage → List Document × ℕ
unfolding sort_newest
search_documents t query limit offset viewer_id viewer_is_admin s =
    let q = t.lower query in
    let matches =
      sort_newest (λ d. d.created_at)
        (keep_if (λ d. is_listed viewer_id viewer_is_admin d && is_match t q d) s) in
    (page_of limit offset matches, length matches)

-- `doc` is the stored object itself, so an assignment to its field changes the storage.
abbrev mark_deleted : ℕ → Option Document → Storage → Bool × Storage
mark_deleted now none s = (false, s)
mark_deleted now (some doc) s =
    if is_some doc.deleted_at || is_some doc.purged_at
    then (false, s)
    else (true, put (record doc { deleted_at = some now }) s)

unfoldable pub soft_delete : ℕ → ℕ → Storage → Bool × Storage
unfolding put find_by_id
soft_delete now doc_id s = mark_deleted now (find_by_id doc_id s) s

abbrev unmark_deleted : Option Document → Storage → Bool × Storage
unmark_deleted none s = (false, s)
unmark_deleted (some doc) s =
    if not (is_some doc.deleted_at) || is_some doc.purged_at
    then (false, s)
    else (true, put (record doc { deleted_at = none }) s)

unfoldable pub restore : ℕ → Storage → Bool × Storage
unfolding put find_by_id
restore doc_id s = unmark_deleted (find_by_id doc_id s) s

abbrev deletion_time : Document → ℕ
deletion_time d = elim d.deleted_at [ none ↦ 0 | some t ↦ t ]

abbrev pub is_restorable : Option ℕ → Bool → Document → Bool
is_restorable viewer_id viewer_is_admin d =
    is_some d.deleted_at
    && (not (is_some d.purged_at)
        && (not (is_superseded d.status || is_duplicate d.status)
            && (viewer_is_admin || (is_some viewer_id && owns d.owner_id viewer_id))))

unfoldable pub list_deleted : Option ℕ → Bool → ℕ → Storage → List Document
unfolding sort_newest
list_deleted viewer_id viewer_is_admin limit s =
    take (max 1 (min limit 500))
      (sort_newest deletion_time (keep_if (is_restorable viewer_id viewer_is_admin) s))

-- `if doc.deleted_at is None: doc.deleted_at = now`
abbrev or_now : ℕ → Option ℕ → Option ℕ
or_now now none = some now
or_now now (some t) = some t

abbrev pub tombstone : ℕ → Document → Document
tombstone now doc = record doc {
  purged_at = some now;
  deleted_at = or_now now doc.deleted_at;
  checksum = none;
  raw_path = none;
  quarantine_path = none;
}

abbrev mark_purged : ℕ → Option Document → Storage → Bool × Storage
mark_purged now none s = (false, s)
mark_purged now (some doc) s =
    if is_some doc.purged_at then (false, s) else (true, put (tombstone now doc) s)

unfoldable pub purge : ℕ → ℕ → Storage → Bool × Storage
unfolding put find_by_id
purge now doc_id s = mark_purged now (find_by_id doc_id s) s

abbrev pub is_refused_copy : String → Document → Bool
is_refused_copy checksum d = names d.checksum checksum && is_duplicate d.status

abbrev pub erase_copy : ℕ → Document → Document
erase_copy now d = record d {
  checksum = none;
  quarantine_path = none;
  purged_at = some now;
  deleted_at = or_now now d.deleted_at;
}

unfoldable pub purge_duplicates_of : ℕ → String → Storage → ℕ × Storage
purge_duplicates_of now checksum s = (
  length (keep_if (is_refused_copy checksum) s),
  map (λ d. if is_refused_copy checksum d then erase_copy now d else d) s,
)
