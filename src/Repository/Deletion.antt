-- ===== src/Repository/Deletion.antt =====
-- Deleting, restoring and erasing documents.
use a_pag_ai_knowledge_base.Prelude.{
  ℕ, String, ◌≡◌, refl, ◌∙◌, true, false, Option, none, some, [], ◌∷◌, arith, Option-cases, inl,
  inr, keep_if,
}
use a_pag_ai_knowledge_base.Documents.{Document}
use a_pag_ai_knowledge_base.Repository.{
  Storage, find_by_id, put, get_by_id, soft_delete, restore, purge, purge_duplicates_of,
  is_refused_copy, tombstone,
}
use a_pag_ai_knowledge_base.Repository.Lookup.{find_by_id-put, find_by_id-id}

put-put : (d e : Document) (s : Storage) → d.id ≡ e.id → put d (put e s) ≡ put d s
unfolding put
put-put d e [] h = ground arith
put-put d e (x ∷ s) h = ground (arith, put-put d e s h)

put_found : (i : ℕ) (s : Storage) (d : Document) → find_by_id i s ≡ some d → put d s ≡ s
unfolding put find_by_id
put_found i [] d h = cc
put_found i (x ∷ s) d h = ground (arith, put_found i s d, find_by_id-id i s d)

-- `d` is the document found; the two writes meet at its id.
put_back :
    (i : ℕ) (s : Storage) (d e : Document)
    → find_by_id i s ≡ some d
    → d.id ≡ e.id
    → put d (put e s) ≡ s
put_back i s d e h same = put-put d e s same ∙ put_found i s d h

-- A soft delete that succeeds is undone by a restore, which succeeds and gives back the storage
-- from before the delete.
pub restore-soft_delete :
    (now i : ℕ) (s : Storage)
    → (soft_delete now i s).0 ≡ true
    → restore i (soft_delete now i s).1 ≡ (true, s)
unfolding soft_delete restore
restore-soft_delete now i s h = elim (Option-cases (find_by_id i s)) [
  | inl e ↦ ground (arith, e)
  | inr (d, e) ↦ ground (
    arith,
    e,
    find_by_id-id i s d e,
    find_by_id-put (record d { deleted_at = some now }) s i,
    put_back i s d (record d { deleted_at = some now }) e refl,
  )
]

abbrev pub checksum_of : Option Document → Option (Option String)
checksum_of none = none
checksum_of (some d) = some d.checksum

-- After a purge that succeeds the checksum of the document is gone, and it cannot be restored,
-- soft-deleted or purged again.
pub purge_final :
    (now later i : ℕ) (s : Storage)
    → (purge now i s).0 ≡ true
    → (checksum_of (get_by_id i (purge now i s).1) ≡ some none)
      × ((restore i (purge now i s).1).0 ≡ false)
      × ((soft_delete later i (purge now i s).1).0 ≡ false)
      × ((purge later i (purge now i s).1).0 ≡ false)
unfolding purge restore soft_delete get_by_id
purge_final now later i s h = elim (Option-cases (find_by_id i s)) [
  | inl e ↦ ground (arith, e)
  | inr (d, e) ↦ ground (arith, e, find_by_id-id i s d e, find_by_id-put (tombstone now d) s i)
]

-- After the refused copies of a checksum are erased, no refused copy of it is left.
pub purge_duplicates_of_complete :
    (now : ℕ) (c : String) (s : Storage)
    → keep_if (is_refused_copy c) (purge_duplicates_of now c s).1 ≡ []
unfolding purge_duplicates_of
purge_duplicates_of_complete now c [] = refl
purge_duplicates_of_complete now c (d ∷ s) = ground (arith, purge_duplicates_of_complete now c s)
