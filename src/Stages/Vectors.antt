-- ===== src/Stages/Vectors.antt =====
-- The vectors that a run of the embedding stage stores.
use a_pag_ai_knowledge_base.Prelude.{
  ℕ, ◌≡◌, refl, ap, sym, subst, ◌∙◌, inl, inr, Bool, true, ◌||◌, Bool-cases, Option-cases, Option,
  some, List, [], ◌∷◌, arith, ◌==◌, ==_iff, All, All-map, any, is_some, keep_if, length, map,
  String,
}
use a_pag_ai_knowledge_base.Documents.{Document, DocumentStatus, AuditEventType, same_status}
use a_pag_ai_knowledge_base.Repository.{get_by_id}
use a_pag_ai_knowledge_base.Repository.Lookup.{find_by_id-id}
use a_pag_ai_knowledge_base.Scan.{Details}
use a_pag_ai_knowledge_base.Stages.{
  ChunkRow, Embedded, value_error, inference_error, vectors, State, StageOutcome, Tools, log_event,
}
use a_pag_ai_knowledge_base.Stages.Chunking.{read_normalized}
use a_pag_ai_knowledge_base.Stages.Embedding.{
  insert_by_index, order_by_index, passages_of, vector_at, with_vectors, commit_vectors,
  keep_vectors, embed_passages, is_unsupported, embed_in_language, believed_language, process_embed,
}

module _ {V : Type 0} where
  abbrev has_index : ℕ → List (ChunkRow V) → Bool
  has_index n = any (λ r. r.chunk.index == n)

  has_index-insert :
      (n : ℕ) (r : ChunkRow V) (rs : List (ChunkRow V))
      → has_index n (insert_by_index r rs) ≡ has_index n (r ∷ rs)
  unfolding insert_by_index
  has_index-insert n r [] = refl
  has_index-insert n r (q ∷ qs) = ground (arith, has_index-insert n r qs)

  has_index-order :
      (n : ℕ) (rs : List (ChunkRow V)) → has_index n (order_by_index rs) ≡ has_index n rs
  unfolding order_by_index
  has_index-order n [] = refl
  has_index-order n (r ∷ rs) =
      has_index-insert n r (order_by_index rs)
      ∙ ap (λ (b : Bool). r.chunk.index == n || b) (has_index-order n rs)

  abbrev of_document : ℕ → List (ChunkRow V) → List (ChunkRow V)
  of_document i rows = keep_if (λ q. q.document_id == i) rows

  abbrev IsListed : ℕ → List (ChunkRow V) → ChunkRow V → Type 0
  IsListed i rows r =
      (r.document_id == i) ≡ true → has_index r.chunk.index (of_document i rows) ≡ true

  IsListed-cons :
      (i : ℕ) (r : ChunkRow V) (rows : List (ChunkRow V)) (q : ChunkRow V)
      → IsListed i rows q
      → IsListed i (r ∷ rows) q
  IsListed-cons i r rows q h mine = ground (arith, h mine)

  -- Every row of the document is one of its passages.
  all-IsListed : (i : ℕ) (rows : List (ChunkRow V)) → All (IsListed i rows) rows
  all-IsListed i [] = tt
  all-IsListed i (r ∷ rows) =
      (λ mine. rw mine (ground arith), All-map (IsListed-cons i r rows) rows (all-IsListed i rows))

  vector_at-some :
      (n : ℕ) (rs : List (ChunkRow V)) (vs : List V)
      → length vs ≡ length rs
      → has_index n rs ≡ true
      → is_some (vector_at n rs vs) ≡ true
  unfolding vector_at
  vector_at-some n [] vs same h = cc
  vector_at-some n (r ∷ rs) [] same h = absurd (omega (arith, same))
  vector_at-some n (r ∷ rs) (v ∷ vs) same h = ground (arith, vector_at-some n rs vs)

  abbrev pub HasVectors : ℕ → List (ChunkRow V) → Type 0
  HasVectors i = All (λ r. (r.document_id == i) ≡ true → is_some r.embedding ≡ true)

  with_vectors-each :
      (i : ℕ) (passages : List (ChunkRow V)) (vs : List V) (rows : List (ChunkRow V))
      → length vs ≡ length passages
      → All (λ r. (r.document_id == i) ≡ true → has_index r.chunk.index passages ≡ true) rows
      → HasVectors i (with_vectors i passages vs rows)
  with_vectors-each i passages vs [] same h = tt
  with_vectors-each i passages vs (r ∷ rows) same h =
      let rest = with_vectors-each i passages vs rows same h.1 in
      elim (Bool-cases (r.document_id == i)) [
        | inl mine ↦ rw mine (λ _. vector_at-some r.chunk.index passages vs same (h.0 mine), rest)
        | inr other ↦ rw other (λ mine. absurd (cc (other, mine)), rest)
      ]

  IsListed-order :
      (i : ℕ) (rows : List (ChunkRow V)) (r : ChunkRow V)
      → IsListed i rows r
      → (r.document_id == i) ≡ true
      → has_index r.chunk.index (passages_of i rows) ≡ true
  IsListed-order i rows r h mine = has_index-order r.chunk.index (of_document i rows) ∙ h mine

  passages_listed :
      (i : ℕ) (rows : List (ChunkRow V))
      → All
          (λ r. (r.document_id == i) ≡ true → has_index r.chunk.index (passages_of i rows) ≡ true)
          rows
  passages_listed i rows = All-map (IsListed-order i rows) rows (all-IsListed i rows)

module _ {O U V : Type 0} (t : Tools O U V) where
  log_event-chunks :
      (i : ℕ) (event : AuditEventType) (d : Details) (s : State O V)
      → (log_event t i event d s).chunks ≡ s.chunks
  unfolding log_event
  log_event-chunks i event d s = ground arith

  abbrev IsVectored : ℕ → StageOutcome × State O V → Type 0
  IsVectored i r = r.0.status ≡ DocumentStatus.live → HasVectors i r.1.chunks

  module _ (doc : Document) (s : State O V) (chunked : doc.status ≡ DocumentStatus.chunked) where
    not_live : {A : Type 0} → doc.status ≡ DocumentStatus.live → A
    not_live h = absurd (cc (h, chunked))

    commit_vectors-IsVectored :
        (vs : List V)
        → length vs ≡ length (passages_of doc.id s.chunks)
        → IsVectored doc.id (commit_vectors t doc (passages_of doc.id s.chunks) vs s)
    commit_vectors-IsVectored vs same =
        elim (Option-cases
          (t.commit_error (with_vectors doc.id (passages_of doc.id s.chunks) vs s.chunks))) [
            | inl h ↦
                rw (h, commit_vectors)
                  (λ live. rw log_event-chunks (
                    with_vectors-each doc.id (passages_of doc.id s.chunks) vs s.chunks same
                      (passages_listed doc.id s.chunks)))
            | inr (e, h) ↦ rw (h, commit_vectors) (λ live. not_live live)
          ]

    keep_vectors-IsVectored :
        (vs : Embedded V)
        → IsVectored doc.id (keep_vectors t doc (passages_of doc.id s.chunks) vs s)
    keep_vectors-IsVectored (value_error e) = λ live. absurd (cc (live))
    keep_vectors-IsVectored (inference_error e) = λ live. not_live live
    keep_vectors-IsVectored (vectors vs) =
        elim (Bool-cases (length vs == length (passages_of doc.id s.chunks))) [
          | inl h ↦ simp h (commit_vectors-IsVectored vs ((==_iff _ _).0 h))
          | inr h ↦ simp h (λ live. absurd (cc (live)))
        ]

    embed_passages-IsVectored :
        (rows : List (ChunkRow V))
        → rows ≡ passages_of doc.id s.chunks
        → IsVectored doc.id (embed_passages t doc rows s)
    embed_passages-IsVectored [] h = λ live. absurd (cc (live))
    embed_passages-IsVectored (r ∷ rs) h =
        let answer = t.embed_document doc.id (map (λ (q : ChunkRow V). q.chunk.text) (r ∷ rs)) in
        subst (λ (ps : List (ChunkRow V)). IsVectored doc.id (keep_vectors t doc ps answer s))
          (sym h) (keep_vectors-IsVectored answer)

    embed_in_language-IsVectored :
        (language : Option String) → IsVectored doc.id (embed_in_language t doc language s)
    embed_in_language-IsVectored language = elim (Bool-cases (is_unsupported t language)) [
      | inl h ↦ simp h (λ live. absurd (cc (live)))
      | inr h ↦ elim (Bool-cases t.has_db) [
        | inl db ↦ simp (h, db) (embed_passages-IsVectored (passages_of doc.id s.chunks) refl)
        | inr db ↦ simp (h, db) (λ live. not_live live)
      ]
    ]

  -- When the embedding of a CHUNKED document answers LIVE, every passage stored for the document
  -- has a vector.
  pub live-HasVectors :
      (i : ℕ) (doc : Document) (s : State O V)
      → get_by_id i s.world.storage ≡ some doc
      → doc.status ≡ DocumentStatus.chunked
      → (process_embed t i s).0.status ≡ DocumentStatus.live
      → HasVectors i (process_embed t i s).1.chunks
  unfolding process_embed get_by_id
  live-HasVectors i doc s found chunked =
      let its_id = find_by_id-id i s.world.storage doc found in
      let here : same_status doc.status DocumentStatus.chunked ≡ true = rw chunked refl in
      simp (found, here)
        (subst
          (λ (n : ℕ).
            IsVectored n
              (embed_in_language t doc (believed_language t (read_normalized t doc.id s)) s))
          its_id
          (embed_in_language-IsVectored doc s chunked
            (believed_language t (read_normalized t doc.id s))))
