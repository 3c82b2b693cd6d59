-- ===== src/Generation/Provenance.antt =====
-- Where the citations of an answer come from.
use a_pag_ai_knowledge_base.Prelude.{
  ℕ, zero, suc, ◌-◌, ◌≡◌, refl, ap, ◌∙◌, Bool, true, false, Option, none, some, some_eq, subst,
  String, List, [], ◌∷◌, All, All-map, take, get_elem?, length, Text, arith,
}
use a_pag_ai_knowledge_base.Access.{public}
use a_pag_ai_knowledge_base.Stages.{raised, returned}
use a_pag_ai_knowledge_base.Gateway.Boundary.{
  Kept, Crossing, refused, answered, keep_passages, zip_texts,
}
use a_pag_ai_knowledge_base.Gateway.Boundary.Sending.{keep_passages-IsOffered, open_tier}
use a_pag_ai_knowledge_base.Retrieval.Search.{RetrievedChunk}
use a_pag_ai_knowledge_base.Generation.{
  Citation, GeneratedAnswer, Writing, Reply, cite, citations_of, verify_citations,
}
use a_pag_ai_knowledge_base.Generation.Answer.{
  passages_at, sent_by, texts_of, or_unknown, conclude_answer, silent, ask, answer_from,
}

get_elem?-All {ℓ κ} :
    {A : Type ℓ} (P : A → Type κ) (l : List A) (i : ℕ) (a : A)
    → All P l
    → get_elem? l i ≡ some a
    → P a
get_elem?-All P [] i a h found = absurd (cc found)
get_elem?-All P (x ∷ l) zero a h found = subst P (some_eq found) h.0
get_elem?-All P (x ∷ l) (suc i) a h found = get_elem?-All P l i a h.1 found

get_elem?-take {ℓ} :
    {A : Type ℓ} (n i : ℕ) (l : List A) (a : A)
    → get_elem? (take n l) i ≡ some a
    → get_elem? l i ≡ some a
get_elem?-take zero i l a found = absurd (cc found)
get_elem?-take (suc n) i [] a found = found
get_elem?-take (suc n) zero (x ∷ l) a found = found
get_elem?-take (suc n) (suc i) (x ∷ l) a found = get_elem?-take n i l a found

returned_eq {ℓ} : {A : Type ℓ} {a b : A} → returned a ≡ returned b → a ≡ b
returned_eq h = cc

-- The passage is one of those given, and its tier is PUBLIC.
abbrev pub IsOpenAmong : List RetrievedChunk → List (Option String) → RetrievedChunk → Type 0
IsOpenAmong chunks tiers c =
    (i : ℕ) × (get_elem? chunks i ≡ some c) × (get_elem? tiers i ≡ some (some public))

abbrev IsOpenAt : List (Option String) → ℕ × Text → Type 0
IsOpenAt tiers k = get_elem? tiers k.0 ≡ some (some public)

zip_texts-open :
    (tiers : List (Option String)) (kept : List Kept) (texts : List Text)
    → All (λ k. get_elem? tiers k.index ≡ some (some public)) kept
    → All (IsOpenAt tiers) (zip_texts kept texts)
zip_texts-open tiers [] texts h = tt
zip_texts-open tiers (k ∷ kept) [] h = tt
zip_texts-open tiers (k ∷ kept) (t ∷ texts) h = (h.0, zip_texts-open tiers kept texts h.1)

passages_at-open :
    (usable : List RetrievedChunk) (tiers : List (Option String)) (kept : List (ℕ × Text))
    → All (IsOpenAt tiers) kept
    → All (IsOpenAmong usable tiers) (passages_at usable kept)
unfolding passages_at
passages_at-open usable tiers [] h = tt
passages_at-open usable tiers (k ∷ kept) h =
    with_found (get_elem? usable k.0) refl (passages_at-open usable tiers kept h.1)
  where
    with_found :
        (o : Option RetrievedChunk)
        → get_elem? usable k.0 ≡ o
        → All (IsOpenAmong usable tiers) (passages_at usable kept)
        → All (IsOpenAmong usable tiers) (elim o as (λ _. List RetrievedChunk) [
          | none ↦ passages_at usable kept
          | some c ↦ c ∷ passages_at usable kept
        ])
    with_found none found rest = rest
    with_found (some c) found rest = ((k.0, found, h.0), rest)

-- A citation of a passage that has the property.
abbrev pub Cites : (RetrievedChunk → Type 0) → Citation → Type 0
Cites P citation = (c : RetrievedChunk) × P c × (citation ≡ cite citation.marker c)

citations_of-Cites :
    (P : RetrievedChunk → Type 0) (chunks : List RetrievedChunk) (numbers : List ℕ)
    → All P chunks
    → All (Cites P) (citations_of chunks numbers)
unfolding citations_of
citations_of-Cites P chunks [] h = tt
citations_of-Cites P chunks (n ∷ numbers) h =
    with_found (get_elem? chunks (n - 1)) refl (citations_of-Cites P chunks numbers h)
  where
    with_found :
        (o : Option RetrievedChunk)
        → get_elem? chunks (n - 1) ≡ o
        → All (Cites P) (citations_of chunks numbers)
        → All (Cites P) (elim o as (λ _. List Citation) [
          | none ↦ citations_of chunks numbers
          | some c ↦ cite n c ∷ citations_of chunks numbers
        ])
    with_found none found rest = rest
    with_found (some c) found rest = ((c, get_elem?-All P chunks (n - 1) c h found, refl), rest)

module _ (w : Writing) (off : w.settings.generation_include_restricted ≡ false) where
  sent_by-open :
      (usable : List RetrievedChunk) (tiers : List (Option String))
      → All (IsOpenAt tiers) (sent_by w usable tiers)
  unfolding sent_by
  sent_by-open usable tiers =
      let kept = (keep_passages w.settings 0 (texts_of usable) tiers).0 in
      zip_texts-open tiers kept _ (
        All-map
          (λ k o.
            ap (get_elem? tiers) (omega (arith, o.1))
            ∙ o.3
            ∙ ap some (open_tier w.settings k.tier off o.4))
          kept (keep_passages-IsOffered w.settings 0 (texts_of usable) tiers))

  conclude_answer-Cites :
      (question : Text) (usable : List RetrievedChunk) (tiers : List (Option String))
      (crossing : Crossing Reply) (a : GeneratedAnswer)
      → conclude_answer w question usable tiers crossing ≡ returned a
      → All (Cites (IsOpenAmong usable tiers)) a.citations
  unfolding conclude_answer silent verify_citations
  conclude_answer-Cites question usable tiers (refused reason) a h =
      subst (λ (x : GeneratedAnswer). All (Cites (IsOpenAmong usable tiers)) x.citations)
        (returned_eq h) tt
  conclude_answer-Cites question usable tiers (answered (raised e) rec) a h = absurd (cc h)
  conclude_answer-Cites question usable tiers (answered (returned reply) rec) a h =
      subst (λ (x : GeneratedAnswer). All (Cites (IsOpenAmong usable tiers)) x.citations)
        (returned_eq h)
        (citations_of-Cites (IsOpenAmong usable tiers) (passages_at usable (sent_by w usable tiers))
          _ (passages_at-open usable tiers (sent_by w usable tiers) (sent_by-open usable tiers)))

  -- When restricted content is not to be sent, every citation of an answer that is returned is of
  -- one of the passages given, at a place where the tier given is PUBLIC, and has the text,
  -- document and page of it.
  pub answer_quotes_public :
      (question : Text) (chunks : List RetrievedChunk) (grounded : Bool)
      (tiers : Option (List (Option String))) (a : GeneratedAnswer)
      → answer_from w question chunks grounded tiers ≡ returned a
      → All (Cites (IsOpenAmong chunks (or_unknown tiers chunks))) a.citations
  unfolding answer_from ask silent
  answer_quotes_public question [] grounded tiers a h =
      subst
        (λ (x : GeneratedAnswer). All (Cites (IsOpenAmong [] (or_unknown tiers []))) x.citations)
        (returned_eq h) tt
  answer_quotes_public question (c ∷ chunks) false tiers a h =
      subst
        (λ (x : GeneratedAnswer).
          All (Cites (IsOpenAmong (c ∷ chunks) (or_unknown tiers (c ∷ chunks)))) x.citations)
        (returned_eq h) tt
  answer_quotes_public question (c ∷ chunks) true tiers a h =
      let max = w.generation_max_passages in
      let usable = take max (c ∷ chunks) in
      let offered = take (length usable) (or_unknown tiers (c ∷ chunks)) in
      All-map
        (λ citation from. (
          from.0,
          (
            from.1.0,
            get_elem?-take max from.1.0 (c ∷ chunks) from.0 from.1.1,
            get_elem?-take (length usable) from.1.0 (or_unknown tiers (c ∷ chunks)) (some public)
                from.1.2,
          ),
          from.2,
        ))
        a.citations (conclude_answer-Cites question usable offered _ a h)
