-- ===== src/Retrieval/Search/Grounding.antt =====
-- When a search counts as having found anything: `assess`.
use a_pag_ai_knowledge_base.Prelude.{
  ℕ, ◌≡◌, refl, ap, ◌∙◌, Bool, true, false, ◌&&◌, ◌||◌, Option, none, some, List, [], ◌∷◌, any,
  Text, leb, if◌then◌else◌, arith,
}
use a_pag_ai_knowledge_base.Retrieval.{Engine}
use a_pag_ai_knowledge_base.Retrieval.Search.{
  RetrievedChunk, higher, best_similarity, has_literal_match, is_asked, assess,
}

abbrev pub is_at_least : ℕ → Option ℕ → Bool
is_at_least bar none = false
is_at_least bar (some s) = leb bar s

is_at_least-higher :
    (bar : ℕ) (a b : Option ℕ)
    → is_at_least bar (higher a b) ≡ (is_at_least bar a || is_at_least bar b)
is_at_least-higher bar none b = refl
is_at_least-higher bar (some s) none = ground arith
is_at_least-higher bar (some s) (some t) = ground arith

is_at_least-best_similarity :
    (bar : ℕ) (results : List RetrievedChunk)
    → is_at_least bar (best_similarity results)
      ≡ any (λ (r : RetrievedChunk). is_at_least bar r.similarity) results
unfolding best_similarity
is_at_least-best_similarity bar [] = refl
is_at_least-best_similarity bar (r ∷ results) =
    is_at_least-higher bar r.similarity (best_similarity results)
    ∙ ap (λ b. is_at_least bar r.similarity || b) (is_at_least-best_similarity bar results)

module _ {V : Type 0} (e : Engine V) where
  pub assess-any :
      (results : List RetrievedChunk) (query : Text)
      → (assess e results query).0 ≡ (
          (is_asked e query && has_literal_match e query results)
          || any (λ (r : RetrievedChunk). is_at_least e.search_min_similarity r.similarity) results)
  unfolding assess
  assess-any results query =
      over_bar (is_asked e query && has_literal_match e query results) (best_similarity results)
      ∙ ap (λ b. (is_asked e query && has_literal_match e query results) || b)
          (is_at_least-best_similarity e.search_min_similarity results)
    where
      over_bar :
          (b : Bool) (best : Option ℕ)
          → (if b then (true, best) else elim best as (λ _. Bool × Option ℕ) [
            | none ↦ (false, none)
            | some s ↦ (leb e.search_min_similarity s, some s)
          ]).0
            ≡ (b || is_at_least e.search_min_similarity best)
      over_bar true best = refl
      over_bar false none = refl
      over_bar false (some s) = refl
