-- ===== src/Generation/Answer.antt =====
-- The prompt from the passages, and `answer` of src/modules/generation/service.py.
use a_pag_ai_knowledge_base.Prelude.{
  ℕ, suc, String, Bool, true, false, not, Option, none, some, List, [], ◌∷◌, ◌++◌, map, take,
  get_elem?, length, Text, codes, decimal, if◌then◌else◌,
}
use a_pag_ai_knowledge_base.Stages.{Fallible, raised, returned}
use a_pag_ai_knowledge_base.Gateway.Boundary.{
  BoundaryRecord, Kept, Crossing, refused, answered, keep_passages, masked_texts, zip_texts, send,
}
use a_pag_ai_knowledge_base.Retrieval.Search.{RetrievedChunk}
use a_pag_ai_knowledge_base.Generation.{
  GeneratedAnswer, Reply, Writing, marker_text, verify_citations,
}

abbrev join_with : Text → List Text → Text
join_with between [] = []
join_with between (t ∷ []) = t
join_with between (t ∷ u ∷ texts) = t ++ between ++ join_with between (u ∷ texts)

abbrev page_label : Option ℕ → List Text
page_label none = []
page_label (some page) = (codes "p." ++ decimal page) ∷ []

abbrev heading_label : Option String → List Text
heading_label none = []
heading_label (some String.[]) = []
heading_label (some (String.◌∷◌ c s)) = codes (String.◌∷◌ c s) ∷ []

abbrev source_line : RetrievedChunk → Text
source_line c =
    join_with (codes " · ")
      (codes c.filename ∷ page_label c.page_number ++ heading_label c.section_heading)

abbrev show_passage : ℕ → RetrievedChunk → Text → Text
show_passage i c body = marker_text i ++ codes " (" ++ source_line c ++ codes ")" ++ 10 ∷ body

abbrev show_from : ℕ → List RetrievedChunk → List Text → List Text
show_from i [] bodies = []
show_from i (c ∷ chunks) [] = []
show_from i (c ∷ chunks) (body ∷ bodies) = show_passage i c body ∷ show_from (suc i) chunks bodies

unfoldable pub build_context : List RetrievedChunk → List Text → Text
unfolding decimal
build_context chunks bodies = join_with (10 ∷ 10 ∷ []) (show_from 1 chunks bodies)

-- `[usable[i] for i, _ in kept]`
unfoldable pub passages_at : List RetrievedChunk → List (ℕ × Text) → List RetrievedChunk
passages_at usable [] = []
passages_at usable (k ∷ kept) =
    let rest = passages_at usable kept in
    elim (get_elem? usable k.0) [ none ↦ rest | some c ↦ c ∷ rest ]

unfoldable pub compose : Text → List RetrievedChunk → List (ℕ × Text) → Text
unfolding build_context passages_at
compose question usable kept =
    build_context (passages_at usable kept) (map (λ (k : ℕ × Text). k.1) kept)
    ++ 10 ∷ 10 ∷ codes "---"
    ++ 10 ∷ 10 ∷ codes "Question: "
    ++ question

abbrev unknown : {A : Type 0} → List A → List (Option String)
unknown l = map (λ _. none) l

-- `list(tiers or [None] * len(chunks))`
abbrev pub or_unknown : Option (List (Option String)) → List RetrievedChunk → List (Option String)
or_unknown none chunks = unknown chunks
or_unknown (some []) chunks = unknown chunks
or_unknown (some (t ∷ tiers)) chunks = t ∷ tiers

abbrev pub texts_of : List RetrievedChunk → List Text
texts_of chunks = map (λ (c : RetrievedChunk). c.text) chunks

module _ (w : Writing) where
  unfoldable pub silent : Text → ℕ → GeneratedAnswer
  silent question excluded = record {
    question = question;
    answer = [];
    grounded = false;
    citations = [];
    invalid_markers = [];
    excluded_restricted = excluded;
    model = w.provider.model_name;
    input_tokens = 0;
    output_tokens = 0;
    boundary = none;
  }

  -- What `send` hands to `compose`: the passages that are kept, masked, with their places.
  unfoldable pub sent_by : List RetrievedChunk → List (Option String) → List (ℕ × Text)
  unfolding keep_passages
  sent_by usable tiers =
      let kept = (keep_passages w.settings 0 (texts_of usable) tiers).0 in
      zip_texts kept (masked_texts w.settings w.unicode (map (λ (k : Kept). k.text) kept)).0

  abbrev grounded_answer :
      Text → List RetrievedChunk → Text × ℕ × ℕ → BoundaryRecord → GeneratedAnswer
  grounded_answer question sent reply rec =
      let verified = verify_citations w reply.0 sent in
      record {
        question = question;
        answer = verified.0;
        grounded = true;
        citations = verified.1;
        invalid_markers = verified.2;
        excluded_restricted = rec.passages_withheld_restricted;
        model = w.provider.model_name;
        input_tokens = reply.1;
        output_tokens = reply.2;
        boundary = some rec;
      }

  unfoldable pub conclude_answer :
      Text → List RetrievedChunk → List (Option String) → Crossing Reply → Fallible GeneratedAnswer
  unfolding verify_citations silent sent_by passages_at
  conclude_answer question usable tiers (refused reason) =
      returned (silent question (length usable))
  conclude_answer question usable tiers (answered (raised e) rec) = raised e
  conclude_answer question usable tiers (answered (returned reply) rec) =
      returned (grounded_answer question (passages_at usable (sent_by usable tiers)) reply rec)

  unfoldable pub ask : Text → List RetrievedChunk → List (Option String) → Fallible GeneratedAnswer
  unfolding conclude_answer send compose
  ask question usable tiers = conclude_answer question usable tiers (
      send w.settings w.unicode w.provider (compose question usable) w.system_prompt
        (texts_of usable) tiers)

  unfoldable pub answer_from :
      Text → List RetrievedChunk → Bool → Option (List (Option String)) → Fallible GeneratedAnswer
  unfolding ask silent
  answer_from question [] grounded tiers = returned (silent question 0)
  answer_from question (c ∷ chunks) grounded tiers =
      let usable = take w.generation_max_passages (c ∷ chunks) in
      if not grounded
      then returned (silent question 0)
      else ask question usable (take (length usable) (or_unknown tiers (c ∷ chunks)))
