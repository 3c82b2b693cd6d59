-- ===== src/Generation/Examples.antt =====
-- An answer from two passages, of which the boundary keeps one.
use a_pag_ai_knowledge_base.Prelude.{
  ℕ, ◌-◌, ◌≡◌, refl, String, true, false, not, ◌&&◌, Option, none, some, List, [], ◌∷◌, All, Text,
  codes, leb, if◌then◌else◌,
}
use a_pag_ai_knowledge_base.Access.{public, restricted}
use a_pag_ai_knowledge_base.Stages.{returned}
use a_pag_ai_knowledge_base.Gateway.Samples.{ascii}
use a_pag_ai_knowledge_base.Retrieval.Search.{RetrievedChunk}
use a_pag_ai_knowledge_base.Generation.{
  GeneratedAnswer, Writing, is_valid_marker, is_listed_in, numbers_in, verify_citations,
}
use a_pag_ai_knowledge_base.Generation.Answer.{answer_from}
use a_pag_ai_knowledge_base.Generation.Markers.{is_cited, verify_citations_exact}
use a_pag_ai_knowledge_base.Generation.Provenance.{Cites, IsOpenAmong, answer_quotes_public}

abbrev chunk : ℕ → Text → RetrievedChunk
chunk chunk_id text = record {
  chunk_id = chunk_id;
  document_id = chunk_id;
  filename = "a.pdf";
  text = text;
  page_number = some 3;
  section_heading = none;
  is_table = false;
  score = record { num = 1; den = 61 };
  semantic_rank = some 1;
  lexical_rank = none;
  similarity = some 7;
  token_count = 4;
  truncated = false;
  rerank_score = none;
  fusion_rank = none;
}

abbrev chunks : List RetrievedChunk
chunks = chunk 1 (codes "closed") ∷ chunk 2 (codes "open") ∷ []

abbrev writing : Writing
writing = record {
  settings = record { generation_include_restricted = false; gateway_redact = false };
  unicode = ascii;
  provider = record {
    model_name = codes "model";
    endpoint = none;
    complete = λ system user. returned (codes "So [1], not [4].", 5, 7);
  };
  system_prompt = codes "rules";
  generation_max_passages = 8;
  digit_value = λ c. if leb 48 c && leb c 57 then some (c - 48) else none;
  strip = λ text. text;
}

abbrev tiers : List (Option String)
tiers = some restricted ∷ some public ∷ []

abbrev written : GeneratedAnswer
written = record {
  question = codes "Why?";
  answer = codes "So [1], not.";
  grounded = true;
  citations =
      record {
        marker = 1;
        chunk_id = 2;
        document_id = 2;
        filename = "a.pdf";
        page_number = some 3;
        section_heading = none;
        text = codes "open";
      }
      ∷ [];
  invalid_markers = 4 ∷ [];
  excluded_restricted = 1;
  model = codes "model";
  input_tokens = 5;
  output_tokens = 7;
  boundary = some (record {
    tier = public;
    destination = codes "model";
    model = codes "model";
    passages_considered = 2;
    passages_sent = 1;
    passages_withheld_restricted = 1;
    masked = [];
  });
}

answer_runs : answer_from writing (codes "Why?") chunks true (some tiers) ≡ returned written
unfolding answer_from
answer_runs = refl

answer_quotes_public_example : All (Cites (IsOpenAmong chunks tiers)) written.citations
answer_quotes_public_example =
    answer_quotes_public writing refl (codes "Why?") chunks true (some tiers) written answer_runs

verify_citations_exact_example :
    let verified = verify_citations writing (codes "So [1], not [4].") chunks in
    (is_cited 1 verified.1
      ≡ (is_valid_marker 2 1 && is_listed_in 1 (numbers_in writing (codes "So [1], not [4]."))))
    × (is_listed_in 1 verified.2 ≡ (
        not (is_valid_marker 2 1)
        && is_listed_in 1 (numbers_in writing (codes "So [1], not [4]."))))
verify_citations_exact_example = verify_citations_exact writing (codes "So [1], not [4].") chunks 1
