-- ===== src/Chunker/Examples.antt =====
-- Short texts, a table and a document of one page, under a budget of six characters.
use a_pag_ai_knowledge_base.Prelude.{
  ◌*◌, ◌/◌, ◌≡◌, refl, false, ◌||◌, some, List, [], ◌∷◌, All, length, ◌==◌, Text, codes, arith,
}
use a_pag_ai_knowledge_base.Chunker.{Budget, split_to_size, group_rows}
use a_pag_ai_knowledge_base.Chunker.Rows.{ShowsAll, group_rows-ShowsAll}
use a_pag_ai_knowledge_base.Chunker.Solid.{solid_all}
use a_pag_ai_knowledge_base.Chunker.Splitting.{split_to_size-solid}
use a_pag_ai_knowledge_base.Chunker.Sections.{Heading}
use a_pag_ai_knowledge_base.Chunker.Document.{Content, chunk_document}
use a_pag_ai_knowledge_base.Chunker.Numbering.{
  IsNumbered, chunk_document-IsNumbered, IsSized, chunk_document-IsSized,
}

abbrev budget : Budget
budget = record {
  target = 4;
  maximum = 6;
  measure = λ text. length text;
  wrap_width = λ maximum characters measured. maximum * 9 / 10;
  headroom = λ maximum. maximum * 9 / 10;
  is_space = λ c. c == 32 || c == 10;
}

abbrev prose : Text
prose = codes "Go on. Wait here. Unbroken"

-- The three sentences, and the last word wrapped.
prose_pieces :
    split_to_size budget prose
    ≡ codes "Go on." ∷ codes "Wait" ∷ codes "here." ∷ codes "Unbro" ∷ codes "ken" ∷ []
unfolding split_to_size
prose_pieces = refl

split_to_size-solid_example :
    solid_all budget (split_to_size budget prose) ≡ codes "Goon.Waithere.Unbroken"
split_to_size-solid_example = split_to_size-solid budget refl prose

abbrev lines : List Text
lines = codes "1 2" ∷ codes "3 4" ∷ codes "5 6" ∷ []

group_rows-ShowsAll_example :
    ShowsAll budget (codes "a b") lines (group_rows budget (codes "a b") lines)
group_rows-ShowsAll_example = group_rows-ShowsAll budget (codes "a b") lines

abbrev heading : Heading
heading = record { text = codes "Wait"; level = 1; unit_index = 1 }

abbrev content : Content
content = record {
  mime_type = "application/pdf";
  units = record { index = 1; text = prose; text_is_table = false } ∷ [];
  headings = heading ∷ [];
  tables =
      record {
        unit_index = 1;
        rows = (codes "a" ∷ codes "b" ∷ []) ∷ (codes "1" ∷ codes "2" ∷ []) ∷ [];
        heading = some (codes "Wait");
      }
      ∷ [];
  figures = [];
}

chunk_document-IsNumbered_example : IsNumbered 0 (chunk_document budget content)
chunk_document-IsNumbered_example = chunk_document-IsNumbered budget content

chunk_document-IsSized_example : All (IsSized 6) (chunk_document budget content)
chunk_document-IsSized_example =
    chunk_document-IsSized budget (λ _. refl) (omega arith) (omega arith) (λ _. omega arith) content
