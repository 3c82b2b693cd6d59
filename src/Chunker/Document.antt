-- ===== src/Chunker/Document.antt =====
-- `Chunker.chunk`: the passages of a normalized document.
use a_pag_ai_knowledge_base.Prelude.{
  ℕ, Bool, true, false, not, ◌&&◌, ◌||◌, Option, none, some, List, [], ◌∷◌, ◌++◌, keep_if, length,
  any, ltb, ◌==◌, Text, text_eq, codes, String, str_eq, if◌then◌else◌,
}
use a_pag_ai_knowledge_base.Stages.{Chunk}
use a_pag_ai_knowledge_base.Chunker.{Budget, lstrip, split_to_size}
use a_pag_ai_knowledge_base.Chunker.Tables.{ExtractedTable, render_table}
use a_pag_ai_knowledge_base.Chunker.Sections.{Heading, split_unit_by_headings}

pub record ExtractedFigure : Type 0 where
  pub unit_index : ℕ
  pub text : Text
  pub caption : Option Text
  pub heading : Option Text

pub record NormalizedUnit : Type 0 where
  pub index : ℕ
  pub text : Text
  pub text_is_table : Bool

-- The fields of `NormalizationResult` that the chunker reads.
pub record Content : Type 0 where
  pub mime_type : String
  pub units : List NormalizedUnit
  pub headings : List Heading
  pub tables : List ExtractedTable
  pub figures : List ExtractedFigure

-- The variables of the loops.
pub record Progress : Type 0 where
  pub chunks : List Chunk
  pub current_heading : Option Text
  pub pending : List ExtractedTable
  pub pending_figures : List ExtractedFigure

abbrev pub units_stand_alone : String → Bool
units_stand_alone mime_type =
    str_eq mime_type "application/vnd.openxmlformats-officedocument.presentationml.presentation"
    || str_eq mime_type "application/vnd.openxmlformats-officedocument.spreadsheetml.sheet"

-- `heading == h` for an optional heading.
abbrev pub is_heading : Option Text → Text → Bool
is_heading none h = false
is_heading (some g) h = text_eq g h

-- `heading or fallback`
abbrev pub or_else : Option Text → Option Text → Option Text
or_else none fallback = fallback
or_else (some []) fallback = fallback
or_else (some (c ∷ cs)) fallback = some (c ∷ cs)

-- A passage for each piece, numbered on from the passages there are.
unfoldable pub add_pieces : List Text → ℕ → Option Text → Bool → List Chunk → List Chunk
add_pieces [] unit_index heading is_table chunks = chunks
add_pieces (piece ∷ pieces) unit_index heading is_table chunks =
    add_pieces pieces unit_index heading is_table (
      chunks
      ++ record {
        index = length chunks;
        text = piece;
        page_number = some unit_index;
        section_heading = heading;
        is_table = is_table;
        scale = "section";
      }
        ∷ [])

-- The label of a figure with its caption, and the text read from it below.
abbrev captioned : Text → Option Text → Text
captioned label none = label
captioned label (some []) = label
captioned label (some (c ∷ cs)) = label ++ 32 ∷ c ∷ cs

abbrev labelled : Text → Text → Text
labelled label [] = label
labelled label (c ∷ cs) = label ++ 10 ∷ c ∷ cs

abbrev pub figure_body : ExtractedFigure → Text
figure_body figure =
    labelled (captioned (codes "[Figure] (text read from a picture by OCR)") figure.caption)
      figure.text

module _ (b : Budget) where
  -- `" ".join(text.split())`; `due` when white space stands before.
  unfoldable pub squeeze_from : Bool → Text → Text
  squeeze_from due [] = []
  squeeze_from due (c ∷ cs) =
      let rest = squeeze_from (b.is_space c) cs in
      if b.is_space c then rest else if due then 32 ∷ c ∷ rest else c ∷ rest

  unfoldable pub squeeze : Text → Text
  unfolding squeeze_from lstrip
  squeeze text = squeeze_from false (lstrip b text)

  -- `add_table` for each, under its own heading or, without one, the other.
  unfoldable pub add_tables : List ExtractedTable → ℕ → Option Text → List Chunk → List Chunk
  unfolding add_pieces render_table
  add_tables [] unit_index fallback chunks = chunks
  add_tables (t ∷ ts) unit_index fallback chunks =
      add_tables ts unit_index fallback
        (add_pieces (render_table b t) unit_index (or_else t.heading fallback) true chunks)

  unfoldable pub add_figures : List ExtractedFigure → ℕ → Option Text → List Chunk → List Chunk
  unfolding add_pieces split_to_size
  add_figures [] unit_index fallback chunks = chunks
  add_figures (f ∷ fs) unit_index fallback chunks = add_figures fs unit_index fallback (
      add_pieces (split_to_size b (figure_body f)) unit_index (or_else f.heading fallback) false
        chunks)

  -- The body is its own heading, and a table or figure stands under it.
  unfoldable pub is_bare : Text → Text → Progress → Bool
  unfolding squeeze
  is_bare heading body s =
      text_eq (squeeze body) (squeeze heading)
      && (any (λ (t : ExtractedTable). is_heading t.heading heading) s.pending
          || any (λ (f : ExtractedFigure). is_heading f.heading heading) s.pending_figures)

  -- A round of the loop over the sections of a unit.
  unfoldable pub add_section : ℕ → Option Text → Text → Progress → Progress
  unfolding add_tables add_figures is_bare
  add_section unit_index none body s = record s {
    chunks = add_pieces (split_to_size b body) unit_index s.current_heading false s.chunks;
  }
  add_section unit_index (some heading) body s =
      let pieces = if is_bare heading body s then [] else split_to_size b body in
      let with_prose = add_pieces pieces unit_index (some heading) false s.chunks in
      let its_tables = keep_if (λ (t : ExtractedTable). is_heading t.heading heading) s.pending in
      let its_figures =
        keep_if (λ (f : ExtractedFigure). is_heading f.heading heading) s.pending_figures in
      record {
        chunks =
            add_figures its_figures unit_index (some heading)
              (add_tables its_tables unit_index (some heading) with_prose);
        current_heading = some heading;
        pending = keep_if (λ t. not (is_heading t.heading heading)) s.pending;
        pending_figures = keep_if (λ f. not (is_heading f.heading heading)) s.pending_figures;
      }

  unfoldable pub add_sections : ℕ → List (Option Text × Text) → Progress → Progress
  unfolding add_section
  add_sections unit_index [] s = s
  add_sections unit_index (x ∷ xs) s = add_sections unit_index xs (add_section unit_index x.0 x.1 s)

  -- What is left of the tables and figures goes behind the sections.
  unfoldable pub add_rest : ℕ → List Heading → Progress → Progress
  unfolding add_tables add_figures
  add_rest unit_index headings s =
      let fallback = if ltb 1 (length headings) then none else s.current_heading in
      record s {
        chunks =
            add_figures s.pending_figures unit_index fallback
              (add_tables s.pending unit_index fallback s.chunks);
      }

  abbrev pub headings_of : Content → NormalizedUnit → List Heading
  headings_of result unit = keep_if (λ (h : Heading). h.unit_index == unit.index) result.headings

  -- A worksheet's text is its table once more.
  unfoldable pub prose_of : Content → NormalizedUnit → List (Option Text × Text)
  unfolding split_unit_by_headings
  prose_of result unit =
      if unit.text_is_table
      then []
      else split_unit_by_headings b unit.text (headings_of result unit)

  abbrev pub start_unit : Content → NormalizedUnit → Progress → Progress
  start_unit result unit s = record {
    chunks = s.chunks;
    current_heading = if units_stand_alone result.mime_type then none else s.current_heading;
    pending = keep_if (λ t. t.unit_index == unit.index) result.tables;
    pending_figures = keep_if (λ f. f.unit_index == unit.index) result.figures;
  }

  -- A round of the loop over the units.
  unfoldable pub add_unit : Content → NormalizedUnit → Progress → Progress
  unfolding add_sections add_rest prose_of
  add_unit result unit s =
      add_rest unit.index (headings_of result unit)
        (add_sections unit.index (prose_of result unit) (start_unit result unit s))

  unfoldable pub add_units : Content → List NormalizedUnit → Progress → Progress
  unfolding add_unit
  add_units result [] s = s
  add_units result (u ∷ us) s = add_units result us (add_unit result u s)

  unfoldable pub chunk_document : Content → List Chunk
  unfolding add_units
  chunk_document result =
      (add_units result result.units
        (record { chunks = []; current_heading = none; pending = []; pending_figures = [] })).chunks
