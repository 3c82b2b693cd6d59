-- ===== src/Chunker/Numbering.antt =====
-- The passages of a document: their numbers, and the sizes of those that are no tables.
use a_pag_ai_knowledge_base.Prelude.{
  ℕ, suc, ◌+◌, ◌≤◌, ◌≡◌, inl, inr, Bool, true, false, Bool-cases, Option, none, some, List, [], ◌∷◌,
  ◌++◌, length, keep_if, ltb, All, All-append, Text, arith, if◌then◌else◌,
}
use a_pag_ai_knowledge_base.Stages.{Chunk}
use a_pag_ai_knowledge_base.Chunker.{Budget, split_to_size}
use a_pag_ai_knowledge_base.Chunker.Bounds.{split_to_size-IsWithin}
use a_pag_ai_knowledge_base.Chunker.Tables.{ExtractedTable, render_table}
use a_pag_ai_knowledge_base.Chunker.Sections.{Heading}
use a_pag_ai_knowledge_base.Chunker.Document.{
  ExtractedFigure, NormalizedUnit, Content, Progress, add_pieces, add_tables, add_figures,
  figure_body, is_bare, add_section, add_sections, add_rest, add_unit, add_units, chunk_document,
  or_else, is_heading, start_unit, prose_of, headings_of,
}

-- A property of lists of passages that every addition of pieces keeps holds of the whole document.
module _ {P : List Chunk → Type 0} (b : Budget)
    (prose : (text : Text) (unit_index : ℕ) (heading : Option Text) (chunks : List Chunk)
      → P chunks
      → P (add_pieces (split_to_size b text) unit_index heading false chunks))
    (table : (t : ExtractedTable) (unit_index : ℕ) (heading : Option Text) (chunks : List Chunk)
      → P chunks
      → P (add_pieces (render_table b t) unit_index heading true chunks)) where
  add_tables_keeps :
      (ts : List ExtractedTable) (unit_index : ℕ) (fallback : Option Text) (chunks : List Chunk)
      → P chunks
      → P (add_tables b ts unit_index fallback chunks)
  unfolding add_tables
  add_tables_keeps [] unit_index fallback chunks h = h
  add_tables_keeps (t ∷ ts) unit_index fallback chunks h =
      add_tables_keeps ts unit_index fallback _
        (table t unit_index (or_else t.heading fallback) chunks h)

  add_figures_keeps :
      (fs : List ExtractedFigure) (unit_index : ℕ) (fallback : Option Text) (chunks : List Chunk)
      → P chunks
      → P (add_figures b fs unit_index fallback chunks)
  unfolding add_figures
  add_figures_keeps [] unit_index fallback chunks h = h
  add_figures_keeps (f ∷ fs) unit_index fallback chunks h =
      add_figures_keeps fs unit_index fallback _
        (prose (figure_body f) unit_index (or_else f.heading fallback) chunks h)

  add_section_keeps :
      (unit_index : ℕ) (heading : Option Text) (body : Text) (s : Progress)
      → P s.chunks
      → P (add_section b unit_index heading body s).chunks
  unfolding add_section
  add_section_keeps unit_index none body s h = prose body unit_index s.current_heading s.chunks h
  add_section_keeps unit_index (some heading) body s h =
      add_figures_keeps
        (keep_if (λ (f : ExtractedFigure). is_heading f.heading heading) s.pending_figures)
        unit_index (some heading) _
        (add_tables_keeps (keep_if (λ (t : ExtractedTable). is_heading t.heading heading) s.pending)
          unit_index (some heading) _ with_prose)
    where
      with_prose : P (
          add_pieces
            (if is_bare b heading body s then [] else split_to_size b body)
            unit_index
            (some heading)
            false
            s.chunks)
      with_prose = elim (Bool-cases (is_bare b heading body s)) [
        | inl bare ↦ rw (bare, add_pieces) h
        | inr full ↦ rw full (prose body unit_index (some heading) s.chunks h)
      ]

  add_sections_keeps :
      (unit_index : ℕ) (sections : List (Option Text × Text)) (s : Progress)
      → P s.chunks
      → P (add_sections b unit_index sections s).chunks
  unfolding add_sections
  add_sections_keeps unit_index [] s h = h
  add_sections_keeps unit_index (x ∷ xs) s h =
      add_sections_keeps unit_index xs (add_section b unit_index x.0 x.1 s)
        (add_section_keeps unit_index x.0 x.1 s h)

  add_rest_keeps :
      (unit_index : ℕ) (headings : List Heading) (s : Progress)
      → P s.chunks
      → P (add_rest b unit_index headings s).chunks
  unfolding add_rest
  add_rest_keeps unit_index headings s h =
      let fallback = if ltb 1 (length headings) then none else s.current_heading in
      add_figures_keeps s.pending_figures unit_index fallback _
        (add_tables_keeps s.pending unit_index fallback s.chunks h)

  add_unit_keeps :
      (result : Content) (unit : NormalizedUnit) (s : Progress)
      → P s.chunks
      → P (add_unit b result unit s).chunks
  unfolding add_unit
  add_unit_keeps result unit s h =
      let start = start_unit b result unit s in
      let sections = prose_of b result unit in
      add_rest_keeps unit.index (headings_of b result unit)
        (add_sections b unit.index sections start) (add_sections_keeps unit.index sections start h)

  add_units_keeps :
      (result : Content) (units : List NormalizedUnit) (s : Progress)
      → P s.chunks
      → P (add_units b result units s).chunks
  unfolding add_units
  add_units_keeps result [] s h = h
  add_units_keeps result (u ∷ us) s h =
      add_units_keeps result us (add_unit b result u s) (add_unit_keeps result u s h)

  chunk_document_keeps : (result : Content) → P [] → P (chunk_document b result)
  unfolding chunk_document
  chunk_document_keeps result h = add_units_keeps result result.units _ h

-- The passages are numbered from `n` on.
abbrev pub IsNumbered : ℕ → List Chunk → Type 0
IsNumbered n [] = Unit
IsNumbered n (c ∷ cs) = (c.index ≡ n) × IsNumbered (suc n) cs

IsNumbered-append :
    (n : ℕ) (cs : List Chunk) (c : Chunk)
    → IsNumbered n cs
    → c.index ≡ n + length cs
    → IsNumbered n (cs ++ c ∷ [])
IsNumbered-append n [] c h k = (omega (arith, k), tt)
IsNumbered-append n (d ∷ cs) c h k = (h.0, IsNumbered-append (suc n) cs c h.1 (omega (arith, k)))

add_pieces-IsNumbered :
    (pieces : List Text) (unit_index : ℕ) (heading : Option Text) (is_table : Bool)
    (chunks : List Chunk)
    → IsNumbered 0 chunks
    → IsNumbered 0 (add_pieces pieces unit_index heading is_table chunks)
unfolding add_pieces
add_pieces-IsNumbered [] unit_index heading is_table chunks h = h
add_pieces-IsNumbered (piece ∷ pieces) unit_index heading is_table chunks h =
    add_pieces-IsNumbered pieces unit_index heading is_table _
      (IsNumbered-append 0 chunks _ h (omega arith))

-- Under any budget the passages of a document are numbered from 0 on, in the order in which they
-- are returned.
pub chunk_document-IsNumbered :
    (b : Budget) (result : Content) → IsNumbered 0 (chunk_document b result)
chunk_document-IsNumbered b result =
    chunk_document_keeps {P = IsNumbered 0} b
      (λ text unit_index heading chunks h.
        add_pieces-IsNumbered (split_to_size b text) unit_index heading false chunks h)
      (λ t unit_index heading chunks h.
        add_pieces-IsNumbered (render_table b t) unit_index heading true chunks h)
      result tt

-- Under the budget in characters of Bounds, a passage that is no table is within the maximum.
abbrev pub IsSized : ℕ → Chunk → Type 0
IsSized n c = c.is_table ≡ false → length c.text ≤ n

add_prose-IsSized :
    (n : ℕ) (pieces : List Text) (unit_index : ℕ) (heading : Option Text) (chunks : List Chunk)
    → All (λ p. length p ≤ n) pieces
    → All (IsSized n) chunks
    → All (IsSized n) (add_pieces pieces unit_index heading false chunks)
unfolding add_pieces
add_prose-IsSized n [] unit_index heading chunks h k = k
add_prose-IsSized n (piece ∷ pieces) unit_index heading chunks h k =
    add_prose-IsSized n pieces unit_index heading _ h.1
      (All-append (IsSized n) chunks _ k ((λ _. h.0), tt))

add_table-IsSized :
    (n : ℕ) (pieces : List Text) (unit_index : ℕ) (heading : Option Text) (chunks : List Chunk)
    → All (IsSized n) chunks
    → All (IsSized n) (add_pieces pieces unit_index heading true chunks)
unfolding add_pieces
add_table-IsSized n [] unit_index heading chunks k = k
add_table-IsSized n (piece ∷ pieces) unit_index heading chunks k =
    add_table-IsSized n pieces unit_index heading _
      (All-append (IsSized n) chunks _ k ((λ shows. absurd (cc shows)), tt))

-- Where a budget measures characters, its target is at most its maximum, the maximum is positive,
-- and the width of the last-resort wrap is at most the maximum, every passage of a document that is
-- not part of a table has at most the maximum of characters.
pub chunk_document-IsSized :
    (b : Budget)
    → ((text : Text) → b.measure text ≡ length text)
    → b.target ≤ b.maximum
    → 1 ≤ b.maximum
    → ((n : ℕ) → b.wrap_width b.maximum n n ≤ b.maximum)
    → (result : Content) → All (IsSized b.maximum) (chunk_document b result)
chunk_document-IsSized b counts ordered positive narrow result =
    chunk_document_keeps {P = All (IsSized b.maximum)} b
      (λ text unit_index heading chunks h.
        add_prose-IsSized b.maximum (split_to_size b text) unit_index heading chunks
          (split_to_size-IsWithin b counts ordered positive narrow text) h)
      (λ t unit_index heading chunks h.
        add_table-IsSized b.maximum (render_table b t) unit_index heading chunks h)
      result tt
