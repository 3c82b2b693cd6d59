-- ===== src/Chunker/Tables.antt =====
-- `_render_table`, `_cell_text` and `_header_row`.
use a_pag_ai_knowledge_base.Prelude.{
  ℕ, zero, suc, ◌*◌, max, Bool, not, Option, List, [], ◌∷◌, ◌++◌, map, keep_if, length, take, drop,
  any, ltb, ◌==◌, Text, codes, if◌then◌else◌,
}
use a_pag_ai_knowledge_base.Chunker.{Budget, is_blank, strip, join_lines, group_rows, push}

pub record ExtractedTable : Type 0 where
  pub unit_index : ℕ
  pub rows : List (List Text)
  pub heading : Option Text

-- `separator.join(parts)`
abbrev pub join : Text → List Text → Text
join separator [] = []
join separator (p ∷ []) = p
join separator (p ∷ q ∷ qs) = p ++ separator ++ join separator (q ∷ qs)

-- The characters at which `str.splitlines` ends a line.
abbrev ends_line : ℕ → Bool
ends_line c = any (λ (d : ℕ). c == d) (10 ∷ 11 ∷ 12 ∷ 13 ∷ 28 ∷ 29 ∷ 30 ∷ 133 ∷ 8232 ∷ 8233 ∷ [])

-- The lines of a text, and blank ones between a return and a line feed and at the end, which the caller
-- drops with the other blank lines.
unfoldable pub lines_of : Text → List Text
lines_of [] = [] ∷ []
lines_of (c ∷ cs) = let rest = lines_of cs in if ends_line c then [] ∷ rest else push c rest

-- `row[i]`, with an empty row out of range.
abbrev row_at : ℕ → List (List Text) → List Text
row_at n [] = []
row_at zero (r ∷ rs) = r
row_at (suc n) (r ∷ rs) = row_at n rs

-- `sum(1 for c in row if c)`
abbrev filled : List Text → ℕ
filled row = length (keep_if (λ c. not (is_blank c)) row)

abbrev largest : List ℕ → ℕ
largest [] = 0
largest (n ∷ ns) = max n (largest ns)

-- The first of the rows from index `i` on that is more than half as full as `widest`, or 0.
abbrev first_full : ℕ → ℕ → List (List Text) → ℕ
first_full widest i [] = 0
first_full widest i (r ∷ rs) = if ltb widest (filled r * 2) then i else first_full widest (suc i) rs

unfoldable pub header_row : List (List Text) → ℕ
header_row rows = first_full (largest (take 12 (map filled rows))) 0 (take 3 rows)

module _ (b : Budget) where
  unfoldable pub cell_text : Text → Text
  unfolding lines_of strip
  cell_text cell =
      join (codes "; ") (keep_if (λ p. not (is_blank p)) (map (strip b) (lines_of cell)))

  -- The header with its caption, and the lines of the body; none for a table without rows.
  unfoldable pub table_lines : List (List Text) → Text × List Text
  unfolding header_row join_lines
  table_lines rows =
      let start = header_row rows in
      let caption =
        map (λ (row : List Text). join (codes " ") (keep_if (λ c. not (is_blank c)) row))
          (take start rows) in
      (
        join_lines (caption ++ join (codes " | ") (row_at start rows) ∷ []),
        map (join (codes " | ")) (drop (suc start) rows),
      )

  unfoldable pub show_lines : Text → List Text → List Text
  unfolding group_rows
  show_lines header [] = header ∷ []
  show_lines header (l ∷ ls) = group_rows b header (l ∷ ls)

  unfoldable pub cells_of : ExtractedTable → List (List Text)
  unfolding cell_text
  cells_of table = map (map cell_text) (keep_if (λ row. not (is_blank row)) table.rows)

  unfoldable pub render_table : ExtractedTable → List Text
  unfolding cells_of table_lines show_lines
  render_table table =
      let rows = cells_of table in
      let shown = table_lines rows in if is_blank rows then [] else show_lines shown.0 shown.1
