-- ===== src/Chunker.antt =====
-- Cutting of text and tables to size: src/modules/document_pipeline/chunking/chunker.py, over a budget
-- of chunking/sizing.py. A text is the list of its code points; which of them are white space is a
-- parameter, as are the two products with the float 0.9.
pub mod Rows
pub mod Solid
pub mod Splitting
pub mod Bounds
pub mod Tables
pub mod Sections
pub mod Document
pub mod Numbering
pub mod Examples
use a_pag_ai_knowledge_base.Prelude.{
  ℕ, zero, suc, ◌+◌, ◌-◌, ◌/◌, max, Bool, true, false, not, ◌&&◌, ◌||◌, Option, none, some, List,
  [], ◌∷◌, ◌++◌, map, keep_if, length, take, drop, ltb, leb, ◌==◌, Text, if◌then◌else◌,
}

-- `SizeBudget`. `wrap_width` is int(maximum * (characters / measured) * 0.9) of the maximum, the
-- characters and the measure; `headroom` is int(maximum * 0.9).
pub record Budget : Type 0 where
  pub target : ℕ
  pub maximum : ℕ
  pub measure : Text → ℕ
  pub wrap_width : ℕ → ℕ → ℕ → ℕ
  pub headroom : ℕ → ℕ
  pub is_space : ℕ → Bool

abbrev pub is_blank : {A : Type 0} → List A → Bool
is_blank [] = true
is_blank (x ∷ xs) = false

unfoldable pub concat : {A : Type 0} → List (List A) → List A
concat [] = []
concat (p ∷ ps) = p ++ concat ps

abbrev pub ends_sentence : Option ℕ → Bool
ends_sentence none = false
ends_sentence (some c) = c == 46 || (c == 33 || c == 63)

abbrev pub push : ℕ → List Text → List Text
push c [] = (c ∷ []) ∷ []
push c (p ∷ ps) = (c ∷ p) ∷ ps

-- `pattern.split(text)`, where `skip` characters of the text still belong to the last match.
unfoldable pub split_from : (Option ℕ → Text → ℕ) → Option ℕ → ℕ → Text → List Text
split_from found before skip [] = [] ∷ []
split_from found before (suc skip) (c ∷ cs) = split_from found (some c) skip cs
split_from found before zero (c ∷ cs) =
    let n = found before (c ∷ cs) in
    let rest = split_from found (some c) (n - 1) cs in if n == 0 then push c rest else [] ∷ rest

-- `text[i : i + width]` for i in range(0, len(text), width), in at most `rounds` rounds.
unfoldable pub slices : ℕ → ℕ → Text → List Text
slices zero width text = []
slices (suc rounds) width [] = []
slices (suc rounds) width (c ∷ cs) = take width (c ∷ cs) ∷ slices rounds width (drop width (c ∷ cs))

abbrev pub flushed : Text → List Text
flushed buffer = if is_blank buffer then [] else buffer ∷ []

abbrev pub joined : Text → Text → Text
joined buffer part = if is_blank buffer then part else buffer ++ 10 ∷ 10 ∷ part

abbrev pub is_several : List Text → Bool
is_several parts = ltb 1 (length parts)

-- `"\n".join(lines)`
unfoldable pub join_lines : List Text → Text
join_lines [] = []
join_lines (l ∷ []) = l
join_lines (l ∷ m ∷ ms) = l ++ 10 ∷ join_lines (m ∷ ms)

module _ (b : Budget) where
  abbrev pub fits : Text → Bool
  fits text = leb (b.measure text) b.maximum

  -- `text.lstrip()`
  unfoldable pub lstrip : Text → Text
  lstrip [] = []
  lstrip (c ∷ cs) = let rest = lstrip cs in if b.is_space c then rest else c ∷ cs

  -- `text.rstrip()`
  unfoldable pub rstrip : Text → Text
  rstrip [] = []
  rstrip (c ∷ cs) = let rest = rstrip cs in if is_blank rest && b.is_space c then [] else c ∷ rest

  unfoldable pub strip : Text → Text
  unfolding lstrip rstrip
  strip text = rstrip (lstrip text)

  -- Of the white space that the text starts with, how much ends in the last line break of it.
  unfoldable pub up_to_last_break : Text → ℕ
  up_to_last_break [] = 0
  up_to_last_break (c ∷ cs) =
      let rest = up_to_last_break cs in
      if not (b.is_space c)
      then 0
      else if not (rest == 0)
      then suc rest
      else if c == 10
      then 1
      else 0

  -- The length of the match of `\n\s*\n` here, 0 where there is none.
  unfoldable pub paragraph_break : Option ℕ → Text → ℕ
  unfolding up_to_last_break
  paragraph_break before [] = 0
  paragraph_break before (c ∷ cs) =
      let rest = up_to_last_break cs in if c == 10 && not (rest == 0) then suc rest else 0

  unfoldable pub leading_space : Text → ℕ
  leading_space [] = 0
  leading_space (c ∷ cs) = let rest = leading_space cs in if b.is_space c then suc rest else 0

  -- The length of the match of `(?<=[.!?])\s+` here, behind the character `before`.
  unfoldable pub sentence_end : Option ℕ → Text → ℕ
  unfolding leading_space
  sentence_end before text = if ends_sentence before then leading_space text else 0

  -- `[p.strip() for p in pattern.split(text) if p.strip()]`
  abbrev pub parts_of : (Option ℕ → Text → ℕ) → Text → List Text
  parts_of found text = keep_if (λ p. not (is_blank p)) (map strip (split_from found none 0 text))

  unfoldable pub hard_wrap : Text → List Text
  unfolding slices strip
  hard_wrap text =
      let measured = b.measure text in
      let width = max 1 (b.wrap_width b.maximum (length text) measured) in
      if leb measured 0
      then text ∷ []
      else keep_if (λ p. not (is_blank p)) (map strip (slices (length text) width text))

  -- A round of the packing: what it puts out, and the buffer behind it.
  abbrev pub pack_part : (Text → List Text) → Text → Text → List Text × Text
  pack_part split buffer part =
      if ltb b.maximum (b.measure part)
      then (flushed buffer ++ split part, [])
      else if not (is_blank buffer) && ltb b.target (b.measure (joined buffer part))
      then (buffer ∷ [], part)
      else ([], joined buffer part)

  unfoldable pub pack : (Text → List Text) → Text → List Text → List Text
  pack split buffer [] = flushed buffer
  pack split buffer (part ∷ parts) =
      let round = pack_part split buffer part in round.0 ++ pack split round.1 parts

  unfoldable pub cut : (Text → List Text) → Text → List Text
  unfolding hard_wrap pack split_from strip paragraph_break sentence_end
  cut split text =
      let paragraphs = parts_of paragraph_break text in
      let sentences = parts_of sentence_end text in
      if is_several paragraphs
      then pack split [] paragraphs
      else if is_several sentences
      then pack split [] sentences
      else hard_wrap text

  -- `_split_to_size`, nested at most `fuel` deep.
  unfoldable pub split_within : ℕ → Text → List Text
  unfolding cut strip
  split_within zero text = []
  split_within (suc fuel) text =
      let t = strip text in
      if is_blank t then [] else if fits t then t ∷ [] else cut (split_within fuel) t

  unfoldable pub split_to_size : Text → List Text
  unfolding split_within
  split_to_size text = split_within (suc (length text)) text

  -- `_fit_group`, nested at most `fuel` deep.
  unfoldable pub fit_group : ℕ → Text → List Text → List Text
  unfolding join_lines
  fit_group zero header rows = join_lines (header ∷ rows) ∷ []
  fit_group (suc fuel) header rows =
      let text = join_lines (header ∷ rows) in
      let middle = length rows / 2 in
      let rest =
        fit_group fuel header (take middle rows) ++ fit_group fuel header (drop middle rows) in
      if leb (length rows) 1 || fits text then text ∷ [] else rest

  -- The groups of `_group_rows` behind the rows of `buffer`, whose sizes come to `running`.
  unfoldable pub groups_of : ℕ → ℕ → List Text → ℕ → List Text → List (List Text)
  groups_of header_size ceiling buffer running [] = if is_blank buffer then [] else buffer ∷ []
  groups_of header_size ceiling buffer running (line ∷ lines) =
      let full = not (is_blank buffer) && ltb ceiling (running + b.measure line) in
      let kept = if full then [] else buffer in
      let size = if full then header_size else running in
      let rest = groups_of header_size ceiling (kept ++ line ∷ []) (size + b.measure line) lines in
      if full then buffer ∷ rest else rest

  unfoldable pub fit_groups : Text → List (List Text) → List Text
  unfolding fit_group
  fit_groups header [] = []
  fit_groups header (g ∷ gs) = fit_group (length g) header g ++ fit_groups header gs

  unfoldable pub group_rows : Text → List Text → List Text
  unfolding groups_of fit_groups
  group_rows header lines =
      let header_size = b.measure header in
      let ceiling = max (header_size + 1) (b.headroom b.maximum) in
      fit_groups header (groups_of header_size ceiling [] header_size lines)
