-- ===== src/Chunker/Sections.antt =====
-- `_split_unit_by_headings`, and that it loses nothing.
use mathlib.Core.List.{append-nil}
use a_pag_ai_knowledge_base.Prelude.{
  ℕ, suc, ◌+◌, ◌-◌, ◌≤◌, ◌<◌, ◌≡◌, refl, ap, sym, ◌∙◌, inl, inr, Bool, true, false, ◌&&◌,
  Bool-cases, Option-cases, Option, none, some, List, [], ◌∷◌, ◌++◌, map, length, take, drop,
  take-append-drop, drop-add, length-drop, ◌==◌, Text, arith, if◌then◌else◌,
}
use a_pag_ai_knowledge_base.Chunker.{Budget, is_blank, concat, strip}
use a_pag_ai_knowledge_base.Chunker.Solid.{
  solid, solid_all, solid_all_cons, solid-strip, solid_blank, solid-append,
}

pub record Heading : Type 0 where
  pub text : Text
  pub level : ℕ
  pub unit_index : ℕ

abbrev starts_with : Text → Text → Bool
starts_with [] text = true
starts_with (n ∷ ns) [] = false
starts_with (n ∷ ns) (c ∷ cs) = n == c && starts_with ns cs

-- `text.find(needle)` for a needle that is not empty, with `at` added; none for -1.
unfoldable pub find_from : Text → ℕ → Text → Option ℕ
find_from needle at [] = none
find_from needle at (c ∷ cs) =
    let rest = find_from needle (suc at) cs in if starts_with needle (c ∷ cs) then some at else rest

module _ (b : Budget) where
  -- `text.find(needle, search_from)`, or none for a heading without text.
  unfoldable pub located : Text → ℕ → Heading → Option ℕ
  unfolding find_from strip
  located text search_from h =
      if is_blank (strip b h.text)
      then none
      else find_from (strip b h.text) search_from (drop search_from text)

  abbrev found_until : Option ℕ → ℕ → Text → ℕ
  found_until none search_from needle = search_from
  found_until (some at) search_from needle = at + length needle

  abbrev with_cut : Option ℕ → Heading → List (ℕ × Heading) → List (ℕ × Heading)
  with_cut none h cuts = cuts
  with_cut (some at) h cuts = (at, h) ∷ cuts

  unfoldable pub cuts_of : Text → ℕ → List Heading → List (ℕ × Heading)
  unfolding located
  cuts_of text search_from [] = []
  cuts_of text search_from (h ∷ hs) =
      let found = located text search_from h in
      let rest = cuts_of text (found_until found search_from (strip b h.text)) hs in
      with_cut found h rest

  -- A section under a heading, unless its body is blank.
  unfoldable pub with_body :
      Option Text → Text → List (Option Text × Text) → List (Option Text × Text)
  unfolding strip
  with_body heading text sections =
      if is_blank (strip b text) then sections else (heading, strip b text) ∷ sections

  abbrev end_of : Text → List (ℕ × Heading) → ℕ
  end_of text [] = length text
  end_of text (c ∷ cs) = c.0

  unfoldable pub sections_at : Text → List (ℕ × Heading) → List (Option Text × Text)
  unfolding with_body
  sections_at text [] = []
  sections_at text (c ∷ cs) =
      with_body (some (strip b c.1.text)) (take (end_of text cs - c.0) (drop c.0 text))
        (sections_at text cs)

  unfoldable pub sections_of : Text → List (ℕ × Heading) → List (Option Text × Text)
  unfolding sections_at with_body
  sections_of text [] = (none, text) ∷ []
  sections_of text (c ∷ cs) = with_body none (take c.0 text) (sections_at text (c ∷ cs))

  unfoldable pub split_unit_by_headings : Text → List Heading → List (Option Text × Text)
  unfolding strip cuts_of sections_of
  split_unit_by_headings unit_text headings =
      let text = strip b unit_text in
      if is_blank text then [] else sections_of text (cuts_of text 0 headings)

  find_from_bounds :
      (needle : Text) (at : ℕ) (text : Text) (p : ℕ)
      → find_from needle at text ≡ some p
      → (at ≤ p) × (p < at + length text)
  unfolding find_from
  find_from_bounds needle at [] p h = absurd (cc h)
  find_from_bounds needle at (c ∷ cs) p h = elim (Bool-cases (starts_with needle (c ∷ cs))) [
    | inl here ↦
        let same : at ≡ p = ground (arith, here, h) in (omega (arith, same), omega (arith, same))
    | inr later ↦
        let next : find_from needle (suc at) cs ≡ some p = ground (arith, later, h) in
        let (low, high) = find_from_bounds needle (suc at) cs p next in
        (omega (arith, low), omega (arith, high))
  ]

  located_bounds :
      (text : Text) (search_from : ℕ) (h : Heading) (p : ℕ)
      → located text search_from h ≡ some p
      → (search_from ≤ p) × (p ≤ length text)
  unfolding located
  located_bounds text search_from h p e = elim (Bool-cases (is_blank (strip b h.text))) [
    | inl blank ↦ ground (arith, blank, e)
    | inr some_text ↦
        let here : find_from (strip b h.text) search_from (drop search_from text) ≡ some p =
          ground (arith, some_text, e) in
        let (low, high) =
          find_from_bounds (strip b h.text) search_from (drop search_from text) p here in
        (low, omega (arith, low, high, length-drop search_from text))
  ]

  -- The cuts lie in the text, one behind the other.
  abbrev IsOrdered : ℕ → ℕ → List (ℕ × Heading) → Type 0
  IsOrdered low n [] = Unit
  IsOrdered low n (c ∷ cs) = (low ≤ c.0) × (c.0 ≤ n) × IsOrdered c.0 n cs

  IsOrdered-lower :
      (low low' n : ℕ) (cuts : List (ℕ × Heading))
      → low ≤ low'
      → IsOrdered low' n cuts
      → IsOrdered low n cuts
  IsOrdered-lower low low' n [] h k = tt
  IsOrdered-lower low low' n (c ∷ cs) h k = (omega (arith, h, k.0), k.1, k.2)

  cuts_of-IsOrdered :
      (text : Text) (search_from : ℕ) (hs : List Heading)
      → IsOrdered search_from (length text) (cuts_of text search_from hs)
  unfolding cuts_of
  cuts_of-IsOrdered text search_from [] = tt
  cuts_of-IsOrdered text search_from (h ∷ hs) = elim (Option-cases (located text search_from h)) [
    | inl missing ↦ rw missing (cuts_of-IsOrdered text search_from hs)
    | inr (at, found) ↦
        let needle = strip b h.text in
        let (low, high) = located_bounds text search_from h at found in
        rw found (
          low,
          high,
          IsOrdered-lower at (at + length needle) (length text)
              (cuts_of text (at + length needle) hs) (omega arith)
              (cuts_of-IsOrdered text (at + length needle) hs),
        )
  ]

  abbrev pub bodies : List (Option Text × Text) → List Text
  bodies sections = map (λ (s : Option Text × Text). s.1) sections

  with_body-solid :
      (heading : Option Text) (text : Text) (sections : List (Option Text × Text))
      → solid_all b (bodies (with_body heading text sections))
        ≡ solid b text ++ solid_all b (bodies sections)
  unfolding concat with_body
  with_body-solid heading text sections = elim (Bool-cases (is_blank (strip b text))) [
    | inl blank ↦ simp blank (
        ap (λ (l : Text). l ++ solid_all b (bodies sections))
          (sym (solid_blank b (strip b text) blank) ∙ solid-strip b text))
    | inr some_text ↦ simp some_text (
        solid_all_cons b (strip b text) (bodies sections)
        ∙ ap (λ (l : Text). l ++ solid_all b (bodies sections)) (solid-strip b text))
  ]

  slice_append :
      (text : Text) (low high : ℕ)
      → low ≤ high
      → take (high - low) (drop low text) ++ drop high text ≡ drop low text
  slice_append text low high h =
      let same : low + (high - low) ≡ high = omega (arith, h) in
      ap (λ (l : Text). take (high - low) (drop low text) ++ l)
        (ap (λ (n : ℕ). drop n text) (sym same) ∙ drop-add low (high - low) text)
      ∙ take-append-drop (high - low) (drop low text)

  drop-length : (text : Text) → drop (length text) text ≡ []
  drop-length [] = refl
  drop-length (c ∷ cs) = drop-length cs

  end_of_bound :
      (text : Text) (low : ℕ) (cuts : List (ℕ × Heading))
      → low ≤ length text
      → IsOrdered low (length text) cuts
      → low ≤ end_of text cuts
  end_of_bound text low [] h k = h
  end_of_bound text low (c ∷ cs) h k = k.0

  sections_at-solid :
      (text : Text) (low : ℕ) (cuts : List (ℕ × Heading))
      → IsOrdered low (length text) cuts
      → solid_all b (bodies (sections_at text cuts)) ≡ solid b (drop (end_of text cuts) text)
  unfolding sections_at concat
  sections_at-solid text low [] h = sym (ap (λ (l : Text). solid b l) (drop-length text))
  sections_at-solid text low (c ∷ cs) h =
      let body = take (end_of text cs - c.0) (drop c.0 text) in
      with_body-solid (some (strip b c.1.text)) body (sections_at text cs)
      ∙ ap (λ (l : Text). solid b body ++ l) (sections_at-solid text c.0 cs h.2)
      ∙ sym (solid-append b body (drop (end_of text cs) text))
      ∙ ap (λ (l : Text). solid b l)
          (slice_append text c.0 (end_of text cs) (end_of_bound text c.0 cs h.1 h.2))

  sections_of-solid :
      (text : Text) (cuts : List (ℕ × Heading))
      → IsOrdered 0 (length text) cuts
      → solid_all b (bodies (sections_of text cuts)) ≡ solid b text
  unfolding concat sections_of
  sections_of-solid text [] h = ap (λ (l : Text). solid b l) (append-nil text)
  sections_of-solid text (c ∷ cs) h =
      with_body-solid none (take c.0 text) (sections_at text (c ∷ cs))
      ∙ ap (λ (l : Text). solid b (take c.0 text) ++ l) (sections_at-solid text 0 (c ∷ cs) h)
      ∙ sym (solid-append b (take c.0 text) (drop c.0 text))
      ∙ ap (λ (l : Text). solid b l) (take-append-drop c.0 text)

  -- The sections into which the headings cut the text of a unit hold, one after the other, the
  -- characters of the text that are not white space, in their order.
  pub split_unit_by_headings-solid :
      (text : Text) (headings : List Heading)
      → solid_all b (bodies (split_unit_by_headings text headings)) ≡ solid b text
  unfolding split_unit_by_headings concat
  split_unit_by_headings-solid text headings = elim (Bool-cases (is_blank (strip b text))) [
    | inl blank ↦ simp blank (sym (solid_blank b (strip b text) blank) ∙ solid-strip b text)
    | inr some_text ↦ simp some_text (
        sections_of-solid (strip b text) (cuts_of (strip b text) 0 headings)
          (cuts_of-IsOrdered (strip b text) 0 headings)
        ∙ solid-strip b text)
  ]
