-- ===== src/Generation.antt =====
-- AnswerService of src/modules/generation/service.py, with models.py: an answer is written from
-- retrieved passages that cross the gateway, and its citations are checked. The wording of the system
-- prompt, the digits of Unicode and str.strip are parameters.
pub mod Markers
pub mod Answer
pub mod Provenance
pub mod Examples
use a_pag_ai_knowledge_base.Prelude.{
  ℕ, zero, suc, ◌+◌, ◌*◌, ◌-◌, String, Bool, true, false, not, ◌&&◌, ◌||◌, Option, none, some, List,
  [], ◌∷◌, ◌++◌, map, any, take, get_elem?, length, Text, codes, decimal, ltb, leb, ◌==◌,
  if◌then◌else◌,
}
use a_pag_ai_knowledge_base.Stages.{Fallible, raised, returned}
use a_pag_ai_knowledge_base.Gateway.Regex.{Unicode}
use a_pag_ai_knowledge_base.Gateway.Boundary.{
  BoundaryRecord, Settings, Provider, Kept, Crossing, refused, answered, Refusal, keep_passages,
  masked_texts, zip_texts, send,
}
use a_pag_ai_knowledge_base.Retrieval.Search.{RetrievedChunk}

pub record Citation : Type 0 where
  pub marker : ℕ
  pub chunk_id : ℕ
  pub document_id : ℕ
  pub filename : String
  pub page_number : Option ℕ
  pub section_heading : Option String
  pub text : Text

pub record GeneratedAnswer : Type 0 where
  pub question : Text
  pub answer : Text
  pub grounded : Bool
  pub citations : List Citation
  pub invalid_markers : List ℕ
  pub excluded_restricted : ℕ
  pub model : Text
  pub input_tokens : ℕ
  pub output_tokens : ℕ
  pub boundary : Option BoundaryRecord

-- What a provider gives for a prompt: the text and the tokens in and out, or a GenerationError.
abbrev pub Reply : Type 0
Reply = Fallible (Text × ℕ × ℕ)

pub record Writing : Type 0 where
  pub settings : Settings
  pub unicode : Unicode
  pub provider : Provider Reply
  pub system_prompt : Text
  pub generation_max_passages : ℕ
  pub digit_value : ℕ → Option ℕ
  pub strip : Text → Text

-- How far a match of `\[(\d+)\]` has come.
pub data Reading : Type 0 where
  outside opened : Reading
  read : ℕ → Reading

abbrev on_digit : Reading → Option ℕ → Reading
on_digit r none = outside
on_digit outside (some d) = outside
on_digit opened (some d) = read d
on_digit (read n) (some d) = read (n * 10 + d)

abbrev next_reading : (ℕ → Option ℕ) → Reading → ℕ → Reading
next_reading digit_value r c = if c == 91 then opened else on_digit r (digit_value c)

abbrev emit : Reading → ℕ → List ℕ → List ℕ
emit (read n) c rest = if c == 93 then n ∷ rest else rest
emit r c rest = rest

-- The numbers of the markers, from left to right.
unfoldable pub markers_from : (ℕ → Option ℕ) → Reading → Text → List ℕ
markers_from digit_value r [] = []
markers_from digit_value r (c ∷ text) =
    emit r c (markers_from digit_value (next_reading digit_value r c) text)

abbrev pub is_valid_marker : ℕ → ℕ → Bool
is_valid_marker count n = leb 1 n && leb n count

abbrev pub is_listed_in : ℕ → List ℕ → Bool
is_listed_in n l = any (λ m. m == n) l

-- `if n not in seen: seen.append(n)`, for the numbers that pass the test.
unfoldable pub collect : (ℕ → Bool) → List ℕ → List ℕ → List ℕ
collect test seen [] = seen
collect test seen (n ∷ numbers) =
    collect test (if test n && not (is_listed_in n seen) then seen ++ n ∷ [] else seen) numbers

insert_number : ℕ → List ℕ → List ℕ
insert_number n [] = n ∷ []
insert_number n (m ∷ l) = let rest = insert_number n l in if leb n m then n ∷ m ∷ l else m ∷ rest

unfoldable pub sort_numbers : List ℕ → List ℕ
unfolding insert_number
sort_numbers [] = []
sort_numbers (n ∷ l) = insert_number n (sort_numbers l)

abbrev begins_with : Text → Text → Bool
begins_with [] text = true
begins_with (x ∷ xs) [] = false
begins_with (x ∷ xs) (y ∷ text) = x == y && begins_with xs text

-- `text.replace(part, "")`; the first argument says how many characters of a match are left.
unfoldable pub remove_all : ℕ → Text → Text → Text
remove_all n part [] = []
remove_all (suc n) part (c ∷ text) = remove_all n part text
remove_all zero part (c ∷ text) =
    let behind = remove_all (length part - 1) part text in
    let kept = remove_all zero part text in if begins_with part (c ∷ text) then behind else c ∷ kept

-- f"[{n}]"
abbrev marker_text : ℕ → Text
marker_text n = 91 ∷ decimal n ++ 93 ∷ []

unfoldable pub remove_markers : List ℕ → Text → Text
unfolding remove_all
remove_markers [] text = text
remove_markers (n ∷ invalid) text = remove_markers invalid (remove_all 0 (marker_text n) text)

-- `re.sub(r" {2,}", " ", text)`
abbrev starts_blank : Text → Bool
starts_blank [] = false
starts_blank (c ∷ text) = c == 32

unfoldable squeeze_blanks : Text → Text
squeeze_blanks [] = []
squeeze_blanks (c ∷ text) =
    let rest = squeeze_blanks text in if c == 32 && starts_blank rest then rest else c ∷ rest

-- `re.sub(r" +([.,;:])", r"\1", text)`
abbrev starts_stop : Text → Bool
starts_stop [] = false
starts_stop (c ∷ text) = c == 46 || (c == 44 || (c == 59 || c == 58))

unfoldable close_up : Text → Text
close_up [] = []
close_up (c ∷ text) =
    let rest = close_up text in if c == 32 && starts_stop rest then rest else c ∷ rest

abbrev cite : ℕ → RetrievedChunk → Citation
cite n c = record {
  marker = n;
  chunk_id = c.chunk_id;
  document_id = c.document_id;
  filename = c.filename;
  page_number = c.page_number;
  section_heading = c.section_heading;
  text = c.text;
}

-- `chunks[n - 1]`, for each number in range.
unfoldable pub citations_of : List RetrievedChunk → List ℕ → List Citation
citations_of chunks [] = []
citations_of chunks (n ∷ numbers) =
    let rest = citations_of chunks numbers in
    elim (get_elem? chunks (n - 1)) [ none ↦ rest | some c ↦ cite n c ∷ rest ]

module _ (w : Writing) where
  abbrev pub numbers_in : Text → List ℕ
  numbers_in text = markers_from w.digit_value outside text

  -- `_verify_citations`
  unfoldable pub verify_citations : Text → List RetrievedChunk → Text × List Citation × List ℕ
  unfolding markers_from collect sort_numbers remove_markers squeeze_blanks close_up citations_of
  verify_citations text chunks =
      let seen = collect (is_valid_marker (length chunks)) [] (numbers_in text) in
      let invalid = collect (λ n. not (is_valid_marker (length chunks) n)) [] (numbers_in text) in
      (
        w.strip (close_up (squeeze_blanks (remove_markers invalid text))),
        citations_of chunks (sort_numbers seen),
        sort_numbers invalid,
      )
