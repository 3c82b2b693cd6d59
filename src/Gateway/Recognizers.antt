-- ===== src/Gateway/Recognizers.antt =====
-- `RECOGNIZERS` and `find_all` of src/modules/gateway/recognizers.py.
use a_pag_ai_knowledge_base.Prelude.{
  ℕ, ◌-◌, Bool, true, not, ◌&&◌, ◌||◌, Option, none, some, List, [], ◌∷◌, ◌++◌, Text, codes, take,
  drop, any, ltb, leb, ◌==◌, if◌then◌else◌,
}
use a_pag_ai_knowledge_base.Gateway.Regex.{
  Unicode, Regex, one, boundary, seq, either, repeated, many, finditer,
}
use a_pag_ai_knowledge_base.Gateway.Checks.{luhn, verhoeff, plausible_landline, plausible_phone}

pub record Recognizer : Type 0 where
  pub label : Text
  pub pattern : Regex
  pub validate : Option (Text → Bool)

pub record Finding : Type 0 where
  pub label : Text
  pub start : ℕ
  pub end : ℕ
  pub text : Text

abbrev lit : ℕ → Regex
lit c = one (λ x. x == c)

abbrev between : ℕ → ℕ → ℕ → Bool
between lo hi x = leb lo x && leb x hi

-- `[A-Z]`, `[A-Za-z]`, `[0-9A-Z]`, `[ -]`
abbrev upper : ℕ → Bool
upper = between b'A' b'Z'

abbrev letter : ℕ → Bool
letter x = upper x || between b'a' b'z' x

abbrev upper_or_digit : ℕ → Bool
upper_or_digit x = between b'0' b'9' x || upper x

abbrev space_or_dash : ℕ → Bool
space_or_dash x = x == b' ' || x == b'-'

-- The parts of a pattern, one after the other; `r?`, `r{n}`.
abbrev all_of : List Regex → Regex
all_of [] = repeated 0 0 boundary
all_of (r ∷ []) = r
all_of (r ∷ s ∷ rs) = seq r (all_of (s ∷ rs))

abbrev optional : Regex → Regex
optional = repeated 0 1

abbrev times : ℕ → Regex → Regex
times n = repeated n 0

module _ (u : Unicode) where
  abbrev digit : Regex
  digit = one u.is_digit

  -- `[\s-]` and `[\w-]`
  abbrev blank_or_dash : Regex
  blank_or_dash = one (λ x. u.is_space x || x == b'-')

  abbrev word_or_dash : ℕ → Bool
  word_or_dash x = u.is_word x || x == b'-'

  abbrev plus_91 : Regex
  plus_91 = all_of (lit b'+' ∷ lit b'9' ∷ lit b'1' ∷ optional blank_or_dash ∷ [])

  abbrev gstin_pattern : Regex
  gstin_pattern = all_of (
      boundary
      ∷ times 2 digit
      ∷ times 5 (one upper)
      ∷ times 4 digit
      ∷ one upper
      ∷ one upper_or_digit
      ∷ lit b'Z'
      ∷ one upper_or_digit
      ∷ boundary
      ∷ [])

  abbrev pub pan_pattern : Regex
  pan_pattern = all_of (boundary ∷ times 5 (one upper) ∷ times 4 digit ∷ one upper ∷ boundary ∷ [])

  abbrev aadhaar_pattern : Regex
  aadhaar_pattern = all_of (
      boundary
      ∷ times 4 digit
      ∷ optional (one space_or_dash)
      ∷ times 4 digit
      ∷ optional (one space_or_dash)
      ∷ times 4 digit
      ∷ boundary
      ∷ [])

  abbrev card_pattern : Regex
  card_pattern =
      all_of (
        boundary ∷ repeated 12 6 (seq digit (optional (one space_or_dash))) ∷ digit ∷ boundary ∷ [])

  abbrev landline_pattern : Regex
  landline_pattern = all_of (
      optional plus_91
      ∷ optional (lit b'0')
      ∷ repeated 2 2 digit
      ∷ optional blank_or_dash
      ∷ repeated 3 1 digit
      ∷ optional blank_or_dash
      ∷ repeated 3 2 digit
      ∷ boundary
      ∷ [])

  abbrev ifsc_pattern : Regex
  ifsc_pattern =
      all_of
        (boundary ∷ times 4 (one upper) ∷ lit b'0' ∷ times 6 (one upper_or_digit) ∷ boundary ∷ [])

  -- `[\w.%+-]`
  abbrev local_part : ℕ → Bool
  local_part x = word_or_dash x || (x == b'.' || (x == b'%' || x == b'+'))

  abbrev email_pattern : Regex
  email_pattern = all_of (
      boundary
      ∷ many 1 (one local_part)
      ∷ lit b'@'
      ∷ many 1 (one word_or_dash)
      ∷ many 0 (seq (lit b'.') (many 1 (one word_or_dash)))
      ∷ lit b'.'
      ∷ many 2 (one letter)
      ∷ boundary
      ∷ [])

  abbrev mobile_pattern : Regex
  mobile_pattern =
      either
        (all_of (
          optional (either plus_91 (seq boundary (lit b'0')))
          ∷ one (between b'6' b'9')
          ∷ times 4 digit
          ∷ optional blank_or_dash
          ∷ times 5 digit
          ∷ boundary
          ∷ []))
        (all_of (plus_91 ∷ times 10 digit ∷ boundary ∷ []))

  abbrev recognizer : Text → Regex → Option (Text → Bool) → Recognizer
  recognizer label pattern validate = record {
    label = label;
    pattern = pattern;
    validate = validate;
  }

  unfoldable pub recognizers : List Recognizer
  unfolding verhoeff luhn plausible_landline plausible_phone
  recognizers =
      recognizer (codes "GSTIN") gstin_pattern none
      ∷ recognizer (codes "PAN") pan_pattern none
      ∷ recognizer (codes "AADHAAR") aadhaar_pattern (some (verhoeff u))
      ∷ recognizer (codes "CREDIT_CARD") card_pattern (some (luhn u))
      ∷ recognizer (codes "PHONE") landline_pattern (some (plausible_landline u))
      ∷ recognizer (codes "IFSC") ifsc_pattern none
      ∷ recognizer (codes "EMAIL") email_pattern none
      ∷ recognizer (codes "PHONE") mobile_pattern (some (plausible_phone u))
      ∷ []

-- `text[start:end]`
abbrev pub slice : Text → ℕ → ℕ → Text
slice text start end = take (end - start) (drop start text)

-- `start < c_end and end > c_start`, for a span and a claimed finding.
abbrev pub overlaps : ℕ → ℕ → Finding → Bool
overlaps start end f = ltb start f.end && ltb f.start end

abbrev pub passes : Option (Text → Bool) → Text → Bool
passes none value = true
passes (some check) value = check value

abbrev pub finding_of : Text → Recognizer → ℕ × ℕ → Finding
finding_of text rec span = record {
  label = rec.label;
  start = span.0;
  end = span.1;
  text = slice text span.0 span.1;
}

-- The inner loop's body. `claimed` holds the spans of `findings`.
unfoldable pub consider : Text → Recognizer → List Finding → ℕ × ℕ → List Finding
consider text rec findings span =
    if any (overlaps span.0 span.1) findings
    then findings
    else if not (passes rec.validate (slice text span.0 span.1))
    then findings
    else findings ++ finding_of text rec span ∷ []

unfoldable pub consider_all : Text → Recognizer → List Finding → List (ℕ × ℕ) → List Finding
unfolding consider
consider_all text rec findings [] = findings
consider_all text rec findings (span ∷ spans) =
    consider_all text rec (consider text rec findings span) spans

unfoldable pub run_recognizers : Unicode → Text → List Recognizer → List Finding → List Finding
unfolding consider_all finditer
run_recognizers u text [] findings = findings
run_recognizers u text (rec ∷ recs) findings =
    run_recognizers u text recs (consider_all text rec findings (finditer u rec.pattern text))

-- `findings.sort(key=lambda f: f.start)`: a stable sort.
unfoldable pub insert_by_start : Finding → List Finding → List Finding
insert_by_start f [] = f ∷ []
insert_by_start f (g ∷ gs) =
    let rest = insert_by_start f gs in if leb f.start g.start then f ∷ g ∷ gs else g ∷ rest

unfoldable pub sort_by_start : List Finding → List Finding
unfolding insert_by_start
sort_by_start [] = []
sort_by_start (f ∷ fs) = insert_by_start f (sort_by_start fs)

unfoldable pub find_all : Unicode → Text → List Finding
unfolding run_recognizers sort_by_start recognizers
find_all u text = sort_by_start (run_recognizers u text (recognizers u) [])
