-- ===== src/Gateway/Regex.antt =====
-- The fragment of Python's `re` that src/modules/gateway/recognizers.py uses: a backtracking matcher,
-- as the list of its successes in the order in which Python tries them.
pub mod Spans
pub mod Rounds
use a_pag_ai_knowledge_base.Prelude.{
  ℕ, zero, suc, ◌+◌, Bool, true, false, not, ◌&&◌, ◌||◌, Option, none, some, List, [], ◌∷◌, ◌++◌,
  Text, length, ltb, leb, ◌==◌, if◌then◌else◌,
}

-- What the Unicode database says of a code point; `digit_value` is `int` on a decimal digit.
pub record Unicode : Type 0 where
  pub is_digit : ℕ → Bool
  pub is_word : ℕ → Bool
  pub is_space : ℕ → Bool
  pub digit_value : ℕ → ℕ

-- A place in a text: its offset, the code point before it, and the text from it on.
pub record Cursor : Type 0 where
  pub offset : ℕ
  pub before : Option ℕ
  pub rest : Text

abbrev pub advance : Cursor → ℕ → Text → Cursor
advance c x xs = record { offset = suc c.offset; before = some x; rest = xs }

-- `repeated m k r` is `r{m,m+k}`, and `many m r` is `r{m,}`; both take as much as they can.
pub data Regex : Type 0 where
  one : (ℕ → Bool) → Regex
  boundary : Regex
  seq either : Regex → Regex → Regex
  repeated : ℕ → ℕ → Regex → Regex
  many : ℕ → Regex → Regex

abbrev pub flat_map {ℓ} : {A : Type ℓ} → (A → List A) → List A → List A
flat_map f [] = []
flat_map f (x ∷ xs) = f x ++ flat_map f xs

abbrev take_one : (ℕ → Bool) → Cursor → Text → List Cursor
take_one test c [] = []
take_one test c (x ∷ xs) = if test x then advance c x xs ∷ [] else []

abbrev word_at : Unicode → Option ℕ → Bool
word_at u none = false
word_at u (some x) = u.is_word x

abbrev first_of_text : Text → Option ℕ
first_of_text [] = none
first_of_text (x ∷ xs) = some x

-- `\b`
abbrev pub at_boundary : Unicode → Cursor → Bool
at_boundary u c =
    let next_is_word = word_at u (first_of_text c.rest) in
    if word_at u c.before then not next_is_word else next_is_word

repeat_ends : ℕ → ℕ → (Cursor → List Cursor) → Cursor → List Cursor
repeat_ends zero zero r c = c ∷ []
repeat_ends zero (suc k) r c = flat_map (repeat_ends zero k r) (r c) ++ (c ∷ [])
repeat_ends (suc m) k r c = flat_map (repeat_ends m k r) (r c)

-- The cursors behind a match that starts at the cursor, the preferred one first. An unbounded
-- repetition of an item that consumes text repeats at most as often as there is text left.
unfoldable pub ends : Unicode → Regex → Cursor → List Cursor
unfolding repeat_ends
ends u (one test) c = take_one test c c.rest
ends u boundary c = if at_boundary u c then c ∷ [] else []
ends u (seq r s) c = flat_map (ends u s) (ends u r c)
ends u (either r s) c = ends u r c ++ ends u s c
ends u (repeated m k r) c = repeat_ends m k (ends u r) c
ends u (many m r) c = repeat_ends m (length c.rest) (ends u r) c

abbrev pub first_end : List Cursor → Option Cursor
first_end [] = none
first_end (c ∷ cs) = some c

-- One step of the scan: past a match, or past one code point.
abbrev skip : Cursor → Text → Cursor
skip c [] = c
skip c (x ∷ xs) = advance c x xs

abbrev past_match : Cursor → Cursor → Cursor
past_match c e = if ltb c.offset e.offset then e else skip c c.rest

abbrev at_end : Cursor → Bool
at_end c = elim c.rest [ [] ↦ true | x ∷ xs ↦ false ]

abbrev found_at : Cursor → Option Cursor → List (ℕ × ℕ)
found_at c none = []
found_at c (some e) = (c.offset, e.offset) ∷ []

abbrev resume_at : Cursor → Option Cursor → Cursor
resume_at c none = skip c c.rest
resume_at c (some e) = past_match c e

-- `finditer`: the spans of the matches from left to right. Each round moves on by a code point at
-- least, so as many rounds as the text has code points, and one for its end, see every match.
pub scan : ℕ → Unicode → Regex → Cursor → List (ℕ × ℕ)
unfolding ends
scan zero u r c = []
scan (suc rounds) u r c =
    let found = first_end (ends u r c) in
    let later = scan rounds u r (resume_at c found) in
    found_at c found ++ (if at_end c then [] else later)

abbrev pub beginning : Text → Cursor
beginning text = record { offset = 0; before = none; rest = text }

unfoldable pub finditer : Unicode → Regex → Text → List (ℕ × ℕ)
unfolding scan
finditer u r text = scan (suc (length text)) u r (beginning text)
