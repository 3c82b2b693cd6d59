-- ===== src/Chunker/Splitting.antt =====
-- Splitting to size: its depth, and that it loses nothing.
use mathlib.Core.List.{append-nil}
use a_pag_ai_knowledge_base.Prelude.{
  ℕ, zero, suc, ◌+◌, ◌-◌, ◌≤◌, ◌<◌, ◌≡◌, ap, sym, ◌∙◌, inl, inr, true, false, not, Bool-cases,
  Option, none, some, List, [], ◌∷◌, map, keep_if, length, keep_if-true, ◌==◌, tests, All, All-map,
  Text, arith,
}
use a_pag_ai_knowledge_base.Chunker.{
  Budget, is_blank, concat, fits, lstrip, rstrip, strip, paragraph_break, sentence_end, push,
  split_from, parts_of, cut, split_within, split_to_size, is_several,
}
use a_pag_ai_knowledge_base.Chunker.Solid.{
  solid, solid_all, solid-strip, solid_blank, paragraph_break_spaces, sentence_end_spaces,
  parts_of-solid, hard_wrap-solid, pack-solid,
}

pub length-is_blank : {A : Type 0} (xs : List A) → is_blank xs ≡ false → 1 ≤ length xs
length-is_blank [] h = absurd (cc h)
length-is_blank (x ∷ xs) h = omega arith

module _ (b : Budget) where
  length-lstrip : (text : Text) → length (lstrip b text) ≤ length text
  unfolding lstrip
  length-lstrip [] = omega arith
  length-lstrip (c ∷ cs) = ground (arith, length-lstrip cs)

  length-rstrip : (text : Text) → length (rstrip b text) ≤ length text
  unfolding rstrip
  length-rstrip [] = omega arith
  length-rstrip (c ∷ cs) = ground (arith, length-rstrip cs)

  pub length-strip : (text : Text) → length (strip b text) ≤ length text
  unfolding strip
  length-strip text = omega (arith, length-rstrip (lstrip b text), length-lstrip text)

  abbrev total : List Text → ℕ
  total [] = 0
  total (p ∷ ps) = length p + total ps

  total-strip : (ps : List Text) → total (map (strip b) ps) ≤ total ps
  total-strip [] = omega arith
  total-strip (p ∷ ps) = omega (arith, length-strip p, total-strip ps)

  total_keep : (ps : List Text) → total (keep_if (λ p. not (is_blank p)) ps) ≤ total ps
  total_keep [] = omega arith
  total_keep ([] ∷ ps) = omega (arith, total_keep ps)
  total_keep ((c ∷ cs) ∷ ps) = omega (arith, total_keep ps)

  total-push : (c : ℕ) (ps : List Text) → total (push c ps) ≤ suc (total ps)
  total-push c [] = omega arith
  total-push c (p ∷ ps) = omega arith

  total-split_from :
      (found : Option ℕ → Text → ℕ) (before : Option ℕ) (skip : ℕ) (text : Text)
      → total (split_from found before skip text) ≤ length text
  unfolding split_from
  total-split_from found before zero [] = omega arith
  total-split_from found before (suc skip) [] = omega arith
  total-split_from found before (suc skip) (c ∷ cs) =
      omega (arith, total-split_from found (some c) skip cs)
  total-split_from found before zero (c ∷ cs) =
      let n = found before (c ∷ cs) in
      let rest = split_from found (some c) (n - 1) cs in
      let short = total-split_from found (some c) (n - 1) cs in
      elim (Bool-cases (n == 0)) [
        | inl here ↦ rw here (omega (arith, short, total-push c rest))
        | inr match ↦ rw match (omega (arith, short))
      ]

  abbrev IsPart : Text → Type 0
  IsPart p = not (is_blank p) ≡ true

  count_total : (ps : List Text) → All IsPart ps → length ps ≤ total ps
  count_total [] h = omega arith
  count_total ([] ∷ ps) h = absurd (cc h.0)
  count_total ((c ∷ cs) ∷ ps) h = omega (arith, count_total ps h.1)

  -- Each of several parts is shorter than all of them.
  shorter :
      (n : ℕ) (ps : List Text)
      → All IsPart ps
      → suc (total ps) ≤ n + length ps
      → All (λ p. length p ≤ n) ps
  shorter n [] h k = tt
  shorter n ([] ∷ ps) h k = absurd (cc h.0)
  shorter n ((c ∷ cs) ∷ ps) h k =
      (omega (arith, k, count_total ps h.1), shorter n ps h.1 (omega (arith, k)))

  -- Of several parts each is shorter than the text.
  pub parts_of_shorter :
      (found : Option ℕ → Text → ℕ) (n : ℕ) (text : Text)
      → length text ≤ suc n
      → is_several (parts_of b found text) ≡ true
      → All (λ p. length p ≤ n) (parts_of b found text)
  parts_of_shorter found n text short several =
      let pieces = split_from found none 0 text in
      shorter n (parts_of b found text)
        (keep_if-true (λ p. not (is_blank p)) (map (strip b) pieces))
        (omega (
          tests,
          several,
          short,
          total_keep (map (strip b) pieces),
          total-strip pieces,
          total-split_from found none 0 text,
        ))

  module _ (breaks : b.is_space 10 ≡ true) where
    cut-solid :
        (split : Text → List Text) (n : ℕ) (text : Text)
        → length text ≤ suc n
        → ((p : Text) → length p ≤ n → solid_all b (split p) ≡ solid b p)
        → solid_all b (cut b split text) ≡ solid b text
    unfolding concat cut
    cut-solid split n text short h =
        elim (Bool-cases (is_several (parts_of b (paragraph_break b) text))) [
          | inl paragraphs ↦ simp paragraphs (
              pack-solid b breaks split [] (parts_of b (paragraph_break b) text) (
                All-map h (parts_of b (paragraph_break b) text)
                  (parts_of_shorter (paragraph_break b) n text short paragraphs))
              ∙ parts_of-solid b breaks (paragraph_break b) text (paragraph_break_spaces b breaks))
          | inr whole ↦ elim (Bool-cases (is_several (parts_of b (sentence_end b) text))) [
            | inl sentences ↦
                simp (whole, sentences)
                  (pack-solid b breaks split [] (parts_of b (sentence_end b) text) (
                      All-map h (parts_of b (sentence_end b) text)
                        (parts_of_shorter (sentence_end b) n text short sentences))
                    ∙ parts_of-solid b breaks (sentence_end b) text (sentence_end_spaces b breaks))
            | inr unbroken ↦ simp (whole, unbroken) (hard_wrap-solid b breaks text)
          ]
        ]

    split_within-solid :
        (fuel : ℕ) (text : Text)
        → length text < fuel
        → solid_all b (split_within b fuel text) ≡ solid b text
    unfolding split_within concat
    split_within-solid zero text enough = absurd (omega (arith, enough))
    split_within-solid (suc fuel) text enough =
        let t = strip b text in
        let small = length-strip text in
        elim (Bool-cases (is_blank t)) [
          | inl blank ↦ simp blank (sym (solid_blank b t blank) ∙ solid-strip b text)
          | inr some_text ↦ elim (Bool-cases (fits b t)) [
            | inl fit ↦
                simp (some_text, fit)
                  (ap (λ (l : Text). solid b l) (append-nil t) ∙ solid-strip b text)
            | inr wide ↦
                let big = length-is_blank t some_text in
                simp (some_text, wide)
                  (cut-solid (split_within b fuel) (length t - 1) t (omega arith) (λ p short.
                      split_within-solid fuel p (omega (arith, short, small, big, enough)))
                    ∙ solid-strip b text)
          ]
        ]

    -- Where a line feed counts as white space, cutting any text to size loses nothing: the pieces,
    -- one after the other, hold the characters of the text that are not white space, in their
    -- order.
    pub split_to_size-solid : (text : Text) → solid_all b (split_to_size b text) ≡ solid b text
    unfolding split_to_size
    split_to_size-solid text = split_within-solid (suc (length text)) text (omega arith)
