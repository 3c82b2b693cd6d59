-- ===== src/Chunker/Bounds.antt =====
-- Under a budget in characters every piece of a text is within the maximum.
use a_pag_ai_knowledge_base.Prelude.{
  ℕ, zero, suc, ◌≤◌, ◌≡◌, inl, inr, max, false, not, ◌&&◌, Bool-cases, List, [], ◌∷◌, ◌++◌, map,
  length, take, drop, length-take, ltb, leb, tests, All, All-append, All-keep_if, Text, arith,
}
use a_pag_ai_knowledge_base.Chunker.{
  Budget, is_blank, fits, strip, paragraph_break, sentence_end, parts_of, slices, hard_wrap,
  flushed, joined, pack_part, pack, cut, split_within, split_to_size, is_several,
}
use a_pag_ai_knowledge_base.Chunker.Splitting.{length-strip}

module _ (b : Budget) (counts : (text : Text) → b.measure text ≡ length text)
    (ordered : b.target ≤ b.maximum) (positive : 1 ≤ b.maximum)
    (narrow : (n : ℕ) → b.wrap_width b.maximum n n ≤ b.maximum) where
  abbrev IsWithin : Text → Type 0
  IsWithin p = length p ≤ b.maximum

  slices-IsWithin :
      (rounds width : ℕ) (text : Text)
      → width ≤ b.maximum
      → All IsWithin (map (strip b) (slices rounds width text))
  unfolding slices
  slices-IsWithin zero width text h = tt
  slices-IsWithin (suc rounds) width [] h = tt
  slices-IsWithin (suc rounds) width (c ∷ cs) h = (
    omega (arith, length-strip b (take width (c ∷ cs)), length-take width (c ∷ cs), h),
    slices-IsWithin rounds width (drop width (c ∷ cs)) h,
  )

  hard_wrap-IsWithin : (text : Text) → All IsWithin (hard_wrap b text)
  unfolding hard_wrap
  hard_wrap-IsWithin text = elim (Bool-cases (leb (b.measure text) 0)) [
    | inl empty ↦ rw empty (omega (tests, empty, counts text), tt)
    | inr some_size ↦
        let width = max 1 (b.wrap_width b.maximum (length text) (b.measure text)) in
        let bound : b.wrap_width b.maximum (length text) (b.measure text) ≤ b.maximum =
          rw counts (narrow (length text)) in
        rw some_size (
          All-keep_if IsWithin (λ p. not (is_blank p))
            (map (strip b) (slices (length text) width text))
            (slices-IsWithin (length text) width text (omega (arith, bound, positive))))
  ]

  flushed-IsWithin : (buffer : Text) → length buffer ≤ b.maximum → All IsWithin (flushed buffer)
  flushed-IsWithin [] h = tt
  flushed-IsWithin (c ∷ cs) h = (h, tt)

  joined-IsWithin :
      (buffer part : Text)
      → ltb b.maximum (b.measure part) ≡ false
      → (not (is_blank buffer) && ltb b.target (b.measure (joined buffer part))) ≡ false
      → length (joined buffer part) ≤ b.maximum
  joined-IsWithin [] part fit room = omega (tests, fit, counts part)
  joined-IsWithin (c ∷ cs) part fit room =
      omega (tests, room, counts (c ∷ cs ++ 10 ∷ 10 ∷ part), ordered)

  pack_part-IsWithin :
      (split : Text → List Text) (buffer part : Text)
      → All IsWithin (split part)
      → length buffer ≤ b.maximum
      → All IsWithin (pack_part b split buffer part).0
        × (length (pack_part b split buffer part).1 ≤ b.maximum)
  pack_part-IsWithin split buffer part h short =
      elim (Bool-cases (ltb b.maximum (b.measure part))) [
        | inl long ↦ rw long (
          All-append IsWithin (flushed buffer) (split part) (flushed-IsWithin buffer short) h,
          omega arith,
        )
        | inr fit ↦
            elim (Bool-cases
              (not (is_blank buffer) && ltb b.target (b.measure (joined buffer part)))) [
                | inl full ↦ simp (fit, full) ((short, tt), omega (tests, fit, counts part))
                | inr room ↦ simp (fit, room) (tt, joined-IsWithin buffer part fit room)
              ]
      ]

  pack-IsWithin :
      (split : Text → List Text) (buffer : Text) (parts : List Text)
      → ((p : Text) → All IsWithin (split p))
      → length buffer ≤ b.maximum
      → All IsWithin (pack b split buffer parts)
  unfolding pack
  pack-IsWithin split buffer [] h short = flushed-IsWithin buffer short
  pack-IsWithin split buffer (part ∷ parts) h short =
      let round = pack_part b split buffer part in
      let (out, short') = pack_part-IsWithin split buffer part (h part) short in
      All-append IsWithin round.0 (pack b split round.1 parts) out
        (pack-IsWithin split round.1 parts h short')

  cut-IsWithin :
      (split : Text → List Text) (text : Text)
      → ((p : Text) → All IsWithin (split p))
      → All IsWithin (cut b split text)
  unfolding cut
  cut-IsWithin split text h = elim (Bool-cases (is_several (parts_of b (paragraph_break b) text))) [
    | inl paragraphs ↦
        simp paragraphs
          (pack-IsWithin split [] (parts_of b (paragraph_break b) text) h (omega arith))
    | inr whole ↦ elim (Bool-cases (is_several (parts_of b (sentence_end b) text))) [
      | inl sentences ↦
          simp (whole, sentences)
            (pack-IsWithin split [] (parts_of b (sentence_end b) text) h (omega arith))
      | inr unbroken ↦ simp (whole, unbroken) (hard_wrap-IsWithin text)
    ]
  ]

  split_within-IsWithin : (fuel : ℕ) (text : Text) → All IsWithin (split_within b fuel text)
  unfolding split_within
  split_within-IsWithin zero text = tt
  split_within-IsWithin (suc fuel) text =
      let t = strip b text in
      elim (Bool-cases (is_blank t)) [
        | inl blank ↦ simp blank tt
        | inr some_text ↦ elim (Bool-cases (fits b t)) [
          | inl fit ↦ simp (some_text, fit) (omega (tests, fit, counts t), tt)
          | inr wide ↦
              simp (some_text, wide)
                (cut-IsWithin (split_within b fuel) t (λ p. split_within-IsWithin fuel p))
        ]
      ]

  pub split_to_size-IsWithin :
      (text : Text) → All (λ p. length p ≤ b.maximum) (split_to_size b text)
  unfolding split_to_size
  split_to_size-IsWithin text = split_within-IsWithin (suc (length text)) text
