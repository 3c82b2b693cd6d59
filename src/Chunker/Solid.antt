-- ===== src/Chunker/Solid.antt =====
-- What cutting to size keeps: every character that is not white space, in its place.
use mathlib.Core.List.{append_assoc, append-nil}
use a_pag_ai_knowledge_base.Prelude.{
  ℕ, zero, suc, ◌-◌, ◌≤◌, ◌≡◌, refl, ap, sym, subst, ◌∙◌, inl, inr, max, true, false, not, ◌&&◌,
  Bool-cases, Option, none, some, List, [], ◌∷◌, ◌++◌, map, keep_if, length, take, drop,
  take-append-drop, length-drop, ltb, leb, ◌==◌, All, Text, arith,
}
use a_pag_ai_knowledge_base.Chunker.{
  Budget, is_blank, concat, lstrip, rstrip, strip, up_to_last_break, paragraph_break, leading_space,
  sentence_end, push, split_from, parts_of, slices, hard_wrap, flushed, joined, pack_part, pack,
}

module _ (b : Budget) where
  -- The characters that are not white space.
  abbrev pub solid : Text → Text
  solid text = keep_if (λ c. not (b.is_space c)) text

  pub solid-append : (p q : Text) → solid (p ++ q) ≡ solid p ++ solid q
  solid-append [] q = refl
  solid-append (c ∷ p) q = ground (arith, solid-append p q)

  solid-lstrip : (text : Text) → solid (lstrip b text) ≡ solid text
  unfolding lstrip
  solid-lstrip [] = refl
  solid-lstrip (c ∷ cs) = ground (arith, solid-lstrip cs)

  pub solid_blank : (text : Text) → is_blank text ≡ true → solid text ≡ []
  solid_blank [] h = refl
  solid_blank (c ∷ cs) h = absurd (cc h)

  solid-rstrip : (text : Text) → solid (rstrip b text) ≡ solid text
  unfolding rstrip
  solid-rstrip [] = refl
  solid-rstrip (c ∷ cs) = ground (arith, solid-rstrip cs, solid_blank (rstrip b cs))

  pub solid-strip : (text : Text) → solid (strip b text) ≡ solid text
  unfolding strip
  solid-strip text = solid-rstrip (lstrip b text) ∙ solid-lstrip text

  -- Of a list of pieces.
  abbrev pub solid_all : List Text → Text
  solid_all ps = solid (concat ps)

  pub solid_all_cons : (p : Text) (ps : List Text) → solid_all (p ∷ ps) ≡ solid p ++ solid_all ps
  unfolding concat
  solid_all_cons p ps = solid-append p (concat ps)

  solid_all-append : (ps qs : List Text) → solid_all (ps ++ qs) ≡ solid_all ps ++ solid_all qs
  unfolding concat
  solid_all-append [] qs = refl
  solid_all-append (p ∷ ps) qs =
      solid_all_cons p (ps ++ qs)
      ∙ ap (λ (l : Text). solid p ++ l) (solid_all-append ps qs)
      ∙ sym (append_assoc (solid p) (solid_all ps) (solid_all qs))
      ∙ ap (λ (l : Text). l ++ solid_all qs) (sym (solid_all_cons p ps))

  solid_all-strip : (ps : List Text) → solid_all (map (strip b) ps) ≡ solid_all ps
  unfolding concat
  solid_all-strip [] = refl
  solid_all-strip (p ∷ ps) =
      solid_all_cons (strip b p) (map (strip b) ps)
      ∙ ap (λ (l : Text). l ++ solid_all (map (strip b) ps)) (solid-strip p)
      ∙ ap (λ (l : Text). solid p ++ l) (solid_all-strip ps)
      ∙ sym (solid_all_cons p ps)

  solid_all_keep : (ps : List Text) → solid_all (keep_if (λ p. not (is_blank p)) ps) ≡ solid_all ps
  unfolding concat
  solid_all_keep [] = refl
  solid_all_keep ([] ∷ ps) = solid_all_keep ps
  solid_all_keep ((c ∷ cs) ∷ ps) =
      solid_all_cons (c ∷ cs) (keep_if (λ p. not (is_blank p)) ps)
      ∙ ap (λ (l : Text). solid (c ∷ cs) ++ l) (solid_all_keep ps)
      ∙ sym (solid_all_cons (c ∷ cs) ps)

  -- What a pattern matches is white space.
  abbrev pub MatchesSpace : (Option ℕ → Text → ℕ) → Type 0
  MatchesSpace found =
      (before : Option ℕ) (text : Text)
      → All (λ c. b.is_space c ≡ true) (take (found before text) text)

  take_tail :
      (n c : ℕ) (cs : Text)
      → All (λ d. b.is_space d ≡ true) (take n (c ∷ cs))
      → All (λ d. b.is_space d ≡ true) (take (n - 1) cs)
  take_tail zero c cs h = tt
  take_tail (suc n) c cs h =
      let same : n ≡ suc n - 1 = omega arith in
      subst (λ (m : ℕ). All (λ d. b.is_space d ≡ true) (take m cs)) same h.1

  take_head :
      (n c : ℕ) (cs : Text)
      → (n == 0) ≡ false
      → All (λ d. b.is_space d ≡ true) (take n (c ∷ cs))
      → b.is_space c ≡ true
  take_head zero c cs some_here h = absurd (cc some_here)
  take_head (suc n) c cs some_here h = h.0

  concat-push : (c : ℕ) (ps : List Text) → concat (push c ps) ≡ c ∷ concat ps
  unfolding concat
  concat-push c [] = refl
  concat-push c (p ∷ ps) = refl

  solid_cons : (c : ℕ) (p q : Text) → solid p ≡ solid q → solid (c ∷ p) ≡ solid (c ∷ q)
  solid_cons c p q h = ground (arith, h)

  split_from-solid :
      (found : Option ℕ → Text → ℕ) (before : Option ℕ) (skip : ℕ) (text : Text)
      → MatchesSpace found
      → All (λ c. b.is_space c ≡ true) (take skip text)
      → solid_all (split_from found before skip text) ≡ solid text
  unfolding split_from concat
  split_from-solid found before zero [] spaces h = refl
  split_from-solid found before (suc skip) [] spaces h = refl
  split_from-solid found before (suc skip) (c ∷ cs) spaces h =
      rw h.0 (split_from-solid found (some c) skip cs spaces h.1)
  split_from-solid found before zero (c ∷ cs) spaces h =
      let n = found before (c ∷ cs) in
      let rest = split_from found (some c) (n - 1) cs in
      let same : solid_all rest ≡ solid cs =
        split_from-solid found (some c) (n - 1) cs spaces
          (take_tail n c cs (spaces before (c ∷ cs))) in
      elim (Bool-cases (n == 0)) [
        | inl none_here ↦
            rw none_here
              (ap (λ (l : Text). solid l) (concat-push c rest) ∙ solid_cons c (concat rest) cs same)
        | inr some_here ↦ rw (some_here, take_head n c cs some_here (spaces before (c ∷ cs))) same
      ]

  module _ (breaks : b.is_space 10 ≡ true) where
    up_to_last_break_spaces :
        (text : Text) → All (λ c. b.is_space c ≡ true) (take (up_to_last_break b text) text)
    unfolding up_to_last_break
    up_to_last_break_spaces [] = tt
    up_to_last_break_spaces (c ∷ cs) = ground (arith, up_to_last_break_spaces cs)

    pub paragraph_break_spaces : MatchesSpace (paragraph_break b)
    unfolding paragraph_break
    paragraph_break_spaces before [] = tt
    paragraph_break_spaces before (c ∷ cs) = ground (arith, up_to_last_break_spaces cs, breaks)

    leading_space_spaces :
        (text : Text) → All (λ c. b.is_space c ≡ true) (take (leading_space b text) text)
    unfolding leading_space
    leading_space_spaces [] = tt
    leading_space_spaces (c ∷ cs) = ground (arith, leading_space_spaces cs)

    pub sentence_end_spaces : MatchesSpace (sentence_end b)
    unfolding sentence_end
    sentence_end_spaces before text = ground (arith, leading_space_spaces text)

    pub parts_of-solid :
        (found : Option ℕ → Text → ℕ) (text : Text)
        → MatchesSpace found
        → solid_all (parts_of b found text) ≡ solid text
    parts_of-solid found text spaces =
        solid_all_keep (map (strip b) (split_from found none 0 text))
        ∙ solid_all-strip (split_from found none 0 text)
        ∙ split_from-solid found none 0 text spaces tt

    concat-slices :
        (rounds width : ℕ) (text : Text)
        → length text ≤ rounds
        → 1 ≤ width
        → concat (slices rounds width text) ≡ text
    unfolding slices concat
    concat-slices zero width [] enough wide = refl
    concat-slices zero width (c ∷ cs) enough wide = absurd (omega (arith, enough))
    concat-slices (suc rounds) width [] enough wide = refl
    concat-slices (suc rounds) width (c ∷ cs) enough wide =
        ap (λ (l : Text). take width (c ∷ cs) ++ l)
          (concat-slices rounds width (drop width (c ∷ cs))
            (omega (arith, length-drop width (c ∷ cs), enough, wide)) wide)
        ∙ take-append-drop width (c ∷ cs)

    pub hard_wrap-solid : (text : Text) → solid_all (hard_wrap b text) ≡ solid text
    unfolding hard_wrap concat
    hard_wrap-solid text = elim (Bool-cases (leb (b.measure text) 0)) [
      | inl empty ↦ rw empty (ap (λ (l : Text). solid l) (append-nil text))
      | inr some_size ↦
          let width = max 1 (b.wrap_width b.maximum (length text) (b.measure text)) in
          rw some_size (
            solid_all_keep (map (strip b) (slices (length text) width text))
            ∙ solid_all-strip (slices (length text) width text)
            ∙ ap (λ (l : Text). solid l)
                (concat-slices (length text) width text (omega arith) (omega arith)))
    ]

    joined-solid : (buffer part : Text) → solid (joined buffer part) ≡ solid buffer ++ solid part
    joined-solid [] part = refl
    joined-solid (c ∷ cs) part =
        solid-append (c ∷ cs) (10 ∷ 10 ∷ part)
        ∙ ap (λ (l : Text). solid (c ∷ cs) ++ l) (rw breaks refl)

    flushed-solid : (buffer : Text) → solid_all (flushed buffer) ≡ solid buffer
    unfolding concat
    flushed-solid [] = refl
    flushed-solid (c ∷ cs) = ap (λ (l : Text). solid l) (append-nil (c ∷ cs))

    pack_part-solid :
        (split : Text → List Text) (buffer part : Text)
        → solid_all (split part) ≡ solid part
        → solid_all (pack_part b split buffer part).0 ++ solid (pack_part b split buffer part).1
          ≡ solid buffer ++ solid part
    unfolding concat
    pack_part-solid split buffer part h = elim (Bool-cases (ltb b.maximum (b.measure part))) [
      | inl long ↦ rw long (
          append-nil (solid_all (flushed buffer ++ split part))
          ∙ solid_all-append (flushed buffer) (split part)
          ∙ ap (λ (l : Text). l ++ solid_all (split part)) (flushed-solid buffer)
          ∙ ap (λ (l : Text). solid buffer ++ l) h)
      | inr short ↦
          elim (Bool-cases
            (not (is_blank buffer) && ltb b.target (b.measure (joined buffer part)))) [
              | inl full ↦
                  simp (short, full) (ap (λ (l : Text). solid l ++ solid part) (append-nil buffer))
              | inr room ↦ simp (short, room) (joined-solid buffer part)
            ]
    ]

    pub pack-solid :
        (split : Text → List Text) (buffer : Text) (parts : List Text)
        → All (λ p. solid_all (split p) ≡ solid p) parts
        → solid_all (pack b split buffer parts) ≡ solid buffer ++ solid_all parts
    unfolding pack concat
    pack-solid split buffer [] h = flushed-solid buffer ∙ sym (append-nil (solid buffer))
    pack-solid split buffer (part ∷ parts) h =
        let round = pack_part b split buffer part in
        solid_all-append round.0 (pack b split round.1 parts)
        ∙ ap (λ (l : Text). solid_all round.0 ++ l) (pack-solid split round.1 parts h.1)
        ∙ sym (append_assoc (solid_all round.0) (solid round.1) (solid_all parts))
        ∙ ap (λ (l : Text). l ++ solid_all parts) (pack_part-solid split buffer part h.0)
        ∙ append_assoc (solid buffer) (solid part) (solid_all parts)
        ∙ ap (λ (l : Text). solid buffer ++ l) (sym (solid_all_cons part parts))
