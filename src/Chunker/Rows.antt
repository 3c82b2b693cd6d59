-- ===== src/Chunker/Rows.antt =====
-- The row groups of a table.
use mathlib.Core.List.{append_assoc, append-nil, map-append}
use a_pag_ai_knowledge_base.Prelude.{
  ℕ, zero, suc, ◌+◌, ◌/◌, ◌≤◌, ◌≡◌, refl, ap, sym, subst, ◌∙◌, ◌⊎◌, inl, inr, max, true, false, not,
  ◌&&◌, Bool-cases, List, [], ◌∷◌, ◌++◌, map, length, take, drop, length-take, length-drop,
  take-append-drop, ltb, leb, tests, All, All-append, Text, arith, if◌then◌else◌,
}
use a_pag_ai_knowledge_base.Chunker.Splitting.{length-is_blank}
use a_pag_ai_knowledge_base.Chunker.{
  Budget, is_blank, concat, fits, join_lines, fit_group, groups_of, fit_groups, group_rows,
}

pub is_blank-length : {A : Type 0} (xs : List A) → 1 ≤ length xs → is_blank xs ≡ false
is_blank-length [] h = absurd (omega (arith, h))
is_blank-length (x ∷ xs) h = refl

pub concat-append :
    {A : Type 0} (xs ys : List (List A)) → concat (xs ++ ys) ≡ concat xs ++ concat ys
unfolding concat
concat-append [] ys = refl
concat-append (x ∷ xs) ys = rw (concat-append xs ys) (sym (append_assoc x (concat xs) (concat ys)))

module _ (b : Budget) (header : Text) where
  -- The piece for a group: the header, and the rows below it.
  abbrev pub rendered : List Text → Text
  rendered rows = join_lines (header ∷ rows)

  abbrev pub IsGroup : List Text → Type 0
  IsGroup rows = (is_blank rows ≡ false) × ((length rows ≡ 1) ⊎ (fits b (rendered rows) ≡ true))

  -- The pieces are those of groups of the rows, in their order.
  abbrev pub ShowsAll : List Text → List Text → Type 0
  ShowsAll rows pieces =
      (groups : List (List Text)) × (concat groups ≡ rows)
      × (pieces ≡ map rendered groups)
      × All IsGroup groups

  ShowsAll-append :
      (xs ys ps qs : List Text) → ShowsAll xs ps → ShowsAll ys qs → ShowsAll (xs ++ ys) (ps ++ qs)
  ShowsAll-append xs ys ps qs (gs, cs, es, hs) (gs', cs', es', hs') = (
    gs ++ gs',
    concat-append gs gs' ∙ rw (cs, cs') refl,
    rw (es, es') (sym (map-append rendered gs gs')),
    All-append IsGroup gs gs' hs hs',
  )

  one : (rows : List Text) → IsGroup rows → ShowsAll rows (rendered rows ∷ [])
  unfolding concat
  one rows h = (rows ∷ [], append-nil rows, refl, (h, tt))

  halves :
      (fuel : ℕ) (rows : List Text)
      → length rows ≤ suc fuel
      → 2 ≤ length rows
      → (length (take (length rows / 2) rows) ≤ fuel
          → is_blank (take (length rows / 2) rows) ≡ false
          → ShowsAll
              (take (length rows / 2) rows)
              (fit_group b fuel header (take (length rows / 2) rows)))
      → (length (drop (length rows / 2) rows) ≤ fuel
          → is_blank (drop (length rows / 2) rows) ≡ false
          → ShowsAll
              (drop (length rows / 2) rows)
              (fit_group b fuel header (drop (length rows / 2) rows)))
      → ShowsAll rows (
          fit_group b fuel header (take (length rows / 2) rows)
          ++ fit_group b fuel header (drop (length rows / 2) rows))
  halves fuel rows enough several left right =
      let middle = length rows / 2 in
      let taken = length-take middle rows in
      let dropped = length-drop middle rows in
      subst
        (λ (l : List Text). ShowsAll l (
          fit_group b fuel header (take middle rows) ++ fit_group b fuel header (drop middle rows)))
        (take-append-drop middle rows)
        (ShowsAll-append (take middle rows) (drop middle rows) _ _
          (left (omega (arith, taken, enough, several))
            (is_blank-length (take middle rows) (omega (arith, taken, several))))
          (right (omega (arith, dropped, enough, several))
            (is_blank-length (drop middle rows) (omega (arith, dropped, several)))))

  fit_group-ShowsAll :
      (fuel : ℕ) (rows : List Text)
      → length rows ≤ fuel
      → is_blank rows ≡ false
      → ShowsAll rows (fit_group b fuel header rows)
  unfolding fit_group
  fit_group-ShowsAll zero rows enough some_rows =
      absurd (omega (arith, enough, length-is_blank rows some_rows))
  fit_group-ShowsAll (suc fuel) rows enough some_rows = elim (Bool-cases (leb (length rows) 1)) [
    | inl single ↦
        rw single
          (one rows (some_rows, inl (omega (tests, single, length-is_blank rows some_rows))))
    | inr several ↦ elim (Bool-cases (fits b (rendered rows))) [
      | inl fit ↦ simp (several, fit) (one rows (some_rows, inr fit))
      | inr wide ↦
          simp (several, wide)
            (halves fuel rows enough (omega (tests, several))
              (fit_group-ShowsAll fuel (take (length rows / 2) rows))
              (fit_group-ShowsAll fuel (drop (length rows / 2) rows)))
    ]
  ]

  last_group :
      (buffer : List Text)
      → (concat (if is_blank buffer then [] else buffer ∷ []) ≡ buffer ++ [])
        × All (λ g. is_blank g ≡ false) (if is_blank buffer then [] else buffer ∷ [])
  unfolding concat
  last_group [] = (refl, tt)
  last_group (r ∷ rs) = (refl, (refl, tt))

  groups_of_parts :
      (header_size ceiling : ℕ) (buffer : List Text) (running : ℕ) (lines : List Text)
      → (concat (groups_of b header_size ceiling buffer running lines) ≡ buffer ++ lines)
        × All (λ g. is_blank g ≡ false) (groups_of b header_size ceiling buffer running lines)
  unfolding groups_of concat
  groups_of_parts header_size ceiling buffer running [] = last_group buffer
  groups_of_parts header_size ceiling buffer running (line ∷ lines) =
      elim (Bool-cases (not (is_blank buffer) && ltb ceiling (running + b.measure line))) [
        | inl full ↦
            let rest =
              groups_of_parts header_size ceiling (line ∷ []) (header_size + b.measure line)
                lines in
            let some_rows : is_blank buffer ≡ false = ground (arith, full) in
            rw full (ap (λ (l : List Text). buffer ++ l) rest.0, (some_rows, rest.1))
        | inr room ↦
            let rest =
              groups_of_parts header_size ceiling (buffer ++ line ∷ []) (running + b.measure line)
                lines in
            rw room (rest.0 ∙ append_assoc buffer (line ∷ []) lines, rest.1)
      ]

  fit_groups-ShowsAll :
      (groups : List (List Text))
      → All (λ g. is_blank g ≡ false) groups
      → ShowsAll (concat groups) (fit_groups b header groups)
  unfolding fit_groups concat
  fit_groups-ShowsAll [] h = ([], refl, refl, tt)
  fit_groups-ShowsAll (g ∷ gs) h =
      ShowsAll-append g (concat gs) (fit_group b (length g) header g) (fit_groups b header gs)
        (fit_group-ShowsAll (length g) g (omega arith) h.0) (fit_groups-ShowsAll gs h.1)

  -- The pieces of a table are those of groups of consecutive rows that together are all rows in
  -- their order: each piece is the header with the rows of its group below it, no group is empty,
  -- and a piece that does not fit the budget shows a single row.
  pub group_rows-ShowsAll : (lines : List Text) → ShowsAll lines (group_rows b header lines)
  unfolding group_rows
  group_rows-ShowsAll lines =
      let header_size = b.measure header in
      let ceiling = max (header_size + 1) (b.headroom b.maximum) in
      let (all, some_rows) = groups_of_parts header_size ceiling [] header_size lines in
      subst (λ (l : List Text). ShowsAll l (group_rows b header lines)) all
        (fit_groups-ShowsAll (groups_of b header_size ceiling [] header_size lines) some_rows)
