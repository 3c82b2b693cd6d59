-- ===== src/Gateway/Regex/Spans.antt =====
-- Where matches lie: behind their start, by as much as the pattern must consume, and in the text.
use a_pag_ai_knowledge_base.Prelude.{
  ℕ, zero, suc, ◌+◌, ◌*◌, ◌≤◌, ◌≡◌, refl, ap, Bool, Bool-cases, inl, inr, true, false, List, [],
  ◌∷◌, arith, Text, length, All, All-map, All-append, if◌then◌else◌, min, Option-cases, some_eq,
  ◌∙◌, some, subst,
}
use a_pag_ai_knowledge_base.Gateway.Regex.{
  Unicode, Cursor, Regex, one, boundary, seq, either, repeated, many, flat_map, repeat_ends, ends,
  take_one, first_end, scan, finditer, beginning, at_end, skip, past_match,
}

-- The fewest code points that a match of the pattern consumes.
unfoldable pub minimum : Regex → ℕ
minimum (one test) = 1
minimum boundary = 0
minimum (seq r s) = minimum r + minimum s
minimum (either r s) = min (minimum r) (minimum s)
minimum (repeated m k r) = m * minimum r
minimum (many m r) = m * minimum r

-- `e` lies `n` code points or more behind `c` in the same text.
abbrev pub Behind : ℕ → Cursor → Cursor → Type 0
Behind n c e = (c.offset + n ≤ e.offset) × (e.offset + length e.rest ≡ c.offset + length c.rest)

All-flat_map :
    (P Q : Cursor → Type 0) (f : Cursor → List Cursor) (cs : List Cursor)
    → ((c : Cursor) → P c → All Q (f c))
    → All P cs
    → All Q (flat_map f cs)
All-flat_map P Q f [] step h = tt
All-flat_map P Q f (c ∷ cs) step h =
    All-append Q (f c) (flat_map f cs) (step c h.0) (All-flat_map P Q f cs step h.1)

Behind-weaken : (m n : ℕ) (c : Cursor) → m ≤ n → (e : Cursor) → Behind n c e → Behind m c e
Behind-weaken m n c le e h = omega arith

Behind-trans :
    (m n : ℕ) (c d : Cursor) → Behind m c d → (e : Cursor) → Behind n d e → Behind (m + n) c e
Behind-trans m n c d h e k = omega arith

module _ (n : ℕ) (r : Cursor → List Cursor) (h : (c : Cursor) → All (Behind n c) (r c)) where
  repeat_ends-Behind : (m k : ℕ) (c : Cursor) → All (Behind (m * n) c) (repeat_ends m k r c)
  unfolding repeat_ends
  repeat_ends-Behind zero zero c = (omega arith, tt)
  repeat_ends-Behind zero (suc k) c =
      All-append (Behind (zero * n) c) (flat_map (repeat_ends zero k r) (r c)) (c ∷ [])
        (All-flat_map (Behind n c) (Behind (zero * n) c) (repeat_ends zero k r) (r c)
          (λ d b.
            All-map
              (λ e k.
                Behind-weaken (zero * n) (n + zero * n) c (omega arith) e
                  (Behind-trans n (zero * n) c d b e k))
              (repeat_ends zero k r d) (repeat_ends-Behind zero k d))
          (h c))
        (omega arith, tt)
  repeat_ends-Behind (suc m) k c =
      All-flat_map (Behind n c) (Behind (suc m * n) c) (repeat_ends m k r) (r c)
        (λ d b.
          All-map
            (λ e k.
              Behind-weaken (suc m * n) (n + m * n) c (omega arith) e
                (Behind-trans n (m * n) c d b e k))
            (repeat_ends m k r d) (repeat_ends-Behind m k d))
        (h c)

take_one-Behind :
    (test : ℕ → Bool) (c : Cursor) (xs : Text) → xs ≡ c.rest → All (Behind 1 c) (take_one test c xs)
take_one-Behind test c [] e = tt
take_one-Behind test c (x ∷ xs) e = elim (Bool-cases (test x)) [
  | inl t ↦ rw t (omega (arith, ap length e), tt)
  | inr t ↦ rw t tt
]

pub ends-Behind : (u : Unicode) (r : Regex) (c : Cursor) → All (Behind (minimum r) c) (ends u r c)
unfolding ends minimum
ends-Behind u (one test) c = take_one-Behind test c c.rest refl
ends-Behind u boundary c = ground arith
ends-Behind u (seq r s) c =
    All-flat_map (Behind (minimum r) c) (Behind (minimum r + minimum s) c) (ends u s) (ends u r c)
      (λ d b. All-map (Behind-trans (minimum r) (minimum s) c d b) (ends u s d) (ends-Behind u s d))
      (ends-Behind u r c)
ends-Behind u (either r s) c =
    All-append _ (ends u r c) (ends u s c)
      (All-map (Behind-weaken _ (minimum r) c (omega arith)) (ends u r c) (ends-Behind u r c))
      (All-map (Behind-weaken _ (minimum s) c (omega arith)) (ends u s c) (ends-Behind u s c))
ends-Behind u (repeated m k r) c = repeat_ends-Behind (minimum r) (ends u r) (ends-Behind u r) m k c
ends-Behind u (many m r) c =
    repeat_ends-Behind (minimum r) (ends u r) (ends-Behind u r) m (length c.rest) c

-- A span of the text that consumes `n` code points or more.
abbrev pub IsSpan : ℕ → ℕ → ℕ × ℕ → Type 0
IsSpan n total span = (span.0 + n ≤ span.1) × (span.1 ≤ total)

pub first_end-Behind :
    (n : ℕ) (c : Cursor) (es : List Cursor) (e : Cursor)
    → All (Behind n c) es
    → first_end es ≡ some e
    → Behind n c e
first_end-Behind n c [] e h k = absurd (cc)
first_end-Behind n c (d ∷ ds) e h k = subst (Behind n c) (some_eq k) h.0

skip-total :
    (c : Cursor) (xs : Text)
    → xs ≡ c.rest
    → (skip c xs).offset + length (skip c xs).rest ≡ c.offset + length c.rest
skip-total c [] e = refl
skip-total c (x ∷ xs) e = omega (arith, ap length e)

past_match-total :
    (c d : Cursor)
    → d.offset + length d.rest ≡ c.offset + length c.rest
    → (past_match c d).offset + length (past_match c d).rest ≡ c.offset + length c.rest
past_match-total c d e = ground (arith, e, skip-total c c.rest refl)

All-unless {ℓ} :
    {A : Type ℓ} (P : A → Type 0) (b : Bool) (l : List A) → All P l → All P (if b then [] else l)
All-unless P true l h = tt
All-unless P false l h = h

scan-IsSpan :
    (rounds : ℕ) (u : Unicode) (r : Regex) (total : ℕ) (c : Cursor)
    → c.offset + length c.rest ≡ total
    → All (IsSpan (minimum r) total) (scan rounds u r c)
unfolding scan
scan-IsSpan zero u r total c h = tt
scan-IsSpan (suc rounds) u r total c h = elim (Option-cases (first_end (ends u r c))) [
  | inl e ↦ rw e (
      All-unless _ (at_end c) _
        (scan-IsSpan rounds u r total (skip c c.rest) (skip-total c c.rest refl ∙ h)))
  | inr (d, e) ↦
      let b = first_end-Behind (minimum r) c (ends u r c) d (ends-Behind u r c) e in
      rw e (
        (b.0, omega (arith, b.1, h)),
        All-unless _ (at_end c) _
            (scan-IsSpan rounds u r total (past_match c d) (past_match-total c d b.1 ∙ h)),
      )
]

-- Every span that finditer yields consumes at least the fewest code points that the pattern needs,
-- and ends in the text.
pub finditer-IsSpan :
    (u : Unicode) (r : Regex) (text : Text)
    → All (IsSpan (minimum r) (length text)) (finditer u r text)
unfolding finditer
finditer-IsSpan u r text =
    scan-IsSpan (suc (length text)) u r (length text) (beginning text) (omega arith)
