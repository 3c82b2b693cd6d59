-- ===== src/Gateway/Regex/Rounds.antt =====
-- The rounds of `finditer`.
use a_pag_ai_knowledge_base.Prelude.{
  ℕ, zero, suc, ◌+◌, ◌<◌, ◌≡◌, refl, ap, Bool-cases, Option-cases, inl, inr, true, false, List, [],
  ◌∷◌, ◌++◌, arith, Text, length, ltb, tests,
}
use a_pag_ai_knowledge_base.Gateway.Regex.{
  Unicode, Cursor, Regex, ends, first_end, skip, past_match, at_end, found_at, resume_at, scan,
  beginning, finditer,
}
use a_pag_ai_knowledge_base.Gateway.Regex.Spans.{minimum, ends-Behind, first_end-Behind}

length-skip : (c : Cursor) → at_end c ≡ false → length (skip c c.rest).rest < length c.rest
length-skip c h =
    elim c.rest
        as (λ (t : Text).
          elim t [ [] ↦ true | x ∷ xs ↦ false ] ≡ false → length (skip c t).rest < length t) [
            | [] ↦ λ h. absurd (cc)
            | x ∷ xs ↦ λ h. omega arith
          ]
      h

length-past_match :
    (c e : Cursor)
    → e.offset + length e.rest ≡ c.offset + length c.rest
    → at_end c ≡ false
    → length (past_match c e).rest < length c.rest
length-past_match c e total h = elim (Bool-cases (ltb c.offset e.offset)) [
  | inl m ↦ rw m (omega (tests, m, total))
  | inr m ↦ rw m (length-skip c h)
]

-- A round that is not the last leaves less text.
length-resume_at :
    (u : Unicode) (r : Regex) (c : Cursor)
    → at_end c ≡ false
    → length (resume_at c (first_end (ends u r c))).rest < length c.rest
length-resume_at u r c h = elim (Option-cases (first_end (ends u r c))) [
  | inl e ↦ rw e (length-skip c h)
  | inr (d, e) ↦
      let behind = first_end-Behind (minimum r) c (ends u r c) d (ends-Behind u r c) e in
      rw e (length-past_match c d behind.1 h)
]

scan-rounds :
    (m n : ℕ) (u : Unicode) (r : Regex) (c : Cursor)
    → length c.rest < m
    → length c.rest < n
    → scan m u r c ≡ scan n u r c
unfolding scan
scan-rounds zero n u r c h k = absurd (omega arith)
scan-rounds (suc m) zero u r c h k = absurd (omega arith)
scan-rounds (suc m) (suc n) u r c h k = elim (Bool-cases (at_end c)) [
  | inl e ↦ rw e refl
  | inr e ↦
      let shorter = length-resume_at u r c e in
      rw e (
        ap (λ (l : List (ℕ × ℕ)). found_at c (first_end (ends u r c)) ++ l)
          (scan-rounds m n u r (resume_at c (first_end (ends u r c))) (omega (arith, shorter, h))
            (omega (arith, shorter, k))))
]

-- The rounds that finditer is given are enough: with any number of rounds above the length of the
-- text, the scan finds the same matches.
pub finditer_enough :
    (rounds : ℕ) (u : Unicode) (r : Regex) (text : Text)
    → length text < rounds
    → scan rounds u r (beginning text) ≡ finditer u r text
unfolding finditer
finditer_enough rounds u r text h =
    scan-rounds rounds (suc (length text)) u r (beginning text) h (omega arith)
