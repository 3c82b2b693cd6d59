-- ===== src/Gateway/Coverage.antt =====
-- `find_all` of src/modules/gateway/recognizers.py against the matches of each recogniser.
use a_pag_ai_knowledge_base.Prelude.{
  ℕ, ◌≡◌, refl, Bool, true, not, ◌||◌, List, [], ◌∷◌, ◌++◌, arith, Text, length, All, All-map, any,
}
use a_pag_ai_knowledge_base.Gateway.Regex.{Unicode, finditer}
use a_pag_ai_knowledge_base.Gateway.Regex.Spans.{IsSpan}
use a_pag_ai_knowledge_base.Gateway.Recognizers.{
  Recognizer, Finding, recognizers, slice, overlaps, passes, finding_of, consider, consider_all,
  run_recognizers, insert_by_start, sort_by_start, find_all,
}
use a_pag_ai_knowledge_base.Gateway.Findings.{Consumes, recognizers-Consumes, spans_of}

-- The match is rejected by its recogniser's check, or shares text with a detection.
abbrev pub covered : Text → Recognizer → List Finding → ℕ × ℕ → Bool
covered text rec fs span =
    not (passes rec.validate (slice text span.0 span.1)) || any (overlaps span.0 span.1) fs

any-append {ℓ} :
    {A : Type ℓ} (test : A → Bool) (xs ys : List A)
    → any test xs ≡ true
    → any test (xs ++ ys) ≡ true
any-append test [] ys h = absurd (cc)
any-append test (x ∷ xs) ys h = ground (arith, any-append test xs ys)

any_last {ℓ} :
    {A : Type ℓ} (test : A → Bool) (xs : List A) (y : A)
    → test y ≡ true
    → any test (xs ++ y ∷ []) ≡ true
any_last test [] y h = ground arith
any_last test (x ∷ xs) y h = ground (arith, any_last test xs y h)

-- Detections are only added.
consider-keeps :
    (text : Text) (rec : Recognizer) (fs : List Finding) (span : ℕ × ℕ) (test : Finding → Bool)
    → any test fs ≡ true
    → any test (consider text rec fs span) ≡ true
unfolding consider
consider-keeps text rec fs span test h =
    ground (arith, h, any-append test fs (finding_of text rec span ∷ []) h)

consider_all-keeps :
    (text : Text) (rec : Recognizer) (fs : List Finding) (spans : List (ℕ × ℕ))
    (test : Finding → Bool)
    → any test fs ≡ true
    → any test (consider_all text rec fs spans) ≡ true
unfolding consider_all
consider_all-keeps text rec fs [] test h = h
consider_all-keeps text rec fs (span ∷ spans) test h =
    consider_all-keeps text rec (consider text rec fs span) spans test
      (consider-keeps text rec fs span test h)

run_recognizers-keeps :
    (u : Unicode) (text : Text) (recs : List Recognizer) (fs : List Finding) (test : Finding → Bool)
    → any test fs ≡ true
    → any test (run_recognizers u text recs fs) ≡ true
unfolding run_recognizers
run_recognizers-keeps u text [] fs test h = h
run_recognizers-keeps u text (rec ∷ recs) fs test h =
    run_recognizers-keeps u text recs (consider_all text rec fs (finditer u rec.pattern text)) test
      (consider_all-keeps text rec fs (finditer u rec.pattern text) test h)

module _ (text : Text) (rec : Recognizer) where
  consider-covers :
      (fs : List Finding) (span : ℕ × ℕ)
      → IsSpan 1 (length text) span
      → covered text rec (consider text rec fs span) span ≡ true
  unfolding consider
  consider-covers fs span inside =
      ground (arith, inside, any_last (overlaps span.0 span.1) fs (finding_of text rec span))

  covered-consider_all :
      (fs : List Finding) (spans : List (ℕ × ℕ)) (span : ℕ × ℕ)
      → covered text rec fs span ≡ true
      → covered text rec (consider_all text rec fs spans) span ≡ true
  covered-consider_all fs spans span h =
      ground (arith, h, consider_all-keeps text rec fs spans (overlaps span.0 span.1))

  consider_all-covers :
      (fs : List Finding) (spans : List (ℕ × ℕ))
      → All (IsSpan 1 (length text)) spans
      → All (λ span. covered text rec (consider_all text rec fs spans) span ≡ true) spans
  unfolding consider_all
  consider_all-covers fs [] inside = tt
  consider_all-covers fs (span ∷ spans) inside = (
    covered-consider_all (consider text rec fs span) spans span (consider-covers fs span inside.0),
    consider_all-covers (consider text rec fs span) spans inside.1,
  )

covered-run :
    (u : Unicode) (text : Text) (rec : Recognizer) (recs : List Recognizer) (fs : List Finding)
    (span : ℕ × ℕ)
    → covered text rec fs span ≡ true
    → covered text rec (run_recognizers u text recs fs) span ≡ true
covered-run u text rec recs fs span h =
    ground (arith, h, run_recognizers-keeps u text recs fs (overlaps span.0 span.1))

-- Every match of every recogniser, against some list of findings.
abbrev pub Covers : Unicode → Text → List Recognizer → List Finding → Type 0
Covers u text recs fs =
    All (λ rec. All (λ span. covered text rec fs span ≡ true) (finditer u rec.pattern text)) recs

run_recognizers-Covers :
    (u : Unicode) (text : Text) (recs : List Recognizer) (fs : List Finding)
    → All Consumes recs
    → Covers u text recs (run_recognizers u text recs fs)
unfolding run_recognizers
run_recognizers-Covers u text [] fs c = tt
run_recognizers-Covers u text (rec ∷ recs) fs c =
    let spans = finditer u rec.pattern text in
    let after = consider_all text rec fs spans in
    (
      All-map (λ span. covered-run u text rec recs after span) spans
          (consider_all-covers text rec fs spans (spans_of u text rec c.0)),
      run_recognizers-Covers u text recs after c.1,
    )

any-insert :
    (test : Finding → Bool) (f : Finding) (fs : List Finding)
    → any test (insert_by_start f fs) ≡ (test f || any test fs)
unfolding insert_by_start
any-insert test f [] = refl
any-insert test f (g ∷ gs) = ground (arith, any-insert test f gs)

any-sort : (test : Finding → Bool) (fs : List Finding) → any test (sort_by_start fs) ≡ any test fs
unfolding sort_by_start
any-sort test [] = refl
any-sort test (f ∷ fs) = rw (any-insert, any-sort test fs)

covered-sort :
    (text : Text) (rec : Recognizer) (fs : List Finding) (span : ℕ × ℕ)
    → covered text rec fs span ≡ true
    → covered text rec (sort_by_start fs) span ≡ true
covered-sort text rec fs span h = ground (arith, h, any-sort (overlaps span.0 span.1) fs)

-- For every recogniser, every match that finditer yields and the recogniser does not reject shares
-- text with a detection.
pub find_all-Covers : (u : Unicode) (text : Text) → Covers u text (recognizers u) (find_all u text)
unfolding find_all
find_all-Covers u text =
    let fs = run_recognizers u text (recognizers u) [] in
    All-map (λ rec. All-map (covered-sort text rec fs) (finditer u rec.pattern text))
      (recognizers u) (run_recognizers-Covers u text (recognizers u) [] (recognizers-Consumes u))
