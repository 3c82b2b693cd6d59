-- ===== src/Gateway/Findings.antt =====
-- How the detections that `find_all` of src/modules/gateway/recognizers.py returns lie in the text.
use a_pag_ai_knowledge_base.Prelude.{
  ℕ, ◌≤◌, ◌<◌, ◌≡◌, refl, Bool, Bool-cases, inl, inr, false, List, [], ◌∷◌, ◌++◌, arith, Text,
  length, All, All-map, All-append, leb, any, tests,
}
use a_pag_ai_knowledge_base.Gateway.Regex.{Unicode, finditer}
use a_pag_ai_knowledge_base.Gateway.Regex.Spans.{minimum, IsSpan, finditer-IsSpan}
use a_pag_ai_knowledge_base.Gateway.Recognizers.{
  Recognizer, Finding, recognizers, slice, overlaps, passes, finding_of, consider, consider_all,
  run_recognizers, insert_by_start, sort_by_start, find_all,
}

-- A detection takes up text, inside the text, and carries the text of its span.
abbrev pub IsOf : Text → Finding → Type 0
IsOf text f = (f.start < f.end) × (f.end ≤ length text) × (f.text ≡ slice text f.start f.end)

abbrev Apart : Finding → Finding → Type 0
Apart f g = overlaps f.start f.end g ≡ false

abbrev AllApart : List Finding → Type 0
AllApart [] = Unit
AllApart (f ∷ fs) = All (Apart f) fs × AllApart fs

any-false {ℓ} :
    {A : Type ℓ} (test : A → Bool) (xs : List A)
    → any test xs ≡ false
    → All (λ x. test x ≡ false) xs
any-false test [] h = tt
any-false test (x ∷ xs) h = ground (arith, any-false test xs)

Apart-sym : (f g : Finding) → Apart f g → Apart g f
Apart-sym f g h = ground arith

AllApart-append :
    (fs : List Finding) (f : Finding) → All (Apart f) fs → AllApart fs → AllApart (fs ++ f ∷ [])
AllApart-append [] f h k = (tt, tt)
AllApart-append (g ∷ gs) f h k =
    (All-append (Apart g) gs (f ∷ []) k.0 (Apart-sym f g h.0, tt), AllApart-append gs f h.1 k.1)

-- What holds of the findings while the recognisers run.
record IsKept (text : Text) (fs : List Finding) : Type 0 where
  of_text : All (IsOf text) fs
  apart : AllApart fs

consider-IsKept :
    (text : Text) (rec : Recognizer) (fs : List Finding) (span : ℕ × ℕ)
    → IsSpan 1 (length text) span
    → IsKept text fs
    → IsKept text (consider text rec fs span)
unfolding consider
consider-IsKept text rec fs span inside h = elim (Bool-cases (any (overlaps span.0 span.1) fs)) [
  | inl o ↦ rw o h
  | inr o ↦ elim (Bool-cases (passes rec.validate (slice text span.0 span.1))) [
    | inr v ↦ rw (o, v) h
    | inl v ↦
        rw (o, v)
          (record {
            of_text =
                All-append (IsOf text) fs _ h.of_text ((omega (arith, inside), inside.1, refl), tt);
            apart =
                AllApart-append fs (finding_of text rec span)
                  (any-false (overlaps span.0 span.1) fs o) h.apart;
          })
  ]
]

consider_all-IsKept :
    (text : Text) (rec : Recognizer) (fs : List Finding) (spans : List (ℕ × ℕ))
    → All (IsSpan 1 (length text)) spans
    → IsKept text fs
    → IsKept text (consider_all text rec fs spans)
unfolding consider_all
consider_all-IsKept text rec fs [] inside h = h
consider_all-IsKept text rec fs (span ∷ spans) inside h =
    consider_all-IsKept text rec (consider text rec fs span) spans inside.1
      (consider-IsKept text rec fs span inside.0 h)

-- The pattern cannot match without consuming text.
abbrev pub Consumes : Recognizer → Type 0
Consumes rec = 1 ≤ minimum rec.pattern

pub recognizers-Consumes : (u : Unicode) → All Consumes (recognizers u)
unfolding recognizers minimum
recognizers-Consumes u = omega arith

pub spans_of :
    (u : Unicode) (text : Text) (rec : Recognizer)
    → Consumes rec
    → All (IsSpan 1 (length text)) (finditer u rec.pattern text)
spans_of u text rec c =
    All-map (λ span h. (omega (arith, h.0, c), h.1)) (finditer u rec.pattern text)
      (finditer-IsSpan u rec.pattern text)

run_recognizers-IsKept :
    (u : Unicode) (text : Text) (recs : List Recognizer) (fs : List Finding)
    → All Consumes recs
    → IsKept text fs
    → IsKept text (run_recognizers u text recs fs)
unfolding run_recognizers
run_recognizers-IsKept u text [] fs c h = h
run_recognizers-IsKept u text (rec ∷ recs) fs c h =
    run_recognizers-IsKept u text recs _ c.1
      (consider_all-IsKept text rec fs (finditer u rec.pattern text) (spans_of u text rec c.0) h)

-- From left to right, each detection ends where the next may begin.
abbrev pub IsLaidOut : Text → List Finding → Type 0
IsLaidOut text [] = Unit
IsLaidOut text (f ∷ fs) = IsOf text f × All (λ g. f.end ≤ g.start) fs × IsLaidOut text fs

insert-All :
    (P : Finding → Type 0) (f : Finding) (fs : List Finding)
    → P f
    → All P fs
    → All P (insert_by_start f fs)
unfolding insert_by_start
insert-All P f [] p h = (p, tt)
insert-All P f (g ∷ gs) p h = ground (arith, insert-All P f gs p h.1)

-- The first of two findings that are apart ends before the second starts, if it starts no later.
ends_before :
    (text : Text) (f g : Finding)
    → IsOf text f
    → IsOf text g
    → Apart f g
    → f.start ≤ g.start
    → f.end ≤ g.start
ends_before text f g p q apart le = ground arith

insert-IsLaidOut :
    (text : Text) (f : Finding) (fs : List Finding)
    → IsOf text f
    → All (Apart f) fs
    → All (IsOf text) fs
    → IsLaidOut text fs
    → IsLaidOut text (insert_by_start f fs)
unfolding insert_by_start
insert-IsLaidOut text f [] p apart of_text h = (p, tt, tt)
insert-IsLaidOut text f (g ∷ gs) p apart of_text h = elim (Bool-cases (leb f.start g.start)) [
  | inl le ↦
      let first = ends_before text f g p h.0 apart.0 (omega tests) in
      rw le
        (p, (first, All-map (λ x (k : g.end ≤ x.start). omega (arith, first, k, h.0)) gs h.1), h)
  | inr gt ↦ rw gt (
    h.0,
    insert-All (λ x. g.end ≤ x.start) f gs
        (ends_before text g f h.0 p (Apart-sym f g apart.0) (omega tests)) h.1,
    insert-IsLaidOut text f gs p apart.1 of_text.1 h.2,
  )
]

sort-All : (P : Finding → Type 0) (fs : List Finding) → All P fs → All P (sort_by_start fs)
unfolding sort_by_start
sort-All P [] h = tt
sort-All P (f ∷ fs) h = insert-All P f (sort_by_start fs) h.0 (sort-All P fs h.1)

sort-IsLaidOut :
    (text : Text) (fs : List Finding)
    → All (IsOf text) fs
    → AllApart fs
    → IsLaidOut text (sort_by_start fs)
unfolding sort_by_start
sort-IsLaidOut text [] of_text apart = tt
sort-IsLaidOut text (f ∷ fs) of_text apart =
    insert-IsLaidOut text f (sort_by_start fs) of_text.0 (sort-All (Apart f) fs apart.0)
      (sort-All (IsOf text) fs of_text.1) (sort-IsLaidOut text fs of_text.1 apart.1)

-- For every text the detections come from left to right, none is empty or leaves the text, none
-- overlaps another, and each carries exactly the text between its offsets.
pub find_all-IsLaidOut : (u : Unicode) (text : Text) → IsLaidOut text (find_all u text)
unfolding find_all
find_all-IsLaidOut u text =
    let kept =
      run_recognizers-IsKept u text (recognizers u) [] (recognizers-Consumes u)
        (record { of_text = tt; apart = tt }) in
    sort-IsLaidOut text _ kept.of_text kept.apart
