-- ===== src/Gateway/Redaction/Rebuild.antt =====
-- Each text of a request, rebuilt from its pieces and the finished table.
use mathlib.Core.Path.{ap₂}
use a_pag_ai_knowledge_base.Prelude.{
  ℕ, zero, suc, ◌≤◌, ◌<◌, ◌≡◌, refl, ap, subst, ◌∙◌, List, [], ◌∷◌, ◌++◌, arith, Text, length, All,
  All-map, take, drop, map, Option, none, some, length-append, length-take,
}
use mathlib.Core.List.{append_assoc}
use a_pag_ai_knowledge_base.Gateway.Regex.{Unicode}
use a_pag_ai_knowledge_base.Gateway.Recognizers.{Finding, find_all}
use a_pag_ai_knowledge_base.Gateway.Findings.{IsLaidOut, find_all-IsLaidOut}
use a_pag_ai_knowledge_base.Gateway.Redaction.{
  Assigned, assign, insert_last_first, sort_last_first, replace_span, mask_findings, redact_text,
  redact_texts,
}
use a_pag_ai_knowledge_base.Gateway.Redaction.Table.{
  placeholder_of, Extends, mask_findings-Extends, redact_texts-Extends, assign-placeholder_of,
  Extends-trans,
}

abbrev shown : Option Text → Text
shown none = []
shown (some p) = p

-- The text with each detection, the last first, replaced by its placeholder in a finished table:
-- the text before the detection is rebuilt on its own, and the text behind it is kept.
unfoldable pub rebuilt : Assigned → Text → List Finding → Text
unfolding placeholder_of
rebuilt b text [] = text
rebuilt b text (f ∷ fs) =
    rebuilt b (take f.start text) fs ++ (shown (placeholder_of b f.label f.text) ++ drop f.end text)

-- From right to left, each detection ends where the one before it in the list starts.
abbrev pub IsLastFirst : ℕ → List Finding → Type 0
IsLastFirst total [] = Unit
IsLastFirst total (f ∷ fs) = (f.start ≤ f.end) × (f.end ≤ total) × IsLastFirst f.start fs

take-append_le : (n : ℕ) (p q : Text) → n ≤ length p → take n (p ++ q) ≡ take n p
take-append_le zero p q h = refl
take-append_le (suc n) [] q h = absurd (omega arith)
take-append_le (suc n) (x ∷ p) q h = ap (λ (l : Text). x ∷ l) (take-append_le n p q (omega arith))

drop-append_le : (n : ℕ) (p q : Text) → n ≤ length p → drop n (p ++ q) ≡ drop n p ++ q
drop-append_le zero p q h = refl
drop-append_le (suc n) [] q h = absurd (omega arith)
drop-append_le (suc n) (x ∷ p) q h = drop-append_le n p q (omega arith)

IsLastFirst-weaken : (m n : ℕ) (fs : List Finding) → m ≤ n → IsLastFirst m fs → IsLastFirst n fs
IsLastFirst-weaken m n [] le h = tt
IsLastFirst-weaken m n (f ∷ fs) le h = (h.0, omega (arith, h.1), h.2)

length-take_le : (n : ℕ) (p : Text) → n ≤ length p → length (take n p) ≡ n
length-take_le n p h = omega (arith, length-take n p)

replace_span-append :
    (p q : Text) (f : Finding) (placeholder : Text)
    → f.start ≤ f.end
    → f.end ≤ length p
    → replace_span (p ++ q) f placeholder ≡ replace_span p f placeholder ++ q
replace_span-append p q f placeholder s e =
    rw (take-append_le f.start p q (omega arith), drop-append_le f.end p q e) (simp append_assoc)

length-replace_span :
    (p : Text) (f : Finding) (placeholder : Text)
    → f.start ≤ length p
    → f.start ≤ length (replace_span p f placeholder)
length-replace_span p f placeholder h = omega (
  arith,
  length-append (take f.start p) (placeholder ++ drop f.end p),
  length-take_le f.start p h,
)

-- What stands behind all the detections is not touched.
mask_findings-append :
    (a : Assigned) (p q : Text) (fs : List Finding)
    → IsLastFirst (length p) fs
    → mask_findings a (p ++ q) fs ≡ ((mask_findings a p fs).0 ++ q, (mask_findings a p fs).1)
unfolding mask_findings
mask_findings-append a p q [] h = refl
mask_findings-append a p q (f ∷ fs) h =
    let (placeholder, b) = assign a f.label f.text in
    rw (replace_span-append p q f placeholder h.0 h.1) (
      mask_findings-append b (replace_span p f placeholder) q fs (
        IsLastFirst-weaken f.start _ fs
          (length-replace_span p f placeholder (omega (arith, h.0, h.1))) h.2))

-- The replacement in place, from the right, is the rebuilding from the pieces of the text.
mask_findings-rebuilt :
    (a b : Assigned) (text : Text) (fs : List Finding)
    → IsLastFirst (length text) fs
    → Extends (mask_findings a text fs).1 b
    → (mask_findings a text fs).0 ≡ rebuilt b text fs
unfolding mask_findings rebuilt Extends
mask_findings-rebuilt a b text [] h ext = refl
mask_findings-rebuilt a b text (f ∷ fs) h ext =
    let (placeholder, a') = assign a f.label f.text in
    let front = take f.start text in
    let inside : IsLastFirst (length front) fs =
      rw (length-take_le f.start text (omega (arith, h.0, h.1))) h.2 in
    let split = mask_findings-append a' front (placeholder ++ drop f.end text) fs inside in
    let known : placeholder_of b f.label f.text ≡ some placeholder =
      ext f.label f.text placeholder (
        mask_findings-Extends a' _ fs f.label f.text placeholder
          (assign-placeholder_of a f.label f.text)) in
    ap (λ (r : Text × Assigned). r.0) split
    ∙ rw known (
        ap (λ (t : Text). t ++ (placeholder ++ drop f.end text))
          (mask_findings-rebuilt a' b front fs inside
            (subst (λ (r : Text × Assigned). Extends r.1 b) split ext)))

insert_last_first-snoc :
    (f : Finding) (gs : List Finding)
    → All (λ g. f.start < g.start) gs
    → insert_last_first f gs ≡ gs ++ f ∷ []
unfolding insert_last_first
insert_last_first-snoc f [] h = refl
insert_last_first-snoc f (g ∷ gs) h = ground (arith, h.0, insert_last_first-snoc f gs h.1)

insert_last_first-All :
    (P : Finding → Type 0) (f : Finding) (gs : List Finding)
    → P f
    → All P gs
    → All P (insert_last_first f gs)
unfolding insert_last_first
insert_last_first-All P f [] p h = (p, tt)
insert_last_first-All P f (g ∷ gs) p h = ground (arith, insert_last_first-All P f gs p h.1)

-- A first finding, put behind the others.
IsLastFirst-snoc :
    (total : ℕ) (f : Finding) (gs : List Finding)
    → f.start ≤ f.end
    → f.end ≤ total
    → All (λ g. f.end ≤ g.start) gs
    → IsLastFirst total gs
    → IsLastFirst total (gs ++ f ∷ [])
IsLastFirst-snoc total f [] s e h k = (s, e, tt)
IsLastFirst-snoc total f (g ∷ gs) s e h k = (k.0, k.1, IsLastFirst-snoc g.start f gs s h.0 h.1 k.2)

sort_last_first-All :
    (P : Finding → Type 0) (fs : List Finding) → All P fs → All P (sort_last_first fs)
unfolding sort_last_first
sort_last_first-All P [] h = tt
sort_last_first-All P (f ∷ fs) h = insert_last_first-All P f _ h.0 (sort_last_first-All P fs h.1)

sort_last_first-IsLastFirst :
    (text : Text) (fs : List Finding)
    → IsLaidOut text fs
    → IsLastFirst (length text) (sort_last_first fs)
unfolding sort_last_first
sort_last_first-IsLastFirst text [] h = tt
sort_last_first-IsLastFirst text (f ∷ fs) h =
    let later = sort_last_first-All (λ g. f.end ≤ g.start) fs h.1 in
    rw
      (insert_last_first-snoc f (sort_last_first fs)
        (All-map (λ g (le : f.end ≤ g.start). omega (arith, le, h.0)) _ later))
      (IsLastFirst-snoc (length text) f (sort_last_first fs) (omega (arith, h.0)) h.0.1 later
        (sort_last_first-IsLastFirst text fs h.2))

-- The masking in place, from the last detection of each text to the first, is the rebuilding of
-- every text from its pieces: each detection replaced by the placeholder that any table extending
-- the finished one has for its label and value, and nothing else changed.
pub redact_texts-rebuilt :
    (u : Unicode) (a : Assigned) (texts : List Text) (b : Assigned)
    → Extends (redact_texts u a texts).1 b
    → (redact_texts u a texts).0
      ≡ map (λ text. rebuilt b text (sort_last_first (find_all u text))) texts
unfolding redact_texts redact_text
redact_texts-rebuilt u a [] b h = refl
redact_texts-rebuilt u a (text ∷ texts) b h =
    let (out, a') = redact_text u a text in
    let first : Extends a' b = Extends-trans a' _ b (redact_texts-Extends u a' texts) h in
    ap₂ (λ (t : Text) (ts : List Text). t ∷ ts)
      (mask_findings-rebuilt a b text (sort_last_first (find_all u text))
        (sort_last_first-IsLastFirst text (find_all u text) (find_all-IsLaidOut u text)) first)
      (redact_texts-rebuilt u a' texts b h)
