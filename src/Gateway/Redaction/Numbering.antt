-- ===== src/Gateway/Redaction/Numbering.antt =====
-- The numbers in the placeholders of the table that a request ends with.
use mathlib.Core.List.{append_cancel_left, append_cancel_right}
use a_pag_ai_knowledge_base.Prelude.{
  ℕ, suc, ◌+◌, ◌<◌, ◌≡◌, ◌≢◌, refl, ap, sym, subst, ◌∙◌, Bool-cases, inl, inr, false, List, [], ◌∷◌,
  ◌++◌, arith, Text, length, none, some, text_eq, text_eq_iff, Option-cases, some_eq, decimal,
  decimal-injective,
}
use a_pag_ai_knowledge_base.Gateway.Regex.{Unicode}
use a_pag_ai_knowledge_base.Gateway.Recognizers.{Finding, find_all}
use a_pag_ai_knowledge_base.Gateway.Redaction.{
  Entries, Assigned, find_entry, entries_of, set_entries, assign, sort_last_first, mask_findings,
  redact_text, redact_texts, placeholder_text,
}
use a_pag_ai_knowledge_base.Gateway.Redaction.Table.{placeholder_of, find_entry-append}

-- The values from number `k + 1` on: each has its number's placeholder, and does not come again.
abbrev IsNumbered : Text → ℕ → Entries → Type 0
IsNumbered label k [] = Unit
IsNumbered label k ((v, p) ∷ es) =
    (p ≡ placeholder_text label (suc k)) × (find_entry v es ≡ none) × IsNumbered label (suc k) es

abbrev AllNumbered : Assigned → Type 0
AllNumbered [] = Unit
AllNumbered ((l, es) ∷ a) = IsNumbered l 0 es × AllNumbered a

placeholder_text-injective :
    (label : Text) (m n : ℕ) → placeholder_text label m ≡ placeholder_text label n → m ≡ n
placeholder_text-injective label m n h =
    let inner = append_cancel_right _ _ (62 ∷ []) h in
    let numeral = append_cancel_left (60 ∷ label) (95 ∷ decimal m) (95 ∷ decimal n) inner in
    decimal-injective m n (ap tail_of numeral)
  where
    tail_of : Text → Text
    tail_of [] = []
    tail_of (x ∷ xs) = xs

IsNumbered-snoc :
    (label : Text) (k : ℕ) (es : Entries) (v : Text)
    → find_entry v es ≡ none
    → IsNumbered label k es
    → IsNumbered label k (es ++ (v, placeholder_text label (suc (k + length es))) ∷ [])
unfolding find_entry
IsNumbered-snoc label k [] v new h =
    (ap (λ (n : ℕ). placeholder_text label (suc n)) (omega arith), refl, tt)
IsNumbered-snoc label k ((x, q) ∷ es) v new h =
    let absent : find_entry v es ≡ none = ground (arith, new) in
    let apart : text_eq v x ≡ false = ground (arith, new, text_eq_iff v x, text_eq_iff x v) in
    (
      h.0,
      rw (find_entry-append, h.1, apart),
      subst (λ (n : ℕ). IsNumbered label (suc k) (es ++ (v, placeholder_text label (suc n)) ∷ []))
          (omega arith) (IsNumbered-snoc label (suc k) es v absent h.2),
    )

entries_of-IsNumbered :
    (label : Text) (a : Assigned) → AllNumbered a → IsNumbered label 0 (entries_of label a)
unfolding entries_of
entries_of-IsNumbered label [] h = tt
entries_of-IsNumbered label ((l, es) ∷ a) h = elim (Bool-cases (text_eq l label)) [
  | inl e ↦ rw e (subst (λ m. IsNumbered m 0 es) ((text_eq_iff l label).0 e) h.0)
  | inr e ↦ rw e (entries_of-IsNumbered label a h.1)
]

set_entries-AllNumbered :
    (label : Text) (es : Entries) (a : Assigned)
    → IsNumbered label 0 es
    → AllNumbered a
    → AllNumbered (set_entries label es a)
unfolding set_entries
set_entries-AllNumbered label es [] e h = (e, tt)
set_entries-AllNumbered label es ((l, old) ∷ a) e h = elim (Bool-cases (text_eq l label)) [
  | inl same ↦ rw same (subst (λ m. IsNumbered m 0 es) (sym ((text_eq_iff l label).0 same)) e, h.1)
  | inr other ↦ rw other (h.0, set_entries-AllNumbered label es a e h.1)
]

assign-AllNumbered : (a : Assigned) (l v : Text) → AllNumbered a → AllNumbered (assign a l v).1
unfolding assign
assign-AllNumbered a l v h = elim (Option-cases (find_entry v (entries_of l a))) [
  | inl e ↦ rw e (
      set_entries-AllNumbered l _ a
        (subst (λ (n : ℕ). IsNumbered l 0 (entries_of l a ++ (v, placeholder_text l n) ∷ []))
          (omega arith) (IsNumbered-snoc l 0 (entries_of l a) v e (entries_of-IsNumbered l a h)))
        h)
  | inr (p, e) ↦ rw e (set_entries-AllNumbered l _ a (entries_of-IsNumbered l a h) h)
]

mask_findings-AllNumbered :
    (a : Assigned) (out : Text) (fs : List Finding)
    → AllNumbered a
    → AllNumbered (mask_findings a out fs).1
unfolding mask_findings
mask_findings-AllNumbered a out [] h = h
mask_findings-AllNumbered a out (f ∷ fs) h =
    mask_findings-AllNumbered (assign a f.label f.text).1 _ fs
      (assign-AllNumbered a f.label f.text h)

redact_texts-AllNumbered :
    (u : Unicode) (a : Assigned) (texts : List Text)
    → AllNumbered a
    → AllNumbered (redact_texts u a texts).1
unfolding redact_texts redact_text
redact_texts-AllNumbered u a [] h = h
redact_texts-AllNumbered u a (text ∷ texts) h =
    redact_texts-AllNumbered u (redact_text u a text).1 texts
      (mask_findings-AllNumbered a text (sort_last_first (find_all u text)) h)

-- A placeholder found among entries from number `k + 1` on has a later number than `k`.
find_entry-number :
    (label : Text) (k : ℕ) (es : Entries) (v p : Text)
    → IsNumbered label k es
    → find_entry v es ≡ some p
    → (n : ℕ) × (k < n) × (p ≡ placeholder_text label n)
unfolding find_entry
find_entry-number label k [] v p h found = absurd (cc)
find_entry-number label k ((x, q) ∷ es) v p h found = elim (Bool-cases (text_eq x v)) [
  | inl e ↦ (suc k, omega arith, sym (some_eq (rw e at found)) ∙ h.0)
  | inr e ↦
      let (n, later, text) = find_entry-number label (suc k) es v p h.2 (rw e at found) in
      (n, omega (arith, later), text)
]

-- The first entry's placeholder is not that of a later one.
first_only :
    (label : Text) (k : ℕ) (es : Entries) (v p q : Text)
    → q ≡ placeholder_text label (suc k)
    → IsNumbered label (suc k) es
    → q ≡ p
    → find_entry v es ≡ some p
    → ⊥
first_only label k es v p q first h same found =
    let (n, later, text) = find_entry-number label (suc k) es v p h found in
    let equal = placeholder_text-injective label (suc k) n (sym first ∙ (same ∙ text)) in
    omega (arith, equal, later)

find_entry-injective :
    (label : Text) (k : ℕ) (es : Entries) (v w p : Text)
    → IsNumbered label k es
    → find_entry v es ≡ some p
    → find_entry w es ≡ some p
    → v ≡ w
unfolding find_entry
find_entry-injective label k [] v w p h fv fw = absurd (cc)
find_entry-injective label k ((x, q) ∷ es) v w p h fv fw = elim (Bool-cases (text_eq x v)) [
  | inl ev ↦ elim (Bool-cases (text_eq x w)) [
    | inl ew ↦ sym ((text_eq_iff x v).0 ev) ∙ (text_eq_iff x w).0 ew
    | inr ew ↦ absurd (first_only label k es w p q h.0 h.2 (some_eq (rw ev at fv)) (rw ew at fw))
  ]
  | inr ev ↦ elim (Bool-cases (text_eq x w)) [
    | inl ew ↦ absurd (first_only label k es v p q h.0 h.2 (some_eq (rw ew at fw)) (rw ev at fv))
    | inr ew ↦ find_entry-injective label (suc k) es v w p h.2 (rw ev at fv) (rw ew at fw)
  ]
]

-- In the table that a request ends with, two different values of one label have different
-- placeholders.
pub placeholder_of-distinct :
    (u : Unicode) (texts : List Text) (label v w p q : Text)
    → placeholder_of (redact_texts u [] texts).1 label v ≡ some p
    → placeholder_of (redact_texts u [] texts).1 label w ≡ some q
    → v ≢ w
    → p ≢ q
unfolding placeholder_of
placeholder_of-distinct u texts label v w p q fv fw differ same =
    let a = (redact_texts u [] texts).1 in
    differ (
      find_entry-injective label 0 (entries_of label a) v w p
        (entries_of-IsNumbered label a (redact_texts-AllNumbered u [] texts tt)) fv (rw same fw))
