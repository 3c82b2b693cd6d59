-- ===== src/Gateway/Redaction/Table.antt =====
-- The table of placeholders, which a request only extends.
use a_pag_ai_knowledge_base.Prelude.{
  ◌+◌, ◌≡◌, refl, inl, inr, true, List, [], ◌∷◌, ◌++◌, arith, Text, length, if◌then◌else◌, Option,
  none, some, text_eq, text_eq_iff, Option-cases,
}
use a_pag_ai_knowledge_base.Gateway.Regex.{Unicode}
use a_pag_ai_knowledge_base.Gateway.Recognizers.{Finding, find_all}
use a_pag_ai_knowledge_base.Gateway.Redaction.{
  Entries, Assigned, find_entry, entries_of, set_entries, assign, sort_last_first, replace_span,
  mask_findings, redact_text, redact_texts, placeholder_text,
}

-- The placeholder that the table has for a value of a label.
unfoldable pub placeholder_of : Assigned → Text → Text → Option Text
unfolding find_entry entries_of
placeholder_of a label value = find_entry value (entries_of label a)

pub entries_of-set_entries :
    (l k : Text) (es : Entries) (a : Assigned)
    → entries_of k (set_entries l es a) ≡ (if text_eq l k then es else entries_of k a)
unfolding entries_of set_entries
entries_of-set_entries l k es [] = refl
entries_of-set_entries l k es ((m, old) ∷ a) =
    ground
      (arith, text_eq_iff l k, text_eq_iff m l, text_eq_iff m k, entries_of-set_entries l k es a)

pub text_eq_refl : (t : Text) → text_eq t t ≡ true
text_eq_refl t = (text_eq_iff t t).1 refl

pub find_entry-append :
    (v : Text) (es : Entries) (w p : Text)
    → find_entry v (es ++ (w, p) ∷ [])
      ≡ elim (find_entry v es) [ some q ↦ some q | none ↦ if text_eq w v then some p else none ]
unfolding find_entry
find_entry-append v [] w p = ground arith
find_entry-append v ((x, q) ∷ es) w p = ground (arith, find_entry-append v es w p)

-- What `assign` returns is what the table then has.
pub assign-placeholder_of :
    (a : Assigned) (l v : Text) → placeholder_of (assign a l v).1 l v ≡ some (assign a l v).0
unfolding assign placeholder_of
assign-placeholder_of a l v = elim (Option-cases (find_entry v (entries_of l a))) [
  | inl e ↦
      rw (e, entries_of-set_entries, text_eq_refl l) (rw (find_entry-append, e, text_eq_refl v))
  | inr (p, e) ↦ rw (e, entries_of-set_entries, text_eq_refl l) e
]

-- The table `b` has every placeholder of `a`.
unfoldable pub Extends : Assigned → Assigned → Type 0
Extends a b = (l v p : Text) → placeholder_of a l v ≡ some p → placeholder_of b l v ≡ some p

pub assign-Extends : (a : Assigned) (l v : Text) → Extends a (assign a l v).1
unfolding assign placeholder_of Extends
assign-Extends a l v k w p h = elim (Option-cases (find_entry v (entries_of l a))) [
  | inl e ↦
      rw (e, entries_of-set_entries)
        (ground (
          arith,
          h,
          text_eq_iff l k,
          find_entry-append w (entries_of l a) v (placeholder_text l (length (entries_of l a) + 1)),
        ))
  | inr (q, e) ↦ rw (e, entries_of-set_entries) (ground (arith, h, text_eq_iff l k))
]

pub Extends-refl : (a : Assigned) → Extends a a
unfolding Extends
Extends-refl a l v p h = h

pub Extends-trans : (a b c : Assigned) → Extends a b → Extends b c → Extends a c
unfolding Extends
Extends-trans a b c f g l v p h = g l v p (f l v p h)

pub mask_findings-Extends :
    (a : Assigned) (out : Text) (fs : List Finding) → Extends a (mask_findings a out fs).1
unfolding mask_findings
mask_findings-Extends a out [] = Extends-refl a
mask_findings-Extends a out (f ∷ fs) =
    let (placeholder, b) = assign a f.label f.text in
    Extends-trans a b _ (assign-Extends a f.label f.text)
      (mask_findings-Extends b (replace_span out f placeholder) fs)

pub redact_texts-Extends :
    (u : Unicode) (a : Assigned) (texts : List Text) → Extends a (redact_texts u a texts).1
unfolding redact_texts redact_text
redact_texts-Extends u a [] = Extends-refl a
redact_texts-Extends u a (text ∷ texts) =
    let (out, b) = redact_text u a text in
    Extends-trans a b _ (mask_findings-Extends a text (sort_last_first (find_all u text)))
      (redact_texts-Extends u b texts)
