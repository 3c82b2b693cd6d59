-- ===== src/Gateway/Redaction.antt =====
-- `redact` and `preview` of src/modules/gateway/service.py.
pub mod Table
pub mod Rebuild
pub mod Numbering
use a_pag_ai_knowledge_base.Prelude.{
  ℕ, zero, suc, ◌+◌, ◌-◌, Bool, true, false, not, ◌&&◌, ◌||◌, Option, none, some, List, [], ◌∷◌,
  ◌++◌, Text, codes, decimal, length, map, take, drop, any, text_eq, ltb, leb, ◌==◌, if◌then◌else◌,
  max,
}
use a_pag_ai_knowledge_base.Gateway.Regex.{Unicode}
use a_pag_ai_knowledge_base.Gateway.Recognizers.{Finding, find_all}

-- `assigned[label]`: the values of a label in the order of their numbers, with their placeholders.
-- The source's `order[label]` lists the placeholders of these, in the same order.
abbrev pub Entries : Type 0
Entries = List (Text × Text)

abbrev pub Assigned : Type 0
Assigned = List (Text × Entries)

unfoldable pub find_entry : Text → Entries → Option Text
find_entry value [] = none
find_entry value ((v, p) ∷ es) =
    let rest = find_entry value es in if text_eq v value then some p else rest

unfoldable pub entries_of : Text → Assigned → Entries
entries_of label [] = []
entries_of label ((l, es) ∷ a) =
    let rest = entries_of label a in if text_eq l label then es else rest

-- `assigned[label] = es`, at the place that the label has, or at the end.
unfoldable pub set_entries : Text → Entries → Assigned → Assigned
set_entries label es [] = (label, es) ∷ []
set_entries label es ((l, old) ∷ a) =
    let rest = set_entries label es a in if text_eq l label then (l, es) ∷ a else (l, old) ∷ rest

-- f"<{label}_{n}>"
abbrev pub placeholder_text : Text → ℕ → Text
placeholder_text label n = b'<' ∷ label ++ b'_' ∷ decimal n ++ b'>' ∷ []

abbrev new_entry : Assigned → Text → Text → Entries → Option Text → Text × Assigned
new_entry a label value es (some p) = (p, set_entries label es a)
new_entry a label value es none =
    let p = placeholder_text label (length es + 1) in
    (p, set_entries label (es ++ (value, p) ∷ []) a)

-- The placeholder of a value, which gets the next number of its label when it is new.
unfoldable pub assign : Assigned → Text → Text → Text × Assigned
unfolding find_entry entries_of set_entries
assign a label value =
    let es = entries_of label a in new_entry a label value es (find_entry value es)

-- `sorted(findings, key=lambda f: f.start, reverse=True)`
insert_last_first : Finding → List Finding → List Finding
insert_last_first f [] = f ∷ []
insert_last_first f (g ∷ gs) =
    let rest = insert_last_first f gs in if leb g.start f.start then f ∷ g ∷ gs else g ∷ rest

unfoldable pub sort_last_first : List Finding → List Finding
unfolding insert_last_first
sort_last_first [] = []
sort_last_first (f ∷ fs) = insert_last_first f (sort_last_first fs)

-- `out[: finding.start] + placeholder + out[finding.end :]`
abbrev pub replace_span : Text → Finding → Text → Text
replace_span out f placeholder = take f.start out ++ (placeholder ++ drop f.end out)

-- The loop over the findings of one text.
unfoldable pub mask_findings : Assigned → Text → List Finding → Text × Assigned
unfolding assign
mask_findings a out [] = (out, a)
mask_findings a out (f ∷ fs) =
    let (placeholder, a') = assign a f.label f.text in
    mask_findings a' (replace_span out f placeholder) fs

unfoldable pub redact_text : Unicode → Assigned → Text → Text × Assigned
unfolding mask_findings sort_last_first find_all
redact_text u a text = mask_findings a text (sort_last_first (find_all u text))

unfoldable pub redact_texts : Unicode → Assigned → List Text → List Text × Assigned
unfolding redact_text
redact_texts u a [] = ([], a)
redact_texts u a (text ∷ texts) =
    let (out, a') = redact_text u a text in
    let (outs, a'') = redact_texts u a' texts in (out ∷ outs, a'')

-- `preview`, at its defaults of three characters kept on either side.
abbrev replicate : ℕ → ℕ → Text
replicate zero c = []
replicate (suc n) c = c ∷ replicate n c

-- `value.partition("@")`: what stands before the first `@`, and behind it if there is one.
abbrev partition_at : Text → Text × Option Text
partition_at [] = ([], none)
partition_at (x ∷ xs) =
    let (local, domain) = partition_at xs in
    if x == b'@' then ([], some xs) else (x ∷ local, domain)

abbrev lstrip : Unicode → Text → Text
lstrip u [] = []
lstrip u (x ∷ xs) = let rest = lstrip u xs in if u.is_space x then rest else x ∷ xs

abbrev rstrip : Unicode → Text → Text
rstrip u [] = []
rstrip u (x ∷ xs) = elim (rstrip u xs) [
  | [] ↦ if u.is_space x then [] else x ∷ []
  | y ∷ ys ↦ x ∷ y ∷ ys
]

abbrev pub strip : Unicode → Text → Text
strip u text = rstrip u (lstrip u text)

abbrev pub preview_email : Text → Text → Text
preview_email local domain =
    let head = if ltb 4 (length local) then take 3 local else [] in
    head ++ replicate (max 3 (length local - length head)) b'x' ++ b'@' ∷ domain

abbrev pub preview_plain : Text → Text
preview_plain body =
    if leb (length body) 7
    then replicate (length body) b'x'
    else take 3 body ++ replicate (length body - 6) b'x' ++ drop (length body - 3) body

unfoldable pub preview : Unicode → Text → Text
preview u value = elim (partition_at value).1 [
  | none ↦ preview_plain (strip u value)
  | some domain ↦ preview_email (partition_at value).0 domain
]

pub record MaskedValue : Type 0 where
  pub label : Text
  pub count : ℕ
  pub placeholders : List Text
  pub previews : List Text

abbrev pub masked_value : Unicode → Text × Entries → MaskedValue
masked_value u (label, es) = record {
  label = label;
  count = length es;
  placeholders = map (λ e. e.1) es;
  previews = map (λ e. preview u e.0) es;
}

-- Python's order on strings, by code points.
abbrev text_leb : Text → Text → Bool
text_leb [] b = true
text_leb (x ∷ xs) [] = false
text_leb (x ∷ xs) (y ∷ ys) = if x == y then text_leb xs ys else ltb x y

-- `(-m.count, m.label)`
abbrev pub masked_leb : MaskedValue → MaskedValue → Bool
masked_leb m n = if m.count == n.count then text_leb m.label n.label else ltb n.count m.count

insert_masked : MaskedValue → List MaskedValue → List MaskedValue
insert_masked m [] = m ∷ []
insert_masked m (n ∷ ns) =
    let rest = insert_masked m ns in if masked_leb m n then m ∷ n ∷ ns else n ∷ rest

unfoldable pub sort_masked : List MaskedValue → List MaskedValue
unfolding insert_masked
sort_masked [] = []
sort_masked (m ∷ ms) = insert_masked m (sort_masked ms)

unfoldable pub redact : Unicode → List Text → List Text × List MaskedValue
unfolding redact_texts sort_masked preview
redact u texts =
    let (outs, a) = redact_texts u [] texts in (outs, sort_masked (map (masked_value u) a))
