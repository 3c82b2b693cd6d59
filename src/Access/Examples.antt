-- ===== src/Access/Examples.antt =====
-- The visibility rule at concrete rows.
use a_pag_ai_knowledge_base.Prelude.{
  ℕ, String, ◌≡◌, refl, Bool, true, false, not, ◌||◌, Option, none, some, arith, ◌==◌, is_value,
}
use a_pag_ai_knowledge_base.Access.{public, restricted, can_view, names, is_stricter}
use a_pag_ai_knowledge_base.Access.Clause.{Sql, visible_documents_clause}
use a_pag_ai_knowledge_base.Access.Laws.{clause-eq-can_view}

-- The two columns of a row.
abbrev Row : Type 0
Row = Option String × Option ℕ

-- SQL's three-valued logic: `none` is UNKNOWN.
abbrev Verdict : Type 0
Verdict = Option Bool

abbrev is_true : Verdict → Bool
is_true none = false
is_true (some b) = b

abbrev or_verdict : Verdict → Verdict → Verdict
or_verdict none none = none
or_verdict none (some true) = some true
or_verdict none (some false) = none
or_verdict (some true) w = some true
or_verdict (some false) w = w

or_verdict-true : (v w : Verdict) → is_true (or_verdict v w) ≡ (is_true v || is_true w)
or_verdict-true none none = refl
or_verdict-true none (some true) = refl
or_verdict-true none (some false) = refl
or_verdict-true (some true) w = refl
or_verdict-true (some false) w = refl

abbrev equals : Option ℕ → ℕ → Verdict
equals none v = none
equals (some n) v = some (n == v)

equals-true : (column : Option ℕ) (v : ℕ) → is_true (equals column v) ≡ is_value column v
equals-true none v = refl
equals-true (some n) v = ground arith

abbrev three_valued : Sql Row
three_valued = record {
  Clause = Row → Verdict;
  selects = λ c r. is_true (c r);
  sql_true = λ r. some true;
  is_distinct_from = λ column v r. some (not (names (column r) v));
  eq = λ column v r. equals (column r) v;
  or_ = λ a b r. or_verdict (a r) (b r);
  selects-true = λ r. refl;
  selects-is_distinct_from = λ column v r. refl;
  selects-eq = λ column v r. equals-true (column r) v;
  selects-or = λ a b r. or_verdict-true (a r) (b r);
}

-- A restricted row without an owner, and an anonymous viewer.
clause-eq-can_view_example :
    three_valued.selects
      (visible_documents_clause three_valued (λ r. r.0) (λ r. r.1) none false)
      (some restricted, none)
    ≡ can_view (some restricted) none none false
clause-eq-can_view_example =
    clause-eq-can_view three_valued (λ r. r.0) (λ r. r.1) none false (some restricted, none)

stricter : is_stricter (some restricted) (some public) ≡ true
unfolding is_stricter
stricter = refl

seen : can_view (some restricted) (some 3) (some 3) false ≡ true
unfolding can_view
seen = refl
