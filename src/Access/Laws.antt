-- ===== src/Access/Laws.antt =====
-- The visibility rule in its two forms, and under the order on tiers that deduplication uses.
use a_pag_ai_knowledge_base.Prelude.{
  ℕ, String, ◌≡◌, Bool, true, false, Option, none, some, arith, is_value,
}
use a_pag_ai_knowledge_base.Access.{restricted, can_view, is_stricter, owns}
use a_pag_ai_knowledge_base.Access.Clause.{Sql, visible_documents_clause}

owns_swap : (owner : Option ℕ) (v : ℕ) → is_value owner v ≡ owns owner (some v)
owns_swap none v = ground arith
owns_swap (some o) v = ground arith

owns-none : (owner : Option ℕ) → owns owner none ≡ false
owns-none none = ground arith
owns-none (some o) = ground arith

module _ {Row : Type 0} (sql : Sql Row) (classification : Row → Option String)
    (uploader_user_id : Row → Option ℕ) where
  -- For every row, NULL columns and anonymous viewers included, the SQL visibility clause selects
  -- the row exactly when the Python predicate lets the viewer see it, given the documented laws of
  -- the SQL operators.
  pub clause-eq-can_view :
      (viewer_id : Option ℕ) (viewer_is_admin : Bool) (r : Row)
      → sql.selects
          (visible_documents_clause sql classification uploader_user_id viewer_id viewer_is_admin)
          r
        ≡ can_view (classification r) (uploader_user_id r) viewer_id viewer_is_admin
  unfolding visible_documents_clause can_view
  clause-eq-can_view viewer_id true r = ground (arith, sql.selects-true r)
  clause-eq-can_view none false r = ground (
    arith,
    sql.selects-is_distinct_from classification restricted r,
    owns-none (uploader_user_id r),
  )
  clause-eq-can_view (some v) false r = ground (
    arith,
    sql.selects-or (sql.is_distinct_from classification restricted) (sql.eq uploader_user_id v) r,
    sql.selects-is_distinct_from classification restricted r,
    sql.selects-eq uploader_user_id v r,
    owns_swap (uploader_user_id r) v,
  )

-- Whoever may see a document under the stricter of two tiers may see it under the other.
pub is_stricter-can_view :
    (candidate current : Option String) (owner viewer : Option ℕ) (as_admin : Bool)
    → is_stricter candidate current ≡ true
    → can_view candidate owner viewer as_admin ≡ true
    → can_view current owner viewer as_admin ≡ true
unfolding is_stricter can_view
is_stricter-can_view candidate current owner viewer as_admin s v = ground arith
