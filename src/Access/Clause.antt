-- ===== src/Access/Clause.antt =====
-- `visible_documents_clause` of src/modules/auth/access.py, over the query builder it is given.
use a_pag_ai_knowledge_base.Prelude.{
  ℕ, String, ◌≡◌, Bool, true, not, ◌||◌, Option, none, some, if◌then◌else◌, is_value,
}
use a_pag_ai_knowledge_base.Access.{names, restricted}

-- What SQLAlchemy and the database supply for a table with rows of type `Row`: clauses over its
-- columns, and whether a `WHERE` with the clause selects a row. A column may be NULL. The laws are
-- those that SQL documents: `IS DISTINCT FROM` compares NULL as a value, `=` with a NULL does not
-- select, and `OR` selects what either side does.
pub record Sql (Row : Type 0) : Type 1 where
  pub Clause : Type 0
  pub selects : Clause → Row → Bool
  pub sql_true : Clause
  pub is_distinct_from : (Row → Option String) → String → Clause
  pub eq : (Row → Option ℕ) → ℕ → Clause
  pub or_ : Clause → Clause → Clause
  pub selects-true : (r : Row) → selects sql_true r ≡ true
  pub selects-is_distinct_from :
      (column : Row → Option String) (v : String) (r : Row)
      → selects (is_distinct_from column v) r ≡ not (names (column r) v)
  pub selects-eq :
      (column : Row → Option ℕ) (v : ℕ) (r : Row) → selects (eq column v) r ≡ is_value (column r) v
  pub selects-or : (a b : Clause) (r : Row) → selects (or_ a b) r ≡ (selects a r || selects b r)

-- `document_model` is passed in as its two columns.
module _ {Row : Type 0} (sql : Sql Row) (classification : Row → Option String)
    (uploader_user_id : Row → Option ℕ) where
  open sql use {Clause, sql_true, is_distinct_from, eq, or_}

  abbrev not_restricted : Clause
  not_restricted = is_distinct_from classification restricted

  abbrev owned_or_open : Option ℕ → Clause
  owned_or_open none = not_restricted
  owned_or_open (some viewer_id) = or_ not_restricted (eq uploader_user_id viewer_id)

  unfoldable pub visible_documents_clause : Option ℕ → Bool → Clause
  visible_documents_clause viewer_id viewer_is_admin =
      if viewer_is_admin then sql_true else owned_or_open viewer_id
