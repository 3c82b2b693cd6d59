-- ===== src/Access.antt =====
-- src/modules/auth/access.py: the document visibility rule, as a predicate and as a SQL clause.
pub mod Clause
pub mod Laws
pub mod Examples
use a_pag_ai_knowledge_base.Prelude.{
  ℕ, String, Bool, true, false, not, Option, none, some, str_eq, ltb, if◌then◌else◌, is_value,
}

-- The members of `Classification` and `UserRole` (src/db/enums.py), by their values.
abbrev pub public : String
public = "PUBLIC"

abbrev pub restricted : String
restricted = "RESTRICTED"

abbrev pub admin : String
admin = "ADMIN"

-- `value == MEMBER`, for a value that may be `None`.
abbrev pub names : Option String → String → Bool
names none member = false
names (some s) member = str_eq s member

unfoldable pub is_admin : Option String → Bool
is_admin role = names role admin

-- `owner_id is not None and owner_id == viewer_id`
abbrev pub owns : Option ℕ → Option ℕ → Bool
owns none viewer_id = false
owns (some owner_id) viewer_id = is_value viewer_id owner_id

unfoldable pub can_view : Option String → Option ℕ → Option ℕ → Bool → Bool
can_view classification owner_id viewer_id viewer_is_admin =
    if not (names classification restricted)
    then true
    else if viewer_is_admin
    then true
    else owns owner_id viewer_id

unfoldable pub tier_rank : Option String → ℕ
tier_rank classification = if names classification restricted then 1 else 0

unfoldable pub is_stricter : Option String → Option String → Bool
unfolding tier_rank
is_stricter candidate current = ltb (tier_rank current) (tier_rank candidate)
