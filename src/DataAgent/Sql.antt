-- ===== src/DataAgent/Sql.antt =====
-- The check of a candidate statement, `validate_read_only_sql` of
-- backend/app/agent/tools/db_query.py. The parser `sqlglot` is a parameter: what it gives of a text,
-- and what it finds in a statement. So are Python's `str.lower`, `str.strip` and regular
-- expressions.
use baa_system.Base.{
  ℕ, Bool, false, not, ◌&&◌, ◌||◌, Option, none, some, List, [], ◌∷◌, String, map, is_empty,
  if◌then◌else◌, ◌<+>◌, is_blank, same_text, member, any_of, select,
}

-- `exp.Table`; absent parts are empty texts.
pub record Table : Type 0 where
  pub catalog : String
  pub db : String
  pub name : String

-- `exp.Func`: `sql_name()` and `str(this)`.
pub record Function : Type 0 where
  pub sql_name : String
  pub this : String

pub record Libraries (Statement : Type 0) : Type 0 where
  -- `parse(sql, dialect=...)` and `parse_one`; `none` where they raise
  pub parse : String → String → Option (List Statement)
  pub parse_one : String → String → Option Statement
  -- is it a `Select`, a `Union` or a `Subquery`?
  pub is_query : Statement → Bool
  -- `getattr(exp, name, None)`, as the test whether `find` gives something
  pub expression_type : String → Option (Statement → Bool)
  -- `alias_or_name` of every `exp.CTE`
  pub ctes : Statement → List String
  pub tables : Statement → List Table
  pub functions : Statement → List Function
  -- the limit, where it is a literal and a whole number
  pub literal_limit : Statement → Option ℕ
  pub limit : ℕ → Statement → Statement
  pub sql : String → Statement → String
  pub lower : String → String
  pub strip : String → String
  -- `re.search` for a year and a month, as in "2026-6" and "2026年6月", and for a month, as in "6月"
  pub search_year_month : String → Option (ℕ × ℕ)
  pub search_month : String → Option ℕ

-- What `validate_read_only_sql` raises.
pub data SqlFault : Type 0 where
  value_error : String → SqlFault
  sqlglot_error : SqlFault

-- The first fault, for checks one after the other.
infixr 4 ◌and_then◌
abbrev pub ◌and_then◌ : Option SqlFault → Option SqlFault → Option SqlFault
none and_then rest = rest
(some fault) and_then rest = some fault

abbrev pub reject : Bool → String → Option SqlFault
reject test message = if test then some (value_error message) else none

abbrev pub forbidden_names : List String
forbidden_names =
    "Insert" ∷ "Update" ∷ "Delete" ∷ "Create" ∷ "Drop" ∷ "Alter" ∷ "Command" ∷ "Merge" ∷ "Grant"
    ∷ "Revoke" ∷ "TruncateTable" ∷ []

abbrev pub forbidden_catalogs : List String
forbidden_catalogs = "information_schema" ∷ "mysql" ∷ "performance_schema" ∷ "sys" ∷ []

abbrev pub forbidden_functions : List String
forbidden_functions = "benchmark" ∷ "get_lock" ∷ "load_file" ∷ "release_lock" ∷ "sleep" ∷ []

module _ {T : Type 0} (lib : Libraries T) where
  -- `expression_type is not None and statement.find(expression_type)`.
  unfoldable pub finds : T → String → Bool
  finds statement name = elim (lib.expression_type name) [
    | none ↦ false
    | some find ↦ find statement
  ]

  unfoldable pub cte_names : T → List String
  cte_names statement = map lib.lower (select (λ name. not (is_blank name)) (lib.ctes statement))

  -- `not catalog and not database and table.name.lower() in cte_names`.
  unfoldable pub is_cte : List String → Table → Bool
  is_cte names table =
      is_blank (lib.lower table.catalog)
      && is_blank (lib.lower table.db)
      && member (lib.lower table.name) names

  unfoldable pub qualified_name : Table → String
  qualified_name table =
      if not (is_blank (lib.lower table.db))
      then lib.lower table.db <+> "." <+> lib.lower table.name
      else lib.lower table.name

  unfoldable pub is_allowed : List String → Table → Bool
  unfolding qualified_name
  is_allowed allowed_tables table =
      is_empty allowed_tables
      || member (lib.lower table.name) allowed_tables
      || member (qualified_name table) allowed_tables

  unfoldable pub is_system : Table → Bool
  is_system table =
      member (lib.lower table.catalog) forbidden_catalogs
      || member (lib.lower table.db) forbidden_catalogs

  unfoldable pub table_fault : List String → List String → Table → Option SqlFault
  unfolding is_cte is_system is_allowed qualified_name
  table_fault allowed_tables names table =
      if is_cte names table
      then none
      else (reject (is_system table) "system schemas are forbidden"
          and_then reject (not (is_allowed allowed_tables table))
              ("table is not in the allowlist: " <+> qualified_name table))

  unfoldable pub first_table_fault : List String → List String → List Table → Option SqlFault
  unfolding table_fault
  first_table_fault allowed_tables names [] = none
  first_table_fault allowed_tables names (table ∷ tables) =
      table_fault allowed_tables names table and_then first_table_fault allowed_tables names tables

  unfoldable pub function_name : Function → String
  function_name function =
      if same_text (lib.lower function.sql_name) "anonymous"
      then lib.lower function.this
      else lib.lower function.sql_name

  unfoldable pub is_unsafe : Function → Bool
  unfolding function_name
  is_unsafe function = member (function_name function) forbidden_functions

  -- The checks of the one statement.
  unfoldable pub statement_fault : List String → T → Option SqlFault
  unfolding finds cte_names first_table_fault is_unsafe
  statement_fault allowed_tables statement =
      reject (not (lib.is_query statement)) "only SELECT queries are allowed"
      and_then reject (any_of (finds statement) forbidden_names)
          "write or administrative SQL is forbidden"
      and_then first_table_fault allowed_tables (cte_names statement) (lib.tables statement)
      and_then reject (any_of is_unsafe (lib.functions statement))
          "unsafe SQL function is forbidden"

  unfoldable pub statements_fault : List String → List T → Option SqlFault
  unfolding statement_fault
  statements_fault allowed_tables [] = some (value_error "only one read-only statement is allowed")
  statements_fault allowed_tables (statement ∷ []) = statement_fault allowed_tables statement
  statements_fault allowed_tables (statement ∷ more ∷ rest) =
      some (value_error "only one read-only statement is allowed")

  unfoldable pub validate_read_only_sql : String → List String → Option SqlFault
  unfolding statements_fault
  validate_read_only_sql sql allowed_tables =
      if is_blank (lib.strip sql)
      then some (value_error "Data Agent did not return SQL")
      else elim (lib.parse "mysql" sql) [
        | none ↦ some sqlglot_error
        | some statements ↦ statements_fault allowed_tables statements
      ]
