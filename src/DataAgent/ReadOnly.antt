-- ===== src/DataAgent/ReadOnly.antt =====
-- What a statement that `validate_read_only_sql` accepts can do, and the row limit of the statement
-- that is sent.
use mathlib.Core.Path.{◌∙◌}
use baa_system.Base.{
  Exists, same_text, member, is_blank, is_empty, select, map, not, ◌<+>◌, Every, ℕ, ◌≤◌, Bool, true,
  false, none, some, List, [], ◌∷◌, String, ◌≡◌, refl, ap, ltb, arith, Bool-cases, Option-cases,
  any_of, ◌⊎◌, inl, inr,
}
use baa_system.DataAgent.Sql.{
  Function, forbidden_catalogs, forbidden_functions, function_name, qualified_name, Libraries,
  Table, validate_read_only_sql, statements_fault, statement_fault, first_table_fault, table_fault,
  finds, cte_names, is_cte, is_allowed, is_system, is_unsafe, forbidden_names,
}
use baa_system.DataAgent.Candidate.{bounded, exceeds}

module _ {T : Type 0} (lib : Libraries T) where
  abbrev Is : String → String → Type 0
  Is s t = same_text s t ≡ true

  abbrev IsNot : String → String → Type 0
  IsNot s t = same_text s t ≡ false

  -- A name without catalog and database that is, but for the letters' case, that of a CTE.
  abbrev pub NamesCte : List String → Table → Type 0
  NamesCte ctes table =
      Is (lib.lower table.catalog) ""
      × Is (lib.lower table.db) ""
      × Exists (λ cte. IsNot cte "" × Is (lib.lower table.name) (lib.lower cte)) ctes

  -- None of the schemas that MySQL keeps for itself.
  abbrev pub IsOutside : String → Type 0
  IsOutside schema =
      IsNot schema "information_schema"
      × IsNot schema "mysql"
      × IsNot schema "performance_schema"
      × IsNot schema "sys"

  -- There is no allow-list, or it has the name, or the name after its database and a dot.
  abbrev pub IsListed : List String → Table → Type 0
  IsListed allowed_tables table =
      (is_empty allowed_tables ≡ true)
      ⊎ (Exists (Is (lib.lower table.name)) allowed_tables
          ⊎ (IsNot (lib.lower table.db) ""
              × Exists (Is (lib.lower table.db <+> "." <+> lib.lower table.name)) allowed_tables))

  abbrev pub IsOpen : List String → List String → Table → Type 0
  IsOpen allowed_tables ctes table =
      NamesCte ctes table
      ⊎ (IsOutside (lib.lower table.catalog)
          × IsOutside (lib.lower table.db)
          × IsListed allowed_tables table)

  -- Not one of these five.
  abbrev pub IsHarmless : String → Type 0
  IsHarmless name =
      IsNot name "benchmark"
      × IsNot name "get_lock"
      × IsNot name "load_file"
      × IsNot name "release_lock"
      × IsNot name "sleep"

  -- A function that the parser does not know has its name in `this`.
  abbrev pub IsSafe : Function → Type 0
  IsSafe function =
      (Is (lib.lower function.sql_name) "anonymous" → IsHarmless (lib.lower function.this))
      × (IsNot (lib.lower function.sql_name) "anonymous" → IsHarmless (lib.lower function.sql_name))

  -- No expression of this name, where the parser has such expressions.
  abbrev pub Lacks : T → String → Type 0
  Lacks statement name =
      (find : T → Bool) → lib.expression_type name ≡ some find → find statement ≡ false

  -- One statement of the permitted kinds, in which nothing forbidden is found.
  pub record IsReadOnly (allowed_tables : List String) (statement : T) : Type 0 where
    pub query : lib.is_query statement ≡ true
    pub no_write :
        Lacks statement "Insert"
        × Lacks statement "Update"
        × Lacks statement "Delete"
        × Lacks statement "Merge"
        × Lacks statement "TruncateTable"
    pub no_definition :
        Lacks statement "Create"
        × Lacks statement "Drop"
        × Lacks statement "Alter"
        × Lacks statement "Command"
        × Lacks statement "Grant"
        × Lacks statement "Revoke"
    pub open_tables : Every (IsOpen allowed_tables (lib.ctes statement)) (lib.tables statement)
    pub safe_functions : Every IsSafe (lib.functions statement)

  member_lem : (t : String) (texts : List String) → member t texts ≡ true → Exists (Is t) texts
  unfolding member
  member_lem t [] h = absurd (ground arith)
  member_lem t (s ∷ texts) h = elim (Bool-cases (same_text t s)) [
    | inl e ↦ inl e
    | inr e ↦ inr (member_lem t texts (ground arith))
  ]

  cte_member :
      (name : String) (ctes : List String)
      → member name (map lib.lower (select (λ cte. not (is_blank cte)) ctes)) ≡ true
      → Exists (λ cte. IsNot cte "" × Is name (lib.lower cte)) ctes
  unfolding member select is_blank
  cte_member name [] h = absurd (ground arith)
  cte_member name (cte ∷ ctes) h = elim (Bool-cases (same_text cte "")) [
    | inl e ↦ inr (cte_member name ctes (ground arith))
    | inr e ↦ elim (Bool-cases (same_text name (lib.lower cte))) [
      | inl same ↦ inl (e, same)
      | inr other ↦ inr (cte_member name ctes (ground arith))
    ]
  ]

  outside : (schema : String) → member schema forbidden_catalogs ≡ false → IsOutside schema
  unfolding member
  outside schema h = (ground arith, ground arith, ground arith, ground arith)

  harmless : (name : String) → member name forbidden_functions ≡ false → IsHarmless name
  unfolding member
  harmless name h = (ground arith, ground arith, ground arith, ground arith, ground arith)

  is_unsafe_lem : (f : Function) → is_unsafe lib f ≡ false → IsSafe f
  unfolding is_unsafe function_name
  is_unsafe_lem f h = (
    λ e. harmless (lib.lower f.this) (ground arith),
    λ e. harmless (lib.lower f.sql_name) (ground arith),
  )

  finds_lem :
      (statement : T) (name : String) → finds lib statement name ≡ false → Lacks statement name
  unfolding finds
  finds_lem statement name h find e = ground arith

  is_allowed_lem :
      (allowed_tables : List String) (table : Table)
      → is_allowed lib allowed_tables table ≡ true
      → IsListed allowed_tables table
  unfolding is_allowed qualified_name is_blank
  is_allowed_lem allowed_tables table h = elim (Bool-cases (is_empty allowed_tables)) [
    | inl e ↦ inl e
    | inr some_tables ↦ elim (Bool-cases (member (lib.lower table.name) allowed_tables)) [
      | inl e ↦ inr (inl (member_lem (lib.lower table.name) allowed_tables e))
      | inr other ↦ inr (
          inr (
            ground arith,
            member_lem (lib.lower table.db <+> "." <+> lib.lower table.name) allowed_tables
                (ground arith),
          ))
    ]
  ]

  none_of {ℓ} :
      {A : Type ℓ} (test : A → Bool) (xs : List A)
      → any_of test xs ≡ false
      → Every (λ x. test x ≡ false) xs
  unfolding any_of
  none_of test [] h = tt
  none_of test (x ∷ xs) h = (ground arith, none_of test xs (ground arith))

  abbrev names : List String → List String
  names ctes = map lib.lower (select (λ cte. not (is_blank cte)) ctes)

  table_fault_lem :
      (allowed_tables ctes : List String) (table : Table)
      → table_fault lib allowed_tables (names ctes) table ≡ none
      → IsOpen allowed_tables ctes table
  unfolding table_fault is_cte is_system is_blank
  table_fault_lem allowed_tables ctes table h = elim (Bool-cases (is_cte lib (names ctes) table)) [
    | inl e ↦
        inl (ground arith, ground arith, cte_member (lib.lower table.name) ctes (ground arith))
    | inr e ↦ inr (
      outside (lib.lower table.catalog) (ground arith),
      outside (lib.lower table.db) (ground arith),
      is_allowed_lem allowed_tables table (ground arith),
    )
  ]

  first_table_fault_lem :
      (allowed_tables ctes : List String) (tables : List Table)
      → first_table_fault lib allowed_tables (names ctes) tables ≡ none
      → Every (IsOpen allowed_tables ctes) tables
  unfolding first_table_fault
  first_table_fault_lem allowed_tables ctes [] h = tt
  first_table_fault_lem allowed_tables ctes (table ∷ tables) h = (
    table_fault_lem allowed_tables ctes table (ground arith),
    first_table_fault_lem allowed_tables ctes tables (ground arith),
  )

  lacks :
      (statement : T) (xs : List String)
      → Every (λ name. finds lib statement name ≡ false) xs
      → Every (Lacks statement) xs
  lacks statement [] h = tt
  lacks statement (x ∷ xs) h = (finds_lem statement x h.0, lacks statement xs h.1)

  safe : (fs : List Function) → Every (λ f. is_unsafe lib f ≡ false) fs → Every IsSafe fs
  safe [] h = tt
  safe (f ∷ fs) h = (is_unsafe_lem f h.0, safe fs h.1)

  statement_fault_lem :
      (allowed_tables : List String) (statement : T)
      → statement_fault lib allowed_tables statement ≡ none
      → IsReadOnly allowed_tables statement
  unfolding statement_fault cte_names
  statement_fault_lem allowed_tables statement h =
      let found : Every (Lacks statement) forbidden_names =
        lacks statement forbidden_names
          (none_of (finds lib statement) forbidden_names (ground arith)) in
      record {
        query = ground arith;
        no_write =
            (found.0, found.1.0, found.1.1.0, found.1.1.1.1.1.1.1.0, found.1.1.1.1.1.1.1.1.1.1.0);
        no_definition = (
          found.1.1.1.0, found.1.1.1.1.0, found.1.1.1.1.1.0, found.1.1.1.1.1.1.0,
          found.1.1.1.1.1.1.1.1.0, found.1.1.1.1.1.1.1.1.1.0,
        );
        open_tables =
            first_table_fault_lem allowed_tables (lib.ctes statement) (lib.tables statement)
              (ground arith);
        safe_functions =
            safe (lib.functions statement)
              (none_of (is_unsafe lib) (lib.functions statement) (ground arith));
      }

  only_statement :
      (allowed_tables : List String) (statements : List T)
      → statements_fault lib allowed_tables statements ≡ none
      → (statement : T) × (statements ≡ statement ∷ []) × IsReadOnly allowed_tables statement
  unfolding statements_fault
  only_statement allowed_tables [] e = absurd (ground arith)
  only_statement allowed_tables (statement ∷ []) e =
      (statement, refl, statement_fault_lem allowed_tables statement e)
  only_statement allowed_tables (statement ∷ more ∷ rest) e = absurd (ground arith)

  -- A text that `validate_read_only_sql` accepts parses to exactly one statement, which is a query,
  -- has no expression of the eleven kinds that write, define or administer, calls none of the five
  -- unsafe functions, named or anonymous, and whose tables are CTEs, or allowed ones whose catalog
  -- and database are none of the four system schemas.
  pub validate_read_only_sql-IsReadOnly :
      (sql : String) (allowed_tables : List String)
      → validate_read_only_sql lib sql allowed_tables ≡ none
      → (statement : T) × (lib.parse "mysql" sql ≡ some (statement ∷ []))
        × IsReadOnly allowed_tables statement
  unfolding validate_read_only_sql
  validate_read_only_sql-IsReadOnly sql allowed_tables h =
      elim (Option-cases (lib.parse "mysql" sql)) [
        | inl refused ↦ absurd (ground arith)
        | inr (statements, parsed) ↦
            let (statement, only, safe) = only_statement allowed_tables statements (ground arith) in
            (statement, parsed ∙ ap some only, safe)
      ]

  -- If `limit` puts its number into a statement, then the statement that is sent has a limit in
  -- figures, at most the row limit.
  pub bounded-literal_limit :
      ((n : ℕ) (statement : T) → lib.literal_limit (lib.limit n statement) ≡ some n)
      → (row_limit : ℕ) (statement : T)
      → (n : ℕ) × (lib.literal_limit (bounded lib row_limit statement) ≡ some n) × (n ≤ row_limit)
  unfolding bounded exceeds
  bounded-literal_limit puts row_limit statement =
      elim (Option-cases (lib.literal_limit statement)) [
        | inl e ↦ (row_limit, rw e (puts row_limit statement), omega arith)
        | inr (n, e) ↦ elim (Bool-cases (ltb row_limit n)) [
          | inl over ↦ (row_limit, rw (e, over) (puts row_limit statement), omega arith)
          | inr within ↦ (n, rw (e, within) e, ground arith)
        ]
      ]
