-- ===== src/DataAgent/Candidate.antt =====
-- The service's own checks of a candidate, `_validate_sql`, `_validate_sql_intent` and
-- `_bounded_sql` of backend/app/data_agent/service.py.
use baa_system.Base.{
  ℕ, Bool, true, not, ◌&&◌, ◌||◌, Option, none, some, List, [], ◌∷◌, String, map, ltb, is_empty,
  if◌then◌else◌, ◌<+>◌, has_text, has_prefix, is_blank, member, any_of, select,
}
use baa_system.DataAgent.Action.{Answer, returned, raised, Failure, other_exception, agent_error}
use baa_system.DataAgent.Sql.{
  Libraries, Table, SqlFault, cte_names, validate_read_only_sql, sqlglot_error,
}

abbrev pub sales_terms : List String
sales_terms = "sales_amount" ∷ "sales" ∷ "revenue" ∷ "amount" ∷ "销售" ∷ "营收" ∷ "成交额" ∷ []

abbrev pub channel_terms : List String
channel_terms = "channel" ∷ "渠道" ∷ "平台" ∷ []

abbrev pub inventory_terms : List String
inventory_terms = "inventory" ∷ "stock" ∷ "库存" ∷ "存货" ∷ []

abbrev pub product_terms : List String
product_terms = "product" ∷ "sku" ∷ "商品" ∷ "产品" ∷ []

abbrev pub sales_tables : List String
sales_tables = "biz_sales" ∷ "biz_orders" ∷ "biz_sales_summary" ∷ []

-- `any(term in text for term in terms)`.
unfoldable pub mentions : String → List String → Bool
mentions text terms = any_of (λ term. has_text term text) terms

-- `tables.intersection(names)`, as a test.
unfoldable pub meets : List String → List String → Bool
meets tables names = any_of (λ name. member name tables) names

abbrev pub mismatch : String → Failure
mismatch message = agent_error "DATA_AGENT_INTENT_MISMATCH" message 422

-- `if test: raise failure`, and then the rest.
unfoldable pub guard : Bool → Failure → Answer (Unit {0}) → Answer (Unit {0})
guard test failure rest = if test then raised failure else rest

module _ {T : Type 0} (lib : Libraries T) (detail : SqlFault → String) (dialect : String)
    (allowed_tables : List String) where
  -- `table.db or table.catalog or table.name.lower() not in cte_names`.
  unfoldable pub is_physical : List String → Table → Bool
  is_physical names table =
      not (is_blank table.db)
      || not (is_blank table.catalog)
      || not (member (lib.lower table.name) names)

  unfoldable pub check_physical : T → Answer (Unit {0})
  unfolding is_physical cte_names
  check_physical statement =
      guard (is_empty (select (is_physical (cte_names lib statement)) (lib.tables statement)))
        (agent_error "DATA_AGENT_SQL_REJECTED" "候选 SQL 必须查询至少一个白名单业务表" 422) (returned tt)

  abbrev pub rejected : SqlFault → Failure
  rejected fault = agent_error "DATA_AGENT_SQL_REJECTED" ("候选 SQL 未通过只读安全校验：" <+> detail fault) 422

  -- `detail` is `str(exc)[:160]`.
  unfoldable pub validate_sql : String → Answer (Unit {0})
  unfolding check_physical
  validate_sql sql = elim (validate_read_only_sql lib sql allowed_tables) [
    | some fault ↦ raised (rejected fault)
    | none ↦ elim (lib.parse_one dialect sql) [
      | none ↦ raised (rejected sqlglot_error)
      | some statement ↦ check_physical statement
    ]
  ]

  -- `{table.name.lower() for table in statement.find_all(exp.Table)}`.
  unfoldable pub physical_tables : T → List String
  physical_tables statement = map (λ table. lib.lower table.name) (lib.tables statement)

  -- The four business topics, each with the tables that a question on it needs.
  unfoldable pub check_intent : String → String → List String → Answer (Unit {0})
  unfolding mentions meets
  check_intent objective sql tables =
      guard (mentions objective sales_terms && not (meets tables sales_tables))
        (mismatch "生成的 SQL 未查询销售业务表")
        (guard (mentions objective channel_terms && not (meets tables sales_tables))
          (mismatch "生成的 SQL 未按渠道查询销售数据")
          (guard
            (mentions objective channel_terms
              && not (mentions sql ("channel_id" ∷ "channel_name" ∷ [])))
            (mismatch "生成的 SQL 未包含渠道维度")
            (guard (mentions objective inventory_terms && not (member "biz_inventory" tables))
              (mismatch "生成的 SQL 未查询库存业务表")
              (guard
                (mentions objective product_terms
                  && not (meets tables ("biz_products" ∷ "biz_skus" ∷ [])))
                (mismatch "生成的 SQL 未查询商品业务表") (returned tt)))))

  unfoldable pub validate_sql_intent : String → String → Answer (Unit {0})
  unfolding check_intent physical_tables
  validate_sql_intent sql objective =
      if not (any_of (has_prefix "biz_") allowed_tables)
      then returned tt
      else elim (lib.parse_one dialect sql) [
        | none ↦ raised other_exception
        | some statement ↦
            check_intent (lib.lower objective) (lib.lower sql) (physical_tables statement)
      ]

-- `existing_limit is None or existing_limit > row_limit`.
unfoldable pub exceeds : Option ℕ → ℕ → Bool
exceeds none row_limit = true
exceeds (some existing_limit) row_limit = ltb row_limit existing_limit

module _ {T : Type 0} (lib : Libraries T) where
  unfoldable pub bounded : ℕ → T → T
  unfolding exceeds
  bounded row_limit statement =
      if exceeds (lib.literal_limit statement) row_limit
      then lib.limit row_limit statement
      else statement

  unfoldable pub bounded_sql : String → ℕ → String → Answer String
  unfolding bounded
  bounded_sql sql row_limit dialect = elim (lib.parse_one dialect sql) [
    | none ↦ raised other_exception
    | some statement ↦ returned (lib.sql dialect (bounded row_limit statement))
  ]
