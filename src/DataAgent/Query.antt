-- ===== src/DataAgent/Query.antt =====
-- `query`, `_describe_schema` and `ready` of `DataAgentService`, and `build_sql_generator`, of
-- backend/app/data_agent/service.py, with `authorize` of backend/app/data_agent/main.py.
use baa_system.Base.{
  Bool, true, false, not, ◌&&◌, Option, none, some, List, [], ◌∷◌, ◌++◌, String, min, is_empty,
  if◌then◌else◌, is_blank, member, ◌<+>◌, ◌||◌, join, map, select,
}
use baa_system.DataAgent.Schemas.{QueryRequest, QueryResponse, AgentSettings}
use baa_system.DataAgent.Action.{
  Act, Answer, returned, raised, Failure, data_agent_error, sqlalchemy_error, timeout_error,
  other_exception, agent_error, ◌>>=◌, ◌>>◌, pure, raise, lift, on_failure,
}
use baa_system.DataAgent.Sql.{Libraries, SqlFault}
use baa_system.DataAgent.Candidate.{validate_sql}
use baa_system.DataAgent.Period.{MonthStart}
use baa_system.DataAgent.Names.{is_identifier, split_qualified_name}
use baa_system.DataAgent.Controlled.{sales_channel_comparison_sql}
use baa_system.DataAgent.Execution.{Outside, ColumnInfo}
use baa_system.DataAgent.Service.{Limits, Ran, generate_initial_sql, execute_with_retry}

abbrev pub agent_model_failed : Failure
agent_model_failed = agent_error "DATA_AGENT_MODEL_FAILED" "Data Agent 生成查询计划失败" 502

abbrev pub no_database : Failure
no_database = agent_error "DATA_AGENT_DATABASE_NOT_CONFIGURED" "Data Agent 未配置独立业务数据库连接" 503

abbrev pub no_tables : Failure
no_tables = agent_error "DATA_AGENT_TABLE_ALLOWLIST_EMPTY" "Data Agent 表白名单为空，拒绝查询" 503

unfoldable pub column_text : ColumnInfo → String
column_text column = column.name <+> " " <+> column.type_text <+> elim column.comment [
  | none ↦ ""
  | some comment ↦ if is_blank comment then "" else " COMMENT " <+> comment
]

unfoldable pub table_text : String → List ColumnInfo → String
unfolding column_text
table_text qualified_name columns =
    qualified_name
    <+> "("
    <+> join ", " (map column_text (select (λ c. is_identifier c.name) columns))
    <+> ")"

-- The end of `inspect_schema`.
unfoldable pub schema_text : List String → List String → Answer String
schema_text descriptions [] = returned (join "\n" descriptions)
schema_text descriptions (name ∷ missing) =
    raised
      (agent_error "DATA_AGENT_TABLE_NOT_FOUND" ("业务数据库缺少白名单表：" <+> join ", " (name ∷ missing)) 503)

-- Has the service its generator, or can it build one?
abbrev pub build_sql_generator : {F T : Type 0} → Libraries T → AgentSettings F → Answer (Unit {0})
build_sql_generator lib settings =
    let base_url = lib.strip settings.data_query_model_base_url in
    let given = lib.lower (lib.strip settings.data_query_model_provider) in
    let provider =
      if is_blank given
      then if is_blank base_url then "openai" else "openai_compatible"
      else given in
    if not (member provider ("openai" ∷ "openai_compatible" ∷ [])) && is_blank base_url
    then raised (
        agent_error "DATA_AGENT_MODEL_PROVIDER_UNSUPPORTED"
          "Data Agent 模型供应商需要提供 OpenAI-compatible BASE_URL" 503)
    else if is_blank (lib.strip settings.data_query_model_name)
        || is_blank (lib.strip settings.data_query_model_api_key)
    then raised (agent_error "DATA_AGENT_MODEL_NOT_CONFIGURED" "Data Agent 未配置可用的模型名称或 API Key" 503)
    else returned tt

module _ {S F R : Type 0} (outside : Outside S F R) where
  -- The loop over the allowed tables, with `descriptions` and `missing`.
  unfoldable pub inspect_tables : List String → List String → List String → Act S String
  unfolding table_text schema_text
  inspect_tables descriptions missing [] = lift (schema_text descriptions missing)
  inspect_tables descriptions missing (qualified_name ∷ names) = do
    parts ← lift (split_qualified_name qualified_name)
    present ← outside.has_table parts.0 parts.1
    if not present
        then inspect_tables descriptions (missing ++ (qualified_name ∷ [])) names
        else (outside.get_columns parts.0 parts.1 >>= λ columns.
            inspect_tables (descriptions ++ (table_text qualified_name columns ∷ [])) missing names)

  unfoldable pub describe_schema : List String → Act S String
  unfolding inspect_tables
  describe_schema allowed_tables = outside.connect >> inspect_tables [] [] allowed_tables

  -- `except SQLAlchemyError` of the readiness check.
  abbrev pub database_answers : Act S Bool
  database_answers = on_failure ((outside.connect >> outside.ping) >> pure true) λ e. elim e [
    | sqlalchemy_error ↦ pure false
    | data_agent_error d ↦ raise (data_agent_error d)
    | timeout_error ↦ raise timeout_error
    | other_exception ↦ raise other_exception
  ]

  -- Is the service ready? With its components: is it configured, does the database answer, and is
  -- there a model?
  unfoldable pub ready :
      {F : Type 0} → Bool → Bool → AgentSettings F → Act S (Bool × Bool × Bool × Bool)
  ready has_engine own_generator settings =
      let model =
        own_generator
        || not (is_blank settings.data_query_model_name)
          && not (is_blank settings.data_query_model_api_key) in
      let configured =
        has_engine
        && not (is_empty settings.data_agent_allowed_table_list)
        && not (is_blank settings.data_agent_api_key)
        && model in
      (if has_engine then database_answers else pure false) >>= λ database.
      pure (configured && database, configured, database, model)

-- What `query` makes of the exceptions of its three parts.
abbrev pub schema_failed : Failure → Failure
schema_failed (data_agent_error e) = data_agent_error e
schema_failed sqlalchemy_error =
    agent_error "DATA_AGENT_DATABASE_UNAVAILABLE" "Data Agent 无法读取业务数据库 Schema" 503
schema_failed timeout_error = timeout_error
schema_failed other_exception = other_exception

abbrev pub generation_failed : Failure → Failure
generation_failed (data_agent_error e) = data_agent_error e
generation_failed sqlalchemy_error = agent_model_failed
generation_failed timeout_error = agent_model_failed
generation_failed other_exception = agent_model_failed

abbrev pub execution_failed : Failure → Failure
execution_failed (data_agent_error e) = data_agent_error e
execution_failed sqlalchemy_error = agent_error "DATA_AGENT_QUERY_REJECTED" "业务数据库拒绝或无法执行该只读查询" 422
execution_failed timeout_error = agent_error "DATA_AGENT_TIMEOUT" "Data Agent 查询超时" 504
execution_failed other_exception = other_exception

abbrev pub response_of : {R : Type 0} → Ran R → QueryResponse R
response_of (sql, execution) = record {
  sql = sql;
  rows = execution.rows;
  scanned_rows = execution.scanned_rows;
  columns = execution.columns;
  truncated = execution.truncated;
}

-- `a or b` on an optional text.
unfoldable pub text_or : Option String → String → String
text_or none b = b
text_or (some a) b = if is_blank a then b else a

module _ {S F R T : Type 0} (outside : Outside S F R) (lib : Libraries T)
    (detail : SqlFault → String) (dialect : String) (earlier : F → F → F)
    (settings : AgentSettings F) (today : MonthStart) where
  -- The limits of a request, cut at those of the settings; `earlier` is `min` on floats.
  unfoldable pub limits_of : QueryRequest F → Limits F
  limits_of request = record {
    max_rows = min request.limits.max_returned_rows settings.agent_max_rows;
    max_scanned_rows = min request.limits.max_scanned_rows settings.data_agent_max_scanned_rows;
    timeout_seconds = earlier request.limits.timeout_seconds settings.data_agent_timeout_seconds;
  }

  -- The controlled statement of the user's own words, or one of the generator.
  unfoldable pub first_sql : QueryRequest F → String → Act S String
  unfolding text_or
  first_sql request schema =
      elim (sales_channel_comparison_sql lib today (text_or request.user_question request.objective)
        dialect settings.data_agent_allowed_table_list) [
          | some controlled_sql ↦ pure controlled_sql
          | none ↦
              generate_initial_sql outside lib detail dialect settings.data_agent_allowed_table_list
                today request.objective schema
        ]

  unfoldable pub answer_request : QueryRequest F → String → Act S (QueryResponse R)
  unfolding first_sql limits_of
  answer_request request schema = do
    sql ← on_failure (first_sql request schema) (λ e. raise (generation_failed e))
    checked ← lift (validate_sql lib detail dialect settings.data_agent_allowed_table_list sql)
    ran ←
        on_failure
          (execute_with_retry outside lib detail dialect settings.data_agent_allowed_table_list
            today (limits_of request) request.objective schema sql)
          (λ e. raise (execution_failed e))
    pure (response_of ran)

  unfoldable pub query : Bool → Bool → QueryRequest F → Act S (QueryResponse R)
  unfolding answer_request describe_schema
  query has_engine own_generator request =
      if not has_engine
      then raise no_database
      else if is_empty settings.data_agent_allowed_table_list
      then raise no_tables
      else on_failure (describe_schema outside settings.data_agent_allowed_table_list)
          (λ e. raise (schema_failed e))
        >>= λ schema.
            (lift (if own_generator then returned tt else build_sql_generator lib settings)
              >> answer_request request schema)
