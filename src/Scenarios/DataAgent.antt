-- ===== src/Scenarios/DataAgent.antt =====
-- The theorems on the data agent, applied to a small parser, model and database.
use baa_system.Base.{
  List, ap, ℕ, suc, ◌+◌, ◌≡◌, ◌≢◌, ◌≤◌, refl, true, false, Option, none, some, [], ◌∷◌, String, min,
  same_text, arith, ltb, if◌then◌else◌, any_of, member, has_text, has_prefix, is_blank, select,
  join,
}
use baa_system.DataAgent.Schemas.{QueryRequest, QueryResponse, AgentSettings}
use baa_system.DataAgent.Action.{
  returned, raised, Failure, sqlalchemy_error, other_exception, agent_error,
}
use baa_system.DataAgent.Sql.{
  Libraries, SqlFault, validate_read_only_sql, statements_fault, statement_fault, first_table_fault,
  table_fault, is_cte, is_system, is_allowed, qualified_name, finds, is_unsafe, function_name,
  cte_names,
}
use baa_system.DataAgent.Candidate.{
  bounded, bounded_sql, exceeds, validate_sql, check_physical, is_physical, validate_sql_intent,
  check_intent, physical_tables, mentions, meets, guard,
}
use baa_system.DataAgent.Names.{
  split_qualified_name, qualified_parts, split_dots, is_identifier, identifier_rest, add_char,
}
use baa_system.DataAgent.Controlled.{sales_channel_comparison_sql, is_comparison, requested_month}
use baa_system.DataAgent.Execution.{
  execute, estimate_scanned_rows, total_rows, run_estimated, is_over, or_count, finish_execution,
}
use baa_system.DataAgent.Service.{
  generate_initial_sql, generator_failed, controlled_or_failed, regenerate_sql, regenerated,
  run_sql, run_fallback, after_mismatch, after_rejection, on_rejection, after_intent, attempts,
  execute_with_retry,
}
use baa_system.DataAgent.Client.{
  Fields, number, object, Http, response as reply, request_error, run_db_query, check_fields,
  store_rows, client_query, client_attempts, after_reply, read_payload, backoff, check_rows,
  check_columns, scan_fault, strict, strict_list,
}
use baa_system.DataAgent.Requests.{client_query-requests}
use baa_system.DataAgent.ToolResults.{Passed, run_db_query-Passed}
use baa_system.Agent.Runtime.{ToolResult}
use baa_system.DataAgent.Query.{
  describe_schema, inspect_tables, table_text, column_text, schema_text, first_sql, text_or,
}
use baa_system.DataAgent.Period.{
  MonthStart, month_start, IsMonth, month_number, current_end, previous_start,
  current_end-previous_start,
}
use baa_system.DataAgent.Execution.{Outside}
use baa_system.DataAgent.Query.{query, answer_request, limits_of}
use baa_system.DataAgent.Trace
use baa_system.DataAgent.Conduct.{DatabaseFails}
use baa_system.DataAgent.QuerySafety.{IsAnswer, query-IsAnswer}
use baa_system.DataAgent.Failures.{IsReported, answer_request-IsReported}
use baa_system.DataAgent.ReadOnly.{
  IsReadOnly, validate_read_only_sql-IsReadOnly, bounded-literal_limit,
}

-- A parsed statement: a query on a table, perhaps with a limit.
record Statement : Type 0 where
  text : String
  table : String
  row_limit : Option ℕ

abbrev sales_query : Statement
sales_query = record {
  text = "SELECT channel_id FROM biz_sales";
  table = "biz_sales";
  row_limit = none;
}

abbrev products_query : Statement
products_query = record {
  text = "SELECT name FROM biz_products";
  table = "biz_products";
  row_limit = some 5;
}

abbrev parsed : String → Statement
parsed sql = if same_text sql sales_query.text then sales_query else products_query

abbrev parser : Libraries Statement
parser = record {
  parse = λ dialect sql. some (parsed sql ∷ []);
  parse_one = λ dialect sql. some (parsed sql);
  is_query = λ statement. true;
  expression_type = λ name. some (λ statement. false);
  ctes = λ statement. [];
  tables = λ statement. record { catalog = ""; db = ""; name = statement.table } ∷ [];
  functions = λ statement. record { sql_name = "SUM"; this = "" } ∷ [];
  literal_limit = λ statement. statement.row_limit;
  limit = λ n statement. record statement { row_limit = some n };
  sql = λ dialect statement. statement.text;
  lower = λ s. s;
  strip = λ s. s;
  search_year_month = λ s. some (2026, 6);
  search_month = λ s. none;
}

abbrev detail : SqlFault → String
detail fault = "rejected"

abbrev settings : AgentSettings ℕ
settings = record {
  data_agent_allowed_table_list = "biz_products" ∷ "biz_sales" ∷ [];
  agent_max_rows = 2;
  data_agent_max_scanned_rows = 100;
  data_agent_timeout_seconds = 30;
  data_agent_api_key = "key";
  data_query_model_provider = "";
  data_query_model_name = "model";
  data_query_model_api_key = "key";
  data_query_model_base_url = "";
}

abbrev request : QueryRequest ℕ
request = record {
  objective = "sales by channel";
  user_question = none;
  user_id = "7";
  conversation_id = "1";
  task_id = "2";
  trace_id = "3";
  limits = record { max_returned_rows = 10; max_scanned_rows = 50; timeout_seconds = 5 };
}

-- The model first answers with a query of the wrong table; the state counts its answers. The
-- database has three rows.
abbrev world : Outside ℕ ℕ ℕ
world = record {
  generate = λ objective schema dialect s.
      (returned (if ltb 0 s then sales_query.text else products_query.text), suc s);
  connect = λ s. (returned tt, s);
  ping = λ s. (returned tt, s);
  start_timeout = λ seconds s. (returned tt, s);
  explain = λ sql s. (returned (some 3 ∷ none ∷ some 4 ∷ []), s);
  run = λ sql s. (returned (record { keys = "channel_id" ∷ []; mappings = 4 ∷ 5 ∷ 6 ∷ [] }), s);
  has_table = λ schema table s. (returned true, s);
  get_columns = λ schema table s. (returned [], s);
}

abbrev today : MonthStart
today = month_start 2026 7

abbrev response : QueryResponse ℕ
response = record {
  sql = "SELECT channel_id FROM biz_sales";
  rows = 4 ∷ 5 ∷ [];
  scanned_rows = 7;
  columns = "channel_id" ∷ [];
  truncated = true;
}

-- The first statement does not serve the objective, the second does, and is cut at the limit.
answered :
    query world parser detail "mysql" min settings today true true request 0
    ≡ (returned response, 2)
unfolding query answer_request describe_schema inspect_tables split_qualified_name qualified_parts
    split_dots is_identifier identifier_rest add_char table_text column_text schema_text first_sql
    text_or limits_of generate_initial_sql generator_failed controlled_or_failed regenerate_sql
    regenerated run_sql run_fallback after_mismatch after_rejection on_rejection after_intent
    attempts execute_with_retry execute estimate_scanned_rows total_rows run_estimated is_over
    or_count finish_execution bounded_sql bounded exceeds validate_sql check_physical is_physical
    cte_names validate_read_only_sql statements_fault statement_fault first_table_fault table_fault
    is_cte is_system is_allowed qualified_name finds is_unsafe function_name validate_sql_intent
    check_intent physical_tables mentions meets guard sales_channel_comparison_sql is_comparison
    requested_month any_of member same_text has_text has_prefix is_blank select join
answered = refl

query-IsAnswer_example :
    Trace.Within world parser detail "mysql" settings.data_agent_allowed_table_list today 3 2 3 0
      (query world parser detail "mysql" min settings today true true request 0).1
    × ((r : QueryResponse ℕ)
        → (query world parser detail "mysql" min settings today true true request 0).0 ≡ returned r
        → IsAnswer world parser detail "mysql" min settings today request r)
unfolding limits_of
query-IsAnswer_example =
    query-IsAnswer world parser detail "mysql" min settings today request true true 0

-- A database that refuses every statement.
abbrev refusing : Outside ℕ ℕ ℕ
refusing = record world { run = λ sql s. (raised sqlalchemy_error, s) }

abbrev refused : Failure
refused = agent_error "DATA_AGENT_QUERY_REJECTED" "业务数据库拒绝或无法执行该只读查询" 422

refuses :
    (answer_request refusing parser detail "mysql" min settings today request "" 1).0
    ≡ raised refused
unfolding answer_request describe_schema inspect_tables split_qualified_name qualified_parts
    split_dots is_identifier identifier_rest add_char table_text column_text schema_text first_sql
    text_or limits_of generate_initial_sql generator_failed controlled_or_failed regenerate_sql
    regenerated run_sql run_fallback after_mismatch after_rejection on_rejection after_intent
    attempts execute_with_retry execute estimate_scanned_rows total_rows run_estimated is_over
    or_count finish_execution bounded_sql bounded exceeds validate_sql check_physical is_physical
    cte_names validate_read_only_sql statements_fault statement_fault first_table_fault table_fault
    is_cte is_system is_allowed qualified_name finds is_unsafe function_name validate_sql_intent
    check_intent physical_tables mentions meets guard sales_channel_comparison_sql is_comparison
    requested_month any_of member same_text has_text has_prefix is_blank select join
refuses = refl

refusing_database : DatabaseFails refusing (λ e. e ≢ other_exception)
refusing_database = record {
  connect = λ s e h. absurd cc;
  start_timeout = λ seconds s e h. absurd cc;
  explain = λ sql s e h. absurd cc;
  run = λ sql s e h p. cc;
}

answer_request-IsReported_example : IsReported refused
answer_request-IsReported_example =
    answer_request-IsReported refusing parser detail "mysql" min settings today request
      refusing_database (λ sql controlled e. cc) "" 1 refused refuses

accepts : validate_read_only_sql parser "SELECT channel_id FROM biz_sales" ("biz_sales" ∷ []) ≡ none
unfolding validate_read_only_sql statements_fault statement_fault first_table_fault table_fault
    is_cte is_system is_allowed qualified_name finds is_unsafe function_name cte_names any_of member
    same_text is_blank select
accepts = refl

validate_read_only_sql-IsReadOnly_example :
    (statement : Statement) × (parser.parse "mysql" "SELECT channel_id FROM biz_sales"
      ≡ some (statement ∷ []))
    × IsReadOnly parser ("biz_sales" ∷ []) statement
validate_read_only_sql-IsReadOnly_example =
    validate_read_only_sql-IsReadOnly parser "SELECT channel_id FROM biz_sales" ("biz_sales" ∷ [])
      accepts

bounded-literal_limit_example :
    (n : ℕ) × (parser.literal_limit (bounded parser 3 products_query) ≡ some n) × (n ≤ 3)
bounded-literal_limit_example = bounded-literal_limit parser (λ n statement. refl) 3 products_query

january : IsMonth (month_start 2026 1)
january = (omega arith, omega arith, omega arith)

current_end-previous_start_example :
    (current_end (previous_start (month_start 2026 1)) ≡ month_start 2026 1)
    × (previous_start (current_end (month_start 2026 1)) ≡ month_start 2026 1)
    × (month_number (current_end (month_start 2026 1)) ≡ month_number (month_start 2026 1) + 1)
    × (month_number (previous_start (month_start 2026 1)) + 1 ≡ month_number (month_start 2026 1))
current_end-previous_start_example = current_end-previous_start (month_start 2026 1) january

-- The data agent is first down, then answers; the state counts the requests.
abbrev good_fields : Fields ℕ
good_fields = record {
  sql = "SELECT channel_id FROM biz_sales";
  scanned_rows = number 7;
  rows = some (some 4 ∷ some 5 ∷ []);
  columns = some (some "channel_id" ∷ []);
  error = none;
}

abbrev http : Http ℕ ℕ
http = record {
  post = λ s. (if ltb 0 s then reply 200 (object good_fields) else request_error, suc s);
  sleep = λ milliseconds s. s;
  write_csv = λ key rows columns s. (returned tt, s);
}

abbrev result : ToolResult (Option (List ℕ × List String))
result = record {
  ok = true;
  summary = "2 × 1";
  error_code = none;
  output = some (4 ∷ 5 ∷ [], "channel_id" ∷ []);
}

asked_twice :
    run_db_query parser
      ("biz_sales" ∷ [])
      10
      100
      http
      (λ n. "500")
      "http://agent"
      "raw.csv"
      (λ e. "")
      (λ m n. "2 × 1")
      true
      0
    ≡ (returned result, 2)
unfolding run_db_query check_fields store_rows client_query client_attempts after_reply read_payload
    backoff check_rows check_columns scan_fault strict strict_list validate_read_only_sql
    statements_fault statement_fault first_table_fault table_fault is_cte is_system is_allowed
    qualified_name finds is_unsafe function_name cte_names any_of member same_text is_blank select
asked_twice = refl

run_db_query-Passed_example :
    Passed parser
      ("biz_sales" ∷ [])
      10
      100
      http
      (λ n. "500")
      "http://agent"
      "raw.csv"
      (λ e. "")
      (λ m n. "2 × 1")
      0
      result
run_db_query-Passed_example =
    run_db_query-Passed parser ("biz_sales" ∷ []) 10 100 http (λ n. "500") "http://agent" "raw.csv"
      (λ e. "") (λ m n. "2 × 1") true 0 result (ap (λ r. r.0) asked_twice) refl

client_query-requests_example :
    (suc 0 ≤ (client_query http (λ n. "500") "http://agent" 0).1)
    × ((client_query http (λ n. "500") "http://agent" 0).1 ≤ 3)
client_query-requests_example =
    client_query-requests http (λ n. "500") "http://agent" (λ s. s) (λ s. omega arith)
      (λ milliseconds s. refl) 0
