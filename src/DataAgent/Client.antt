-- ===== src/DataAgent/Client.antt =====
-- The client of the data agent, `HttpDataAgentClient.query`, and the tool `DbQueryTool.run` of
-- backend/app/agent/tools/db_query.py. HTTP and the files of the workspace stand outside. An answer
-- is read as far as the code looks into it; a row is of a type parameter.
use baa_system.Base.{
  ℕ, zero, suc, ◌*◌, Bool, true, false, not, ◌&&◌, ◌||◌, Option, none, some, List, [], ◌∷◌, String,
  ltb, leb, length, is_empty, if◌then◌else◌, ◌<+>◌,
}
use baa_system.Outcome.{Outcome, Run, returned, raised, ◌>>=◌, ◌>>◌, pure, raise, lift, on_failure}
use baa_system.DataAgent.Sql.{
  Libraries, SqlFault, value_error, sqlglot_error, validate_read_only_sql,
}
use baa_system.Agent.Runtime.{ToolResult}

-- A list of which some elements have the wrong type, or no list.
abbrev pub Loose : Type 0 → Type 0
Loose A = Option (List (Option A))

pub data ScannedRows : Type 0 where
  absent : ScannedRows
  number : ℕ → ScannedRows
  -- `int` raises `ValueError`, or an error that is none (`TypeError`, `OverflowError`)
  no_number no_value : ScannedRows

-- The object of an answer.
pub record Fields (R : Type 0) : Type 0 where
  -- `str(response.get("sql") or "")`
  pub sql : String
  pub scanned_rows : ScannedRows
  pub rows : Loose R
  pub columns : Loose String
  -- `error.code` and `error.message`, where there is such an object
  pub error : Option (String × String)

pub data Payload (R : Type 0) : Type 0 where
  no_json : Payload R
  no_object : Payload R
  object : Fields R → Payload R

pub data Reply (R : Type 0) : Type 0 where
  response : ℕ → Payload R → Reply R
  request_error : Reply R

-- What the client and the tool may raise. The tool catches all but `type_fault`, which
-- stands for `TypeError` and `OverflowError`.
pub data ClientFault : Type 0 where
  value_fault : String → ClientFault
  http_fault sql_fault type_fault : ClientFault

pub record Http (S R : Type 0) : Type 0 where
  pub post : S → Reply R × S
  -- `asyncio.sleep`, in milliseconds
  pub sleep : ℕ → S → S
  -- the storage key, the rows and the columns of `to_csv`
  pub write_csv : String → List R → List String → Run ClientFault S (Unit {0})

-- `_data_agent_error_message`; `status_text` is the number in an f-string.
unfoldable pub error_message : {R : Type 0} → (ℕ → String) → ℕ → Payload R → String
error_message status_text status no_json = "Data Agent HTTP " <+> status_text status
error_message status_text status no_object = "Data Agent HTTP " <+> status_text status
error_message status_text status (object fields) = elim fields.error [
  | none ↦ "Data Agent HTTP " <+> status_text status
  | some (code, message) ↦ code <+> ": " <+> message
]

-- `response.json()`, and the test for an object.
unfoldable pub read_payload : {R : Type 0} → Payload R → Outcome ClientFault (Fields R)
read_payload no_json = raised (value_fault "invalid JSON")
read_payload no_object = raised (value_fault "invalid Data Agent response")
read_payload (object fields) = returned fields

-- 0.25 * 2 ** attempt seconds.
unfoldable pub backoff : ℕ → ℕ
backoff zero = 250
backoff (suc attempt) = 2 * backoff attempt

-- The statuses for which `raise_for_status` does not raise.
abbrev pub is_success : ℕ → Bool
is_success status = leb 200 status && ltb status 300

module _ {S R : Type 0} (http : Http S R) (status_text : ℕ → String) (base_url : String) where
  -- One round of the loop after its request; `again` is the rest of the loop.
  unfoldable pub after_reply :
      ℕ → Run ClientFault S (Fields R) → Reply R → Run ClientFault S (Fields R)
  unfolding error_message read_payload backoff
  after_reply attempt again request_error s =
      if leb 2 attempt
      then (
        raised (value_fault ("DATA_AGENT_UNAVAILABLE: 无法连接本地 Data Agent（" <+> base_url <+> "）")),
        s,
      )
      else again (http.sleep (backoff attempt) s)
  after_reply attempt again (response status payload) s =
      if is_success status
      then lift (read_payload payload) s
      else if ltb status 500 || leb 2 attempt
      then (raised (value_fault (error_message status_text status payload)), s)
      else again (http.sleep (backoff attempt) s)

  unfoldable pub client_attempts : List ℕ → Run ClientFault S (Fields R)
  unfolding after_reply
  client_attempts [] s = (raised http_fault, s)
  client_attempts (attempt ∷ rest) s =
      let (reply, s') = http.post s in after_reply attempt (client_attempts rest) reply s'

  -- The loop over `range(3)`.
  unfoldable pub client_query : Run ClientFault S (Fields R)
  unfolding client_attempts
  client_query = client_attempts (0 ∷ 1 ∷ 2 ∷ [])

-- The elements, where all have the right type.
unfoldable pub strict_list : {A : Type 0} → List (Option A) → Option (List A)
strict_list [] = some []
strict_list (none ∷ xs) = none
strict_list (some x ∷ xs) = elim (strict_list xs) [ none ↦ none | some ys ↦ some (x ∷ ys) ]

unfoldable pub strict : {A : Type 0} → Loose A → Option (List A)
unfolding strict_list
strict none = none
strict (some xs) = strict_list xs

abbrev pub sql_error : SqlFault → ClientFault
sql_error (value_error message) = value_fault message
sql_error sqlglot_error = sql_fault

unfoldable pub scan_fault : ℕ → ScannedRows → Option ClientFault
scan_fault max_scanned_rows absent = none
scan_fault max_scanned_rows (number n) =
    if ltb max_scanned_rows n then some (value_fault "Data Agent scan limit exceeded") else none
scan_fault max_scanned_rows no_number = some (value_fault "invalid literal for int()")
scan_fault max_scanned_rows no_value = some type_fault

unfoldable pub check_columns :
    {R : Type 0} → List R → Loose String → Outcome ClientFault (List R × List String)
unfolding strict
check_columns rows columns = elim (strict columns) [
  | none ↦ raised (value_fault "Data Agent columns must be a list of strings")
  | some names ↦
      if is_empty rows then raised (value_fault "Data Agent 查询未返回任何数据") else returned (rows, names)
]

unfoldable pub check_rows :
    {R : Type 0} → ℕ → Loose R → Loose String → Outcome ClientFault (List R × List String)
unfolding check_columns strict
check_rows max_rows loose columns = elim (strict loose) [
  | none ↦ raised (value_fault "Data Agent rows must be a list of objects")
  | some rows ↦
      if ltb max_rows (length rows)
      then raised (value_fault "Data Agent row limit exceeded")
      else check_columns rows columns
]

module _ {T R : Type 0} (lib : Libraries T) (allowed_tables : List String)
    (agent_max_rows data_agent_max_scanned_rows : ℕ) where
  -- The checks of the tool, in their order: the rows and columns of a good answer.
  unfoldable pub check_fields : Fields R → Outcome ClientFault (List R × List String)
  unfolding check_rows scan_fault
  check_fields fields = elim (validate_read_only_sql lib fields.sql allowed_tables) [
    | some fault ↦ raised (sql_error fault)
    | none ↦ elim (scan_fault data_agent_max_scanned_rows fields.scanned_rows) [
      | some fault ↦ raised fault
      | none ↦ check_rows agent_max_rows fields.rows fields.columns
    ]
  ]

  abbrev pub refused_result : String → ToolResult (Option (List R × List String))
  refused_result summary = record {
    ok = false;
    summary = summary;
    error_code = some "DATA_QUERY_FAILED";
    output = none;
  }

  -- `fault_text` is `str(exc)[:200]`, `counts` the text with the two numbers.
  module _ {S : Type 0} (http : Http S R) (status_text : ℕ → String) (base_url storage_key : String)
      (fault_text : ClientFault → String) (counts : ℕ → ℕ → String) where
    unfoldable pub store_rows :
        List R × List String → Run ClientFault S (ToolResult (Option (List R × List String)))
    store_rows (rows, columns) =
        http.write_csv storage_key rows columns
        >> pure (record {
          ok = true;
          summary = counts (length rows) (length columns);
          error_code = none;
          output = some (rows, columns);
        })

    abbrev pub caught : ClientFault → Run ClientFault S (ToolResult (Option (List R × List String)))
    caught (value_fault message) =
        pure (refused_result ("受控数据查询失败：" <+> fault_text (value_fault message)))
    caught http_fault = pure (refused_result ("受控数据查询失败：" <+> fault_text http_fault))
    caught sql_fault = pure (refused_result ("受控数据查询失败：" <+> fault_text sql_fault))
    caught type_fault = raise type_fault

    -- `DbQueryTool.run`, with and without a client.
    unfoldable pub run_db_query :
        Bool → Run ClientFault S (ToolResult (Option (List R × List String)))
    unfolding check_fields store_rows client_query
    run_db_query has_client =
        if not has_client
        then pure (record {
          ok = false;
          summary = "尚未配置受控 Data Agent，无法查询业务数据库";
          error_code = some "DATA_AGENT_NOT_CONFIGURED";
          output = none;
        })
        else on_failure
            (client_query http status_text base_url >>= λ fields.
              (lift (check_fields fields) >>= store_rows))
            caught
