-- ===== src/DataAgent/Execution.antt =====
-- The execution of a checked statement, `_estimate_scanned_rows` and `_execute` of
-- backend/app/data_agent/service.py. The model and the database stand outside: each call of them
-- answers or raises, with any state after it.
use baa_system.Base.{
  ℕ, suc, ◌+◌, Bool, true, false, Option, none, some, List, [], ◌∷◌, String, length, take, ltb,
  if◌then◌else◌, same_text, ◌<+>◌,
}
use baa_system.DataAgent.Action.{
  Act, Answer, returned, raised, Failure, agent_error, ◌>>=◌, pure, raise, lift,
}
use baa_system.DataAgent.Sql.{Libraries}
use baa_system.DataAgent.Candidate.{bounded_sql}

-- A column as the inspector shows it.
pub record ColumnInfo : Type 0 where
  pub name : String
  pub type_text : String
  pub comment : Option String

-- A result: its keys and all of its rows.
pub record ResultSet (R : Type 0) : Type 0 where
  pub keys : List String
  pub mappings : List R

pub record Outside (S F R : Type 0) : Type 0 where
  -- the generator's `generate`, for an objective, a schema and a dialect
  pub generate : String → String → String → Act S String
  -- `engine.connect()`
  pub connect : Act S (Unit {0})
  -- `SELECT 1`
  pub ping : Act S (Unit {0})
  -- `asyncio.timeout`: what is called from then on may raise `TimeoutError`
  pub start_timeout : F → Act S (Unit {0})
  -- the column `rows` of the answer to EXPLAIN
  pub explain : String → Act S (List (Option ℕ))
  pub run : String → Act S (ResultSet R)
  -- the inspector's `has_table` and `get_columns`, for a schema and a table
  pub has_table : Option String → String → Act S Bool
  pub get_columns : Option String → String → Act S (List ColumnInfo)

pub record Execution (R : Type 0) : Type 0 where
  pub rows : List R
  pub columns : List String
  pub scanned_rows : ℕ
  pub truncated : Bool

-- The loop over the rows of EXPLAIN, with `total` and `found`.
unfoldable pub total_rows : ℕ → Bool → List (Option ℕ) → Option ℕ
total_rows total found [] = if found then some total else none
total_rows total found (none ∷ rows) = total_rows total found rows
total_rows total found (some n ∷ rows) = total_rows (total + n) true rows

abbrev pub scan_limit_exceeded : String → Failure
scan_limit_exceeded message = agent_error "DATA_AGENT_SCAN_LIMIT_EXCEEDED" message 422

-- `estimated_rows is not None and estimated_rows > max_scanned_rows`.
unfoldable pub is_over : Option ℕ → ℕ → Bool
is_over none max_scanned_rows = false
is_over (some n) max_scanned_rows = ltb max_scanned_rows n

unfoldable pub or_count : Option ℕ → ℕ → ℕ
or_count none n = n
or_count (some estimated) n = estimated

-- What is left of the fetched rows, and the check of the scanned rows.
unfoldable pub finish_execution :
    {R : Type 0} → ℕ → ℕ → Option ℕ → ResultSet R → Answer (Execution R)
unfolding or_count
finish_execution max_rows max_scanned_rows estimated result =
    let mappings = take (suc max_rows) result.mappings in
    let scanned_rows = or_count estimated (length mappings) in
    if ltb max_scanned_rows scanned_rows
    then raised (scan_limit_exceeded "查询扫描行数超过限制")
    else returned (record {
      rows = take max_rows mappings;
      columns = result.keys;
      scanned_rows = scanned_rows;
      truncated = ltb max_rows (length mappings);
    })

module _ {S F R : Type 0} (outside : Outside S F R) where
  unfoldable pub estimate_scanned_rows : String → String → Act S (Option ℕ)
  unfolding total_rows
  estimate_scanned_rows sql dialect =
      if same_text dialect "mysql"
      then outside.explain ("EXPLAIN " <+> sql) >>= (λ rows. pure (total_rows 0 false rows))
      else pure none

  module _ {T : Type 0} (lib : Libraries T) (dialect : String) where
    -- From the estimate on: the refusal of a large scan, and the bounded statement.
    unfoldable pub run_estimated : String → ℕ → ℕ → Option ℕ → Act S (Execution R)
    unfolding is_over finish_execution
    run_estimated bounded max_rows max_scanned_rows estimated =
        if is_over estimated max_scanned_rows
        then raise (scan_limit_exceeded "候选 SQL 预计扫描行数超过限制")
        else outside.run bounded >>= λ result.
            lift (finish_execution max_rows max_scanned_rows estimated result)

    unfoldable pub execute : String → ℕ → ℕ → F → Act S (Execution R)
    unfolding run_estimated estimate_scanned_rows
    execute sql max_rows max_scanned_rows timeout_seconds = do
      bounded ← lift (bounded_sql lib sql (max_rows + 1) dialect)
      started ← outside.start_timeout timeout_seconds
      connection ← outside.connect
      estimated ← estimate_scanned_rows sql dialect
      run_estimated bounded max_rows max_scanned_rows estimated
