-- ===== src/DataAgent/Service.antt =====
-- `DataAgentService` of backend/app/data_agent/service.py: the generation of a statement and the
-- attempts to run it.
use baa_system.Base.{
  ℕ, not, Option, none, some, List, [], ◌∷◌, String, if◌then◌else◌, same_text, ◌==◌,
}
use baa_system.DataAgent.Action.{
  Act, Answer, returned, raised, Failure, data_agent_error, sqlalchemy_error, timeout_error,
  other_exception, agent_error, ◌>>=◌, ◌>>◌, pure, raise, lift, on_failure,
}
use baa_system.DataAgent.Sql.{Libraries, SqlFault}
use baa_system.DataAgent.Candidate.{validate_sql, validate_sql_intent, mismatch}
use baa_system.DataAgent.Period.{MonthStart}
use baa_system.DataAgent.Controlled.{sales_channel_comparison_sql, repair_objective}
use baa_system.DataAgent.Execution.{Outside, Execution, execute}

-- The limits of one query.
pub record Limits (F : Type 0) : Type 0 where
  pub max_rows : ℕ
  pub max_scanned_rows : ℕ
  pub timeout_seconds : F

abbrev pub model_failed : Failure
model_failed = agent_error "DATA_AGENT_MODEL_FAILED" "Data Agent 妯″瀷鐢熸垚鏌ヨ璁″垝澶辫触" 502

abbrev pub no_matching_sql : Failure
no_matching_sql = mismatch "Data Agent 未能生成与业务目标一致的 SQL"

-- The statement that was run, with what it gave.
abbrev pub Ran : Type 0 → Type 0
Ran R = String × Execution R

module _ {S F R T : Type 0} (outside : Outside S F R) (lib : Libraries T)
    (detail : SqlFault → String) (dialect : String) (allowed_tables : List String)
    (today : MonthStart) where
  abbrev pub fallback : String → Option String
  fallback objective = sales_channel_comparison_sql lib today objective dialect allowed_tables

  -- The controlled statement, if there is one.
  unfoldable pub controlled_or_failed : String → Act S String
  controlled_or_failed objective = elim (fallback objective) [
    | none ↦ raise model_failed
    | some fallback_sql ↦ pure fallback_sql
  ]

  -- What both calls of the generator do with its exceptions.
  unfoldable pub generator_failed : String → Failure → Act S String
  unfolding controlled_or_failed
  generator_failed objective (data_agent_error e) = raise (data_agent_error e)
  generator_failed objective sqlalchemy_error = controlled_or_failed objective
  generator_failed objective timeout_error = controlled_or_failed objective
  generator_failed objective other_exception = controlled_or_failed objective

  unfoldable pub generate_initial_sql : String → String → Act S String
  unfolding generator_failed
  generate_initial_sql objective schema =
      on_failure (outside.generate objective schema dialect) (generator_failed objective)

  -- A statement of the generator is checked; the controlled one in its place is not.
  unfoldable pub regenerated : String → Answer String × S → Answer String × S
  unfolding generator_failed
  regenerated objective (raised e, s) = generator_failed objective e s
  regenerated objective (returned sql, s) =
      (lift (validate_sql lib detail dialect allowed_tables sql) >> pure sql) s

  unfoldable pub regenerate_sql : String → String → Act S String
  unfolding regenerated
  regenerate_sql objective schema s =
      regenerated objective (outside.generate (repair_objective objective) schema dialect s)

  unfoldable pub run_sql : Limits F → String → Act S (Ran R)
  run_sql limits sql =
      execute outside lib dialect sql limits.max_rows limits.max_scanned_rows limits.timeout_seconds
      >>= λ execution. pure (sql, execution)

  -- The controlled statement in place of a candidate.
  unfoldable pub run_fallback : Limits F → String → Act S (Ran R)
  unfolding run_sql
  run_fallback limits fallback_sql =
      lift (validate_sql lib detail dialect allowed_tables fallback_sql)
      >> run_sql limits fallback_sql

  -- `except DataAgentError` of the check of the intent, in the second attempt.
  unfoldable pub after_mismatch : Limits F → String → Failure → Act S (Ran R)
  unfolding run_fallback
  after_mismatch limits objective e = elim (fallback objective) [
    | none ↦ raise e
    | some fallback_sql ↦ run_fallback limits fallback_sql
  ]

  -- `except SQLAlchemyError` of the execution, in the second attempt.
  unfoldable pub after_rejection : Limits F → String → String → Act S (Ran R)
  unfolding run_fallback
  after_rejection limits objective current_sql = elim (fallback objective) [
    | none ↦ raise sqlalchemy_error
    | some fallback_sql ↦
        if not (same_text fallback_sql current_sql)
        then run_fallback limits fallback_sql
        else raise sqlalchemy_error
  ]

  -- `except SQLAlchemyError`: other exceptions go on.
  unfoldable pub on_rejection : Act S (Ran R) → Failure → Act S (Ran R)
  on_rejection handler sqlalchemy_error = handler
  on_rejection handler (data_agent_error e) = raise (data_agent_error e)
  on_rejection handler timeout_error = raise timeout_error
  on_rejection handler other_exception = raise other_exception

  -- One attempt, from the answer of the check of the intent on, with its two handlers.
  unfoldable pub after_intent :
      Limits F
      → String
      → (Failure → Act S (Ran R))
      → Act S (Ran R)
      → Answer (Unit {0})
      → Act S (Ran R)
  unfolding run_sql on_rejection
  after_intent limits current_sql mismatched rejected (returned _) =
      on_failure (run_sql limits current_sql) (on_rejection rejected)
  after_intent limits current_sql mismatched rejected (raised (data_agent_error e)) =
      mismatched (data_agent_error e)
  after_intent limits current_sql mismatched rejected (raised sqlalchemy_error) =
      raise sqlalchemy_error
  after_intent limits current_sql mismatched rejected (raised timeout_error) = raise timeout_error
  after_intent limits current_sql mismatched rejected (raised other_exception) =
      raise other_exception

  -- The loop over `range(2)`.
  unfoldable pub attempts : Limits F → String → String → List ℕ → String → Act S (Ran R)
  unfolding after_mismatch after_rejection after_intent regenerate_sql
  attempts limits objective schema [] current_sql = raise no_matching_sql
  attempts limits objective schema (attempt ∷ rest) current_sql =
      let again : Act S (Ran R) =
        regenerate_sql objective schema >>= attempts limits objective schema rest in
      after_intent limits current_sql
        (λ e. if not (attempt == 0) then after_mismatch limits objective e else again)
        (if not (attempt == 0) then after_rejection limits objective current_sql else again)
        (validate_sql_intent lib detail dialect allowed_tables current_sql objective)

  unfoldable pub execute_with_retry : Limits F → String → String → String → Act S (Ran R)
  unfolding attempts
  execute_with_retry limits objective schema sql = attempts limits objective schema (0 ∷ 1 ∷ []) sql
