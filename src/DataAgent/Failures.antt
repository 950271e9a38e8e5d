-- ===== src/DataAgent/Failures.antt =====
-- The failures of a query that the client of the data agent sees.
use baa_system.Base.{String, none, ◌≡◌, ◌≢◌, refl, List, arith, inl, inr}
use mathlib.Core.Path.{subst}
use baa_system.DataAgent.Schemas.{DataAgentError, QueryRequest, AgentSettings}
use baa_system.DataAgent.Action.{
  returned, raised, Failure, data_agent_error, sqlalchemy_error, timeout_error, other_exception,
}
use baa_system.DataAgent.Sql.{Libraries, SqlFault}
use baa_system.DataAgent.Candidate.{validate_sql}
use baa_system.DataAgent.Period.{MonthStart}
use baa_system.DataAgent.Execution.{Outside}
use baa_system.DataAgent.Query.{answer_request, generation_failed, execution_failed}
use baa_system.DataAgent.Trace
use baa_system.DataAgent.Conduct.{DatabaseFails}
use baa_system.DataAgent.Answers.{answer_request-Ends}

abbrev pub IsReported : Failure → Type 0
IsReported e = (error : DataAgentError) × (e ≡ data_agent_error error)

abbrev IsKnown : Failure → Type 0
IsKnown e = e ≢ other_exception

-- Everything but an unknown exception becomes an error of the data agent.
execution_failed-IsReported : (e : Failure) → IsKnown e → IsReported (execution_failed e)
execution_failed-IsReported (data_agent_error error) known = (error, refl)
execution_failed-IsReported sqlalchemy_error known = (_, refl)
execution_failed-IsReported timeout_error known = (_, refl)
execution_failed-IsReported other_exception known = absurd (known refl)

generation_failed-IsReported : (e : Failure) → IsReported (generation_failed e)
generation_failed-IsReported (data_agent_error error) = (error, refl)
generation_failed-IsReported sqlalchemy_error = (_, refl)
generation_failed-IsReported timeout_error = (_, refl)
generation_failed-IsReported other_exception = (_, refl)

-- The parser reads every statement that passes `_validate_sql`, which has parsed it.
validate_sql_parses :
    {T : Type 0} (lib : Libraries T) (detail : SqlFault → String) (dialect : String)
    (allowed_tables : List String) (sql : String)
    → validate_sql lib detail dialect allowed_tables sql ≡ returned tt
    → lib.parse_one dialect sql ≢ none
unfolding validate_sql
validate_sql_parses lib detail dialect allowed_tables sql h refused = ground arith

-- Once the schema has been read, a request to a database that raises nothing but database errors
-- and timeouts only fails with an error of the data agent, which has a code and a status, if the
-- parser reads the controlled statements: whatever the model does.
pub answer_request-IsReported :
    {S F R T : Type 0} (outside : Outside S F R) (lib : Libraries T) (detail : SqlFault → String)
    (dialect : String) (earlier : F → F → F) (settings : AgentSettings F) (today : MonthStart)
    (request : QueryRequest F)
    → DatabaseFails outside (λ e. e ≢ other_exception)
    → ((sql : String)
        → Trace.IsControlled outside lib detail dialect settings.data_agent_allowed_table_list today
            sql
        → lib.parse_one dialect sql ≢ none)
    → (schema : String) (s : S) (e : Failure)
    → (answer_request outside lib detail dialect earlier settings today request schema s).0
      ≡ raised e
    → IsReported e
answer_request-IsReported outside lib detail dialect earlier settings today request database parses
      schema s e h =
    subst (Trace.Ends _ IsReported) h
      (answer_request-Ends outside lib detail dialect earlier settings today request IsKnown
        IsReported
        (record {
          reports = λ code message status p. cc;
          generator = λ objective schema s d p q. cc;
          database = database;
          refuses = λ sql accepted refused. elim accepted [
            | inl checked ↦ absurd (
                validate_sql_parses lib detail dialect settings.data_agent_allowed_table_list sql
                  checked refused)
            | inr controlled ↦ absurd (parses sql controlled refused)
          ];
        })
        (λ code message status. (_, refl)) (λ e _. generation_failed-IsReported e)
        execution_failed-IsReported schema s).1
