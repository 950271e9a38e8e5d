-- ===== src/DataAgent/Answers.antt =====
-- What a query of the data agent does, and what it answers.
use mathlib.Core.Path.{subst}
use baa_system.Base.{ℕ, ◌+◌, String, ◌≡◌, refl, inl, by_option}
use baa_system.DataAgent.Schemas.{QueryRequest, QueryResponse, AgentSettings}
use baa_system.DataAgent.Action.{Act, returned, Failure, agent_error, pure}
use baa_system.DataAgent.Sql.{Libraries, SqlFault}
use baa_system.DataAgent.Candidate.{validate_sql}
use baa_system.DataAgent.Period.{MonthStart}
use baa_system.DataAgent.Controlled.{sales_channel_comparison_sql}
use baa_system.DataAgent.Execution.{Outside}
use baa_system.DataAgent.Service.{Ran, generate_initial_sql, execute_with_retry}
use baa_system.DataAgent.Query.{
  limits_of, first_sql, answer_request, generation_failed, execution_failed, response_of, text_or,
}
use baa_system.DataAgent.Trace
use baa_system.DataAgent.Conduct.{Failing}
use baa_system.DataAgent.Conduct.Checks.{validate_sql-Ends}
use baa_system.DataAgent.Conduct.Attempts
use baa_system.DataAgent.Conduct.Retry

module _ {S F R T : Type 0} (outside : Outside S F R) (lib : Libraries T)
    (detail : SqlFault → String) (dialect : String) (earlier : F → F → F)
    (settings : AgentSettings F) (today : MonthStart) (request : QueryRequest F)
    (Fails Outer : Failure → Type 0)
    (failing : Failing outside lib detail dialect settings.data_agent_allowed_table_list today
      (limits_of outside lib detail dialect earlier settings today request).max_rows
      (limits_of outside lib detail dialect earlier settings today request).max_scanned_rows
      Fails)
    (reports : (code message : String) (status : ℕ) → Outer (agent_error code message status))
    (generation : (e : Failure) → Fails e → Outer (generation_failed e))
    (execution : (e : Failure) → Fails e → Outer (execution_failed e)) where
  abbrev Ended : {A : Type 0} → ℕ → ℕ → (A → Type 0) → (Failure → Type 0) → Act S A → Type 0
  Ended g n P E m =
      Trace.Does outside lib detail dialect settings.data_agent_allowed_table_list today
        ((limits_of outside lib detail dialect earlier settings today request).max_rows + 1) g n P E
        m

  abbrev Good : QueryResponse R → Type 0
  Good response =
      (ran : Ran R) × (response ≡ response_of ran)
      × Attempts.IsGood outside lib detail dialect settings.data_agent_allowed_table_list today
          (limits_of outside lib detail dialect earlier settings today request) Fails failing
          request.objective ran

  first_sql-Ends :
      (schema : String)
      → Ended 1 0
          (λ _. Unit {0})
          Fails
          (first_sql outside lib detail dialect earlier settings today request schema)
  unfolding first_sql
  first_sql-Ends schema =
      by_option (Ended 1 0 (λ _. Unit {0}) Fails)
        (sales_channel_comparison_sql lib today (text_or request.user_question request.objective)
          dialect settings.data_agent_allowed_table_list)
        (generate_initial_sql outside lib detail dialect settings.data_agent_allowed_table_list
          today request.objective schema)
        (λ controlled_sql. pure controlled_sql)
        (λ _.
          Retry.generate_initial_sql-Does outside lib detail dialect
            settings.data_agent_allowed_table_list today
            (limits_of outside lib detail dialect earlier settings today request) Fails failing
            request.objective schema)
        (λ sql _.
          Attempts.Does-pure outside lib detail dialect settings.data_agent_allowed_table_list today
            (limits_of outside lib detail dialect earlier settings today request) Fails failing
            (λ _. Unit {0}) sql tt)

  -- After the schema has been read.
  pub answer_request-Ends :
      (schema : String)
      → Ended 2 3 Good Outer
          (answer_request outside lib detail dialect earlier settings today request schema)
  unfolding answer_request
  answer_request-Ends schema =
      Trace.Does-then outside lib detail dialect settings.data_agent_allowed_table_list today
        ((limits_of outside lib detail dialect earlier settings today request).max_rows + 1) {g = 1}
        {n = 0} {g' = 1} {n' = 3} (λ _. Unit {0}) Good Outer _ _
        (Trace.Does-try outside lib detail dialect settings.data_agent_allowed_table_list today
          ((limits_of outside lib detail dialect earlier settings today request).max_rows + 1)
          {g = 1} {n = 0} {g' = 0} {n' = 0} (λ _. Unit {0}) Fails Outer
          (first_sql outside lib detail dialect earlier settings today request schema) _
          (first_sql-Ends schema)
          (λ e h.
            Trace.Does-raise outside lib detail dialect settings.data_agent_allowed_table_list today
              ((limits_of outside lib detail dialect earlier settings today request).max_rows + 1)
              {A = String} (λ _. Unit {0}) Outer (generation_failed e) (generation e h)))
        λ sql _.
          Trace.Does-then outside lib detail dialect settings.data_agent_allowed_table_list today
            ((limits_of outside lib detail dialect earlier settings today request).max_rows + 1)
            {g = 0} {n = 0} {g' = 1} {n' = 3}
            (λ _.
              validate_sql lib detail dialect settings.data_agent_allowed_table_list sql
              ≡ returned tt)
            Good Outer _ _
            (Trace.Does-lift outside lib detail dialect settings.data_agent_allowed_table_list today
              ((limits_of outside lib detail dialect earlier settings today request).max_rows + 1) _
              Outer (validate_sql lib detail dialect settings.data_agent_allowed_table_list sql)
              (λ _ e. e)
              (λ e h. subst (Trace.Ends (λ _. Unit {0}) Outer) h (
                validate_sql-Ends lib detail dialect settings.data_agent_allowed_table_list Outer
                  reports sql)))
            λ _ checked.
              Trace.Does-then outside lib detail dialect settings.data_agent_allowed_table_list
                today
                ((limits_of outside lib detail dialect earlier settings today request).max_rows + 1)
                {g = 1} {n = 3} {g' = 0} {n' = 0}
                (Attempts.IsGood outside lib detail dialect settings.data_agent_allowed_table_list
                  today (limits_of outside lib detail dialect earlier settings today request) Fails
                  failing request.objective)
                Good Outer _ _
                (Trace.Does-try outside lib detail dialect settings.data_agent_allowed_table_list
                  today
                  ((limits_of outside lib detail dialect earlier settings today request).max_rows
                    + 1)
                  {g = 1} {n = 3} {g' = 0} {n' = 0}
                  (Attempts.IsGood outside lib detail dialect settings.data_agent_allowed_table_list
                    today (limits_of outside lib detail dialect earlier settings today request)
                    Fails failing request.objective)
                  Fails Outer
                  (execute_with_retry outside lib detail dialect
                    settings.data_agent_allowed_table_list today
                    (limits_of outside lib detail dialect earlier settings today request)
                    request.objective schema sql)
                  _
                  (Retry.execute_with_retry-Does outside lib detail dialect
                    settings.data_agent_allowed_table_list today
                    (limits_of outside lib detail dialect earlier settings today request) Fails
                    failing request.objective schema sql (inl checked))
                  (λ e h.
                    Trace.Does-raise outside lib detail dialect
                      settings.data_agent_allowed_table_list today
                      ((limits_of outside lib detail dialect earlier settings today
                          request).max_rows
                        + 1)
                      (Attempts.IsGood outside lib detail dialect
                        settings.data_agent_allowed_table_list today
                        (limits_of outside lib detail dialect earlier settings today request) Fails
                        failing request.objective)
                      Outer (execution_failed e) (execution e h)))
                λ ran good.
                  Trace.Does-pure outside lib detail dialect settings.data_agent_allowed_table_list
                    today
                    ((limits_of outside lib detail dialect earlier settings today request).max_rows
                      + 1)
                    Good Outer (response_of ran) (ran, refl, good)
