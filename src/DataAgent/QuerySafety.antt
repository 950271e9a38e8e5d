-- ===== src/DataAgent/QuerySafety.antt =====
-- Queries of the data agent: which statements reach the database, what is answered, and which
-- failures the client sees.
use mathlib.Core.Path.{subst}
use baa_system.Base.{
  ℕ, ◌+◌, ◌≤◌, String, Bool, not, List, [], ◌∷◌, ◌++◌, ◌≡◌, sym, ◌⊎◌, arith, by_test, is_empty,
  length,
}
use baa_system.DataAgent.Schemas.{QueryRequest, QueryResponse, AgentSettings}
use baa_system.DataAgent.Action.{Act, Answer, returned, Failure, raise, lift}
use baa_system.DataAgent.Sql.{Libraries, SqlFault}
use baa_system.DataAgent.Candidate.{validate_sql_intent}
use baa_system.DataAgent.Period.{MonthStart}
use baa_system.DataAgent.Execution.{Outside}
use baa_system.DataAgent.Service.{Ran}
use baa_system.DataAgent.Names.{split_qualified_name}
use baa_system.DataAgent.Query.{
  limits_of, answer_request, query, describe_schema, inspect_tables, schema_failed, no_database,
  no_tables, response_of, table_text, schema_text,
}
use baa_system.DataAgent.Trace
use baa_system.DataAgent.Trace.{inspects, describes, connects, done}
use baa_system.DataAgent.Conduct.{Failing}
use baa_system.DataAgent.Conduct.Attempts
use baa_system.DataAgent.Answers.{answer_request-Ends}

module _ {S F R T : Type 0} (outside : Outside S F R) (lib : Libraries T)
    (detail : SqlFault → String) (dialect : String) (earlier : F → F → F)
    (settings : AgentSettings F) (today : MonthStart) (request : QueryRequest F) where
  -- A response whose statement has passed the checks and serves the objective, or is the controlled
  -- one, and that keeps all limits.
  pub record IsAnswer (response : QueryResponse R) : Type 0 where
    pub accepted :
        Trace.IsAccepted outside lib detail dialect settings.data_agent_allowed_table_list today
          response.sql
    pub intended :
        (validate_sql_intent lib detail dialect settings.data_agent_allowed_table_list response.sql
            request.objective
          ≡ returned tt)
        ⊎ Trace.IsControlled outside lib detail dialect settings.data_agent_allowed_table_list today
            response.sql
    pub rows_asked : length response.rows ≤ request.limits.max_returned_rows
    pub rows_allowed : length response.rows ≤ settings.agent_max_rows
    pub scans_asked : response.scanned_rows ≤ request.limits.max_scanned_rows
    pub scans_allowed : response.scanned_rows ≤ settings.data_agent_max_scanned_rows

  abbrev Anything : Failure → Type 0
  Anything e = Unit

  any_failure :
      Failing outside lib detail dialect settings.data_agent_allowed_table_list today
        (limits_of outside lib detail dialect earlier settings today request).max_rows
        (limits_of outside lib detail dialect earlier settings today request).max_scanned_rows
        Anything
  any_failure = record {
    reports = λ code message status. tt;
    generator = λ objective schema s e h. tt;
    database = record {
      connect = λ s e h. tt;
      start_timeout = λ seconds s e h. tt;
      explain = λ sql s e h. tt;
      run = λ sql s e h. tt;
    };
    refuses = λ sql accepted h. tt;
  }

  abbrev Ended : {A : Type 0} → ℕ → ℕ → (A → Type 0) → Act S A → Type 0
  Ended g n P m =
      Trace.Does outside lib detail dialect settings.data_agent_allowed_table_list today
        ((limits_of outside lib detail dialect earlier settings today request).max_rows + 1) g n P
        Anything m

  call-Ended :
      {A : Type 0} (m : Act S A)
      → ((s : S)
          → Trace.Within outside lib detail dialect settings.data_agent_allowed_table_list today
              ((limits_of outside lib detail dialect earlier settings today request).max_rows + 1)
              0
              0
              s
              (m s).1)
      → Ended 0 0 (λ _. Unit {0}) m
  call-Ended m w s = (w s, Trace.Ends-of (λ _. Unit {0}) Anything (m s).0 (λ _ _. tt) (λ _ _. tt))

  lift-Ended : {A : Type 0} (r : Answer A) → Ended 0 0 (λ _. Unit {0}) (lift r)
  lift-Ended r =
      Trace.Does-lift outside lib detail dialect settings.data_agent_allowed_table_list today
        ((limits_of outside lib detail dialect earlier settings today request).max_rows + 1)
        (λ _. Unit {0}) Anything r (λ _ _. tt) (λ _ _. tt)

  inspect_tables-Ended :
      (descriptions missing names : List String)
      → Ended 0 0 (λ _. Unit {0}) (inspect_tables outside descriptions missing names)
  unfolding inspect_tables
  inspect_tables-Ended descriptions missing [] = lift-Ended (schema_text descriptions missing)
  inspect_tables-Ended descriptions missing (name ∷ names) =
      Trace.Does-then outside lib detail dialect settings.data_agent_allowed_table_list today
        ((limits_of outside lib detail dialect earlier settings today request).max_rows + 1) {g = 0}
        {n = 0} {g' = 0} {n' = 0} (λ _. Unit {0}) (λ _. Unit {0}) Anything _ _
        (lift-Ended (split_qualified_name name))
        λ parts _.
          Trace.Does-then outside lib detail dialect settings.data_agent_allowed_table_list today
            ((limits_of outside lib detail dialect earlier settings today request).max_rows + 1)
            {g = 0} {n = 0} {g' = 0} {n' = 0} (λ _. Unit {0}) (λ _. Unit {0}) Anything _ _
            (call-Ended (outside.has_table parts.0 parts.1) (λ s.
              Trace.Within-one outside lib detail dialect settings.data_agent_allowed_table_list
                today (inspects 0 0 s _ parts.0 parts.1 (done _))))
            λ present _.
              by_test (Ended 0 0 (λ _. Unit {0})) (not present) _ _
                (λ _. inspect_tables-Ended descriptions (missing ++ (name ∷ [])) names)
                (λ _.
                  Trace.Does-then outside lib detail dialect settings.data_agent_allowed_table_list
                    today
                    ((limits_of outside lib detail dialect earlier settings today request).max_rows
                      + 1)
                    {g = 0} {n = 0} {g' = 0} {n' = 0} (λ _. Unit {0}) (λ _. Unit {0}) Anything _ _
                    (call-Ended (outside.get_columns parts.0 parts.1) (λ s.
                      Trace.Within-one outside lib detail dialect
                        settings.data_agent_allowed_table_list today
                        (describes 0 0 s _ parts.0 parts.1 (done _))))
                    λ columns _.
                      inspect_tables-Ended (descriptions ++ (table_text name columns ∷ [])) missing
                        names)

  describe_schema-Ended :
      (names : List String) → Ended 0 0 (λ _. Unit {0}) (describe_schema outside names)
  unfolding describe_schema
  describe_schema-Ended names =
      Trace.Does-then outside lib detail dialect settings.data_agent_allowed_table_list today
        ((limits_of outside lib detail dialect earlier settings today request).max_rows + 1) {g = 0}
        {n = 0} {g' = 0} {n' = 0} (λ _. Unit {0}) (λ _. Unit {0}) Anything _ _
        (call-Ended outside.connect (λ s.
          Trace.Within-one outside lib detail dialect settings.data_agent_allowed_table_list today
            (connects 0 0 s _ (done _))))
        λ _ _. inspect_tables-Ended [] [] names

  response_of-IsAnswer :
      (response : QueryResponse R) (ran : Ran R)
      → response ≡ response_of ran
      → Attempts.IsGood outside lib detail dialect settings.data_agent_allowed_table_list today
          (limits_of outside lib detail dialect earlier settings today request)
          Anything
          any_failure
          request.objective
          ran
      → IsAnswer response
  unfolding limits_of
  response_of-IsAnswer response ran e good = subst IsAnswer (sym e) (record {
    accepted = good.accepted;
    intended = good.intended;
    rows_asked = omega (arith, good.bounded.few_rows);
    rows_allowed = omega (arith, good.bounded.few_rows);
    scans_asked = omega (arith, good.bounded.few_scanned);
    scans_allowed = omega (arith, good.bounded.few_scanned);
  })

  answer_request-Ended :
      (schema : String)
      → Ended 2 3 IsAnswer
          (answer_request outside lib detail dialect earlier settings today request schema)
  answer_request-Ended schema s =
      let d =
        answer_request-Ends outside lib detail dialect earlier settings today request Anything
          Anything any_failure (λ _ _ _. tt) (λ _ _. tt) (λ _ _. tt) schema s in
      (
        d.0,
        Trace.Ends-map _ IsAnswer Anything _
            (λ response (ran, e, good). response_of-IsAnswer response ran e good) d.1,
      )

  query-Ended :
      (has_engine own_generator : Bool)
      → Ended 2 3 IsAnswer
          (query outside lib detail dialect earlier settings today has_engine own_generator request)
  unfolding query
  query-Ended has_engine own_generator =
      by_test (Ended 2 3 IsAnswer) (not has_engine) _ _ (λ _. failed no_database)
        λ _.
          by_test (Ended 2 3 IsAnswer) (is_empty settings.data_agent_allowed_table_list) _ _
            (λ _. failed no_tables)
            λ _.
              Trace.Does-then outside lib detail dialect settings.data_agent_allowed_table_list
                today
                ((limits_of outside lib detail dialect earlier settings today request).max_rows + 1)
                {g = 0} {n = 0} {g' = 2} {n' = 3} (λ _. Unit {0}) IsAnswer Anything _ _
                (Trace.Does-try outside lib detail dialect settings.data_agent_allowed_table_list
                  today
                  ((limits_of outside lib detail dialect earlier settings today request).max_rows
                    + 1)
                  {g = 0} {n = 0} {g' = 0} {n' = 0} (λ _. Unit {0}) Anything Anything _ _
                  (describe_schema-Ended settings.data_agent_allowed_table_list)
                  (λ e _.
                    Trace.Does-raise outside lib detail dialect
                      settings.data_agent_allowed_table_list today
                      ((limits_of outside lib detail dialect earlier settings today
                          request).max_rows
                        + 1)
                      {A = String} (λ _. Unit {0}) Anything (schema_failed e) tt))
                λ schema _.
                  Trace.Does-then outside lib detail dialect settings.data_agent_allowed_table_list
                    today
                    ((limits_of outside lib detail dialect earlier settings today request).max_rows
                      + 1)
                    {g = 0} {n = 0} {g' = 2} {n' = 3} (λ _. Unit {0}) IsAnswer Anything _ _
                    (lift-Ended _) λ _ _. answer_request-Ended schema
    where
      failed : (e : Failure) → Ended 2 3 IsAnswer (raise e)
      failed e =
          Trace.Does-raise outside lib detail dialect settings.data_agent_allowed_table_list today
            ((limits_of outside lib detail dialect earlier settings today request).max_rows + 1)
            IsAnswer Anything e tt

  -- Whatever the model and the database answer, a query asks the model at most twice and runs at
  -- most three statements. Each has passed the checks or is the controlled one, and is run with the
  -- row limit put in; and so is each that is explained. A response carries such a statement, which
  -- serves the objective or is the controlled one, and keeps the limits of the request and of the
  -- settings on rows and on scanned rows.
  pub query-IsAnswer :
      (has_engine own_generator : Bool) (s : S)
      → Trace.Within outside lib detail dialect settings.data_agent_allowed_table_list today
          ((limits_of outside lib detail dialect earlier settings today request).max_rows + 1)
          2
          3
          s
          (query outside lib detail dialect earlier settings today has_engine own_generator request
            s).1
        × ((response : QueryResponse R)
            → (query outside lib detail dialect earlier settings today has_engine own_generator
                request s).0
              ≡ returned response
            → IsAnswer response)
  query-IsAnswer has_engine own_generator s =
      let d = query-Ended has_engine own_generator s in
      (d.0, λ response e. subst (Trace.Ends IsAnswer Anything) e d.1)
