-- ===== src/DataAgent/Conduct/Checks.antt =====
-- How the checks of a candidate end: with errors of the data agent, or the parser's.
use baa_system.Base.{
  ℕ, String, Bool, true, false, not, none, List, ◌≡◌, by_test, by_option, any_of, has_prefix,
}
use baa_system.DataAgent.Action.{Answer, returned, raised, Failure, other_exception, agent_error}
use baa_system.DataAgent.Sql.{Libraries, SqlFault, validate_read_only_sql}
use baa_system.DataAgent.Candidate.{
  validate_sql, validate_sql_intent, check_physical, check_intent, guard,
}
use baa_system.DataAgent.Trace

module _ {T : Type 0} (lib : Libraries T) (detail : SqlFault → String) (dialect : String)
    (allowed_tables : List String) (E : Failure → Type 0)
    (reports : (code message : String) (status : ℕ) → E (agent_error code message status)) where
  Done : Answer (Unit {0}) → Type 0
  Done r = Trace.Ends (λ _. Unit {0}) E r

  returned-Done : Done (returned tt)
  unfolding Done
  returned-Done = tt

  raised-Done :
      (code message : String) (status : ℕ) → Done (raised (agent_error code message status))
  unfolding Done
  raised-Done code message status = reports code message status

  guard-Done :
      (test : Bool) (code message : String) (status : ℕ) (rest : Answer (Unit {0}))
      → Done rest
      → Done (guard test (agent_error code message status) rest)
  unfolding Done guard
  guard-Done true code message status rest h = reports code message status
  guard-Done false code message status rest h = h

  check_intent-Done :
      (objective sql : String) (tables : List String)
      → Done (check_intent lib detail dialect allowed_tables objective sql tables)
  unfolding check_intent
  check_intent-Done objective sql tables = guard-Done _ _ _ _ _ (
      guard-Done _ _ _ _ _ (
        guard-Done _ _ _ _ _
          (guard-Done _ _ _ _ _ (guard-Done _ _ _ _ (returned tt) returned-Done))))

  validate_sql-Done : (sql : String) → Done (validate_sql lib detail dialect allowed_tables sql)
  unfolding validate_sql check_physical
  validate_sql-Done sql =
      by_option Done (validate_read_only_sql lib sql allowed_tables) _ _
        (λ _.
          by_option Done (lib.parse_one dialect sql) _ _ (λ _. raised-Done _ _ _)
            (λ statement _. guard-Done _ _ _ _ (returned tt) returned-Done))
        (λ fault _. raised-Done _ _ _)

  -- `_validate_sql` only raises errors of the data agent.
  pub validate_sql-Ends :
      (sql : String)
      → Trace.Ends (λ _. Unit {0}) E (validate_sql lib detail dialect allowed_tables sql)
  unfolding Done
  validate_sql-Ends sql = validate_sql-Done sql

  -- So does the check of the intent, if the parser reads the statement.
  pub validate_sql_intent-Ends :
      (sql objective : String)
      → (lib.parse_one dialect sql ≡ none → E other_exception)
      → Trace.Ends
          (λ _. Unit {0})
          E
          (validate_sql_intent lib detail dialect allowed_tables sql objective)
  unfolding validate_sql_intent Done
  validate_sql_intent-Ends sql objective refuses =
      by_test Done (not (any_of (has_prefix "biz_") allowed_tables)) (returned tt) _
        (λ _. returned-Done)
        (λ _.
          by_option Done (lib.parse_one dialect sql) _ _ refuses
            (λ statement _. check_intent-Done (lib.lower objective) (lib.lower sql) _))
