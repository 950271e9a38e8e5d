-- ===== src/DataAgent/Conduct/Attempts.antt =====
-- What the statements of one attempt do, and the controlled statement in their place.
use mathlib.Core.Path.{subst}
use baa_system.Base.{
  ℕ, ◌+◌, String, not, some, List, ◌≡◌, refl, ◌⊎◌, inl, inr, by_test, by_option, if◌then◌else◌,
  same_text,
}
use baa_system.DataAgent.Action.{
  Act, Answer, returned, raised, Failure, data_agent_error, sqlalchemy_error, timeout_error,
  other_exception, ◌>>=◌, ◌>>◌, pure, raise, lift,
}
use baa_system.DataAgent.Schemas.{DataAgentError}
use baa_system.DataAgent.Sql.{Libraries, SqlFault}
use baa_system.DataAgent.Candidate.{validate_sql, validate_sql_intent}
use baa_system.DataAgent.Period.{MonthStart}
use baa_system.DataAgent.Execution.{Outside}
use baa_system.DataAgent.Service.{
  Limits, Ran, model_failed, fallback, controlled_or_failed, generator_failed, run_sql,
  run_fallback, after_mismatch, after_rejection,
}
use baa_system.DataAgent.Trace
use baa_system.DataAgent.Trace.{asks, done}
use baa_system.DataAgent.Conduct.Checks.{validate_sql-Ends, validate_sql_intent-Ends}
use baa_system.DataAgent.Conduct.{
  IsWithin, Conducts, Failing, Conducts-then, Conducts-lift, Conducts-pure, Conducts-raise,
  execute-Conducts,
}

module _ {S F R T : Type 0} (outside : Outside S F R) (lib : Libraries T)
    (detail : SqlFault → String) (dialect : String) (allowed_tables : List String)
    (today : MonthStart) (limits : Limits F) (Fails : Failure → Type 0)
    (failing : Failing outside lib detail dialect allowed_tables today limits.max_rows
      limits.max_scanned_rows Fails) where
  abbrev pub Does : {A : Type 0} → ℕ → ℕ → (A → Type 0) → Act S A → Type 0
  Does g n P m =
      Conducts outside lib detail dialect allowed_tables today limits.max_rows
        limits.max_scanned_rows Fails g n P m

  abbrev pub Usable : String → Type 0
  Usable sql = Trace.IsAccepted outside lib detail dialect allowed_tables today sql

  -- The statement serves the objective, or it is the controlled one.
  abbrev pub Intended : String → String → Type 0
  Intended objective sql =
      (validate_sql_intent lib detail dialect allowed_tables sql objective ≡ returned tt)
      ⊎ Trace.IsControlled outside lib detail dialect allowed_tables today sql

  -- A statement that may be answered with, and what it gave.
  pub record IsGood (objective : String) (ran : Ran R) : Type 0 where
    pub accepted : Usable ran.0
    pub intended : Intended objective ran.0
    pub bounded : IsWithin limits.max_rows limits.max_scanned_rows ran.1

  pub Does-then :
      {A B : Type 0} {g n : ℕ} (g' n' : ℕ) (P : A → Type 0) (Q : B → Type 0) (m : Act S A)
      (f : A → Act S B)
      → Does g n P m
      → ((a : A) → P a → Does g' n' Q (f a))
      → Does (g + g') (n + n') Q (m >>= f)
  Does-then g' n' P Q m f d k =
      Conducts-then outside lib detail dialect allowed_tables today limits.max_rows
        limits.max_scanned_rows Fails g' n' P Q m f d k

  pub Does-raise :
      {A : Type 0} {g n : ℕ} (P : A → Type 0) (e : Failure) → Fails e → Does g n P (raise e)
  Does-raise P e h =
      Conducts-raise outside lib detail dialect allowed_tables today limits.max_rows
        limits.max_scanned_rows Fails P e h

  pub Does-pure : {A : Type 0} {g n : ℕ} (P : A → Type 0) (a : A) → P a → Does g n P (pure a)
  Does-pure P a h =
      Conducts-pure outside lib detail dialect allowed_tables today limits.max_rows
        limits.max_scanned_rows Fails P a h

  abbrev pub Done : Answer (Unit {0}) → Type 0
  Done r = Trace.Ends (λ _. Unit {0}) Fails r

  validate_sql-Fails :
      (sql : String) (e : Failure)
      → validate_sql lib detail dialect allowed_tables sql ≡ raised e
      → Fails e
  validate_sql-Fails sql e h =
      subst Done h (validate_sql-Ends lib detail dialect allowed_tables Fails failing.reports sql)

  pub validate_sql_intent-Fails :
      (objective sql : String) (e : Failure)
      → Usable sql
      → validate_sql_intent lib detail dialect allowed_tables sql objective ≡ raised e
      → Fails e
  validate_sql_intent-Fails objective sql e usable h = subst Done h (
      validate_sql_intent-Ends lib detail dialect allowed_tables Fails failing.reports sql objective
        (failing.refuses sql usable))

  -- The check of a statement, and what comes after it.
  pub validate_sql-Does :
      {A : Type 0} (g n : ℕ) (P : A → Type 0) (sql : String) (m : Act S A)
      → (Usable sql → Does g n P m)
      → Does (0 + g) (0 + n) P (lift (validate_sql lib detail dialect allowed_tables sql) >> m)
  validate_sql-Does g n P sql m d =
      Does-then g n (λ _. validate_sql lib detail dialect allowed_tables sql ≡ returned tt) P
        (lift (validate_sql lib detail dialect allowed_tables sql)) (λ _. m)
        (Conducts-lift outside lib detail dialect allowed_tables today limits.max_rows
          limits.max_scanned_rows Fails _ (validate_sql lib detail dialect allowed_tables sql)
          (λ _ e. e) (validate_sql-Fails sql))
        (λ _ e. d (inl e))

  controlled_or_failed-Does :
      (objective : String)
      → Does 0 0 Usable
          (controlled_or_failed outside lib detail dialect allowed_tables today objective)
  unfolding controlled_or_failed
  controlled_or_failed-Does objective =
      by_option (Does 0 0 Usable)
        (fallback outside lib detail dialect allowed_tables today objective) (raise model_failed)
        (λ fallback_sql. pure fallback_sql)
        (λ _. Does-raise Usable model_failed (failing.reports _ _ _))
        (λ sql e. Does-pure Usable sql (inr (objective, e)))

  pub generator_failed-Does :
      (objective : String) (e : Failure)
      → ((d : DataAgentError) → e ≡ data_agent_error d → Fails e)
      → Does 0 0 Usable
          (generator_failed outside lib detail dialect allowed_tables today objective e)
  unfolding generator_failed
  generator_failed-Does objective (data_agent_error d) h =
      Does-raise Usable (data_agent_error d) (h d refl)
  generator_failed-Does objective sqlalchemy_error h = controlled_or_failed-Does objective
  generator_failed-Does objective timeout_error h = controlled_or_failed-Does objective
  generator_failed-Does objective other_exception h = controlled_or_failed-Does objective

  -- A call of the generator, with what is done about its exceptions.
  pub generate_call :
      (objective schema : String)
      → (s : S)
      → Trace.Within outside lib detail dialect allowed_tables today
          (limits.max_rows + 1)
          1
          0
          s
          (outside.generate objective schema dialect s).1
  generate_call objective schema s =
      Trace.Within-one outside lib detail dialect allowed_tables today
        (asks 0 0 s _ objective schema (done _))

  pub run_sql-Does :
      (objective sql : String)
      → Usable sql
      → Intended objective sql
      → Does 0 1
          (IsGood objective)
          (run_sql outside lib detail dialect allowed_tables today limits sql)
  unfolding run_sql
  run_sql-Does objective sql usable intended =
      Does-then {g = 0} {n = 1} 0 0 (IsWithin limits.max_rows limits.max_scanned_rows)
        (IsGood objective) _ _
        (execute-Conducts outside lib detail dialect allowed_tables today limits.max_rows
          limits.max_scanned_rows Fails failing sql limits.timeout_seconds usable)
        (λ execution bounded.
          Does-pure (IsGood objective) (sql, execution)
            (record { accepted = usable; intended = intended; bounded = bounded }))

  run_fallback-Does :
      (objective question sql : String)
      → fallback outside lib detail dialect allowed_tables today question ≡ some sql
      → Does 0 1
          (IsGood objective)
          (run_fallback outside lib detail dialect allowed_tables today limits sql)
  unfolding run_fallback
  run_fallback-Does objective question sql e =
      validate_sql-Does 0 1 (IsGood objective) sql _
        (λ usable. run_sql-Does objective sql usable (inr (question, e)))

  pub after_mismatch-Does :
      (objective : String) (e : Failure)
      → Fails e
      → Does 0 1
          (IsGood objective)
          (after_mismatch outside lib detail dialect allowed_tables today limits objective e)
  unfolding after_mismatch
  after_mismatch-Does objective e h =
      by_option (Does 0 1 (IsGood objective))
        (fallback outside lib detail dialect allowed_tables today objective) (raise e)
        (λ sql. run_fallback outside lib detail dialect allowed_tables today limits sql)
        (λ _. Does-raise (IsGood objective) e h)
        (λ sql found. run_fallback-Does objective objective sql found)

  pub after_rejection-Does :
      (objective current_sql : String)
      → Fails sqlalchemy_error
      → Does 0 1 (IsGood objective) (
          after_rejection outside lib detail dialect allowed_tables today limits objective
            current_sql)
  unfolding after_rejection
  after_rejection-Does objective current_sql h =
      by_option (Does 0 1 (IsGood objective))
        (fallback outside lib detail dialect allowed_tables today objective)
        (raise sqlalchemy_error)
        (λ sql.
          if not (same_text sql current_sql)
          then run_fallback outside lib detail dialect allowed_tables today limits sql
          else raise sqlalchemy_error)
        (λ _. Does-raise (IsGood objective) sqlalchemy_error h)
        (λ sql found.
          by_test (Does 0 1 (IsGood objective)) (not (same_text sql current_sql))
            (run_fallback outside lib detail dialect allowed_tables today limits sql)
            (raise sqlalchemy_error) (λ _. run_fallback-Does objective objective sql found)
            (λ _. Does-raise (IsGood objective) sqlalchemy_error h))
