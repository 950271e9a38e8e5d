-- ===== src/DataAgent/Conduct/Retry.antt =====
-- What the two attempts to run a statement do.
use mathlib.Core.Path.{subst}
use baa_system.Base.{ℕ, ◌+◌, String, List, [], ◌∷◌, ◌≡◌, refl, ap, sym, ◌∙◌, inl, arith}
use baa_system.DataAgent.Action.{
  Act, Answer, returned, raised, Failure, data_agent_error, sqlalchemy_error, timeout_error,
  other_exception, ◌>>=◌, pure,
}
use baa_system.DataAgent.Schemas.{DataAgentError}
use baa_system.DataAgent.Sql.{Libraries, SqlFault}
use baa_system.DataAgent.Candidate.{validate_sql_intent}
use baa_system.DataAgent.Period.{MonthStart}
use baa_system.DataAgent.Controlled.{repair_objective}
use baa_system.DataAgent.Execution.{Outside}
use baa_system.DataAgent.Service.{
  Limits, Ran, generator_failed, generate_initial_sql, regenerate_sql, after_intent, on_rejection,
  regenerated, run_sql, after_mismatch, after_rejection, attempts, execute_with_retry,
}
use baa_system.DataAgent.Trace
use baa_system.DataAgent.Trace.{asks, done}
use baa_system.DataAgent.Conduct.{Failing, Conducts-le}
use baa_system.DataAgent.Conduct.Attempts

module _ {S F R T : Type 0} (outside : Outside S F R) (lib : Libraries T)
    (detail : SqlFault → String) (dialect : String) (allowed_tables : List String)
    (today : MonthStart) (limits : Limits F) (Fails : Failure → Type 0)
    (failing : Failing outside lib detail dialect allowed_tables today limits.max_rows
      limits.max_scanned_rows Fails) where
  abbrev Does : {A : Type 0} → ℕ → ℕ → (A → Type 0) → Act S A → Type 0
  Does g n P m =
      Attempts.Does outside lib detail dialect allowed_tables today limits Fails failing g n P m

  abbrev Usable : String → Type 0
  Usable sql = Trace.IsAccepted outside lib detail dialect allowed_tables today sql

  abbrev IsGood : String → Ran R → Type 0
  IsGood objective ran =
      Attempts.IsGood outside lib detail dialect allowed_tables today limits Fails failing objective
        ran

  weaken :
      {A : Type 0} {g n : ℕ} (P Q : A → Type 0) (m : Act S A)
      → ((a : A) → P a → Q a)
      → Does g n P m
      → Does g n Q m
  weaken P Q m f d s = ((d s).0, Trace.Ends-map P Q Fails (m s).0 f (d s).1)

  -- The failures of the generator that are passed on.
  abbrev Passed : Failure → Type 0
  Passed e = (d : DataAgentError) → e ≡ data_agent_error d → Fails e

  generate-Passed :
      (objective schema : String) (s : S) (e : Failure)
      → (outside.generate objective schema dialect s).0 ≡ raised e
      → Passed e
  generate-Passed objective schema s e h d p =
      subst Fails (sym p) (failing.generator objective schema s d (h ∙ ap raised p))

  pub generate_initial_sql-Does :
      (objective schema : String)
      → Does 1 0
          (λ _. Unit {0})
          (generate_initial_sql outside lib detail dialect allowed_tables today objective schema)
  unfolding generate_initial_sql
  generate_initial_sql-Does objective schema =
      Trace.Does-try outside lib detail dialect allowed_tables today (limits.max_rows + 1) {g = 1}
        {n = 0} {g' = 0} {n' = 0} (λ _. Unit {0}) Passed Fails
        (outside.generate objective schema dialect)
        (generator_failed outside lib detail dialect allowed_tables today objective)
        (λ s. (
          Attempts.generate_call outside lib detail dialect allowed_tables today limits Fails
              failing objective schema s,
          Trace.Ends-of (λ _. Unit {0}) Passed _ (λ _ _. tt) (generate-Passed objective schema s),
        ))
        (λ e h.
          weaken Usable (λ _. Unit {0})
            (generator_failed outside lib detail dialect allowed_tables today objective e)
            (λ _ _. tt)
            (Attempts.generator_failed-Does outside lib detail dialect allowed_tables today limits
              Fails failing objective e h))

  regenerated_at :
      (objective : String) (s : S) (r : Answer String × S)
      → Trace.Within outside lib detail dialect allowed_tables today (limits.max_rows + 1) 1 0 s r.1
      → ((e : Failure) → r.0 ≡ raised e → Passed e)
      → Trace.Within outside lib detail dialect allowed_tables today
          (limits.max_rows + 1)
          1
          0
          s
          (regenerated outside lib detail dialect allowed_tables today objective r).1
        × Trace.Ends Usable Fails
            (regenerated outside lib detail dialect allowed_tables today objective r).0
  unfolding regenerated
  regenerated_at objective s (returned sql, t) w h =
      let d =
        Attempts.validate_sql-Does outside lib detail dialect allowed_tables today limits Fails
          failing 0 0 Usable sql (pure sql)
          (λ usable.
            Attempts.Does-pure outside lib detail dialect allowed_tables today limits Fails failing
              Usable sql usable)
          t in
      (Trace.Within-append outside lib detail dialect allowed_tables today w d.0, d.1)
  regenerated_at objective s (raised e, t) w h =
      let d =
        Attempts.generator_failed-Does outside lib detail dialect allowed_tables today limits Fails
          failing objective e (h e refl) t in
      (Trace.Within-append outside lib detail dialect allowed_tables today w d.0, d.1)

  regenerate_sql-Does :
      (objective schema : String)
      → Does 1 0 Usable
          (regenerate_sql outside lib detail dialect allowed_tables today objective schema)
  unfolding regenerate_sql
  regenerate_sql-Does objective schema s =
      regenerated_at objective s _
        (Attempts.generate_call outside lib detail dialect allowed_tables today limits Fails failing
          (repair_objective objective) schema s)
        (generate-Passed (repair_objective objective) schema s)

  on_rejection-Does :
      (g n : ℕ) (objective : String) (rejected : Act S (Ran R)) (e : Failure)
      → Fails e
      → (Fails sqlalchemy_error → Does g n (IsGood objective) rejected)
      → Does g n
          (IsGood objective)
          (on_rejection outside lib detail dialect allowed_tables today rejected e)
  unfolding on_rejection
  on_rejection-Does g n objective rejected sqlalchemy_error h d = d h
  on_rejection-Does g n objective rejected (data_agent_error e) h d =
      Attempts.Does-raise outside lib detail dialect allowed_tables today limits Fails failing
        (IsGood objective) (data_agent_error e) h
  on_rejection-Does g n objective rejected timeout_error h d =
      Attempts.Does-raise outside lib detail dialect allowed_tables today limits Fails failing
        (IsGood objective) timeout_error h
  on_rejection-Does g n objective rejected other_exception h d =
      Attempts.Does-raise outside lib detail dialect allowed_tables today limits Fails failing
        (IsGood objective) other_exception h

  -- One attempt, for each answer of the check of the intent.
  after_intent-Does :
      (g n : ℕ) (objective current_sql : String) (mismatched : Failure → Act S (Ran R))
      (rejected : Act S (Ran R)) (answer : Answer (Unit {0}))
      → Usable current_sql
      → validate_sql_intent lib detail dialect allowed_tables current_sql objective ≡ answer
      → ((e : Failure) → answer ≡ raised e → Fails e)
      → ((e : Failure) → Fails e → Does g n (IsGood objective) (mismatched e))
      → (Fails sqlalchemy_error → Does g n (IsGood objective) rejected)
      → Does (0 + g) (1 + n) (IsGood objective) (
          after_intent outside lib detail dialect allowed_tables today limits current_sql mismatched
            rejected answer)
  unfolding after_intent
  after_intent-Does g n objective current_sql mismatched rejected (returned u) usable e fails m r =
      Trace.Does-try outside lib detail dialect allowed_tables today (limits.max_rows + 1) {g = 0}
        {n = 1} (IsGood objective) Fails Fails
        (run_sql outside lib detail dialect allowed_tables today limits current_sql)
        (on_rejection outside lib detail dialect allowed_tables today rejected)
        (Attempts.run_sql-Does outside lib detail dialect allowed_tables today limits Fails failing
          objective current_sql usable (inl e))
        (λ x h. on_rejection-Does g n objective rejected x h r)
  after_intent-Does g n objective current_sql mismatched rejected (raised (data_agent_error d))
        usable e fails m r =
      wider (m (data_agent_error d) (fails (data_agent_error d) refl))
    where
      wider :
          Does g n (IsGood objective) (mismatched (data_agent_error d))
          → Does (0 + g) (1 + n) (IsGood objective) (mismatched (data_agent_error d))
      wider h =
          Conducts-le outside lib detail dialect allowed_tables today limits.max_rows
            limits.max_scanned_rows Fails (0 + g) (1 + n) (IsGood objective)
            (mismatched (data_agent_error d)) (omega arith) (omega arith) h
  after_intent-Does g n objective current_sql mismatched rejected (raised sqlalchemy_error) usable e
        fails m r =
      Attempts.Does-raise outside lib detail dialect allowed_tables today limits Fails failing
        (IsGood objective) sqlalchemy_error (fails sqlalchemy_error refl)
  after_intent-Does g n objective current_sql mismatched rejected (raised timeout_error) usable e
        fails m r =
      Attempts.Does-raise outside lib detail dialect allowed_tables today limits Fails failing
        (IsGood objective) timeout_error (fails timeout_error refl)
  after_intent-Does g n objective current_sql mismatched rejected (raised other_exception) usable e
        fails m r =
      Attempts.Does-raise outside lib detail dialect allowed_tables today limits Fails failing
        (IsGood objective) other_exception (fails other_exception refl)

  last_attempt-Does :
      (objective schema current_sql : String)
      → Usable current_sql
      → Does 0 2 (IsGood objective) (
          attempts outside lib detail dialect allowed_tables today limits objective schema
            (1 ∷ [])
            current_sql)
  unfolding attempts
  last_attempt-Does objective schema current_sql usable =
      after_intent-Does 0 1 objective current_sql
        (after_mismatch outside lib detail dialect allowed_tables today limits objective)
        (after_rejection outside lib detail dialect allowed_tables today limits objective
          current_sql)
        _ usable refl
        (λ e h.
          Attempts.validate_sql_intent-Fails outside lib detail dialect allowed_tables today limits
            Fails failing objective current_sql e usable h)
        (Attempts.after_mismatch-Does outside lib detail dialect allowed_tables today limits Fails
          failing objective)
        (Attempts.after_rejection-Does outside lib detail dialect allowed_tables today limits Fails
          failing objective current_sql)

  again-Does :
      (objective schema : String)
      → Does 1 2 (IsGood objective) (
          regenerate_sql outside lib detail dialect allowed_tables today objective schema
          >>= attempts outside lib detail dialect allowed_tables today limits objective schema
              (1 ∷ []))
  again-Does objective schema =
      Attempts.Does-then outside lib detail dialect allowed_tables today limits Fails failing
        {g = 1} {n = 0} 0 2 Usable (IsGood objective) _ _ (regenerate_sql-Does objective schema)
        (λ sql usable. last_attempt-Does objective schema sql usable)

  -- Two attempts: one more statement of the generator at most, and three executions.
  pub execute_with_retry-Does :
      (objective schema sql : String)
      → Usable sql
      → Does 1 3 (IsGood objective) (
          execute_with_retry outside lib detail dialect allowed_tables today limits objective schema
            sql)
  unfolding execute_with_retry attempts
  execute_with_retry-Does objective schema sql usable =
      after_intent-Does 1 2 objective sql _ _ _ usable refl
        (λ e h.
          Attempts.validate_sql_intent-Fails outside lib detail dialect allowed_tables today limits
            Fails failing objective sql e usable h)
        (λ _ _. again-Does objective schema) (λ _. again-Does objective schema)
