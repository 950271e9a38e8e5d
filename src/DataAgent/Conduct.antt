-- ===== src/DataAgent/Conduct.antt =====
-- What the pieces of the data agent's service do: the calls that they make, and how they end.
pub mod Checks
pub mod Attempts
pub mod Retry
use baa_system.Base.{
  ℕ, zero, suc, ◌+◌, ◌≤◌, ◌<◌, String, Bool, true, false, not, Option, some, none, List, [], ◌∷◌,
  ◌≡◌, refl, ◌⊎◌, inl, inr, arith, ◌<+>◌, length, take, by_test, by_option, if◌then◌else◌,
  same_text, ltb, Bool-cases, Option-cases,
}
use baa_system.DataAgent.Action.{
  continue, recover, Act, Answer, returned, raised, Failure, data_agent_error, sqlalchemy_error,
  timeout_error, other_exception, agent_error, ◌>>=◌, ◌>>◌, pure, raise, lift, on_failure,
}
use baa_system.DataAgent.Sql.{Libraries, SqlFault, validate_read_only_sql}
use baa_system.DataAgent.Candidate.{
  validate_sql, bounded_sql, validate_sql_intent, check_physical, rejected,
}
use baa_system.DataAgent.Period.{MonthStart}
use baa_system.DataAgent.Controlled.{sales_channel_comparison_sql}
use baa_system.DataAgent.Execution.{
  Outside, Execution, ResultSet, finish_execution, or_count, estimate_scanned_rows, run_estimated,
  execute, is_over, total_rows, scan_limit_exceeded,
}
use mathlib.Core.Path.{subst}
use baa_system.DataAgent.Trace
use baa_system.DataAgent.Trace.{explains, runs, connects, times, done}

-- The failures of the calls of the database.
pub record DatabaseFails {S F R : Type 0} (outside : Outside S F R) (Fails : Failure → Type 0)
    : Type 0 where
  pub connect : (s : S) (e : Failure) → (outside.connect s).0 ≡ raised e → Fails e
  pub start_timeout :
      (seconds : F) (s : S) (e : Failure) → (outside.start_timeout seconds s).0 ≡ raised e → Fails e
  pub explain :
      (sql : String) (s : S) (e : Failure) → (outside.explain sql s).0 ≡ raised e → Fails e
  pub run : (sql : String) (s : S) (e : Failure) → (outside.run sql s).0 ≡ raised e → Fails e

take_short {ℓ} : {A : Type ℓ} (n : ℕ) (xs : List A) → length (take n xs) ≤ n
take_short zero xs = omega arith
take_short (suc n) [] = omega arith
take_short (suc n) (x ∷ xs) = omega (arith, take_short n xs)

-- An execution that stays within its limits.
pub record IsWithin {R : Type 0} (max_rows max_scanned_rows : ℕ) (execution : Execution R)
    : Type 0 where
  pub few_rows : length execution.rows ≤ max_rows
  pub few_scanned : execution.scanned_rows ≤ max_scanned_rows

module _ {S F R T : Type 0} (outside : Outside S F R) (lib : Libraries T)
    (detail : SqlFault → String) (dialect : String) (allowed_tables : List String)
    (today : MonthStart) (max_rows max_scanned_rows : ℕ) (Fails : Failure → Type 0) where
  abbrev pub Accepted : String → Type 0
  Accepted sql = Trace.IsAccepted outside lib detail dialect allowed_tables today sql

  -- At most so many calls of the generator and executions, and a failure is one of `Fails`.
  abbrev pub Conducts : {A : Type 0} → ℕ → ℕ → (A → Type 0) → Act S A → Type 0
  Conducts g n P m =
      Trace.Does outside lib detail dialect allowed_tables today (max_rows + 1) g n P Fails m

  -- What may fail: errors of the data agent are among the failures, those of the database's calls
  -- are, and so is an accepted statement that the parser refuses.
  pub record Failing : Type 0 where
    pub reports : (code message : String) (status : ℕ) → Fails (agent_error code message status)
    pub generator :
        (objective schema : String) (s : S) (e : _)
        → (outside.generate objective schema dialect s).0 ≡ raised (data_agent_error e)
        → Fails (data_agent_error e)
    pub database : DatabaseFails outside Fails
    pub refuses :
        (sql : String) → Accepted sql → lib.parse_one dialect sql ≡ none → Fails other_exception

  abbrev Within : ℕ → ℕ → S → S → Type 0
  Within g n s u =
      Trace.Within outside lib detail dialect allowed_tables today (max_rows + 1) g n s u

  abbrev pub Bounded : Execution R → Type 0
  Bounded execution = IsWithin max_rows max_scanned_rows execution

  pub Conducts-then :
      {A B : Type 0} {g n : ℕ} (g' n' : ℕ) (P : A → Type 0) (Q : B → Type 0) (m : Act S A)
      (f : A → Act S B)
      → Conducts g n P m
      → ((a : A) → P a → Conducts g' n' Q (f a))
      → Conducts (g + g') (n + n') Q (m >>= f)
  Conducts-then g' n' P Q m f d k =
      Trace.Does-then outside lib detail dialect allowed_tables today (max_rows + 1) P Q Fails m f d
        k

  pub Conducts-lift :
      {A : Type 0} {g n : ℕ} (P : A → Type 0) (r : Answer A)
      → ((a : A) → r ≡ returned a → P a)
      → ((e : Failure) → r ≡ raised e → Fails e)
      → Conducts g n P (lift r)
  Conducts-lift P r p e =
      Trace.Does-lift outside lib detail dialect allowed_tables today (max_rows + 1) P Fails r p e

  pub lift-Conducts :
      {A : Type 0} {g n : ℕ} (P : A → Type 0) (r : Answer A)
      → Trace.Ends P Fails r
      → Conducts g n P (lift r)
  lift-Conducts P r h s = (Trace.Within-done outside lib detail dialect allowed_tables today s, h)

  pub Conducts-pure :
      {A : Type 0} {g n : ℕ} (P : A → Type 0) (a : A) → P a → Conducts g n P (pure a)
  Conducts-pure P a p =
      Trace.Does-pure outside lib detail dialect allowed_tables today (max_rows + 1) P Fails a p

  pub Conducts-raise :
      {A : Type 0} {g n : ℕ} (P : A → Type 0) (e : Failure) → Fails e → Conducts g n P (raise e)
  Conducts-raise P e p =
      Trace.Does-raise outside lib detail dialect allowed_tables today (max_rows + 1) P Fails e p

  pub Conducts-le :
      {A : Type 0} {g n : ℕ} (g' n' : ℕ) (P : A → Type 0) (m : Act S A)
      → g ≤ g'
      → n ≤ n'
      → Conducts g n P m
      → Conducts g' n' P m
  Conducts-le g' n' P m h k d =
      Trace.Does-le outside lib detail dialect allowed_tables today (max_rows + 1) P Fails m h k d

  -- One call outside.
  Conducts-call :
      {A : Type 0} {g n : ℕ} (m : Act S A)
      → ((s : S) → Within g n s (m s).1)
      → ((s : S) (e : Failure) → (m s).0 ≡ raised e → Fails e)
      → Conducts g n (λ _. Unit {0}) m
  Conducts-call m w h s = (w s, Trace.Ends-of (λ _. Unit {0}) Fails (m s).0 (λ _ _. tt) (h s))

  module _ (failing : Failing) where
    explain_call :
        (sql : String)
        → Accepted sql
        → Conducts 0 0 (λ _. Unit {0}) (outside.explain ("EXPLAIN " <+> sql))
    explain_call sql accepted =
        Conducts-call (outside.explain ("EXPLAIN " <+> sql))
          (λ s.
            Trace.Within-one outside lib detail dialect allowed_tables today
              (explains 0 0 s _ sql accepted (done _)))
          (failing.database.explain ("EXPLAIN " <+> sql))

    run_call :
        (sql bounded : String)
        → Accepted sql
        → bounded_sql lib sql (max_rows + 1) dialect ≡ returned bounded
        → Conducts 0 1 (λ _. Unit {0}) (outside.run bounded)
    run_call sql bounded accepted e =
        Conducts-call (outside.run bounded)
          (λ s.
            Trace.Within-one outside lib detail dialect allowed_tables today
              (runs 0 0 s _ sql bounded accepted e (done _)))
          (failing.database.run bounded)

    connect_call : Conducts 0 0 (λ _. Unit {0}) outside.connect
    connect_call =
        Conducts-call outside.connect
          (λ s.
            Trace.Within-one outside lib detail dialect allowed_tables today
              (connects 0 0 s _ (done _)))
          failing.database.connect

    timeout_call : (seconds : F) → Conducts 0 0 (λ _. Unit {0}) (outside.start_timeout seconds)
    timeout_call seconds =
        Conducts-call (outside.start_timeout seconds)
          (λ s.
            Trace.Within-one outside lib detail dialect allowed_tables today
              (times 0 0 s _ seconds (done _)))
          (failing.database.start_timeout seconds)

    finish_execution-Ends :
        (estimated : Option ℕ) (result : ResultSet R)
        → Trace.Ends Bounded Fails (finish_execution max_rows max_scanned_rows estimated result)
    unfolding finish_execution
    finish_execution-Ends estimated result =
        let scanned = or_count estimated (length (take (suc max_rows) result.mappings)) in
        by_test (Trace.Ends Bounded Fails) (ltb max_scanned_rows scanned)
          (raised (agent_error "DATA_AGENT_SCAN_LIMIT_EXCEEDED" "查询扫描行数超过限制" 422))
          (returned (record {
            rows = take max_rows (take (suc max_rows) result.mappings);
            columns = result.keys;
            scanned_rows = scanned;
            truncated = ltb max_rows (length (take (suc max_rows) result.mappings));
          }))
          (λ _. failing.reports _ _ _)
          (λ e. record {
            few_rows = take_short max_rows (take (suc max_rows) result.mappings);
            few_scanned = ground arith;
          })

    estimate_scanned_rows-Conducts :
        (sql : String)
        → Accepted sql
        → Conducts 0 0 (λ _. Unit {0}) (estimate_scanned_rows outside sql dialect)
    unfolding estimate_scanned_rows
    estimate_scanned_rows-Conducts sql accepted =
        by_test (Conducts 0 0 (λ _. Unit {0})) (same_text dialect "mysql")
          (outside.explain ("EXPLAIN " <+> sql) >>= (λ rows. pure (total_rows 0 false rows)))
          (pure none)
          (λ _.
            Conducts-then 0 0 (λ _. Unit {0}) (λ _. Unit {0}) (outside.explain ("EXPLAIN " <+> sql))
              (λ rows. pure (total_rows 0 false rows)) (explain_call sql accepted)
              (λ rows _. Conducts-pure (λ _. Unit {0}) (total_rows 0 false rows) tt))
          (λ _. Conducts-pure {A = Option ℕ} (λ _. Unit {0}) none tt)

    -- The bounded statement runs only under an estimate that is within the limit.
    run_estimated-Conducts :
        (sql bounded : String) (estimated : Option ℕ)
        → Accepted sql
        → bounded_sql lib sql (max_rows + 1) dialect ≡ returned bounded
        → Conducts 0 1 Bounded
            (run_estimated outside lib dialect bounded max_rows max_scanned_rows estimated)
    unfolding run_estimated
    run_estimated-Conducts sql bounded estimated accepted e =
        by_test (Conducts 0 1 Bounded) (is_over estimated max_scanned_rows)
          (raise (scan_limit_exceeded "候选 SQL 预计扫描行数超过限制"))
          (outside.run bounded >>= λ result.
            lift (finish_execution max_rows max_scanned_rows estimated result))
          (λ _.
            Conducts-raise Bounded (scan_limit_exceeded "候选 SQL 预计扫描行数超过限制")
              (failing.reports _ _ _))
          (λ _.
            Conducts-then 0 0 (λ _. Unit {0}) Bounded (outside.run bounded)
              (λ result. lift (finish_execution max_rows max_scanned_rows estimated result))
              (run_call sql bounded accepted e)
              (λ result _.
                lift-Conducts Bounded (finish_execution max_rows max_scanned_rows estimated result)
                  (finish_execution-Ends estimated result)))

    bounded_sql-Fails :
        (sql : String) (e : Failure)
        → Accepted sql
        → bounded_sql lib sql (max_rows + 1) dialect ≡ raised e
        → Fails e
    unfolding bounded_sql
    bounded_sql-Fails sql e accepted h = elim (Option-cases (lib.parse_one dialect sql)) [
      | inl refused ↦ subst Fails (ground arith) (failing.refuses sql accepted refused)
      | inr (statement, parsed) ↦ absurd (ground arith)
    ]

    -- `_execute` of an accepted statement runs it once at most, bounded, within the limits.
    pub execute-Conducts :
        (sql : String) (seconds : F)
        → Accepted sql
        → Conducts 0 1 Bounded (execute outside lib dialect sql max_rows max_scanned_rows seconds)
    unfolding execute
    execute-Conducts sql seconds accepted =
        Conducts-then {g = 0} {n = 0} 0 1
          (λ bounded. bounded_sql lib sql (max_rows + 1) dialect ≡ returned bounded) Bounded
          (lift (bounded_sql lib sql (max_rows + 1) dialect)) _
          (Conducts-lift _ (bounded_sql lib sql (max_rows + 1) dialect) (λ bounded e. e)
            (λ x h. bounded_sql-Fails sql x accepted h))
          λ bounded e.
            Conducts-then 0 1 (λ _. Unit {0}) Bounded (outside.start_timeout seconds) _
              (timeout_call seconds)
              λ _ _.
                Conducts-then 0 1 (λ _. Unit {0}) Bounded outside.connect _ connect_call
                  λ _ _.
                    Conducts-then 0 1 (λ _. Unit {0}) Bounded
                      (estimate_scanned_rows outside sql dialect) _
                      (estimate_scanned_rows-Conducts sql accepted)
                      λ estimated _. run_estimated-Conducts sql bounded estimated accepted e
