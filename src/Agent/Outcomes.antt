-- ===== src/Agent/Outcomes.antt =====
-- What the outcomes mean that the executor reports to the worker.
use mathlib.Core.Path.{subst}
use baa_system.Base.{ℕ, String, true, false, some, ◌≡◌, refl, is_blank, by_test, by_option}
use baa_system.Outcome.{
  Outcome, returned, raised, Ends, Ends-of, Yields, Yields-then, Yields-try, continue-Ends,
  continue, pure, on_failure,
}
use baa_system.Tasks.World.{World}
use baa_system.Worker.Process.{WorkerOutcome, needs_input, succeeded}
use baa_system.Worker.Process
use baa_system.Agent.State
use baa_system.Agent.State.{
  AgentState, AgentFault, AgentRun, ask_clarification, agent_execution_error, graph_recursion_error,
  other_error,
}
use baa_system.Agent.Runtime.{Emitter}
use baa_system.Agent.Graph.{Nodes, invoke}
use baa_system.Agent.Executor.{
  Services, persist, waiting_outcome, success_outcome, execution_end, store_result, after_graph,
  execute_graph, execute,
}
use baa_system.Agent.Measure.{IsSettled}
use baa_system.Agent.Termination.{QuietOutside, NotRecursion, invoke-Settled}

module _ {S X : Type 0} (nodes : Nodes (World S) X) (services : Services (World S) X)
    (emitter : ℕ → Emitter (World S)) (check_cancelled : ℕ → AgentRun (World S) (Unit {0}))
    (quiet : (task_id : ℕ) → QuietOutside nodes (emitter task_id) (check_cancelled task_id)) where
  -- It waits for the answer to a question, or the run of the graph has ended without one, and its
  -- report, which is valid, has been stored.
  pub data Means (task_id : ℕ) (w : World S) : WorkerOutcome → Type 0 where
    waits :
        (question : String) → is_blank question ≡ false → Means task_id w (waiting_outcome question)
    stored :
        (state : AgentState X) (w' : World S)
        → invoke nodes (emitter task_id) (check_cancelled task_id) (services.initial task_id) w
          ≡ (returned state, w')
        → ((question : String)
            → services.clarification_question state.rest ≡ some question
            → is_blank question ≡ true)
        → IsSettled nodes state
        → (report : X) × (nodes.validate state.rest ≡ some report)
        → (services.persist_report state w').0 ≡ returned tt
        → Means task_id w success_outcome

  Finishes : ℕ → World S → Outcome AgentFault WorkerOutcome → Type 0
  Finishes task_id w r = Ends (Means task_id w) (λ _. Unit {0}) r

  -- What the executor does with a state that the graph has returned, without a question in it.
  module _ (task_id : ℕ) (w : World S) (state : AgentState X) (w' : World S)
      (ran : invoke nodes (emitter task_id) (check_cancelled task_id) (services.initial task_id) w
        ≡ (returned state, w'))
      (settled : IsSettled nodes state) where
    compressed :
        Yields
          (λ _. Unit {0})
          (λ _. Unit {0})
          (on_failure (services.compress_if_needed state) (λ e. pure tt))
    compressed =
        Yields-try (λ _. Unit {0}) (λ _. Unit {0}) (λ _. Unit {0})
          (services.compress_if_needed state) _
          (λ s. Ends-of _ _ (services.compress_if_needed state s).0 (λ _ _. tt) (λ _ _. tt))
          (λ _ _ _. tt)

    -- Both reports: the one that is valid, and the one that has been stored.
    abbrev Stored : Unit {0} → Type 0
    Stored u =
        ((report : X) × (nodes.validate state.rest ≡ some report))
        × ((services.persist_report state w').0 ≡ returned tt)

    persist-Stored :
        Ends Stored (λ _. Unit {0}) (persist nodes services emitter check_cancelled state w').0
    unfolding persist
    persist-Stored =
        by_option (λ (m : AgentRun (World S) (Unit {0})). Ends Stored (λ _. Unit {0}) (m w').0)
          (nodes.validate state.rest) _ _ (λ _. tt)
          (λ report valid.
            Ends-of _ _ (services.persist_report state w').0 (λ _ e. ((report, valid), e))
              (λ _ _. tt))

    store_result-Finishes :
        ((question : String)
          → services.clarification_question state.rest ≡ some question
          → is_blank question ≡ true)
        → Finishes task_id w (store_result nodes services emitter check_cancelled state w').0
    unfolding store_result Finishes
    store_result-Finishes unasked =
        continue-Ends Stored (Means task_id w) (λ _. Unit {0}) _
          (persist nodes services emitter check_cancelled state w') persist-Stored
          (λ u kept.
            let ((report, valid), stored_it) = kept in
            Yields-then (λ _. Unit {0}) (Means task_id w) (λ _. Unit {0}) _ _ compressed
              (λ _ _ _. stored state w' ran unasked settled (report, valid) stored_it))

    after_graph-Finishes :
        Finishes task_id w (after_graph nodes services emitter check_cancelled state w').0
    unfolding after_graph Finishes
    after_graph-Finishes =
        by_option
          (λ (m : AgentRun (World S) WorkerOutcome).
            Ends (Means task_id w) (λ _. Unit {0}) (m w').0)
          (services.clarification_question state.rest) _ _
          (λ none_asked. store_result-Finishes (λ question asked. absurd cc))
          (λ question asked.
            by_test
              (λ (m : AgentRun (World S) WorkerOutcome).
                Ends (Means task_id w) (λ _. Unit {0}) (m w').0)
              (is_blank question) _ _
              (λ blank. store_result-Finishes (λ q asked_too.
                let same : question ≡ q = cc in subst (λ s. is_blank s ≡ true) same blank))
              (λ nonblank. waits question nonblank))

  execute_graph-Finishes :
      (task_id : ℕ) (w : World S)
      → Finishes task_id w (execute_graph nodes services emitter check_cancelled task_id w).0
  unfolding execute_graph Finishes
  execute_graph-Finishes task_id w =
      from (invoke nodes (emitter task_id) (check_cancelled task_id) (services.initial task_id) w)
        refl
        (invoke-Settled nodes (emitter task_id) (check_cancelled task_id) (quiet task_id)
          (services.initial task_id) w)
    where
      from :
          (r : Outcome AgentFault (AgentState X) × World S)
          → invoke nodes (emitter task_id) (check_cancelled task_id) (services.initial task_id) w
            ≡ r
          → Ends (IsSettled nodes) NotRecursion r.0
          → Finishes task_id w (continue (after_graph nodes services emitter check_cancelled) r).0
      from (returned state, w') e settled = after_graph-Finishes task_id w state w' e settled
      from (raised x, w') e known = tt

  execution_end-Means :
      (task_id : ℕ) (w : World S) (r : Outcome AgentFault WorkerOutcome) (outcome : WorkerOutcome)
      → Finishes task_id w r
      → execution_end r ≡ Process.returned outcome
      → Means task_id w outcome
  unfolding execution_end Finishes
  execution_end-Means task_id w (returned o) outcome h e =
      let same : o ≡ outcome = cc in subst (Means task_id w) same h
  execution_end-Means task_id w (raised (agent_execution_error code message)) outcome h e =
      absurd cc
  execution_end-Means task_id w (raised State.task_cancelled) outcome h e = absurd cc
  execution_end-Means task_id w (raised graph_recursion_error) outcome h e = absurd cc
  execution_end-Means task_id w (raised other_error) outcome h e = absurd cc

  -- If nothing outside raises LangGraph's recursion error, then what the executor returns to the
  -- worker is true. Either the task waits for the answer to a question that is not empty; or the
  -- graph has ended, in a state that validate_report has found valid or that ask_clarification has
  -- left without a question, the report in it passes validation, and it has been stored.
  pub execute-Means :
      (task_id : ℕ) (w : World S) (outcome : WorkerOutcome)
      → (execute nodes services emitter check_cancelled task_id w).0 ≡ Process.returned outcome
      → Means task_id w outcome
  unfolding execute
  execute-Means task_id w outcome e =
      execution_end-Means task_id w
        (execute_graph nodes services emitter check_cancelled task_id w).0 outcome
        (execute_graph-Finishes task_id w) e
