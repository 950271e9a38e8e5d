-- ===== src/Agent/Executor.antt =====
-- `LangGraphTaskExecutor.execute` of backend/app/agent/executor.py, as an executor of the worker.
-- The services that store the result and compress the context stand outside.
use baa_system.Base.{ℕ, String, Option, none, some, if◌then◌else◌, is_blank}
use baa_system.Outcome.{Outcome, returned, raised, ◌>>=◌, ◌>>◌, pure, raise, on_failure}
use baa_system.Tasks.World.{World}
use baa_system.Worker.Process.{
  WorkerOutcome, needs_input, succeeded, ExecutionEnd, execution_error, crashed, TaskExecutor,
}
use baa_system.Worker.Process
use baa_system.Agent.State
use baa_system.Agent.State.{
  AgentState, AgentFault, AgentRun, agent_execution_error, graph_recursion_error, other_error,
}
use baa_system.Agent.Runtime.{Emitter}
use baa_system.Agent.Graph.{Nodes, invoke}

pub record Services (S X : Type 0) : Type 0 where
  -- `StageFiveResultService.persist` after its check of the report
  pub persist_report : AgentState X → AgentRun S (Unit {0})
  -- `ContextSummaryService.compress_if_needed`
  pub compress_if_needed : AgentState X → AgentRun S (Unit {0})
  -- `final_state.get("clarification_question")`
  pub clarification_question : X → Option String
  -- the state at the start: `{"task_id": context.task_id}`
  pub initial : ℕ → X

abbrev pub waiting_outcome : String → WorkerOutcome
waiting_outcome question = record {
  status = needs_input;
  current_step = some "ask_clarification";
  clarification_question = some question;
}

abbrev pub success_outcome : WorkerOutcome
success_outcome = record {
  status = succeeded;
  current_step = some "report_ready";
  clarification_question = none;
}

-- How the worker sees the end: `AgentExecutionError` becomes `TaskExecutionError`.
unfoldable pub execution_end : Outcome AgentFault WorkerOutcome → ExecutionEnd
execution_end (returned outcome) = Process.returned outcome
execution_end (raised (agent_execution_error code message)) = execution_error code message
execution_end (raised State.task_cancelled) = Process.task_cancelled
execution_end (raised graph_recursion_error) = crashed
execution_end (raised other_error) = crashed

module _ {S X : Type 0} (nodes : Nodes (World S) X) (services : Services (World S) X)
    (emitter : ℕ → Emitter (World S)) (check_cancelled : ℕ → AgentRun (World S) (Unit {0})) where
  -- `StageFiveResultService.persist`: first `ReportIR.model_validate(state["report_ir"])`, which
  -- raises if there is no valid report.
  unfoldable pub persist : AgentState X → AgentRun (World S) (Unit {0})
  persist final_state = elim (nodes.validate final_state.rest) [
    | none ↦ raise other_error
    | some _ ↦ services.persist_report final_state
  ]

  -- A failed compression is only logged.
  unfoldable pub store_result : AgentState X → AgentRun (World S) WorkerOutcome
  unfolding persist
  store_result final_state =
      persist final_state
      >> (on_failure (services.compress_if_needed final_state) (λ e. pure tt)
          >> pure success_outcome)

  unfoldable pub after_graph : AgentState X → AgentRun (World S) WorkerOutcome
  unfolding store_result
  after_graph final_state = elim (services.clarification_question final_state.rest) [
    | none ↦ store_result final_state
    | some question ↦
        if is_blank question then store_result final_state else pure (waiting_outcome question)
  ]

  unfoldable pub execute_graph : ℕ → AgentRun (World S) WorkerOutcome
  unfolding after_graph
  execute_graph task_id =
      invoke nodes (emitter task_id) (check_cancelled task_id) (services.initial task_id)
      >>= after_graph

  unfoldable pub execute : TaskExecutor S
  unfolding execute_graph execution_end
  execute task_id w = let (outcome, w') = execute_graph task_id w in (execution_end outcome, w')
