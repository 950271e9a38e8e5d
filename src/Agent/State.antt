-- ===== src/Agent/State.antt =====
-- The state of the graph (backend/app/agent/state.py), its nodes by their names, and what they may
-- raise (backend/app/agent/errors.py).
use baa_system.Base.{ℕ, Bool, String}
use baa_system.Outcome.{Run}

pub data Node : Type 0 where
  load_context define_problem ask_clarification build_analysis_plan query_data validate_data : Node
  analyze_with_pandas build_evidence determine_attribution build_report_ir validate_report : Node
  render_report : Node

-- The keys that decide the way through the graph and belong to `validate_report`, and the rest of
-- the state, of a type parameter.
pub record AgentState (X : Type 0) : Type 0 where
  pub report_valid : Bool
  pub report_retry_count : ℕ
  pub rest : X

pub data AgentFault : Type 0 where
  -- `AgentExecutionError`: error_code, user_message
  agent_execution_error : String → String → AgentFault
  -- `TaskCancelledError`
  task_cancelled : AgentFault
  -- LangGraph's `GraphRecursionError`
  graph_recursion_error : AgentFault
  other_error : AgentFault

abbrev pub AgentRun : Type 0 → Type 0 → Type 0
AgentRun S A = Run AgentFault S A
