-- ===== src/Agent/Runtime.antt =====
-- `AgentRuntime` of backend/app/agent/runtime.py. The emitter of events, the check for a
-- cancellation and the nodes stand outside. Durations are left out.
use baa_system.Base.{ℕ, Bool, true, false, ◌&&◌, Option, String, ltb, if◌then◌else◌}
use baa_system.Outcome.{◌>>=◌, ◌>>◌, pure, raise, on_failure}
use baa_system.Agent.State.{
  Node, AgentState, AgentFault, AgentRun, agent_execution_error, task_cancelled,
  graph_recursion_error, other_error, build_report_ir,
}

-- `ToolResult`, with what the tool gives.
pub record ToolResult (A : Type 0) : Type 0 where
  pub ok : Bool
  pub summary : String
  pub error_code : Option String
  pub output : A

-- `node_status` and the error code of a node's event.
pub data NodeStatus : Type 0 where
  started finished : NodeStatus
  node_failed : String → NodeStatus

pub data ToolStatus : Type 0 where
  tool_started : ToolStatus
  -- ok, summary, error_code
  tool_finished : Bool → String → Option String → ToolStatus

pub record Emitter (S : Type 0) : Type 0 where
  pub node : Node → NodeStatus → AgentRun S (Unit {0})
  -- the node, the name of the tool
  pub tool : Node → String → ToolStatus → AgentRun S (Unit {0})
  pub report_retry : ℕ → AgentRun S (Unit {0})

abbrev pub is_report_node : Node → Bool
is_report_node build_report_ir = true
is_report_node _ = false

-- The error code of the event for a failed node.
unfoldable pub node_error_code : AgentFault → String
node_error_code (agent_execution_error code message) = code
node_error_code task_cancelled = "UNEXPECTED_NODE_ERROR"
node_error_code graph_recursion_error = "UNEXPECTED_NODE_ERROR"
node_error_code other_error = "UNEXPECTED_NODE_ERROR"

module _ {S : Type 0} (emitter : Emitter S) (check_cancelled : AgentRun S (Unit {0})) where
  -- The event for the second report.
  unfoldable pub announce_retry : Node → ℕ → AgentRun S (Unit {0})
  announce_retry node_name report_retry_count =
      if is_report_node node_name && ltb 0 report_retry_count
      then emitter.report_retry report_retry_count
      else pure tt

  unfoldable pub wrap_node :
      {X : Type 0}
      → Node
      → (AgentState X → AgentRun S (AgentState X))
      → AgentState X
      → AgentRun S (AgentState X)
  unfolding announce_retry node_error_code
  wrap_node node_name node state = do
    unless ← check_cancelled
    announced ← announce_retry node_name state.report_retry_count
    begun ← emitter.node node_name started
    update ←
        on_failure (node state >>= λ update. (check_cancelled >> pure update))
          (λ e. (emitter.node node_name (node_failed (node_error_code e)) >> raise e))
    ended ← emitter.node node_name finished
    pure update

  unfoldable pub run_tool :
      {A : Type 0} → Node → String → AgentRun S (ToolResult A) → AgentRun S (ToolResult A)
  run_tool node_name tool_name operation = do
    unless ← check_cancelled
    begun ← emitter.tool node_name tool_name tool_started
    result ← operation
    ended ←
        emitter.tool node_name tool_name (tool_finished result.ok result.summary result.error_code)
    still ← check_cancelled
    pure result
