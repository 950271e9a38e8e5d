-- ===== src/Agent/Graph.antt =====
-- The graph of backend/app/agent/graph.py, run as LangGraph runs it, with the node
-- `validate_report` of backend/app/agent/nodes/validate_report.py.
use baa_system.Base.{ℕ, zero, suc, Bool, true, false, Option, none, some, leb, if◌then◌else◌}
use baa_system.Outcome.{Outcome, returned, raised, lift, ◌>>=◌, pure, raise}
use baa_system.Agent.State
use baa_system.Agent.State.{
  AgentState, AgentRun, agent_execution_error, graph_recursion_error, load_context, define_problem,
  ask_clarification, build_analysis_plan, query_data, validate_data, analyze_with_pandas,
  build_evidence, determine_attribution, build_report_ir, validate_report, render_report,
}
use baa_system.Agent.Runtime.{Emitter, wrap_node}

-- The other nodes. Of the keys of `validate_report` only `build_report_ir` sets one, `report_valid`
-- to false, which it is already: it is true only on the way to `render_report`.
pub record Nodes (S X : Type 0) : Type 0 where
  pub run : State.Node → X → AgentRun S X
  -- `bool(state.get("problem_definition", {}).get("missing_fields"))`
  pub missing_fields : X → Bool
  -- `ReportIR.model_validate` of the report in the state: the state with the report as it is
  -- dumped, or `none` for a `ValidationError`; `build_report_ir`, which comes before, has put a
  -- report there
  pub validate : X → Option X

abbrev pub report_invalid : State.AgentFault
report_invalid = agent_execution_error "REPORT_INVALID" "报告结构校验失败，未生成不可验证的正式报告"

module _ {S X : Type 0} (nodes : Nodes S X) where
  -- The node `validate_report`.
  unfoldable pub validate_report_node : AgentState X → Outcome State.AgentFault (AgentState X)
  validate_report_node state = elim (nodes.validate state.rest) [
    | some rest ↦ returned (record state { report_valid = true; rest = rest })
    | none ↦
        if leb 1 state.report_retry_count
        then raised report_invalid
        else returned (record state {
          report_valid = false;
          report_retry_count = suc state.report_retry_count;
        })
  ]

  unfoldable pub other_node : State.Node → AgentState X → AgentRun S (AgentState X)
  other_node name state = nodes.run name state.rest >>= λ rest. pure (record state { rest = rest })

  unfoldable pub run_node : State.Node → AgentState X → AgentRun S (AgentState X)
  unfolding validate_report_node other_node
  run_node validate_report state = lift (validate_report_node state)
  run_node load_context state = other_node load_context state
  run_node define_problem state = other_node define_problem state
  run_node ask_clarification state = other_node ask_clarification state
  run_node build_analysis_plan state = other_node build_analysis_plan state
  run_node query_data state = other_node query_data state
  run_node validate_data state = other_node validate_data state
  run_node analyze_with_pandas state = other_node analyze_with_pandas state
  run_node build_evidence state = other_node build_evidence state
  run_node determine_attribution state = other_node determine_attribution state
  run_node build_report_ir state = other_node build_report_ir state
  run_node render_report state = other_node render_report state

  -- The edges; `none` is END.
  unfoldable pub next_node : State.Node → AgentState X → Option State.Node
  next_node load_context state = some define_problem
  next_node define_problem state =
      some (if nodes.missing_fields state.rest then ask_clarification else build_analysis_plan)
  next_node ask_clarification state = none
  next_node build_analysis_plan state = some query_data
  next_node query_data state = some validate_data
  next_node validate_data state = some analyze_with_pandas
  next_node analyze_with_pandas state = some build_evidence
  next_node build_evidence state = some determine_attribution
  next_node determine_attribution state = some build_report_ir
  next_node build_report_ir state = some validate_report
  next_node validate_report state =
      some (if state.report_valid then render_report else build_report_ir)
  next_node render_report state = none

  module _ (emitter : Emitter S) (check_cancelled : AgentRun S (Unit {0})) where
    -- LangGraph runs one node after the other, up to its recursion limit.
    unfoldable pub run_from : ℕ → State.Node → AgentState X → AgentRun S (AgentState X)
    unfolding next_node run_node
    run_from zero name state = raise graph_recursion_error
    run_from (suc limit) name state =
        wrap_node emitter check_cancelled name (run_node name) state >>= λ state'.
        elim (next_node name state') [ none ↦ pure state' | some next ↦ run_from limit next state' ]

    -- `graph.ainvoke`, with LangGraph's default limit of 25.
    unfoldable pub invoke : X → AgentRun S (AgentState X)
    unfolding run_from
    invoke initial =
        run_from 25 load_context
          (record { report_valid = false; report_retry_count = 0; rest = initial })
