-- ===== src/Agent/Termination.antt =====
-- How a run of the graph ends.
use mathlib.Core.Path.{subst}
use baa_system.Base.{
  ℕ, zero, suc, ◌≤◌, ◌≡◌, ◌≢◌, refl, false, Option, none, some, inl, inr, arith, leb, by_test,
  by_option, ◌&&◌, ltb,
}
use baa_system.Outcome.{returned, raised, Ends, Ends-of, Yields, Yields-then, Yields-try, pure}
use baa_system.Agent.State
use baa_system.Agent.State.{
  AgentState, AgentFault, AgentRun, agent_execution_error, graph_recursion_error, load_context,
  define_problem, ask_clarification, build_analysis_plan, query_data, validate_data,
  analyze_with_pandas, build_evidence, determine_attribution, build_report_ir, validate_report,
  render_report,
}
use baa_system.Agent.Runtime.{
  Emitter, NodeStatus, wrap_node, announce_retry, node_error_code, is_report_node, started,
  finished, node_failed,
}
use baa_system.Agent.Measure.{
  steps_left, report_left, steps_left_positive, IsSettled, Enters, Follows, Fewer, next_node_lem,
}
use baa_system.Agent.Graph.{
  Nodes, report_invalid, validate_report_node, other_node, run_node, next_node, run_from, invoke,
}

abbrev pub NotRecursion : AgentFault → Type 0
NotRecursion e = e ≢ graph_recursion_error

-- It does not raise LangGraph's error.
abbrev pub Quiet : {S A : Type 0} → AgentRun S A → Type 0
Quiet {S} {A} m = Yields (λ _. Unit {0}) NotRecursion m

pub record QuietOutside {S X : Type 0} (nodes : Nodes S X) (emitter : Emitter S)
    (check_cancelled : AgentRun S (Unit {0})) : Type 0 where
  pub run : (name : State.Node) (x : X) → Quiet (nodes.run name x)
  pub node : (name : State.Node) (status : NodeStatus) → Quiet (emitter.node name status)
  pub report_retry : (n : ℕ) → Quiet (emitter.report_retry n)
  pub cancelled : Quiet check_cancelled

module _ {S X : Type 0} (nodes : Nodes S X) (emitter : Emitter S)
    (check_cancelled : AgentRun S (Unit {0}))
    (quiet : QuietOutside nodes emitter check_cancelled) where
  other_node-Follows :
      (name : State.Node) (P : AgentState X → Type 0) (state : AgentState X)
      → ((s : S) (x : X)
          → (nodes.run name state.rest s).0 ≡ returned x
          → P (record state { rest = x }))
      → Yields P NotRecursion (other_node nodes name state)
  unfolding other_node
  other_node-Follows name P state h s =
      Yields-then (λ x. P (record state { rest = x })) P NotRecursion
        (λ _. nodes.run name state.rest s) (λ rest. pure (record state { rest = rest }))
        (λ _.
          Ends-of (λ x. P (record state { rest = x })) NotRecursion (nodes.run name state.rest s).0
            (h s) (λ e r. raises e r))
        (λ x p _. p) s
    where
      raises : (e : AgentFault) → (nodes.run name state.rest s).0 ≡ raised e → NotRecursion e
      raises e r = subst (Ends (λ _. Unit {0}) NotRecursion) r (quiet.run name state.rest s)

  validate_report_node-Follows :
      (state : AgentState X)
      → Ends (Follows nodes validate_report state) NotRecursion (validate_report_node nodes state)
  unfolding validate_report_node
  validate_report_node-Follows state =
      by_option (Ends (Follows nodes validate_report state) NotRecursion)
        (nodes.validate state.rest) _ _
        (λ _.
          by_test (Ends (Follows nodes validate_report state) NotRecursion)
            (leb 1 state.report_retry_count) (raised report_invalid)
            (returned (record state {
              report_valid = false;
              report_retry_count = suc state.report_retry_count;
            }))
            (λ _ e. cc) (λ first. inr (refl, ground arith, ground arith)))
        (λ rest _. inl (refl, refl))

  run_node-Follows :
      (name : State.Node) (state : AgentState X)
      → Yields (Follows nodes name state) NotRecursion (run_node nodes name state)
  unfolding run_node
  run_node-Follows validate_report state = λ s. validate_report_node-Follows state
  run_node-Follows ask_clarification state =
      other_node-Follows ask_clarification (Follows nodes ask_clarification state) state
        (λ s x e. (s, e))
  run_node-Follows load_context state =
      other_node-Follows load_context (Follows nodes load_context state) state
        (λ s x e. (refl, refl))
  run_node-Follows define_problem state =
      other_node-Follows define_problem (Follows nodes define_problem state) state
        (λ s x e. (refl, refl))
  run_node-Follows build_analysis_plan state =
      other_node-Follows build_analysis_plan (Follows nodes build_analysis_plan state) state
        (λ s x e. (refl, refl))
  run_node-Follows query_data state =
      other_node-Follows query_data (Follows nodes query_data state) state (λ s x e. (refl, refl))
  run_node-Follows validate_data state =
      other_node-Follows validate_data (Follows nodes validate_data state) state
        (λ s x e. (refl, refl))
  run_node-Follows analyze_with_pandas state =
      other_node-Follows analyze_with_pandas (Follows nodes analyze_with_pandas state) state
        (λ s x e. (refl, refl))
  run_node-Follows build_evidence state =
      other_node-Follows build_evidence (Follows nodes build_evidence state) state
        (λ s x e. (refl, refl))
  run_node-Follows determine_attribution state =
      other_node-Follows determine_attribution (Follows nodes determine_attribution state) state
        (λ s x e. (refl, refl))
  run_node-Follows build_report_ir state =
      other_node-Follows build_report_ir (Follows nodes build_report_ir state) state
        (λ s x e. (refl, refl))
  run_node-Follows render_report state =
      other_node-Follows render_report (Follows nodes render_report state) state
        (λ s x e. (refl, refl))

  announce_retry-Quiet :
      (name : State.Node) (n : ℕ) → Quiet (announce_retry emitter check_cancelled name n)
  unfolding announce_retry
  announce_retry-Quiet name n =
      by_test Quiet (is_report_node name && ltb 0 n) (emitter.report_retry n) (pure tt)
        (λ _. quiet.report_retry n) (λ _ s. tt)

  -- The wrapper raises what the node raises, or what stands outside.
  wrap_node-Yields :
      (name : State.Node) (P : AgentState X → Type 0)
      (node : AgentState X → AgentRun S (AgentState X)) (state : AgentState X)
      → Yields P NotRecursion (node state)
      → Yields P NotRecursion (wrap_node emitter check_cancelled name node state)
  unfolding wrap_node
  wrap_node-Yields name P node state h =
      Yields-then (λ _. Unit {0}) P NotRecursion check_cancelled _ quiet.cancelled
        λ _ _.
          Yields-then (λ _. Unit {0}) P NotRecursion _ _
            (announce_retry-Quiet name state.report_retry_count)
            λ _ _.
              Yields-then (λ _. Unit {0}) P NotRecursion (emitter.node name started) _
                (quiet.node name started)
                λ _ _.
                  Yields-then P P NotRecursion _ _
                    (Yields-try P NotRecursion NotRecursion _ _
                      (Yields-then P P NotRecursion (node state) _ h (λ update p.
                        Yields-then (λ _. Unit {0}) P NotRecursion check_cancelled _ quiet.cancelled
                          (λ _ _ _. p)))
                      (λ e known.
                        Yields-then (λ _. Unit {0}) P NotRecursion
                          (emitter.node name (node_failed (node_error_code e))) _
                          (quiet.node name (node_failed (node_error_code e))) (λ _ _ _. known)))
                    λ update p.
                      Yields-then (λ _. Unit {0}) P NotRecursion (emitter.node name finished) _
                        (quiet.node name finished) (λ _ _ _. p)

  continue_from :
      (limit : ℕ) (next : Option State.Node) (count : ℕ) (name : State.Node) (state' : AgentState X)
      → steps_left name count ≤ suc limit
      → ((next' : State.Node)
          → Enters nodes next' state'
          → steps_left next' state'.report_retry_count ≤ limit
          → Yields
              (IsSettled nodes)
              NotRecursion
              (run_from nodes emitter check_cancelled limit next' state'))
      → Ends {E = State.Node} {A = Unit {0}}
          (λ _. (IsSettled nodes) state')
          (Fewer nodes name count state')
          (elim next [ none ↦ returned tt | some next' ↦ raised next' ])
      → Yields {S = S} {A = AgentState X} (IsSettled nodes) NotRecursion (elim next [
        | none ↦ pure state'
        | some next' ↦ run_from nodes emitter check_cancelled limit next' state'
      ])
  continue_from limit none count name state' le go settled = λ s. settled
  continue_from limit (some next') count name state' le go fewer =
      go next' fewer.0 (omega (arith, fewer.1))

  run_from-Settled :
      (limit : ℕ) (name : State.Node) (state : AgentState X)
      → steps_left name state.report_retry_count ≤ limit
      → Enters nodes name state
      → Yields
          (IsSettled nodes)
          NotRecursion
          (run_from nodes emitter check_cancelled limit name state)
  unfolding run_from
  run_from-Settled zero name state le h =
      let left = steps_left_positive name state.report_retry_count in λ s. absurd (omega arith)
  run_from-Settled (suc limit) name state le h =
      Yields-then (Follows nodes name state) (IsSettled nodes) NotRecursion _ _
        (wrap_node-Yields name (Follows nodes name state) (run_node nodes name) state
          (run_node-Follows name state))
        (λ state' f.
          continue_from limit (next_node nodes name state') state.report_retry_count name state' le
            (λ next' enters fits. run_from-Settled limit next' state' fits enters)
            (next_node_lem nodes name state state' h f))

  -- If nothing outside raises LangGraph's recursion error, neither does a run of the graph: it ends
  -- within the limit of 25 nodes. And a state that it returns has a valid report, or it is what
  -- `ask_clarification` made of a state with missing fields.
  pub invoke-Settled :
      (initial : X) (s : S)
      → Ends (IsSettled nodes) NotRecursion (invoke nodes emitter check_cancelled initial s).0
  unfolding invoke steps_left report_left
  invoke-Settled initial s =
      run_from-Settled 25 load_context
        (record { report_valid = false; report_retry_count = 0; rest = initial }) (omega arith) tt s
