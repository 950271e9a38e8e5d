-- ===== src/Agent/Measure.antt =====
-- The nodes that are left on the way through the graph.
use baa_system.Base.{
  ℕ, zero, suc, ◌+◌, ◌≤◌, ◌≡◌, true, false, none, some, ◌⊎◌, inl, inr, arith, by_test,
  if◌then◌else◌, ap, ◌∙◌,
}
use baa_system.Outcome.{returned, raised, Ends}
use baa_system.Agent.State
use baa_system.Agent.State.{
  AgentState, AgentFault, AgentRun, agent_execution_error, graph_recursion_error, load_context,
  define_problem, ask_clarification, build_analysis_plan, query_data, validate_data,
  analyze_with_pandas, build_evidence, determine_attribution, build_report_ir, validate_report,
  render_report,
}
use baa_system.Agent.Graph.{Nodes, next_node}

-- How many nodes are left, at most, from the building of a report on, and from each node on.
unfoldable pub report_left : ℕ → ℕ
report_left zero = 5
report_left (suc n) = 3

unfoldable pub steps_left : State.Node → ℕ → ℕ
unfolding report_left
steps_left load_context n = 8 + report_left n
steps_left define_problem n = 7 + report_left n
steps_left ask_clarification n = 1
steps_left build_analysis_plan n = 6 + report_left n
steps_left query_data n = 5 + report_left n
steps_left validate_data n = 4 + report_left n
steps_left analyze_with_pandas n = 3 + report_left n
steps_left build_evidence n = 2 + report_left n
steps_left determine_attribution n = 1 + report_left n
steps_left build_report_ir n = report_left n
steps_left validate_report zero = 4
steps_left validate_report (suc n) = 2
steps_left render_report n = 1

report_left_positive : (n : ℕ) → 3 ≤ report_left n
unfolding report_left
report_left_positive zero = omega arith
report_left_positive (suc n) = omega arith

validate_left_positive : (n : ℕ) → 1 ≤ steps_left validate_report n
unfolding steps_left
validate_left_positive zero = omega arith
validate_left_positive (suc n) = omega arith

pub steps_left_positive : (name : State.Node) (n : ℕ) → 1 ≤ steps_left name n
unfolding steps_left
steps_left_positive validate_report n = validate_left_positive n
steps_left_positive _ n = let left = report_left_positive n in omega arith

module _ {S X : Type 0} (nodes : Nodes S X) where
  -- It is what `ask_clarification` made of a state with missing fields.
  abbrev pub IsAsked : AgentState X → Type 0
  IsAsked state =
      (x : X) × (s : S) × (nodes.missing_fields x ≡ true)
      × ((nodes.run ask_clarification x s).0 ≡ returned state.rest)

  abbrev pub IsSettled : AgentState X → Type 0
  IsSettled state = (state.report_valid ≡ true) ⊎ IsAsked state

  -- What holds where a node is entered.
  abbrev pub Enters : State.Node → AgentState X → Type 0
  Enters render_report state = state.report_valid ≡ true
  Enters ask_clarification state = nodes.missing_fields state.rest ≡ true
  Enters _ state = Unit

  -- What a node makes of the state.
  abbrev pub Follows : State.Node → AgentState X → AgentState X → Type 0
  Follows validate_report state state' =
      ((state'.report_valid ≡ true) × (state'.report_retry_count ≡ state.report_retry_count))
      ⊎ ((state'.report_valid ≡ false)
          × (state.report_retry_count ≡ 0)
          × (state'.report_retry_count ≡ 1))
  Follows ask_clarification state state' =
      (s : S) × ((nodes.run ask_clarification state.rest s).0 ≡ returned state'.rest)
  Follows _ state state' =
      (state'.report_retry_count ≡ state.report_retry_count)
      × (state'.report_valid ≡ state.report_valid)

  -- On the way to another node there are fewer nodes left.
  abbrev pub Fewer : State.Node → ℕ → AgentState X → State.Node → Type 0
  Fewer name count state' next =
      Enters next state' × (suc (steps_left next state'.report_retry_count) ≤ steps_left name count)

  fewer_before_report :
      (n : ℕ) (state state' : AgentState X)
      → (state'.report_retry_count ≡ state.report_retry_count)
      → Unit {0}
        × (suc (n + report_left state'.report_retry_count)
            ≤ suc n + report_left state.report_retry_count)
  fewer_before_report n state state' e = let left = ap report_left e in (tt, omega arith)

  fewer_to_validate : (n : ℕ) → suc (steps_left validate_report n) ≤ report_left n
  unfolding steps_left report_left
  fewer_to_validate zero = omega arith
  fewer_to_validate (suc n) = omega arith

  fewer_to_render : (n : ℕ) → 2 ≤ steps_left validate_report n
  unfolding steps_left
  fewer_to_render zero = omega arith
  fewer_to_render (suc n) = omega arith

  after_define :
      (state state' : AgentState X)
      → Follows define_problem state state'
      → Fewer define_problem state.report_retry_count state'
          (if nodes.missing_fields state'.rest then ask_clarification else build_analysis_plan)
  unfolding steps_left
  after_define state state' f =
      let left = ap report_left f.0 in
      by_test (Fewer define_problem state.report_retry_count state')
        (nodes.missing_fields state'.rest) ask_clarification build_analysis_plan
        (λ missing. (missing, omega arith)) (λ _. (tt, omega arith))

  after_validate :
      (state state' : AgentState X)
      → Follows validate_report state state'
      → Fewer validate_report state.report_retry_count state'
          (if state'.report_valid then render_report else build_report_ir)
  unfolding steps_left report_left
  after_validate state state' f =
      by_test (Fewer validate_report state.report_retry_count state') state'.report_valid
        render_report build_report_ir (λ valid. (valid, fewer_to_render state.report_retry_count))
        (λ invalid. elim f [
          | inl (valid, e) ↦ absurd cc
          | inr (_, none_before, one_now) ↦
              let left = ap (steps_left validate_report) none_before in
              let right = ap report_left one_now in (tt, omega arith)
        ])

  pub next_node_lem :
      (name : State.Node) (state state' : AgentState X)
      → Enters name state
      → Follows name state state'
      → Ends {E = State.Node} {A = Unit {0}}
          (λ _. IsSettled state')
          (Fewer name state.report_retry_count state')
          (elim (next_node nodes name state') [ none ↦ returned tt | some next ↦ raised next ])
  unfolding next_node steps_left
  next_node_lem load_context state state' h f = fewer_before_report 7 state state' f.0
  next_node_lem define_problem state state' h f = after_define state state' f
  next_node_lem ask_clarification state state' h f = inr (state.rest, f.0, h, f.1)
  next_node_lem build_analysis_plan state state' h f = fewer_before_report 5 state state' f.0
  next_node_lem query_data state state' h f = fewer_before_report 4 state state' f.0
  next_node_lem validate_data state state' h f = fewer_before_report 3 state state' f.0
  next_node_lem analyze_with_pandas state state' h f = fewer_before_report 2 state state' f.0
  next_node_lem build_evidence state state' h f = fewer_before_report 1 state state' f.0
  next_node_lem determine_attribution state state' h f =
      let left = ap report_left f.0 in (tt, omega arith)
  next_node_lem build_report_ir state state' h f =
      let left = ap (steps_left validate_report) f.0 in
      let fewer = fewer_to_validate state.report_retry_count in (tt, omega arith)
  next_node_lem validate_report state state' h f = after_validate state state' f
  next_node_lem render_report state state' h f = inl (f.1 ∙ h)
