-- ===== src/Scenarios/Agent.antt =====
-- The theorems on the analysis graph and its executor, applied to a small set of nodes.
use baa_system.Base.{
  ℕ, suc, ◌≡◌, refl, true, false, Option, none, some, String, leb, if◌then◌else◌, is_blank,
  same_text,
}
use baa_system.Outcome.{returned, Ends, pure}
use baa_system.Tasks.World.{World}
use baa_system.Worker.Process.{WorkerOutcome}
use baa_system.Worker.Process
use baa_system.Agent.State
use baa_system.Agent.State.{AgentState, AgentRun, build_report_ir, ask_clarification}
use baa_system.Agent.Runtime.{Emitter, wrap_node, announce_retry, node_error_code}
use baa_system.Agent.Graph.{
  Nodes, invoke, run_from, run_node, next_node, other_node, validate_report_node,
}
use baa_system.Agent.Executor.{
  Services, success_outcome, execute, execute_graph, execution_end, after_graph, store_result,
  persist,
}
use baa_system.Agent.Measure.{IsSettled}
use baa_system.Agent.Termination.{QuietOutside, NotRecursion, invoke-Settled}
use baa_system.Agent.Outcomes.{Means, execute-Means}
use baa_system.Scenarios.World.{empty_db}

-- The question, and how many reports have been built; the second one is valid.
record Draft : Type 0 where
  question : Option String
  reports : ℕ

abbrev work : State.Node → Draft → Draft
work ask_clarification d = record d { question = some "哪个月？" }
work build_report_ir d = record d { reports = suc d.reports }
work _ d = d

abbrev nodes : Nodes (World ℕ) Draft
nodes = record {
  run = λ name d. pure (work name d);
  missing_fields = λ d. false;
  validate = λ d. if leb 2 d.reports then some d else none;
}

abbrev emitter : Emitter (World ℕ)
emitter = record {
  node = λ name status. pure tt;
  tool = λ name tool status. pure tt;
  report_retry = λ n. pure tt;
}

abbrev services : Services (World ℕ) Draft
services = record {
  persist_report = λ state. pure tt;
  compress_if_needed = λ state. pure tt;
  clarification_question = λ d. d.question;
  initial = λ task_id. record { question = none; reports = 0 };
}

abbrev world : World ℕ
world = record { db = empty_db; redis = 0 }

quiet : QuietOutside nodes emitter (pure tt)
quiet = record {
  run = λ name x s. tt;
  node = λ name status s. tt;
  report_retry = λ n s. tt;
  cancelled = λ s. tt;
}

-- The first report is rejected and built again.
retried :
    (invoke nodes emitter (pure tt) (record { question = none; reports = 0 }) world).0
    ≡ returned (record {
      report_valid = true;
      report_retry_count = 1;
      rest = record { question = none; reports = 2 };
    })
unfolding invoke run_from run_node next_node other_node validate_report_node wrap_node
    announce_retry node_error_code
retried = refl

invoke-Settled_example :
    Ends
      (IsSettled nodes)
      NotRecursion
      (invoke nodes emitter (pure tt) (record { question = none; reports = 0 }) world).0
invoke-Settled_example =
    invoke-Settled nodes emitter (pure tt) quiet (record { question = none; reports = 0 }) world

succeeds :
    (execute nodes services (λ _. emitter) (λ _. pure tt) 5 world).0
    ≡ Process.returned success_outcome
unfolding execute execute_graph execution_end after_graph store_result persist invoke run_from
    run_node next_node other_node validate_report_node wrap_node announce_retry node_error_code
    is_blank same_text
succeeds = refl

execute-Means_example :
    Means nodes services (λ _. emitter) (λ _. pure tt) (λ _. quiet) 5 world success_outcome
execute-Means_example =
    execute-Means nodes services (λ _. emitter) (λ _. pure tt) (λ _. quiet) 5 world success_outcome
      succeeds
