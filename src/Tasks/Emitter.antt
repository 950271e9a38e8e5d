-- ===== src/Tasks/Emitter.antt =====
-- `AgentEventEmitter` (backend/app/agent/events.py): what the nodes and tools of a run write into
-- their task's row and log. The rows of `task_logs`, which nothing reads, are left out.
use baa_system.Base.{
  ℕ, ◌+◌, Bool, ◌&&◌, false, not, Option, none, some, [], ◌∷◌, String, same_text, if◌then◌else◌,
}
use baa_system.Models.{AnalysisTask, EventBody, running, status_eq}
use baa_system.Events.{publish}
use baa_system.Redis.{RedisClient}
use baa_system.Repository.{get_by_id}
use baa_system.Tasks.World.{World, flush}

-- `if error_code:`, and so for `summary`.
abbrev pub given : Option String → Option String
given none = none
given (some String.[]) = none
given (some text) = some text

abbrev pub tool_body :
    String → String → String → Option String → Option ℕ → Option String → EventBody
tool_body node_name tool_name tool_status summary duration_ms error_code =
    if same_text tool_status "started"
    then EventBody.tool_start node_name tool_name tool_status (given summary) duration_ms
        (given error_code)
    else EventBody.tool_finish node_name tool_name tool_status (given summary) duration_ms
        (given error_code)

-- Is this step the current one? Then the row does not change.
abbrev pub is_current : String → Option String → Bool
is_current step none = false
is_current step (some current) = same_text current step

-- The row after the event of a node.
unfoldable pub at_node : ℕ → String → AnalysisTask → AnalysisTask
at_node now node_name task =
    if status_eq task.task_status running && not (is_current node_name task.current_step)
    then record task { current_step = some node_name; updated_at = now }
    else task

-- The row after a second report has been announced.
unfoldable pub retried_report : ℕ → AnalysisTask → AnalysisTask
retried_report now task = record task { retry_count = task.retry_count + 1; updated_at = now }

module _ {S : Type 0} (redis : RedisClient S) where
  -- A changed row is stored with its event, which is published afterwards.
  unfoldable pub persist_row : ℕ → AnalysisTask → EventBody → World S → World S
  persist_row now task body w =
      let (db', events) = flush w.db now task (body ∷ []) in
      record { db = db'; redis = publish redis events w.redis }

  unfoldable pub emit_node : ℕ → ℕ → String → String → Option ℕ → Option String → World S → World S
  unfolding at_node persist_row
  emit_node now task_id node_name node_status duration_ms error_code w =
      elim (get_by_id w.db task_id) [
        | none ↦ w
        | some task ↦
            persist_row now (at_node now node_name task)
              (EventBody.node_status node_name node_status duration_ms (given error_code)) w
      ]

  unfoldable pub emit_tool :
      ℕ
      → ℕ
      → String
      → String
      → String
      → Option String
      → Option ℕ
      → Option String
      → World S
      → World S
  unfolding persist_row
  emit_tool now task_id node_name tool_name tool_status summary duration_ms error_code w =
      elim (get_by_id w.db task_id) [
        | none ↦ w
        | some task ↦
            persist_row now task
              (tool_body node_name tool_name tool_status summary duration_ms error_code) w
      ]

  unfoldable pub emit_report_retry : ℕ → ℕ → ℕ → World S → World S
  unfolding retried_report persist_row
  emit_report_retry now task_id report_retry_count w = elim (get_by_id w.db task_id) [
    | none ↦ w
    | some task ↦
        let task' = retried_report now task in
        persist_row now task' (EventBody.report_retried task'.retry_count report_retry_count) w
  ]
