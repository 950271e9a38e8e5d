-- ===== src/Lifecycle/Emissions.antt =====
-- The invariant, and the ways of tasks, through the events of nodes and tools and the storing of
-- results.
use mathlib.Core.Path.{◌∙◌}
use baa_system.Base.{
  ℕ, String, ◌≡◌, refl, sym, ap, Option, some, List, [], ◌∷◌, arith, inl, by_option, by_test,
  same_text,
}
use baa_system.Models.{AnalysisTask, Database, EventBody, running}
use baa_system.Redis.{RedisClient}
use baa_system.Repository.{get_by_id, get_by_id_key, events_of}
use baa_system.Tasks.World.{World, is_terminal, flush}
use baa_system.Tasks.Emitter.{
  at_node, retried_report, tool_body, persist_row, emit_node, emit_tool, emit_report_retry,
}
use baa_system.Log.Replay.{observe_all, replay}
use baa_system.Lifecycle.Invariant.{RowIsValid, IsValid}
use baa_system.Lifecycle.Requests.{replaced}
use baa_system.Lifecycle.Advance.{Advances, Advances-same, flush-Advances}

-- A log of a stored task, under the key of its row.
pub own_replay :
    (db : Database) (id : ℕ) (t : AnalysisTask)
    → IsValid db
    → get_by_id db id ≡ some t
    → replay (events_of t.id db.events) ≡ some (t.task_status, is_terminal t.task_status)
own_replay db id t v h = rw (get_by_id_key db id t h) (v.logged id t h)

at_node-RowIsValid :
    (db : Database) (now : ℕ) (node_name : String) (t : AnalysisTask)
    → RowIsValid db t
    → RowIsValid db (at_node now node_name t)
unfolding at_node
at_node-RowIsValid db now node_name t r = ground arith

at_node_status :
    (now : ℕ) (node_name : String) (t : AnalysisTask)
    → (at_node now node_name t).task_status ≡ t.task_status
unfolding at_node
at_node_status now node_name t = ground arith

at_node_key :
    (now : ℕ) (node_name : String) (t : AnalysisTask) → (at_node now node_name t).id ≡ t.id
unfolding at_node
at_node_key now node_name t = ground arith

retried_report-RowIsValid :
    (db : Database) (now : ℕ) (t : AnalysisTask)
    → RowIsValid db t
    → RowIsValid db (retried_report now t)
unfolding retried_report
retried_report-RowIsValid db now t r = ground arith

observe-tool_body :
    (node_name tool_name tool_status : String) (summary : Option String) (duration_ms : Option ℕ)
    (error_code : Option String) (view : _)
    → observe_all view
        (tool_body node_name tool_name tool_status summary duration_ms error_code ∷ [])
      ≡ view
observe-tool_body node_name tool_name tool_status summary duration_ms error_code view =
    by_test (λ body. observe_all view (body ∷ []) ≡ view) (same_text tool_status "started") _ _
      (λ _. refl) (λ _. refl)

module _ {S : Type 0} (redis : RedisClient S) (w : World S) where
  abbrev Keeps : World S → Type 0
  Keeps u = IsValid u.db

  abbrev Follows : World S → Type 0
  Follows u = Advances w.db u.db

  -- A row that replaces the stored one, with an event.
  stored_row :
      (now id : ℕ) (t t' : AnalysisTask) (specs : List EventBody)
      → get_by_id w.db id ≡ some t
      → t'.id ≡ t.id
      → t'.task_status ≡ t.task_status
      → Advances w.db (flush w.db now t' specs).0
  stored_row now id t t' specs h key same =
      flush-Advances w.db now t' t specs (ap (get_by_id w.db) (key ∙ get_by_id_key w.db id t h) ∙ h)
        (inl (sym same))

  -- Nodes announce themselves while their task is running.
  pub emit_node-IsValid :
      (now id : ℕ) (node_name node_status : String) (duration_ms : Option ℕ)
      (error_code : Option String)
      → ((t : AnalysisTask) → get_by_id w.db id ≡ some t → t.task_status ≡ running)
      → IsValid w.db
      → IsValid (emit_node redis now id node_name node_status duration_ms error_code w).db
  unfolding emit_node persist_row
  emit_node-IsValid now id node_name node_status duration_ms error_code runs v =
      by_option Keeps (get_by_id w.db id) _ _ (λ _. v)
        λ t h.
          replaced w.db now id t v h (at_node now node_name t) _ (at_node_key now node_name t)
            (at_node-RowIsValid w.db now node_name t (v.row id t h))
            (rw (at_node_status now node_name t, runs t h) refl)

  pub emit_node-Advances :
      (now id : ℕ) (node_name node_status : String) (duration_ms : Option ℕ)
      (error_code : Option String)
      → Advances w.db (emit_node redis now id node_name node_status duration_ms error_code w).db
  unfolding emit_node persist_row
  emit_node-Advances now id node_name node_status duration_ms error_code =
      by_option Follows (get_by_id w.db id) _ _ (λ _. Advances-same w.db w.db (λ _. refl) refl)
        λ t h.
          stored_row now id t (at_node now node_name t) _ h (at_node_key now node_name t)
            (at_node_status now node_name t)

  pub emit_tool-IsValid :
      (now id : ℕ) (node_name tool_name tool_status : String) (summary : Option String)
      (duration_ms : Option ℕ) (error_code : Option String)
      → IsValid w.db
      → IsValid
          (emit_tool redis now id node_name tool_name tool_status summary duration_ms error_code
            w).db
  unfolding emit_tool persist_row
  emit_tool-IsValid now id node_name tool_name tool_status summary duration_ms error_code v =
      by_option Keeps (get_by_id w.db id) _ _ (λ _. v)
        λ t h. replaced w.db now id t v h t _ refl (v.row id t h) (
          observe-tool_body node_name tool_name tool_status summary duration_ms error_code _
          ∙ own_replay w.db id t v h)

  pub emit_tool-Advances :
      (now id : ℕ) (node_name tool_name tool_status : String) (summary : Option String)
      (duration_ms : Option ℕ) (error_code : Option String)
      → Advances w.db
          (emit_tool redis now id node_name tool_name tool_status summary duration_ms error_code
            w).db
  unfolding emit_tool persist_row
  emit_tool-Advances now id node_name tool_name tool_status summary duration_ms error_code =
      by_option Follows (get_by_id w.db id) _ _ (λ _. Advances-same w.db w.db (λ _. refl) refl)
        λ t h. stored_row now id t t _ h refl refl

  pub emit_report_retry-IsValid :
      (now id report_retry_count : ℕ)
      → ((t : AnalysisTask) → get_by_id w.db id ≡ some t → t.task_status ≡ running)
      → IsValid w.db
      → IsValid (emit_report_retry redis now id report_retry_count w).db
  unfolding emit_report_retry persist_row
  emit_report_retry-IsValid now id report_retry_count runs v =
      by_option Keeps (get_by_id w.db id) _ _ (λ _. v)
        λ t h.
          replaced w.db now id t v h (retried_report now t) _ (unfold retried_report in refl)
            (retried_report-RowIsValid w.db now t (v.row id t h))
            (unfold retried_report in rw (runs t h) refl)

  pub emit_report_retry-Advances :
      (now id report_retry_count : ℕ)
      → Advances w.db (emit_report_retry redis now id report_retry_count w).db
  unfolding emit_report_retry persist_row
  emit_report_retry-Advances now id report_retry_count =
      by_option Follows (get_by_id w.db id) _ _ (λ _. Advances-same w.db w.db (λ _. refl) refl)
        λ t h.
          stored_row now id t (retried_report now t) _ h (unfold retried_report in refl)
            (unfold retried_report in refl)
