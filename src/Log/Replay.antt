-- ===== src/Log/Replay.antt =====
-- What a client knows of a task from its events: the last status that was reported, and whether the
-- run was reported as done.
use baa_system.Base.{ℕ, suc, ◌≡◌, refl, Bool, true, false, Option, none, some, List, [], ◌∷◌, ◌++◌}
use baa_system.Models.{AnalysisTask, EventBody, TaskEvent, TaskStatus, running}
use baa_system.Events.{build_events}

abbrev pub View : Type 0
View = Option (TaskStatus × Bool)

abbrev pub observe : View → EventBody → View
observe view (EventBody.message_start _ _ _ _ _) = view
observe view (EventBody.task_status status _) = some (status, false)
observe view (EventBody.cancel_pending status _) = some (status, false)
observe view (EventBody.retry_status status _ _) = some (status, false)
observe view (EventBody.node_status _ _ _ _) = some (running, false)
observe view (EventBody.report_retried _ _) = some (running, false)
observe view (EventBody.tool_start _ _ _ _ _ _) = view
observe view (EventBody.tool_finish _ _ _ _ _ _) = view
observe view (EventBody.message_delta _ _ _) = view
observe view (EventBody.result_ready _ _) = view
observe view (EventBody.error _ _) = view
observe view (EventBody.clarification_required _) = view
observe view (EventBody.done status _) = some (status, true)

-- The view after a list of events, and after a list of payloads.
abbrev pub replay_from : View → List TaskEvent → View
replay_from view [] = view
replay_from view (e ∷ es) = replay_from (observe view e.body) es

abbrev pub observe_all : View → List EventBody → View
observe_all view [] = view
observe_all view (body ∷ specs) = observe_all (observe view body) specs

abbrev pub replay : List TaskEvent → View
replay es = replay_from none es

pub replay_from-append :
    (view : View) (es fs : List TaskEvent)
    → replay_from view (es ++ fs) ≡ replay_from (replay_from view es) fs
replay_from-append view [] fs = refl
replay_from-append view (e ∷ es) fs = replay_from-append (observe view e.body) es fs

pub replay_from-build_events :
    (view : View) (task : AnalysisTask) (now n : ℕ) (specs : List EventBody)
    → replay_from view (build_events task now n specs) ≡ observe_all view specs
unfolding build_events
replay_from-build_events view task now n [] = refl
replay_from-build_events view task now n (body ∷ specs) =
    replay_from-build_events (observe view body) task now (suc n) specs
