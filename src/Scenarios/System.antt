-- ===== src/Scenarios/System.antt =====
-- The theorems on whole runs, applied to a task that is created, claimed and cancelled.
use baa_system.Base.{none}
use baa_system.Models.{AnalysisTask, running, cancelled}
use baa_system.Redis.{View}
use baa_system.Tasks.World.{World}
use baa_system.Tasks.Transition.{transition, moved}
use baa_system.Worker.Process.{no_args, claim_args}
use baa_system.Tasks.Emitter.{emit_node}
use baa_system.Scenarios.World.{memory, queued_world, running_world, queued_task}

-- The run's first node announces itself.
abbrev announced_world : World View
announced_world = emit_node memory 25 12 "load_context" "started" none none running_world

-- The task is cancelled before a worker takes it, and a worker then tries to claim it.
abbrev cancelled_world : World View
cancelled_world = (transition memory 15 12 cancelled no_args queued_world).1

abbrev late_world : World View
late_world = (transition memory 20 12 running claim_args cancelled_world).1

abbrev cancelled_task : AnalysisTask
cancelled_task = moved 15 cancelled no_args queued_task
