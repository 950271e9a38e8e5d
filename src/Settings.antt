-- ===== src/Settings.antt =====
-- The settings that the task backend reads: class Settings of backend/app/core/config.py.
use baa_system.Base.{ℕ}

pub record Settings : Type 0 where
  pub task_cancel_ttl_seconds : ℕ
  pub task_worker_block_timeout_seconds : ℕ
  pub task_queue_marker_ttl_seconds : ℕ
  pub task_event_replay_limit : ℕ
  pub clarification_timeout_seconds : ℕ
