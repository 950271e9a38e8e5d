-- ===== src/Exceptions.antt =====
-- `AppException` with its `ErrorCode` (backend/app/core/exceptions.py), the other exceptions that
-- the task backend raises, and results.
use baa_system.Base.{ℕ, String, Option, none, ◌≡◌, refl}
use baa_system.Models.{TaskStatus}

pub data ErrorCode : Type 0 where
  invalid_argument unauthorized forbidden resource_not_found dependency_unavailable : ErrorCode
  task_already_running task_not_cancellable task_not_retryable report_invalid : ErrorCode
  internal_error : ErrorCode

pub record AppException : Type 0 where
  pub code : ErrorCode
  pub message : String
  pub status_code : ℕ
  -- `data={"task_id": ..., "task_status": ...}`, where it is given
  pub active_task : Option (ℕ × TaskStatus)

pub data Error : Type 0 where
  app_exception : AppException → Error
  -- SQLAlchemy's `IntegrityError`, raised again
  integrity_error : Error

pub data Result (A : Type 0) : Type 0 where
  ok : A → Result A
  err : Error → Result A

abbrev pub app_error : ErrorCode → String → ℕ → Error
app_error code message status_code =
    app_exception
      (record { code = code; message = message; status_code = status_code; active_task = none })

abbrev pub task_missing : Error
task_missing = app_error resource_not_found "任务不存在" 404

abbrev pub conversation_missing : Error
conversation_missing = app_error resource_not_found "会话不存在" 404

-- A state change that may raise: what was written stays written.
abbrev pub Action : Type 0 → Type 0 → Type 0
Action W A = W → Result A × W

-- A property of a `try`, from its two ends.
pub by_result {ℓ κ} :
    {A : Type 0} {B : Type ℓ} (P : B → Type κ) (r : Result A) (f : A → B) (g : Error → B)
    → ((a : A) → r ≡ ok a → P (f a))
    → ((e : Error) → r ≡ err e → P (g e))
    → P (elim r [ ok a ↦ f a | err e ↦ g e ])
by_result P (ok a) f g h k = h a refl
by_result P (err e) f g h k = k e refl

pub ok-ne-err : {A : Type 0} {a : A} {e : Error} → ok a ≡ err e → ⊥
ok-ne-err h = cc
