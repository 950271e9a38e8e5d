-- ===== src/DataAgent/Action.antt =====
-- The exceptions of the data agent, and its code that calls the model and the database.
use baa_system.Base.{String, ℕ}
pub use baa_system.Outcome.{
  returned, raised, continue, recover, ◌>>=◌, ◌>>◌, pure, raise, on_failure, lift,
}
use baa_system.Outcome.{Outcome, Run}
use baa_system.DataAgent.Schemas.{DataAgentError}

-- The classes of exceptions that the code tells apart.
pub data Failure : Type 0 where
  data_agent_error : DataAgentError → Failure
  sqlalchemy_error timeout_error other_exception : Failure

abbrev pub Answer : Type 0 → Type 0
Answer A = Outcome Failure A

abbrev pub Act : Type 0 → Type 0 → Type 0
Act S A = Run Failure S A

abbrev pub agent_error : String → String → ℕ → Failure
agent_error code message status_code =
    data_agent_error (record { code = code; message = message; status_code = status_code })
