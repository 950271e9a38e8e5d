-- ===== src/DataAgent/Schemas.antt =====
-- The requests and answers of backend/app/data_agent/schemas.py, the error of
-- backend/app/data_agent/errors.py, and the settings that the data agent reads. Seconds are of a
-- type parameter, since they are floats. A row is of a type parameter.
use baa_system.Base.{ℕ, Bool, Option, List, String}

pub record QueryLimits (F : Type 0) : Type 0 where
  pub max_returned_rows : ℕ
  pub max_scanned_rows : ℕ
  pub timeout_seconds : F

pub record QueryRequest (F : Type 0) : Type 0 where
  pub objective : String
  pub user_question : Option String
  pub user_id : String
  pub conversation_id : String
  pub task_id : String
  pub trace_id : String
  pub limits : QueryLimits F

pub record QueryResponse (R : Type 0) : Type 0 where
  pub sql : String
  pub rows : List R
  pub scanned_rows : ℕ
  pub columns : List String
  pub truncated : Bool

pub record DataAgentError : Type 0 where
  pub code : String
  pub message : String
  pub status_code : ℕ

pub record AgentSettings (F : Type 0) : Type 0 where
  -- sorted, without duplicates
  pub data_agent_allowed_table_list : List String
  pub agent_max_rows : ℕ
  pub data_agent_max_scanned_rows : ℕ
  pub data_agent_timeout_seconds : F
  pub data_agent_api_key : String
  pub data_query_model_provider : String
  pub data_query_model_name : String
  pub data_query_model_api_key : String
  pub data_query_model_base_url : String
