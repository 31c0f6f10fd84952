-- ===== src/Nodes/Records.antt =====
-- protocol/executor_node.py, and the stored record and the connection view of
-- executors/node/registry.py.
use newbro.Prelude.{String, List, Bool, Option}

pub record ExecutorSkill : Type 0 where
  pub name : String
  pub display_name : String
  pub description : String
  pub hint : Option String
  pub path : String
  pub enabled : Bool

pub record ExecutorNodeExecutor : Type 0 where
  pub executor_type : String
  pub supports_resume : Bool
  pub supports_follow_up : Bool
  pub supports_audio_instruction : Bool
  pub supports_thread_list : Bool
  pub supports_pause : Bool
  pub supports_cancel : Bool
  pub version : Option String
  pub minimum_version : Option String
  pub availability_reason : Option String
  pub skills : List ExecutorSkill

pub data ConnectionStatus : Type 0 where
  connected disconnected : ConnectionStatus

pub record ExecutorNodeRecord : Type 0 where
  pub node_id : String
  pub name : String
  pub enabled_executors : List String
  pub acpx_agent : Option String
  pub connected_executors : List String
  pub connection_status : ConnectionStatus
  pub token_hint : Option String
  pub last_connected_at : Option String
  pub last_seen_at : Option String
  pub connected_executor_capabilities : List ExecutorNodeExecutor

pub record ExecutorNodeCredentialIssue : Type 0 where
  pub node : ExecutorNodeRecord
  pub token : String

pub record StoredExecutorNodeRecord : Type 0 where
  pub node_id : String
  pub name : String
  pub enabled_executors : List String
  pub acpx_agent : Option String
  pub raw_token : Option String
  pub token_hash : String
  pub token_hint : String
  pub last_connected_at : Option String
  pub last_seen_at : Option String

pub record ExecutorNodeConnectionView : Type 0 where
  pub is_connected : Bool
  pub executors : List String
  pub executor_capabilities : List ExecutorNodeExecutor
