-- ===== src/Protocol/Records.antt =====
-- protocol/task.py, mutation.py, command.py, task_execution_detail.py, run.py, session.py,
-- summary.py, execution_mode.py, notification.py, persona.py, interaction.py and draft.py: the
-- records that the blackboard holds. Texts stand for ids and time stamps; revisions are counters
-- from 0; a duration is a whole number of clock ticks.
use newbro.Prelude.{ℕ, String, Bool, Option, List}
use newbro.Prelude.Int.{ℤ}
use newbro.Prelude.Json.{Fields}
use newbro.Protocol.Enums.{
  TaskStatus, RunStatus, ExecutionMode, MutationType, TaskCommandType, NotificationPriority,
  NotificationCandidateType, NotificationDeliveryStatus, InteractionRequestKind,
  InteractionRequestStatus, AttentionPriority, AttentionItemKind, AttentionItemStatus,
  AgentEventImportance, AgentEventDelivery, BindingStatus,
}

pub record Task : Type 0 where
  pub task_id : String
  pub root_task_id : String
  pub parent_task_id : Option String
  pub title : String
  pub goal : String
  pub status : TaskStatus
  pub priority : ℤ
  pub interruptible : Bool
  pub requires_confirmation : Bool
  pub preferred_executor : Option String
  pub session_affinity : Option String
  pub task_revision : ℕ
  pub latest_instruction : Option String
  pub metadata : Fields

pub record TaskMutation : Type 0 where
  pub mutation_id : String
  pub task_id : Option String
  pub mutation_type : MutationType
  pub patch : Fields
  pub created_by : String
  pub urgency : String
  pub effective_scope : String
  pub requires_replan : Bool

pub record TaskCommand : Type 0 where
  pub command_id : String
  pub task_id : String
  pub command_type : TaskCommandType
  pub payload : Fields
  pub created_by : String
  pub reason : Option String

pub record TaskExecutionDetailEntry : Type 0 where
  pub detail_id : String
  pub task_id : String
  pub run_id : String
  pub execution_session_id : String
  pub event_type : String
  pub text : String
  pub created_at : String
  pub payload : Fields

pub record ExecutionRun : Type 0 where
  pub run_id : String
  pub task_id : String
  pub execution_session_id : String
  pub executor_type : String
  pub status : RunStatus
  pub claimed_by : Option String
  pub run_revision : ℕ
  pub latest_progress_message : Option String
  pub output_summary : Option String
  pub block_reason : Option String
  pub failure_reason : Option String
  pub metadata : Fields

pub record AgentResumeHandle : Type 0 where
  pub executor_id : String
  pub session_handle : Option String
  pub turn_handle : Option String
  pub opaque : Fields

pub record QueuedRunRequest : Type 0 where
  pub queued_request_id : String
  pub task_id : String
  pub executor_config : Fields
  pub latest_instruction : String
  pub requested_by_message_id : Option String

pub record ExecutionSession : Type 0 where
  pub execution_session_id : String
  pub task_id : String
  pub base_executor_id : String
  pub executor_node_id : Option String
  pub continuity_key : Option String
  pub run_ids : List String
  pub active_run_id : Option String
  pub latest_run_id : Option String
  pub latest_resume_handle : Option AgentResumeHandle
  pub queued_run_request : Option QueuedRunRequest

pub record SessionBinding : Type 0 where
  pub task_id : String
  pub execution_session_id : Option String
  pub executor_node_id : Option String
  pub session_id : Option String
  pub claimed_by : Option String
  pub claim_expires_at : Option String
  pub execution_revision : ℕ
  pub binding_status : BindingStatus

pub record TaskSummary : Type 0 where
  pub task_id : String
  pub operational_summary : Option String
  pub conversational_summary : Option String
  pub latest_user_visible_status : Option String
  pub needs_user_input : Bool

pub record TaskExecutionMode : Type 0 where
  pub task_id : String
  pub mode : ExecutionMode
  pub decided_from_run_id : Option String
  pub elapsed_seconds : ℕ

pub record NotificationCandidate : Type 0 where
  pub candidate_id : String
  pub task_id : String
  pub candidate_type : NotificationCandidateType
  pub priority : NotificationPriority
  pub summary_short : String
  pub source_run_id : Option String
  pub created_at : String
  pub delivery_status : NotificationDeliveryStatus
  pub merge_key : String
  pub requires_immediate_delivery : Bool

pub record Persona : Type 0 where
  pub persona_id : String
  pub name : String
  pub avatar : String
  pub base_prompt : String
  pub executor_node_id : Option String
  pub bro_detail_session_id : String
  pub status : String

pub record InteractionRequest : Type 0 where
  pub request_id : String
  pub task_id : Option String
  pub outbound_turn_request_id : Option String
  pub execution_session_id : Option String
  pub run_id : Option String
  pub executor_type : Option String
  pub executor_node_id : Option String
  pub kind : InteractionRequestKind
  pub status : InteractionRequestStatus
  pub prompt : String
  pub details : Fields
  pub available_actions : List String
  pub answer_schema : Option Fields
  pub resume_strategy : String
  pub opaque : Fields
  pub created_at : String
  pub resolved_at : Option String

pub record AttentionItem : Type 0 where
  pub attention_id : String
  pub source : String
  pub kind : AttentionItemKind
  pub priority : AttentionPriority
  pub status : AttentionItemStatus
  pub title : String
  pub body : String
  pub task_id : Option String
  pub request_id : Option String
  pub actions : List Fields
  pub dedupe_key : Option String
  pub metadata : Fields
  pub created_at : String

pub record AgentEvent : Type 0 where
  pub event_id : String
  pub task_id : String
  pub agent_id : String
  pub type : String
  pub message : String
  pub importance : AgentEventImportance
  pub delivery : AgentEventDelivery
  pub artifact_id : Option String
  pub created_at : String

pub data InputModality : Type 0 where
  text_input audio_input : InputModality

pub data OutboundTurnStatus : Type 0 where
  pending accepted running completed failed : OutboundTurnStatus

pub record OutboundTurnRequest : Type 0 where
  pub request_id : String
  pub persona_id : String
  pub executor_id : String
  pub executor_node_id : String
  pub target_thread_id : Option String
  pub create_new_thread : Bool
  pub workspace_id : Option String
  pub client_request_id : Option String
  pub input_modality : InputModality
  pub text : Option String
  pub audio_instruction_id : Option String
  pub plan_mode : Bool
  pub status : OutboundTurnStatus
  pub error : Option String
  pub executor_thread_id : Option String
  pub executor_turn_id : Option String
  pub created_at : Option String
  pub updated_at : Option String
  pub metadata : Fields
