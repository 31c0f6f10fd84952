-- ===== src/Protocol/Enums.antt =====
-- protocol/enums.py: the enumerations that the modelled code reads, with the text of each member.
-- Members are compared by their
-- place in the enumeration, which decides equality as their texts do.
use newbro.Prelude.{ℕ, String, Bool, eqb}

pub data TaskStatus : Type 0 where
  created queued waiting_executor running waiting_user_input : TaskStatus
  paused completed failed cancelled stopped : TaskStatus

abbrev pub task_status_value : TaskStatus → String
task_status_value TaskStatus.created = "created"
task_status_value TaskStatus.queued = "queued"
task_status_value TaskStatus.waiting_executor = "waiting_executor"
task_status_value TaskStatus.running = "running"
task_status_value TaskStatus.waiting_user_input = "waiting_user_input"
task_status_value TaskStatus.paused = "paused"
task_status_value TaskStatus.completed = "completed"
task_status_value TaskStatus.failed = "failed"
task_status_value TaskStatus.cancelled = "cancelled"
task_status_value TaskStatus.stopped = "stopped"

abbrev pub task_status_index : TaskStatus → ℕ
task_status_index TaskStatus.created = 0
task_status_index TaskStatus.queued = 1
task_status_index TaskStatus.waiting_executor = 2
task_status_index TaskStatus.running = 3
task_status_index TaskStatus.waiting_user_input = 4
task_status_index TaskStatus.paused = 5
task_status_index TaskStatus.completed = 6
task_status_index TaskStatus.failed = 7
task_status_index TaskStatus.cancelled = 8
task_status_index TaskStatus.stopped = 9

abbrev pub task_status_is : TaskStatus → TaskStatus → Bool
task_status_is a b = eqb (task_status_index a) (task_status_index b)

pub data RunStatus : Type 0 where
  created assigned waiting_executor running blocked : RunStatus
  paused completed failed cancelled : RunStatus

abbrev pub run_status_value : RunStatus → String
run_status_value RunStatus.created = "created"
run_status_value RunStatus.assigned = "assigned"
run_status_value RunStatus.waiting_executor = "waiting_executor"
run_status_value RunStatus.running = "running"
run_status_value RunStatus.blocked = "blocked"
run_status_value RunStatus.paused = "paused"
run_status_value RunStatus.completed = "completed"
run_status_value RunStatus.failed = "failed"
run_status_value RunStatus.cancelled = "cancelled"

abbrev pub run_status_index : RunStatus → ℕ
run_status_index RunStatus.created = 0
run_status_index RunStatus.assigned = 1
run_status_index RunStatus.waiting_executor = 2
run_status_index RunStatus.running = 3
run_status_index RunStatus.blocked = 4
run_status_index RunStatus.paused = 5
run_status_index RunStatus.completed = 6
run_status_index RunStatus.failed = 7
run_status_index RunStatus.cancelled = 8

abbrev pub run_status_is : RunStatus → RunStatus → Bool
run_status_is a b = eqb (run_status_index a) (run_status_index b)

pub data ExecutionMode : Type 0 where
  undecided lightweight managed : ExecutionMode

abbrev pub execution_mode_value : ExecutionMode → String
execution_mode_value ExecutionMode.undecided = "undecided"
execution_mode_value ExecutionMode.lightweight = "lightweight"
execution_mode_value ExecutionMode.managed = "managed"

abbrev pub execution_mode_index : ExecutionMode → ℕ
execution_mode_index ExecutionMode.undecided = 0
execution_mode_index ExecutionMode.lightweight = 1
execution_mode_index ExecutionMode.managed = 2

abbrev pub execution_mode_is : ExecutionMode → ExecutionMode → Bool
execution_mode_is a b = eqb (execution_mode_index a) (execution_mode_index b)

pub data MutationType : Type 0 where
  create update control add_task_note add_constraint : MutationType

abbrev pub mutation_type_value : MutationType → String
mutation_type_value create = "create"
mutation_type_value update = "update"
mutation_type_value control = "control"
mutation_type_value add_task_note = "add_task_note"
mutation_type_value add_constraint = "add_constraint"

pub data TaskCommandType : Type 0 where
  pause_task cancel_task preempt_task resume_task retry_task : TaskCommandType

abbrev pub task_command_type_value : TaskCommandType → String
task_command_type_value pause_task = "pause_task"
task_command_type_value cancel_task = "cancel_task"
task_command_type_value preempt_task = "preempt_task"
task_command_type_value resume_task = "resume_task"
task_command_type_value retry_task = "retry_task"

pub data NotificationPriority : Type 0 where
  p0 p1 p2 p3 : NotificationPriority

pub data NotificationCandidateType : Type 0 where
  completed blocked needs_input : NotificationCandidateType

abbrev pub notification_candidate_type_value : NotificationCandidateType → String
notification_candidate_type_value NotificationCandidateType.completed = "completed"
notification_candidate_type_value NotificationCandidateType.blocked = "blocked"
notification_candidate_type_value NotificationCandidateType.needs_input = "needs_input"

abbrev pub notification_candidate_type_index : NotificationCandidateType → ℕ
notification_candidate_type_index NotificationCandidateType.completed = 0
notification_candidate_type_index NotificationCandidateType.blocked = 1
notification_candidate_type_index NotificationCandidateType.needs_input = 2

abbrev pub notification_candidate_type_is :
    NotificationCandidateType → NotificationCandidateType → Bool
notification_candidate_type_is a b =
    eqb (notification_candidate_type_index a) (notification_candidate_type_index b)

pub data NotificationDeliveryStatus : Type 0 where
  pending emitted suppressed : NotificationDeliveryStatus

abbrev pub notification_delivery_status_value : NotificationDeliveryStatus → String
notification_delivery_status_value NotificationDeliveryStatus.pending = "pending"
notification_delivery_status_value NotificationDeliveryStatus.emitted = "emitted"
notification_delivery_status_value NotificationDeliveryStatus.suppressed = "suppressed"

abbrev pub notification_delivery_status_index : NotificationDeliveryStatus → ℕ
notification_delivery_status_index NotificationDeliveryStatus.pending = 0
notification_delivery_status_index NotificationDeliveryStatus.emitted = 1
notification_delivery_status_index NotificationDeliveryStatus.suppressed = 2

abbrev pub notification_delivery_status_is :
    NotificationDeliveryStatus → NotificationDeliveryStatus → Bool
notification_delivery_status_is a b =
    eqb (notification_delivery_status_index a) (notification_delivery_status_index b)

pub data InteractionRequestKind : Type 0 where
  permission question confirmation plan_proposal : InteractionRequestKind

abbrev pub interaction_request_kind_value : InteractionRequestKind → String
interaction_request_kind_value InteractionRequestKind.permission = "permission"
interaction_request_kind_value InteractionRequestKind.question = "question"
interaction_request_kind_value InteractionRequestKind.confirmation = "confirmation"
interaction_request_kind_value InteractionRequestKind.plan_proposal = "plan_proposal"

abbrev pub interaction_request_kind_index : InteractionRequestKind → ℕ
interaction_request_kind_index InteractionRequestKind.permission = 0
interaction_request_kind_index InteractionRequestKind.question = 1
interaction_request_kind_index InteractionRequestKind.confirmation = 2
interaction_request_kind_index InteractionRequestKind.plan_proposal = 3

abbrev pub interaction_request_kind_is : InteractionRequestKind → InteractionRequestKind → Bool
interaction_request_kind_is a b =
    eqb (interaction_request_kind_index a) (interaction_request_kind_index b)

pub data InteractionRequestStatus : Type 0 where
  pending approved denied answered resolved cancelled expired : InteractionRequestStatus

abbrev pub interaction_request_status_value : InteractionRequestStatus → String
interaction_request_status_value InteractionRequestStatus.pending = "pending"
interaction_request_status_value InteractionRequestStatus.approved = "approved"
interaction_request_status_value InteractionRequestStatus.denied = "denied"
interaction_request_status_value InteractionRequestStatus.answered = "answered"
interaction_request_status_value InteractionRequestStatus.resolved = "resolved"
interaction_request_status_value InteractionRequestStatus.cancelled = "cancelled"
interaction_request_status_value InteractionRequestStatus.expired = "expired"

abbrev pub interaction_request_status_index : InteractionRequestStatus → ℕ
interaction_request_status_index InteractionRequestStatus.pending = 0
interaction_request_status_index InteractionRequestStatus.approved = 1
interaction_request_status_index InteractionRequestStatus.denied = 2
interaction_request_status_index InteractionRequestStatus.answered = 3
interaction_request_status_index InteractionRequestStatus.resolved = 4
interaction_request_status_index InteractionRequestStatus.cancelled = 5
interaction_request_status_index InteractionRequestStatus.expired = 6

abbrev pub interaction_request_status_is :
    InteractionRequestStatus → InteractionRequestStatus → Bool
interaction_request_status_is a b =
    eqb (interaction_request_status_index a) (interaction_request_status_index b)

pub data AttentionPriority : Type 0 where
  p0 p1 p2 p3 : AttentionPriority

pub data AttentionItemKind : Type 0 where
  permission_request question_request confirmation_request : AttentionItemKind
  plan_proposal_request task_paused task_resumed : AttentionItemKind
  task_blocked task_completed : AttentionItemKind

abbrev pub attention_item_kind_value : AttentionItemKind → String
attention_item_kind_value permission_request = "permission_request"
attention_item_kind_value question_request = "question_request"
attention_item_kind_value confirmation_request = "confirmation_request"
attention_item_kind_value plan_proposal_request = "plan_proposal_request"
attention_item_kind_value task_paused = "task_paused"
attention_item_kind_value task_resumed = "task_resumed"
attention_item_kind_value task_blocked = "task_blocked"
attention_item_kind_value task_completed = "task_completed"

pub data AttentionItemStatus : Type 0 where
  active acted dismissed expired : AttentionItemStatus

abbrev pub attention_item_status_value : AttentionItemStatus → String
attention_item_status_value AttentionItemStatus.active = "active"
attention_item_status_value AttentionItemStatus.acted = "acted"
attention_item_status_value AttentionItemStatus.dismissed = "dismissed"
attention_item_status_value AttentionItemStatus.expired = "expired"

abbrev pub attention_item_status_index : AttentionItemStatus → ℕ
attention_item_status_index AttentionItemStatus.active = 0
attention_item_status_index AttentionItemStatus.acted = 1
attention_item_status_index AttentionItemStatus.dismissed = 2
attention_item_status_index AttentionItemStatus.expired = 3

abbrev pub attention_item_status_is : AttentionItemStatus → AttentionItemStatus → Bool
attention_item_status_is a b = eqb (attention_item_status_index a) (attention_item_status_index b)

pub data AgentEventImportance : Type 0 where
  low medium high urgent : AgentEventImportance

abbrev pub agent_event_importance_value : AgentEventImportance → String
agent_event_importance_value low = "low"
agent_event_importance_value medium = "medium"
agent_event_importance_value high = "high"
agent_event_importance_value urgent = "urgent"

pub data AgentEventDelivery : Type 0 where
  silent silent_ui badge short_voice voice_interrupt : AgentEventDelivery

abbrev pub agent_event_delivery_value : AgentEventDelivery → String
agent_event_delivery_value silent = "silent"
agent_event_delivery_value silent_ui = "silent_ui"
agent_event_delivery_value badge = "badge"
agent_event_delivery_value short_voice = "short_voice"
agent_event_delivery_value voice_interrupt = "voice_interrupt"

pub data BindingStatus : Type 0 where
  created claimed active paused released : BindingStatus

pub data TaskMode : Type 0 where
  read_only_first proposal_only modify_allowed submit_allowed : TaskMode

abbrev pub task_mode_index : TaskMode → ℕ
task_mode_index TaskMode.read_only_first = 0
task_mode_index TaskMode.proposal_only = 1
task_mode_index TaskMode.modify_allowed = 2
task_mode_index TaskMode.submit_allowed = 3

abbrev pub task_mode_is : TaskMode → TaskMode → Bool
task_mode_is a b = eqb (task_mode_index a) (task_mode_index b)

pub data RuntimeSessionState : Type 0 where
  idle drafting waiting_for_confirmation task_running : RuntimeSessionState
  task_blocked task_complete user_reviewing_artifact : RuntimeSessionState

pub data DispatchGateOutcome : Type 0 where
  ask_clarification ask_confirmation dispatch reject : DispatchGateOutcome
