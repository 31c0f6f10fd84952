-- ===== src/Execution/Events.antt =====
-- executors/core/events.py: what an executor reports of a run.
use newbro.Prelude.{String, Option}
use newbro.Prelude.Json.{Fields}

pub data ExecutorEventType : Type 0 where
  progress plan waiting_executor blocked completed failed cancelled : ExecutorEventType

abbrev pub executor_event_type_value : ExecutorEventType → String
executor_event_type_value progress = "progress"
executor_event_type_value plan = "plan"
executor_event_type_value waiting_executor = "waiting_executor"
executor_event_type_value blocked = "blocked"
executor_event_type_value completed = "completed"
executor_event_type_value failed = "failed"
executor_event_type_value cancelled = "cancelled"

pub record ExecutorEvent : Type 0 where
  pub run_id : String
  pub session_id : String
  pub event_type : ExecutorEventType
  pub message : Option String
  pub metadata : Fields
