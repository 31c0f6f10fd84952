-- ===== src/Blackboard/Events.antt =====
-- blackboard/store.py: what the blackboard announces of each write.
use newbro.Prelude.{String, Option}
use newbro.Prelude.Json.{Fields}

pub data BlackboardWriteKind : Type 0 where
  task mutation command execution_detail run session binding summary : BlackboardWriteKind
  execution_mode notification persona interaction_request attention agent_event :
      BlackboardWriteKind

pub record BlackboardWriteEvent : Type 0 where
  pub kind : BlackboardWriteKind
  pub entity_id : Option String
  pub task_id : Option String
  pub request_id : Option String
  pub payload : Fields
