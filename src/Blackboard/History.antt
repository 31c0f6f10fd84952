-- ===== src/Blackboard/History.antt =====
-- The writes of blackboard/interfaces.py as data, and histories of them, so that what holds of
-- every reachable blackboard is proved by induction.
pub mod Logs
pub mod Tables
pub mod Announcements
use newbro.Prelude.{String, List, [], ◌∷◌}
use newbro.Protocol.Records.{
  Task, TaskMutation, TaskCommand, TaskExecutionDetailEntry, ExecutionRun, ExecutionSession,
  SessionBinding, TaskSummary, TaskExecutionMode, NotificationCandidate, OutboundTurnRequest,
  Persona, InteractionRequest, AttentionItem, AgentEvent,
}
use newbro.Blackboard.State.{Blackboard}
use newbro.Blackboard.Tasks.{
  put_task, append_mutation, append_command, append_task_execution_detail,
}
use newbro.Blackboard.Runs.{put_run}
use newbro.Blackboard.Sessions.{put_session, put_binding, put_summary, put_execution_mode}
use newbro.Blackboard.Ordered.{
  put_notification_candidate, put_outbound_turn_request, put_interaction_request,
  put_attention_item, put_agent_event,
}
use newbro.Blackboard.Personas.{put_persona, delete_persona}

pub data Write : Type 0 where
  task : Task → Write
  mutation : TaskMutation → Write
  command : TaskCommand → Write
  detail : TaskExecutionDetailEntry → Write
  run : ExecutionRun → Write
  session : ExecutionSession → Write
  binding : SessionBinding → Write
  summary : TaskSummary → Write
  mode : TaskExecutionMode → Write
  candidate : NotificationCandidate → Write
  turn_request : OutboundTurnRequest → Write
  persona : Persona → Write
  no_persona : String → Write
  request : InteractionRequest → Write
  attention : AttentionItem → Write
  agent_event : AgentEvent → Write

unfoldable pub write : Write → Blackboard → Blackboard
write (task t) b = put_task t b
write (mutation m) b = append_mutation m b
write (command c) b = append_command c b
write (detail e) b = append_task_execution_detail e b
write (run r) b = put_run r b
write (session s) b = put_session s b
write (binding s) b = put_binding s b
write (summary s) b = put_summary s b
write (mode m) b = put_execution_mode m b
write (candidate c) b = put_notification_candidate c b
write (turn_request r) b = put_outbound_turn_request r b
write (persona p) b = put_persona p b
write (no_persona k) b = (delete_persona k b).0
write (request r) b = put_interaction_request r b
write (attention i) b = put_attention_item i b
write (agent_event e) b = put_agent_event e b

unfoldable pub history : List Write → Blackboard → Blackboard
history [] b = b
history (w ∷ ws) b = history ws (write w b)
