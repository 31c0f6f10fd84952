-- ===== src/Blackboard/Sessions.antt =====
-- blackboard/backends/memory.py: execution sessions, bindings, summaries and execution modes, which
-- are dicts by id with no payload but the mode's.
use newbro.Prelude.{String, List, [], ◌∷◌, Option, none, some}
use newbro.Prelude.Dict as D
use newbro.Prelude.Dict.{values}
use newbro.Prelude.Json.{text, end, Fields, fields}
use newbro.Protocol.Enums.{execution_mode_value}
use newbro.Protocol.Records.{ExecutionSession, SessionBinding, TaskSummary, TaskExecutionMode}
use newbro.Blackboard.Events.{BlackboardWriteEvent, BlackboardWriteKind}
use newbro.Blackboard.State.{Blackboard, publish}

-- An event with an entity, a task and a payload, and no request id yet.
abbrev written : BlackboardWriteKind → Option String → Option String → Fields → BlackboardWriteEvent
written kind entity task payload = record {
  kind = kind;
  entity_id = entity;
  task_id = task;
  request_id = none;
  payload = payload;
}

unfoldable pub put_session : ExecutionSession → Blackboard → Blackboard
unfolding publish D.put
put_session s b =
    publish (record b { sessions = D.put s.execution_session_id s b.sessions })
      (written BlackboardWriteKind.session (some s.execution_session_id) (some s.task_id) end)

unfoldable pub get_session : String → Blackboard → Option ExecutionSession
unfolding D.get
get_session k b = D.get k b.sessions

unfoldable pub list_sessions : Blackboard → List ExecutionSession
list_sessions b = values b.sessions

unfoldable pub put_binding : SessionBinding → Blackboard → Blackboard
unfolding publish D.put
put_binding s b =
    publish (record b { bindings_by_task = D.put s.task_id s b.bindings_by_task })
      (written BlackboardWriteKind.binding s.session_id (some s.task_id) end)

unfoldable pub get_binding : String → Blackboard → Option SessionBinding
unfolding D.get
get_binding k b = D.get k b.bindings_by_task

unfoldable pub list_bindings : Blackboard → List SessionBinding
list_bindings b = values b.bindings_by_task

unfoldable pub put_summary : TaskSummary → Blackboard → Blackboard
unfolding publish D.put
put_summary s b =
    publish (record b { summaries_by_task = D.put s.task_id s b.summaries_by_task })
      (written BlackboardWriteKind.summary (some s.task_id) (some s.task_id) end)

unfoldable pub get_summary : String → Blackboard → Option TaskSummary
unfolding D.get
get_summary k b = D.get k b.summaries_by_task

unfoldable pub put_execution_mode : TaskExecutionMode → Blackboard → Blackboard
unfolding publish D.put
put_execution_mode m b =
    publish (record b { execution_modes_by_task = D.put m.task_id m b.execution_modes_by_task })
      (written BlackboardWriteKind.execution_mode (some m.task_id) (some m.task_id)
        (fields (("mode", text (execution_mode_value m.mode)) ∷ [])))

unfoldable pub get_execution_mode : String → Blackboard → Option TaskExecutionMode
unfolding D.get
get_execution_mode k b = D.get k b.execution_modes_by_task

unfoldable pub list_execution_modes : Blackboard → List TaskExecutionMode
list_execution_modes b = values b.execution_modes_by_task
