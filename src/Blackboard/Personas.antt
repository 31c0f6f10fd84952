-- ===== src/Blackboard/Personas.antt =====
-- blackboard/backends/memory.py: personas, and the log of recent writes.
use newbro.Prelude.{
  ℕ, String, List, Bool, true, false, Option, none, some, last_n, if◌then◌else◌, eqb,
}
use newbro.Prelude.Dict as D
use newbro.Prelude.Dict.{values}
use newbro.Prelude.Json.{end}
use newbro.Protocol.Records.{Persona}
use newbro.Blackboard.Events.{BlackboardWriteEvent, BlackboardWriteKind}
use newbro.Blackboard.State.{Blackboard, publish}

unfoldable pub persona_written : String → BlackboardWriteEvent
persona_written k = record {
  kind = BlackboardWriteKind.persona;
  entity_id = some k;
  task_id = none;
  request_id = none;
  payload = end;
}

unfoldable pub put_persona : Persona → Blackboard → Blackboard
unfolding publish D.put persona_written
put_persona p b =
    publish (record b { personas = D.put p.persona_id p b.personas }) (persona_written p.persona_id)

unfoldable pub get_persona : String → Blackboard → Option Persona
unfolding D.get
get_persona k b = D.get k b.personas

unfoldable pub list_personas : Blackboard → List Persona
list_personas b = values b.personas

-- Only a persona that was there is announced; the answer says whether it was.
unfoldable pub delete_persona : String → Blackboard → Blackboard × Bool
unfolding publish D.get D.pop persona_written
delete_persona k b = elim (D.get k b.personas) [
  | none ↦ (b, false)
  | some p ↦ (publish (record b { personas = D.pop k b.personas }) (persona_written k), true)
]

-- `recent_writes[-limit:]`; a limit of 0 gives the whole list, since -0 is 0.
unfoldable pub list_recent_writes : ℕ → Blackboard → List BlackboardWriteEvent
unfolding last_n
list_recent_writes limit b = if eqb limit 0 then b.recent_writes else last_n limit b.recent_writes
