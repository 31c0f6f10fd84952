-- ===== src/Blackboard/Tasks.antt =====
-- blackboard/backends/memory.py and revisions.py: tasks, their mutations, commands and execution
-- details. A task in the store is the caller's object, so the bump of its revision by a mutation
-- is a write to the stored task; the snapshot of the last put stays as it was.
pub mod Revisions
pub mod Recent
use newbro.Prelude.{
  ℕ, zero, suc, ◌+◌, ◌-◌, String, List, [], ◌∷◌, ◌++◌, map, Bool, true, false, Option, none, some,
  if◌then◌else◌, is_some, or_else, length, leb, last_n, any, reversed,
}
use newbro.Prelude.Text.{◌==◌}
use newbro.Prelude.Dict as D
use newbro.Prelude.Dict.{Dict, values}
use newbro.Prelude.Json.{text, object, boolean, fields, optional_text}
use newbro.Protocol.Enums.{mutation_type_value, task_command_type_value}
use newbro.Protocol.Records.{Task, TaskMutation, TaskCommand, TaskExecutionDetailEntry}
use newbro.Blackboard.Events.{BlackboardWriteEvent, BlackboardWriteKind}
use newbro.Blackboard.State.{Blackboard, publish}
use newbro.Blackboard.Payloads.{task_write_payload}

unfoldable pub put_task : Task → Blackboard → Blackboard
unfolding publish D.put D.get
put_task t b =
    let previous = D.get t.task_id b.task_snapshots in
    publish
      (record b {
        tasks = D.put t.task_id t b.tasks;
        task_snapshots = D.put t.task_id t b.task_snapshots;
      })
      (record {
        kind = BlackboardWriteKind.task;
        entity_id = some t.task_id;
        task_id = some t.task_id;
        request_id = none;
        payload = task_write_payload previous t;
      })

unfoldable pub get_task : String → Blackboard → Option Task
unfolding D.get
get_task k b = D.get k b.tasks

unfoldable pub list_tasks : Blackboard → List Task
list_tasks b = values b.tasks

unfoldable pub bump_task_revision : Task → Task
bump_task_revision t = record t { task_revision = suc t.task_revision }

-- `d[k].append(x)` on a `defaultdict(list)`
unfoldable pub push {ℓ} : {A : Type ℓ} → String → A → Dict (List A) → Dict (List A)
unfolding D.get D.put
push k x d = D.put k (or_else (D.get k d) [] ++ x ∷ []) d

bump_stored : String → Dict Task → Dict Task
unfolding bump_task_revision D.get D.put
bump_stored k d = elim (D.get k d) [ none ↦ d | some t ↦ D.put k (bump_task_revision t) d ]

unfoldable pub append_mutation : TaskMutation → Blackboard → Blackboard
unfolding push bump_stored publish
append_mutation m b =
    publish
      (record b {
        mutations_by_task = push (or_else m.task_id "") m b.mutations_by_task;
        tasks = elim m.task_id [ none ↦ b.tasks | some k ↦ bump_stored k b.tasks ];
        mutations = b.mutations ++ m ∷ [];
      })
      (record {
        kind = BlackboardWriteKind.mutation;
        entity_id = some m.mutation_id;
        task_id = m.task_id;
        request_id = none;
        payload = fields (
            ("mutation_id", text m.mutation_id)
            ∷ ("mutation_type", text (mutation_type_value m.mutation_type))
            ∷ ("created_by", text m.created_by)
            ∷ ("urgency", text m.urgency)
            ∷ ("effective_scope", text m.effective_scope)
            ∷ ("requires_replan", boolean m.requires_replan)
            ∷ ("patch", object m.patch)
            ∷ []);
      })

unfoldable pub list_mutations : String → Blackboard → List TaskMutation
unfolding D.get
list_mutations k b = or_else (D.get k b.mutations_by_task) []

abbrev pub list_all_mutations : Blackboard → List TaskMutation
list_all_mutations b = b.mutations

unfoldable pub append_command : TaskCommand → Blackboard → Blackboard
unfolding push publish
append_command c b =
    publish
      (record b {
        commands_by_task = push c.task_id c b.commands_by_task;
        commands = b.commands ++ c ∷ [];
      })
      (record {
        kind = BlackboardWriteKind.command;
        entity_id = some c.command_id;
        task_id = some c.task_id;
        request_id = none;
        payload = fields (
            ("command_id", text c.command_id)
            ∷ ("command_type", text (task_command_type_value c.command_type))
            ∷ ("created_by", text c.created_by)
            ∷ ("reason", optional_text c.reason)
            ∷ ("payload", object c.payload)
            ∷ []);
      })

unfoldable pub list_commands : String → Blackboard → List TaskCommand
unfolding D.get
list_commands k b = or_else (D.get k b.commands_by_task) []

abbrev pub list_all_commands : Blackboard → List TaskCommand
list_all_commands b = b.commands

unfoldable pub append_task_execution_detail : TaskExecutionDetailEntry → Blackboard → Blackboard
unfolding push publish
append_task_execution_detail e b =
    publish
      (record b {
        task_execution_details_by_task = push e.task_id e b.task_execution_details_by_task;
        task_execution_details = b.task_execution_details ++ e ∷ [];
      })
      (record {
        kind = BlackboardWriteKind.execution_detail;
        entity_id = some e.detail_id;
        task_id = some e.task_id;
        request_id = none;
        payload = fields (
            ("run_id", text e.run_id)
            ∷ ("execution_session_id", text e.execution_session_id)
            ∷ ("event_type", text e.event_type)
            ∷ ("text", text e.text)
            ∷ ("created_at", text e.created_at)
            ∷ []);
      })

-- A limit of `None` is `none`; a negative one does as 0 does.
unfoldable pub list_task_execution_details :
    String → Option ℕ → Blackboard → List TaskExecutionDetailEntry
unfolding D.get last_n
list_task_execution_details k limit b =
    let entries = or_else (D.get k b.task_execution_details_by_task) [] in
    elim limit [ none ↦ entries | some n ↦ if leb n 0 then [] else last_n n entries ]

-- The task ids from the newest entry on, each once, at most `limit`. An iteration that adds the
-- last one breaks off.
pub recent_task_ids : ℕ → List String → List TaskExecutionDetailEntry → List String
unfolding any
recent_task_ids limit seen [] = []
recent_task_ids limit seen (e ∷ es) =
    let skip = recent_task_ids limit seen es in
    let more = recent_task_ids limit (e.task_id ∷ seen) es in
    if any (λ k. k == e.task_id) seen
    then skip
    else if leb limit (suc (length seen))
    then e.task_id ∷ []
    else e.task_id ∷ more

unfoldable pub list_recent_task_execution_details :
    ℕ → ℕ → Blackboard → Dict (List TaskExecutionDetailEntry)
unfolding recent_task_ids D.get last_n reversed
list_recent_task_execution_details task_limit entry_limit b =
    if leb task_limit 0
    then []
    else if leb entry_limit 0
    then []
    else map (λ k. (k, last_n entry_limit (or_else (D.get k b.task_execution_details_by_task) [])))
        (recent_task_ids task_limit [] (reversed b.task_execution_details))
