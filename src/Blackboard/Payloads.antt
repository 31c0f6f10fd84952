-- ===== src/Blackboard/Payloads.antt =====
-- blackboard/backends/memory.py: what `_task_write_payload` and `_run_write_payload` say of a write,
-- by comparing the record with the copy made at the write before.
use newbro.Prelude.{String, List, [], ◌∷◌, Bool, not, Option, none, some, if◌then◌else◌, eqb}
use newbro.Prelude.Int.{eqb_ℤ}
use newbro.Prelude.Text.{◌==◌, option_eq, present}
use newbro.Prelude.Json.{
  Fields, text, array, fields, assign, same_fields, same_bool, optional_text, cons, nil, Items,
}
use newbro.Protocol.Enums.{task_status_value, task_status_is, run_status_value, run_status_is}
use newbro.Protocol.Records.{Task, ExecutionRun}

-- `[:5]` of a list of names
first_five : List String → Items
first_five (a ∷ b ∷ c ∷ d ∷ e ∷ rest) =
    cons (text a) (cons (text b) (cons (text c) (cons (text d) (cons (text e) nil))))
first_five [] = nil
first_five (a ∷ []) = cons (text a) nil
first_five (a ∷ b ∷ []) = cons (text a) (cons (text b) nil)
first_five (a ∷ b ∷ c ∷ []) = cons (text a) (cons (text b) (cons (text c) nil))
first_five (a ∷ b ∷ c ∷ d ∷ []) = cons (text a) (cons (text b) (cons (text c) (cons (text d) nil)))

-- The names of the fields that differ, in the order of the source's tuple.
differing : List (String × Bool) → List String
differing [] = []
differing ((name, same) ∷ rest) =
    let others = differing rest in if same then others else name ∷ others

pub changed_task_fields : Task → Task → List String
unfolding differing same_fields
changed_task_fields p c = differing (
    ("title", p.title == c.title)
    ∷ ("goal", p.goal == c.goal)
    ∷ ("priority", eqb_ℤ p.priority c.priority)
    ∷ ("interruptible", same_bool p.interruptible c.interruptible)
    ∷ ("requires_confirmation", same_bool p.requires_confirmation c.requires_confirmation)
    ∷ ("preferred_executor", option_eq p.preferred_executor c.preferred_executor)
    ∷ ("session_affinity", option_eq p.session_affinity c.session_affinity)
    ∷ ("latest_instruction", option_eq p.latest_instruction c.latest_instruction)
    ∷ ("metadata", same_fields p.metadata c.metadata)
    ∷ [])

-- What stands behind the status when some fields, or none, have changed.
unfoldable pub field_changes : String → List String → Fields
unfolding first_five
field_changes status [] = fields (("status", text status) ∷ ("change_kind", text "refresh") ∷ [])
field_changes status (f ∷ fs) = fields (
    ("status", text status)
    ∷ ("change_kind", text "fields_updated")
    ∷ ("changed_fields", array (first_five (f ∷ fs)))
    ∷ [])

unfoldable pub task_write_payload : Option Task → Task → Fields
unfolding changed_task_fields field_changes
task_write_payload none c =
    fields (("status", text (task_status_value c.status)) ∷ ("change_kind", text "created") ∷ [])
task_write_payload (some p) c =
    if not (task_status_is p.status c.status)
    then fields (
        ("status", text (task_status_value c.status))
        ∷ ("change_kind", text "status_change")
        ∷ ("previous_status", text (task_status_value p.status))
        ∷ [])
    else field_changes (task_status_value c.status) (changed_task_fields p c)

changed_run_fields : ExecutionRun → ExecutionRun → List String
unfolding differing same_fields
changed_run_fields p c = differing (
    ("output_summary", option_eq p.output_summary c.output_summary)
    ∷ ("block_reason", option_eq p.block_reason c.block_reason)
    ∷ ("failure_reason", option_eq p.failure_reason c.failure_reason)
    ∷ ("claimed_by", option_eq p.claimed_by c.claimed_by)
    ∷ ("run_revision", eqb p.run_revision c.run_revision)
    ∷ ("metadata", same_fields p.metadata c.metadata)
    ∷ [])

-- The progress message is added where the run has one.
with_progress : ExecutionRun → Fields → Fields
unfolding assign
with_progress c payload =
    if present c.latest_progress_message
    then assign "latest_progress_message" (optional_text c.latest_progress_message) payload
    else payload

unfoldable pub run_write_payload : Option ExecutionRun → ExecutionRun → Fields
unfolding with_progress changed_run_fields field_changes
run_write_payload none c =
    with_progress c
      (fields (("status", text (run_status_value c.status)) ∷ ("change_kind", text "created") ∷ []))
run_write_payload (some p) c =
    if not (run_status_is p.status c.status)
    then with_progress c (
        fields (
          ("status", text (run_status_value c.status))
          ∷ ("change_kind", text "status_change")
          ∷ ("previous_status", text (run_status_value p.status))
          ∷ []))
    else if not (option_eq p.latest_progress_message c.latest_progress_message)
    then with_progress c (
        fields (
          ("status", text (run_status_value c.status))
          ∷ ("change_kind", text "progress_update")
          ∷ []))
    else field_changes (run_status_value c.status) (changed_run_fields p c)
