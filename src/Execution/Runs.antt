-- ===== src/Execution/Runs.antt =====
-- execution/run_manager.py. The task and the run that the manager changes are the objects that the
-- store holds, so a change shows in the store at once (`reflect`), before the puts announce it.
pub mod Coherence
pub mod Cancellation
pub mod Announcing
use newbro.Prelude.{
  ℕ, String, List, [], ◌∷◌, ◌++◌, Bool, true, false, not, ◌&&◌, Option, none, some, if◌then◌else◌,
  eqb, is_some,
}
use newbro.Prelude.Int.{eqb_ℤ}
use newbro.Prelude.Text.{◌==◌, option_eq, truthy, strip, fstring, present}
use newbro.Prelude.Dict as D
use newbro.Prelude.Json.{
  Value, Fields, end, text, object, fields, assign, member, nonempty_member, text_member,
  has_fields, optional_text, same_fields, same_bool,
}
use newbro.Protocol.Enums.{TaskStatus, RunStatus, task_status_is, run_status_is}
use newbro.Protocol.Records.{Task, ExecutionRun, ExecutionSession, TaskExecutionDetailEntry}
use newbro.Blackboard.State.{Blackboard}
use newbro.Blackboard.Tasks.{put_task, append_task_execution_detail}
use newbro.Blackboard.Runs.{put_run}
use newbro.Blackboard.Sessions.{put_session}
use newbro.Execution.Events.{ExecutorEvent, ExecutorEventType, executor_event_type_value}

-- `run_id` is `run-` and fresh hexadecimal digits.
unfoldable pub create_run :
    String
    → Task
    → ExecutionSession
    → Option String
    → String
    → Blackboard
    → Blackboard × ExecutionRun × ExecutionSession
unfolding put_run put_session
create_run run_id t s claimed_by executor_type b =
    let run : ExecutionRun = record {
      run_id = run_id;
      task_id = t.task_id;
      execution_session_id = s.execution_session_id;
      executor_type = executor_type;
      status = RunStatus.assigned;
      claimed_by = claimed_by;
      run_revision = t.task_revision;
      latest_progress_message = none;
      output_summary = none;
      block_reason = none;
      failure_reason = none;
      metadata = end;
    } in
    let session : ExecutionSession = record s {
      run_ids = s.run_ids ++ run_id ∷ [];
      active_run_id = some run_id;
      latest_run_id = some run_id;
    } in
    (put_session session (put_run run b), run, session)

-- `isinstance(m, str) and m.strip()`
abbrev pub spoken : Option String → Bool
spoken none = false
spoken (some m) = truthy (strip m)

unfoldable pub detail_text : Task → ExecutorEvent → String
unfolding fstring
detail_text t e = if spoken e.message then strip (message e.message) else plain e.event_type
  where
    message : Option String → String
    message none = ""
    message (some m) = m

    plain : ExecutorEventType → String
    plain ExecutorEventType.progress = fstring ("Running: " ∷ t.title ∷ [])
    plain ExecutorEventType.plan = fstring ("Plan updated: " ∷ t.title ∷ [])
    plain ExecutorEventType.waiting_executor = fstring ("Waiting for executor: " ∷ t.title ∷ [])
    plain ExecutorEventType.blocked = fstring ("Blocked: " ∷ t.title ∷ [])
    plain ExecutorEventType.completed = fstring ("Completed: " ∷ t.title ∷ [])
    plain ExecutorEventType.failed = fstring ("Failed: " ∷ t.title ∷ [])
    plain ExecutorEventType.cancelled = fstring ("Cancelled: " ∷ t.title ∷ [])

-- `run.metadata[key] = dict(event.metadata)`, where the event has any
noted : String → ExecutorEvent → Fields → Fields
unfolding assign
noted key e m = if has_fields e.metadata then assign key (object e.metadata) m else m

-- `run.metadata.get("audio_transcripts")`, if it is a dict
transcripts_of : Fields → Fields
unfolding member
transcripts_of m = elim (member "audio_transcripts" m) [ some (object d) ↦ d | _ ↦ end ]

-- A progress event may bring the transcript of an audio instruction.
with_transcript : Fields → Fields → Fields
unfolding nonempty_member text_member assign transcripts_of
with_transcript metadata m = elim (nonempty_member "source_audio_instruction_id" metadata) [
  | none ↦ m
  | some audio_id ↦ elim (text_member "transcript_text" metadata) [
    | none ↦ m
    | some transcript ↦
        if truthy (strip transcript)
        then assign "audio_transcripts"
            (object (assign audio_id (text (strip transcript)) (transcripts_of m))) m
        else m
  ]
]

progress_metadata : ExecutorEvent → Fields → Fields
unfolding with_transcript assign
progress_metadata e m =
    if has_fields e.metadata
    then with_transcript e.metadata (assign "latest_progress_event" (object e.metadata) m)
    else m

-- The new progress message is not empty and not the one before.
new_progress : ExecutorEvent → ExecutionRun → Bool
new_progress e r = spoken e.message && not (option_eq e.message r.latest_progress_message)

-- What the event does to the run: the new run.
unfoldable pub apply_to_run : ExecutorEventType → ExecutorEvent → ExecutionRun → ExecutionRun
unfolding new_progress progress_metadata noted
apply_to_run ExecutorEventType.progress e r = record r {
  status = RunStatus.running;
  latest_progress_message = if new_progress e r then e.message else r.latest_progress_message;
  metadata = progress_metadata e r.metadata;
}
apply_to_run ExecutorEventType.plan e r = record r {
  status = RunStatus.running;
  metadata = noted "latest_plan_event" e r.metadata;
}
apply_to_run ExecutorEventType.waiting_executor e r = record r {
  status = RunStatus.waiting_executor;
  latest_progress_message = if spoken e.message then e.message else r.latest_progress_message;
  metadata = noted "executor_wait_event" e r.metadata;
}
apply_to_run ExecutorEventType.blocked e r = record r {
  status = RunStatus.blocked;
  block_reason = e.message;
  metadata = noted "blocked_event" e r.metadata;
}
apply_to_run ExecutorEventType.completed e r = record r {
  status = RunStatus.completed;
  output_summary = e.message;
  metadata = noted "latest_terminal_event" e r.metadata;
}
apply_to_run ExecutorEventType.failed e r = record r {
  status = RunStatus.failed;
  failure_reason = e.message;
  metadata = noted "latest_terminal_event" e r.metadata;
}
apply_to_run ExecutorEventType.cancelled e r = record r { status = RunStatus.cancelled }

-- The task's status after the event.
unfoldable pub task_status_after : ExecutorEventType → TaskStatus
task_status_after ExecutorEventType.progress = TaskStatus.running
task_status_after ExecutorEventType.plan = TaskStatus.running
task_status_after ExecutorEventType.waiting_executor = TaskStatus.waiting_executor
task_status_after ExecutorEventType.blocked = TaskStatus.waiting_user_input
task_status_after ExecutorEventType.completed = TaskStatus.completed
task_status_after ExecutorEventType.failed = TaskStatus.failed
task_status_after ExecutorEventType.cancelled = TaskStatus.cancelled

unfoldable pub appends_detail : ExecutorEventType → ExecutorEvent → ExecutionRun → Bool
unfolding new_progress
appends_detail ExecutorEventType.progress e r = new_progress e r
appends_detail _ e r = true

unfoldable pub run_changed : ExecutionRun → ExecutionRun → Bool
unfolding same_fields
run_changed p c = not (
    (p.run_id == c.run_id)
    && (p.task_id == c.task_id)
    && (p.execution_session_id == c.execution_session_id)
    && (p.executor_type == c.executor_type)
    && run_status_is p.status c.status
    && option_eq p.claimed_by c.claimed_by
    && eqb p.run_revision c.run_revision
    && option_eq p.latest_progress_message c.latest_progress_message
    && option_eq p.output_summary c.output_summary
    && option_eq p.block_reason c.block_reason
    && option_eq p.failure_reason c.failure_reason
    && same_fields p.metadata c.metadata)

-- An event changes nothing of a task but its status.
unfoldable pub task_changed : Task → Task → Bool
task_changed p c = not (task_status_is p.status c.status)

-- The changed objects as the store holds them.
unfoldable pub reflect : Task → ExecutionRun → Blackboard → Blackboard
unfolding D.get D.put
reflect t r b = record b {
  tasks = if is_some (D.get t.task_id b.tasks) then D.put t.task_id t b.tasks else b.tasks;
  runs = if is_some (D.get r.run_id b.runs) then D.put r.run_id r b.runs else b.runs;
}

unfoldable pub detail_entry :
    String → String → Task → ExecutionRun → ExecutorEvent → String → TaskExecutionDetailEntry
detail_entry detail_id created_at t r e shown = record {
  detail_id = detail_id;
  task_id = t.task_id;
  run_id = r.run_id;
  execution_session_id = r.execution_session_id;
  event_type = executor_event_type_value e.event_type;
  text = shown;
  created_at = created_at;
  payload = fields (
      ("session_id", text e.session_id)
      ∷ ("message", optional_text e.message)
      ∷ ("metadata", object e.metadata)
      ∷ []);
}

-- An event for a cancelled task is dropped, unless it reports the cancellation.
unfoldable pub is_dropped : Task → ExecutorEventType → Bool
is_dropped t ExecutorEventType.cancelled = false
is_dropped t _ = task_status_is t.status TaskStatus.cancelled

-- The writes that end `apply_event`: the detail, the run and the task, each if it is called for.
unfoldable pub announce :
    Bool → Bool → Bool → TaskExecutionDetailEntry → Task → ExecutionRun → Blackboard → Blackboard
announce new_detail new_run new_task entry t r b =
    let b₁ = if new_detail then append_task_execution_detail entry b else b in
    let b₂ = if new_run then put_run r b₁ else b₁ in if new_task then put_task t b₂ else b₂

unfoldable pub apply_event :
    String
    → String
    → ExecutorEvent
    → Task
    → ExecutionRun
    → Blackboard
    → Blackboard × Task × ExecutionRun
apply_event detail_id created_at e t r b =
    let r' = apply_to_run e.event_type e r in
    let t' : Task = record t { status = task_status_after e.event_type } in
    let entry = detail_entry detail_id created_at t r e (detail_text t e) in
    let b' =
      announce (appends_detail e.event_type e r) (run_changed r r') (task_changed t t') entry t' r'
        (reflect t' r' b) in
    if is_dropped t e.event_type then (b, t, r) else (b', t', r')
