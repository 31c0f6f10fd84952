-- ===== src/Execution/Failures.antt =====
-- execution/reconcile.py: the release of a task's persona, and the ways in which a task fails that cannot be run.
use newbro.Prelude.{
  ℕ, String, [], ◌∷◌, Bool, true, false, not, ◌||◌, ◌&&◌, Option, none, some, if◌then◌else◌, any,
}
use newbro.Prelude.Text.{◌==◌, truthy, strip, fstring}
use newbro.Prelude.Json.{text, fields, text_member}
use newbro.Protocol.Enums.{TaskStatus, BindingStatus}
use newbro.Protocol.Records.{Task, ExecutionRun, ExecutionSession, SessionBinding, TaskSummary}
use newbro.Blackboard.State.{Blackboard}
use newbro.Blackboard.Tasks.{put_task, list_tasks}
use newbro.Blackboard.Sessions.{put_binding, put_summary}
use newbro.Blackboard.Personas.{get_persona, put_persona}
use newbro.Execution.Events.{ExecutorEvent, ExecutorEventType}
use newbro.Execution.Runs.{apply_event}
use newbro.Execution.Summaries.{build_summary}
use newbro.Execution.Sessions.{Exception}

-- What an event meets: a fresh id for its detail, the time stamp, and the time since the run's start.
pub record Moment : Type 0 where
  pub detail_id : String
  pub created_at : String
  pub elapsed_seconds : ℕ

-- `active_statuses`
abbrev pub holds_persona : TaskStatus → Bool
holds_persona TaskStatus.created = true
holds_persona TaskStatus.queued = true
holds_persona TaskStatus.running = true
holds_persona TaskStatus.waiting_executor = true
holds_persona TaskStatus.waiting_user_input = true
holds_persona TaskStatus.paused = true
holds_persona _ = false

-- Another task that is active and has the persona.
unfoldable pub occupies : String → Task → Task → Bool
unfolding text_member
occupies persona_id t candidate =
    not (candidate.task_id == t.task_id)
    && holds_persona candidate.status
    && elim (text_member "persona_id" candidate.metadata) [
      | none ↦ false
      | some p ↦ p == persona_id
    ]

unfoldable pub release_persona : Task → Blackboard → Blackboard
unfolding text_member get_persona list_tasks any occupies put_persona
release_persona t b = elim (text_member "persona_id" t.metadata) [
  | none ↦ b
  | some persona_id ↦ elim (get_persona persona_id b) [
    | none ↦ b
    | some persona ↦
        if any (occupies persona_id t) (list_tasks b) || not (persona.status == "busy")
        then b
        else put_persona (record persona { status = "idle" }) b
  ]
]

abbrev pub released : SessionBinding → SessionBinding
released claimed = record claimed {
  claimed_by = none;
  claim_expires_at = none;
  binding_status = BindingStatus.released;
}

-- The summary of a task that could not be started.
unfoldable pub not_started : Task → String → String → TaskSummary
not_started t operational conversational = record {
  task_id = t.task_id;
  operational_summary = some operational;
  conversational_summary = some conversational;
  latest_user_visible_status = some "failed";
  needs_user_input = false;
}

unfoldable pub fail_unknown_executor : Task → SessionBinding → String → Blackboard → Blackboard
unfolding fstring
fail_unknown_executor t claimed executor_type b =
    let b₁ = put_task (record t { status = TaskStatus.failed }) b in
    let b₂ =
      put_summary
        (not_started t (fstring ("Unknown executor '" ∷ executor_type ∷ "'." ∷ [])) (
          fstring (
            "I couldn't start this task because executor '" ∷ executor_type ∷ "' is not available."
            ∷ [])))
        b₁ in
    put_binding (released claimed) b₂

unfoldable pub exception_message : Exception → String
unfolding fstring
exception_message exc =
    let message = strip exc.message in
    if truthy message then message else fstring (exc.error_type ∷ " during execution." ∷ [])

-- The event that reports an exception.
unfoldable pub exception_event : Exception → ExecutionRun → Option ExecutionSession → ExecutorEvent
unfolding exception_message
exception_event exc run session = record {
  run_id = run.run_id;
  session_id = elim session [ none ↦ run.execution_session_id | some s ↦ s.execution_session_id ];
  event_type = ExecutorEventType.failed;
  message = some (exception_message exc);
  metadata =
      fields
        (("reason_code", text "execution_exception") ∷ ("error_type", text exc.error_type) ∷ []);
}

-- The part that differs with a run and without one; the task as it is then.
unfoldable pub fail_task :
    Moment
    → Task
    → Exception
    → Option ExecutionRun
    → Option ExecutionSession
    → Blackboard
    → Blackboard × Task
unfolding fstring exception_message
fail_task m t exc (some run) session b =
    let (b', t', run') =
      apply_event m.detail_id m.created_at (exception_event exc run session) t run b in
    (put_summary (build_summary t' run') b', t')
fail_task m t exc none session b =
    let t' : Task = record t { status = TaskStatus.failed } in
    (
      put_summary
          (not_started t (exception_message exc) (
            fstring (
              "I couldn't start this task because execution failed: "
              ∷ exception_message exc
              ∷ [])))
          (put_task t' b),
      t',
    )

unfoldable pub fail_execution_exception :
    Moment
    → Task
    → SessionBinding
    → Exception
    → Option ExecutionRun
    → Option ExecutionSession
    → Blackboard
    → Blackboard
fail_execution_exception m t claimed exc run session b =
    let (b', t') = fail_task m t exc run session b in
    release_persona t' (put_binding (released claimed) b')
