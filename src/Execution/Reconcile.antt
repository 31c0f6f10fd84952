-- ===== src/Execution/Reconcile.antt =====
-- execution/reconcile.py: how a claimed task is run; Failures has the ways in which it fails. The
-- executors and the resume handle's validation, which is the record library's, are parameters.
-- `moments` gives the ids, time stamps and elapsed times that the events of a run meet, in their
-- order. Tasks that run at the same time are not interleaved: between two events of a run no other
-- code writes.
pub mod Personas
pub mod Events
pub mod Failing
pub mod Finishing
pub mod Outcomes
pub mod Completion
use newbro.Prelude.{
  ℕ, suc, ◌+◌, String, List, [], ◌∷◌, Bool, true, false, not, ◌||◌, ◌&&◌, Option, none, some,
  if◌then◌else◌, ◌⊎◌, inl, inr, any, length,
}
use newbro.Prelude.Text.{◌==◌, truthy, strip, fstring, first_text}
use newbro.Prelude.Dict as D
use newbro.Prelude.Dict.{Dict}
use newbro.Prelude.Json.{Fields, text, object, fields, assign, member, text_member}
use newbro.Protocol.Enums.{TaskStatus, RunStatus, BindingStatus, run_status_is}
use newbro.Protocol.Records.{
  Task, ExecutionRun, ExecutionSession, SessionBinding, AgentResumeHandle, TaskSummary, Persona,
}
use newbro.Blackboard.State.{Blackboard}
use newbro.Blackboard.Tasks.{put_task, list_tasks}
use newbro.Blackboard.Sessions.{put_session, put_binding, put_summary}
use newbro.Blackboard.Personas.{get_persona, put_persona}
use newbro.Execution.Events.{ExecutorEvent, ExecutorEventType}
use newbro.Execution.Modes.{initialize_task_mode, classify, is_terminal}
use newbro.Execution.Runs.{create_run, apply_event}
use newbro.Execution.Summaries.{build_summary}
use newbro.Execution.Sessions.{
  ExecutorSession, Exception, Executor, RunStream, Live, Ensured, ensure_session,
}
use newbro.Execution.Failures.{
  Moment, holds_persona, occupies, release_persona, released, not_started, fail_unknown_executor,
  exception_message, exception_event, fail_task, fail_execution_exception,
}

-- The task as the executor sees it: with the prompt of its persona.
unfoldable pub prompted_task : Task → Blackboard → Task
unfolding text_member get_persona assign
prompted_task t b = elim (text_member "persona_id" t.metadata) [
  | none ↦ t
  | some persona_id ↦ elim (get_persona persona_id b) [
    | none ↦ t
    | some persona ↦
        let prompted : Task = record t {
          metadata = assign "executor_persona_prompt" (text persona.base_prompt) t.metadata;
        } in
        if truthy persona.base_prompt then prompted else t
  ]
]

-- The events of a run from the n-th on: each is applied, and then the mode is decided again.
unfoldable pub follow :
    ℕ
    → (ℕ → Moment)
    → ℕ
    → List ExecutorEvent
    → Blackboard × Task × ExecutionRun
    → Blackboard × Task × ExecutionRun
follow threshold moments n [] (b, t, r) = (b, t, r)
follow threshold moments n (e ∷ es) (b, t, r) =
    let m = moments n in
    let (b', t', r') = apply_event m.detail_id m.created_at e t r b in
    let (b'', mode) = classify threshold t'.task_id r'.run_id r'.status m.elapsed_seconds b' in
    follow threshold moments (suc n) es (b'', t', r')

pub invalid_handle : Exception
invalid_handle = record {
  error_type = "RuntimeError";
  message = "Executor returned an invalid resume handle.";
}

-- A run that ended without an exception.
unfoldable pub finish_run :
    Task
    → SessionBinding
    → ExecutionRun
    → ExecutionSession
    → Blackboard
    → Blackboard × Option String
finish_run t claimed run session b =
    let b₁ = put_summary (build_summary t run) b in
    let parked =
      put_binding (released claimed) (put_session (record session { active_run_id = none }) b₁) in
    let b₂ = if run_status_is run.status RunStatus.waiting_executor then parked else b₁ in
    let freed = release_persona t b₂ in
    (
      if is_terminal run.status then freed else b₂,
      if run_status_is run.status RunStatus.completed then some run.run_id else none,
    )

module _ (model_validate : Fields → Option AgentResumeHandle) where
  unfoldable pub sync_executor_session :
      ExecutionSession → ExecutorSession → Blackboard → (Blackboard × ExecutionSession) ⊎ Exception
  unfolding member invalid_handle
  sync_executor_session session x b = elim (member "latest_resume_handle" x.metadata) [
    | some (object d) ↦ elim (model_validate d) [
      | none ↦ inr invalid_handle
      | some h ↦
          let session' : ExecutionSession = record session { latest_resume_handle = some h } in
          inl (put_session session' b, session')
    ]
    | _ ↦ inl (b, session)
  ]

  -- What follows the last event: the moment after it is that of an exception.
  unfoldable pub end_run :
      Moment
      → SessionBinding
      → ExecutionSession
      → RunStream
      → Blackboard × Task × ExecutionRun
      → Blackboard × Option String
  end_run m claimed session stream (b, t, run) = elim stream.failure [
    | some exc ↦ (fail_execution_exception m t claimed exc (some run) (some session) b, none)
    | none ↦ elim (sync_executor_session session stream.session b) [
      | inr exc ↦ (fail_execution_exception m t claimed exc (some run) (some session) b, none)
      | inl (b', session') ↦ finish_run t claimed run session' b'
    ]
  ]

  module _ (threshold : ℕ) (moments : ℕ → Moment) (executor : Executor) where
    -- The run of a task that has its session. The executor's session is the live one, so what the
    -- executor leaves in it is what the manager has.
    unfoldable pub run_ensured :
        String → String → Task → Task → Ensured → Live → Live × Option String
    unfolding D.put
    run_ensured run_id executor_type t executor_task x l =
        let (b₁, run, session) =
          create_run run_id t x.session x.binding.claimed_by executor_type l.board in
        let (b₂, mode) = initialize_task_mode t.task_id b₁ in
        let stream = executor.run_task run executor_task x.executor_session in
        let followed = follow threshold moments 0 stream.events (b₂, t, run) in
        let (b₃, result) =
          end_run (moments (length stream.events)) x.binding session stream followed in
        (
          record {
            sessions = D.put session.execution_session_id stream.session l.sessions;
            board = b₃;
          },
          result,
        )

    -- What follows `ensure_session`, which gave the task its session or raised.
    unfoldable pub after_ensured :
        String
        → String
        → Task
        → Task
        → SessionBinding
        → Live × (Ensured ⊎ Exception)
        → Live × Option String
    after_ensured run_id executor_type t executor_task claimed (l, inr exc) = (
      record l { board = fail_execution_exception (moments 0) t claimed exc none none l.board },
      none,
    )
    after_ensured run_id executor_type t executor_task claimed (l, inl x) =
        run_ensured run_id executor_type t executor_task x l

  -- `_execute_task`; `fresh` and `run_id` are the ids that a new session and the run get.
  unfoldable pub execute_task :
      Dict Executor
      → String
      → ℕ
      → (ℕ → Moment)
      → String
      → String
      → Task
      → SessionBinding
      → Live
      → Live × Option String
  unfolding D.get
  execute_task registry default_executor_type threshold moments fresh run_id t claimed l =
      let executor_type = first_text t.preferred_executor default_executor_type in
      elim (D.get executor_type registry) [
        | none ↦ (record l { board = fail_unknown_executor t claimed executor_type l.board }, none)
        | some executor ↦
            after_ensured threshold moments executor run_id executor_type t
              (prompted_task t l.board) claimed (ensure_session executor fresh t claimed l)
      ]
