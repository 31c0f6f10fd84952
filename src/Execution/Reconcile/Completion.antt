-- ===== src/Execution/Reconcile/Completion.antt =====
-- execution/reconcile.py: a task whose executor completes it is completed.
use newbro.Prelude.{
  ℕ, String, List, [], ◌∷◌, ◌++◌, true, some, none, Option, ◌≡◌, ◌≢◌, ap, ◌∙◌, inl, inr, ◌⊎◌,
  is_some, All, arith, length,
}
use newbro.Prelude.Text.{first_text}
use newbro.Prelude.Dict as D
use newbro.Prelude.Dict.{Dict}
use newbro.Prelude.Json.{Fields, object, member}
use newbro.Protocol.Enums.{TaskStatus, RunStatus}
use newbro.Protocol.Records.{
  Task, ExecutionRun, ExecutionSession, SessionBinding, AgentResumeHandle,
}
use newbro.Blackboard.State.{Blackboard}
use newbro.Blackboard.Tasks.{get_task}
use newbro.Execution.Events.{ExecutorEvent, ExecutorEventType}
use newbro.Execution.Modes.{initialize_task_mode}
use newbro.Execution.Runs.{create_run}
use newbro.Execution.Sessions.{
  Exception, Executor, ExecutorSession, Live, Ensured, RunStream, ensure_session,
}
use newbro.Execution.Sessions.Serving.{Outcome, ensure_session_serves}
use newbro.Execution.Sessions.Stored.{Stored}
use newbro.Execution.Reconcile.{
  execute_task, after_ensured, run_ensured, end_run, finish_run, follow, prompted_task,
}
use newbro.Execution.Failures.{Moment}
use newbro.Execution.Reconcile.Events.{
  follow-completed, Following-core, follow-Following, core-initialize_task_mode,
}
use newbro.Execution.Reconcile.Failing.{HasStatus}
use newbro.Execution.Reconcile.Finishing.{IsCompleted, Ended, Kept, ensure_session-Kept}
use newbro.Execution.Reconcile.Outcomes.{sync-Synced, created_Following, execute_task_ends}

-- What the executor yields for a run ends in a completion, with no cancellation before it and no
-- exception after it, and the resume handle that it leaves, if any, is valid.
pub record Completes (model_validate : Fields → Option AgentResumeHandle) (stream : RunStream)
    : Type 0 where
  pub before : List ExecutorEvent
  pub last : ExecutorEvent
  pub events : stream.events ≡ before ++ last ∷ []
  pub completion : last.event_type ≡ ExecutorEventType.completed
  pub uncancelled : All (λ x. x.event_type ≢ ExecutorEventType.cancelled) before
  pub unraised : stream.failure ≡ none
  pub valid :
      (d : Fields)
      → member "latest_resume_handle" stream.session.metadata ≡ some (object d)
      → is_some (model_validate d) ≡ true

module _ (model_validate : Fields → Option AgentResumeHandle) where
  -- A completed run whose stream ended well gives its id back.
  end_run-completed :
      (m : Moment) (claimed : SessionBinding) (session : ExecutionSession) (stream : RunStream)
      (b : Blackboard) (t : Task) (run : ExecutionRun)
      → Completes model_validate stream
      → run.status ≡ RunStatus.completed
      → (end_run model_validate m claimed session stream (b, t, run)).1 ≡ some run.run_id
  unfolding end_run finish_run
  end_run-completed m claimed session stream b t run h done =
      elim (sync-Synced model_validate session stream.session b) [
        | inr (exc, d, q, r, v) ↦ ground (arith, h.valid d r, v)
        | inl (b', s, q, e) ↦ rw (h.unraised, q, end_run) (ground (arith, done))
      ]

  module _ (threshold : ℕ) (moments : ℕ → Moment) (executor : Executor) where
    run_ensured-completed :
        (run_id y : String) (t executor_task : Task) (x : Ensured) (l : Live)
        → get_task t.task_id l.board ≡ some t
        → t.status ≢ TaskStatus.cancelled
        → ((run : ExecutionRun)
            → Completes model_validate (executor.run_task run executor_task x.executor_session))
        → (run_ensured model_validate threshold moments executor run_id y t executor_task x l).1
          ≡ some run_id
    unfolding run_ensured
    run_ensured-completed run_id y t executor_task x l h alive completes =
        let (b₁, run, session) = create_run run_id t x.session x.binding.claimed_by y l.board in
        let (b₂, mode) = initialize_task_mode t.task_id b₁ in
        let stream = executor.run_task run executor_task x.executor_session in
        let c = completes run in
        let start =
          Following-core t.task_id run_id b₁ b₂ t run (core-initialize_task_mode t.task_id b₁)
            (created_Following run_id t x.session x.binding.claimed_by y l.board h) in
        let followed =
          follow-Following threshold moments t.task_id run_id 0 stream.events (b₂, t, run) start in
        let done =
          ap (λ es. (follow threshold moments 0 es (b₂, t, run)).2.status) c.events
          ∙ follow-completed threshold moments 0 c.before c.last (b₂, t, run) alive c.uncancelled
              c.completion in
        end_run-completed (moments (length stream.events)) x.binding session stream _ _ _ c done
        ∙ ap some followed.run_id

  Ended-IsCompleted :
      (k j : String) (b : Blackboard) (o : Option String)
      → o ≡ some j
      → Ended k j (b, o)
      → HasStatus k IsCompleted b
  Ended-IsCompleted k j b (some i) e (p, h) = h
  Ended-IsCompleted k j b none e h = cc

  module _ (threshold : ℕ) (moments : ℕ → Moment) (executor : Executor) where
    after_ensured-completed :
        (run_id y : String) (t executor_task : Task) (claimed : SessionBinding)
        (c : ExecutorSession) (l : Live) (o : Live × (Ensured ⊎ Exception))
        → get_task t.task_id l.board ≡ some t
        → t.status ≢ TaskStatus.cancelled
        → executor.create_session t.session_affinity ≡ inl c
        → ((run : ExecutionRun) (x : ExecutorSession)
            → Completes model_validate (executor.run_task run executor_task x))
        → Kept claimed l o
        → Outcome executor t claimed o
        → (after_ensured model_validate threshold moments executor run_id y t executor_task claimed
            o).1
          ≡ some run_id
    unfolding after_ensured get_task
    after_ensured-completed run_id y t executor_task claimed c l (l', inr exc) h alive made
          completes kept out =
        cc
    after_ensured-completed run_id y t executor_task claimed c l (l', inl x) h alive made completes
          kept out =
        run_ensured-completed threshold moments executor run_id y t executor_task x l'
          (ap (λ d. D.get t.task_id d) kept.0 ∙ h) alive (λ run. completes run x.executor_session)

  -- When a stored, claimed task is not cancelled, the stored sessions stand under their ids, the task's
  -- executor is registered and creates its session, and what it yields for a run of the task ends in a
  -- completion, with no cancellation before it, no exception after it and no invalid resume handle, then
  -- the execution gives the run's id back and the task is stored as completed.
  pub execute_task-IsCompleted :
      (registry : Dict Executor) (default_executor_type : String) (threshold : ℕ)
      (moments : ℕ → Moment) (executor : Executor) (c : ExecutorSession) (fresh run_id : String)
      (t : Task) (claimed : SessionBinding) (l : Live)
      → get_task t.task_id l.board ≡ some t
      → claimed.task_id ≡ t.task_id
      → t.status ≢ TaskStatus.cancelled
      → Stored l.board
      → D.get (first_text t.preferred_executor default_executor_type) registry ≡ some executor
      → executor.create_session t.session_affinity ≡ inl c
      → ((run : ExecutionRun) (x : ExecutorSession)
          → Completes model_validate (executor.run_task run (prompted_task t l.board) x))
      → let (m, result) =
          execute_task model_validate registry default_executor_type threshold moments fresh run_id
            t claimed l in
        (result ≡ some run_id) × HasStatus t.task_id IsCompleted m.board
  unfolding execute_task
  execute_task-IsCompleted registry default_executor_type threshold moments executor c fresh run_id
        t claimed l h same alive sessions registered made completes =
      let y = first_text t.preferred_executor default_executor_type in
      let given =
        after_ensured-completed threshold moments executor run_id y t (prompted_task t l.board)
          claimed c l (ensure_session executor fresh t claimed l) h alive made completes
          (ensure_session-Kept executor fresh t claimed l)
          (ensure_session_serves executor fresh t claimed l sessions) in
      let result : (execute_task model_validate registry default_executor_type threshold moments
            fresh run_id t claimed l).1
          ≡ some run_id =
        rw (registered, execute_task) given in
      (
        result,
        Ended-IsCompleted t.task_id run_id _ _ result (
            execute_task_ends model_validate registry default_executor_type threshold moments fresh
              run_id t claimed l h same),
      )
