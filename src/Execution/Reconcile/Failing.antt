-- ===== src/Execution/Reconcile/Failing.antt =====
-- execution/reconcile.py: what is left of a task that could not be run.
use newbro.Prelude.{
  String, true, some, none, Option, ◌≡◌, refl, ap, sym, ◌∙◌, inl, inr, Bool-cases, arith,
}
use mathlib.Core.Path.{subst}
use newbro.Prelude.Text.{eq_refl}
use newbro.Prelude.Dict as D
use newbro.Protocol.Enums.{TaskStatus, BindingStatus, task_status_is}
use newbro.Protocol.Records.{Task, ExecutionRun, ExecutionSession, SessionBinding, TaskSummary}
use newbro.Blackboard.State.{Blackboard, publish}
use newbro.Blackboard.Tasks.{get_task, put_task}
use newbro.Blackboard.Sessions.{get_binding, put_binding, put_summary, put_session}
use newbro.Execution.Events.{ExecutorEvent, ExecutorEventType}
use newbro.Execution.Runs.{apply_event, is_dropped, task_status_after}
use newbro.Execution.Runs.Coherence.{apply_event-dropped, apply_event-taken}
use newbro.Execution.Runs.Cancellation.{Holds, apply_event-Holds}
use newbro.Execution.Sessions.{Exception}
use newbro.Execution.Failures.{
  Moment, released, fail_unknown_executor, fail_task, fail_execution_exception, exception_event,
}
use newbro.Execution.Reconcile.Events.{core}
use newbro.Execution.Reconcile.Personas.{core-release_persona}

-- The task of this id is stored with a status that satisfies the predicate.
abbrev pub HasStatus : String → (TaskStatus → Type 0) → Blackboard → Type 0
HasStatus k P b = (u : Task) × (get_task k b ≡ some u) × P u.status

-- The task is not bound to a worker any more.
abbrev pub IsReleased : String → Blackboard → Type 0
IsReleased k b =
    (c : SessionBinding) × (get_binding k b ≡ some c)
    × (c.claimed_by ≡ none)
    × (c.claim_expires_at ≡ none)
    × (c.binding_status ≡ BindingStatus.released)

abbrev pub IsFailed : TaskStatus → Type 0
IsFailed TaskStatus.failed = Unit {0}
IsFailed TaskStatus.cancelled = Unit {0}
IsFailed _ = ⊥

pub HasStatus-core :
    (k : String) (P : TaskStatus → Type 0) (b b' : Blackboard)
    → core b' ≡ core b
    → HasStatus k P b
    → HasStatus k P b'
unfolding get_task
HasStatus-core k P b b' e (u, h, p) = (u, ap (λ c. D.get k c.0) e ∙ h, p)

pub IsReleased-core :
    (k : String) (b b' : Blackboard) → core b' ≡ core b → IsReleased k b → IsReleased k b'
unfolding get_binding
IsReleased-core k b b' e (c, h, p, q, s) = (c, ap (λ x. D.get k x.2) e ∙ h, p, q, s)

pub put_binding-IsReleased :
    (k : String) (c : SessionBinding) (b : Blackboard)
    → c.task_id ≡ k
    → IsReleased k (put_binding (released c) b)
unfolding get_binding put_binding publish
put_binding-IsReleased k c b h =
    subst (λ j. IsReleased j (put_binding (released c) b)) h
      (
        released c,
        ground (
          arith,
          D.get-put c.task_id c.task_id (released c) b.bindings_by_task,
          eq_refl c.task_id,
        ),
        refl,
        refl,
        refl,
      )

pub HasStatus-put_binding :
    (k : String) (P : TaskStatus → Type 0) (c : SessionBinding) (b : Blackboard)
    → HasStatus k P b
    → HasStatus k P (put_binding c b)
unfolding put_binding publish get_task
HasStatus-put_binding k P c b (u, h, p) = (u, h, p)

pub core-put_summary : (s : TaskSummary) (b : Blackboard) → core (put_summary s b) ≡ core b
unfolding put_summary publish
core-put_summary s b = refl

pub core-put_session : (s : ExecutionSession) (b : Blackboard) → core (put_session s b) ≡ core b
unfolding put_session publish
core-put_session s b = refl

put_task-HasStatus :
    (t : Task) (b : Blackboard)
    → HasStatus t.task_id IsFailed (put_task (record t { status = TaskStatus.failed }) b)
unfolding get_task put_task publish
put_task-HasStatus t b = (
  record t { status = TaskStatus.failed },
  ground (
    arith,
    D.get-put t.task_id t.task_id (record t { status = TaskStatus.failed }) b.tasks,
    eq_refl t.task_id,
  ),
  tt,
)

-- The task is stored as failed, or as cancelled if it was, and its claim is given up.
abbrev pub IsStopped : String → Blackboard → Type 0
IsStopped k b = HasStatus k IsFailed b × IsReleased k b

pub fail_unknown_executor-IsStopped :
    (t : Task) (claimed : SessionBinding) (y : String) (b : Blackboard)
    → claimed.task_id ≡ t.task_id
    → IsStopped t.task_id (fail_unknown_executor t claimed y b)
unfolding fail_unknown_executor
fail_unknown_executor-IsStopped t claimed y b h =
    let b' = put_task (record t { status = TaskStatus.failed }) b in
    (
      HasStatus-put_binding t.task_id IsFailed (released claimed) _
          (HasStatus-core t.task_id IsFailed b' _ (core-put_summary _ b') (put_task-HasStatus t b)),
      put_binding-IsReleased t.task_id claimed _ h,
    )

cancelled-IsFailed : (s : TaskStatus) → task_status_is s TaskStatus.cancelled ≡ true → IsFailed s
cancelled-IsFailed TaskStatus.failed h = tt
cancelled-IsFailed TaskStatus.cancelled h = tt
cancelled-IsFailed _ h = cc

dropped-IsFailed : (t : Task) → is_dropped t ExecutorEventType.failed ≡ true → IsFailed t.status
unfolding is_dropped
dropped-IsFailed t h = cancelled-IsFailed t.status h

failed_status : IsFailed (task_status_after ExecutorEventType.failed)
unfolding task_status_after
failed_status = tt

-- After a failure that is reported, the task that the store holds is failed or cancelled.
report-IsFailed :
    (i at : String) (e : ExecutorEvent) (t : Task) (run : ExecutionRun) (b : Blackboard)
    → e.event_type ≡ ExecutorEventType.failed
    → let (b', t', r') = apply_event i at e t run b in (t'.task_id ≡ t.task_id) × IsFailed t'.status
report-IsFailed i at e t run b f = elim (Bool-cases (is_dropped t e.event_type)) [
  | inl drop ↦
      rw (apply_event-dropped i at e t run b drop)
        (refl, dropped-IsFailed t (ap (is_dropped t) (sym f) ∙ drop))
  | inr take ↦ rw ((apply_event-taken i at e t run b take).0, f) (refl, failed_status)
]

module _ (m : Moment) (t : Task) (exc : Exception) where
  fail_task-HasStatus :
      (run : ExecutionRun) (session : Option ExecutionSession) (b : Blackboard)
      → Holds b t run
      → HasStatus t.task_id IsFailed (fail_task m t exc (some run) session b).0
  unfolding fail_task exception_event
  fail_task-HasStatus run session b h =
      let e = exception_event exc run session in
      let (b', t', r') = apply_event m.detail_id m.created_at e t run b in
      let kept = apply_event-Holds m.detail_id m.created_at e t run b h in
      let (same, over) = report-IsFailed m.detail_id m.created_at e t run b refl in
      HasStatus-core t.task_id IsFailed b' _ (core-put_summary _ b')
        (t', ap (λ k. get_task k b') (sym same) ∙ kept.task, over)

  fail_task-none : (b : Blackboard) → HasStatus t.task_id IsFailed (fail_task m t exc none none b).0
  unfolding fail_task
  fail_task-none b =
      HasStatus-core t.task_id IsFailed _ _ (core-put_summary _ _) (put_task-HasStatus t b)

  -- Whatever the failure left of the task, the claim is given up after it.
  fail_rest :
      (claimed : SessionBinding) (run : Option ExecutionRun) (session : Option ExecutionSession)
      (b : Blackboard)
      → claimed.task_id ≡ t.task_id
      → HasStatus t.task_id IsFailed (fail_task m t exc run session b).0
      → IsStopped t.task_id (fail_execution_exception m t claimed exc run session b)
  unfolding fail_execution_exception
  fail_rest claimed run session b same h =
      let (b', t') = fail_task m t exc run session b in
      let b₁ = put_binding (released claimed) b' in
      (
        HasStatus-core t.task_id IsFailed b₁ _ (core-release_persona t' b₁)
            (HasStatus-put_binding t.task_id IsFailed (released claimed) b' h),
        IsReleased-core t.task_id b₁ _ (core-release_persona t' b₁)
            (put_binding-IsReleased t.task_id claimed b' same),
      )

  pub fail_running-IsStopped :
      (claimed : SessionBinding) (run : ExecutionRun) (session : Option ExecutionSession)
      (b : Blackboard)
      → claimed.task_id ≡ t.task_id
      → Holds b t run
      → IsStopped t.task_id (fail_execution_exception m t claimed exc (some run) session b)
  fail_running-IsStopped claimed run session b same h =
      fail_rest claimed (some run) session b same (fail_task-HasStatus run session b h)

  pub fail_unstarted-IsStopped :
      (claimed : SessionBinding) (b : Blackboard)
      → claimed.task_id ≡ t.task_id
      → IsStopped t.task_id (fail_execution_exception m t claimed exc none none b)
  fail_unstarted-IsStopped claimed b same = fail_rest claimed none none b same (fail_task-none b)
