-- ===== src/Execution/Reconcile/Events.antt =====
-- execution/reconcile.py: the task, its run and the store while the events of the run are followed.
use newbro.Prelude.{
  ℕ, suc, String, List, [], ◌∷◌, ◌++◌, Bool, true, false, ◌≡◌, ◌≢◌, refl, ap, sym, ◌∙◌, ◌⊎◌, inl,
  inr, Bool-cases, Option-cases, All, if◌then◌else◌,
}
use newbro.Prelude.Dict as D
use newbro.Prelude.Dict.{Dict}
use newbro.Protocol.Enums.{TaskStatus, RunStatus}
use newbro.Protocol.Records.{Task, ExecutionRun, SessionBinding, TaskExecutionMode}
use newbro.Blackboard.State.{Blackboard, publish}
use newbro.Blackboard.Tasks.{get_task}
use newbro.Blackboard.Runs.{get_run}
use newbro.Blackboard.Sessions.{put_execution_mode, get_execution_mode}
use newbro.Execution.Events.{ExecutorEvent, ExecutorEventType}
use newbro.Execution.Modes.{initialize_task_mode, classify, updated_mode}
use newbro.Execution.Runs.{apply_event, apply_to_run, task_status_after, is_dropped}
use newbro.Execution.Runs.Coherence.{
  Paired, apply_event-dropped, apply_event-taken, event_Paired, not_dropped,
}
use newbro.Execution.Runs.Cancellation.{Holds, apply_event-Holds, run_id-apply_to_run}
use newbro.Execution.Reconcile.{follow}
use newbro.Execution.Failures.{Moment}

-- The tasks, the runs and the bindings of the store.
abbrev pub core : Blackboard → Dict Task × Dict ExecutionRun × Dict SessionBinding
core b = (b.tasks, b.runs, b.bindings_by_task)

pub Holds-core :
    (b b' : Blackboard) (t : Task) (r : ExecutionRun)
    → core b' ≡ core b
    → Holds b t r
    → Holds b' t r
unfolding get_task get_run
Holds-core b b' t r e h = record {
  task = ap (λ c. D.get t.task_id c.0) e ∙ h.task;
  run = ap (λ c. D.get r.run_id c.1) e ∙ h.run;
}

pub core-initialize_task_mode :
    (k : String) (b : Blackboard) → core (initialize_task_mode k b).0 ≡ core b
unfolding initialize_task_mode put_execution_mode publish
core-initialize_task_mode k b = elim (Option-cases (get_execution_mode k b)) [
  | inl p ↦ rw (p, initialize_task_mode) refl
  | inr (m, p) ↦ rw (p, initialize_task_mode) refl
]

core-put_if :
    (c : Bool) (m : TaskExecutionMode) (b : Blackboard)
    → core (if c then put_execution_mode m b else b) ≡ core b
unfolding put_execution_mode publish
core-put_if true m b = refl
core-put_if false m b = refl

core-classify :
    (threshold : ℕ) (k j : String) (s : RunStatus) (n : ℕ) (b : Blackboard)
    → core (classify threshold k j s n b).0 ≡ core b
unfolding classify
core-classify threshold k j s n b =
    let (b', current) = initialize_task_mode k b in
    let (updated, changed) = updated_mode threshold current j s n in
    core-put_if changed updated b' ∙ core-initialize_task_mode k b

-- The store holds the task and the run, under these ids; their statuses go together once an event
-- has been taken.
pub record Following (k j : String) (s : Blackboard × Task × ExecutionRun) : Type 0 where
  pub held : Holds s.0 s.1 s.2
  pub task_id : s.1.task_id ≡ k
  pub run_id : s.2.run_id ≡ j
  pub paired : Paired s.1.status s.2.status ⊎ (s.2.status ≡ RunStatus.assigned)

apply_event-Following :
    (k j i at : String) (e : ExecutorEvent) (b : Blackboard) (t : Task) (r : ExecutionRun)
    → Following k j (b, t, r)
    → Following k j (apply_event i at e t r b)
apply_event-Following k j i at e b t r h = elim (Bool-cases (is_dropped t e.event_type)) [
  | inl drop ↦ rw (apply_event-dropped i at e t r b drop) h
  | inr take ↦
      let taken = apply_event-taken i at e t r b take in
      record {
        held = apply_event-Holds i at e t r b h.held;
        task_id = ap (λ (u : Task). u.task_id) taken.0 ∙ h.task_id;
        run_id =
            ap (λ (u : ExecutionRun). u.run_id) taken.1
            ∙ run_id-apply_to_run e.event_type e r
            ∙ h.run_id;
        paired = inl (event_Paired i at e t r b (inr take));
      }
]

pub Following-core :
    (k j : String) (b b' : Blackboard) (t : Task) (r : ExecutionRun)
    → core b' ≡ core b
    → Following k j (b, t, r)
    → Following k j (b', t, r)
Following-core k j b b' t r e h = record {
  held = Holds-core b b' t r e h.held;
  task_id = h.task_id;
  run_id = h.run_id;
  paired = h.paired;
}

module _ (threshold : ℕ) (moments : ℕ → Moment) where
  abbrev step :
      ℕ → ExecutorEvent → Blackboard × Task × ExecutionRun → Blackboard × Task × ExecutionRun
  step n e (b, t, r) =
      let (b', t', r') = apply_event (moments n).detail_id (moments n).created_at e t r b in
      ((classify threshold t'.task_id r'.run_id r'.status (moments n).elapsed_seconds b').0, t', r')

  pub step-Following :
      (k j : String) (n : ℕ) (e : ExecutorEvent) (s : Blackboard × Task × ExecutionRun)
      → Following k j s
      → Following k j (step n e s)
  step-Following k j n e (b, t, r) h =
      Following-core k j _ _ _ _ (core-classify threshold _ _ _ _ _)
        (apply_event-Following k j (moments n).detail_id (moments n).created_at e b t r h)

  pub follow-Following :
      (k j : String) (n : ℕ) (es : List ExecutorEvent) (s : Blackboard × Task × ExecutionRun)
      → Following k j s
      → Following k j (follow threshold moments n es s)
  unfolding follow
  follow-Following k j n [] s h = h
  follow-Following k j n (e ∷ es) s h =
      follow-Following k j (suc n) es (step n e s) (step-Following k j n e s h)

  -- The task is not cancelled, and what comes does not cancel it.
  step-alive :
      (n : ℕ) (e : ExecutorEvent) (s : Blackboard × Task × ExecutionRun)
      → s.1.status ≢ TaskStatus.cancelled
      → (step n e s).1.status ≡ task_status_after e.event_type
  step-alive n e (b, t, r) h =
      ap (λ (u : Task). u.status)
        (apply_event-taken (moments n).detail_id (moments n).created_at e t r b
          (not_dropped t e.event_type h)).0

  after_uncancelled :
      (y : ExecutorEventType)
      → y ≢ ExecutorEventType.cancelled
      → task_status_after y ≢ TaskStatus.cancelled
  unfolding task_status_after
  after_uncancelled ExecutorEventType.cancelled n e = n refl
  after_uncancelled _ n e = cc

  completed_run :
      (n : ℕ) (e : ExecutorEvent) (s : Blackboard × Task × ExecutionRun)
      → s.1.status ≢ TaskStatus.cancelled
      → e.event_type ≡ ExecutorEventType.completed
      → (step n e s).2.status ≡ RunStatus.completed
  unfolding apply_to_run
  completed_run n e (b, t, r) h c =
      ap (λ (u : ExecutionRun). u.status)
        (apply_event-taken (moments n).detail_id (moments n).created_at e t r b
          (not_dropped t e.event_type h)).1
      ∙ ap (λ y. (apply_to_run y e r).status) c

  -- The run of a task that is not cancelled is completed after events that end in its completion and
  -- do not cancel it before.
  pub follow-completed :
      (n : ℕ) (es : List ExecutorEvent) (e : ExecutorEvent) (s : Blackboard × Task × ExecutionRun)
      → s.1.status ≢ TaskStatus.cancelled
      → All (λ x. x.event_type ≢ ExecutorEventType.cancelled) es
      → e.event_type ≡ ExecutorEventType.completed
      → (follow threshold moments n (es ++ e ∷ []) s).2.status ≡ RunStatus.completed
  unfolding follow
  follow-completed n [] e s h a c = completed_run n e s h c
  follow-completed n (x ∷ es) e s h a c =
      follow-completed (suc n) es e (step n x s)
        (λ d. after_uncancelled x.event_type a.0 (sym (step-alive n x s h) ∙ d)) a.1 c
