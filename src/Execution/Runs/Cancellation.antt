-- ===== src/Execution/Runs/Cancellation.antt =====
-- execution/run_manager.py: cancelled tasks, and what the store holds after a report.
use newbro.Prelude.{
  String, List, [], ◌∷◌, Bool, true, false, some, ◌≡◌, ◌≢◌, refl, ap, ◌∙◌, arith, if◌then◌else◌,
  Bool-cases, inl, inr, All, ◌⊎◌,
}
use newbro.Prelude.Text.{eq_refl}
use newbro.Prelude.Dict as D
use newbro.Protocol.Enums.{TaskStatus}
use newbro.Protocol.Records.{Task, ExecutionRun, TaskExecutionDetailEntry}
use newbro.Blackboard.State.{Blackboard}
use newbro.Blackboard.Tasks.{get_task, put_task, append_task_execution_detail}
use newbro.Blackboard.Runs.{get_run, put_run}
use newbro.Execution.Events.{ExecutorEvent, ExecutorEventType}
use newbro.Execution.Runs.{
  apply_event, apply_to_run, task_status_after, is_dropped, reflect, announce,
}
use newbro.Execution.Runs.Coherence.{Report, apply_events, apply_event-dropped, apply_event-taken}

-- The store holds the task and the run under their ids.
pub record Holds (b : Blackboard) (t : Task) (r : ExecutionRun) : Type 0 where
  pub task : get_task t.task_id b ≡ some t
  pub run : get_run r.run_id b ≡ some r

Holds-if :
    (c : Bool) (x y : Blackboard) (t : Task) (r : ExecutionRun)
    → Holds x t r
    → Holds y t r
    → Holds (if c then x else y) t r
Holds-if true x y t r hx hy = hx
Holds-if false x y t r hx hy = hy

Holds-detail :
    (e : TaskExecutionDetailEntry) (b : Blackboard) (t : Task) (r : ExecutionRun)
    → Holds b t r
    → Holds (append_task_execution_detail e b) t r
unfolding append_task_execution_detail get_task get_run
Holds-detail e b t r h = record { task = h.task; run = h.run }

Holds-put_run :
    (b : Blackboard) (t : Task) (r : ExecutionRun) → Holds b t r → Holds (put_run r b) t r
unfolding put_run get_task get_run
Holds-put_run b t r h = record {
  task = h.task;
  run = ground (arith, D.get-put r.run_id r.run_id r b.runs, eq_refl r.run_id);
}

Holds-put_task :
    (b : Blackboard) (t : Task) (r : ExecutionRun) → Holds b t r → Holds (put_task t b) t r
unfolding put_task get_task get_run
Holds-put_task b t r h = record {
  task = ground (arith, D.get-put t.task_id t.task_id t b.tasks, eq_refl t.task_id);
  run = h.run;
}

Holds-reflect :
    (b : Blackboard) (t t' : Task) (r r' : ExecutionRun)
    → Holds b t r
    → t'.task_id ≡ t.task_id
    → r'.run_id ≡ r.run_id
    → Holds (reflect t' r' b) t' r'
unfolding reflect get_task get_run
Holds-reflect b t t' r r' h p q = record {
  task = ground (
    arith,
    D.get-put t'.task_id t'.task_id t' b.tasks,
    eq_refl t'.task_id,
    h.task,
    p,
    ap (λ k. D.get k b.tasks) p,
  );
  run = ground (
    arith,
    D.get-put r'.run_id r'.run_id r' b.runs,
    eq_refl r'.run_id,
    h.run,
    q,
    ap (λ k. D.get k b.runs) q,
  );
}

pub run_id-apply_to_run :
    (y : ExecutorEventType) (e : ExecutorEvent) (r : ExecutionRun)
    → (apply_to_run y e r).run_id ≡ r.run_id
unfolding apply_to_run
run_id-apply_to_run ExecutorEventType.progress e r = refl
run_id-apply_to_run _ e r = refl

announce-Holds :
    (new_detail new_run new_task : Bool) (entry : TaskExecutionDetailEntry) (b : Blackboard)
    (t : Task) (r : ExecutionRun)
    → Holds b t r
    → Holds (announce new_detail new_run new_task entry t r b) t r
unfolding announce
announce-Holds new_detail new_run new_task entry b t r h =
    let h₁ =
      Holds-if new_detail (append_task_execution_detail entry b) b t r (Holds-detail entry b t r h)
        h in
    let h₂ = Holds-if new_run (put_run r _) _ t r (Holds-put_run _ t r h₁) h₁ in
    Holds-if new_task (put_task t _) _ t r (Holds-put_task _ t r h₂) h₂

-- If the store holds the task and the run before a report, it holds after it the task and the run
-- that the report leaves, also where no put was made because nothing had changed.
pub apply_event-Holds :
    (i at : String) (e : ExecutorEvent) (t : Task) (r : ExecutionRun) (b : Blackboard)
    → Holds b t r
    → let (b', t', r') = apply_event i at e t r b in Holds b' t' r'
apply_event-Holds i at e t r b h = elim (Bool-cases (is_dropped t e.event_type)) [
  | inl drop ↦ rw (apply_event-dropped i at e t r b drop) h
  | inr take ↦
      unfold apply_event in
      rw take (
        announce-Holds _ _ _ _ _ _ _
          (Holds-reflect b t _ r _ h refl (run_id-apply_to_run e.event_type e r)))
]

after_cancel : task_status_after ExecutorEventType.cancelled ≡ TaskStatus.cancelled
unfolding task_status_after
after_cancel = refl

dropped_or_cancel :
    (t : Task) (y : ExecutorEventType)
    → t.status ≡ TaskStatus.cancelled
    → (is_dropped t y ≡ true) ⊎ (y ≡ ExecutorEventType.cancelled)
unfolding is_dropped
dropped_or_cancel t ExecutorEventType.cancelled h = inr refl
dropped_or_cancel t _ h = inl (rw h)

apply_events-cons :
    (i at : String) (e : ExecutorEvent) (xs : List Report) (b : Blackboard) (t : Task)
    (r : ExecutionRun)
    → apply_events ((i, at, e) ∷ xs) (b, t, r) ≡ apply_events xs (apply_event i at e t r b)
unfolding apply_events
apply_events-cons i at e xs b t r = refl

-- For a cancelled task every report but a cancellation is dropped: the store, the task and the run
-- stay as they are; and whatever the reports, the task stays cancelled.
pub cancelled_stays :
    (xs : List Report) (b : Blackboard) (t : Task) (r : ExecutionRun)
    → t.status ≡ TaskStatus.cancelled
    → (All (λ x. x.2.event_type ≢ ExecutorEventType.cancelled) xs
        → apply_events xs (b, t, r) ≡ (b, t, r))
      × ((apply_events xs (b, t, r)).1.status ≡ TaskStatus.cancelled)
cancelled_stays [] b t r h = (λ a. unfold apply_events in refl, unfold apply_events in h)
cancelled_stays ((i, at, e) ∷ xs) b t r h = elim (dropped_or_cancel t e.event_type h) [
  | inl drop ↦
      let same =
        apply_events-cons i at e xs b t r
        ∙ ap (apply_events xs) (apply_event-dropped i at e t r b drop) in
      (
        λ a. same ∙ (cancelled_stays xs b t r h).0 a.1,
        ap (λ s. s.1.status) same ∙ (cancelled_stays xs b t r h).1,
      )
  | inr same ↦
      let (b', t', r') = apply_event i at e t r b in
      let taken = apply_event-taken i at e t r b (rw same (unfold is_dropped in refl)) in
      let gone = ap (λ (u : Task). u.status) taken.0 ∙ ap task_status_after same ∙ after_cancel in
      (
        λ a. absurd (a.0 same),
        ap (λ s. s.1.status) (apply_events-cons i at e xs b t r)
            ∙ (cancelled_stays xs b' t' r' gone).1,
      )
]
