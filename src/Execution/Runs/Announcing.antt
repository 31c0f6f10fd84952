-- ===== src/Execution/Runs/Announcing.antt =====
-- execution/run_manager.py: what the store's subscribers were last told of a task and its run.
use newbro.Prelude.{
  String, List, [], ◌∷◌, Bool, true, false, Option, none, some, ◌≡◌, refl, ap, ◌∙◌, sym, arith,
  if◌then◌else◌, Bool-cases, inl, inr,
}
use newbro.Prelude.Text.{eq_iff, eq_refl, option_eq}
use newbro.Prelude.Dict as D
use newbro.Protocol.Enums.{TaskStatus, RunStatus, run_status_is}
use newbro.Protocol.Records.{Task, ExecutionRun, TaskExecutionDetailEntry}
use newbro.Blackboard.State.{Blackboard}
use newbro.Blackboard.Tasks.{put_task, append_task_execution_detail}
use newbro.Blackboard.Runs.{put_run}
use newbro.Blackboard.Tasks.Revisions.{same_status}
use newbro.Execution.Events.{ExecutorEvent}
use newbro.Execution.Runs.{
  apply_event, task_status_after, is_dropped, reflect, announce, run_changed, task_changed,
}
use newbro.Execution.Runs.Coherence.{Report, apply_events, apply_event-dropped}
use newbro.Execution.Runs.Cancellation.{Holds, apply_event-Holds, run_id-apply_to_run}

-- The two runs have the same status, messages and reasons.
pub record SameNews (p r : ExecutionRun) : Type 0 where
  pub status : p.status ≡ r.status
  pub progress : p.latest_progress_message ≡ r.latest_progress_message
  pub output : p.output_summary ≡ r.output_summary
  pub block : p.block_reason ≡ r.block_reason
  pub failure : p.failure_reason ≡ r.failure_reason

-- The last write of the task announced it as it is, and that of the run its status, messages and reasons.
pub record Announced (b : Blackboard) (t : Task) (r : ExecutionRun) : Type 0 where
  pub task : D.get t.task_id b.task_snapshots ≡ some t
  pub run : (p : ExecutionRun) × (D.get r.run_id b.run_snapshots ≡ some p) × SameNews p r

same_run_status : (s r : RunStatus) → run_status_is s r ≡ true → s ≡ r
same_run_status s r h = ground arith

same_text : (a b : Option String) → option_eq a b ≡ true → a ≡ b
same_text none none h = refl
same_text none (some b) h = ground arith
same_text (some a) none h = ground arith
same_text (some a) (some b) h = ground (arith, eq_iff a b)

-- A run that the manager takes for unchanged.
unchanged-SameNews : (p r : ExecutionRun) → run_changed p r ≡ false → SameNews p r
unfolding run_changed
unchanged-SameNews p r h = record {
  status = same_run_status p.status r.status (ground arith);
  progress = same_text _ _ (ground arith);
  output = same_text _ _ (ground arith);
  block = same_text _ _ (ground arith);
  failure = same_text _ _ (ground arith);
}

-- A task that the manager takes for unchanged.
unchanged_task :
    (t : Task) (s : TaskStatus)
    → task_changed t (record t { status = s }) ≡ false
    → record t { status = s } ≡ t
unfolding task_changed
unchanged_task t s h =
    ap (λ x. record t { status = x }) (sym (same_status t.status s (ground arith)))

SameNews-trans : {p q r : ExecutionRun} → SameNews p q → SameNews q r → SameNews p r
SameNews-trans g h = record {
  status = g.status ∙ h.status;
  progress = g.progress ∙ h.progress;
  output = g.output ∙ h.output;
  block = g.block ∙ h.block;
  failure = g.failure ∙ h.failure;
}

detail-Announced :
    (c : Bool) (entry : TaskExecutionDetailEntry) (b : Blackboard) (t : Task) (r : ExecutionRun)
    → Announced b t r
    → Announced (if c then append_task_execution_detail entry b else b) t r
unfolding append_task_execution_detail
detail-Announced true entry b t r a = record { task = a.task; run = a.run }
detail-Announced false entry b t r a = a

run-Announced :
    (b : Blackboard) (t : Task) (r r' : ExecutionRun)
    → r'.run_id ≡ r.run_id
    → Announced b t r
    → Announced (if run_changed r r' then put_run r' b else b) t r'
unfolding put_run
run-Announced b t r r' q a = elim (Bool-cases (run_changed r r')) [
  | inl c ↦ rw c (record {
    task = a.task;
    run = (
      r',
      ground (arith, D.get-put r'.run_id r'.run_id r' b.run_snapshots, eq_refl r'.run_id),
      record { status = refl; progress = refl; output = refl; block = refl; failure = refl },
    );
  })
  | inr c ↦
      let (p, there, same) = a.run in
      rw c (record {
        task = a.task;
        run = (
          p,
          ap (λ k. D.get k b.run_snapshots) q ∙ there,
          SameNews-trans same (unchanged-SameNews r r' c),
        );
      })
]

task-Announced :
    (b : Blackboard) (t : Task) (s : TaskStatus) (r : ExecutionRun)
    → Announced b t r
    → let t' : Task = record t { status = s } in
      Announced (if task_changed t t' then put_task t' b else b) t' r
unfolding put_task
task-Announced b t s r a =
    let t' : Task = record t { status = s } in
    elim (Bool-cases (task_changed t t')) [
      | inl c ↦ rw c (record {
        task = ground (arith, D.get-put t.task_id t.task_id t' b.task_snapshots, eq_refl t.task_id);
        run = a.run;
      })
      | inr c ↦ rw c (record { task = a.task ∙ ap some (sym (unchanged_task t s c)); run = a.run })
    ]

reflect-Announced :
    (b : Blackboard) (t t' : Task) (r r' : ExecutionRun)
    → Announced b t r
    → Announced (reflect t' r' b) t r
unfolding reflect
reflect-Announced b t t' r r' a = record { task = a.task; run = a.run }

event-Announced :
    (i at : String) (e : ExecutorEvent) (t : Task) (r : ExecutionRun) (b : Blackboard)
    → Announced b t r
    → let (b', t', r') = apply_event i at e t r b in Announced b' t' r'
event-Announced i at e t r b a = elim (Bool-cases (is_dropped t e.event_type)) [
  | inl drop ↦ rw (apply_event-dropped i at e t r b drop) a
  | inr take ↦
      unfold apply_event announce in
      rw take (
        task-Announced _ t (task_status_after e.event_type) _ (
          run-Announced _ t r _ (run_id-apply_to_run e.event_type e r)
            (detail-Announced _ _ _ t r (reflect-Announced b t _ r _ a))))
]

-- When the store holds a task and its run as they were last announced, so it does after any reports of
-- the run: the store has the task and the run that the reports leave, the last write of the task announced
-- the task as it is now, and the last write of the run announced the run's status, messages and reasons
-- as they are now.
pub reports-Announced :
    (xs : List Report) (b : Blackboard) (t : Task) (r : ExecutionRun)
    → Holds b t r
    → Announced b t r
    → let (b', t', r') = apply_events xs (b, t, r) in Holds b' t' r' × Announced b' t' r'
unfolding apply_events
reports-Announced [] b t r h a = (h, a)
reports-Announced ((i, at, e) ∷ xs) b t r h a =
    let (b', t', r') = apply_event i at e t r b in
    reports-Announced xs b' t' r' (apply_event-Holds i at e t r b h)
      (event-Announced i at e t r b a)
