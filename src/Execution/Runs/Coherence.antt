-- ===== src/Execution/Runs/Coherence.antt =====
-- execution/run_manager.py with summary_manager.py: the statuses of a task and its run go together,
-- and so does what the user is shown.
use newbro.Prelude.{
  String, List, [], ◌∷◌, true, false, some, ◌≡◌, ◌≢◌, ◌↔◌, refl, arith, Bool-cases, inl, inr, ◌⊎◌,
  sym, ◌∙◌,
}
use mathlib.Core.Bool.{false≢true}
use newbro.Protocol.Enums.{TaskStatus, RunStatus, task_status_value}
use newbro.Protocol.Records.{Task, ExecutionRun}
use newbro.Blackboard.State.{Blackboard}
use newbro.Execution.Events.{ExecutorEvent, ExecutorEventType}
use newbro.Execution.Runs.{apply_event, apply_to_run, task_status_after, is_dropped}
use newbro.Execution.Summaries.{build_summary}

-- The statuses that an executor's reports leave behind.
abbrev pub Paired : TaskStatus → RunStatus → Type 0
Paired TaskStatus.running RunStatus.running = Unit {0}
Paired TaskStatus.waiting_executor RunStatus.waiting_executor = Unit {0}
Paired TaskStatus.waiting_user_input RunStatus.blocked = Unit {0}
Paired TaskStatus.completed RunStatus.completed = Unit {0}
Paired TaskStatus.failed RunStatus.failed = Unit {0}
Paired TaskStatus.cancelled RunStatus.cancelled = Unit {0}
Paired _ _ = ⊥

-- What each report's fresh id and time stamp are, with the report.
abbrev pub Report : Type 0
Report = String × String × ExecutorEvent

unfoldable pub apply_events :
    List Report → Blackboard × Task × ExecutionRun → Blackboard × Task × ExecutionRun
apply_events [] s = s
apply_events ((i, at, e) ∷ rs) (b, t, r) = apply_events rs (apply_event i at e t r b)

after_report :
    (y : ExecutorEventType) (e : ExecutorEvent) (r : ExecutionRun)
    → Paired (task_status_after y) (apply_to_run y e r).status
unfolding task_status_after apply_to_run
after_report ExecutorEventType.progress e r = tt
after_report _ e r = tt

pub apply_event-dropped :
    (i at : String) (e : ExecutorEvent) (t : Task) (r : ExecutionRun) (b : Blackboard)
    → is_dropped t e.event_type ≡ true
    → apply_event i at e t r b ≡ (b, t, r)
apply_event-dropped i at e t r b h = unfold apply_event in rw h

pub apply_event-taken :
    (i at : String) (e : ExecutorEvent) (t : Task) (r : ExecutionRun) (b : Blackboard)
    → is_dropped t e.event_type ≡ false
    → let (_, t', r') = apply_event i at e t r b in
      (t' ≡ record t { status = task_status_after e.event_type })
      × (r' ≡ apply_to_run e.event_type e r)
apply_event-taken i at e t r b h = unfold apply_event in rw h (refl, refl)

pub event_Paired :
    (i at : String) (e : ExecutorEvent) (t : Task) (r : ExecutionRun) (b : Blackboard)
    → (Paired t.status r.status ⊎ (is_dropped t e.event_type ≡ false))
    → let (_, t', r') = apply_event i at e t r b in Paired t'.status r'.status
event_Paired i at e t r b h = elim (Bool-cases (is_dropped t e.event_type)) [
  | inl drop ↦ rw (apply_event-dropped i at e t r b drop) (still h drop)
  | inr take ↦
      let taken = apply_event-taken i at e t r b take in
      rw (taken.0, taken.1) (after_report e.event_type e r)
]
  where
    still :
        (Paired t.status r.status ⊎ (is_dropped t e.event_type ≡ false))
        → is_dropped t e.event_type ≡ true
        → Paired t.status r.status
    still (inl p) d = p
    still (inr n) d = absurd (false≢true (sym n ∙ d))

events_Paired :
    (xs : List Report) (b : Blackboard) (t : Task) (r : ExecutionRun)
    → Paired t.status r.status
    → let (_, t', r') = apply_events xs (b, t, r) in Paired t'.status r'.status
unfolding apply_events
events_Paired [] b t r h = h
events_Paired ((i, at, e) ∷ xs) b t r h =
    let (b', t', r') = apply_event i at e t r b in
    events_Paired xs b' t' r' (event_Paired i at e t r b (inl h))

pub not_dropped :
    (t : Task) (y : ExecutorEventType) → t.status ≢ TaskStatus.cancelled → is_dropped t y ≡ false
unfolding is_dropped
not_dropped t ExecutorEventType.cancelled h = refl
not_dropped t _ h = ground arith

-- The summary of a paired task and run shows the task's status, and asks for input exactly when the
-- task waits for it.
abbrev pub ShowsStatus : Task → ExecutionRun → Type 0
ShowsStatus t r =
    ((build_summary t r).latest_user_visible_status ≡ some (task_status_value t.status))
    × (((build_summary t r).needs_user_input ≡ true) ↔ (t.status ≡ TaskStatus.waiting_user_input))

Paired-ShowsStatus : (t : Task) (r : ExecutionRun) → Paired t.status r.status → ShowsStatus t r
unfolding build_summary
Paired-ShowsStatus t r h = ground arith

-- When a task that is not cancelled gets one or more reports of its run, the statuses of the task
-- and of the run go together afterwards, whatever the reports and their order; the summary of the
-- two then shows the task's status, and asks for input exactly when the task waits for it.
pub reports_coherent :
    (x : Report) (xs : List Report) (b : Blackboard) (t : Task) (r : ExecutionRun)
    → t.status ≢ TaskStatus.cancelled
    → let (_, t', r') = apply_events (x ∷ xs) (b, t, r) in
      Paired t'.status r'.status × ShowsStatus t' r'
unfolding apply_events
reports_coherent (i, at, e) xs b t r h =
    let (b', t', r') = apply_event i at e t r b in
    let first = event_Paired i at e t r b (inr (not_dropped t e.event_type h)) in
    let all = events_Paired xs b' t' r' first in (all, Paired-ShowsStatus _ _ all)
