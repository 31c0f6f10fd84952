-- ===== src/Examples/Runs.antt =====
-- The execution side on sample tasks and runs.
use newbro.Prelude.{
  keep, ℕ, ◌+◌, ◌<◌, ◌≤◌, ◌≢◌, String, List, [], ◌∷◌, ◌≡◌, refl, if◌then◌else◌, none, some, All,
}
use newbro.Prelude.Dict as D
use newbro.Prelude.Json.{end}
use newbro.Prelude.Text.{eq_iff}
use mathlib.Core.Bool.{false≢true}
use mathlib.Core.List.{Perm}
use newbro.Protocol.Enums.{TaskStatus, RunStatus, ExecutionMode}
use newbro.Protocol.Records.{Task, ExecutionRun, SessionBinding}
use newbro.Blackboard.State.{Blackboard, empty, publish}
use newbro.Blackboard.Tasks.{list_tasks, put_task, get_task}
use newbro.Blackboard.Runs.{put_run, get_run}
use newbro.Blackboard.Sessions.{get_binding, get_execution_mode}
use newbro.Execution.Assignment.{AssignmentManager, claim, claim_task, is_held}
use newbro.Execution.Assignment.Leases.{lease_excludes}
use newbro.Execution.Modes.{next_mode, initialize_task_mode, classify}
use newbro.Execution.Modes.Decision.{
  decide_mode, over_threshold, any_terminal, decide_mode_lem, classify_stores, IsKeyed,
}
use newbro.Execution.Scheduler.{can_start, InOrder, list_runnable_tasks, schedule_lem}
use newbro.Execution.Events.{ExecutorEventType}
use newbro.Execution.Runs.Coherence.{Report, Paired, ShowsStatus, apply_events, reports_coherent}
use newbro.Execution.Runs.Cancellation.{Holds, cancelled_stays}
use newbro.Execution.Runs.Announcing.{Announced, reports-Announced}
use newbro.Examples.{task_of, run_of, tally_clock}

abbrev worker : String → AssignmentManager
worker w = record { worker_id = w; lease_seconds = 3 }

abbrev created_task : Task
created_task = task_of "task" TaskStatus.created

abbrev first_claim : SessionBinding
first_claim = claim tally_clock (worker "a") created_task none 1

abbrev claimed_board : Blackboard
claimed_board = (claim_task tally_clock (worker "a") 0 1 created_task empty).0

claims_first :
    claim_task tally_clock (worker "a") 0 1 created_task empty ≡ (claimed_board, some first_claim)
unfolding claim_task claim is_held get_binding D.get
claims_first = refl

lease_excludes_example :
    (2 < 1 + 3
      → claim_task tally_clock (worker "b") 2 2 created_task claimed_board ≡ (claimed_board, none))
    × (1 + 3 ≤ 2
        → get_binding "task" (claim_task tally_clock (worker "b") 2 2 created_task claimed_board).0
          ≡ some (claim tally_clock (worker "b") created_task (some first_claim) 2))
lease_excludes_example =
    lease_excludes tally_clock (worker "a") (worker "b") 0 1 2 2 created_task empty claimed_board
      first_claim claims_first (λ e. false≢true ((eq_iff "a" "b").1 e))

abbrev three_reports : List (RunStatus × ℕ)
three_reports = (RunStatus.running, 2) ∷ (RunStatus.running, 9) ∷ (RunStatus.completed, 3) ∷ []

decide_mode_lem_example : decide_mode 5 ExecutionMode.undecided three_reports ≡ (
    if over_threshold 5 three_reports
    then ExecutionMode.managed
    else if any_terminal three_reports
    then ExecutionMode.lightweight
    else ExecutionMode.undecided)
decide_mode_lem_example = decide_mode_lem 5 three_reports

empty-IsKeyed : IsKeyed empty
unfolding get_execution_mode D.get
empty-IsKeyed k m h = cc

classify_stores_example :
    let (b', m) = classify 5 "task" "run" RunStatus.completed 3 empty in
    (get_execution_mode "task" b' ≡ some m)
    × (m.mode ≡ next_mode 5 (initialize_task_mode "task" empty).1.mode RunStatus.completed 3)
classify_stores_example = classify_stores 5 "task" "run" RunStatus.completed 3 empty empty-IsKeyed

abbrev two_tasks : Blackboard
two_tasks =
    put_task (task_of "b" TaskStatus.queued) (put_task (task_of "c" TaskStatus.created) empty)

schedule_lem_example :
    Perm (list_runnable_tasks two_tasks) (keep (λ t. can_start t.status) (list_tasks two_tasks))
    × InOrder (list_runnable_tasks two_tasks)
schedule_lem_example = schedule_lem two_tasks

abbrev report_of : ExecutorEventType → Report
report_of y = (
  "detail",
  "xx",
  record {
    run_id = "run";
    session_id = "session";
    event_type = y;
    message = some "half done";
    metadata = end;
  },
)

abbrev running_task : Task
running_task = task_of "task" TaskStatus.running

abbrev running_run : ExecutionRun
running_run = run_of "run" "task" RunStatus.running

abbrev running_board : Blackboard
running_board = put_run running_run (put_task running_task empty)

reports_coherent_example :
    let (_, t', r') =
      apply_events
        (report_of ExecutorEventType.progress ∷ report_of ExecutorEventType.blocked ∷ [])
        (running_board, running_task, running_run) in
    Paired t'.status r'.status × ShowsStatus t' r'
reports_coherent_example =
    reports_coherent (report_of ExecutorEventType.progress)
      (report_of ExecutorEventType.blocked ∷ []) running_board running_task running_run (λ e. cc)

running-Holds : Holds running_board running_task running_run
unfolding put_run put_task publish get_run get_task D.put D.get
running-Holds = record { task = refl; run = refl }

running-Announced : Announced running_board running_task running_run
unfolding put_run put_task publish D.put D.get
running-Announced = record {
  task = refl;
  run = (
    running_run,
    refl,
    record { status = refl; progress = refl; output = refl; block = refl; failure = refl },
  );
}

reports-Announced_example :
    let (b', t', r') =
      apply_events
        (report_of ExecutorEventType.progress ∷ report_of ExecutorEventType.completed ∷ [])
        (running_board, running_task, running_run) in
    Holds b' t' r' × Announced b' t' r'
reports-Announced_example =
    reports-Announced
      (report_of ExecutorEventType.progress ∷ report_of ExecutorEventType.completed ∷ [])
      running_board running_task running_run running-Holds running-Announced

abbrev cancelled_task : Task
cancelled_task = task_of "task" TaskStatus.cancelled

abbrev late_reports : List Report
late_reports = report_of ExecutorEventType.progress ∷ report_of ExecutorEventType.completed ∷ []

cancelled_stays_example :
    (All (λ x. x.2.event_type ≢ ExecutorEventType.cancelled) late_reports
      → apply_events late_reports (running_board, cancelled_task, running_run)
        ≡ (running_board, cancelled_task, running_run))
    × ((apply_events late_reports (running_board, cancelled_task, running_run)).1.status
        ≡ TaskStatus.cancelled)
cancelled_stays_example = cancelled_stays late_reports running_board cancelled_task running_run refl
