-- ===== src/Execution/Modes.antt =====
-- execution/mode_manager.py: whether a task counts as lightweight or managed. Durations and the
-- threshold are numbers of clock ticks.
pub mod Decision
use newbro.Prelude.{ℕ, String, Bool, true, false, not, ◌||◌, Option, none, some, if◌then◌else◌, leb}
use newbro.Prelude.Text.{option_eq}
use newbro.Protocol.Enums.{ExecutionMode, RunStatus, execution_mode_is}
use newbro.Protocol.Records.{TaskExecutionMode}
use newbro.Blackboard.State.{Blackboard}
use newbro.Blackboard.Sessions.{get_execution_mode, put_execution_mode}

-- TERMINAL_RUN_STATUSES
unfoldable pub is_terminal : RunStatus → Bool
is_terminal RunStatus.completed = true
is_terminal RunStatus.failed = true
is_terminal RunStatus.cancelled = true
is_terminal _ = false

unfoldable pub initialize_task_mode : String → Blackboard → Blackboard × TaskExecutionMode
unfolding get_execution_mode put_execution_mode
initialize_task_mode k b = elim (get_execution_mode k b) [
  | some existing ↦ (b, existing)
  | none ↦ (put_execution_mode (fresh k) b, fresh k)
]
  where
    fresh : String → TaskExecutionMode
    fresh j = record {
      task_id = j;
      mode = ExecutionMode.undecided;
      decided_from_run_id = none;
      elapsed_seconds = 0;
    }

unfoldable pub next_mode : ℕ → ExecutionMode → RunStatus → ℕ → ExecutionMode
unfolding is_terminal
next_mode threshold ExecutionMode.managed status elapsed = ExecutionMode.managed
next_mode threshold ExecutionMode.lightweight status elapsed =
    if leb threshold elapsed then ExecutionMode.managed else ExecutionMode.lightweight
next_mode threshold ExecutionMode.undecided status elapsed =
    if leb threshold elapsed
    then ExecutionMode.managed
    else if is_terminal status
    then ExecutionMode.lightweight
    else ExecutionMode.undecided

-- The record with a mode and a deciding run, and whether either of them is new. The elapsed time is
-- kept up only with such a change.
unfoldable pub merge_mode :
    TaskExecutionMode → ExecutionMode → Option String → ℕ → TaskExecutionMode × Bool
merge_mode current mode decided elapsed =
    let changed =
      not (execution_mode_is mode current.mode)
      || not (option_eq decided current.decided_from_run_id) in
    (
      record current {
        mode = mode;
        decided_from_run_id = decided;
        elapsed_seconds = if changed then elapsed else current.elapsed_seconds;
      },
      changed,
    )

-- The record after a report of the run.
unfoldable pub updated_mode :
    ℕ → TaskExecutionMode → String → RunStatus → ℕ → TaskExecutionMode × Bool
updated_mode threshold current run_id status elapsed =
    let mode = next_mode threshold current.mode status elapsed in
    let decided =
      if execution_mode_is mode ExecutionMode.undecided
      then current.decided_from_run_id
      else some run_id in
    merge_mode current mode decided elapsed

unfoldable pub classify :
    ℕ → String → String → RunStatus → ℕ → Blackboard → Blackboard × TaskExecutionMode
unfolding initialize_task_mode updated_mode merge_mode next_mode put_execution_mode
classify threshold task_id run_id status elapsed b =
    let (b', current) = initialize_task_mode task_id b in
    let (updated, changed) = updated_mode threshold current run_id status elapsed in
    (if changed then put_execution_mode updated b' else b', updated)
