-- ===== src/Examples.antt =====
-- Sample records on which the theorems are applied and the code is run.
mod Stores
mod Runs
mod Registry
mod Notices
mod Requests
mod Sessions
mod Reconcile
mod Drafts
mod Personas
use newbro.Prelude.{
  ℕ, zero, suc, String, List, [], ◌∷◌, Bool, true, false, Option, none, some, ◌≡◌, refl, ap,
}
use newbro.Prelude.Int.{pos}
use newbro.Prelude.Json.{end}
use newbro.Prelude.Clock.{Clock}
use newbro.Prelude.Text.{fstring}
use Prim.Native.String as S
use newbro.Protocol.Enums.{
  TaskStatus, RunStatus, MutationType, NotificationCandidateType, NotificationPriority,
  NotificationDeliveryStatus,
}
use newbro.Protocol.Records.{
  Task, TaskMutation, TaskExecutionDetailEntry, ExecutionRun, TaskSummary, NotificationCandidate,
}
use newbro.Blackboard.Events.{BlackboardWriteEvent, BlackboardWriteKind}

abbrev pub task_of : String → TaskStatus → Task
task_of k s = record {
  task_id = k;
  root_task_id = k;
  parent_task_id = none;
  title = "tidy up";
  goal = "a tidy desk";
  status = s;
  priority = pos 1;
  interruptible = true;
  requires_confirmation = false;
  preferred_executor = none;
  session_affinity = none;
  task_revision = 0;
  latest_instruction = none;
  metadata = end;
}

abbrev pub run_of : String → String → RunStatus → ExecutionRun
run_of r k s = record {
  run_id = r;
  task_id = k;
  execution_session_id = "session";
  executor_type = "codex";
  status = s;
  claimed_by = none;
  run_revision = 0;
  latest_progress_message = none;
  output_summary = none;
  block_reason = none;
  failure_reason = none;
  metadata = end;
}

abbrev pub mutation_of : String → String → TaskMutation
mutation_of m k = record {
  mutation_id = m;
  task_id = some k;
  mutation_type = MutationType.update;
  patch = end;
  created_by = "user";
  urgency = "normal";
  effective_scope = "task";
  requires_replan = false;
}

abbrev pub detail_of : String → String → TaskExecutionDetailEntry
detail_of d k = record {
  detail_id = d;
  task_id = k;
  run_id = "run";
  execution_session_id = "session";
  event_type = "progress";
  text = "half done";
  created_at = "";
  payload = end;
}

abbrev pub candidate_of : String → String → Bool → NotificationCandidate
candidate_of c merge_key immediate = record {
  candidate_id = c;
  task_id = "task";
  candidate_type = NotificationCandidateType.completed;
  priority = NotificationPriority.p2;
  summary_short = "done";
  source_run_id = some "run";
  created_at = "xx";
  delivery_status = NotificationDeliveryStatus.pending;
  merge_key = merge_key;
  requires_immediate_delivery = immediate;
}

abbrev pub event_of : BlackboardWriteKind → String → BlackboardWriteEvent
event_of y k = record {
  kind = y;
  entity_id = some k;
  task_id = some "task";
  request_id = none;
  payload = end;
}

-- A clock that writes an instant as a text of that many characters.
abbrev tally : ℕ → String
tally zero = ""
tally (suc n) = S.◌∷◌ "x" (tally n)

abbrev count : String → ℕ
count S.[] = 0
count (S.◌∷◌ c s) = suc (count s)

pub count-tally : (n : ℕ) → count (tally n) ≡ n
count-tally zero = refl
count-tally (suc n) = ap suc (count-tally n)

abbrev pub tally_clock : Clock
tally_clock = record { isoformat = tally; parse_datetime = count; parse-isoformat = count-tally }
