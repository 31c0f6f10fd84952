-- ===== src/Execution/Summaries.antt =====
-- execution/summary_manager.py
use newbro.Prelude.{String, [], ◌∷◌, true, false, some}
use newbro.Prelude.Text.{fstring, first_text}
use newbro.Protocol.Enums.{TaskStatus, RunStatus}
use newbro.Protocol.Records.{Task, ExecutionRun, TaskSummary}

-- A summary with the same text for operators and for the conversation.
plain : Task → String → String → TaskSummary
plain t shown status = record {
  task_id = t.task_id;
  operational_summary = some shown;
  conversational_summary = some shown;
  latest_user_visible_status = some status;
  needs_user_input = false;
}

waiting : Task → ExecutionRun → TaskSummary
unfolding fstring plain
waiting t r =
    plain t
      (first_text r.latest_progress_message
        (fstring ("Waiting for executor node: " ∷ t.title ∷ [])))
      "waiting_executor"

by_run_status : RunStatus → Task → ExecutionRun → TaskSummary
unfolding fstring plain waiting
by_run_status RunStatus.blocked t r = record {
  task_id = t.task_id;
  operational_summary = r.block_reason;
  conversational_summary = r.block_reason;
  latest_user_visible_status = some "waiting_user_input";
  needs_user_input = true;
}
by_run_status RunStatus.completed t r =
    plain t (first_text r.output_summary (fstring ("Completed: " ∷ t.title ∷ []))) "completed"
by_run_status RunStatus.failed t r =
    plain t (first_text r.failure_reason (fstring ("Failed: " ∷ t.title ∷ []))) "failed"
by_run_status RunStatus.cancelled t r = plain t (fstring ("Cancelled: " ∷ t.title ∷ [])) "cancelled"
by_run_status RunStatus.waiting_executor t r = waiting t r
by_run_status _ t r =
    plain t (first_text r.latest_progress_message (fstring ("Running: " ∷ t.title ∷ []))) "running"

by_status : TaskStatus → Task → ExecutionRun → TaskSummary
unfolding fstring waiting by_run_status
by_status TaskStatus.queued t r = record {
  task_id = t.task_id;
  operational_summary = some (fstring ("Queued: " ∷ t.title ∷ []));
  conversational_summary = some (fstring ("I queued " ∷ t.title ∷ " again." ∷ []));
  latest_user_visible_status = some "queued";
  needs_user_input = false;
}
by_status TaskStatus.waiting_executor t r = waiting t r
by_status TaskStatus.paused t r = record {
  task_id = t.task_id;
  operational_summary = some (fstring ("Paused: " ∷ t.title ∷ []));
  conversational_summary = some (fstring ("I paused " ∷ t.title ∷ "." ∷ []));
  latest_user_visible_status = some "paused";
  needs_user_input = false;
}
by_status _ t r = by_run_status r.status t r

unfoldable pub build_summary : Task → ExecutionRun → TaskSummary
unfolding by_status
build_summary t r = by_status t.status t r
