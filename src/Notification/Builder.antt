-- ===== src/Notification/Builder.antt =====
-- notification/candidate_builder.py
use newbro.Prelude.{
  String, List, [], ◌∷◌, Bool, true, false, not, ◌&&◌, ◌||◌, Option, none, some, if◌then◌else◌, any,
}
use newbro.Prelude.Text.{◌==◌, fstring, first_text}
use newbro.Prelude.Json.{Value, boolean, member, text_member}
use newbro.Protocol.Enums.{
  TaskStatus, RunStatus, NotificationCandidateType, NotificationDeliveryStatus,
  NotificationPriority, task_status_is, notification_candidate_type_value,
  notification_candidate_type_is, notification_delivery_status_is,
}
use newbro.Protocol.Records.{Task, ExecutionRun, TaskSummary, NotificationCandidate}

unfoldable pub candidate_id : String → NotificationCandidateType → Option String → String
unfolding fstring
candidate_id task_id y source_run_id = fstring (
    "notif-"
    ∷ notification_candidate_type_value y
    ∷ "-"
    ∷ task_id
    ∷ "-"
    ∷ first_text source_run_id "summary"
    ∷ [])

unfoldable pub already_exists : NotificationCandidate → List NotificationCandidate → Bool
unfolding any
already_exists c existing = any (λ i. i.candidate_id == c.candidate_id) existing

is_true : Option Value → Bool
is_true (some (boolean true)) = true
is_true _ = false

-- A `source_kind` that is no text is in no set of texts. For a list or an object the source raises a
-- `TypeError`, which is not modelled.
unfoldable pub suppresses_communication_notifications : Task → Bool
unfolding is_true member text_member
suppresses_communication_notifications t =
    is_true (member "suppress_communication_notifications" t.metadata)
    || elim (text_member "source_kind" t.metadata) [
      | none ↦ false
      | some k ↦ k == "bro_detail_text" || k == "bro_detail_ptt"
    ]

-- `(summary.conversational_summary if summary is not None else None) or own or fallback`
abbrev pub short_summary : Option TaskSummary → Option String → String → String
short_summary summary own fallback =
    first_text (elim summary [ none ↦ none | some s ↦ s.conversational_summary ])
      (first_text own fallback)

module _ (now : String) where
  unfoldable pub completed_candidate :
      Task → ExecutionRun → Option TaskSummary → NotificationCandidate
  unfolding fstring
  completed_candidate t r summary = record {
    candidate_id = candidate_id t.task_id NotificationCandidateType.completed (some r.run_id);
    task_id = t.task_id;
    candidate_type = NotificationCandidateType.completed;
    priority = NotificationPriority.p2;
    summary_short = short_summary summary r.output_summary (fstring (t.title ∷ " is done." ∷ []));
    source_run_id = some r.run_id;
    created_at = now;
    delivery_status = NotificationDeliveryStatus.pending;
    merge_key = "completed_digest";
    requires_immediate_delivery = false;
  }

  unfoldable pub blocked_candidate :
      Task → ExecutionRun → Option TaskSummary → NotificationCandidate
  unfolding fstring
  blocked_candidate t r summary = record {
    candidate_id = candidate_id t.task_id NotificationCandidateType.blocked (some r.run_id);
    task_id = t.task_id;
    candidate_type = NotificationCandidateType.blocked;
    priority = NotificationPriority.p0;
    summary_short = short_summary summary r.block_reason (fstring (t.title ∷ " is blocked." ∷ []));
    source_run_id = some r.run_id;
    created_at = now;
    delivery_status = NotificationDeliveryStatus.pending;
    merge_key = fstring ("blocked:" ∷ t.task_id ∷ []);
    requires_immediate_delivery = true;
  }

  unfoldable pub needs_input_candidate : Task → TaskSummary → NotificationCandidate
  unfolding fstring
  needs_input_candidate t s = record {
    candidate_id = candidate_id t.task_id NotificationCandidateType.needs_input none;
    task_id = t.task_id;
    candidate_type = NotificationCandidateType.needs_input;
    priority = NotificationPriority.p0;
    summary_short =
        first_text s.conversational_summary (fstring (t.title ∷ " needs your input." ∷ []));
    source_run_id = none;
    created_at = now;
    delivery_status = NotificationDeliveryStatus.pending;
    merge_key = fstring ("needs_input:" ∷ t.task_id ∷ []);
    requires_immediate_delivery = true;
  }

  -- A candidate that is there already is not made again.
  unfoldable pub unless_exists :
      NotificationCandidate → List NotificationCandidate → Option NotificationCandidate
  unless_exists c existing = if already_exists c existing then none else some c

  unfoldable pub build_for :
      RunStatus
      → Task
      → ExecutionRun
      → Option TaskSummary
      → List NotificationCandidate
      → Option NotificationCandidate
  build_for RunStatus.completed t r summary existing =
      unless_exists (completed_candidate t r summary) existing
  build_for RunStatus.blocked t r summary existing =
      unless_exists (blocked_candidate t r summary) existing
  build_for _ t r summary existing = none

  unfoldable pub build_from_run :
      Task
      → ExecutionRun
      → Option TaskSummary
      → List NotificationCandidate
      → Option NotificationCandidate
  build_from_run t r summary existing =
      if suppresses_communication_notifications t
      then none
      else if task_status_is t.status TaskStatus.cancelled
      then none
      else build_for r.status t r summary existing

  -- A blocked candidate of the task that is not suppressed.
  blocked_known : Task → List NotificationCandidate → Bool
  unfolding any
  blocked_known t existing =
      any
        (λ c.
          (c.task_id == t.task_id)
          && notification_candidate_type_is c.candidate_type NotificationCandidateType.blocked
          && not (
              notification_delivery_status_is c.delivery_status
                NotificationDeliveryStatus.suppressed))
        existing

  unfoldable pub build_from_summary :
      Task → Option TaskSummary → List NotificationCandidate → Option NotificationCandidate
  unfolding blocked_known
  build_from_summary t none existing = none
  build_from_summary t (some s) existing =
      if suppresses_communication_notifications t
      then none
      else if not s.needs_user_input
      then none
      else if blocked_known t existing
      then none
      else unless_exists (needs_input_candidate t s) existing
