-- ===== src/Interaction/Manager.antt =====
-- interaction/manager.py: which actions a request offers, what status each leads to, and the
-- cancellation of the requests of a task. `now` gives the time at which a request is cancelled.
pub mod Cancelling
use newbro.Prelude.{
  String, List, [], ◌∷◌, Bool, true, false, not, ◌&&◌, ◌||◌, Option, none, some, if◌then◌else◌,
}
use newbro.Prelude.Text.{◌==◌, option_eq}
use newbro.Protocol.Enums.{
  InteractionRequestKind, InteractionRequestStatus, AttentionItemStatus,
  interaction_request_status_is, attention_item_status_is,
}
use newbro.Protocol.Records.{InteractionRequest, AttentionItem}
use newbro.Blackboard.State.{Blackboard}
use newbro.Blackboard.Ordered.{
  put_interaction_request, list_interaction_requests, put_attention_item, list_attention_items,
}

unfoldable pub actions_for_kind : InteractionRequestKind → List String
actions_for_kind InteractionRequestKind.permission = "approve" ∷ "deny" ∷ []
actions_for_kind InteractionRequestKind.plan_proposal = "approve" ∷ "deny" ∷ []
actions_for_kind InteractionRequestKind.confirmation = "confirm" ∷ "cancel" ∷ []
actions_for_kind InteractionRequestKind.question = "answer" ∷ []

-- `none` where the source's lookup raises a KeyError.
unfoldable pub resolved_status_for_action : String → Option InteractionRequestStatus
resolved_status_for_action action =
    if "approve" == action
    then some InteractionRequestStatus.approved
    else if "deny" == action
    then some InteractionRequestStatus.denied
    else if "answer" == action
    then some InteractionRequestStatus.answered
    else if "confirm" == action
    then some InteractionRequestStatus.resolved
    else if "cancel" == action
    then some InteractionRequestStatus.cancelled
    else none

-- An item of another request, or one that has the status already, is left.
unfoldable pub mark_items :
    String → AttentionItemStatus → List AttentionItem → Blackboard → Blackboard
mark_items request_id status [] b = b
mark_items request_id status (i ∷ is) b =
    let skipped = mark_items request_id status is b in
    let marked =
      mark_items request_id status is (put_attention_item (record i { status = status }) b) in
    if not (option_eq i.request_id (some request_id)) || attention_item_status_is i.status status
    then skipped
    else marked

unfoldable pub mark_attention_for_request : String → AttentionItemStatus → Blackboard → Blackboard
unfolding mark_items
mark_attention_for_request request_id status b =
    mark_items request_id status (list_attention_items b) b

-- The request is the task's and waits.
abbrev pub is_open : String → InteractionRequest → Bool
is_open task_id r =
    option_eq r.task_id (some task_id)
    && interaction_request_status_is r.status InteractionRequestStatus.pending

module _ (now : InteractionRequest → String) where
  unfoldable pub cancelled_request : InteractionRequest → InteractionRequest
  cancelled_request r = record r {
    status = InteractionRequestStatus.cancelled;
    resolved_at = some (now r);
  }

  unfoldable pub cancel_all : String → List InteractionRequest → Blackboard → Blackboard
  cancel_all task_id [] b = b
  cancel_all task_id (r ∷ rs) b =
      let skipped = cancel_all task_id rs b in
      let cancelled = cancel_all task_id rs (
        mark_attention_for_request r.request_id AttentionItemStatus.dismissed
          (put_interaction_request (cancelled_request r) b)) in
      if is_open task_id r then cancelled else skipped

  unfoldable pub cancel_requests_for_task : String → Blackboard → Blackboard
  unfolding cancel_all
  cancel_requests_for_task task_id b = cancel_all task_id (list_interaction_requests b) b
