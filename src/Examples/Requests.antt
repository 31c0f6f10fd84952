-- ===== src/Examples/Requests.antt =====
-- Requests for input on a sample blackboard.
use newbro.Prelude.{ℕ, String, List, [], ◌∷◌, ◌≡◌, refl, false, none, some, All, any}
use newbro.Prelude.Text.{◌==◌}
use newbro.Prelude.Dict as D
use newbro.Prelude.Json.{Value, Fields, end, text, object, fields}
use newbro.Prelude.Attempt.{returned, raised}
use newbro.Protocol.Enums.{
  TaskStatus, RunStatus, InteractionRequestKind, InteractionRequestStatus,
  interaction_request_status_is,
}
use newbro.Protocol.Records.{InteractionRequest}
use newbro.Blackboard.State.{Blackboard, empty, publish}
use newbro.Blackboard.Table as Table
use newbro.Blackboard.Ordered.{put_interaction_request, get_interaction_request}
use newbro.Blackboard.History.{Write, request, history, write}
use newbro.Blackboard.History.Tables.{HasTables, history-HasTables, empty-HasTables}
use newbro.Blackboard.Events.{BlackboardWriteKind}
use newbro.Blackboard.Tasks.{put_task}
use newbro.Blackboard.Runs.{put_run}
use newbro.Interaction.Requests.{handle_blackboard_write}
use newbro.Interaction.Prompts.{Fresh}
use newbro.Interaction.Requests.Once.{asked_once}
use newbro.Examples.{task_of, run_of, event_of}
use newbro.Interaction.Manager.{
  actions_for_kind, resolved_status_for_action, cancel_requests_for_task,
}
use newbro.Interaction.Manager.Cancelling.{
  Keyed, open_at, offered_action_lem, cancel_requests_for_task_lem,
}
use newbro.Interaction.Resolution.{
  Resolving, InteractionResolution, resolve_request, resolved_request, checked_resolution,
  resolution, proposal_answers, build_follow_up_instruction,
}
use newbro.Interaction.Resolution.Finality.{resolve_request_once, no_longer_pending}

abbrev permission_request : String → InteractionRequest
permission_request k = record {
  request_id = k;
  task_id = some "task";
  outbound_turn_request_id = none;
  execution_session_id = none;
  run_id = some "run";
  executor_type = some "codex";
  executor_node_id = none;
  kind = InteractionRequestKind.permission;
  status = InteractionRequestStatus.pending;
  prompt = "may I write the file?";
  details = end;
  available_actions = "approve" ∷ "deny" ∷ [];
  answer_schema = none;
  resume_strategy = "follow_up_run";
  opaque = end;
  created_at = "x";
  resolved_at = none;
}

abbrev two_requests : List Write
two_requests = request (permission_request "first") ∷ request (permission_request "second") ∷ []

abbrev asking : Blackboard
asking = history two_requests empty

asking-Keyed : Keyed asking.interaction_requests.entries
unfolding history write put_interaction_request publish Table.put D.put
asking-Keyed = (refl, (refl, tt))

offered_action_lem_example :
    All
      (λ action.
        (s : InteractionRequestStatus) × (resolved_status_for_action action ≡ some s)
        × (interaction_request_status_is s InteractionRequestStatus.pending ≡ false))
      (actions_for_kind InteractionRequestKind.confirmation)
offered_action_lem_example = offered_action_lem InteractionRequestKind.confirmation

cancel_requests_for_task_lem_example :
    let b' = cancel_requests_for_task (λ r. "xx") "task" asking in
    (open_at "task" "first" b'.interaction_requests.entries ≡ false)
    × (open_at "task" "first" asking.interaction_requests.entries ≡ false
        → get_interaction_request "first" b' ≡ get_interaction_request "first" asking)
cancel_requests_for_task_lem_example =
    cancel_requests_for_task_lem (λ r. "xx") "task" "first" asking
      (history-HasTables two_requests empty empty-HasTables) asking-Keyed

abbrev approving : Resolving
approving = record {
  action = "approve";
  answer_text = none;
  option_id = none;
  answers = none;
  reason = none;
}

abbrev denying : Resolving
denying = record {
  action = "deny";
  answer_text = none;
  option_id = none;
  answers = none;
  reason = none;
}

abbrev show_none : Value → String
show_none v = ""

abbrev approved_board : Blackboard
approved_board = (resolve_request show_none "xx" "first" approving asking).0

abbrev approval : InteractionResolution
approval = record {
  request = record (permission_request "first") {
    status = InteractionRequestStatus.approved;
    resolved_at = some "xx";
  };
  follow_up_instruction =
      "The user approved the pending permission request. Continue from where you left off.";
  answer_text = none;
  answers = none;
}

approves :
    resolve_request show_none "xx" "first" approving asking ≡ (approved_board, returned approval)
unfolding resolve_request get_interaction_request D.get checked_resolution resolution
    proposal_answers build_follow_up_instruction history write put_interaction_request publish
    Table.put D.put Table.get resolved_status_for_action resolved_request any
approves = refl

resolve_request_once_example :
    (resolve_request show_none "xxx" "first" denying approved_board
      ≡ (approved_board, raised no_longer_pending))
    × ((j : String)
        → ("first" == j) ≡ false
        → get_interaction_request j approved_board ≡ get_interaction_request j asking)
resolve_request_once_example =
    resolve_request_once show_none "xx" "xxx" "first" approving denying asking approved_board
      approval asking-Keyed approves

abbrev blocked_event : Fields
blocked_event = fields (
    ("prompt", text "may I?")
    ∷ ("token", text "secret")
    ∷ (
      "native_response",
      object (
          fields (
            ("request_id", text "7")
            ∷ ("params", object (fields (("command", text "rm") ∷ ("env", text "secret") ∷ [])))
            ∷ [])),
    )
    ∷ [])

abbrev shown_event : Fields
shown_event = fields (
    ("prompt", text "may I?")
    ∷ (
      "native_response",
      object (
          fields (
            ("request_id", text "7")
            ∷ ("params", object (fields (("command", text "rm") ∷ [])))
            ∷ [])),
    )
    ∷ [])

abbrev same_text : String → String
same_text s = s

abbrev no_digits : ℕ → String
no_digits n = ""

abbrev fresh_ids : Fresh
fresh_ids = record {
  request_id = "ireq-1";
  attention_id = "attention-1";
  requested_at = "x";
  attended_at = "xx";
}

abbrev blocked_board : Blackboard
blocked_board =
    put_run (run_of "run" "task" RunStatus.blocked)
      (put_task (task_of "task" TaskStatus.waiting_user_input) empty)

blocked_board-HasTables : HasTables blocked_board
unfolding put_run put_task publish
blocked_board-HasTables = record {
  candidates = empty-HasTables.candidates;
  turn_requests = empty-HasTables.turn_requests;
  requests = empty-HasTables.requests;
  attentions = empty-HasTables.attentions;
  events = empty-HasTables.events;
  people = empty-HasTables.people;
}

asked_once_example :
    let (b', asked) =
      handle_blackboard_write same_text same_text no_digits no_digits fresh_ids
        (event_of BlackboardWriteKind.run "run")
        blocked_board in
    handle_blackboard_write same_text same_text no_digits no_digits fresh_ids
      (event_of BlackboardWriteKind.run "run")
      b'
    ≡ (b', false)
asked_once_example =
    asked_once same_text same_text no_digits no_digits fresh_ids fresh_ids
      (event_of BlackboardWriteKind.run "run") blocked_board blocked_board-HasTables
