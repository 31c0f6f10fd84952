-- ===== src/Interaction/Requests.antt =====
-- interaction/manager.py: the requests and the attention items that a blocked run, or a summary that needs input,
-- leads to. `lower` is `str.lower`, `titled` is `str.title`;
-- `fresh` are the ids of a request and of its attention item, `now` their time stamps.
pub mod Once
use Prim.Native.String as S
use newbro.Prelude.{
  ℕ, suc, String, List, [], ◌∷◌, ◌++◌, map, Bool, true, false, not, ◌&&◌, ◌||◌, Option, none, some,
  if◌then◌else◌, any, is_some,
}
use newbro.Prelude.Text.{◌==◌, starts_with, option_eq, truthy, strip, fstring, first_text, present}
use newbro.Prelude.Json.{
  Value, Items, nil, cons, text, array, object, Fields, end, field, member, assign, nonempty_member,
  text_member, fields, items, has_fields,
}
use newbro.Protocol.Enums.{
  RunStatus, InteractionRequestKind, InteractionRequestStatus, AttentionItemKind,
  AttentionItemStatus, AttentionPriority, run_status_is, interaction_request_status_is,
  interaction_request_kind_is, attention_item_kind_value,
}
use newbro.Protocol.Records.{Task, ExecutionRun, TaskSummary, InteractionRequest, AttentionItem}
use newbro.Blackboard.Events.{BlackboardWriteEvent, BlackboardWriteKind}
use newbro.Blackboard.State.{Blackboard}
use newbro.Blackboard.Tasks.{get_task}
use newbro.Blackboard.Runs.{get_run}
use newbro.Blackboard.Sessions.{get_summary}
use newbro.Blackboard.Ordered.{
  put_interaction_request, list_interaction_requests, put_attention_item,
}
use newbro.Interaction.Manager.{actions_for_kind}
use newbro.Interaction.Details.{request_details}
use newbro.Interaction.Sanitization.{
  sanitize_blocked_event_for_client, build_interaction_request_opaque, object_member,
}
use newbro.Interaction.Prompts.{
  contains, explicit_kind, classify_prompt, attention_kind, request_title, action_label,
  attention_actions_for_request, Fresh, answer_schema_for,
}

-- A request of the run, or of the task, still waits.
abbrev pub waits_for_run : String → InteractionRequest → Bool
waits_for_run run_id r =
    option_eq r.run_id (some run_id)
    && interaction_request_status_is r.status InteractionRequestStatus.pending

abbrev pub waits_for_task : String → InteractionRequest → Bool
waits_for_task task_id r =
    option_eq r.task_id (some task_id)
    && interaction_request_status_is r.status InteractionRequestStatus.pending

module _ (lower : String → String) (titled : String → String) (decimal : ℕ → String)
    (letter : ℕ → String) where
  unfoldable pub build_request_from_run :
      Fresh → Task → ExecutionRun → Option TaskSummary → InteractionRequest
  unfolding classify_prompt object_member request_details build_interaction_request_opaque fstring
      actions_for_kind
  build_request_from_run fresh t run summary =
      let told : Option String = elim summary [ none ↦ none | some s ↦ s.conversational_summary ] in
      let prompt =
        first_text run.block_reason
          (first_text told (fstring (t.title ∷ " needs your input." ∷ []))) in
      let blocked = object_member "blocked_event" run.metadata in
      let kind = classify_prompt lower prompt blocked in
      record {
        request_id = fresh.request_id;
        task_id = some t.task_id;
        outbound_turn_request_id = none;
        execution_session_id = some run.execution_session_id;
        run_id = some run.run_id;
        executor_type = some run.executor_type;
        executor_node_id = none;
        kind = kind;
        status = InteractionRequestStatus.pending;
        prompt = prompt;
        details = request_details decimal letter t blocked;
        available_actions = actions_for_kind kind;
        answer_schema = answer_schema_for kind;
        resume_strategy = "follow_up_run";
        opaque = build_interaction_request_opaque blocked;
        created_at = fresh.requested_at;
        resolved_at = none;
      }

  unfoldable pub build_request_from_summary : Fresh → Task → TaskSummary → InteractionRequest
  unfolding classify_prompt request_details fstring actions_for_kind
  build_request_from_summary fresh t summary =
      let prompt =
        first_text summary.conversational_summary (fstring (t.title ∷ " needs your input." ∷ [])) in
      let kind = classify_prompt lower prompt none in
      record {
        request_id = fresh.request_id;
        task_id = some t.task_id;
        outbound_turn_request_id = none;
        execution_session_id = none;
        run_id = none;
        executor_type = none;
        executor_node_id = none;
        kind = kind;
        status = InteractionRequestStatus.pending;
        prompt = prompt;
        details = request_details decimal letter t none;
        available_actions = actions_for_kind kind;
        answer_schema = answer_schema_for kind;
        resume_strategy = "follow_up_run";
        opaque = end;
        created_at = fresh.requested_at;
        resolved_at = none;
      }

  unfoldable pub build_attention_from_request : Fresh → Task → InteractionRequest → AttentionItem
  unfolding request_title attention_actions_for_request fstring
  build_attention_from_request fresh t r = record {
    attention_id = fresh.attention_id;
    source = "interaction_request";
    kind = attention_kind r.kind;
    priority = AttentionPriority.p0;
    status = AttentionItemStatus.active;
    title = request_title t r.kind;
    body = r.prompt;
    task_id = some t.task_id;
    request_id = some r.request_id;
    actions = attention_actions_for_request titled r;
    dedupe_key = some (
        fstring (
          attention_item_kind_value (attention_kind r.kind)
          ∷ ":"
          ∷ t.task_id
          ∷ ":"
          ∷ first_text r.run_id r.request_id
          ∷ []));
    metadata = end;
    created_at = fresh.attended_at;
  }

  -- The request and its attention item are put.
  unfoldable pub ask : Fresh → Task → InteractionRequest → Blackboard → Blackboard
  unfolding build_attention_from_request
  ask fresh t r b =
      put_attention_item (build_attention_from_request fresh t r) (put_interaction_request r b)

  unfoldable pub ask_for_run : Fresh → String → Blackboard → Blackboard × Bool
  unfolding any build_request_from_run
  ask_for_run fresh k b = elim (get_run k b) [
    | none ↦ (b, false)
    | some run ↦ elim (get_task run.task_id b) [
      | none ↦ (b, false)
      | some t ↦
          if not (run_status_is run.status RunStatus.blocked)
          then (b, false)
          else if any (waits_for_run run.run_id) (list_interaction_requests b)
          then (b, false)
          else (ask fresh t (build_request_from_run fresh t run (get_summary t.task_id b)) b, true)
    ]
  ]

  unfoldable pub ask_for_summary : Fresh → String → Blackboard → Blackboard × Bool
  unfolding any build_request_from_summary
  ask_for_summary fresh k b = elim (get_task k b) [
    | none ↦ (b, false)
    | some t ↦ elim (get_summary k b) [
      | none ↦ (b, false)
      | some summary ↦
          if not summary.needs_user_input
          then (b, false)
          else if any (waits_for_task t.task_id) (list_interaction_requests b)
          then (b, false)
          else (ask fresh t (build_request_from_summary fresh t summary) b, true)
    ]
  ]

  unfoldable pub ask_for : BlackboardWriteKind → Fresh → String → Blackboard → Blackboard × Bool
  unfolding ask_for_run ask_for_summary
  ask_for BlackboardWriteKind.run fresh k b = ask_for_run fresh k b
  ask_for BlackboardWriteKind.summary fresh k b = ask_for_summary fresh k b
  ask_for _ fresh k b = (b, false)

  unfoldable pub handle_blackboard_write :
      Fresh → BlackboardWriteEvent → Blackboard → Blackboard × Bool
  unfolding ask_for
  handle_blackboard_write fresh e b = elim e.entity_id [
    | none ↦ (b, false)
    | some k ↦ if truthy k then ask_for e.kind fresh k b else (b, false)
  ]
