-- ===== src/Interaction/Outbound.antt =====
-- interaction/manager.py: the request that a blocked turn of an outbound conversation leads to, and the attention
-- items for signals of a task. The arguments are those of Requests.
use newbro.Prelude.{
  ℕ, String, [], ◌∷◌, ◌&&◌, Bool, false, not, Option, none, some, if◌then◌else◌, any, is_some,
}
use newbro.Prelude.Text.{◌==◌, option_eq, truthy, fstring, first_text}
use newbro.Prelude.Json.{
  Value, null, text, Fields, end, member, nonempty_member, optional_text, fields,
}
use newbro.Protocol.Enums.{
  InteractionRequestKind, InteractionRequestStatus, AttentionItemKind, AttentionItemStatus,
  AttentionPriority, interaction_request_status_is, attention_item_kind_value,
}
use newbro.Protocol.Records.{Task, OutboundTurnRequest, InteractionRequest, AttentionItem}
use newbro.Blackboard.State.{Blackboard}
use newbro.Blackboard.Ordered.{
  put_interaction_request, list_interaction_requests, put_attention_item,
}
use newbro.Interaction.Manager.{actions_for_kind}
use newbro.Interaction.Sanitization.{
  sanitize_blocked_event_for_client, build_interaction_request_opaque, object_member,
}
use newbro.Interaction.Details.{
  truth, value_or, stripped, with_text_entry, with_dict_entry, proposal_details_from_blocked_event,
}
use newbro.Interaction.Prompts.{
  Fresh, classify_prompt, attention_kind, answer_schema_for, attention_actions_for_request,
}

-- `CodexTurnEventMessage`, of protocol/executor_node.py, less the constant fields.
pub record CodexTurnEventMessage : Type 0 where
  pub request_id : String
  pub node_id : String
  pub target_persona_id : String
  pub target_thread_id : String
  pub event_type : String
  pub message : Option String
  pub executor_thread_id : Option String
  pub executor_turn_id : Option String
  pub ok : Bool
  pub error : Option String
  pub metadata : Fields

text_value : Option String → Option Value
text_value none = none
text_value (some s) = some (text s)

-- The value of a key, `None` if there is none.
abbrev or_null : Option Value → Value
or_null none = null
or_null (some v) = v

-- The prompt, if the message has one that is a text and not blank.
unfoldable pub blocked_prompt : CodexTurnEventMessage → Option String
unfolding member stripped text_value
blocked_prompt m = stripped (value_or (member "prompt" m.metadata) (text_value m.message))

unfoldable pub outbound_blocked_event : CodexTurnEventMessage → String → Fields
unfolding member text_value
outbound_blocked_event m prompt = fields (
    (
      "thread_id",
      or_null (
          value_or (value_or (member "thread_id" m.metadata) (text_value m.executor_thread_id))
            (some (text ""))),
    )
    ∷ ("prompt", text prompt)
    ∷ ("interaction_kind", or_null (member "interaction_kind" m.metadata))
    ∷ ("blocked_method", or_null (member "blocked_method" m.metadata))
    ∷ ("native_response", or_null (member "native_response" m.metadata))
    ∷ ("proposal", or_null (member "proposal" m.metadata))
    ∷ [])

unfoldable pub outbound_title : String → InteractionRequestKind → String
unfolding fstring
outbound_title label InteractionRequestKind.permission = fstring (label ∷ " needs permission" ∷ [])
outbound_title label InteractionRequestKind.confirmation =
    fstring (label ∷ " needs confirmation" ∷ [])
outbound_title label InteractionRequestKind.plan_proposal =
    fstring (label ∷ " proposed a plan" ∷ [])
outbound_title label InteractionRequestKind.question = fstring (label ∷ " needs your input" ∷ [])

unfoldable pub task_signal_title : Task → AttentionItemKind → String
unfolding nonempty_member fstring
task_signal_title t kind =
    let subject : String = elim (nonempty_member "persona_name" t.metadata) [
      | some s ↦ s
      | none ↦ t.title
    ] in
    fstring (subject ∷ ending kind ∷ [])
  where
    ending : AttentionItemKind → String
    ending AttentionItemKind.task_paused = " paused"
    ending AttentionItemKind.task_resumed = " resumed"
    ending _ = ""

-- `decimal` is `str` of a number.
unfoldable pub add_task_signal_attention :
    (ℕ → String)
    → Fresh
    → Task
    → AttentionItemKind
    → String
    → Blackboard
    → Blackboard × AttentionItem
unfolding task_signal_title fstring
add_task_signal_attention decimal fresh t kind body b =
    let item : AttentionItem = record {
      attention_id = fresh.attention_id;
      source = "task_signal";
      kind = kind;
      priority = AttentionPriority.p2;
      status = AttentionItemStatus.active;
      title = task_signal_title t kind;
      body = body;
      task_id = some t.task_id;
      request_id = none;
      actions = [];
      dedupe_key = some (
          fstring (
            attention_item_kind_value kind ∷ ":" ∷ t.task_id ∷ ":" ∷ decimal t.task_revision ∷ []));
      metadata = end;
      created_at = fresh.attended_at;
    } in
    (put_attention_item item b, item)

-- A request of this turn still waits.
abbrev pub waits_for_turn : String → InteractionRequest → Bool
waits_for_turn turn_request_id r =
    option_eq r.outbound_turn_request_id (some turn_request_id)
    && interaction_request_status_is r.status InteractionRequestStatus.pending

module _ (lower : String → String) (titled : String → String) (decimal : ℕ → String)
    (letter : ℕ → String) where
  unfoldable pub build_request_from_outbound_blocked :
      Fresh → OutboundTurnRequest → CodexTurnEventMessage → String → InteractionRequest
  unfolding outbound_blocked_event classify_prompt with_text_entry with_dict_entry object_member
      sanitize_blocked_event_for_client proposal_details_from_blocked_event
      build_interaction_request_opaque actions_for_kind
  build_request_from_outbound_blocked fresh outbound m prompt =
      let blocked = outbound_blocked_event m prompt in
      let kind = classify_prompt lower prompt (some blocked) in
      let whose = fields (
        ("persona_id", text outbound.persona_id)
        ∷ ("target_thread_id", optional_text outbound.target_thread_id)
        ∷ ("outbound_turn_request_id", text outbound.request_id)
        ∷ []) in
      let client : Option String = elim outbound.client_request_id [
        | none ↦ none
        | some c ↦ if truthy c then some c else none
      ] in
      let shown =
        with_dict_entry "blocked_event" (sanitize_blocked_event_for_client (some blocked))
          (with_text_entry "client_request_id" client whose) in
      record {
        request_id = fresh.request_id;
        task_id = none;
        outbound_turn_request_id = some outbound.request_id;
        execution_session_id = none;
        run_id = none;
        executor_type = some outbound.executor_id;
        executor_node_id = some outbound.executor_node_id;
        kind = kind;
        status = InteractionRequestStatus.pending;
        prompt = prompt;
        details =
            with_dict_entry "proposal"
              (proposal_details_from_blocked_event decimal letter (some blocked)) shown;
        available_actions = actions_for_kind kind;
        answer_schema = answer_schema_for kind;
        resume_strategy =
            if is_some (object_member "native_response" m.metadata)
            then "native_response"
            else "follow_up_run";
        opaque = build_interaction_request_opaque (some blocked);
        created_at = fresh.requested_at;
        resolved_at = none;
      }

  unfoldable pub build_attention_from_outbound_request :
      Fresh → OutboundTurnRequest → InteractionRequest → AttentionItem
  unfolding outbound_title attention_actions_for_request fstring
  build_attention_from_outbound_request fresh outbound r = record {
    attention_id = fresh.attention_id;
    source = "interaction_request";
    kind = attention_kind r.kind;
    priority = AttentionPriority.p0;
    status = AttentionItemStatus.active;
    title = outbound_title (first_text (some outbound.persona_id) "Codex") r.kind;
    body = r.prompt;
    task_id = none;
    request_id = some r.request_id;
    actions = attention_actions_for_request titled r;
    dedupe_key = some (
        fstring (
          attention_item_kind_value (attention_kind r.kind)
          ∷ ":outbound:"
          ∷ outbound.request_id
          ∷ []));
    metadata = end;
    created_at = fresh.attended_at;
  }

  unfoldable pub handle_outbound_codex_blocked :
      Fresh
      → OutboundTurnRequest
      → CodexTurnEventMessage
      → Blackboard
      → Blackboard × Option InteractionRequest
  unfolding member blocked_prompt any build_request_from_outbound_blocked
      build_attention_from_outbound_request
  handle_outbound_codex_blocked fresh outbound m b =
      let asks : Bool =
        (lower m.event_type == "blocked")
        && elim (member "interaction_kind" m.metadata) [ none ↦ false | some v ↦ truth v ]
        && not (any (waits_for_turn outbound.request_id) (list_interaction_requests b)) in
      elim (blocked_prompt m) [
        | none ↦ (b, none)
        | some prompt ↦
            let r = build_request_from_outbound_blocked fresh outbound m prompt in
            let b' =
              put_attention_item (build_attention_from_outbound_request fresh outbound r)
                (put_interaction_request r b) in
            if asks then (b', some r) else (b, none)
      ]
