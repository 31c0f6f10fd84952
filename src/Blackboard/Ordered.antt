-- ===== src/Blackboard/Ordered.antt =====
-- blackboard/backends/memory.py: notification candidates, outbound turn requests, interaction
-- requests, attention items and agent events, each listed in the order of its first put.
use newbro.Prelude.{String, List, [], ◌∷◌, Option, none, some, keep}
use newbro.Prelude.Text.{◌==◌}
use newbro.Prelude.Json.{text, fields}
use newbro.Protocol.Enums.{
  notification_candidate_type_value, notification_delivery_status_value,
  interaction_request_kind_value, interaction_request_status_value, attention_item_kind_value,
  attention_item_status_value, agent_event_importance_value, agent_event_delivery_value,
}
use newbro.Protocol.Records.{
  NotificationCandidate, OutboundTurnRequest, InteractionRequest, AttentionItem, AgentEvent,
}
use newbro.Blackboard.Events.{BlackboardWriteKind}
use newbro.Blackboard.Table as Table
use newbro.Blackboard.State.{Blackboard, publish}

unfoldable pub put_notification_candidate : NotificationCandidate → Blackboard → Blackboard
unfolding publish Table.put
put_notification_candidate c b =
    publish
      (record b { notification_candidates = Table.put c.candidate_id c b.notification_candidates })
      (record {
        kind = BlackboardWriteKind.notification;
        entity_id = some c.candidate_id;
        task_id = some c.task_id;
        request_id = none;
        payload = fields (
            ("candidate_type", text (notification_candidate_type_value c.candidate_type))
            ∷ ("delivery_status", text (notification_delivery_status_value c.delivery_status))
            ∷ []);
      })

unfoldable pub get_notification_candidate : String → Blackboard → Option NotificationCandidate
unfolding Table.get
get_notification_candidate k b = Table.get k b.notification_candidates

unfoldable pub list_notification_candidates : Blackboard → List NotificationCandidate
unfolding Table.list
list_notification_candidates b = Table.list b.notification_candidates

-- The one write that is not announced.
unfoldable pub put_outbound_turn_request : OutboundTurnRequest → Blackboard → Blackboard
unfolding Table.put
put_outbound_turn_request r b = record b {
  outbound_turn_requests = Table.put r.request_id r b.outbound_turn_requests;
}

unfoldable pub get_outbound_turn_request : String → Blackboard → Option OutboundTurnRequest
unfolding Table.get
get_outbound_turn_request k b = Table.get k b.outbound_turn_requests

unfoldable pub list_outbound_turn_requests : Blackboard → List OutboundTurnRequest
unfolding Table.list
list_outbound_turn_requests b = Table.list b.outbound_turn_requests

unfoldable pub put_interaction_request : InteractionRequest → Blackboard → Blackboard
unfolding publish Table.put
put_interaction_request r b =
    publish (record b { interaction_requests = Table.put r.request_id r b.interaction_requests })
      (record {
        kind = BlackboardWriteKind.interaction_request;
        entity_id = some r.request_id;
        task_id = r.task_id;
        request_id = none;
        payload = fields (
            ("kind", text (interaction_request_kind_value r.kind))
            ∷ ("status", text (interaction_request_status_value r.status))
            ∷ []);
      })

unfoldable pub get_interaction_request : String → Blackboard → Option InteractionRequest
unfolding Table.get
get_interaction_request k b = Table.get k b.interaction_requests

unfoldable pub list_interaction_requests : Blackboard → List InteractionRequest
unfolding Table.list
list_interaction_requests b = Table.list b.interaction_requests

unfoldable pub put_attention_item : AttentionItem → Blackboard → Blackboard
unfolding publish Table.put
put_attention_item i b =
    publish (record b { attention_items = Table.put i.attention_id i b.attention_items })
      (record {
        kind = BlackboardWriteKind.attention;
        entity_id = some i.attention_id;
        task_id = i.task_id;
        request_id = none;
        payload = fields (
            ("kind", text (attention_item_kind_value i.kind))
            ∷ ("status", text (attention_item_status_value i.status))
            ∷ []);
      })

unfoldable pub get_attention_item : String → Blackboard → Option AttentionItem
unfolding Table.get
get_attention_item k b = Table.get k b.attention_items

unfoldable pub list_attention_items : Blackboard → List AttentionItem
unfolding Table.list
list_attention_items b = Table.list b.attention_items

unfoldable pub put_agent_event : AgentEvent → Blackboard → Blackboard
unfolding publish Table.put
put_agent_event e b =
    publish (record b { agent_events = Table.put e.event_id e b.agent_events })
      (record {
        kind = BlackboardWriteKind.agent_event;
        entity_id = some e.event_id;
        task_id = some e.task_id;
        request_id = none;
        payload = fields (
            ("agent_id", text e.agent_id)
            ∷ ("type", text e.type)
            ∷ ("importance", text (agent_event_importance_value e.importance))
            ∷ ("delivery", text (agent_event_delivery_value e.delivery))
            ∷ []);
      })

unfoldable pub get_agent_event : String → Blackboard → Option AgentEvent
unfolding Table.get
get_agent_event k b = Table.get k b.agent_events

unfoldable pub list_agent_events : Option String → Blackboard → List AgentEvent
unfolding Table.list keep
list_agent_events task b =
    let events = Table.list b.agent_events in
    elim task [ none ↦ events | some k ↦ keep (λ e. e.task_id == k) events ]
