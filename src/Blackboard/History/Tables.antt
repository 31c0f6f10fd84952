-- ===== src/Blackboard/History/Tables.antt =====
-- blackboard/backends/memory.py: the listings that go through an `_order` list.
use newbro.Prelude.{List, [], ◌∷◌, ◌≡◌, refl, arith}
use newbro.Prelude.Dict as D
use newbro.Prelude.Dict.{values, IsDict}
use newbro.Blackboard.Table.{IsTable, put-IsTable, list-eq-values}
use newbro.Blackboard.State.{Blackboard, empty}
use newbro.Blackboard.Tasks.{
  put_task, append_mutation, append_command, append_task_execution_detail,
}
use newbro.Blackboard.Runs.{put_run}
use newbro.Blackboard.Sessions.{put_session, put_binding, put_summary, put_execution_mode}
use newbro.Blackboard.Ordered.{
  put_notification_candidate, put_outbound_turn_request, put_interaction_request,
  put_attention_item, put_agent_event, list_notification_candidates, list_outbound_turn_requests,
  list_interaction_requests, list_attention_items,
}
use newbro.Blackboard.Personas.{put_persona, delete_persona}
use newbro.Blackboard.History.{
  Write, candidate, turn_request, request, attention, agent_event, no_persona, persona, write,
  history,
}

pub record HasTables (b : Blackboard) : Type 0 where
  pub candidates : IsTable b.notification_candidates
  pub turn_requests : IsTable b.outbound_turn_requests
  pub requests : IsTable b.interaction_requests
  pub attentions : IsTable b.attention_items
  pub events : IsTable b.agent_events
  pub people : IsDict b.personas

write-HasTables : (w : Write) (b : Blackboard) → HasTables b → HasTables (write w b)
unfolding write put_task append_mutation append_command append_task_execution_detail put_run
    put_session put_binding put_summary put_execution_mode put_notification_candidate
    put_outbound_turn_request put_interaction_request put_attention_item put_agent_event put_persona
    delete_persona
write-HasTables (candidate c) b h = record {
  candidates = put-IsTable c.candidate_id c h.candidates;
  turn_requests = h.turn_requests;
  requests = h.requests;
  attentions = h.attentions;
  events = h.events;
  people = h.people;
}
write-HasTables (turn_request r) b h = record {
  candidates = h.candidates;
  turn_requests = put-IsTable r.request_id r h.turn_requests;
  requests = h.requests;
  attentions = h.attentions;
  events = h.events;
  people = h.people;
}
write-HasTables (request r) b h = record {
  candidates = h.candidates;
  turn_requests = h.turn_requests;
  requests = put-IsTable r.request_id r h.requests;
  attentions = h.attentions;
  events = h.events;
  people = h.people;
}
write-HasTables (attention i) b h = record {
  candidates = h.candidates;
  turn_requests = h.turn_requests;
  requests = h.requests;
  attentions = put-IsTable i.attention_id i h.attentions;
  events = h.events;
  people = h.people;
}
write-HasTables (agent_event e) b h = record {
  candidates = h.candidates;
  turn_requests = h.turn_requests;
  requests = h.requests;
  attentions = h.attentions;
  events = put-IsTable e.event_id e h.events;
  people = h.people;
}
write-HasTables (persona p) b h = record {
  candidates = h.candidates;
  turn_requests = h.turn_requests;
  requests = h.requests;
  attentions = h.attentions;
  events = h.events;
  people = D.put-IsDict p.persona_id p b.personas h.people;
}
write-HasTables (no_persona k) b h = record {
  candidates = ground arith;
  turn_requests = ground arith;
  requests = ground arith;
  attentions = ground arith;
  events = ground arith;
  people = ground (arith, D.pop-IsDict k b.personas h.people);
}
write-HasTables _ b h = record {
  candidates = h.candidates;
  turn_requests = h.turn_requests;
  requests = h.requests;
  attentions = h.attentions;
  events = h.events;
  people = h.people;
}

pub empty-HasTables : HasTables empty
empty-HasTables = record {
  candidates = record { ordered = refl; distinct = tt };
  turn_requests = record { ordered = refl; distinct = tt };
  requests = record { ordered = refl; distinct = tt };
  attentions = record { ordered = refl; distinct = tt };
  events = record { ordered = refl; distinct = tt };
  people = tt;
}

pub history-HasTables : (ws : List Write) (b : Blackboard) → HasTables b → HasTables (history ws b)
unfolding history
history-HasTables [] b h = h
history-HasTables (w ∷ ws) b h = history-HasTables ws (write w b) (write-HasTables w b h)

-- After any history of writes to an empty blackboard, the listings of the notification candidates,
-- of the outbound turn requests, of the interaction requests and of the attention items are the
-- values of their dicts, in the order of the dict, and none of these dicts has a key twice.
pub listings_complete :
    (ws : List Write)
    → let b = history ws empty in
      (list_notification_candidates b ≡ values b.notification_candidates.entries)
      × (list_outbound_turn_requests b ≡ values b.outbound_turn_requests.entries)
      × (list_interaction_requests b ≡ values b.interaction_requests.entries)
      × (list_attention_items b ≡ values b.attention_items.entries)
      × IsDict b.notification_candidates.entries
      × IsDict b.outbound_turn_requests.entries
      × IsDict b.interaction_requests.entries
      × IsDict b.attention_items.entries
unfolding list_notification_candidates list_outbound_turn_requests list_interaction_requests
    list_attention_items
listings_complete ws =
    let h = history-HasTables ws empty empty-HasTables in
    (
      list-eq-values _ h.candidates,
      list-eq-values _ h.turn_requests,
      list-eq-values _ h.requests,
      list-eq-values _ h.attentions,
      h.candidates.distinct,
      h.turn_requests.distinct,
      h.requests.distinct,
      h.attentions.distinct,
    )
