-- ===== src/Blackboard/History/Announcements.antt =====
-- blackboard/backends/memory.py, `_publish`: the log of recent writes against what subscribers get.
use newbro.Prelude.{
  ℕ, String, List, [], ◌∷◌, ◌++◌, ◌≡◌, refl, sym, some, append_assoc, append-nil, Option-cases, inl,
  inr,
}
use newbro.Prelude.Dict as D
use newbro.Blackboard.Events.{BlackboardWriteEvent}
use newbro.Blackboard.Subscriptions.{pending}
use newbro.Blackboard.Subscriptions.Delivery.{pending-publish}
use newbro.Blackboard.State.{Blackboard, publish, stamp}
use newbro.Blackboard.Tasks.{
  put_task, append_mutation, append_command, append_task_execution_detail,
}
use newbro.Blackboard.Runs.{put_run}
use newbro.Blackboard.Sessions.{put_session, put_binding, put_summary, put_execution_mode}
use newbro.Blackboard.Ordered.{
  put_notification_candidate, put_outbound_turn_request, put_interaction_request,
  put_attention_item, put_agent_event,
}
use newbro.Blackboard.Personas.{put_persona, delete_persona, persona_written}
use newbro.Blackboard.History.{Write, turn_request, no_persona, write, history}

-- From `b` to `c` the same events went to the log of writes and to every subscriber of `b`.
pub record Announces (b c : Blackboard) : Type 0 where
  pub events : List BlackboardWriteEvent
  pub logged : c.recent_writes ≡ b.recent_writes ++ events
  pub delivered :
      (q : ℕ) (items : List BlackboardWriteEvent)
      → pending b.subscriptions q ≡ some items
      → pending c.subscriptions q ≡ some (items ++ events)

silent : (b : Blackboard) → Announces b b
silent b = record {
  events = [];
  logged = sym (append-nil b.recent_writes);
  delivered = λ q items h. rw append-nil h;
}

publish-Announces : (b : Blackboard) (e : BlackboardWriteEvent) → Announces b (publish b e)
unfolding publish
publish-Announces b e = record {
  events = stamp b.diagnostic_request_id e ∷ [];
  logged = refl;
  delivered =
      λ q items h. pending-publish b.subscriptions (stamp b.diagnostic_request_id e) q items h;
}

Announces-trans : {b c d : Blackboard} → Announces b c → Announces c d → Announces b d
Announces-trans {b} g h = record {
  events = g.events ++ h.events;
  logged = rw (h.logged, g.logged) (append_assoc b.recent_writes g.events h.events);
  delivered = λ q items p.
      rw (← append_assoc items g.events h.events)
        (h.delivered q (items ++ g.events) (g.delivered q items p));
}

delete-Announces : (k : String) (b : Blackboard) → Announces b (delete_persona k b).0
unfolding delete_persona
delete-Announces k b = elim (Option-cases (D.get k b.personas)) [
  | inl absent ↦ rw (absent, delete_persona) (silent b)
  | inr (p, there) ↦
      rw (there, delete_persona)
        (changed
          (publish-Announces (record b { personas = D.pop k b.personas }) (persona_written k)))
]
  where
    changed :
        {c : Blackboard} → Announces (record b { personas = D.pop k b.personas }) c → Announces b c
    changed a = record { events = a.events; logged = a.logged; delivered = a.delivered }

write-Announces : (w : Write) (b : Blackboard) → Announces b (write w b)
unfolding write put_task append_mutation append_command append_task_execution_detail put_run
    put_session put_binding put_summary put_execution_mode put_notification_candidate
    put_outbound_turn_request put_interaction_request put_attention_item put_agent_event put_persona
write-Announces (turn_request r) b = record {
  events = [];
  logged = sym (append-nil b.recent_writes);
  delivered = λ q items h. rw append-nil h;
}
write-Announces (no_persona k) b = delete-Announces k b
write-Announces _ b = record {
  events = _;
  logged = refl;
  delivered = λ q items h. pending-publish b.subscriptions _ q items h;
}

-- Over any history, from any blackboard, each subscriber receives exactly the events that the log
-- of recent writes gains, in the same order and behind what its queue held before.
pub history-Announces : (ws : List Write) (b : Blackboard) → Announces b (history ws b)
unfolding history
history-Announces [] b = silent b
history-Announces (w ∷ ws) b =
    Announces-trans (write-Announces w b) (history-Announces ws (write w b))
