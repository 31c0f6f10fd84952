-- ===== src/Notification/Manager.antt =====
-- notification/manager.py. The communication side that words a notification answers with a message
-- and leaves the candidates to the manager: it is the argument `emit_notification`, and a message
-- is whatever it returns.
pub mod Once
pub mod Delivery
use newbro.Prelude.{ℕ, String, List, [], ◌∷◌, Bool, true, false, Option, none, some, if◌then◌else◌}
use newbro.Prelude.Clock.{Clock}
use newbro.Protocol.Enums.{RunStatus, NotificationDeliveryStatus}
use newbro.Protocol.Records.{Task, ExecutionRun, NotificationCandidate}
use newbro.Blackboard.Events.{BlackboardWriteEvent, BlackboardWriteKind}
use newbro.Blackboard.State.{Blackboard}
use newbro.Blackboard.Tasks.{get_task}
use newbro.Blackboard.Runs.{get_run}
use newbro.Blackboard.Sessions.{get_summary}
use newbro.Blackboard.Ordered.{put_notification_candidate, list_notification_candidates}
use newbro.Notification.Builder.{build_from_run, build_from_summary}
use newbro.Notification.Policy.{plan}
use newbro.Prelude.Text.{truthy}

abbrev pub is_reported : RunStatus → Bool
is_reported RunStatus.completed = true
is_reported RunStatus.blocked = true
is_reported _ = false

-- The candidate is stored if there is one, and the answer says whether there was.
unfoldable pub store_candidate : Option NotificationCandidate → Blackboard → Blackboard × Bool
store_candidate none b = (b, false)
store_candidate (some c) b = (put_notification_candidate c b, true)

module _ (now : String) where
  unfoldable pub candidate_for_run : String → Blackboard → Option NotificationCandidate
  candidate_for_run k b = elim (get_run k b) [
    | none ↦ none
    | some r ↦
        if is_reported r.status
        then elim (get_task r.task_id b) [
          | none ↦ none
          | some t ↦
              build_from_run now t r (get_summary t.task_id b) (list_notification_candidates b)
        ]
        else none
  ]

  unfoldable pub candidate_for_summary : String → Blackboard → Option NotificationCandidate
  candidate_for_summary k b = elim (get_task k b) [
    | none ↦ none
    | some t ↦ build_from_summary now t (get_summary k b) (list_notification_candidates b)
  ]

  unfoldable pub candidate_for :
      BlackboardWriteKind → String → Blackboard → Option NotificationCandidate
  candidate_for BlackboardWriteKind.run k b = candidate_for_run k b
  candidate_for BlackboardWriteKind.summary k b = candidate_for_summary k b
  candidate_for _ k b = none

  unfoldable pub handle_blackboard_write : BlackboardWriteEvent → Blackboard → Blackboard × Bool
  handle_blackboard_write e b = elim e.entity_id [
    | none ↦ (b, false)
    | some k ↦ if truthy k then store_candidate (candidate_for e.kind k b) b else (b, false)
  ]

unfoldable pub mark_emitted : NotificationCandidate → NotificationCandidate
mark_emitted c = record c { delivery_status = NotificationDeliveryStatus.emitted }

unfoldable pub mark_all : List NotificationCandidate → Blackboard → Blackboard
unfolding mark_emitted
mark_all [] b = b
mark_all (c ∷ cs) b = mark_all cs (put_notification_candidate (mark_emitted c) b)

module _ {Message : Type 0} (emit_notification : List NotificationCandidate → Message) where
  unfoldable pub emit_groups :
      List (List NotificationCandidate) → Blackboard → Blackboard × List Message
  emit_groups [] b = (b, [])
  emit_groups (g ∷ gs) b =
      let (b', messages) = emit_groups gs (mark_all g b) in (b', emit_notification g ∷ messages)

  unfoldable pub process_pending :
      Clock → ℕ → ℕ → Bool → Bool → Blackboard → Blackboard × List Message × Option ℕ
  process_pending clock window now assistant_busy has_pending_user_messages b =
      let p =
        plan clock window now (list_notification_candidates b) assistant_busy
          has_pending_user_messages in
      let (b', messages) = emit_groups p.groups b in (b', messages, p.next_due_seconds)
