-- ===== src/Notification/Manager/Delivery.antt =====
-- notification/manager.py: what `process_pending` leaves in the store and what it sends.
use newbro.Prelude.{
  ℕ, String, List, [], ◌∷◌, map, ◌≡◌, refl, Bool, true, false, none, some, arith, if◌then◌else◌,
  All, All-append, flatten,
}
use newbro.Prelude.Clock.{Clock}
use newbro.Prelude.Text.{◌==◌, eq_refl}
use newbro.Prelude.Dict.{get-put}
use newbro.Protocol.Enums.{NotificationDeliveryStatus, notification_delivery_status_is}
use newbro.Protocol.Records.{NotificationCandidate}
use newbro.Blackboard.State.{Blackboard, publish}
use newbro.Blackboard.Table as Table
use newbro.Blackboard.Ordered.{
  put_notification_candidate, list_notification_candidates, get_notification_candidate,
}
use newbro.Notification.Policy.{plan}
use newbro.Notification.Manager.{mark_emitted, mark_all, emit_groups, process_pending}

-- The store has the candidate as emitted.
abbrev pub is_emitted : String → Blackboard → Bool
is_emitted k b = elim (get_notification_candidate k b) [
  | none ↦ false
  | some c ↦ notification_delivery_status_is c.delivery_status NotificationDeliveryStatus.emitted
]

put-is_emitted :
    (c : NotificationCandidate) (j : String) (b : Blackboard)
    → is_emitted j (put_notification_candidate (mark_emitted c) b)
      ≡ (if c.candidate_id == j then true else is_emitted j b)
unfolding get_notification_candidate put_notification_candidate publish Table.get Table.put
    mark_emitted
put-is_emitted c j b =
    ground (arith, get-put c.candidate_id j (mark_emitted c) b.notification_candidates.entries)

mark_all-keeps :
    (cs : List NotificationCandidate) (j : String) (b : Blackboard)
    → is_emitted j b ≡ true
    → is_emitted j (mark_all cs b) ≡ true
unfolding mark_all
mark_all-keeps [] j b h = h
mark_all-keeps (c ∷ cs) j b h =
    mark_all-keeps cs j (put_notification_candidate (mark_emitted c) b)
      (ground (arith, put-is_emitted c j b))

mark_all-emitted :
    (cs : List NotificationCandidate) (b : Blackboard)
    → All (λ c. is_emitted c.candidate_id (mark_all cs b) ≡ true) cs
unfolding mark_all
mark_all-emitted [] b = tt
mark_all-emitted (c ∷ cs) b =
    let b' = put_notification_candidate (mark_emitted c) b in
    let marked = put-is_emitted c c.candidate_id b in
    (
      mark_all-keeps cs c.candidate_id b' (ground (arith, marked, eq_refl c.candidate_id)),
      mark_all-emitted cs b',
    )

module _ {Message : Type 0} (emit_notification : List NotificationCandidate → Message) where
  emit_groups-keeps :
      (gs : List (List NotificationCandidate)) (j : String) (b : Blackboard)
      → is_emitted j b ≡ true
      → is_emitted j (emit_groups emit_notification gs b).0 ≡ true
  unfolding emit_groups
  emit_groups-keeps [] j b h = h
  emit_groups-keeps (g ∷ gs) j b h = emit_groups-keeps gs j (mark_all g b) (mark_all-keeps g j b h)

  kept_emitted :
      (cs : List NotificationCandidate) (gs : List (List NotificationCandidate)) (b : Blackboard)
      → All (λ c. is_emitted c.candidate_id b ≡ true) cs
      → All (λ c. is_emitted c.candidate_id (emit_groups emit_notification gs b).0 ≡ true) cs
  kept_emitted [] gs b a = tt
  kept_emitted (c ∷ cs) gs b a =
      (emit_groups-keeps gs c.candidate_id b a.0, kept_emitted cs gs b a.1)

  emit_groups-emitted :
      (gs : List (List NotificationCandidate)) (b : Blackboard)
      → All
          (λ c. is_emitted c.candidate_id (emit_groups emit_notification gs b).0 ≡ true)
          (flatten gs)
  unfolding emit_groups flatten
  emit_groups-emitted [] b = tt
  emit_groups-emitted (g ∷ gs) b =
      All-append _ g (flatten gs) (kept_emitted g gs (mark_all g b) (mark_all-emitted g b))
        (emit_groups-emitted gs (mark_all g b))

  emit_groups-messages :
      (gs : List (List NotificationCandidate)) (b : Blackboard)
      → (emit_groups emit_notification gs b).1 ≡ map emit_notification gs
  unfolding emit_groups
  emit_groups-messages [] b = refl
  emit_groups-messages (g ∷ gs) b = rw (emit_groups-messages gs (mark_all g b)) refl

  -- Processing the pending candidates sends one message for each group of the plan, in the plan's
  -- order, returns the plan's due time, and leaves every candidate of every group in the store as
  -- emitted.
  pub process_pending_tells :
      (clock : Clock) (window now : ℕ) (busy waiting : Bool) (b : Blackboard)
      → let p = plan clock window now (list_notification_candidates b) busy waiting in
        let (b', messages, due) =
          process_pending emit_notification clock window now busy waiting b in
        (messages ≡ map emit_notification p.groups)
        × (due ≡ p.next_due_seconds)
        × All (λ c. is_emitted c.candidate_id b' ≡ true) (flatten p.groups)
  unfolding process_pending
  process_pending_tells clock window now busy waiting b =
      let groups = (plan clock window now (list_notification_candidates b) busy waiting).groups in
      (emit_groups-messages groups b, refl, emit_groups-emitted groups b)
