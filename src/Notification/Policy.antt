-- ===== src/Notification/Policy.antt =====
-- notification/policy.py. Instants and the merge window are numbers of microseconds.
pub mod Groups
use newbro.Prelude.{
  ℕ, ◌+◌, ◌-◌, String, List, [], ◌∷◌, ◌++◌, map, Bool, true, false, not, ◌||◌, Option, none, some,
  if◌then◌else◌, leb, keep, min, or_else, is_empty,
}
use newbro.Prelude.Text.{text_le}
use newbro.Prelude.Clock.{Clock}
use newbro.Prelude.Dict as D
use newbro.Prelude.Dict.{Dict, keys}
use newbro.Prelude.Sort.{sorted}
use newbro.Protocol.Enums.{NotificationDeliveryStatus, notification_delivery_status_is}
use newbro.Protocol.Records.{NotificationCandidate}
use newbro.Blackboard.Tasks.{push}

-- A group holds its candidates.
pub record NotificationDeliveryPlan : Type 0 where
  pub groups : List (List NotificationCandidate)
  pub next_due_seconds : Option ℕ

abbrev pub is_pending : NotificationCandidate → Bool
is_pending c = notification_delivery_status_is c.delivery_status NotificationDeliveryStatus.pending

abbrev pub is_immediate : NotificationCandidate → Bool
is_immediate c = c.requires_immediate_delivery

abbrev pub created_before : NotificationCandidate → NotificationCandidate → Bool
created_before a b = text_le a.created_at b.created_at

-- `grouped.setdefault(key, []).append(candidate)` over the candidates
unfoldable pub group_from :
    Dict (List NotificationCandidate)
    → List NotificationCandidate
    → Dict (List NotificationCandidate)
unfolding push
group_from d [] = d
group_from d (c ∷ cs) = group_from (push c.merge_key c d) cs

unfoldable pub merged : List NotificationCandidate → List (List NotificationCandidate)
unfolding group_from sorted D.get
merged cs =
    let grouped = group_from [] cs in
    map (λ k. sorted created_before (or_else (D.get k grouped) [])) (sorted text_le (keys grouped))

unfoldable pub singles : List NotificationCandidate → List (List NotificationCandidate)
singles [] = []
singles (c ∷ cs) = (c ∷ []) ∷ singles cs

module _ (clock : Clock) (merge_window_seconds now : ℕ) where
  unfoldable pub due_at : NotificationCandidate → ℕ
  due_at c = clock.parse_datetime c.created_at + merge_window_seconds

  unfoldable pub is_due : NotificationCandidate → Bool
  unfolding due_at
  is_due c = leb (due_at c) now

  -- The shortest wait of the candidates that are not due.
  unfoldable pub next_due : Option ℕ → List NotificationCandidate → Option ℕ
  unfolding is_due due_at
  next_due shortest [] = shortest
  next_due shortest (c ∷ cs) =
      next_due
        (if is_due c
          then shortest
          else some (elim shortest [ none ↦ due_at c - now | some s ↦ min s (due_at c - now) ]))
        cs

  unfoldable pub plan : List NotificationCandidate → Bool → Bool → NotificationDeliveryPlan
  plan candidates assistant_busy has_pending_user_messages =
      let pending = keep is_pending candidates in
      let mergeable = keep (λ c. not (is_immediate c)) pending in
      if is_empty pending
      then record { groups = []; next_due_seconds = none }
      else if assistant_busy || has_pending_user_messages
      then record { groups = []; next_due_seconds = none }
      else record {
        groups = singles (keep is_immediate pending) ++ merged (keep is_due mergeable);
        next_due_seconds = next_due none mergeable;
      }
