-- ===== src/Notification/Manager/Once.antt =====
-- notification/manager.py: a run or a summary is told of once.
use newbro.Prelude.{
  String, List, ◌≡◌, refl, true, false, Option, none, some, arith, Bool-cases, Option-cases, inl,
  inr,
}
use newbro.Prelude.Text.{◌==◌, eq_refl, truthy}
use newbro.Protocol.Enums.{RunStatus}
use newbro.Protocol.Records.{Task, ExecutionRun, TaskSummary, NotificationCandidate}
use newbro.Blackboard.Events.{BlackboardWriteEvent, BlackboardWriteKind}
use newbro.Blackboard.State.{Blackboard, publish}
use newbro.Blackboard.Table.{any-list-put}
use newbro.Blackboard.Tasks.{get_task}
use newbro.Blackboard.Runs.{get_run}
use newbro.Blackboard.Sessions.{get_summary}
use newbro.Blackboard.Ordered.{put_notification_candidate, list_notification_candidates}
use newbro.Blackboard.History.Tables.{HasTables}
use newbro.Notification.Builder.{
  build_from_run, build_from_summary, build_for, unless_exists, already_exists, completed_candidate,
  blocked_candidate, needs_input_candidate,
}
use newbro.Notification.Manager.{
  store_candidate, candidate_for_run, candidate_for_summary, candidate_for, handle_blackboard_write,
}

-- The candidate of an id stands in the list.
abbrev Known : NotificationCandidate → List NotificationCandidate → Type 0
Known c existing = already_exists c existing ≡ true

-- A put of a candidate leaves runs, tasks and summaries as they are.
get_run-put_notification_candidate :
    (k : String) (c : NotificationCandidate) (b : Blackboard)
    → get_run k (put_notification_candidate c b) ≡ get_run k b
unfolding get_run put_notification_candidate publish
get_run-put_notification_candidate k c b = refl

get_task-put_notification_candidate :
    (k : String) (c : NotificationCandidate) (b : Blackboard)
    → get_task k (put_notification_candidate c b) ≡ get_task k b
unfolding get_task put_notification_candidate publish
get_task-put_notification_candidate k c b = refl

get_summary-put_notification_candidate :
    (k : String) (c : NotificationCandidate) (b : Blackboard)
    → get_summary k (put_notification_candidate c b) ≡ get_summary k b
unfolding get_summary put_notification_candidate publish
get_summary-put_notification_candidate k c b = refl

put_notification_candidate-Known :
    (c : NotificationCandidate) (b : Blackboard)
    → HasTables b
    → Known c (list_notification_candidates (put_notification_candidate c b))
unfolding list_notification_candidates put_notification_candidate publish already_exists
put_notification_candidate-Known c b h =
    any-list-put (λ i. i.candidate_id == c.candidate_id) c.candidate_id c b.notification_candidates
      h.candidates (eq_refl c.candidate_id)

module _ (now now' : String) where
  build_for-again :
      (y : RunStatus) (t : Task) (r : ExecutionRun) (s : Option TaskSummary)
      (old new : List NotificationCandidate) (c : NotificationCandidate)
      → build_for now y t r s old ≡ some c
      → Known c new
      → build_for now' y t r s new ≡ none
  unfolding build_for unless_exists already_exists completed_candidate blocked_candidate
  build_for-again RunStatus.completed t r s old new c h k = ground arith
  build_for-again RunStatus.blocked t r s old new c h k = ground arith
  build_for-again _ t r s old new c h k = refl

  build_for-none :
      (y : RunStatus) (t : Task) (r : ExecutionRun) (s : Option TaskSummary)
      (old : List NotificationCandidate)
      → build_for now y t r s old ≡ none
      → build_for now' y t r s old ≡ none
  unfolding build_for unless_exists already_exists completed_candidate blocked_candidate
  build_for-none RunStatus.completed t r s old h = ground arith
  build_for-none RunStatus.blocked t r s old h = ground arith
  build_for-none _ t r s old h = refl

  run_again :
      (t : Task) (r : ExecutionRun) (s : Option TaskSummary) (old new : List NotificationCandidate)
      (c : NotificationCandidate)
      → build_from_run now t r s old ≡ some c
      → Known c new
      → build_from_run now' t r s new ≡ none
  unfolding build_from_run
  run_again t r s old new c h k = ground (arith, build_for-again r.status t r s old new c)

  run_none :
      (t : Task) (r : ExecutionRun) (s : Option TaskSummary) (old : List NotificationCandidate)
      → build_from_run now t r s old ≡ none
      → build_from_run now' t r s old ≡ none
  unfolding build_from_run
  run_none t r s old h = ground (arith, build_for-none r.status t r s old)

  summary_again :
      (t : Task) (s : Option TaskSummary) (old new : List NotificationCandidate)
      (c : NotificationCandidate)
      → build_from_summary now t s old ≡ some c
      → Known c new
      → build_from_summary now' t s new ≡ none
  unfolding build_from_summary unless_exists already_exists needs_input_candidate
  summary_again t s old new c h k = ground arith

  summary_none :
      (t : Task) (s : Option TaskSummary) (old : List NotificationCandidate)
      → build_from_summary now t s old ≡ none
      → build_from_summary now' t s old ≡ none
  unfolding build_from_summary unless_exists already_exists needs_input_candidate
  summary_none t s old h = ground arith

  candidate_for_run-none :
      (k : String) (b : Blackboard)
      → candidate_for_run now k b ≡ none
      → candidate_for_run now' k b ≡ none
  unfolding candidate_for_run
  candidate_for_run-none k b h = elim (Option-cases (get_run k b)) [
    | inl e ↦ ground (arith, e)
    | inr (r, e) ↦ elim (Option-cases (get_task r.task_id b)) [
      | inl e' ↦ ground (arith, e, e')
      | inr (t, e') ↦
          ground
            (arith, e, e', run_none t r (get_summary t.task_id b) (list_notification_candidates b))
    ]
  ]

  candidate_for_summary-none :
      (k : String) (b : Blackboard)
      → candidate_for_summary now k b ≡ none
      → candidate_for_summary now' k b ≡ none
  unfolding candidate_for_summary
  candidate_for_summary-none k b h = elim (Option-cases (get_task k b)) [
    | inl e ↦ ground (arith, e)
    | inr (t, e) ↦
        ground (arith, e, summary_none t (get_summary k b) (list_notification_candidates b))
  ]

  candidate_for_run-again :
      (k : String) (b : Blackboard) (c : NotificationCandidate)
      → candidate_for_run now k b ≡ some c
      → Known c (list_notification_candidates (put_notification_candidate c b))
      → candidate_for_run now' k (put_notification_candidate c b) ≡ none
  unfolding candidate_for_run
  candidate_for_run-again k b c h known =
      rw (get_run-put_notification_candidate k c b, candidate_for_run)
        (elim (Option-cases (get_run k b)) [
          | inl e ↦ ground (arith, e)
          | inr (r, e) ↦ elim (Option-cases (get_task r.task_id b)) [
            | inl e' ↦ ground (arith, e, e')
            | inr (t, e') ↦ ground (
              arith,
              e,
              e',
              get_task-put_notification_candidate r.task_id c b,
              run_again t r (get_summary t.task_id b) (list_notification_candidates b)
                  (list_notification_candidates (put_notification_candidate c b)) c,
              get_summary-put_notification_candidate t.task_id c b,
            )
          ]
        ])

  candidate_for_summary-again :
      (k : String) (b : Blackboard) (c : NotificationCandidate)
      → candidate_for_summary now k b ≡ some c
      → Known c (list_notification_candidates (put_notification_candidate c b))
      → candidate_for_summary now' k (put_notification_candidate c b) ≡ none
  unfolding candidate_for_summary
  candidate_for_summary-again k b c h known = elim (Option-cases (get_task k b)) [
    | inl e ↦ ground (arith, e)
    | inr (t, e) ↦ ground (
      arith,
      e,
      get_task-put_notification_candidate k c b,
      get_summary-put_notification_candidate k c b,
      summary_again t (get_summary k b) (list_notification_candidates b)
          (list_notification_candidates (put_notification_candidate c b)) c,
    )
  ]

  candidate_for-again :
      (y : BlackboardWriteKind) (k : String) (b : Blackboard) (c : NotificationCandidate)
      → candidate_for now y k b ≡ some c
      → Known c (list_notification_candidates (put_notification_candidate c b))
      → candidate_for now' y k (put_notification_candidate c b) ≡ none
  unfolding candidate_for
  candidate_for-again BlackboardWriteKind.run k b c h known = candidate_for_run-again k b c h known
  candidate_for-again BlackboardWriteKind.summary k b c h known =
      candidate_for_summary-again k b c h known
  candidate_for-again _ k b c h known = refl

  candidate_for-none :
      (y : BlackboardWriteKind) (k : String) (b : Blackboard)
      → candidate_for now y k b ≡ none
      → candidate_for now' y k b ≡ none
  unfolding candidate_for
  candidate_for-none BlackboardWriteKind.run k b h = candidate_for_run-none k b h
  candidate_for-none BlackboardWriteKind.summary k b h = candidate_for_summary-none k b h
  candidate_for-none _ k b h = refl

  stored_again :
      (y : BlackboardWriteKind) (k : String) (b : Blackboard) (o : Option NotificationCandidate)
      → HasTables b
      → candidate_for now y k b ≡ o
      → store_candidate (candidate_for now' y k (store_candidate o b).0) (store_candidate o b).0
        ≡ ((store_candidate o b).0, false)
  unfolding store_candidate
  stored_again y k b none h e = rw (candidate_for-none y k b e) refl
  stored_again y k b (some c) h e =
      rw (candidate_for-again y k b c e (put_notification_candidate-Known c b h)) refl

  -- On a blackboard whose tables are well formed, handling the same write a second time, at whatever
  -- later time, makes no candidate and leaves the blackboard as the first handling left it.
  pub told_once :
      (e : BlackboardWriteEvent) (b : Blackboard)
      → HasTables b
      → let b' = (handle_blackboard_write now e b).0 in
        handle_blackboard_write now' e b' ≡ (b', false)
  unfolding handle_blackboard_write
  told_once e b h = elim (Option-cases e.entity_id) [
    | inl q ↦ rw q refl
    | inr (k, q) ↦ elim (Bool-cases (truthy k)) [
      | inl t ↦ rw (q, t) (stored_again e.kind k b (candidate_for now e.kind k b) h refl)
      | inr t ↦ rw (q, t) refl
    ]
  ]
