-- ===== src/Examples/Notices.antt =====
-- The notification manager on sample candidates.
use newbro.Prelude.{
  ◌+◌, ◌≤◌, String, List, [], ◌∷◌, map, ◌≡◌, refl, true, false, not, ◌||◌, some, keep, All, flatten,
}
use mathlib.Core.List.{Perm}
use newbro.Protocol.Enums.{TaskStatus, RunStatus}
use newbro.Protocol.Records.{NotificationCandidate}
use newbro.Blackboard.Events.{BlackboardWriteKind}
use newbro.Blackboard.State.{Blackboard, empty}
use newbro.Blackboard.History.{history, Write, task, run, candidate}
use newbro.Blackboard.History.Tables.{history-HasTables, empty-HasTables}
use newbro.Blackboard.Ordered.{list_notification_candidates}
use newbro.Notification.Policy.{plan, is_due, due_at, next_due, is_pending, is_immediate}
use newbro.Notification.Policy.Groups.{plan-perm, next_due_lem, ready}
use newbro.Notification.Manager.{handle_blackboard_write, process_pending}
use newbro.Notification.Manager.Once.{told_once}
use newbro.Notification.Manager.Delivery.{is_emitted, process_pending_tells}
use newbro.Examples.{task_of, run_of, candidate_of, event_of, tally_clock}

abbrev three_candidates : List NotificationCandidate
three_candidates =
    candidate_of "a" "digest" false
    ∷ candidate_of "b" "blocked" true
    ∷ candidate_of "c" "digest" false
    ∷ []

plan-perm_example :
    ((false || false) ≡ true → (plan tally_clock 4 9 three_candidates false false).groups ≡ [])
    × ((false || false) ≡ false
        → Perm
            (flatten (plan tally_clock 4 9 three_candidates false false).groups)
            (ready tally_clock 4 9 three_candidates))
plan-perm_example = plan-perm tally_clock 4 9 three_candidates false false

waits_three : (plan tally_clock 4 3 three_candidates false false).next_due_seconds ≡ some 3
unfolding plan is_due due_at next_due keep
waits_three = refl

next_due_lem_example :
    All
      (λ c. is_due tally_clock 4 3 c ≡ false → 3 + 3 ≤ due_at tally_clock 4 3 c)
      (keep (λ c. not (is_immediate c)) (keep is_pending three_candidates))
next_due_lem_example = next_due_lem tally_clock 4 3 three_candidates false false 3 waits_three

abbrev finished_history : List Write
finished_history =
    task (task_of "task" TaskStatus.completed) ∷ run (run_of "run" "task" RunStatus.completed) ∷ []

abbrev finished : Blackboard
finished = history finished_history empty

told_once_example :
    let b' = (handle_blackboard_write "x" (event_of BlackboardWriteKind.run "run") finished).0 in
    handle_blackboard_write "xx" (event_of BlackboardWriteKind.run "run") b' ≡ (b', false)
told_once_example =
    told_once "x" "xx" (event_of BlackboardWriteKind.run "run") finished
      (history-HasTables finished_history empty empty-HasTables)

abbrev waiting_board : Blackboard
waiting_board =
    history
      (candidate (candidate_of "a" "digest" false)
        ∷ candidate (candidate_of "b" "blocked" true)
        ∷ [])
      empty

abbrev message_of : List NotificationCandidate → List String
message_of cs = map (λ c. c.candidate_id) cs

process_pending_tells_example :
    let p = plan tally_clock 4 9 (list_notification_candidates waiting_board) false false in
    let (b', messages, due) =
      process_pending message_of tally_clock 4 9 false false waiting_board in
    (messages ≡ map message_of p.groups)
    × (due ≡ p.next_due_seconds)
    × All (λ c. is_emitted c.candidate_id b' ≡ true) (flatten p.groups)
process_pending_tells_example =
    process_pending_tells message_of tally_clock 4 9 false false waiting_board
