-- ===== src/Examples/Stores.antt =====
-- The blackboard on sample histories.
use newbro.Prelude.{
  ℕ, ◌<◌, ◌≤◌, ◌≢◌, List, [], ◌∷◌, ◌≡◌, none, some, length, All, keep, true, or_else, arith,
}
use newbro.Prelude.Text.{◌==◌}
use newbro.Prelude.Dict.{values, IsDict}
use newbro.Protocol.Enums.{TaskStatus, RunStatus}
use newbro.Blackboard.Events.{BlackboardWriteEvent, BlackboardWriteKind}
use newbro.Blackboard.Subscriptions.{
  SubscriptionManager, subscribe, unsubscribe, publish_all, pending,
}
use newbro.Blackboard.Subscriptions.Delivery.{subscribe_sees_all, unsubscribe_lem}
use newbro.Blackboard.State.{Blackboard, empty}
use newbro.Blackboard.Tasks.{
  put_task, append_task_execution_detail, list_mutations, list_commands,
  list_task_execution_details, list_recent_task_execution_details, get_task,
}
use newbro.Blackboard.Ordered.{
  list_notification_candidates, list_outbound_turn_requests, list_interaction_requests,
  list_attention_items,
}
use newbro.Blackboard.History.{Write, task, mutation, detail, run, candidate, history}
use newbro.Blackboard.History.Announcements.{Announces, history-Announces}
use newbro.Blackboard.History.Logs.{listings_eq_logs}
use newbro.Blackboard.History.Tables.{listings_complete}
use newbro.Blackboard.Tasks.Revisions.{revisions_count_mutations, append_all, revise, addressed}
use newbro.Blackboard.Tasks.Recent.{recent_bounds}
use newbro.Examples.{task_of, run_of, mutation_of, detail_of, candidate_of, event_of}

abbrev two_queues : SubscriptionManager
two_queues = record {
  queues =
      record { identity = 0; items = [] }
      ∷ record { identity = 1; items = event_of BlackboardWriteKind.run "run" ∷ [] }
      ∷ [];
  next_identity = 2;
}

abbrev two_events : List BlackboardWriteEvent
two_events = event_of BlackboardWriteKind.task "task" ∷ event_of BlackboardWriteKind.run "run" ∷ []

subscribe_sees_all_example :
    (pending (publish_all (subscribe two_queues).0 two_events) (subscribe two_queues).1
      ≡ some two_events)
    × ((q : ℕ) → q < 2 → pending (subscribe two_queues).0 q ≡ pending two_queues q)
subscribe_sees_all_example =
    subscribe_sees_all two_queues two_events (omega arith, (omega arith, tt))

unsubscribe_lem_example :
    (pending (unsubscribe two_queues 1) 1 ≡ none)
    × ((r : ℕ) → 1 ≢ r → pending (unsubscribe two_queues 1) r ≡ pending two_queues r)
unsubscribe_lem_example = unsubscribe_lem two_queues 1 ((λ e. omega arith, tt), (tt, tt))

abbrev busy_history : List Write
busy_history =
    task (task_of "task" TaskStatus.created)
    ∷ mutation (mutation_of "first" "task")
    ∷ mutation (mutation_of "second" "other")
    ∷ run (run_of "run" "task" RunStatus.created)
    ∷ detail (detail_of "half" "task")
    ∷ candidate (candidate_of "news" "digest" true)
    ∷ []

history-Announces_example : Announces empty (history busy_history empty)
history-Announces_example = history-Announces busy_history empty

listings_eq_logs_example :
    let b = history busy_history empty in
    (list_mutations "task" b ≡ keep (λ m. or_else m.task_id "" == "task") b.mutations)
    × (list_commands "task" b ≡ keep (λ c. c.task_id == "task") b.commands)
    × (list_task_execution_details "task" none b
        ≡ keep (λ e. e.task_id == "task") b.task_execution_details)
listings_eq_logs_example = listings_eq_logs busy_history "task"

listings_complete_example :
    let b = history busy_history empty in
    (list_notification_candidates b ≡ values b.notification_candidates.entries)
    × (list_outbound_turn_requests b ≡ values b.outbound_turn_requests.entries)
    × (list_interaction_requests b ≡ values b.interaction_requests.entries)
    × (list_attention_items b ≡ values b.attention_items.entries)
    × IsDict b.notification_candidates.entries
    × IsDict b.outbound_turn_requests.entries
    × IsDict b.interaction_requests.entries
    × IsDict b.attention_items.entries
listings_complete_example = listings_complete busy_history

abbrev one_task : Blackboard
one_task = put_task (task_of "task" TaskStatus.created) empty

revisions_count_mutations_example :
    let ms = mutation_of "first" "task" ∷ mutation_of "second" "other" ∷ [] in
    (get_task "task" (append_all ms one_task)
      ≡ revise (addressed "task" ms) (get_task "task" one_task))
    × ((append_all ms one_task).task_snapshots ≡ one_task.task_snapshots)
revisions_count_mutations_example =
    revisions_count_mutations (mutation_of "first" "task" ∷ mutation_of "second" "other" ∷ [])
      "task" one_task

abbrev three_details : Blackboard
three_details = append_task_execution_detail (detail_of "c" "task") (
    append_task_execution_detail (detail_of "b" "other")
      (append_task_execution_detail (detail_of "a" "task") empty))

recent_bounds_example :
    (length (list_recent_task_execution_details 1 1 three_details) ≤ 1)
    × All (λ e. length e.1 ≤ 1) (list_recent_task_execution_details 1 1 three_details)
recent_bounds_example = recent_bounds 1 1 three_details
