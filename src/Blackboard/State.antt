-- ===== src/Blackboard/State.antt =====
-- blackboard/backends/memory.py: the state of `InMemoryBlackboard`, and `_publish`. A dict of records
-- and its `_order` list are one `Table`. `diagnostic_request_id` is the request id of the diagnostic
-- context in which a write is made.
use newbro.Prelude.{String, List, [], ◌∷◌, ◌++◌, Option, none, some}
use newbro.Prelude.Dict.{Dict}
use newbro.Protocol.Records.{
  Task, TaskMutation, TaskCommand, TaskExecutionDetailEntry, ExecutionRun, ExecutionSession,
  SessionBinding, TaskSummary, TaskExecutionMode, NotificationCandidate, OutboundTurnRequest,
  Persona, InteractionRequest, AttentionItem, AgentEvent,
}
use newbro.Blackboard.Events.{BlackboardWriteEvent}
use newbro.Blackboard.Subscriptions as Subscriptions
use newbro.Blackboard.Subscriptions.{SubscriptionManager}
use newbro.Blackboard.Table as Table
use newbro.Blackboard.Table.{Table}

pub record Blackboard : Type 0 where
  pub tasks : Dict Task
  pub task_snapshots : Dict Task
  pub mutations_by_task : Dict (List TaskMutation)
  pub commands_by_task : Dict (List TaskCommand)
  pub mutations : List TaskMutation
  pub commands : List TaskCommand
  pub task_execution_details_by_task : Dict (List TaskExecutionDetailEntry)
  pub task_execution_details : List TaskExecutionDetailEntry
  pub sessions : Dict ExecutionSession
  pub runs : Dict ExecutionRun
  pub run_snapshots : Dict ExecutionRun
  pub bindings_by_task : Dict SessionBinding
  pub summaries_by_task : Dict TaskSummary
  pub execution_modes_by_task : Dict TaskExecutionMode
  pub notification_candidates : Table NotificationCandidate
  pub outbound_turn_requests : Table OutboundTurnRequest
  pub personas : Dict Persona
  pub interaction_requests : Table InteractionRequest
  pub attention_items : Table AttentionItem
  pub agent_events : Table AgentEvent
  pub recent_writes : List BlackboardWriteEvent
  pub subscriptions : SubscriptionManager
  pub diagnostic_request_id : Option String

-- `InMemoryBlackboard()`
abbrev pub empty : Blackboard
empty = record {
  tasks = [];
  task_snapshots = [];
  mutations_by_task = [];
  commands_by_task = [];
  mutations = [];
  commands = [];
  task_execution_details_by_task = [];
  task_execution_details = [];
  sessions = [];
  runs = [];
  run_snapshots = [];
  bindings_by_task = [];
  summaries_by_task = [];
  execution_modes_by_task = [];
  notification_candidates = Table.empty;
  outbound_turn_requests = Table.empty;
  personas = [];
  interaction_requests = Table.empty;
  attention_items = Table.empty;
  agent_events = Table.empty;
  recent_writes = [];
  subscriptions = record { queues = []; next_identity = 0 };
  diagnostic_request_id = none;
}

-- An event without a request id takes that of the diagnostic context.
pub stamp : Option String → BlackboardWriteEvent → BlackboardWriteEvent
stamp context e = elim e.request_id [ none ↦ record e { request_id = context } | some r ↦ e ]

unfoldable pub publish : Blackboard → BlackboardWriteEvent → Blackboard
unfolding stamp
publish b e =
    let e' = stamp b.diagnostic_request_id e in
    record b {
      recent_writes = b.recent_writes ++ e' ∷ [];
      subscriptions = Subscriptions.publish b.subscriptions e';
    }
