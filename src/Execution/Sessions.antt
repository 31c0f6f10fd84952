-- ===== src/Execution/Sessions.antt =====
-- execution/session_manager.py, and the sessions of executors/core/session.py. An executor is what it
-- is to its callers: its type, its node, its `create_session`, which returns a session or raises, and
-- the stream of events that its `run_task` yields.
-- `executor_session.metadata` is the dict that the executor keeps its resume handle in.
pub mod Stored
pub mod Serving
pub mod Reuse
use newbro.Prelude.{
  String, List, [], ◌∷◌, Bool, true, false, not, ◌&&◌, Option, none, some, if◌then◌else◌, keep,
  is_some, ◌⊎◌, inl, inr,
}
use newbro.Prelude.Text.{◌==◌, option_eq, truthy}
use newbro.Prelude.Dict as D
use newbro.Prelude.Dict.{Dict}
use newbro.Prelude.Json.{
  Fields, end, text, object, fields, assign, without, member, text_member, nonempty_member,
  optional_text,
}
use newbro.Protocol.Enums.{BindingStatus}
use newbro.Protocol.Records.{
  Task, ExecutionRun, ExecutionSession, SessionBinding, AgentResumeHandle,
}
use newbro.Execution.Events.{ExecutorEvent}
use newbro.Blackboard.State.{Blackboard}
use newbro.Blackboard.Queries.{latest}
use newbro.Blackboard.Sessions.{put_session, get_session, list_sessions, put_binding}

pub data SessionStatus : Type 0 where
  idle warm_idle busy suspended terminated : SessionStatus

pub record ExecutorSession : Type 0 where
  pub session_id : String
  pub executor_type : String
  pub status : SessionStatus
  pub metadata : Fields

-- An exception: the name of its type, and its text.
pub record Exception : Type 0 where
  pub error_type : String
  pub message : String

-- What an executor yields for a run: its events, the exception that ended them, if one did, and its
-- session as it leaves it.
pub record RunStream : Type 0 where
  pub events : List ExecutorEvent
  pub failure : Option Exception
  pub session : ExecutorSession

-- What the managers use of an executor.
pub record Executor : Type 0 where
  pub executor_type : String
  pub executor_node_id : Option String
  pub create_session : Option String → ExecutorSession ⊎ Exception
  pub run_task : ExecutionRun → Task → ExecutorSession → RunStream

unfoldable pub dump_handle : AgentResumeHandle → Fields
dump_handle h = fields (
    ("executor_id", text h.executor_id)
    ∷ ("session_handle", optional_text h.session_handle)
    ∷ ("turn_handle", optional_text h.turn_handle)
    ∷ ("opaque", object h.opaque)
    ∷ [])

unfoldable pub hydrate_resume_handle : ExecutorSession → Option AgentResumeHandle → ExecutorSession
unfolding without assign dump_handle
hydrate_resume_handle x none = record x { metadata = without "latest_resume_handle" x.metadata }
hydrate_resume_handle x (some h) = record x {
  metadata = assign "latest_resume_handle" (object (dump_handle h)) x.metadata;
}

unfoldable pub task_continuity_key : Task → Option String
unfolding nonempty_member
task_continuity_key t = elim (nonempty_member "bro_thread_id" t.metadata) [
  | some k ↦ some k
  | none ↦ nonempty_member "bro_detail_session_id" t.metadata
]

-- The entry of a dict literal that is there if the value is.
optional_entry : String → Option String → Fields → Fields
unfolding assign
optional_entry k none d = d
optional_entry k (some s) d = assign k (text s) d

unfoldable pub task_imported_resume_handle : Task → Option AgentResumeHandle
unfolding optional_entry text_member nonempty_member
task_imported_resume_handle t =
    let resumes : Bool = elim (text_member "codex_thread_mode" t.metadata) [
      | none ↦ false
      | some m ↦ m == "resume"
    ] in
    let handle : Option AgentResumeHandle =
      elim (nonempty_member "codex_import_thread_id" t.metadata) [
        | none ↦ none
        | some value ↦ some (record {
          executor_id = "codex";
          session_handle = some value;
          turn_handle = none;
          opaque =
              optional_entry "path" (nonempty_member "codex_import_path" t.metadata)
                (optional_entry "cwd" (nonempty_member "codex_import_cwd" t.metadata) end);
        })
      ] in
    if resumes then handle else none

abbrev pub is_reusable : String → String → Option String → ExecutionSession → Bool
is_reusable continuity_key executor_type executor_node_id s =
    option_eq s.continuity_key (some continuity_key)
    && (s.base_executor_id == executor_type)
    && option_eq s.executor_node_id executor_node_id

unfoldable pub find_reusable_session :
    String → String → Option String → Blackboard → Option ExecutionSession
unfolding keep latest
find_reusable_session continuity_key executor_type executor_node_id b =
    latest (keep (is_reusable continuity_key executor_type executor_node_id) (list_sessions b))

-- The manager's live sessions, and the store.
pub record Live : Type 0 where
  pub sessions : Dict ExecutorSession
  pub board : Blackboard

pub record Ensured : Type 0 where
  pub session : ExecutionSession
  pub binding : SessionBinding
  pub executor_session : ExecutorSession

module _ (executor : Executor) where
  unfoldable pub node_of_task : Task → Option String
  unfolding nonempty_member
  node_of_task t = elim (nonempty_member "executor_node_id" t.metadata) [
    | some n ↦ some n
    | none ↦ executor.executor_node_id
  ]

  -- The session that a binding names takes over the node.
  unfoldable pub adopt_node :
      Option String → ExecutionSession → Blackboard → Blackboard × ExecutionSession
  adopt_node node s b =
      let s' : ExecutionSession = record s { executor_node_id = node } in
      if is_some node && not (option_eq s.executor_node_id node)
      then (put_session s' b, s')
      else (b, s)

  unfoldable pub bound_session :
      Task → SessionBinding → ExecutionSession → Live → Live × (Ensured ⊎ Exception)
  unfolding D.get D.put
  bound_session t binding s l =
      let node = node_of_task t in
      let (b, s') = adopt_node node s l.board in
      elim (D.get s'.execution_session_id l.sessions) [
        | some cached ↦
            let active : SessionBinding = record binding {
              binding_status = BindingStatus.active;
              executor_node_id = node;
            } in
            (
              record l { board = put_binding active b },
              inl (record { session = s'; binding = active; executor_session = cached }),
            )
        | none ↦ elim (executor.create_session t.session_affinity) [
          | inr e ↦ (record l { board = b }, inr e)
          | inl created ↦
              let x = hydrate_resume_handle created s'.latest_resume_handle in
              let active : SessionBinding = record binding {
                session_id = some x.session_id;
                executor_node_id = node;
                binding_status = BindingStatus.active;
              } in
              (
                record {
                  sessions = D.put s'.execution_session_id x l.sessions;
                  board = put_binding active b;
                },
                inl (record { session = s'; binding = active; executor_session = x }),
              )
        ]
      ]

  -- The session and its live executor session, made anew if there is none.
  unfoldable pub continued_session :
      Task → SessionBinding → ExecutionSession → Live → Live × (Ensured ⊎ Exception)
  unfolding D.get D.put
  continued_session t binding s l =
      let joined : ExecutorSession → SessionBinding = λ x. record binding {
        execution_session_id = some s.execution_session_id;
        session_id = some x.session_id;
        executor_node_id = node_of_task t;
        binding_status = BindingStatus.active;
      } in
      elim (D.get s.execution_session_id l.sessions) [
        | some cached ↦ (
          record l { board = put_binding (joined cached) l.board },
          inl (record { session = s; binding = joined cached; executor_session = cached }),
        )
        | none ↦ elim (executor.create_session t.session_affinity) [
          | inr e ↦ (l, inr e)
          | inl created ↦
              let x = hydrate_resume_handle created s.latest_resume_handle in
              (
                record {
                  sessions = D.put s.execution_session_id x l.sessions;
                  board = put_binding (joined x) l.board;
                },
                inl (record { session = s; binding = joined x; executor_session = x }),
              )
        ]
      ]

  abbrev imported_session : ExecutorSession → Option AgentResumeHandle → ExecutorSession
  imported_session x none = x
  imported_session x (some h) = hydrate_resume_handle x (some h)

  -- `fresh` is the new session's id.
  unfoldable pub new_session : String → Task → SessionBinding → Live → Live × (Ensured ⊎ Exception)
  unfolding D.put
  new_session fresh t binding l = elim (executor.create_session t.session_affinity) [
    | inr e ↦ (l, inr e)
    | inl created ↦
        let handle = task_imported_resume_handle t in
        let x = imported_session created handle in
        let s : ExecutionSession = record {
          execution_session_id = fresh;
          task_id = t.task_id;
          base_executor_id = executor.executor_type;
          executor_node_id = node_of_task t;
          continuity_key = task_continuity_key t;
          run_ids = [];
          active_run_id = none;
          latest_run_id = none;
          latest_resume_handle = handle;
          queued_run_request = none;
        } in
        let active : SessionBinding = record binding {
          execution_session_id = some fresh;
          executor_node_id = node_of_task t;
          session_id = some x.session_id;
          binding_status = BindingStatus.active;
        } in
        (
          record {
            sessions = D.put fresh x l.sessions;
            board = put_binding active (put_session s l.board);
          },
          inl (record { session = s; binding = active; executor_session = x }),
        )
  ]

  -- The session that the binding names, if the store has it.
  unfoldable pub session_of_binding : SessionBinding → Blackboard → Option ExecutionSession
  session_of_binding binding b = elim binding.execution_session_id [
    | none ↦ none
    | some k ↦ if truthy k then get_session k b else none
  ]

  unfoldable pub reusable_for : Task → Blackboard → Option ExecutionSession
  reusable_for t b = elim (task_continuity_key t) [
    | none ↦ none
    | some k ↦ find_reusable_session k executor.executor_type (node_of_task t) b
  ]

  unfoldable pub ensure_session :
      String → Task → SessionBinding → Live → Live × (Ensured ⊎ Exception)
  ensure_session fresh t binding l = elim (session_of_binding binding l.board) [
    | some s ↦ bound_session t binding s l
    | none ↦ elim (reusable_for t l.board) [
      | some s ↦ continued_session t binding s l
      | none ↦ new_session fresh t binding l
    ]
  ]

unfoldable pub drop_live_session : String → Live → Live
unfolding D.pop
drop_live_session k l = record l { sessions = D.pop k l.sessions }

unfoldable pub get_live_session : String → Live → Option ExecutorSession
unfolding D.get
get_live_session k l = D.get k l.sessions
