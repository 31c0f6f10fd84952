-- ===== src/Examples/Sessions.antt =====
-- Sessions of sample tasks on an executor that always gives a session.
use newbro.Prelude.{keep, String, [], ◌∷◌, ◌≡◌, refl, none, some, ◌⊎◌, inl}
use newbro.Prelude.Dict as D
use newbro.Prelude.Json.{end, fields, text, nonempty_member, text_member, member}
use newbro.Protocol.Enums.{TaskStatus, BindingStatus}
use newbro.Protocol.Records.{Task, SessionBinding}
use newbro.Blackboard.State.{empty}
use newbro.Blackboard.Sessions.{list_sessions}
use newbro.Blackboard.Queries.{latest}
use newbro.Execution.Sessions.{
  SessionStatus, ExecutorSession, Exception, Executor, Live, Ensured, ensure_session,
  task_continuity_key, node_of_task, session_of_binding, reusable_for, find_reusable_session,
  new_session, task_imported_resume_handle,
}
use newbro.Execution.Sessions.Serving.{Outcome, ensure_session_serves}
use newbro.Execution.Sessions.Reuse.{Shares, ensure_session-Shares}
use newbro.Examples.{task_of}

abbrev pub fresh_session : ExecutorSession
fresh_session = record {
  session_id = "live";
  executor_type = "codex";
  status = SessionStatus.idle;
  metadata = end;
}

abbrev pub willing : Executor
willing = record {
  executor_type = "codex";
  executor_node_id = some "node-1";
  create_session = λ affinity. inl fresh_session;
  run_task = λ run t x. record { events = []; failure = none; session = x };
}

abbrev pub threaded : String → Task
threaded k = record (task_of k TaskStatus.queued) {
  metadata = fields (("bro_thread_id", text "thread") ∷ []);
}

abbrev pub unbound : String → SessionBinding
unbound k = record {
  task_id = k;
  execution_session_id = none;
  executor_node_id = none;
  session_id = none;
  claimed_by = some "worker";
  claim_expires_at = none;
  execution_revision = 0;
  binding_status = BindingStatus.claimed;
}

abbrev nothing_live : Live
nothing_live = record { sessions = []; board = empty }

ensure_session_serves_example :
    Outcome willing
      (threaded "a")
      (unbound "a")
      (ensure_session willing "session" (threaded "a") (unbound "a") nothing_live)
ensure_session_serves_example =
    ensure_session_serves willing "session" (threaded "a") (unbound "a") nothing_live
      (record { keyed = tt; distinct = tt })

abbrev after_first : Live × (Ensured ⊎ Exception)
after_first = ensure_session willing "session" (threaded "a") (unbound "a") nothing_live

abbrev first_ensured : Ensured
first_ensured = record {
  session = record {
    execution_session_id = "session";
    task_id = "a";
    base_executor_id = "codex";
    executor_node_id = some "node-1";
    continuity_key = some "thread";
    run_ids = [];
    active_run_id = none;
    latest_run_id = none;
    latest_resume_handle = none;
    queued_run_request = none;
  };
  binding = record (unbound "a") {
    execution_session_id = some "session";
    executor_node_id = some "node-1";
    session_id = some "live";
    binding_status = BindingStatus.active;
  };
  executor_session = fresh_session;
}

continuity_of_thread : (k : String) → task_continuity_key (threaded k) ≡ some "thread"
unfolding task_continuity_key nonempty_member text_member member
continuity_of_thread k = refl

ensures_first : after_first ≡ (after_first.0, inl first_ensured)
unfolding ensure_session session_of_binding reusable_for find_reusable_session list_sessions
    new_session task_continuity_key nonempty_member text_member member node_of_task
    task_imported_resume_handle latest keep
ensures_first = refl

same_node : node_of_task willing (threaded "a") ≡ node_of_task willing (threaded "b")
unfolding node_of_task nonempty_member text_member member
same_node = refl

ensure_session-Shares_example :
    Shares willing "thread"
      (threaded "b")
      (continuity_of_thread "b")
      after_first.0
      first_ensured
      (ensure_session willing "other" (threaded "b") (unbound "b") after_first.0)
unfolding D.get
ensure_session-Shares_example =
    ensure_session-Shares willing "thread" (threaded "b") (continuity_of_thread "b") "session"
      "other" (threaded "a") (unbound "a") (unbound "b") nothing_live after_first.0 first_ensured
      (continuity_of_thread "a") same_node refl refl refl ensures_first
