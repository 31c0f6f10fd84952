-- ===== src/Examples/Reconcile.antt =====
-- A sample task that its executor completes.
use newbro.Prelude.{
  any, ℕ, String, List, [], ◌∷◌, ◌≡◌, refl, Option, none, some, if◌then◌else◌, ◌&&◌, not, arith,
}
use newbro.Prelude.Text.{◌==◌, eq_iff}
use newbro.Prelude.Dict as D
use newbro.Prelude.Json.{Fields, end, fields, text, text_member}
use newbro.Protocol.Enums.{TaskStatus}
use newbro.Protocol.Records.{Task, AgentResumeHandle, Persona, ExecutionRun}
use newbro.Blackboard.State.{Blackboard, empty, publish}
use newbro.Blackboard.Tasks.{put_task, get_task, list_tasks}
use newbro.Blackboard.Personas.{put_persona, get_persona}
use newbro.Execution.Events.{ExecutorEvent, ExecutorEventType}
use newbro.Execution.Sessions.{ExecutorSession, Executor, Live}
use newbro.Execution.Reconcile.{execute_task, prompted_task}
use newbro.Execution.Failures.{Moment, release_persona, occupies}
use newbro.Execution.Reconcile.Personas.{can_run, names, in_use, release_persona_lem}
use newbro.Execution.Reconcile.Finishing.{Ended, IsCompleted}
use newbro.Execution.Reconcile.Failing.{HasStatus}
use newbro.Execution.Reconcile.Outcomes.{execute_task_ends}
use newbro.Execution.Reconcile.Completion.{Completes, execute_task-IsCompleted}
use newbro.Examples.{task_of}
use newbro.Examples.Sessions.{willing, fresh_session, unbound}

abbrev reported : ExecutorEventType → ExecutorEvent
reported y = record {
  run_id = "run";
  session_id = "live";
  event_type = y;
  message = some "done";
  metadata = end;
}

abbrev two_events : List ExecutorEvent
two_events = reported ExecutorEventType.progress ∷ reported ExecutorEventType.completed ∷ []

abbrev able : Executor
able = record willing {
  run_task = λ run t x. record { events = two_events; failure = none; session = x };
}

abbrev no_handle : Fields → Option AgentResumeHandle
no_handle d = none

abbrev tidy : Task
tidy = record (task_of "task" TaskStatus.queued) {
  metadata = fields (("persona_id", text "ada") ∷ []);
}

abbrev moment : ℕ → Moment
moment n = record { detail_id = "detail"; created_at = "x"; elapsed_seconds = n }

abbrev one_task : Live
one_task = record { sessions = []; board = put_task tidy empty }

one_task-stored : get_task "task" one_task.board ≡ some tidy
unfolding get_task put_task publish D.get D.put
one_task-stored = refl

execute_task_ends_example :
    let (m, result) =
      execute_task no_handle
        (("codex", able) ∷ [])
        "codex"
        5
        moment
        "session"
        "run"
        tidy
        (unbound "task")
        one_task in
    Ended "task" "run" (m.board, result)
execute_task_ends_example =
    execute_task_ends no_handle (("codex", able) ∷ []) "codex" 5 moment "session" "run" tidy
      (unbound "task") one_task one_task-stored refl

abbrev any_handle : Fields → Option AgentResumeHandle
any_handle d =
    some (record { executor_id = "codex"; session_handle = none; turn_handle = none; opaque = d })

able-Completes :
    (run : ExecutionRun) (t : Task) (x : ExecutorSession)
    → Completes any_handle (able.run_task run t x)
able-Completes run t x = record {
  before = reported ExecutorEventType.progress ∷ [];
  last = reported ExecutorEventType.completed;
  events = refl;
  completion = refl;
  uncancelled = (λ e. cc, tt);
  unraised = refl;
  valid = λ d e. refl;
}

execute_task-IsCompleted_example :
    let (m, result) =
      execute_task any_handle
        (("codex", able) ∷ [])
        "codex"
        5
        moment
        "session"
        "run"
        tidy
        (unbound "task")
        one_task in
    (result ≡ some "run") × HasStatus "task" IsCompleted m.board
unfolding D.get put_task publish
execute_task-IsCompleted_example =
    execute_task-IsCompleted any_handle (("codex", able) ∷ []) "codex" 5 moment able fresh_session
      "session" "run" tidy (unbound "task") one_task one_task-stored refl (λ e. cc)
      (record { keyed = tt; distinct = tt }) refl refl
      (λ run x. able-Completes run (prompted_task tidy one_task.board) x)

abbrev ada : Persona
ada = record {
  persona_id = "ada";
  name = "Ada";
  avatar = "";
  base_prompt = "";
  executor_node_id = none;
  bro_detail_session_id = "";
  status = "busy";
}

-- The store with a busy persona and two tasks of it: one is completed, the other stopped.
abbrev over_board : Blackboard
over_board = put_persona ada (
    put_task (record tidy { task_id = "other"; status = TaskStatus.stopped })
      (put_task (record tidy { status = TaskStatus.completed }) empty))

released_ada :
    get_persona "ada" (release_persona tidy over_board) ≡ some (record ada { status = "idle" })
unfolding list_tasks get_persona put_persona put_task publish D.get D.put release_persona occupies
    any text_member
released_ada = refl

over_board-keyed : (j : String) (q : Persona) → get_persona j over_board ≡ some q → q.persona_id ≡ j
unfolding get_persona put_persona put_task publish D.get D.put
over_board-keyed j q h = ground (arith, eq_iff "ada" j, h)

release_persona_lem_example :
    get_persona "ada" (release_persona tidy over_board)
    ≡ some (
        if names "ada" tidy && (ada.status == "busy") && not (in_use "ada" over_board)
        then record ada { status = "idle" }
        else ada)
unfolding list_tasks get_persona put_persona put_task publish D.get D.put can_run
release_persona_lem_example =
    release_persona_lem tidy "ada" ada over_board ((λ e. refl), ((λ e. refl), tt)) over_board-keyed
      refl
