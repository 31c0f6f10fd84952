-- ===== src/Execution/Reconcile/Finishing.antt =====
-- execution/reconcile.py: how `_execute_task` ends.
use newbro.Prelude.{
  String, Bool, true, false, some, none, Option, ◌≡◌, refl, ap, sym, ◌∙◌, inl, inr, ◌⊎◌, Bool-cases,
  Option-cases, arith, if◌then◌else◌,
}
use newbro.Prelude.Dict as D
use newbro.Prelude.Dict.{Dict}
use newbro.Protocol.Enums.{TaskStatus, RunStatus, run_status_is}
use newbro.Protocol.Records.{Task, ExecutionRun, ExecutionSession, SessionBinding}
use newbro.Blackboard.State.{Blackboard, publish}
use newbro.Blackboard.Tasks.{get_task}
use newbro.Blackboard.Runs.{get_run}
use newbro.Blackboard.Sessions.{put_session, put_binding, put_summary}
use newbro.Execution.Modes.{is_terminal}
use newbro.Execution.Runs.Coherence.{Paired}
use newbro.Execution.Sessions.{
  Exception, Executor, Live, Ensured, ensure_session, adopt_node, bound_session, continued_session,
  new_session, session_of_binding, reusable_for, node_of_task,
}
use newbro.Execution.Sessions.Serving.{create_session-Created}
use newbro.Execution.Reconcile.{finish_run}
use newbro.Execution.Failures.{release_persona}
use newbro.Execution.Reconcile.Events.{core, Following}
use newbro.Execution.Reconcile.Personas.{core-release_persona}
use newbro.Execution.Reconcile.Failing.{
  HasStatus, IsReleased, IsStopped, IsReleased-core, put_binding-IsReleased,
}

-- Giving a task its session leaves the tasks of the store, and the task that is bound.
abbrev pub Kept : SessionBinding → Live → Live × (Ensured ⊎ Exception) → Type 0
Kept binding l (m, inl x) = (m.board.tasks ≡ l.board.tasks) × (x.binding.task_id ≡ binding.task_id)
Kept binding l (m, inr e) = m.board.tasks ≡ l.board.tasks

tasks-adopt_node :
    (executor : Executor) (at : Option String) (s : ExecutionSession) (b : Blackboard)
    → (adopt_node executor at s b).0.tasks ≡ b.tasks
unfolding adopt_node put_session publish
tasks-adopt_node executor at s b = ground arith

pub ensure_session-Kept :
    (executor : Executor) (fresh : String) (t : Task) (binding : SessionBinding) (l : Live)
    → Kept binding l (ensure_session executor fresh t binding l)
unfolding ensure_session bound_session continued_session new_session put_binding put_session publish
ensure_session-Kept executor fresh t binding l =
    let adopted = tasks-adopt_node executor (node_of_task executor t) in
    elim (Option-cases (session_of_binding executor binding l.board)) [
      | inr (s, p) ↦
          elim (Option-cases (
            D.get (adopt_node executor (node_of_task executor t) s l.board).1.execution_session_id
              l.sessions)) [
                | inr (cached, q) ↦
                    rw (p, q, ensure_session, bound_session) (adopted s l.board, refl)
                | inl q ↦ elim (create_session-Created executor t) [
                  | inr (e, c) ↦ rw (p, q, c, ensure_session, bound_session) (adopted s l.board)
                  | inl (x, c) ↦
                      rw (p, q, c, ensure_session, bound_session) (adopted s l.board, refl)
                ]
              ]
      | inl p ↦ elim (Option-cases (reusable_for executor t l.board)) [
        | inr (s, r) ↦ elim (Option-cases (D.get s.execution_session_id l.sessions)) [
          | inr (cached, q) ↦ rw (p, r, q, ensure_session, continued_session) (refl, refl)
          | inl q ↦ elim (create_session-Created executor t) [
            | inr (e, c) ↦ rw (p, r, q, c, ensure_session, continued_session) refl
            | inl (x, c) ↦ rw (p, r, q, c, ensure_session, continued_session) (refl, refl)
          ]
        ]
        | inl r ↦ elim (create_session-Created executor t) [
          | inr (e, c) ↦ rw (p, r, c, ensure_session, new_session) refl
          | inl (x, c) ↦ rw (p, r, c, ensure_session, new_session) (refl, refl)
        ]
      ]
    ]

abbrev pub IsCompleted : TaskStatus → Type 0
IsCompleted TaskStatus.completed = Unit {0}
IsCompleted _ = ⊥

abbrev pub IsWaiting : TaskStatus → Type 0
IsWaiting TaskStatus.waiting_executor = Unit {0}
IsWaiting _ = ⊥

-- The task's run is stored, and was neither completed nor parked.
abbrev pub RunEndedOtherwise : String → Blackboard → Type 0
RunEndedOtherwise j b =
    (r : ExecutionRun) × (get_run j b ≡ some r)
    × (run_status_is r.status RunStatus.completed ≡ false)
    × (run_status_is r.status RunStatus.waiting_executor ≡ false)

-- How the execution of the task k in the run j ends.
abbrev pub Ended : String → String → Blackboard × Option String → Type 0
Ended k j (b, some i) = (i ≡ j) × HasStatus k IsCompleted b
Ended k j (b, none) =
    IsStopped k b ⊎ ((HasStatus k IsWaiting b × IsReleased k b) ⊎ RunEndedOtherwise j b)

RunEndedOtherwise-core :
    (j : String) (b b' : Blackboard) (r : ExecutionRun)
    → core b' ≡ core b
    → get_run j b ≡ some r
    → run_status_is r.status RunStatus.completed ≡ false
    → run_status_is r.status RunStatus.waiting_executor ≡ false
    → RunEndedOtherwise j b'
unfolding get_run
RunEndedOtherwise-core j b b' r e h p q = (r, ap (λ c. D.get j c.1) e ∙ h, p, q)

Paired-IsCompleted :
    (s : TaskStatus) (r : RunStatus)
    → Paired s r ⊎ (r ≡ RunStatus.assigned)
    → run_status_is r RunStatus.completed ≡ true
    → IsCompleted s
Paired-IsCompleted s r h e = ground arith

Paired-IsWaiting :
    (s : TaskStatus) (r : RunStatus)
    → Paired s r ⊎ (r ≡ RunStatus.assigned)
    → run_status_is r RunStatus.waiting_executor ≡ true
    → IsWaiting s
Paired-IsWaiting s r h e = ground arith

core-release_if :
    (c : Bool) (t : Task) (b : Blackboard) → core (if c then release_persona t b else b) ≡ core b
core-release_if true t b = core-release_persona t b
core-release_if false t b = refl

-- A run that ends without an exception leaves the tasks and the runs as they are.
pub finish_run-tasks :
    (t : Task) (claimed : SessionBinding) (run : ExecutionRun) (session : ExecutionSession)
    (b : Blackboard)
    → let b' = (finish_run t claimed run session b).0 in (b'.tasks ≡ b.tasks) × (b'.runs ≡ b.runs)
unfolding finish_run put_binding put_session put_summary publish
finish_run-tasks t claimed run session b =
    elim (Bool-cases (run_status_is run.status RunStatus.waiting_executor)) [
      | inl w ↦
          let freed = core-release_if (is_terminal run.status) t _ in
          rw (w, finish_run) (ap (λ c. c.0) freed, ap (λ c. c.1) freed)
      | inr w ↦
          let freed = core-release_if (is_terminal run.status) t _ in
          rw (w, finish_run) (ap (λ c. c.0) freed, ap (λ c. c.1) freed)
    ]

finish_run-parked :
    (k : String) (t : Task) (claimed : SessionBinding) (run : ExecutionRun)
    (session : ExecutionSession) (b : Blackboard)
    → claimed.task_id ≡ k
    → run_status_is run.status RunStatus.waiting_executor ≡ true
    → IsReleased k (finish_run t claimed run session b).0
unfolding finish_run
finish_run-parked k t claimed run session b h w =
    rw (w, finish_run)
      (IsReleased-core k _ _ (core-release_if (is_terminal run.status) t _)
        (put_binding-IsReleased k claimed _ h))

module _ (k j : String) where
  pub HasStatus-tasks :
      (P : TaskStatus → Type 0) (b b' : Blackboard)
      → b'.tasks ≡ b.tasks
      → HasStatus k P b
      → HasStatus k P b'
  unfolding get_task
  HasStatus-tasks P b b' e (u, h, p) = (u, ap (λ c. D.get k c) e ∙ h, p)

  -- The task and the run that are followed, as the store has them.
  pub stored_task :
      (P : TaskStatus → Type 0) (b : Blackboard) (t : Task) (run : ExecutionRun)
      → Following k j (b, t, run)
      → P t.status
      → HasStatus k P b
  stored_task P b t run f p = (t, ap (λ i. get_task i b) (sym f.task_id) ∙ f.held.task, p)

  pub finish_run-Ended :
      (t : Task) (claimed : SessionBinding) (run : ExecutionRun) (session : ExecutionSession)
      (b : Blackboard)
      → claimed.task_id ≡ k
      → Following k j (b, t, run)
      → Ended k j (finish_run t claimed run session b)
  unfolding finish_run get_run
  finish_run-Ended t claimed run session b h f =
      let (tasks, runs) = finish_run-tasks t claimed run session b in
      elim (Bool-cases (run_status_is run.status RunStatus.completed)) [
        | inl c ↦
            let done = HasStatus-tasks IsCompleted b _ tasks (
              stored_task IsCompleted b t run f
                (Paired-IsCompleted t.status run.status f.paired c)) in
            rw (c, finish_run) (f.run_id, done)
        | inr c ↦ elim (Bool-cases (run_status_is run.status RunStatus.waiting_executor)) [
          | inl w ↦
              let waits = HasStatus-tasks IsWaiting b _ tasks (
                stored_task IsWaiting b t run f
                  (Paired-IsWaiting t.status run.status f.paired w)) in
              rw (c, finish_run)
                (inr (inl (waits, finish_run-parked k t claimed run session b h w)))
          | inr w ↦
              rw (c, finish_run)
                (inr (
                  inr (
                    run,
                    ap (λ d. D.get j d) runs ∙ ap (λ i. D.get i b.runs) (sym f.run_id) ∙ f.held.run,
                    c,
                    w,
                  )))
        ]
      ]
