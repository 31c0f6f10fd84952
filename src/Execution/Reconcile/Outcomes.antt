-- ===== src/Execution/Reconcile/Outcomes.antt =====
-- execution/reconcile.py: the ways in which `_execute_task` ends.
use newbro.Prelude.{
  ℕ, String, some, none, Option, ◌≡◌, refl, ap, sym, ◌∙◌, inl, inr, ◌⊎◌, Option-cases, arith,
  length,
}
use mathlib.Core.Path.{subst}
use newbro.Prelude.Text.{eq_refl, first_text}
use newbro.Prelude.Dict as D
use newbro.Prelude.Dict.{Dict}
use newbro.Prelude.Json.{Fields, Value, object, member}
use newbro.Protocol.Records.{
  Task, ExecutionRun, ExecutionSession, SessionBinding, AgentResumeHandle,
}
use newbro.Blackboard.State.{Blackboard, publish}
use newbro.Blackboard.Tasks.{get_task}
use newbro.Blackboard.Runs.{get_run, put_run}
use newbro.Blackboard.Sessions.{put_session}
use newbro.Execution.Modes.{initialize_task_mode}
use newbro.Execution.Runs.{create_run}
use newbro.Execution.Sessions.{
  Exception, Executor, ExecutorSession, Live, Ensured, RunStream, ensure_session,
}
use newbro.Execution.Reconcile.{
  execute_task, after_ensured, invalid_handle, run_ensured, end_run, sync_executor_session,
  prompted_task,
}
use newbro.Execution.Failures.{Moment, fail_execution_exception}
use newbro.Execution.Reconcile.Events.{
  core, Following, Following-core, follow-Following, core-initialize_task_mode,
}
use newbro.Execution.Reconcile.Failing.{
  IsStopped, core-put_session, fail_unknown_executor-IsStopped, fail_running-IsStopped,
  fail_unstarted-IsStopped,
}
use newbro.Execution.Reconcile.Finishing.{Ended, Kept, ensure_session-Kept, finish_run-Ended}

get_run-put_run : (r : ExecutionRun) (b : Blackboard) → get_run r.run_id (put_run r b) ≡ some r
unfolding get_run put_run publish
get_run-put_run r b = ground (arith, D.get-put r.run_id r.run_id r b.runs, eq_refl r.run_id)

pub created_Following :
    (run_id : String) (t : Task) (s : ExecutionSession) (w : Option String) (y : String)
    (b : Blackboard)
    → get_task t.task_id b ≡ some t
    → let (b', run, session) = create_run run_id t s w y b in
      Following t.task_id run_id (b', t, run)
unfolding create_run put_run put_session publish get_task get_run
created_Following run_id t s w y b h = record {
  held = record { task = h; run = get_run-put_run (create_run run_id t s w y b).1 b };
  task_id = refl;
  run_id = refl;
  paired = inr refl;
}

fail_followed :
    (k j : String) (m : Moment) (claimed : SessionBinding) (session : ExecutionSession)
    (b : Blackboard) (t : Task) (run : ExecutionRun)
    → claimed.task_id ≡ k
    → Following k j (b, t, run)
    → (exc : Exception)
    → IsStopped k (fail_execution_exception m t claimed exc (some run) (some session) b)
fail_followed k j m claimed session b t run h f exc =
    subst (λ i. IsStopped i (fail_execution_exception m t claimed exc (some run) (some session) b))
      f.task_id
      (fail_running-IsStopped m t exc claimed run (some session) b (h ∙ sym f.task_id) f.held)

module _ (model_validate : Fields → Option AgentResumeHandle) where
  -- What the sync gives: the same tasks, runs and bindings, or an exception for an invalid handle.
  abbrev pub Synced : ExecutionSession → ExecutorSession → Blackboard → Type 0
  Synced session x b =
      ((b' : Blackboard) × (s : ExecutionSession) × (sync_executor_session model_validate session x
            b
          ≡ inl (b', s))
        × (core b' ≡ core b))
      ⊎ ((exc : Exception) × (d : Fields) × (sync_executor_session model_validate session x b
            ≡ inr exc)
          × (member "latest_resume_handle" x.metadata ≡ some (object d))
          × (model_validate d ≡ none))

  pub sync-Synced :
      (session : ExecutionSession) (x : ExecutorSession) (b : Blackboard) → Synced session x b
  unfolding sync_executor_session
  sync-Synced session x b = go (member "latest_resume_handle" x.metadata) refl
    where
      go : (o : Option Value) → member "latest_resume_handle" x.metadata ≡ o → Synced session x b
      go (some (object d)) e = elim (Option-cases (model_validate d)) [
        | inl v ↦ inr (invalid_handle, d, rw (e, v, sync_executor_session) refl, e, v)
        | inr (h, v) ↦ inl (
          put_session (record session { latest_resume_handle = some h }) b,
          record session { latest_resume_handle = some h },
          rw (e, v, sync_executor_session) refl,
          core-put_session _ b,
        )
      ]
      go _ e = inl (b, session, rw (e, sync_executor_session) refl, refl)

  end_run-Ended :
      (k j : String) (m : Moment) (claimed : SessionBinding) (session : ExecutionSession)
      (stream : RunStream) (b : Blackboard) (t : Task) (run : ExecutionRun)
      → claimed.task_id ≡ k
      → Following k j (b, t, run)
      → Ended k j (end_run model_validate m claimed session stream (b, t, run))
  unfolding end_run
  end_run-Ended k j m claimed session stream b t run h f =
      let stopped = fail_followed k j m claimed session b t run h f in
      elim (Option-cases stream.failure) [
        | inr (exc, p) ↦ rw (p, end_run) (inl (stopped exc))
        | inl p ↦ elim (sync-Synced session stream.session b) [
          | inr (exc, d, q, r, v) ↦ rw (p, q, end_run) (inl (stopped exc))
          | inl (b', s, q, e) ↦
              rw (p, q, end_run)
                (finish_run-Ended k j t claimed run s b' h (Following-core k j b b' t run e f))
        ]
      ]

  -- A task that is run keeps its id, so its end is that of the task that was claimed.
  module _ (threshold : ℕ) (moments : ℕ → Moment) (executor : Executor) where
    run_ensured-Ended :
        (run_id y : String) (t executor_task : Task) (x : Ensured) (l : Live)
        → get_task t.task_id l.board ≡ some t
        → x.binding.task_id ≡ t.task_id
        → let (m, result) =
            run_ensured model_validate threshold moments executor run_id y t executor_task x l in
          Ended t.task_id run_id (m.board, result)
    unfolding run_ensured
    run_ensured-Ended run_id y t executor_task x l h same =
        let (b₁, run, session) = create_run run_id t x.session x.binding.claimed_by y l.board in
        let (b₂, mode) = initialize_task_mode t.task_id b₁ in
        let stream = executor.run_task run executor_task x.executor_session in
        let start =
          Following-core t.task_id run_id b₁ b₂ t run (core-initialize_task_mode t.task_id b₁)
            (created_Following run_id t x.session x.binding.claimed_by y l.board h) in
        end_run-Ended t.task_id run_id (moments (length stream.events)) x.binding session stream _ _
          _ same
          (follow-Following threshold moments t.task_id run_id 0 stream.events (b₂, t, run) start)

    after_ensured-Ended :
        (run_id y : String) (t executor_task : Task) (claimed : SessionBinding) (l : Live)
        (o : Live × (Ensured ⊎ Exception))
        → get_task t.task_id l.board ≡ some t
        → claimed.task_id ≡ t.task_id
        → Kept claimed l o
        → let (m, result) =
            after_ensured model_validate threshold moments executor run_id y t executor_task claimed
              o in
          Ended t.task_id run_id (m.board, result)
    unfolding after_ensured get_task
    after_ensured-Ended run_id y t executor_task claimed l (l', inr exc) h same kept =
        inl (fail_unstarted-IsStopped (moments 0) t exc claimed l'.board same)
    after_ensured-Ended run_id y t executor_task claimed l (l', inl x) h same (kept, bound) =
        run_ensured-Ended run_id y t executor_task x l' (ap (λ d. D.get t.task_id d) kept ∙ h)
          (bound ∙ same)

  -- A claimed task that the store holds ends in one of four ways. Its run's id is given back, and the
  -- task is stored as completed. Or nothing is given back, and: the task is stored as failed or
  -- cancelled and its claim is given up; or it is stored as waiting for its executor and its claim
  -- is given up; or its run is stored with a status that is neither completed nor waiting.
  pub execute_task_ends :
      (registry : Dict Executor) (default_executor_type : String) (threshold : ℕ)
      (moments : ℕ → Moment) (fresh run_id : String) (t : Task) (claimed : SessionBinding)
      (l : Live)
      → get_task t.task_id l.board ≡ some t
      → claimed.task_id ≡ t.task_id
      → let (m, result) =
          execute_task model_validate registry default_executor_type threshold moments fresh run_id
            t claimed l in
        Ended t.task_id run_id (m.board, result)
  unfolding execute_task
  execute_task_ends registry default_executor_type threshold moments fresh run_id t claimed l h
        same =
      let y = first_text t.preferred_executor default_executor_type in
      elim (Option-cases (D.get y registry)) [
        | inl p ↦
            rw (p, execute_task) (inl (fail_unknown_executor-IsStopped t claimed y l.board same))
        | inr (executor, p) ↦
            rw (p, execute_task)
              (after_ensured-Ended threshold moments executor run_id y t (prompted_task t l.board)
                claimed l (ensure_session executor fresh t claimed l) h same
                (ensure_session-Kept executor fresh t claimed l))
      ]
