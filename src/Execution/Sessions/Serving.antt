-- ===== src/Execution/Sessions/Serving.antt =====
-- execution/session_manager.py: what `ensure_session` leaves for the task that it returns for.
use newbro.Prelude.{
  String, ◌≡◌, refl, Option, some, arith, ◌⊎◌, inl, inr, Option-cases, ◌∙◌, ap, sym,
}
use newbro.Prelude.Text.{eq_refl}
use newbro.Prelude.Dict as D
use newbro.Prelude.Dict.{Dict, values, IsDict, Misses, get-put, get_of_Misses}
use newbro.Protocol.Enums.{BindingStatus}
use newbro.Protocol.Records.{Task, ExecutionSession, SessionBinding}
use newbro.Blackboard.State.{Blackboard, publish}
use newbro.Blackboard.Sessions.{put_session, get_session, put_binding, get_binding}
use newbro.Execution.Sessions.{
  ExecutorSession, Exception, Executor, Live, Ensured, node_of_task, adopt_node, bound_session,
  continued_session, new_session, session_of_binding, reusable_for, ensure_session,
  hydrate_resume_handle, task_continuity_key,
}
use newbro.Execution.Sessions.Stored.{Stored, keyed-get, find_reusable_session_get}

-- What a task can be run with: a session that the store has, a live executor session under its id,
-- and an active binding of the task to both, on the executor's node.
pub record Serves (at : Option String) (binding : SessionBinding) (l : Live) (x : Ensured)
    : Type 0 where
  pub live : D.get x.session.execution_session_id l.sessions ≡ some x.executor_session
  pub stored : get_session x.session.execution_session_id l.board ≡ some x.session
  pub bound : get_binding binding.task_id l.board ≡ some x.binding
  pub linked : x.binding.execution_session_id ≡ some x.session.execution_session_id
  pub active : x.binding.binding_status ≡ BindingStatus.active
  pub placed : x.binding.executor_node_id ≡ at

get_binding-put_binding :
    (s : SessionBinding) (b : Blackboard) → get_binding s.task_id (put_binding s b) ≡ some s
unfolding get_binding put_binding publish
get_binding-put_binding s b =
    ground (arith, get-put s.task_id s.task_id s b.bindings_by_task, eq_refl s.task_id)

get_session-put_binding :
    (k : String) (s : SessionBinding) (b : Blackboard)
    → get_session k (put_binding s b) ≡ get_session k b
unfolding get_session put_binding publish
get_session-put_binding k s b = refl

get_session-put_session :
    (s : ExecutionSession) (b : Blackboard)
    → get_session s.execution_session_id (put_session s b) ≡ some s
unfolding get_session put_session publish
get_session-put_session s b = ground (
  arith,
  get-put s.execution_session_id s.execution_session_id s b.sessions,
  eq_refl s.execution_session_id,
)

pub live-put :
    (k : String) (x : ExecutorSession) (d : Dict ExecutorSession) → D.get k (D.put k x d) ≡ some x
live-put k x d = ground (arith, get-put k k x d, eq_refl k)

module _ (executor : Executor) where
  adopt_node-stored :
      (at : Option String) (s : ExecutionSession) (b : Blackboard)
      → get_session s.execution_session_id b ≡ some s
      → get_session
          (adopt_node executor at s b).1.execution_session_id
          (adopt_node executor at s b).0
        ≡ some (adopt_node executor at s b).1
  unfolding adopt_node
  adopt_node-stored at s b h =
      ground (arith, h, get_session-put_session (record s { executor_node_id = at }) b)

  reusable_for_get :
      (t : Task) (b : Blackboard) (s : ExecutionSession)
      → Stored b
      → reusable_for executor t b ≡ some s
      → get_session s.execution_session_id b ≡ some s
  unfolding reusable_for
  reusable_for_get t b s h e = elim (Option-cases (task_continuity_key t)) [
    | inl p ↦ ground (arith, p)
    | inr (k, p) ↦
        find_reusable_session_get k executor.executor_type (node_of_task executor t) b s h
          (ground (arith, p, e))
  ]

  session_of_binding_get :
      (binding : SessionBinding) (b : Blackboard) (s : ExecutionSession)
      → Stored b
      → session_of_binding executor binding b ≡ some s
      → get_session s.execution_session_id b ≡ some s
  unfolding session_of_binding get_session
  session_of_binding_get binding b s h e = elim (Option-cases binding.execution_session_id) [
    | inl p ↦ ground (arith, p)
    | inr (k, p) ↦
        let found : D.get k b.sessions ≡ some s = ground (arith, p, e) in
        ap (λ j. D.get j b.sessions) (keyed-get k b.sessions s h.keyed found) ∙ found
  ]

  session_of_binding-linked :
      (binding : SessionBinding) (b : Blackboard) (s : ExecutionSession)
      → Stored b
      → session_of_binding executor binding b ≡ some s
      → binding.execution_session_id ≡ some s.execution_session_id
  unfolding session_of_binding get_session
  session_of_binding-linked binding b s h e = elim (Option-cases binding.execution_session_id) [
    | inl p ↦ ground (arith, p)
    | inr (k, p) ↦
        let found : D.get k b.sessions ≡ some s = ground (arith, p, e) in
        p ∙ ap some (sym (keyed-get k b.sessions s h.keyed found))
  ]

  adopt_node-id :
      (at : Option String) (s : ExecutionSession) (b : Blackboard)
      → (adopt_node executor at s b).1.execution_session_id ≡ s.execution_session_id
  unfolding adopt_node
  adopt_node-id at s b = ground arith

  -- The result serves the task, or the executor could not create a session and the exception is its.
  abbrev pub Outcome : Task → SessionBinding → Live × (Ensured ⊎ Exception) → Type 0
  Outcome t binding (l, inl x) = Serves (node_of_task executor t) binding l x
  Outcome t binding (l, inr e) = executor.create_session t.session_affinity ≡ inr e

  put_binding-serves :
      (t : Task) (binding a : SessionBinding) (s : ExecutionSession) (x : ExecutorSession)
      (d : Dict ExecutorSession) (b : Blackboard)
      → get_session s.execution_session_id b ≡ some s
      → D.get s.execution_session_id d ≡ some x
      → a.task_id ≡ binding.task_id
      → a.execution_session_id ≡ some s.execution_session_id
      → a.binding_status ≡ BindingStatus.active
      → a.executor_node_id ≡ node_of_task executor t
      → Outcome t binding (
        record { sessions = d; board = put_binding a b },
        inl (record { session = s; binding = a; executor_session = x }),
      )
  put_binding-serves t binding a s x d b h live same linked active placed = record {
    live = live;
    stored = get_session-put_binding s.execution_session_id a b ∙ h;
    bound = ap (λ k. get_binding k (put_binding a b)) (sym same) ∙ get_binding-put_binding a b;
    linked = linked;
    active = active;
    placed = placed;
  }

  abbrev pub Created : Task → Type 0
  Created t =
      ((c : ExecutorSession) × (executor.create_session t.session_affinity ≡ inl c))
      ⊎ ((e : Exception) × (executor.create_session t.session_affinity ≡ inr e))

  pub create_session-Created : (t : Task) → Created t
  create_session-Created t = go (executor.create_session t.session_affinity) refl
    where
      go :
          (o : ExecutorSession ⊎ Exception)
          → executor.create_session t.session_affinity ≡ o
          → ((c : ExecutorSession) × (executor.create_session t.session_affinity ≡ inl c))
            ⊎ ((e : Exception) × (executor.create_session t.session_affinity ≡ inr e))
      go (inl c) q = inl (c, q)
      go (inr e) q = inr (e, q)

  bound_session-Outcome :
      (t : Task) (binding : SessionBinding) (s : ExecutionSession) (l : Live)
      → get_session s.execution_session_id l.board ≡ some s
      → binding.execution_session_id ≡ some s.execution_session_id
      → Outcome t binding (bound_session executor t binding s l)
  unfolding bound_session
  bound_session-Outcome t binding s l h k =
      let at = node_of_task executor t in
      let adopted = adopt_node executor at s l.board in
      let there = adopt_node-stored at s l.board h in
      let linked = k ∙ ap some (sym (adopt_node-id at s l.board)) in
      elim (Option-cases (D.get adopted.1.execution_session_id l.sessions)) [
        | inr (cached, p) ↦
            rw (p, bound_session)
              (put_binding-serves t binding _ adopted.1 cached l.sessions adopted.0 there p refl
                linked refl refl)
        | inl p ↦ elim (create_session-Created t) [
          | inr (e, q) ↦ rw (p, q, bound_session) q
          | inl (c, q) ↦
              rw (p, q, bound_session)
                (put_binding-serves t binding _ adopted.1
                  (hydrate_resume_handle c adopted.1.latest_resume_handle) _ adopted.0 there
                  (live-put adopted.1.execution_session_id _ l.sessions) refl linked refl refl)
        ]
      ]

  continued_session-Outcome :
      (t : Task) (binding : SessionBinding) (s : ExecutionSession) (l : Live)
      → get_session s.execution_session_id l.board ≡ some s
      → Outcome t binding (continued_session executor t binding s l)
  unfolding continued_session
  continued_session-Outcome t binding s l h =
      elim (Option-cases (D.get s.execution_session_id l.sessions)) [
        | inr (cached, p) ↦
            rw (p, continued_session)
              (put_binding-serves t binding _ s cached l.sessions l.board h p refl refl refl refl)
        | inl p ↦ elim (create_session-Created t) [
          | inr (e, q) ↦ rw (p, q, continued_session) q
          | inl (c, q) ↦
              rw (p, q, continued_session)
                (put_binding-serves t binding _ s (hydrate_resume_handle c s.latest_resume_handle) _
                  l.board h (live-put s.execution_session_id _ l.sessions) refl refl refl refl)
        ]
      ]

  new_session-Outcome :
      (fresh : String) (t : Task) (binding : SessionBinding) (l : Live)
      → Outcome t binding (new_session executor fresh t binding l)
  unfolding new_session
  new_session-Outcome fresh t binding l = elim (create_session-Created t) [
    | inr (e, q) ↦ rw (q, new_session) q
    | inl (c, q) ↦
        rw (q, new_session)
          (put_binding-serves t binding _ _ _ _ _ (get_session-put_session _ l.board)
            (live-put fresh _ l.sessions) refl refl refl refl)
  ]

  -- On a store whose sessions stand under their ids, `ensure_session` leaves the task served: its
  -- session is stored, the executor session is live under the session's id, and the stored binding
  -- of the task is active, on the executor's node and names the session. The one way to fail is that the
  -- executor raises when it creates a session, and then that exception is raised.
  pub ensure_session_serves :
      (fresh : String) (t : Task) (binding : SessionBinding) (l : Live)
      → Stored l.board
      → Outcome t binding (ensure_session executor fresh t binding l)
  unfolding ensure_session
  ensure_session_serves fresh t binding l h =
      elim (Option-cases (session_of_binding executor binding l.board)) [
        | inr (s, p) ↦
            rw (p, ensure_session)
              (bound_session-Outcome t binding s l (session_of_binding_get binding l.board s h p)
                (session_of_binding-linked binding l.board s h p))
        | inl p ↦ elim (Option-cases (reusable_for executor t l.board)) [
          | inr (s, q) ↦
              rw (p, q, ensure_session)
                (continued_session-Outcome t binding s l (reusable_for_get t l.board s h q))
          | inl q ↦ rw (p, q, ensure_session) (new_session-Outcome fresh t binding l)
        ]
      ]
