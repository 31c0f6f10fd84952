-- ===== src/Execution/Sessions/Reuse.antt =====
-- execution/session_manager.py: tasks of one conversation thread share a session.
use newbro.Prelude.{
  String, List, [], ◌∷◌, ◌≡◌, refl, true, Option, none, some, arith, keep, ◌⊎◌, inl, inr,
  Option-cases, ◌++◌, ◌∙◌, ap, sym, keep-append,
}
use mathlib.Core.Path.{subst}
use newbro.Prelude.Text.{◌==◌, eq_refl, option_eq}
use newbro.Prelude.Dict as D
use newbro.Prelude.Dict.{Dict, values}
use newbro.Protocol.Records.{Task, ExecutionSession, SessionBinding}
use newbro.Blackboard.State.{Blackboard, publish}
use newbro.Blackboard.Queries.{latest}
use newbro.Blackboard.Sessions.{put_session, list_sessions, put_binding}
use newbro.Execution.Sessions.{
  Exception, Executor, Live, Ensured, node_of_task, continued_session, new_session,
  session_of_binding, reusable_for, ensure_session, find_reusable_session, is_reusable,
  task_continuity_key,
}
use newbro.Execution.Sessions.Serving.{create_session-Created, live-put}

values-put_new :
    (k : String) (v : ExecutionSession) (d : Dict ExecutionSession)
    → D.get k d ≡ none
    → values (D.put k v d) ≡ values d ++ v ∷ []
unfolding D.get D.put
values-put_new k v [] h = refl
values-put_new k v ((j, w) ∷ d) h = ground (arith, values-put_new k v d)

latest-append : (xs : List ExecutionSession) (s : ExecutionSession) → latest (xs ++ s ∷ []) ≡ some s
unfolding latest
latest-append [] s = refl
latest-append (x ∷ []) s = refl
latest-append (x ∷ y ∷ ys) s = latest-append (y ∷ ys) s

option_eq_refl : (o : Option String) → option_eq o o ≡ true
option_eq_refl none = refl
option_eq_refl (some s) = eq_refl s

-- A session that is put last and fits is the one that is found.
find_reusable_session-new :
    (k ty : String) (at : Option String) (s : ExecutionSession) (b : Blackboard)
    → D.get s.execution_session_id b.sessions ≡ none
    → is_reusable k ty at s ≡ true
    → find_reusable_session k ty at (put_session s b) ≡ some s
unfolding find_reusable_session list_sessions put_session publish keep
find_reusable_session-new k ty at s b h fits =
    let fitting : keep (is_reusable k ty at) (s ∷ []) ≡ s ∷ [] = rw fits refl in
    ap (λ vs. latest (keep (is_reusable k ty at) vs))
      (values-put_new s.execution_session_id s b.sessions h)
    ∙ ap latest (keep-append (is_reusable k ty at) (values b.sessions) (s ∷ []))
    ∙ ap (λ vs. latest (keep (is_reusable k ty at) (values b.sessions) ++ vs)) fitting
    ∙ latest-append (keep (is_reusable k ty at) (values b.sessions)) s

module _ (executor : Executor) (k : String) (u : Task)
    (same_key : task_continuity_key u ≡ some k) where
  reusable_for-put_binding :
      (a : SessionBinding) (b : Blackboard)
      → reusable_for executor u (put_binding a b) ≡ reusable_for executor u b
  unfolding reusable_for find_reusable_session list_sessions put_binding publish
  reusable_for-put_binding a b = refl

  reusable_for-same :
      (t : Task) (b : Blackboard)
      → task_continuity_key t ≡ some k
      → node_of_task executor t ≡ node_of_task executor u
      → reusable_for executor t b ≡ reusable_for executor u b
  unfolding reusable_for
  reusable_for-same t b key at =
      rw (key, same_key, reusable_for)
        (ap (λ n. find_reusable_session k executor.executor_type n b) at)

  reusable_for-new :
      (a : SessionBinding) (s : ExecutionSession) (b : Blackboard)
      → D.get s.execution_session_id b.sessions ≡ none
      → s.continuity_key ≡ some k
      → s.base_executor_id ≡ executor.executor_type
      → s.executor_node_id ≡ node_of_task executor u
      → reusable_for executor u (put_binding a (put_session s b)) ≡ some s
  reusable_for-new a s b h key ty at =
      let fits : is_reusable k executor.executor_type (node_of_task executor u) s ≡ true = ground (
        arith,
        eq_refl k,
        eq_refl executor.executor_type,
        option_eq_refl (node_of_task executor u),
        ap (λ o. option_eq o (some k)) key,
        ap (λ o. o == executor.executor_type) ty,
        ap (λ o. option_eq o (node_of_task executor u)) at,
      ) in
      reusable_for-put_binding a (put_session s b)
      ∙ unfold reusable_for in
        rw (same_key, reusable_for)
          (find_reusable_session-new k executor.executor_type (node_of_task executor u) s b h fits)

  -- The next task of the thread finds this session, and its executor session is live.
  abbrev Continues : Live × (Ensured ⊎ Exception) → Type 0
  Continues (l, inl x) =
      (reusable_for executor u l.board ≡ some x.session)
      × (D.get x.session.execution_session_id l.sessions ≡ some x.executor_session)
  Continues (l, inr e) = Unit {0}

  continued_session-Continues :
      (t : Task) (binding : SessionBinding) (s : ExecutionSession) (l : Live)
      → reusable_for executor u l.board ≡ some s
      → Continues (continued_session executor t binding s l)
  unfolding continued_session
  continued_session-Continues t binding s l h =
      elim (Option-cases (D.get s.execution_session_id l.sessions)) [
        | inr (cached, p) ↦ rw (p, continued_session) (reusable_for-put_binding _ l.board ∙ h, p)
        | inl p ↦ elim (create_session-Created executor t) [
          | inr (e, q) ↦ rw (p, q, continued_session) tt
          | inl (c, q) ↦
              rw (p, q, continued_session)
                (
                  reusable_for-put_binding _ l.board ∙ h,
                  live-put s.execution_session_id _ l.sessions,
                )
        ]
      ]

  new_session-Continues :
      (fresh : String) (t : Task) (binding : SessionBinding) (l : Live)
      → task_continuity_key t ≡ some k
      → node_of_task executor t ≡ node_of_task executor u
      → D.get fresh l.board.sessions ≡ none
      → Continues (new_session executor fresh t binding l)
  unfolding new_session reusable_for
  new_session-Continues fresh t binding l key at new = elim (create_session-Created executor t) [
    | inr (e, q) ↦ rw (q, new_session) tt
    | inl (c, q) ↦
        rw (q, new_session)
          (reusable_for-new _ _ l.board new key refl at, live-put fresh _ l.sessions)
  ]

  ensure_session-Continues :
      (fresh : String) (t : Task) (binding : SessionBinding) (l : Live)
      → task_continuity_key t ≡ some k
      → node_of_task executor t ≡ node_of_task executor u
      → binding.execution_session_id ≡ none
      → D.get fresh l.board.sessions ≡ none
      → Continues (ensure_session executor fresh t binding l)
  unfolding ensure_session session_of_binding
  ensure_session-Continues fresh t binding l key at unbound new =
      elim (Option-cases (reusable_for executor t l.board)) [
        | inr (s, q) ↦
            let next = sym (reusable_for-same t l.board key at) ∙ q in
            rw (unbound, q, ensure_session) (continued_session-Continues t binding s l next)
        | inl q ↦
            rw (unbound, q, ensure_session) (new_session-Continues fresh t binding l key at new)
      ]

  -- The second task gets the session of the first and its executor session, and no session, stored or
  -- live, is made for it.
  abbrev pub Shares : Live → Ensured → Live × (Ensured ⊎ Exception) → Type 0
  Shares l x (m, inl y) =
      (y.session ≡ x.session)
      × (y.executor_session ≡ x.executor_session)
      × (m.sessions ≡ l.sessions)
      × (m.board.sessions ≡ l.board.sessions)
  Shares l x (m, inr e) = ⊥

  Continues-Shares :
      (fresh : String) (binding : SessionBinding) (l : Live) (x : Ensured)
      → binding.execution_session_id ≡ none
      → Continues (l, inl x)
      → Shares l x (ensure_session executor fresh u binding l)
  unfolding ensure_session session_of_binding continued_session put_binding publish
  Continues-Shares fresh binding l x unbound (found, live) =
      rw (unbound, found, ensure_session) (rw (live, continued_session) (refl, refl, refl, refl))

  -- When a task with a continuity key and no session of its own has been given a session, the next
  -- such task with the same key, on the same executor and node, is given the same one: the stored
  -- session and the live executor session are shared, and none is made.
  pub ensure_session-Shares :
      (fresh fresh' : String) (t : Task) (binding binding' : SessionBinding) (l l' : Live)
      (x : Ensured)
      → task_continuity_key t ≡ some k
      → node_of_task executor t ≡ node_of_task executor u
      → binding.execution_session_id ≡ none
      → binding'.execution_session_id ≡ none
      → D.get fresh l.board.sessions ≡ none
      → ensure_session executor fresh t binding l ≡ (l', inl x)
      → Shares l' x (ensure_session executor fresh' u binding' l')
  ensure_session-Shares fresh fresh' t binding binding' l l' x key at unbound unbound' new h =
      Continues-Shares fresh' binding' l' x unbound'
        (subst Continues h (ensure_session-Continues fresh t binding l key at unbound new))
