-- ===== src/Execution/Assignment/Leases.antt =====
-- execution/assignment.py: a lease excludes other workers until it runs out.
use newbro.Prelude.{ℕ, ◌+◌, ◌<◌, ◌≤◌, Option, none, some, true, false, ◌≡◌, ◌≢◌, ◌∙◌, arith, ltb}
use newbro.Prelude.Text.{eq_iff, eq_refl}
use newbro.Prelude.Dict as D
use newbro.Prelude.Clock.{Clock}
use newbro.Protocol.Records.{Task, SessionBinding}
use newbro.Blackboard.State.{Blackboard}
use newbro.Blackboard.Sessions.{get_binding, put_binding}
use newbro.Execution.Assignment.{AssignmentManager, is_held, claim_task, claim}

module _ (clock : Clock) where
  get_binding-put_binding :
      (s : SessionBinding) (b : Blackboard) → get_binding s.task_id (put_binding s b) ≡ some s
  unfolding get_binding put_binding
  get_binding-put_binding s b =
      ground (arith, D.get-put s.task_id s.task_id s b.bindings_by_task, eq_refl s.task_id)

  -- What a granted claim returns and writes.
  claim_task-some :
      (m : AssignmentManager) (now later : ℕ) (t : Task) (b c : Blackboard) (s : SessionBinding)
      → claim_task clock m now later t b ≡ (c, some s)
      → (s ≡ claim clock m t (get_binding t.task_id b) later) × (c ≡ put_binding s b)
  unfolding claim_task
  claim_task-some m now later t b c s h = ground arith

  held_by_lease :
      (m other : AssignmentManager) (t : Task) (o : Option SessionBinding) (later now : ℕ)
      → m.worker_id ≢ other.worker_id
      → is_held clock other (some (claim clock m t o later)) now ≡ ltb now (later + m.lease_seconds)
  unfolding is_held claim
  held_by_lease m other t o later now ne =
      rw (clock.parse-isoformat (later + m.lease_seconds))
        (ground (arith, eq_iff m.worker_id other.worker_id))

  claim_task-held :
      (m : AssignmentManager) (now later : ℕ) (t : Task) (b : Blackboard)
      → is_held clock m (get_binding t.task_id b) now ≡ true
      → claim_task clock m now later t b ≡ (b, none)
  unfolding claim_task
  claim_task-held m now later t b h = rw h

  claim_task-free :
      (m : AssignmentManager) (now later : ℕ) (t : Task) (b : Blackboard)
      → is_held clock m (get_binding t.task_id b) now ≡ false
      → (claim_task clock m now later t b).0
        ≡ put_binding (claim clock m t (get_binding t.task_id b) later) b
  unfolding claim_task
  claim_task-free m now later t b h = rw h

  -- A worker that has claimed a task keeps it for its lease: until then any other worker's claim is
  -- refused and writes nothing, and from then on the other worker's claim is stored.
  pub lease_excludes :
      (m other : AssignmentManager) (now later now' later' : ℕ) (t : Task) (b c : Blackboard)
      (s : SessionBinding)
      → claim_task clock m now later t b ≡ (c, some s)
      → m.worker_id ≢ other.worker_id
      → (now' < later + m.lease_seconds → claim_task clock other now' later' t c ≡ (c, none))
        × (later + m.lease_seconds ≤ now'
            → get_binding t.task_id (claim_task clock other now' later' t c).0
              ≡ some (claim clock other t (some s) later'))
  unfolding claim
  lease_excludes m other now later now' later' t b c s h ne = (
    λ early. claim_task-held other now' later' t c (held ∙ ground arith),
    λ late.
        rw (claim_task-free other now' later' t c (held ∙ ground arith))
          (rw bound (get_binding-put_binding (claim clock other t (some s) later') c)),
  )
    where
      made : (s ≡ claim clock m t (get_binding t.task_id b) later) × (c ≡ put_binding s b)
      made = claim_task-some m now later t b c s h

      bound : get_binding t.task_id c ≡ some s
      bound =
          rw (made.1, made.0)
            (get_binding-put_binding (claim clock m t (get_binding t.task_id b) later) b)

      held : is_held clock other (get_binding t.task_id c) now' ≡ ltb now' (later + m.lease_seconds)
      held = rw (bound, made.0) (held_by_lease m other t (get_binding t.task_id b) later now' ne)
