-- ===== src/Execution/Assignment.antt =====
-- execution/assignment.py, and `claim_is_active` of blackboard/revisions.py. Instants are numbers of
-- clock ticks. The texts of instants are the standard library's, behind `Clock`.
pub mod Leases
use newbro.Prelude.{
  ℕ, ◌+◌, String, Option, none, some, Bool, true, false, not, ◌&&◌, ◌≡◌, ltb, if◌then◌else◌,
}
use newbro.Prelude.Text.{◌==◌}
use newbro.Prelude.Clock.{Clock}
use newbro.Protocol.Enums.{BindingStatus}
use newbro.Protocol.Records.{Task, SessionBinding}
use newbro.Blackboard.State.{Blackboard}
use newbro.Blackboard.Sessions.{get_binding, put_binding}

pub record AssignmentManager : Type 0 where
  pub worker_id : String
  pub lease_seconds : ℕ

module _ (clock : Clock) where
  open clock use {isoformat, parse_datetime}

  unfoldable pub claim_is_active : Option SessionBinding → ℕ → Bool
  claim_is_active none now = false
  claim_is_active (some b) now = elim b.claim_expires_at [
    | none ↦ false
    | some expires_at ↦ ltb now (parse_datetime expires_at)
  ]

  -- `claimed_by not in {None, worker_id}`
  claimed_by_other : AssignmentManager → SessionBinding → Bool
  claimed_by_other m b = elim b.claimed_by [ none ↦ false | some w ↦ not (w == m.worker_id) ]

  -- The claim that a worker writes, over what was bound before. The node is not carried over.
  unfoldable pub claim : AssignmentManager → Task → Option SessionBinding → ℕ → SessionBinding
  claim m t old now = record {
    task_id = t.task_id;
    execution_session_id = elim old [ none ↦ none | some b ↦ b.execution_session_id ];
    executor_node_id = none;
    session_id = elim old [ none ↦ none | some b ↦ b.session_id ];
    claimed_by = some m.worker_id;
    claim_expires_at = some (isoformat (now + m.lease_seconds));
    execution_revision = t.task_revision;
    binding_status = BindingStatus.claimed;
  }

  -- The old claim is still active, and another worker's.
  unfoldable pub is_held : AssignmentManager → Option SessionBinding → ℕ → Bool
  unfolding claim_is_active claimed_by_other
  is_held m none now = false
  is_held m (some old) now = claim_is_active (some old) now && claimed_by_other m old

  -- `now` is read by the test of the old claim, `later` by the new one.
  unfoldable pub claim_task :
      AssignmentManager → ℕ → ℕ → Task → Blackboard → Blackboard × Option SessionBinding
  claim_task m now later t b =
      let old = get_binding t.task_id b in
      if is_held m old now
      then (b, none)
      else (put_binding (claim m t old later) b, some (claim m t old later))
