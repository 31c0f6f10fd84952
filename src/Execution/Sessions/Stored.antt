-- ===== src/Execution/Sessions/Stored.antt =====
-- execution/session_manager.py: a session that is looked up for a continuity key is the stored one of its id.
use newbro.Prelude.{
  String, List, [], ◌∷◌, ◌≡◌, Bool, false, Option, some, arith, keep, inl, inr, All, Bool-cases,
  or_else, ap,
}
use mathlib.Core.Path.{subst}
use newbro.Prelude.Text.{◌==◌, eq_iff}
use newbro.Prelude.Dict as D
use newbro.Prelude.Dict.{Dict, values, IsDict, Misses, get-put, get_of_Misses}
use newbro.Protocol.Records.{ExecutionSession}
use newbro.Blackboard.State.{Blackboard}
use newbro.Blackboard.Queries.{latest}
use newbro.Blackboard.Sessions.{get_session, list_sessions}
use newbro.Execution.Sessions.{find_reusable_session, is_reusable}

-- Each session of the store stands under its id, and no id stands twice.
pub record Stored (b : Blackboard) : Type 0 where
  pub keyed : All (λ e. e.0 ≡ e.1.execution_session_id) b.sessions
  pub distinct : IsDict b.sessions

-- The stored session under a key has that id.
pub keyed-get :
    (k : String) (d : Dict ExecutionSession) (s : ExecutionSession)
    → All (λ e. e.0 ≡ e.1.execution_session_id) d
    → D.get k d ≡ some s
    → s.execution_session_id ≡ k
unfolding D.get
keyed-get k [] s a h = cc
keyed-get k ((j, w) ∷ d) s a h = ground (arith, keyed-get k d s a.1, eq_iff j k, a.0)

missed_other :
    (k j : String) (d : Dict ExecutionSession) (s : ExecutionSession)
    → Misses k d
    → D.get j d ≡ some s
    → (k == j) ≡ false
unfolding D.get
missed_other k j [] s m h = cc
missed_other k j ((i, w) ∷ d) s m h =
    ground (arith, missed_other k j d s m.1, eq_iff i j, eq_iff k j, eq_iff i k)

later_found :
    (k : String) (v : ExecutionSession) (d : Dict ExecutionSession) (xs : List ExecutionSession)
    → Misses k d
    → All (λ s. D.get s.execution_session_id d ≡ some s) xs
    → All (λ s. D.get s.execution_session_id ((k, v) ∷ d) ≡ some s) xs
unfolding D.get
later_found k v d [] m a = tt
later_found k v d (s ∷ xs) m a = (
  ground (arith, missed_other k s.execution_session_id d s m a.0, a.0),
  later_found k v d xs m a.1,
)

-- What is listed is found under its id.
pub listed_found :
    (d : Dict ExecutionSession)
    → All (λ e. e.0 ≡ e.1.execution_session_id) d
    → IsDict d
    → All (λ s. D.get s.execution_session_id d ≡ some s) (values d)
unfolding D.get
listed_found [] a h = tt
listed_found ((k, v) ∷ d) a h = (
  ground (arith, eq_iff k v.execution_session_id, a.0),
  later_found k v d (values d) h.0 (listed_found d a.1 h.1),
)

All-keep {κ} :
    (P : ExecutionSession → Type κ) (p : ExecutionSession → Bool) (xs : List ExecutionSession)
    → All P xs
    → All P (keep p xs)
unfolding keep
All-keep P p [] a = tt
All-keep P p (x ∷ xs) a = elim (Bool-cases (p x)) [
  | inl e ↦ rw e (a.0, All-keep P p xs a.1)
  | inr e ↦ rw e (All-keep P p xs a.1)
]

All-latest {κ} :
    (P : ExecutionSession → Type κ) (xs : List ExecutionSession) (s : ExecutionSession)
    → All P xs
    → latest xs ≡ some s
    → P s
unfolding latest
All-latest P [] s a h = cc
All-latest P (x ∷ []) s a h = subst P (ap (λ o. or_else o x) h) a.0
All-latest P (x ∷ y ∷ ys) s a h = All-latest P (y ∷ ys) s a.1 h

-- A session found for a continuity key is the stored one of its id.
pub find_reusable_session_get :
    (k ty : String) (at : Option String) (b : Blackboard) (s : ExecutionSession)
    → Stored b
    → find_reusable_session k ty at b ≡ some s
    → get_session s.execution_session_id b ≡ some s
unfolding find_reusable_session list_sessions get_session
find_reusable_session_get k ty at b s h e =
    All-latest (λ s. D.get s.execution_session_id b.sessions ≡ some s)
      (keep (is_reusable k ty at) (values b.sessions)) s
      (All-keep (λ s. D.get s.execution_session_id b.sessions ≡ some s) (is_reusable k ty at)
        (values b.sessions) (listed_found b.sessions h.keyed h.distinct))
      e
