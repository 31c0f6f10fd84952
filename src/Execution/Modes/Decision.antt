-- ===== src/Execution/Modes/Decision.antt =====
-- execution/mode_manager.py: what the sequence of reports decides.
use newbro.Prelude.{
  ℕ, List, [], ◌∷◌, ◌≡◌, refl, Bool, true, false, arith, if◌then◌else◌, leb, any, String, Option,
  none, some, Option-cases, Bool-cases, inl, inr, ap, sym, ◌∙◌,
}
use newbro.Prelude.Text.{eq_iff, option_eq}
use newbro.Prelude.Dict as D
use newbro.Protocol.Enums.{ExecutionMode, RunStatus, execution_mode_is}
use newbro.Protocol.Records.{TaskExecutionMode}
use newbro.Blackboard.State.{Blackboard}
use newbro.Blackboard.Sessions.{get_execution_mode, put_execution_mode}
use newbro.Execution.Modes.{is_terminal, next_mode, merge_mode, initialize_task_mode, classify}

-- The mode after a sequence of reports.
pub decide_mode : ℕ → ExecutionMode → List (RunStatus × ℕ) → ExecutionMode
decide_mode threshold m [] = m
decide_mode threshold m ((s, e) ∷ rs) = decide_mode threshold (next_mode threshold m s e) rs

pub over_threshold : ℕ → List (RunStatus × ℕ) → Bool
unfolding any
over_threshold threshold rs = any (λ r. leb threshold r.1) rs

pub any_terminal : List (RunStatus × ℕ) → Bool
unfolding any
any_terminal rs = any (λ r. is_terminal r.0) rs

managed_stays :
    (threshold : ℕ) (rs : List (RunStatus × ℕ))
    → decide_mode threshold ExecutionMode.managed rs ≡ ExecutionMode.managed
unfolding decide_mode next_mode
managed_stays threshold [] = refl
managed_stays threshold ((s, e) ∷ rs) = managed_stays threshold rs

lightweight_lem :
    (threshold : ℕ) (rs : List (RunStatus × ℕ))
    → decide_mode threshold ExecutionMode.lightweight rs
      ≡ (if over_threshold threshold rs then ExecutionMode.managed else ExecutionMode.lightweight)
unfolding decide_mode next_mode over_threshold
lightweight_lem threshold [] = refl
lightweight_lem threshold ((s, e) ∷ rs) =
    ground (arith, managed_stays threshold rs, lightweight_lem threshold rs)

-- From an undecided task, the reports decide by what they hold, whatever their order: managed if
-- any of them reached the threshold, else lightweight if any showed an ended run, else undecided.
pub decide_mode_lem :
    (threshold : ℕ) (rs : List (RunStatus × ℕ))
    → decide_mode threshold ExecutionMode.undecided rs ≡ (
        if over_threshold threshold rs
        then ExecutionMode.managed
        else if any_terminal rs
        then ExecutionMode.lightweight
        else ExecutionMode.undecided)
unfolding decide_mode next_mode over_threshold any_terminal
decide_mode_lem threshold [] = refl
decide_mode_lem threshold ((s, e) ∷ rs) =
    ground (
      arith,
      managed_stays threshold rs,
      lightweight_lem threshold rs,
      decide_mode_lem threshold rs,
    )

-- Every stored mode stands under its own task's id.
abbrev pub IsKeyed : Blackboard → Type 0
IsKeyed b = (k : String) (m : TaskExecutionMode) → get_execution_mode k b ≡ some m → m.task_id ≡ k

same_option : (a b : Option String) → option_eq a b ≡ true → a ≡ b
same_option none none h = refl
same_option (some a) (some b) h = ap some ((eq_iff a b).0 h)
same_option none (some b) h = cc
same_option (some a) none h = cc

get-put_mode :
    (k : String) (m : TaskExecutionMode) (b : Blackboard)
    → m.task_id ≡ k
    → get_execution_mode k (put_execution_mode m b) ≡ some m
unfolding get_execution_mode put_execution_mode
get-put_mode k m b h =
    ground (arith, D.get-put m.task_id k m b.execution_modes_by_task, eq_iff m.task_id k)

initialize_stores :
    (k : String) (b : Blackboard)
    → IsKeyed b
    → let (b', m) = initialize_task_mode k b in (get_execution_mode k b' ≡ some m) × (m.task_id ≡ k)
initialize_stores k b keyed = elim (Option-cases (get_execution_mode k b)) [
  | inl absent ↦
      unfold initialize_task_mode in
      rw (absent, initialize_task_mode) (get-put_mode k _ b refl, refl)
  | inr (m, there) ↦
      unfold initialize_task_mode in rw (there, initialize_task_mode) (there, keyed k m there)
]

same_mode : (a b : ExecutionMode) → execution_mode_is a b ≡ true → a ≡ b
same_mode a b h = ground arith

-- Where neither the mode nor the deciding run is new, the record is the one before.
merge_mode-unchanged :
    (m : TaskExecutionMode) (mode : ExecutionMode) (decided : Option String) (elapsed : ℕ)
    → (merge_mode m mode decided elapsed).1 ≡ false
    → (merge_mode m mode decided elapsed).0 ≡ m
unfolding merge_mode
merge_mode-unchanged m mode decided elapsed h =
    ground (arith, same_mode mode m.mode, same_option decided m.decided_from_run_id)

write_back :
    (k : String) (m : TaskExecutionMode) (mode : ExecutionMode) (decided : Option String)
    (elapsed : ℕ) (b : Blackboard)
    → get_execution_mode k b ≡ some m
    → m.task_id ≡ k
    → let (u, changed) = merge_mode m mode decided elapsed in
      get_execution_mode k (if changed then put_execution_mode u b else b) ≡ some u
write_back k m mode decided elapsed b there keyed =
    elim (Bool-cases (merge_mode m mode decided elapsed).1) [
      | inl changed ↦
          rw changed
            (get-put_mode k (merge_mode m mode decided elapsed).0 b (unfold merge_mode in keyed))
      | inr same ↦
          rw same (there ∙ ap some (sym (merge_mode-unchanged m mode decided elapsed same)))
    ]

-- Where each mode is stored under the id of its task, what a classification returns is what the store holds for the task afterwards, also when nothing
-- was announced; and its mode is the next one after the mode of the task before.
pub classify_stores :
    (threshold : ℕ) (k run_id : String) (s : RunStatus) (elapsed : ℕ) (b : Blackboard)
    → IsKeyed b
    → let (b', m) = classify threshold k run_id s elapsed b in
      (get_execution_mode k b' ≡ some m)
      × (m.mode ≡ next_mode threshold (initialize_task_mode k b).1.mode s elapsed)
classify_stores threshold k run_id s elapsed b keyed =
    let start = initialize_stores k b keyed in
    (unfold classify in write_back k _ _ _ elapsed _ start.0 start.1, unfold classify in refl)
