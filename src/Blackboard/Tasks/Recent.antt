-- ===== src/Blackboard/Tasks/Recent.antt =====
-- blackboard/backends/memory.py, `list_recent_task_execution_details`.
use newbro.Prelude.{
  ℕ, ◌+◌, ◌≤◌, ◌<◌, String, List, [], ◌∷◌, ◌≡◌, refl, arith, length, leb, map, All, or_else, last_n,
  length-last_n, Bool-cases, inl, inr, reversed,
}
use newbro.Prelude.Dict as D
use newbro.Prelude.Dict.{Dict, keys}
use newbro.Protocol.Records.{TaskExecutionDetailEntry}
use newbro.Blackboard.State.{Blackboard}
use newbro.Blackboard.Tasks.{recent_task_ids, list_recent_task_execution_details}

length-recent_task_ids :
    (limit : ℕ) (seen : List String) (es : List TaskExecutionDetailEntry)
    → length seen < limit
    → length (recent_task_ids limit seen es) + length seen ≤ limit
unfolding recent_task_ids
length-recent_task_ids limit seen [] h = omega arith
length-recent_task_ids limit seen (e ∷ es) h = ground (
  arith,
  length-recent_task_ids limit seen es,
  length-recent_task_ids limit (e.task_id ∷ seen) es,
)

length-map-le {ℓ κ} :
    {A : Type ℓ} {B : Type κ} (f : A → B) (xs : List A) → length (map f xs) ≡ length xs
length-map-le f [] = refl
length-map-le f (x ∷ xs) = omega (arith, length-map-le f xs)

All-map {ℓ κ μ} :
    {A : Type ℓ} {B : Type κ} (P : B → Type μ) (f : A → B) (xs : List A)
    → ((x : A) → P (f x))
    → All P (map f xs)
All-map P f [] h = tt
All-map P f (x ∷ xs) h = (h x, All-map P f xs h)

-- At most `task_limit` tasks come back, each with at most `entry_limit` entries.
pub recent_bounds :
    (task_limit entry_limit : ℕ) (b : Blackboard)
    → (length (list_recent_task_execution_details task_limit entry_limit b) ≤ task_limit)
      × All
          (λ e. length e.1 ≤ entry_limit)
          (list_recent_task_execution_details task_limit entry_limit b)
unfolding list_recent_task_execution_details
recent_bounds task_limit entry_limit b =
    let ids = recent_task_ids task_limit [] (reversed b.task_execution_details) in
    elim (Bool-cases (leb task_limit 0)) [
      | inl z ↦ rw z (omega arith, tt)
      | inr nz ↦ elim (Bool-cases (leb entry_limit 0)) [
        | inl z ↦ rw (nz, z) (omega arith, tt)
        | inr pos ↦
            rw (nz, pos)
              (
                ground (
                  arith,
                  length-map-le {B = String × List TaskExecutionDetailEntry}
                      (λ k. (
                        k,
                        last_n entry_limit (or_else (D.get k b.task_execution_details_by_task) []),
                      ))
                      ids,
                  length-recent_task_ids task_limit [] (reversed b.task_execution_details),
                ),
                All-map _ _ ids (λ k. omega (
                  arith,
                  length-last_n entry_limit (or_else (D.get k b.task_execution_details_by_task) []),
                )),
              )
      ]
    ]
