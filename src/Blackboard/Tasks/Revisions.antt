-- ===== src/Blackboard/Tasks/Revisions.antt =====
-- blackboard/backends/memory.py and revisions.py: puts, mutations and the announced kind of change.
use newbro.Prelude.{
  ℕ, ◌+◌, String, List, [], ◌∷◌, ◌≡◌, ◌≢◌, ◌↔◌, refl, ap, true, false, Option, none, some, arith,
  if◌then◌else◌, Option-cases, inl, inr, Bool-cases, ◌∙◌,
}
use newbro.Prelude.Text.{◌==◌, eq_iff}
use newbro.Prelude.Dict as D
use newbro.Prelude.Dict.{Dict}
use newbro.Prelude.Json.{text, member}
use newbro.Protocol.Enums.{task_status_value, task_status_is, TaskStatus}
use newbro.Protocol.Records.{Task, TaskMutation}
use newbro.Blackboard.State.{Blackboard}
use newbro.Blackboard.Payloads.{task_write_payload, changed_task_fields, field_changes}
use newbro.Blackboard.Tasks.{put_task, get_task, append_mutation, bump_task_revision, bump_stored}

-- A put is read back under its id and leaves every other task as it was.
pub get_task-put_task :
    (t : Task) (k : String) (b : Blackboard)
    → get_task k (put_task t b) ≡ (if t.task_id == k then some t else get_task k b)
unfolding get_task put_task
get_task-put_task t k b = D.get-put t.task_id k t b.tasks

get-bump_stored :
    (k j : String) (d : Dict Task)
    → D.get j (bump_stored k d) ≡ (
        if k == j
        then elim (D.get k d) [ none ↦ none | some t ↦ some (bump_task_revision t) ]
        else D.get j d)
unfolding bump_stored
get-bump_stored k j d = elim (Option-cases (D.get k d)) [
  | inl absent ↦ rw (absent, bump_stored) (ground (arith, eq_iff k j))
  | inr (t, there) ↦ rw (there, bump_stored) (D.get-put k j (bump_task_revision t) d)
]

-- How many of the mutations address the task.
pub addressed : String → List TaskMutation → ℕ
addressed k [] = 0
addressed k (m ∷ ms) =
    (elim m.task_id [ none ↦ 0 | some j ↦ if j == k then 1 else 0 ]) + addressed k ms

pub append_all : List TaskMutation → Blackboard → Blackboard
append_all [] b = b
append_all (m ∷ ms) b = append_all ms (append_mutation m b)

abbrev pub revise : ℕ → Option Task → Option Task
revise n none = none
revise n (some t) = some (record t { task_revision = t.task_revision + n })

revise-revise : (m n : ℕ) (o : Option Task) → revise n (revise m o) ≡ revise (m + n) o
revise-revise m n none = refl
revise-revise m n (some t) = ap (λ r. some (record t { task_revision = r })) (omega arith)

revise-zero : (o : Option Task) → o ≡ revise 0 o
revise-zero none = refl
revise-zero (some t) = ap (λ r. some (record t { task_revision = r })) (omega arith)

revise-one :
    (o : Option Task) → elim o [ none ↦ none | some t ↦ some (bump_task_revision t) ] ≡ revise 1 o
unfolding bump_task_revision
revise-one none = refl
revise-one (some t) = ap (λ r. some (record t { task_revision = r })) (omega arith)

get-bump_at :
    (o : Option String) (k : String) (d : Dict Task)
    → D.get k (elim o [ none ↦ d | some j ↦ bump_stored j d ])
      ≡ revise (elim o [ none ↦ 0 | some j ↦ if j == k then 1 else 0 ]) (D.get k d)
get-bump_at none k d = revise-zero (D.get k d)
get-bump_at (some j) k d = elim (Bool-cases (j == k)) [
  | inl same ↦
      rw (get-bump_stored j k d) (
        rw same
          (rw (ap (λ (i : String). D.get i d) ((eq_iff j k).0 same)) (revise-one (D.get k d))))
  | inr other ↦ rw (get-bump_stored j k d) (rw other (revise-zero (D.get k d)))
]

get_task-append_mutation :
    (m : TaskMutation) (k : String) (b : Blackboard)
    → get_task k (append_mutation m b) ≡ revise (addressed k (m ∷ [])) (get_task k b)
unfolding get_task append_mutation addressed
get_task-append_mutation m k b =
    get-bump_at m.task_id k b.tasks ∙ ap (λ n. revise n (D.get k b.tasks)) (omega arith)

-- Appending mutations raises the revision of each stored task by the number of those that address
-- it, and changes nothing else of any task; the copies that later puts are compared with stay.
pub revisions_count_mutations :
    (ms : List TaskMutation) (k : String) (b : Blackboard)
    → (get_task k (append_all ms b) ≡ revise (addressed k ms) (get_task k b))
      × ((append_all ms b).task_snapshots ≡ b.task_snapshots)
unfolding append_all addressed
revisions_count_mutations [] k b = (revise-zero (get_task k b), refl)
revisions_count_mutations (m ∷ ms) k b =
    let rest = revisions_count_mutations ms k (append_mutation m b) in
    (
      rest.0
          ∙ ap (revise (addressed k ms)) (get_task-append_mutation m k b)
          ∙ revise-revise (addressed k (m ∷ [])) (addressed k ms) (get_task k b)
          ∙ ap (λ n. revise n (get_task k b)) (unfold addressed in omega arith),
      rest.1 ∙ snapshots_stay m b,
    )
  where
    snapshots_stay :
        (m : TaskMutation) (b : Blackboard)
        → (append_mutation m b).task_snapshots ≡ b.task_snapshots
    snapshots_stay m b = unfold append_mutation in refl

field_changes_kind :
    (status : String) (names : List String)
    → member "change_kind" (field_changes status names) ≢ some (text "status_change")
unfolding field_changes member
field_changes_kind status [] h = cc
field_changes_kind status (n ∷ ns) h = cc

pub same_status : (s r : TaskStatus) → task_status_is s r ≡ true → s ≡ r
same_status s r h = ground arith

other_status : (s r : TaskStatus) → task_status_is s r ≡ false → s ≢ r
other_status s r h e = ground arith

-- The payload of a put names a change of status exactly when the status differs from that of the
-- put before.
change_kind_status :
    (p c : Task)
    → (member "change_kind" (task_write_payload (some p) c) ≡ some (text "status_change"))
      ↔ (p.status ≢ c.status)
change_kind_status p c = elim (Bool-cases (task_status_is p.status c.status)) [
  | inl same ↦
      unfold task_write_payload in
      rw same (
        λ h. absurd (field_changes_kind (task_status_value c.status) (changed_task_fields p c) h),
        λ differ. absurd (differ (same_status p.status c.status same)),
      )
  | inr other ↦
      unfold task_write_payload member in
      rw other (λ h. other_status p.status c.status other, λ h. refl)
]
