-- ===== src/Execution/Scheduler.antt =====
-- execution/scheduler.py: the runnable tasks, by falling priority and then by id.
use mathlib.Core.List.{Perm}
use newbro.Prelude.{
  List, [], ◌∷◌, Bool, true, false, ◌&&◌, ◌||◌, ◌≡◌, refl, arith, ◌<◌, ◌⊎◌, keep, any,
}
use newbro.Prelude.Int.{ℤ, pos, negsuc, ltb_ℤ, eqb_ℤ}
use newbro.Protocol.Enums.{TaskStatus, task_status_is}
use newbro.Prelude.Text.{text_le}
use newbro.Prelude.Sort.{sorted, sorted-perm, sorted-IsSorted, IsSorted, text_le_total}
use newbro.Protocol.Records.{Task}
use newbro.Blackboard.State.{Blackboard}
use newbro.Blackboard.Tasks.{list_tasks}
use newbro.Blackboard.Queries as Queries

-- `(-a.priority, a.task_id) <= (-b.priority, b.task_id)`
goes_before : Task → Task → Bool
goes_before a b =
    ltb_ℤ b.priority a.priority || (eqb_ℤ a.priority b.priority && text_le a.task_id b.task_id)

pub list_runnable_tasks : Blackboard → List Task
unfolding sorted goes_before
list_runnable_tasks b = sorted goes_before (Queries.list_runnable_tasks b)

goes_before_total : (a b : Task) → goes_before a b ≡ false → goes_before b a ≡ true
unfolding goes_before
goes_before_total a b h = ground (arith, text_le_total a.task_id b.task_id)

-- A task of the status `created` or `queued`.
unfoldable pub can_start : TaskStatus → Bool
can_start TaskStatus.created = true
can_start TaskStatus.queued = true
can_start _ = false

status-can_start :
    (s : TaskStatus)
    → any (λ w. task_status_is s w) (TaskStatus.created ∷ TaskStatus.queued ∷ []) ≡ can_start s
unfolding can_start any
status-can_start TaskStatus.created = refl
status-can_start _ = refl

runnable-can_start :
    (b : Blackboard) → Queries.list_runnable_tasks b ≡ keep (λ t. can_start t.status) (list_tasks b)
unfolding Queries.list_runnable_tasks Queries.list_tasks_by_status
runnable-can_start b i = keep (λ t. status-can_start t.status i) (list_tasks b)

-- The first number is above the second.
abbrev pub Above : ℤ → ℤ → Type 0
Above (pos a) (pos b) = b < a
Above (pos a) (negsuc b) = Unit {0}
Above (negsuc a) (pos b) = ⊥
Above (negsuc a) (negsuc b) = a < b

-- A higher priority, or the same one and an id that is not greater.
abbrev pub Precedes : Task → Task → Type 0
Precedes a b =
    Above a.priority b.priority ⊎ ((a.priority ≡ b.priority) × (text_le a.task_id b.task_id ≡ true))

abbrev pub InOrder : List Task → Type 0
InOrder [] = Unit {0}
InOrder (a ∷ []) = Unit {0}
InOrder (a ∷ b ∷ ts) = Precedes a b × InOrder (b ∷ ts)

goes_before-Precedes : (a b : Task) → goes_before a b ≡ true → Precedes a b
unfolding goes_before
goes_before-Precedes a b h = ground arith

IsSorted-InOrder : (ts : List Task) → IsSorted goes_before ts → InOrder ts
IsSorted-InOrder [] s = tt
IsSorted-InOrder (a ∷ []) s = tt
IsSorted-InOrder (a ∷ b ∷ ts) s = (goes_before-Precedes a b s.0, IsSorted-InOrder (b ∷ ts) s.1)

-- The schedule is a reordering of the stored tasks that are created or queued, in which each task has a
-- higher priority than the next, or the same priority and an id that is not greater.
pub schedule_lem :
    (b : Blackboard)
    → Perm (list_runnable_tasks b) (keep (λ t. can_start t.status) (list_tasks b))
      × InOrder (list_runnable_tasks b)
unfolding list_runnable_tasks
schedule_lem b = (
  rw (← runnable-can_start b) (sorted-perm goes_before (Queries.list_runnable_tasks b)),
  IsSorted-InOrder _
      (sorted-IsSorted goes_before goes_before_total (Queries.list_runnable_tasks b)),
)
