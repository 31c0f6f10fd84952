-- ===== src/Blackboard/Queries.antt =====
-- blackboard/queries.py
use newbro.Prelude.{String, List, [], ◌∷◌, Option, none, some, keep, any}
use newbro.Protocol.Enums.{TaskStatus, task_status_is}
use newbro.Protocol.Records.{Task, TaskMutation, TaskCommand}
use newbro.Blackboard.State.{Blackboard}
use newbro.Blackboard.Tasks.{list_tasks, list_mutations, list_commands}

-- With no status named, every task.
unfoldable pub list_tasks_by_status : List TaskStatus → Blackboard → List Task
unfolding list_tasks keep any
list_tasks_by_status [] b = list_tasks b
list_tasks_by_status (s ∷ ss) b =
    keep (λ t. any (λ w. task_status_is t.status w) (s ∷ ss)) (list_tasks b)

unfoldable pub list_runnable_tasks : Blackboard → List Task
unfolding list_tasks_by_status
list_runnable_tasks = list_tasks_by_status (TaskStatus.created ∷ TaskStatus.queued ∷ [])

unfoldable pub list_active_tasks : Blackboard → List Task
unfolding list_tasks_by_status
list_active_tasks = list_tasks_by_status (TaskStatus.running ∷ TaskStatus.waiting_user_input ∷ [])

-- `xs[-1] if xs else None`
unfoldable pub latest {ℓ} : {A : Type ℓ} → List A → Option A
latest [] = none
latest (x ∷ []) = some x
latest (x ∷ y ∷ ys) = latest (y ∷ ys)

unfoldable pub get_latest_mutation : String → Blackboard → Option TaskMutation
unfolding list_mutations latest
get_latest_mutation k b = latest (list_mutations k b)

unfoldable pub get_latest_command : String → Blackboard → Option TaskCommand
unfolding list_commands latest
get_latest_command k b = latest (list_commands k b)
