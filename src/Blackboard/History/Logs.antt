-- ===== src/Blackboard/History/Logs.antt =====
-- blackboard/backends/memory.py: the logs by task are views of the logs over all tasks.
use newbro.Prelude.{
  String, List, [], ◌∷◌, ◌++◌, ◌≡◌, refl, none, arith, keep, keep-append, or_else, if◌then◌else◌,
  append-nil,
}
use newbro.Prelude.Text.{◌==◌, eq_iff}
use newbro.Prelude.Dict as D
use newbro.Prelude.Dict.{Dict}
use newbro.Blackboard.State.{Blackboard, empty}
use newbro.Blackboard.Tasks.{
  put_task, append_mutation, append_command, append_task_execution_detail, push, list_mutations,
  list_commands, list_task_execution_details,
}
use newbro.Blackboard.Runs.{put_run}
use newbro.Blackboard.Sessions.{put_session, put_binding, put_summary, put_execution_mode}
use newbro.Blackboard.Ordered.{
  put_notification_candidate, put_outbound_turn_request, put_interaction_request,
  put_attention_item, put_agent_event,
}
use newbro.Blackboard.Personas.{put_persona, delete_persona}
use newbro.Blackboard.History.{Write, mutation, command, detail, no_persona, write, history}

abbrev pub at {ℓ} : {A : Type ℓ} → Dict (List A) → String → List A
at d k = or_else (D.get k d) []

at-push {ℓ} :
    {A : Type ℓ} (k j : String) (x : A) (d : Dict (List A))
    → at (push k x d) j ≡ (if k == j then at d k ++ x ∷ [] else at d j)
unfolding push
at-push k j x d = ground (arith, D.get-put k j (or_else (D.get k d) [] ++ x ∷ []) d)

-- The log of each key is the part of the whole log that has this key, in the same order.
abbrev pub IsView {ℓ} : {A : Type ℓ} → (A → String) → List A → Dict (List A) → Type ℓ
IsView key all d = (k : String) → at d k ≡ keep (λ x. key x == k) all

push-IsView {ℓ} :
    {A : Type ℓ} (key : A → String) (x : A) (all : List A) (d : Dict (List A))
    → IsView key all d
    → IsView key (all ++ x ∷ []) (push (key x) x d)
unfolding keep
push-IsView key x all d h k = ground (
  arith,
  at-push (key x) k x d,
  keep-append (λ y. key y == k) all (x ∷ []),
  h k,
  h (key x),
  eq_iff (key x) k,
  append-nil (keep (λ y. key y == k) all),
)

pub record HasLogs (b : Blackboard) : Type 0 where
  pub mutation_log : IsView (λ m. or_else m.task_id "") b.mutations b.mutations_by_task
  pub command_log : IsView (λ c. c.task_id) b.commands b.commands_by_task
  pub detail_log : IsView (λ e. e.task_id) b.task_execution_details b.task_execution_details_by_task

keeps :
    {b c : Blackboard}
    → c.mutations ≡ b.mutations
    → c.commands ≡ b.commands
    → c.task_execution_details ≡ b.task_execution_details
    → c.mutations_by_task ≡ b.mutations_by_task
    → c.commands_by_task ≡ b.commands_by_task
    → c.task_execution_details_by_task ≡ b.task_execution_details_by_task
    → HasLogs b
    → HasLogs c
keeps m n o p q r h = record {
  mutation_log = λ k. rw (m, p) (h.mutation_log k);
  command_log = λ k. rw (n, q) (h.command_log k);
  detail_log = λ k. rw (o, r) (h.detail_log k);
}

write-HasLogs : (w : Write) (b : Blackboard) → HasLogs b → HasLogs (write w b)
unfolding write put_task append_mutation append_command append_task_execution_detail put_run
    put_session put_binding put_summary put_execution_mode put_notification_candidate
    put_outbound_turn_request put_interaction_request put_attention_item put_agent_event put_persona
    delete_persona
write-HasLogs (mutation m) b h = record {
  mutation_log =
      push-IsView (λ x. or_else x.task_id "") m b.mutations b.mutations_by_task h.mutation_log;
  command_log = h.command_log;
  detail_log = h.detail_log;
}
write-HasLogs (command c) b h = record {
  mutation_log = h.mutation_log;
  command_log = push-IsView (λ x. x.task_id) c b.commands b.commands_by_task h.command_log;
  detail_log = h.detail_log;
}
write-HasLogs (detail e) b h = record {
  mutation_log = h.mutation_log;
  command_log = h.command_log;
  detail_log =
      push-IsView (λ x. x.task_id) e b.task_execution_details b.task_execution_details_by_task
        h.detail_log;
}
write-HasLogs (no_persona k) b h =
    keeps (ground arith) (ground arith) (ground arith) (ground arith) (ground arith) (ground arith)
      h
write-HasLogs _ b h = record {
  mutation_log = h.mutation_log;
  command_log = h.command_log;
  detail_log = h.detail_log;
}

pub history-HasLogs : (ws : List Write) (b : Blackboard) → HasLogs b → HasLogs (history ws b)
unfolding history
history-HasLogs [] b h = h
history-HasLogs (w ∷ ws) b h = history-HasLogs ws (write w b) (write-HasLogs w b h)

pub empty-HasLogs : HasLogs empty
unfolding D.get keep
empty-HasLogs = record { mutation_log = λ k. refl; command_log = λ k. refl; detail_log = λ k. refl }

-- After any history of writes to an empty blackboard, the listing of a task's mutations, of its
-- commands and of its execution details are the entries of the task in the log over all tasks, in
-- the order in which they were appended.
pub listings_eq_logs :
    (ws : List Write) (k : String)
    → let b = history ws empty in
      (list_mutations k b ≡ keep (λ m. or_else m.task_id "" == k) b.mutations)
      × (list_commands k b ≡ keep (λ c. c.task_id == k) b.commands)
      × (list_task_execution_details k none b ≡ keep (λ e. e.task_id == k) b.task_execution_details)
unfolding list_mutations list_commands list_task_execution_details
listings_eq_logs ws k =
    let h = history-HasLogs ws empty empty-HasLogs in
    (h.mutation_log k, h.command_log k, h.detail_log k)
