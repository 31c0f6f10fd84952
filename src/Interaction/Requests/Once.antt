-- ===== src/Interaction/Requests/Once.antt =====
-- interaction/manager.py: a blocked run, or a summary that needs input, asks once.
use newbro.Prelude.{
  ℕ, String, ◌≡◌, refl, true, false, Bool, Option, none, some, Bool-cases, Option-cases, inl, inr,
  any, if◌then◌else◌, ◌∙◌, sym,
}
use mathlib.Core.Path.{subst}
use newbro.Prelude.Text.{eq_refl, truthy}
use newbro.Protocol.Enums.{RunStatus, run_status_is}
use newbro.Protocol.Records.{Task, ExecutionRun, TaskSummary, InteractionRequest}
use newbro.Blackboard.Events.{BlackboardWriteEvent, BlackboardWriteKind}
use newbro.Blackboard.State.{Blackboard, publish}
use newbro.Blackboard.Table.{any-list-put}
use newbro.Blackboard.Tasks.{get_task}
use newbro.Blackboard.Runs.{get_run}
use newbro.Blackboard.Sessions.{get_summary}
use newbro.Blackboard.Ordered.{
  put_interaction_request, put_attention_item, list_interaction_requests,
}
use newbro.Blackboard.History.Tables.{HasTables}
use newbro.Interaction.Requests.{
  ask, ask_for, ask_for_run, ask_for_summary, handle_blackboard_write, waits_for_run,
  waits_for_task, build_request_from_run, build_request_from_summary,
}
use newbro.Interaction.Prompts.{Fresh}

module _ (lower : String → String) (titled : String → String) (decimal : ℕ → String)
    (letter : ℕ → String) where
  -- Asking leaves runs, tasks and summaries as they are.
  get_run-ask :
      (k : String) (fresh : Fresh) (t : Task) (r : InteractionRequest) (b : Blackboard)
      → get_run k (ask lower titled decimal letter fresh t r b) ≡ get_run k b
  unfolding get_run ask put_interaction_request put_attention_item publish
  get_run-ask k fresh t r b = refl

  get_task-ask :
      (k : String) (fresh : Fresh) (t : Task) (r : InteractionRequest) (b : Blackboard)
      → get_task k (ask lower titled decimal letter fresh t r b) ≡ get_task k b
  unfolding get_task ask put_interaction_request put_attention_item publish
  get_task-ask k fresh t r b = refl

  get_summary-ask :
      (k : String) (fresh : Fresh) (t : Task) (r : InteractionRequest) (b : Blackboard)
      → get_summary k (ask lower titled decimal letter fresh t r b) ≡ get_summary k b
  unfolding get_summary ask put_interaction_request put_attention_item publish
  get_summary-ask k fresh t r b = refl

  -- A request that was put is listed.
  ask-listed :
      (p : InteractionRequest → Bool) (fresh : Fresh) (t : Task) (r : InteractionRequest)
      (b : Blackboard)
      → HasTables b
      → p r ≡ true
      → any p (list_interaction_requests (ask lower titled decimal letter fresh t r b)) ≡ true
  unfolding list_interaction_requests ask put_interaction_request put_attention_item publish
  ask-listed p fresh t r b h e = any-list-put p r.request_id r b.interaction_requests h.requests e

  -- A handling that asked, or found nothing to ask, has nothing to ask for when it is repeated.
  abbrev Settled : (Blackboard → Blackboard × Bool) → Blackboard × Bool → Type 0
  Settled again (b, asked) = again b ≡ (b, false)

  quiet-Settled :
      (go : Fresh → Blackboard → Blackboard × Bool) (fresh fresh' : Fresh) (b : Blackboard)
      → ((f : Fresh) → go f b ≡ (b, false))
      → Settled (go fresh') (go fresh b)
  quiet-Settled go fresh fresh' b e = subst (Settled (go fresh')) (sym (e fresh)) (e fresh')

  ask_for_run-again :
      (fresh fresh' : Fresh) (k : String) (b : Blackboard)
      → HasTables b
      → Settled
          (ask_for_run lower titled decimal letter fresh' k)
          (ask_for_run lower titled decimal letter fresh k b)
  unfolding ask_for_run
  ask_for_run-again fresh fresh' k b h =
      let go : Fresh → Blackboard → Blackboard × Bool =
        λ f. ask_for_run lower titled decimal letter f k in
      elim (Option-cases (get_run k b)) [
        | inl p ↦ quiet-Settled go fresh fresh' b (λ f. rw (p, ask_for_run) refl)
        | inr (run, p) ↦ elim (Option-cases (get_task run.task_id b)) [
          | inl q ↦ quiet-Settled go fresh fresh' b (λ f. rw (p, q, ask_for_run) refl)
          | inr (t, q) ↦ elim (Bool-cases (run_status_is run.status RunStatus.blocked)) [
            | inr s ↦ quiet-Settled go fresh fresh' b (λ f. rw (p, q, s, ask_for_run) refl)
            | inl s ↦
                elim (Bool-cases (any (waits_for_run run.run_id) (list_interaction_requests b))) [
                  | inl w ↦ quiet-Settled go fresh fresh' b (λ f. rw (p, q, s, w, ask_for_run) refl)
                  | inr w ↦
                      let r =
                        build_request_from_run lower titled decimal letter fresh t run
                          (get_summary t.task_id b) in
                      let asked : go fresh b ≡ (ask lower titled decimal letter fresh t r b, true) =
                        rw (p, q, s, w, ask_for_run) refl in
                      subst (Settled (go fresh')) (sym asked) (
                        run_asked fresh' k run t (ask lower titled decimal letter fresh t r b)
                          (get_run-ask k fresh t r b ∙ p) (get_task-ask run.task_id fresh t r b ∙ q)
                          s
                          (ask-listed (waits_for_run run.run_id) fresh t r b h
                            (rw (eq_refl run.run_id) refl)))
                ]
          ]
        ]
      ]
    where
      run_asked :
          (f : Fresh) (j : String) (run : ExecutionRun) (t : Task) (c : Blackboard)
          → get_run j c ≡ some run
          → get_task run.task_id c ≡ some t
          → run_status_is run.status RunStatus.blocked ≡ true
          → any (waits_for_run run.run_id) (list_interaction_requests c) ≡ true
          → ask_for_run lower titled decimal letter f j c ≡ (c, false)
      run_asked f j run t c p q s w = rw (p, q, s, w, ask_for_run) refl

  ask_for_summary-again :
      (fresh fresh' : Fresh) (k : String) (b : Blackboard)
      → HasTables b
      → Settled
          (ask_for_summary lower titled decimal letter fresh' k)
          (ask_for_summary lower titled decimal letter fresh k b)
  unfolding ask_for_summary
  ask_for_summary-again fresh fresh' k b h =
      let go : Fresh → Blackboard → Blackboard × Bool =
        λ f. ask_for_summary lower titled decimal letter f k in
      elim (Option-cases (get_task k b)) [
        | inl p ↦ quiet-Settled go fresh fresh' b (λ f. rw (p, ask_for_summary) refl)
        | inr (t, p) ↦ elim (Option-cases (get_summary k b)) [
          | inl q ↦ quiet-Settled go fresh fresh' b (λ f. rw (p, q, ask_for_summary) refl)
          | inr (y, q) ↦ elim (Bool-cases y.needs_user_input) [
            | inr s ↦ quiet-Settled go fresh fresh' b (λ f. rw (p, q, s, ask_for_summary) refl)
            | inl s ↦
                elim (Bool-cases (any (waits_for_task t.task_id) (list_interaction_requests b))) [
                  | inl w ↦
                      quiet-Settled go fresh fresh' b (λ f. rw (p, q, s, w, ask_for_summary) refl)
                  | inr w ↦
                      let r = build_request_from_summary lower titled decimal letter fresh t y in
                      let asked : go fresh b ≡ (ask lower titled decimal letter fresh t r b, true) =
                        rw (p, q, s, w, ask_for_summary) refl in
                      subst (Settled (go fresh')) (sym asked) (
                        summary_asked fresh' k t y (ask lower titled decimal letter fresh t r b)
                          (get_task-ask k fresh t r b ∙ p) (get_summary-ask k fresh t r b ∙ q) s
                          (ask-listed (waits_for_task t.task_id) fresh t r b h
                            (rw (eq_refl t.task_id) refl)))
                ]
          ]
        ]
      ]
    where
      summary_asked :
          (f : Fresh) (j : String) (t : Task) (y : TaskSummary) (c : Blackboard)
          → get_task j c ≡ some t
          → get_summary j c ≡ some y
          → y.needs_user_input ≡ true
          → any (waits_for_task t.task_id) (list_interaction_requests c) ≡ true
          → ask_for_summary lower titled decimal letter f j c ≡ (c, false)
      summary_asked f j t y c p q s w = rw (p, q, s, w, ask_for_summary) refl

  ask_for-again :
      (kind : BlackboardWriteKind) (fresh fresh' : Fresh) (k : String) (b : Blackboard)
      → HasTables b
      → Settled
          (ask_for lower titled decimal letter kind fresh' k)
          (ask_for lower titled decimal letter kind fresh k b)
  unfolding ask_for
  ask_for-again BlackboardWriteKind.run fresh fresh' k b h = ask_for_run-again fresh fresh' k b h
  ask_for-again BlackboardWriteKind.summary fresh fresh' k b h =
      ask_for_summary-again fresh fresh' k b h
  ask_for-again _ fresh fresh' k b h = refl

  -- On a blackboard whose tables are well formed, a write is asked about once: when it is handled again,
  -- whatever new ids and times there are, nothing is asked and the blackboard stays as the first handling left
  -- it.
  pub asked_once :
      (fresh fresh' : Fresh) (e : BlackboardWriteEvent) (b : Blackboard)
      → HasTables b
      → let (b', asked) = handle_blackboard_write lower titled decimal letter fresh e b in
        handle_blackboard_write lower titled decimal letter fresh' e b' ≡ (b', false)
  unfolding handle_blackboard_write
  asked_once fresh fresh' e b h = go e.entity_id
    where
      go :
          (o : Option String)
          → Settled
              (λ c. elim o as (λ x. Blackboard × Bool) [
                | none ↦ (c, false)
                | some k ↦
                    if truthy k
                    then ask_for lower titled decimal letter e.kind fresh' k c
                    else (c, false)
              ])
              (elim o as (λ x. Blackboard × Bool) [
                | none ↦ (b, false)
                | some k ↦
                    if truthy k
                    then ask_for lower titled decimal letter e.kind fresh k b
                    else (b, false)
              ])
      go none = refl
      go (some k) = elim (Bool-cases (truthy k)) [
        | inl t ↦ rw t (ask_for-again e.kind fresh fresh' k b h)
        | inr t ↦ rw t refl
      ]
