-- ===== src/Execution/Reconcile/Personas.antt =====
-- execution/reconcile.py: what `_release_persona` does to the personas of the store.
use newbro.Prelude.{
  String, List, [], ◌∷◌, Bool, true, false, not, ◌&&◌, ◌||◌, some, none, ◌≡◌, refl, inl, inr,
  Bool-cases, Option-cases, All, arith, if◌then◌else◌, any,
}
use newbro.Prelude.Text.{◌==◌, eq_iff}
use newbro.Prelude.Dict as D
use newbro.Prelude.Json.{text_member}
use newbro.Protocol.Enums.{TaskStatus, task_status_is}
use newbro.Protocol.Records.{Task, Persona}
use newbro.Blackboard.State.{Blackboard, publish}
use newbro.Blackboard.Tasks.{list_tasks}
use newbro.Blackboard.Personas.{get_persona, put_persona}
use newbro.Execution.Failures.{release_persona, occupies, holds_persona}
use newbro.Execution.Reconcile.Events.{core}

pub core-release_persona : (t : Task) (b : Blackboard) → core (release_persona t b) ≡ core b
unfolding release_persona put_persona publish
core-release_persona t b = elim (Option-cases (text_member "persona_id" t.metadata)) [
  | inl p ↦ rw (p, release_persona) refl
  | inr (k, p) ↦ elim (Option-cases (get_persona k b)) [
    | inl q ↦ rw (p, q, release_persona) refl
    | inr (persona, q) ↦
        elim (Bool-cases (any (occupies k t) (list_tasks b) || not (persona.status == "busy"))) [
          | inl c ↦ rw (p, q, c, release_persona) refl
          | inr c ↦ rw (p, q, c, release_persona) refl
        ]
  ]
]

-- The task's metadata name this persona.
abbrev pub names : String → Task → Bool
names k t = elim (text_member "persona_id" t.metadata) [ none ↦ false | some p ↦ p == k ]

-- The task can still run: it is not completed, failed, cancelled or stopped.
unfoldable pub can_run : TaskStatus → Bool
unfolding any
can_run s = not (
    any (task_status_is s)
      (TaskStatus.completed ∷ TaskStatus.failed ∷ TaskStatus.cancelled ∷ TaskStatus.stopped ∷ []))

holds_persona-can_run : (s : TaskStatus) → holds_persona s ≡ can_run s
unfolding can_run
holds_persona-can_run TaskStatus.created = refl
holds_persona-can_run _ = refl

-- A task that can run names the persona.
abbrev pub in_use : String → Blackboard → Bool
in_use k b = any (λ c. can_run c.status && names k c) (list_tasks b)

-- No task with this task's id can run.
abbrev pub IsOver : Task → List Task → Type 0
IsOver t ts = All (λ (c : Task). (c.task_id == t.task_id) ≡ true → can_run c.status ≡ false) ts

occupies-over :
    (k : String) (t : Task) (ts : List Task)
    → IsOver t ts
    → any (occupies k t) ts ≡ any (λ c. can_run c.status && names k c) ts
unfolding occupies any
occupies-over k t [] h = refl
occupies-over k t (c ∷ ts) h =
    ground (arith, occupies-over k t ts h.1, h.0, holds_persona-can_run c.status)

-- When no task with the id of this one can still run in the store, and the personas of the store stand
-- under their ids, its persona is put back to idle exactly if it was busy and no task that can still run
-- names it, where a task can still run unless it is completed, failed, cancelled or stopped; every other
-- persona, and the persona in any other case, is left as it was.
pub release_persona_lem :
    (t : Task) (k : String) (persona : Persona) (b : Blackboard)
    → IsOver t (list_tasks b)
    → ((j : String) (q : Persona) → get_persona j b ≡ some q → q.persona_id ≡ j)
    → get_persona k b ≡ some persona
    → get_persona k (release_persona t b)
      ≡ some (
          if names k t && (persona.status == "busy") && not (in_use k b)
          then record persona { status = "idle" }
          else persona)
unfolding release_persona put_persona publish get_persona
release_persona_lem t k persona b over keyed h =
    elim (Option-cases (text_member "persona_id" t.metadata)) [
      | inl p ↦ ground (arith, p, h)
      | inr (j, p) ↦ elim (Option-cases (get_persona j b)) [
        | inl q ↦ ground (arith, p, q, h, eq_iff j k)
        | inr (found, q) ↦ ground (
          arith,
          p,
          q,
          h,
          eq_iff j k,
          keyed j found q,
          occupies-over k t (list_tasks b) over,
          D.get-put found.persona_id k (record found { status = "idle" }) b.personas,
          eq_iff found.persona_id k,
        )
      ]
    ]
