-- ===== src/Runtime/Dispatch/Gate.antt =====
-- runtime/drafts.py: which plans the gate lets through.
use newbro.Prelude.{
  String, Bool, true, not, ◌&&◌, ◌||◌, Option, none, some, ◌≡◌, ◌↔◌, arith, if◌then◌else◌, is_empty,
  ltb,
}
use newbro.Prelude.Text.{◌==◌, truthy, strip}
use newbro.Protocol.Enums.{DispatchGateOutcome}
use newbro.Protocol.Drafts.{TaskSpec, DispatchPlan}
use newbro.Runtime.Wording.{chars, question}
use newbro.Runtime.Dispatch.{
  dispatch_gate, lint_task_spec, lint_problems, agent_allowed_for_intent, no_agent, missing_context,
  is_safe_mode, gated, send_confirmation_question,
}

-- The task that the spec describes can be dispatched as far as it goes: it has a goal of eight
-- characters, a target and an expected output.
abbrev pub is_clear : TaskSpec → Bool
is_clear spec =
    truthy (strip spec.goal)
    && truthy (strip spec.target_agent)
    && truthy (strip spec.expected_output)
    && not (ltb (chars (strip spec.goal)) 8)

pub lint-is_clear : (spec : TaskSpec) → (lint_task_spec spec).valid ≡ is_clear spec
unfolding lint_task_spec lint_problems missing_context
lint-is_clear spec = ground arith

-- The gate's tests in their order, with a reason and a question for each, come to a dispatch only at
-- the end.
gate_order :
    (valid low missing none_named allowed unsafe risky confirmed : Bool) (plan : DispatchPlan)
    (q₁ q₂ q₃ q₄ q₅ : Option String)
    → ((if not valid
          then gated DispatchGateOutcome.ask_clarification "task_lint_failed" q₁ plan
          else if low
          then gated DispatchGateOutcome.ask_clarification "low_confidence" q₂ plan
          else if not missing
          then gated DispatchGateOutcome.ask_clarification "missing_context" q₃ plan
          else if none_named
          then gated DispatchGateOutcome.reject "agent_mismatch" q₄ plan
          else if not allowed
          then gated DispatchGateOutcome.reject "agent_mismatch" q₄ plan
          else if unsafe && not confirmed
          then gated DispatchGateOutcome.ask_confirmation "unsafe_mode_needs_confirmation" q₅ plan
          else if risky && not confirmed
          then gated DispatchGateOutcome.ask_confirmation "risk_needs_confirmation" q₅ plan
          else if not confirmed
          then gated DispatchGateOutcome.ask_confirmation "needs_confirmation" q₅ plan
          else gated DispatchGateOutcome.dispatch "ok" none plan).outcome
        ≡ DispatchGateOutcome.dispatch)
      ↔ ((valid && not low && missing && not none_named && allowed && confirmed) ≡ true)
gate_order valid low missing none_named allowed unsafe risky confirmed plan q₁ q₂ q₃ q₄ q₅ =
    ground arith

-- The gate dispatches a plan exactly when the task is clear, the confidence is at least 0.85, no context
-- is missing, the target is an agent that the intent allows, and the user has confirmed; neither
-- the mode nor the risk of the task make a difference then.
pub dispatch_gate_dispatches :
    (plan : DispatchPlan)
    → ((dispatch_gate plan).outcome ≡ DispatchGateOutcome.dispatch) ↔ (
        (is_clear plan.task_spec
          && not (ltb plan.confidence 85)
          && is_empty plan.missing_context
          && not (no_agent plan.target_agent)
          && agent_allowed_for_intent plan.intent plan.target_agent
          && plan.user_confirmed)
        ≡ true)
unfolding dispatch_gate
dispatch_gate_dispatches plan = rw (← lint-is_clear plan.task_spec) (
    gate_order (lint_task_spec plan.task_spec).valid (ltb plan.confidence 85)
      (is_empty plan.missing_context) (no_agent plan.target_agent)
      (agent_allowed_for_intent plan.intent plan.target_agent) (not (is_safe_mode plan.mode))
      ((plan.risk_level == "medium") || (plan.risk_level == "high")) plan.user_confirmed plan
      (lint_task_spec plan.task_spec).clarifying_question
      (some (question plan.output_language "What should I send?"))
      (some (question plan.output_language "Which repo or prototype should I inspect?"))
      (some (question plan.output_language "That worker is not available."))
      (some (send_confirmation_question plan)))
