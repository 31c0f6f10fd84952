-- ===== src/Runtime/Dispatch/Confirmation.antt =====
-- runtime/drafts.py: what the gate makes of the plan of a draft.
use Prim.Native.Char.{Char}
use Prim.Native.String as S
use newbro.Prelude.{
  String, List, [], ◌∷◌, ◌++◌, Bool, true, false, not, ◌&&◌, ◌≡◌, ◌↔◌, refl, arith, ap, ◌∙◌,
  if◌then◌else◌, is_empty, ltb, any, ◌≢◌, Bool-cases, inl, inr,
}
use mathlib.Core.Path.{subst}
use newbro.Prelude.Text.{◌==◌, eq_iff, truthy, strip, lstrip, rstrip}
use newbro.Protocol.Enums.{DispatchGateOutcome}
use newbro.Protocol.Drafts.{TaskSpec, Draft, DraftSession}
use newbro.Runtime.Wording.{chars}
use newbro.Runtime.Dispatch.{
  dispatch_gate, build_dispatch_plan, spec_of, missing_context, unique, agent_allowed_for_intent,
  no_agent,
}
use newbro.Runtime.Dispatch.Gate.{is_clear, dispatch_gate_dispatches}

is_empty-unique : (xs : List String) → is_empty (unique [] xs) ≡ is_empty xs
unfolding unique any
is_empty-unique [] = refl
is_empty-unique (x ∷ xs) = refl

is_empty-append : (xs ys : List String) → is_empty (xs ++ ys) ≡ (is_empty xs && is_empty ys)
is_empty-append [] ys = refl
is_empty-append (x ∷ xs) ys = refl

truthy-cons : (c : Char) (s : String) → truthy (S.◌∷◌ c s) ≡ true
truthy-cons c s = elim (Bool-cases (S.◌∷◌ c s == "")) [
  | inl e ↦ absurd (nonempty ((eq_iff (S.◌∷◌ c s) "").0 e))
  | inr e ↦ ground (arith, e)
]
  where
    nonempty : S.◌∷◌ c s ≢ ""
    nonempty e = cc

-- A text that is not empty when stripped is not empty.
truthy-strip : (s : String) → truthy (strip s) ≡ true → truthy s ≡ true
unfolding strip lstrip rstrip
truthy-strip S.[] h = h
truthy-strip (S.◌∷◌ c s) h = truthy-cons c s

is_empty-missing_context :
    (spec : TaskSpec) → is_empty (missing_context spec) ≡ not (ltb (chars (strip spec.goal)) 8)
unfolding missing_context
is_empty-missing_context spec = ground arith

-- The conditions of the gate on a plan whose confidence and missing context come from its spec.
plan_conditions :
    (goal target output long dm agent allowed confirmed g : Bool)
    → (goal ≡ true → g ≡ true)
    → ((goal && target && output && long)
        && not (ltb (if g then 91 else 0) 85)
        && (dm && long)
        && agent
        && allowed
        && confirmed)
      ≡ ((goal && target && output && long) && dm && agent && allowed && confirmed)
plan_conditions false target output long dm agent allowed confirmed g h = refl
plan_conditions true target output long dm agent allowed confirmed g h = rw (h refl) (ground arith)

-- The plan of a draft is dispatched exactly when its task is clear, nothing is noted as missing on
-- the draft, the task's target is an agent for the investigation of a repository, and the user has
-- confirmed: the confidence and the missing context that the plan is given never stop such a plan.
pub confirmed_draft_dispatches :
    (plan_id session_id runtime_session_id : String) (session : DraftSession) (draft : Draft)
    (user_confirmed : Bool)
    → let spec = spec_of session draft in
      let plan =
        build_dispatch_plan plan_id session_id runtime_session_id session draft user_confirmed in
      ((dispatch_gate plan).outcome ≡ DispatchGateOutcome.dispatch) ↔ (
        (is_clear spec
          && is_empty draft.missing_context
          && not (no_agent spec.target_agent)
          && agent_allowed_for_intent "repo_investigation" spec.target_agent
          && user_confirmed)
        ≡ true)
unfolding build_dispatch_plan
confirmed_draft_dispatches plan_id session_id runtime_session_id session draft user_confirmed =
    let spec = spec_of session draft in
    let plan =
      build_dispatch_plan plan_id session_id runtime_session_id session draft user_confirmed in
    let nothing_missing : is_empty plan.missing_context
        ≡ (is_empty draft.missing_context && not (ltb (chars (strip spec.goal)) 8)) =
      is_empty-unique (draft.missing_context ++ missing_context spec)
      ∙ is_empty-append draft.missing_context (missing_context spec)
      ∙ ap (λ x. is_empty draft.missing_context && x) (is_empty-missing_context spec) in
    let conditions =
      plan_conditions (truthy (strip spec.goal)) (truthy (strip spec.target_agent))
        (truthy (strip spec.expected_output)) (not (ltb (chars (strip spec.goal)) 8))
        (is_empty draft.missing_context) (not (no_agent spec.target_agent))
        (agent_allowed_for_intent "repo_investigation" spec.target_agent) user_confirmed
        (truthy spec.goal) (truthy-strip spec.goal) in
    subst (λ x. ((dispatch_gate plan).outcome ≡ DispatchGateOutcome.dispatch) ↔ (x ≡ true))
      (ap
          (λ x.
            is_clear spec
            && not (ltb plan.confidence 85)
            && x
            && not (no_agent spec.target_agent)
            && agent_allowed_for_intent "repo_investigation" spec.target_agent
            && user_confirmed)
          nothing_missing
        ∙ conditions)
      (dispatch_gate_dispatches plan)
