-- ===== src/Runtime/Dispatch.antt =====
-- runtime/drafts.py: the task that a draft stands for, its dispatch plan, and the gate that a plan must
-- pass. A confidence is a number of hundredths.
pub mod Gate
pub mod Confirmation
use text.Mathlib.Text.{starts_with}
use newbro.Prelude.{
  ℕ, String, List, [], ◌∷◌, ◌++◌, Bool, true, false, not, ◌&&◌, ◌||◌, Option, none, some,
  if◌then◌else◌, any, is_empty, ltb,
}
use newbro.Prelude.Text.{◌==◌, truthy, strip, fstring}
use newbro.Prelude.Dict as D
use newbro.Prelude.Dict.{Dict}
use newbro.Prelude.Json.{end}
use newbro.Protocol.Enums.{TaskMode, task_mode_is, DispatchGateOutcome}
use newbro.Protocol.Drafts.{TaskSpec, Draft, DraftSession, DispatchPlan, DispatchGateResult}
use newbro.Runtime.Wording.{
  squeeze, language_tag, is_code_switched, success_criteria, title, question, chars,
}

-- `DEFAULT_BRO_ID`
abbrev pub default_bro_id : String
default_bro_id = "codex"

-- `mode in SAFE_TASK_MODES`
abbrev pub is_safe_mode : TaskMode → Bool
is_safe_mode m = task_mode_is m TaskMode.read_only_first || task_mode_is m TaskMode.proposal_only

-- `ROUTING_TABLE`
abbrev pub routing_table : Dict (List String)
routing_table =
    ("repo_investigation", "hermes" ∷ "codex" ∷ "mock" ∷ [])
    ∷ ("code_modification", "codex" ∷ "hermes" ∷ [])
    ∷ ("web_research", "browser_agent" ∷ "hermes" ∷ [])
    ∷ ("status_query", "communication_brain" ∷ [])
    ∷ ("draft_correction", "communication_brain" ∷ [])
    ∷ ("task_control", "task_manager" ∷ [])
    ∷ []

unfoldable pub formulate_task_spec : String → String → TaskSpec
unfolding squeeze language_tag is_code_switched success_criteria title
formulate_task_spec s assigned_bro_id =
    let cleaned = squeeze s in
    let language = language_tag cleaned in
    record {
      title = title cleaned;
      goal = cleaned;
      target_agent = if truthy assigned_bro_id then assigned_bro_id else default_bro_id;
      mode = TaskMode.read_only_first;
      expected_output = "Concise status or result summary";
      constraints = "Inspect first; ask before making changes" ∷ [];
      success_criteria = success_criteria cleaned language;
      stop_conditions =
          "Need credentials" ∷ "Need permission to modify code"
          ∷ "Need unavailable repository or prototype context" ∷ [];
      context = end;
      input_language = language;
      output_language = language;
      raw_transcript = some cleaned;
      normalized_task_language = "en-US";
      code_switched = is_code_switched cleaned;
    }

unfoldable pub missing_context : TaskSpec → List String
unfolding strip chars
missing_context spec = if ltb (chars (strip spec.goal)) 8 then "target" ∷ [] else []

abbrev pub intent : TaskSpec → String
intent spec = "repo_investigation"

abbrev pub risk_level : TaskSpec → String
risk_level spec =
    if task_mode_is spec.mode TaskMode.modify_allowed
      || task_mode_is spec.mode TaskMode.submit_allowed
    then "medium"
    else "low"

-- `list(dict.fromkeys(xs))`: each text once, at its first place.
unfoldable pub unique : List String → List String → List String
unfolding any
unique seen [] = []
unique seen (x ∷ xs) =
    let again = unique seen xs in
    let new = x ∷ unique (x ∷ seen) xs in if any (λ s. s == x) seen then again else new

-- The task spec of a draft, or the one that its text stands for.
unfoldable pub spec_of : DraftSession → Draft → TaskSpec
unfolding formulate_task_spec
spec_of session draft = elim draft.task_spec [
  | some spec ↦ spec
  | none ↦ formulate_task_spec draft.text session.assigned_bro_id
]

-- A session id of `None` is given as `""`, which counts as missing as it does.
unfoldable pub build_dispatch_plan :
    String → String → String → DraftSession → Draft → Bool → DispatchPlan
unfolding spec_of missing_context unique
build_dispatch_plan plan_id session_id runtime_session_id session draft user_confirmed =
    let spec = spec_of session draft in
    let missing = unique [] (draft.missing_context ++ missing_context spec) in
    record {
      plan_id = plan_id;
      session_id = if truthy runtime_session_id then runtime_session_id else session_id;
      draft_session_id = session.id;
      draft_revision_id = session.current_revision_id;
      draft_revision_number = session.current_revision_number;
      intent = intent spec;
      target_agent = spec.target_agent;
      task_title = spec.title;
      task_goal = spec.goal;
      required_context = if is_empty missing then [] else "target" ∷ [];
      missing_context = missing;
      mode = spec.mode;
      risk_level = risk_level spec;
      confidence = if truthy spec.goal then 91 else 0;
      requires_user_confirmation = true;
      user_confirmed = user_confirmed;
      output_language = spec.output_language;
      task_spec = spec;
    }

pub record TaskLintResult : Type 0 where
  pub valid : Bool
  pub problems : List String
  pub clarifying_question : Option String

-- The problem, if there is one.
abbrev problem : Bool → String → List String
problem true name = name ∷ []
problem false name = []

-- A mode is always one of `TaskMode`, so the test of it never finds a problem.
unfoldable pub lint_problems : TaskSpec → List String
unfolding strip missing_context
lint_problems spec =
    problem (not (truthy (strip spec.goal))) "clear_goal"
    ++ problem (not (truthy (strip spec.target_agent))) "clear_target"
    ++ problem (not (truthy (strip spec.expected_output))) "expected_output"
    ++ problem (not (is_empty (missing_context spec))) "missing_context"

unfoldable pub lint_task_spec : TaskSpec → TaskLintResult
unfolding lint_problems any question
lint_task_spec spec =
    let problems = lint_problems spec in
    let asked =
      if any (λ p. p == "missing_context") problems
      then question spec.output_language "Which repo or prototype should I inspect?"
      else question spec.output_language "What should I send?" in
    if is_empty problems
    then record { valid = true; problems = []; clarifying_question = none }
    else record { valid = false; problems = problems; clarifying_question = some asked }

unfoldable pub agent_allowed_for_intent : String → String → Bool
unfolding D.get any
agent_allowed_for_intent intent target_agent =
    starts_with target_agent "persona-" || elim (D.get intent routing_table) [
      | none ↦ true
      | some allowed ↦ any (λ a. a == target_agent) allowed
    ]

-- A result with a reason and a question.
abbrev pub gated : DispatchGateOutcome → String → Option String → DispatchPlan → DispatchGateResult
gated outcome reason asked plan = record {
  outcome = outcome;
  reason = reason;
  question = asked;
  plan_id = some plan.plan_id;
}

pub send_confirmation_question : DispatchPlan → String
unfolding question fstring
send_confirmation_question plan =
    question plan.output_language (fstring ("Drafted for " ∷ plan.target_agent ∷ ". Send?" ∷ []))

-- `not plan.target_agent or plan.target_agent in {"unknown", "none"}`
abbrev pub no_agent : String → Bool
no_agent a = not (truthy a) || (a == "unknown") || (a == "none")

unfoldable pub dispatch_gate : DispatchPlan → DispatchGateResult
unfolding lint_task_spec agent_allowed_for_intent question send_confirmation_question
dispatch_gate plan =
    let lint = lint_task_spec plan.task_spec in
    let unavailable =
      gated DispatchGateOutcome.reject "agent_mismatch"
        (some (question plan.output_language "That worker is not available.")) plan in
    let confirm : String → DispatchGateResult = λ reason.
      gated DispatchGateOutcome.ask_confirmation reason (some (send_confirmation_question plan))
        plan in
    if not lint.valid
    then gated DispatchGateOutcome.ask_clarification "task_lint_failed" lint.clarifying_question
        plan
    else if ltb plan.confidence 85
    then gated DispatchGateOutcome.ask_clarification "low_confidence"
        (some (question plan.output_language "What should I send?")) plan
    else if not (is_empty plan.missing_context)
    then gated DispatchGateOutcome.ask_clarification "missing_context"
        (some (question plan.output_language "Which repo or prototype should I inspect?")) plan
    else if no_agent plan.target_agent
    then unavailable
    else if not (agent_allowed_for_intent plan.intent plan.target_agent)
    then unavailable
    else if not (is_safe_mode plan.mode) && not plan.user_confirmed
    then confirm "unsafe_mode_needs_confirmation"
    else if ((plan.risk_level == "medium") || (plan.risk_level == "high"))
        && not plan.user_confirmed
    then confirm "risk_needs_confirmation"
    else if not plan.user_confirmed
    then confirm "needs_confirmation"
    else gated DispatchGateOutcome.dispatch "ok" none plan
