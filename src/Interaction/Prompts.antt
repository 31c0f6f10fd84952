-- ===== src/Interaction/Prompts.antt =====
-- interaction/manager.py: what kind of request a prompt makes, and how it is titled and labelled. `lower` is
-- `str.lower`.
use Prim.Native.String as S
use newbro.Prelude.{
  String, List, [], ◌∷◌, map, Bool, ◌&&◌, ◌||◌, Option, none, some, if◌then◌else◌, any,
}
use newbro.Prelude.Text.{◌==◌, starts_with, fstring}
use newbro.Prelude.Json.{text, Fields, end, field, nonempty_member, text_member, fields}
use newbro.Protocol.Enums.{InteractionRequestKind, AttentionItemKind, interaction_request_kind_is}
use newbro.Protocol.Records.{Task, InteractionRequest}

-- `token in s`
unfoldable pub contains : String → String → Bool
contains token S.[] = token == ""
contains token (S.◌∷◌ c s) = starts_with (S.◌∷◌ c s) token || contains token s

-- The kind that the blocked event names, if it names one.
unfoldable pub explicit_kind : Option Fields → Option InteractionRequestKind
unfolding text_member
explicit_kind none = none
explicit_kind (some d) = elim (text_member "interaction_kind" d) [
  | none ↦ none
  | some k ↦
      if k == "plan_proposal"
      then some InteractionRequestKind.plan_proposal
      else if k == "permission"
      then some InteractionRequestKind.permission
      else if k == "confirmation"
      then some InteractionRequestKind.confirmation
      else if k == "question"
      then some InteractionRequestKind.question
      else none
]

unfoldable pub classify_prompt : (String → String) → String → Option Fields → InteractionRequestKind
unfolding explicit_kind contains any
classify_prompt lower prompt blocked = elim (explicit_kind blocked) [
  | some k ↦ k
  | none ↦
      if any (λ token. contains token (lower prompt))
        ("allow" ∷ "permission" ∷ "approve" ∷ "grant access" ∷ [])
      then InteractionRequestKind.permission
      else if any (λ token. contains token (lower prompt))
          ("confirm" ∷ "confirmation" ∷ "are you sure" ∷ [])
      then InteractionRequestKind.confirmation
      else InteractionRequestKind.question
]

-- `{...}[kind]`
abbrev pub attention_kind : InteractionRequestKind → AttentionItemKind
attention_kind InteractionRequestKind.permission = AttentionItemKind.permission_request
attention_kind InteractionRequestKind.question = AttentionItemKind.question_request
attention_kind InteractionRequestKind.confirmation = AttentionItemKind.confirmation_request
attention_kind InteractionRequestKind.plan_proposal = AttentionItemKind.plan_proposal_request

unfoldable pub request_title : Task → InteractionRequestKind → String
unfolding nonempty_member fstring
request_title t kind =
    let subject : String = elim (nonempty_member "persona_name" t.metadata) [
      | some s ↦ s
      | none ↦ t.title
    ] in
    fstring (subject ∷ ending kind ∷ [])
  where
    ending : InteractionRequestKind → String
    ending InteractionRequestKind.permission = " needs permission"
    ending InteractionRequestKind.confirmation = " needs confirmation"
    ending InteractionRequestKind.plan_proposal = " proposed a plan"
    ending InteractionRequestKind.question = " needs your input"

-- `titled` is `action.replace("_", " ").title()`, for an action that has no label.
unfoldable pub action_label : (String → String) → InteractionRequestKind → String → String
action_label titled kind action =
    let proposal = interaction_request_kind_is kind InteractionRequestKind.plan_proposal in
    if proposal && (action == "deny")
    then "Keep planning"
    else if proposal && (action == "approve")
    then "Approve & run"
    else if action == "approve"
    then "Allow"
    else if action == "deny"
    then "Deny"
    else if action == "answer"
    then "Answer"
    else if action == "confirm"
    then "Confirm"
    else if action == "cancel"
    then "Cancel"
    else titled action

unfoldable pub attention_actions_for_request : (String → String) → InteractionRequest → List Fields
unfolding action_label
attention_actions_for_request titled r =
    map
      (λ action.
        fields (("action", text action) ∷ ("label", text (action_label titled r.kind action)) ∷ []))
      r.available_actions

-- The ids of a request and of its attention item, and their time stamps.
pub record Fresh : Type 0 where
  pub request_id : String
  pub attention_id : String
  pub requested_at : String
  pub attended_at : String

-- The answer schema of a question.
abbrev pub answer_schema_for : InteractionRequestKind → Option Fields
answer_schema_for InteractionRequestKind.question = some (field "type" (text "string") end)
answer_schema_for _ = none
