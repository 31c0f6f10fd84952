-- ===== src/Interaction/Resolution.antt =====
-- interaction/manager.py: `resolve_request`. Its checks come before its writes; an exception is its
-- message, and comes with the blackboard as it is when it is raised.
pub mod Finality
use newbro.Prelude.{
  String, List, [], ◌∷◌, Bool, true, false, not, ◌&&◌, ◌||◌, Option, none, some, if◌then◌else◌, any,
}
use newbro.Prelude.Text.{◌==◌, fstring, truthy, present, strip}
use newbro.Prelude.Dict.{Dict}
use newbro.Prelude.Json.{Value, Fields, Items, text, array, object, items, assign, end, field}
use newbro.Prelude.Attempt.{Attempt, returned, raised}
use newbro.Protocol.Enums.{
  InteractionRequestKind, InteractionRequestStatus, AttentionItemStatus,
  interaction_request_status_is, interaction_request_kind_is,
}
use newbro.Protocol.Records.{InteractionRequest}
use newbro.Blackboard.State.{Blackboard}
use newbro.Blackboard.Ordered.{put_interaction_request, get_interaction_request}
use newbro.Interaction.Proposals.{
  Answers, join, normalize_proposal_answers, plan_proposal_answer_text,
}
use newbro.Interaction.Manager.{resolved_status_for_action, mark_attention_for_request}

-- The arguments after the request's id.
pub record Resolving : Type 0 where
  pub action : String
  pub answer_text : Option String
  pub option_id : Option String
  pub answers : Option Answers
  pub reason : Option String

pub record InteractionResolution : Type 0 where
  pub request : InteractionRequest
  pub follow_up_instruction : String
  pub answer_text : Option String
  pub answers : Option Answers

text_items : List String → Items
text_items [] = Items.nil
text_items (s ∷ ss) = Items.cons (text s) (text_items ss)

answer_fields : Answers → Fields
unfolding text_items
answer_fields [] = end
answer_fields ((k, vs) ∷ d) = field k (array (text_items vs)) (answer_fields d)

with_text : String → Option String → Fields → Fields
unfolding assign
with_text k none d = d
with_text k (some s) d = if truthy s then assign k (text s) d else d

with_answers : Option Answers → Fields → Fields
unfolding answer_fields assign
with_answers none d = d
with_answers (some []) d = d
with_answers (some (a ∷ rest)) d = assign "selected_answers" (object (answer_fields (a ∷ rest))) d

unfoldable pub resolved_request :
    InteractionRequest
    → Resolving
    → Option Answers
    → InteractionRequestStatus
    → String
    → InteractionRequest
unfolding with_text with_answers
resolved_request r c answers status at = record r {
  status = status;
  resolved_at = some at;
  details =
      with_text "resolution_reason" c.reason
        (with_answers answers (with_text "selected_option_id" c.option_id r.details));
}

-- Of the three kinds with an action of consent, any other action is a refusal.
unfoldable pub build_follow_up_instruction :
    InteractionRequestKind → String → Option String → Attempt String
unfolding fstring strip
build_follow_up_instruction InteractionRequestKind.permission action answer_text =
    if action == "approve"
    then returned
        "The user approved the pending permission request. Continue from where you left off."
    else returned
        "The user denied the pending permission request. Do not perform that action. Continue with an alternative if possible, otherwise ask for next steps."
build_follow_up_instruction InteractionRequestKind.confirmation action answer_text =
    if action == "confirm"
    then returned "The user confirmed the pending action. Continue."
    else returned
        "The user cancelled the pending action. Do not perform it. Continue only if there is another safe path."
build_follow_up_instruction InteractionRequestKind.plan_proposal action answer_text =
    if action == "approve"
    then returned (
        fstring (
          "The user approved this plan: "
          ∷ elim answer_text [ none ↦ "" | some s ↦ strip s ]
          ∷ ". Proceed with that plan."
          ∷ []))
    else returned
        "The user asked you to keep planning. Refine the plan and ask again before acting."
build_follow_up_instruction InteractionRequestKind.question action none =
    raised "answer_text is required for answer actions."
build_follow_up_instruction InteractionRequestKind.question action (some s) = returned (
    fstring (
      "The user answered the pending question: "
      ∷ strip s
      ∷ ". Continue from where you left off."
      ∷ []))

not_allowed : String → List String → String
unfolding fstring join
not_allowed action [] = fstring ("Action '" ∷ action ∷ "' is not allowed. Allowed: none." ∷ [])
not_allowed action (a ∷ rest) =
    let allowed = join ", " (a ∷ rest) in
    fstring (
      "Action '"
      ∷ action
      ∷ "' is not allowed. Allowed: "
      ∷ (if truthy allowed then allowed else "none")
      ∷ "."
      ∷ [])

module _ (show : Value → String) where
  -- The answer of a plan proposal is worked out from what was selected.
  unfoldable pub proposal_answers :
      InteractionRequest → Resolving → Attempt (Option String × Option Answers)
  unfolding normalize_proposal_answers plan_proposal_answer_text
  proposal_answers r c =
      if interaction_request_kind_is r.kind InteractionRequestKind.plan_proposal
      then elim (normalize_proposal_answers r c.answers) [
        | raised e ↦ raised e
        | returned answers ↦ returned (
          some (plan_proposal_answer_text show r c.action c.answer_text c.option_id answers),
          answers,
        )
      ]
      else returned (c.answer_text, c.answers)

  -- The checks and what is to be written: the answer text, the answers and the new status.
  unfoldable pub checked_resolution :
      InteractionRequest
      → Resolving
      → Attempt (Option String × Option Answers × InteractionRequestStatus)
  unfolding any not_allowed proposal_answers resolved_status_for_action fstring strip
  checked_resolution r c =
      if not (interaction_request_status_is r.status InteractionRequestStatus.pending)
      then raised "Interaction request is no longer pending."
      else if not (any (λ a. a == c.action) r.available_actions)
      then raised (not_allowed c.action r.available_actions)
      else elim (proposal_answers r c) [
        | raised e ↦ raised e
        | returned (answer_text, answers) ↦
            if (c.action == "answer")
              && not (elim answer_text [ none ↦ false | some s ↦ truthy (strip s) ])
            then raised "answer_text is required for answer actions."
            else elim (resolved_status_for_action c.action) [
              | none ↦ raised (fstring ("'" ∷ c.action ∷ "'" ∷ []))
              | some status ↦ returned (answer_text, answers, status)
            ]
      ]

  -- What `resolve_request` returns behind its writes.
  unfoldable pub resolution :
      InteractionRequest
      → Resolving
      → Option String
      → Option Answers
      → Attempt InteractionResolution
  unfolding build_follow_up_instruction
  resolution u c answer_text answers =
      elim (build_follow_up_instruction u.kind c.action answer_text) [
        | raised e ↦ raised e
        | returned f ↦ returned (record {
          request = u;
          follow_up_instruction = f;
          answer_text = answer_text;
          answers = answers;
        })
      ]

  unfoldable pub resolve_request :
      String → String → Resolving → Blackboard → Blackboard × Attempt InteractionResolution
  unfolding fstring
  resolve_request at request_id c b = elim (get_interaction_request request_id b) [
    | none ↦ (b, raised (fstring ("Unknown interaction request: " ∷ request_id ∷ [])))
    | some r ↦ elim (checked_resolution r c) [
      | raised e ↦ (b, raised e)
      | returned (answer_text, answers, status) ↦
          let u = resolved_request r c answers status at in
          (
            mark_attention_for_request r.request_id AttentionItemStatus.acted
                (put_interaction_request u b),
            resolution u c answer_text answers,
          )
    ]
  ]
