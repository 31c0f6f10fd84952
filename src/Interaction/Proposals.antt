-- ===== src/Interaction/Proposals.antt =====
-- interaction/manager.py: what the user answers to a proposed plan, read from the details of the
-- request. `show` is Python's `str` of a value that is no text.
use newbro.Prelude.{
  String, List, [], ◌∷◌, ◌++◌, Bool, true, false, not, ◌&&◌, ◌||◌, Option, none, some,
  if◌then◌else◌, eqb, or_else, leb, suc, ℕ, is_empty,
}
use newbro.Prelude.Text.{◌==◌, fstring, truthy, strip}
use newbro.Prelude.Dict as D
use newbro.Prelude.Dict.{Dict}
use newbro.Prelude.Json.{
  Value, Items, Fields, nil, cons, text, natural, negative, boolean, null, array, object, member,
  text_member, has_fields,
}
use newbro.Prelude.Attempt.{Attempt, returned, raised}
use newbro.Protocol.Records.{InteractionRequest}

abbrev pub Answers : Type 0
Answers = Dict (List String)

-- `separator.join(parts)`
unfoldable pub join : String → List String → String
unfolding fstring
join separator [] = ""
join separator (p ∷ []) = p
join separator (p ∷ q ∷ ps) = fstring (p ∷ separator ∷ join separator (q ∷ ps) ∷ [])

-- The texts stripped, without the blank ones.
unfoldable pub clean : List String → List String
unfolding strip
clean [] = []
clean (v ∷ vs) = let rest = clean vs in let s = strip v in if truthy s then s ∷ rest else rest

abbrev item_count : Items → ℕ
item_count nil = 0
item_count (cons v vs) = suc (item_count vs)

-- The value of a key, if it is a list.
unfoldable pub list_member : String → Fields → Option Items
unfolding member
list_member k d = elim (member k d) [ some (array vs) ↦ some vs | _ ↦ none ]

-- The questions of the proposal, if it is a dict with a list of them.
unfoldable pub proposal_list : String → InteractionRequest → Option Items
unfolding member list_member
proposal_list k r = elim (member "proposal" r.details) [
  | some (object p) ↦ list_member k p
  | _ ↦ none
]

-- The questions without a selected value, and the values of the others. A question without an id is
-- passed over.
unfoldable pub selected_answers : Items → Answers → List String → Answers → List String × Answers
unfolding text_member strip clean D.get D.put
selected_answers nil answers missing normalized = (missing, normalized)
selected_answers (cons (object q) qs) answers missing normalized =
    elim (text_member "question_id" q) [
      | none ↦ selected_answers qs answers missing normalized
      | some k ↦
          let values = clean (or_else (D.get k answers) []) in
          let passed = selected_answers qs answers missing normalized in
          let without_value = selected_answers qs answers (missing ++ k ∷ []) normalized in
          let with_value = selected_answers qs answers missing (D.put k values normalized) in
          if not (truthy (strip k))
          then passed
          else if is_empty values
          then without_value
          else with_value
    ]
selected_answers (cons _ qs) answers missing normalized =
    selected_answers qs answers missing normalized

required_answers : List String × Answers → Attempt (Option Answers)
unfolding join fstring
required_answers ([], normalized) = returned (some normalized)
required_answers (m ∷ ms, normalized) =
    raised
      (fstring ("answers are required for proposal questions: " ∷ join ", " (m ∷ ms) ∷ "." ∷ []))

unfoldable pub normalize_proposal_answers :
    InteractionRequest → Option Answers → Attempt (Option Answers)
unfolding proposal_list selected_answers required_answers
normalize_proposal_answers r answers = elim (proposal_list "questions" r) [
  | none ↦ returned answers
  | some questions ↦ if leb (item_count questions) 1 then returned answers else elim answers [
    | none ↦ raised "answers are required for multi-question plan proposals."
    | some given ↦ required_answers (selected_answers questions given [] [])
  ]
]

-- Truth of a value.
abbrev truthy_value : Value → Bool
truthy_value null = false
truthy_value (boolean b) = b
truthy_value (natural n) = not (eqb n 0)
truthy_value (negative n) = true
truthy_value (text s) = truthy s
truthy_value (array nil) = false
truthy_value (array (cons v vs)) = true
truthy_value (object d) = has_fields d

truthy_member : String → Fields → Option Value
unfolding member
truthy_member k d = elim (member k d) [
  | none ↦ none
  | some v ↦ if truthy_value v then some v else none
]

module _ (show : Value → String) where
  shown : Value → String
  shown (text s) = s
  shown v = show v

  -- `header or summary or question_id`, as a text
  question_label : Fields → String → String
  unfolding shown truthy_member
  question_label q k =
      strip
        (shown (or_else (truthy_member "header" q) (or_else (truthy_member "summary" q) (text k))))

  summary_parts : Items → Answers → List String
  unfolding text_member clean join fstring question_label D.get strip
  summary_parts nil answers = []
  summary_parts (cons (object q) qs) answers =
      let rest = summary_parts qs answers in
      elim (text_member "question_id" q) [
        | none ↦ rest
        | some k ↦
            let values = clean (or_else (D.get k answers) []) in
            if not (truthy k) || is_empty values
            then rest
            else fstring (question_label q k ∷ ": " ∷ join ", " values ∷ []) ∷ rest
      ]
  summary_parts (cons _ qs) answers = summary_parts qs answers

  unfoldable pub proposal_answers_summary : InteractionRequest → Answers → String
  unfolding summary_parts join proposal_list
  proposal_answers_summary r answers = elim (proposal_list "questions" r) [
    | none ↦ ""
    | some questions ↦ join "; " (summary_parts questions answers)
  ]

  -- The label of the option that was chosen, or of the first one if none was named.
  chosen_label : Option String → Items → Option String
  unfolding text_member strip
  chosen_label option_id nil = none
  chosen_label option_id (cons (object o) os) =
      let rest = chosen_label option_id os in
      let is_other : Bool = elim option_id [
        | none ↦ false
        | some k ↦ truthy k && not (elim (text_member "id" o) [ none ↦ false | some j ↦ j == k ])
      ] in
      if is_other then rest else elim (text_member "label" o) [
        | none ↦ rest
        | some l ↦ let label = strip l in if truthy label then some label else rest
      ]
  chosen_label option_id (cons _ os) = chosen_label option_id os

  -- The summary of the answers, if there are answers and it is not empty.
  answered_summary : InteractionRequest → Option Answers → Option String
  unfolding proposal_answers_summary
  answered_summary r none = none
  answered_summary r (some []) = none
  answered_summary r (some (a ∷ rest)) =
      let s = proposal_answers_summary r (a ∷ rest) in if truthy s then some s else none

  unfoldable pub plan_proposal_answer_text :
      InteractionRequest → String → Option String → Option String → Option Answers → String
  unfolding answered_summary chosen_label strip proposal_list
  plan_proposal_answer_text r action answer_text option_id answers =
      let given : String = elim answer_text [ none ↦ "" | some s ↦ strip s ] in
      let chosen : Option String = elim (proposal_list "options" r) [
        | none ↦ none
        | some os ↦ chosen_label option_id os
      ] in
      if truthy given then given else elim (answered_summary r answers) [
        | some s ↦ s
        | none ↦
            if action == "deny"
            then "Keep planning. Refine the proposal instead of acting yet."
            else or_else chosen "Approve and run the proposed plan."
      ]
