-- ===== src/Interaction/Details.antt =====
-- interaction/manager.py: the details of a request: whose it is, the part of the blocked event that a client may
-- see, and the plan that is proposed. `decimal` is `str` of a number, `letter` is `chr(65 + index)`.
use newbro.Prelude.{
  ℕ, suc, String, List, [], ◌∷◌, Bool, true, false, not, Option, none, some, if◌then◌else◌, eqb,
}
use newbro.Prelude.Text.{truthy, strip, fstring}
use newbro.Prelude.Json.{
  Value, null, boolean, natural, negative, Items, nil, cons, text, array, object, Fields, end,
  member, assign, nonempty_member, fields, has_fields,
}
use newbro.Protocol.Records.{Task}
use newbro.Interaction.Sanitization.{sanitize_blocked_event_for_client, object_member}

-- Truth of a value.
abbrev pub truth : Value → Bool
truth null = false
truth (boolean b) = b
truth (natural n) = not (eqb n 0)
truth (negative n) = true
truth (text s) = truthy s
truth (array nil) = false
truth (array (cons v vs)) = true
truth (object d) = has_fields d

-- `a or b`, with `none` for `None`
abbrev pub value_or : Option Value → Option Value → Option Value
value_or none b = b
value_or (some a) b = if truth a then some a else b

-- The first of some texts of a dict that is a text and not empty, under a name of its own.
unfoldable pub first_member : List String → Fields → Option String
unfolding nonempty_member
first_member [] d = none
first_member (k ∷ ks) d = elim (nonempty_member k d) [ some s ↦ some s | none ↦ first_member ks d ]

unfoldable pub with_text_entry : String → Option String → Fields → Fields
unfolding assign
with_text_entry k none d = d
with_text_entry k (some s) d = assign k (text s) d

unfoldable pub with_dict_entry : String → Option Fields → Fields → Fields
unfolding assign
with_dict_entry k none d = d
with_dict_entry k (some e) d = assign k (object e) d

-- `x.strip()` of a value that is a text and not blank.
unfoldable pub stripped : Option Value → Option String
unfolding strip
stripped (some (text s)) = if truthy (strip s) then some (strip s) else none
stripped _ = none

module _ (decimal : ℕ → String) (letter : ℕ → String) where
  -- An option that is a dict with a label, as the client gets it.
  unfoldable pub normalized_option : ℕ → Value → Option Fields
  unfolding member stripped nonempty_member
  normalized_option index (object d) = elim (stripped (member "label" d)) [
    | none ↦ none
    | some label ↦ some (
        fields (
          ("id", text (elim (nonempty_member "id" d) [ some i ↦ i | none ↦ label ]))
          ∷ ("label", text label)
          ∷ (
            "description",
            text (elim (member "description" d) [ some (text s) ↦ strip s | _ ↦ "" ]),
          )
          ∷ ("letter", text (letter index))
          ∷ []))
  ]
  normalized_option index _ = none

  unfoldable pub normalized_options : ℕ → Items → Items
  unfolding normalized_option
  normalized_options index nil = nil
  normalized_options index (cons v vs) =
      let rest = normalized_options (suc index) vs in
      elim (normalized_option index v) [ none ↦ rest | some d ↦ cons (object d) rest ]

  -- A question of the proposal: `n` were kept before it.
  unfoldable pub normalized_question : ℕ → Fields → Fields
  unfolding member stripped normalized_options fstring
  normalized_question n d =
      let header = member "header" d in
      let question_text = value_or (member "question" d) (value_or (member "prompt" d) header) in
      let options : Items = elim (member "options" d) [
        | some (array vs) ↦ normalized_options 0 vs
        | _ ↦ nil
      ] in
      let number = decimal (suc n) in
      fields (
        (
          "question_id",
          text (elim (stripped (member "id" d)) [
            | some i ↦ i
            | none ↦ fstring ("question_" ∷ number ∷ [])
          ]),
        )
        ∷ (
          "header",
          text (elim (stripped header) [
            | some h ↦ h
            | none ↦ elim (stripped question_text) [
              | some q ↦ q
              | none ↦ fstring ("Question " ∷ number ∷ [])
            ]
          ]),
        )
        ∷ (
          "summary",
          text (elim (stripped question_text) [ some q ↦ q | none ↦ "Review the proposed plan." ]),
        )
        ∷ ("options", array options)
        ∷ [])

  unfoldable pub normalized_questions : ℕ → Items → List Fields
  unfolding normalized_question
  normalized_questions n nil = []
  normalized_questions n (cons (object d) vs) =
      normalized_question n d ∷ normalized_questions (suc n) vs
  normalized_questions n (cons _ vs) = normalized_questions n vs

  unfoldable pub proposal_details_from_native_params : Fields → Option Fields
  unfolding member normalized_questions
  proposal_details_from_native_params params = elim (member "questions" params) [
    | some (array vs) ↦ proposed (normalized_questions 0 vs)
    | _ ↦ none
  ]
    where
      listed : List Fields → Items
      listed [] = nil
      listed (d ∷ ds) = cons (object d) (listed ds)

      -- The value of a key that is there.
      at : String → Fields → Value
      at k d = elim (member k d) [ none ↦ null | some v ↦ v ]

      proposed : List Fields → Option Fields
      proposed [] = none
      proposed (d ∷ ds) = some (
          fields (
            ("questions", array (listed (d ∷ ds)))
            ∷ ("question_id", at "question_id" d)
            ∷ ("summary", at "summary" d)
            ∷ ("options", at "options" d)
            ∷ []))

  unfoldable pub proposal_details_from_blocked_event : Option Fields → Option Fields
  unfolding object_member proposal_details_from_native_params
  proposal_details_from_blocked_event none = none
  proposal_details_from_blocked_event (some d) = elim (object_member "proposal" d) [
    | some p ↦ some p
    | none ↦ elim (object_member "native_response" d) [
      | none ↦ none
      | some r ↦ elim (object_member "params" r) [
        | none ↦ none
        | some params ↦ proposal_details_from_native_params params
      ]
    ]
  ]

  unfoldable pub request_details : Task → Option Fields → Fields
  unfolding first_member with_text_entry with_dict_entry sanitize_blocked_event_for_client
      proposal_details_from_blocked_event
  request_details t blocked =
      let owned =
        with_text_entry "persona_id"
          (first_member ("persona_id" ∷ "assigned_bro_id" ∷ []) t.metadata) end in
      let threaded =
        with_text_entry "target_thread_id"
          (first_member ("target_thread_id" ∷ "bro_thread_id" ∷ []) t.metadata) owned in
      let requested =
        with_text_entry "client_request_id" (first_member ("client_request_id" ∷ []) t.metadata)
          threaded in
      let sourced =
        with_text_entry "source_kind" (first_member ("source_kind" ∷ []) t.metadata) requested in
      let named =
        with_text_entry "persona_name" (first_member ("persona_name" ∷ []) t.metadata) sourced in
      let shown =
        with_dict_entry "blocked_event" (sanitize_blocked_event_for_client blocked) named in
      with_dict_entry "proposal" (proposal_details_from_blocked_event blocked) shown
