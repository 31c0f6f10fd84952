-- ===== src/Interaction/Sanitization.antt =====
-- interaction/sanitization.py: what a client is shown of a blocked run. `none` is the source's `None`, also where
-- a dict has the value `None` under a key.
pub mod Secrets
use newbro.Prelude.{String, List, [], ◌∷◌, Option, none, some, if◌then◌else◌, is_some}
use newbro.Prelude.Text.{truthy}
use newbro.Prelude.Json.{
  Value, null, object, text, Fields, end, field, member, assign, without, has_fields,
  nonempty_member,
}

-- `d.get(key)`, where a value of `None` is the same as none.
unfoldable pub present_member : String → Fields → Option Value
unfolding member
present_member k d = elim (member k d) [ some null ↦ none | o ↦ o ]

-- The dict under a key, if it is one.
unfoldable pub object_member : String → Fields → Option Fields
unfolding member
object_member k d = elim (member k d) [ some (object e) ↦ some e | _ ↦ none ]

-- `d or None`
abbrev pub if_any : Fields → Option Fields
if_any end = none
if_any (field k v d) = some (field k v d)

-- `_CLIENT_SAFE_NATIVE_RESPONSE_PARAM_KEYS`
abbrev pub safe_param_keys : List String
safe_param_keys = "threadId" ∷ "turnId" ∷ "itemId" ∷ "reason" ∷ "command" ∷ []

-- `_CLIENT_SAFE_BLOCKED_EVENT_KEYS`
abbrev pub safe_event_keys : List String
safe_event_keys = "thread_id" ∷ "prompt" ∷ "interaction_kind" ∷ "blocked_method" ∷ []

-- `for key in keys`: the values of these keys that are there, on top of what there is.
unfoldable pub copy_present : List String → Fields → Fields → Fields
unfolding present_member assign
copy_present [] d kept = kept
copy_present (k ∷ ks) d kept =
    copy_present ks d (elim (present_member k d) [ none ↦ kept | some v ↦ assign k v kept ])

-- The texts of these keys that are not empty.
unfoldable pub copy_texts : List String → Fields → Fields → Fields
unfolding nonempty_member assign
copy_texts [] d kept = kept
copy_texts (k ∷ ks) d kept =
    copy_texts ks d (elim (nonempty_member k d) [ none ↦ kept | some s ↦ assign k (text s) kept ])

-- A dict under a key, if there is one and it has an entry.
unfoldable pub with_part : String → Option Fields → Fields → Fields
unfolding assign
with_part k none d = d
with_part k (some part) d = if has_fields part then assign k (object part) d else d

unfoldable pub sanitize_native_response : Option Fields → Option Fields
unfolding copy_present copy_texts with_part object_member
sanitize_native_response none = none
sanitize_native_response (some d) =
    let named = copy_present ("request_id" ∷ "method" ∷ []) d end in
    let params : Option Fields = elim (object_member "params" d) [
      | none ↦ none
      | some p ↦ some (copy_texts safe_param_keys p end)
    ] in
    if_any (with_part "params" params named)

unfoldable pub sanitize_blocked_event_for_client : Option Fields → Option Fields
unfolding copy_present with_part object_member sanitize_native_response
sanitize_blocked_event_for_client none = none
sanitize_blocked_event_for_client (some d) = if_any (
    with_part "native_response" (sanitize_native_response (object_member "native_response" d))
      (copy_present safe_event_keys d end))

unfoldable pub build_interaction_request_opaque : Option Fields → Fields
unfolding object_member
build_interaction_request_opaque none = end
build_interaction_request_opaque (some d) = elim (object_member "native_response" d) [
  | none ↦ end
  | some r ↦ field "native_response" (object r) end
]

unfoldable pub sanitize_interaction_request_opaque : Fields → Fields
unfolding with_part object_member sanitize_native_response
sanitize_interaction_request_opaque opaque =
    with_part "native_response" (sanitize_native_response (object_member "native_response" opaque))
      end

unfoldable pub sanitize_interaction_request_details : Fields → Fields
unfolding object_member sanitize_blocked_event_for_client assign without
sanitize_interaction_request_details details =
    elim (sanitize_blocked_event_for_client (object_member "blocked_event" details)) [
      | none ↦ without "blocked_event" details
      | some e ↦ assign "blocked_event" (object e) details
    ]
