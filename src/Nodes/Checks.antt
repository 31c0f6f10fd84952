-- ===== src/Nodes/Checks.antt =====
-- executors/node/registry.py: what a node may be named, which executors it enables and with which
-- agent, as `create_node` and `update_node` check them.
pub mod Shape
use newbro.Prelude.{
  String, List, [], ◌∷◌, Bool, true, false, not, ◌&&◌, ◌||◌, Option, none, some, if◌then◌else◌, any,
  is_some, ◌≡◌, refl, ◌⊎◌, inl, inr,
}
use newbro.Prelude.Text.{◌==◌, present, truthy, strip}
use newbro.Prelude.Attempt.{Attempt, returned, raised}
use newbro.Nodes.Records.{StoredExecutorNodeRecord}

-- The values cleaned, without those that are empty or were seen.
unfoldable pub unseen : List String → List String → List String
unfolding strip any
unseen seen [] = []
unseen seen (v ∷ vs) =
    let cleaned = strip v in
    let skipped = unseen seen vs in
    let rest = unseen (cleaned ∷ seen) vs in
    if not (truthy cleaned) || any (λ s. s == cleaned) seen then skipped else cleaned ∷ rest

unfoldable pub normalize_executor_list : List String → List String
unfolding unseen
normalize_executor_list values = unseen [] values

unfoldable pub normalize_optional_text : Option String → Option String
unfolding strip
normalize_optional_text none = none
normalize_optional_text (some value) =
    let cleaned = strip value in if truthy cleaned then some cleaned else none

unfoldable pub required_name : String → Attempt String
unfolding strip
required_name name =
    let normalized = strip name in
    if truthy normalized then returned normalized else raised "Executor node name is required."

unfoldable pub one_executor : List String → Attempt (List String)
one_executor [] = raised "Executor node must enable exactly one executor family."
one_executor (x ∷ []) = returned (x ∷ [])
one_executor (x ∷ y ∷ ys) = raised "Executor node must choose exactly one executor family."

unfoldable pub required_executors : List String → Attempt (List String)
unfolding normalize_executor_list one_executor
required_executors values = one_executor (normalize_executor_list values)

abbrev pub has_acpx : List String → Bool
has_acpx executors = any (λ e. e == "acpx") executors

-- The record after an update, whose new name, executors and agent are given or kept.
unfoldable pub with_agent : StoredExecutorNodeRecord → StoredExecutorNodeRecord
unfolding any
with_agent r =
    if has_acpx r.enabled_executors
    then if present r.acpx_agent then r else record r { acpx_agent = some "codex" }
    else if is_some r.acpx_agent
    then record r { acpx_agent = none }
    else r

unfoldable pub optional_name : Option String → String → Attempt String
unfolding required_name
optional_name none old = returned old
optional_name (some name) old = required_name name

unfoldable pub optional_executors : Option (List String) → List String → Attempt (List String)
unfolding required_executors
optional_executors none old = returned old
optional_executors (some values) old = required_executors values

unfoldable pub updated_record :
    StoredExecutorNodeRecord
    → Option String
    → Option (List String)
    → Option String
    → Attempt StoredExecutorNodeRecord
unfolding optional_name optional_executors normalize_optional_text with_agent
updated_record r name enabled_executors acpx_agent = elim (optional_name name r.name) [
  | raised e ↦ raised e
  | returned n ↦ elim (optional_executors enabled_executors r.enabled_executors) [
    | raised e ↦ raised e
    | returned xs ↦ returned (
        with_agent (record r {
          name = n;
          enabled_executors = xs;
          acpx_agent = elim acpx_agent [
            | none ↦ r.acpx_agent
            | some a ↦ normalize_optional_text (some a)
          ];
        }))
  ]
]
