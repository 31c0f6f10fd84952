-- ===== src/Interaction/Sanitization/Secrets.antt =====
-- interaction/sanitization.py: nothing but the listed keys comes through.
use newbro.Prelude.{String, List, [], ◌∷◌, Bool, false, ◌≡◌, none, some, any}
use newbro.Prelude.Text.{◌==◌}
use newbro.Prelude.Json.{Fields, member}
use newbro.Interaction.Sanitization.{object_member, safe_param_keys}

abbrev pub listed : String → List String → Bool
listed k ks = any (λ j. j == k) ks

-- The dict has no key but these.
abbrev pub OnlyKeys : List String → Fields → Type 0
OnlyKeys ks d = (k : String) → listed k ks ≡ false → member k d ≡ none

-- What is shown of a native response: its id, its method and listed parameters.
abbrev pub ResponseIsSafe : Fields → Type 0
ResponseIsSafe r =
    OnlyKeys ("params" ∷ "request_id" ∷ "method" ∷ []) r
    × ((p : Fields) → object_member "params" r ≡ some p → OnlyKeys safe_param_keys p)
