-- ===== src/Prelude/Json.antt =====
-- The values of `dict[str, object]`: metadata, patches and payloads as the JSON values that they hold.
-- Integers carry their sign in the constructor (`negative n` is -(n + 1)); floats are not used by
-- the code that is modelled, and no value of the model is one.
use Prim.Native.Nat.{ℕ, suc}
use Prim.Native.String.{String}
use mathlib.Core.Bool.{Bool, true, false, ◌&&◌}
use mathlib.Core.Option.{Option, none, some}
use mathlib.Core.List.{List, [], ◌∷◌}
use newbro.Prelude.Tests.{if◌then◌else◌, eqb}
use newbro.Prelude.Text.{◌==◌, truthy}

mutual
  pub data Value : Type 0 where
    null : Value
    boolean : Bool → Value
    natural : ℕ → Value
    negative : ℕ → Value
    text : String → Value
    array : Items → Value
    object : Fields → Value

  pub data Items : Type 0 where
    nil : Items
    cons : Value → Items → Items

  pub data Fields : Type 0 where
    end : Fields
    field : String → Value → Fields → Fields

-- `d.get(k)`
unfoldable pub member : String → Fields → Option Value
member k end = none
member k (field j v d) = if j == k then some v else member k d

-- `d[k] = v`, in place for a key that is there
unfoldable pub assign : String → Value → Fields → Fields
assign k v end = field k v end
assign k v (field j w d) = if j == k then field j v d else field j w (assign k v d)

-- `d.pop(k, None)`
unfoldable pub without : String → Fields → Fields
without k end = end
without k (field j w d) = if j == k then d else field j w (without k d)

-- Truth of a dict: it has an entry.
abbrev pub has_fields : Fields → Bool
has_fields end = false
has_fields (field k v d) = true

abbrev pub size : Fields → ℕ
size end = 0
size (field k v d) = suc (size d)

abbrev pub same_bool : Bool → Bool → Bool
same_bool true b = b
same_bool false true = false
same_bool false false = true

-- `==` on such values: a dict by its entries, whatever their order. A bool counts as the number
-- that it is, as `True == 1` does.
unfoldable mutual
  pub same_value : Value → Value → Bool
  same_value null null = true
  same_value (boolean a) (boolean b) = same_bool a b
  same_value (boolean a) (natural n) = eqb (if a then 1 else 0) n
  same_value (natural n) (boolean b) = eqb n (if b then 1 else 0)
  same_value (natural m) (natural n) = eqb m n
  same_value (negative m) (negative n) = eqb m n
  same_value (text s) (text t) = s == t
  same_value (array xs) (array ys) = same_items xs ys
  same_value (object d) (object e) = eqb (size d) (size e) && within d e
  same_value _ _ = false

  pub same_items : Items → Items → Bool
  same_items nil nil = true
  same_items (cons x xs) (cons y ys) = same_value x y && same_items xs ys
  same_items _ _ = false

  -- Each entry of the first dict is in the second.
  pub within : Fields → Fields → Bool
  within end e = true
  within (field k v d) e =
      elim (member k e) [ none ↦ false | some w ↦ same_value v w ] && within d e

unfoldable pub same_fields : Fields → Fields → Bool
unfolding same_value member
same_fields d e = eqb (size d) (size e) && within d e

-- The value of a key, if it is a text.
unfoldable pub text_member : String → Fields → Option String
unfolding member
text_member k d = elim (member k d) [ some (text s) ↦ some s | _ ↦ none ]

-- The value of a key, if it is a text and not empty.
unfoldable pub nonempty_member : String → Fields → Option String
unfolding text_member
nonempty_member k d = elim (text_member k d) [
  | none ↦ none
  | some s ↦ if truthy s then some s else none
]

unfoldable pub items : List Value → Items
items [] = nil
items (v ∷ vs) = cons v (items vs)

-- A `str | None` as a value.
abbrev pub optional_text : Option String → Value
optional_text none = null
optional_text (some s) = text s

-- A dict literal.
abbrev pub fields : List (String × Value) → Fields
fields [] = end
fields ((k, v) ∷ d) = field k v (fields d)
