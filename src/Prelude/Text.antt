-- ===== src/Prelude/Text.antt =====
-- Text as the source uses it: comparison, f-strings, `strip` and truth of an optional text.
use Prim.Native.Char.{Char, code}
use Prim.Native.String.{String, compare}
use Prim.Native.String as S
use mathlib.Core.Bool.{Bool, true, false, ◌&&◌, ◌||◌, not}
use mathlib.Core.List.{List, [], ◌∷◌}
use mathlib.Core.Option.{Option, none, some}
use text.Mathlib.Text.{is_le}
pub use text.Mathlib.Text.{◌==◌, starts_with}
pub use text.Mathlib.TextEquality.{eq_iff}
pub use text.Mathlib.TextPositions.{eq_refl}
use newbro.Prelude.Tests.{leb, eqb, if◌then◌else◌}

-- An f-string is the concatenation of its pieces.
unfoldable pub fstring : List String → String
fstring [] = ""
fstring (s ∷ ss) = S.◌++◌ s (fstring ss)

-- Truth of a `str`.
abbrev pub truthy : String → Bool
truthy s = not (s == "")

-- Truth of a `str | None`.
abbrev pub present : Option String → Bool
present none = false
present (some s) = truthy s

-- `a or b` on texts.
abbrev pub first_text : Option String → String → String
first_text o d = elim o [ none ↦ d | some s ↦ if truthy s then s else d ]

abbrev pub option_eq : Option String → Option String → Bool
option_eq none none = true
option_eq (some a) (some b) = a == b
option_eq _ _ = false

-- `a <= b` on texts, code point by code point.
abbrev pub text_le : String → String → Bool
text_le a b = is_le (compare a b)

-- The code points for which `str.isspace` holds.
unfoldable pub is_space : Char → Bool
is_space c =
    let n = code c in
    (leb 0x09 n && leb n 0x0d)
    || (leb 0x1c n && leb n 0x20)
    || eqb n 0x85
    || eqb n 0xa0
    || eqb n 0x1680
    || (leb 0x2000 n && leb n 0x200a)
    || eqb n 0x2028
    || eqb n 0x2029
    || eqb n 0x202f
    || eqb n 0x205f
    || eqb n 0x3000

unfoldable pub lstrip : String → String
unfolding is_space
lstrip S.[] = ""
lstrip (S.◌∷◌ c s) = let rest = lstrip s in if is_space c then rest else S.◌∷◌ c s

-- The text without its trailing white space.
unfoldable pub rstrip : String → String
unfolding is_space
rstrip S.[] = ""
rstrip (S.◌∷◌ c s) = let rest = rstrip s in if is_space c && (rest == "") then "" else S.◌∷◌ c rest

-- `str.strip()`
unfoldable pub strip : String → String
unfolding lstrip rstrip
strip s = rstrip (lstrip s)
