-- ===== src/Communication/Quoting.antt =====
-- communication/persona_pool.py: how a text is quoted in the personas file, and how it is read back.
pub mod Reading
use Prim.Native.Char.{Char, code}
use Prim.Native.String as S
use newbro.Prelude.{ℕ, String, [], ◌∷◌, Bool, true, false, ◌&&◌, if◌then◌else◌, eqb}
use newbro.Prelude.Text.{fstring, strip}
use newbro.Nodes.Rendering.{replace_char}

-- The newline is 0x0a, the quotes are 0x22 and 0x27, the backslash is 0x5c and `n` 0x6e.
unfoldable pub escaped : String → String
unfolding replace_char
escaped value = replace_char 0x22 "\\\"" (replace_char 0x0a "\\n" (replace_char 0x5c "\\\\" value))

unfoldable pub yaml_quote : String → String
unfolding escaped fstring
yaml_quote value = fstring ("\"" ∷ escaped value ∷ "\"" ∷ [])

unfoldable pub is_escape : Char → Char → ℕ → Bool
is_escape c d n = eqb (code c) 0x5c && eqb (code d) n

-- `s.replace("\\" + x, r)` where the code point of `x` is `n`
unfoldable pub replace_escape : ℕ → String → String → String
unfolding is_escape
replace_escape n r S.[] = ""
replace_escape n r (S.◌∷◌ c S.[]) = S.◌∷◌ c ""
replace_escape n r (S.◌∷◌ c (S.◌∷◌ d s)) = elim (is_escape c d n) [
  | true ↦ S.◌++◌ r (replace_escape n r s)
  | false ↦ S.◌∷◌ c (replace_escape n r (S.◌∷◌ d s))
]

unfoldable pub unescaped : String → String
unfolding replace_escape
unescaped s = replace_escape 0x5c "\\" (replace_escape 0x22 "\"" (replace_escape 0x6e "\n" s))

-- `s[-1] == q`
unfoldable pub ends_by : ℕ → String → Bool
ends_by q S.[] = false
ends_by q (S.◌∷◌ c S.[]) = eqb (code c) q
ends_by q (S.◌∷◌ c (S.◌∷◌ d s)) = ends_by q (S.◌∷◌ d s)

-- `len(s) >= 2 and s[0] == q and s[-1] == q`
unfoldable pub is_quoted : ℕ → String → Bool
unfolding ends_by
is_quoted q S.[] = false
is_quoted q (S.◌∷◌ c s) = eqb (code c) q && ends_by q s

-- `s[:-1]`
unfoldable pub but_last : String → String
but_last S.[] = ""
but_last (S.◌∷◌ c S.[]) = ""
but_last (S.◌∷◌ c (S.◌∷◌ d s)) = S.◌∷◌ c (but_last (S.◌∷◌ d s))

-- `s[1:-1]`
unfoldable pub inner : String → String
unfolding but_last
inner S.[] = ""
inner (S.◌∷◌ c s) = but_last s

unfoldable pub unquote : String → String
unfolding strip is_quoted inner unescaped
unquote value =
    let s = strip value in
    if is_quoted 0x22 s then unescaped (inner s) else if is_quoted 0x27 s then inner s else s
