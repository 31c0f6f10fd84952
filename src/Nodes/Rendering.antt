-- ===== src/Nodes/Rendering.antt =====
-- executors/node/registry.py: the texts the registry makes, hints of tokens and the registry file.
-- `str.lower` reads the case tables of Unicode, data that no source file holds: it is an argument.
use Prim.Native.Char.{code}
use Prim.Native.String as S
use newbro.Prelude.{
  ℕ, zero, suc, ◌-◌, String, List, [], ◌∷◌, ◌++◌, map, Bool, Option, none, some, if◌then◌else◌, leb,
  eqb, flatten,
}
use newbro.Prelude.Text.{◌==◌, fstring, present, text_le}
use newbro.Prelude.Sort.{sorted}
use newbro.Nodes.Records.{StoredExecutorNodeRecord}

text_length : String → ℕ
text_length S.[] = 0
text_length (S.◌∷◌ c s) = suc (text_length s)

-- `s[:n]`
first_chars : ℕ → String → String
first_chars zero s = ""
first_chars (suc n) S.[] = ""
first_chars (suc n) (S.◌∷◌ c s) = S.◌∷◌ c (first_chars n s)

-- `s[n:]`
skip_chars : ℕ → String → String
skip_chars zero s = s
skip_chars (suc n) S.[] = ""
skip_chars (suc n) (S.◌∷◌ c s) = skip_chars n s

unfoldable pub hint : String → String
unfolding text_length first_chars skip_chars fstring
hint value =
    if leb (text_length value) 10
    then value
    else fstring (first_chars 4 value ∷ "..." ∷ skip_chars (text_length value - 4) value ∷ [])

-- `s.replace(c, r)` for one character
unfoldable pub replace_char : ℕ → String → String → String
replace_char n r S.[] = ""
replace_char n r (S.◌∷◌ c s) =
    let rest = replace_char n r s in if eqb (code c) n then S.◌++◌ r rest else S.◌∷◌ c rest

-- The backslash is 0x5c and the quote 0x22.
unfoldable pub yaml_quote : String → String
unfolding replace_char fstring
yaml_quote value =
    fstring ("\"" ∷ replace_char 0x22 "\\\"" (replace_char 0x5c "\\\\" value) ∷ "\"" ∷ [])

yaml_optional : Option String → String
unfolding yaml_quote
yaml_optional o = if present o then elim o [ none ↦ "null" | some s ↦ yaml_quote s ] else "null"

module _ (lower : String → String) where
  -- `(item.name.lower(), item.node_id)`, compared as pairs are
  unfoldable pub listed_before : StoredExecutorNodeRecord → StoredExecutorNodeRecord → Bool
  listed_before r s =
      if lower r.name == lower s.name
      then text_le r.node_id s.node_id
      else text_le (lower r.name) (lower s.name)

  record_lines : StoredExecutorNodeRecord → List String
  unfolding yaml_quote yaml_optional fstring
  record_lines r =
      (fstring ("  - node_id: " ∷ yaml_quote r.node_id ∷ [])
        ∷ fstring ("    name: " ∷ yaml_quote r.name ∷ [])
        ∷ "    enabled_executors:"
        ∷ map (λ e. fstring ("      - " ∷ yaml_quote e ∷ [])) r.enabled_executors)
      ++ (fstring ("    acpx_agent: " ∷ yaml_optional r.acpx_agent ∷ [])
          ∷ fstring ("    raw_token: " ∷ yaml_optional r.raw_token ∷ [])
          ∷ fstring ("    token_hash: " ∷ yaml_quote r.token_hash ∷ [])
          ∷ fstring ("    token_hint: " ∷ yaml_quote r.token_hint ∷ [])
          ∷ fstring ("    last_connected_at: " ∷ yaml_optional r.last_connected_at ∷ [])
          ∷ fstring ("    last_seen_at: " ∷ yaml_optional r.last_seen_at ∷ [])
          ∷ [])

  -- `"\n".join(lines) + "\n"`
  lines_text : List String → String
  lines_text [] = "\n"
  lines_text (l ∷ []) = S.◌++◌ l "\n"
  lines_text (l ∷ m ∷ ms) = S.◌++◌ l (S.◌++◌ "\n" (lines_text (m ∷ ms)))

  unfoldable pub write_records : List StoredExecutorNodeRecord → String
  unfolding record_lines lines_text sorted listed_before flatten
  write_records records =
      lines_text (
        "version: 1"
        ∷ "executor_nodes:"
        ∷ flatten (map record_lines (sorted listed_before records)))
