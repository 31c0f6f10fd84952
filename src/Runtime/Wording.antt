-- ===== src/Runtime/Wording.antt =====
-- runtime/drafts.py: the functions on texts. Characters are told by their code points.
pub mod Titles
use Prim.Native.Char.{Char, code}
use Prim.Native.String as S
use text.Mathlib.Text.{starts_with}
use newbro.Prelude.{
  ℕ, zero, suc, ◌-◌, String, List, [], ◌∷◌, ◌++◌, Bool, true, false, not, ◌&&◌, ◌||◌, Option, none,
  some, if◌then◌else◌, leb, ltb, eqb,
}
use newbro.Prelude.Text.{◌==◌, truthy, strip, fstring, is_space, rstrip}
use newbro.Protocol.Drafts.{Draft}

-- `s.split()`: the words between white space.
unfoldable pub split : String → List String
unfolding is_space
split S.[] = []
split (S.◌∷◌ c s) = let rest = split s in if is_space c then rest else attach c (starts_word s) rest
  where
    starts_word : String → Bool
    starts_word S.[] = false
    starts_word (S.◌∷◌ d r) = not (is_space d)

    attach : Char → Bool → List String → List String
    attach d true (w ∷ ws) = S.◌∷◌ d w ∷ ws
    attach d _ ws = S.◌∷◌ d "" ∷ ws

-- `separator.join(words)`
unfoldable pub join : String → List String → String
join separator [] = ""
join separator (w ∷ []) = w
join separator (w ∷ v ∷ ws) = S.◌++◌ w (S.◌++◌ separator (join separator (v ∷ ws)))

-- `" ".join(text.strip().split())`
unfoldable pub squeeze : String → String
unfolding join split strip
squeeze s = join " " (split (strip s))

unfoldable pub any_char : (Char → Bool) → String → Bool
any_char p S.[] = false
any_char p (S.◌∷◌ c s) = p c || any_char p s

unfoldable pub is_cjk : Char → Bool
is_cjk c = leb 0x4e00 (code c) && leb (code c) 0x9fff

-- `c.isascii() and c.isalpha()`
unfoldable pub is_ascii_letter : Char → Bool
is_ascii_letter c =
    (leb 0x41 (code c) && leb (code c) 0x5a) || (leb 0x61 (code c) && leb (code c) 0x7a)

unfoldable pub language_tag : String → String
unfolding any_char is_cjk
language_tag s = if any_char is_cjk s then "zh-CN" else "en-US"

unfoldable pub draft_locale : String → String
unfolding any_char is_cjk
draft_locale s = if any_char is_cjk s then "zh" else "en"

unfoldable pub is_code_switched : String → Bool
unfolding any_char is_cjk is_ascii_letter
is_code_switched s = any_char is_cjk s && any_char is_ascii_letter s

unfoldable pub success_criteria : String → String → List String
success_criteria s language =
    let criteria = "Produce a concise result that matches the requested output" ∷ [] in
    if language == "zh-CN" then criteria ++ "Respond to the user in Chinese" ∷ [] else criteria

-- `s.rstrip(".。")`
unfoldable pub rstrip_stops : String → String
rstrip_stops S.[] = ""
rstrip_stops (S.◌∷◌ c s) =
    let rest = rstrip_stops s in
    if (eqb (code c) 0x2e || eqb (code c) 0x3002) && (rest == "") then "" else S.◌∷◌ c rest

-- `s[:n]`
unfoldable pub take_chars : ℕ → String → String
take_chars zero s = ""
take_chars (suc n) S.[] = ""
take_chars (suc n) (S.◌∷◌ c s) = S.◌∷◌ c (take_chars n s)

-- `len(s)`
unfoldable pub chars : String → ℕ
chars S.[] = 0
chars (S.◌∷◌ c s) = suc (chars s)

unfoldable pub title_from_goal : String → String
unfolding strip rstrip_stops take_chars chars rstrip
title_from_goal goal =
    let title = rstrip_stops (strip goal) in
    let short =
      if ltb 72 (chars title) then S.◌++◌ (rstrip (take_chars 69 title)) "..." else title in
    if truthy short then short else "Draft task"

unfoldable pub title : String → String
unfolding strip rstrip_stops title_from_goal
title s = title_from_goal (rstrip_stops (strip s))

-- `s.endswith((".", "。", "!", "！", "?", "？"))`
unfoldable pub ends_sentence : String → Bool
ends_sentence S.[] = false
ends_sentence (S.◌∷◌ c S.[]) =
    let n = code c in
    eqb n 0x2e || eqb n 0x3002 || eqb n 0x21 || eqb n 0xff01 || eqb n 0x3f || eqb n 0xff1f
ends_sentence (S.◌∷◌ c (S.◌∷◌ d s)) = ends_sentence (S.◌∷◌ d s)

-- `s.replace(old, new)`: after a match, the rest of the match is skipped.
unfoldable pub replace_from : String → String → ℕ → String → String
unfolding chars
replace_from old new k S.[] = ""
replace_from old new (suc k) (S.◌∷◌ c s) = replace_from old new k s
replace_from old new zero (S.◌∷◌ c s) =
    let matched = S.◌++◌ new (replace_from old new (chars old - 1) s) in
    let unmatched = S.◌∷◌ c (replace_from old new zero s) in
    if starts_with (S.◌∷◌ c s) old then matched else unmatched

-- `mapping.get(english, english)`
translated : String → String
translated english =
    if english == "What should I send?"
    then "要发送什么任务？"
    else if english == "Which repo or prototype should I inspect?"
    then "要检查哪个 repo 或 prototype？"
    else if english == "That worker is not available."
    then "这个 worker 现在不可用。"
    else if english == "This may modify code. Send?"
    then "这个任务可能会变更文件。发送吗？"
    else if english == "This needs approval. Send?"
    then "这个任务需要确认。发送吗？"
    else english

unfoldable pub question : String → String → String
unfolding replace_from translated
question language english =
    let announced =
      replace_from ". Send?" "。发送吗？" 0 (replace_from "Drafted for" "已草拟给" 0 english) in
    if not (language == "zh-CN")
    then english
    else if starts_with english "Drafted for "
    then announced
    else translated english

unfoldable pub last_update_summary : Option Draft → String → String → String
last_update_summary none s locale = ""
last_update_summary (some previous) s locale =
    if not (previous.text == s)
    then (if locale == "zh"
        then "已根据最新语音重写草稿。"
        else "Rewrote the draft based on the latest voice turn.")
    else (if locale == "zh"
        then "已根据最新语音刷新草稿。"
        else "Refreshed the draft from the latest voice turn.")

-- `upper` is `str.upper` on a character.
unfoldable pub clean_goal : (Char → String) → String → String → String
unfolding squeeze ends_sentence
clean_goal upper s locale =
    let cleaned = squeeze s in
    let closed =
      if ends_sentence cleaned
      then cleaned
      else if locale == "zh"
      then S.◌++◌ cleaned "。"
      else S.◌++◌ cleaned "." in
    if not (truthy cleaned) then "" else if locale == "zh" then closed else capitalized closed
  where
    capitalized : String → String
    capitalized S.[] = ""
    capitalized (S.◌∷◌ c r) = S.◌++◌ (upper c) r
