-- ===== src/Communication/Quoting/Reading.antt =====
-- communication/persona_pool.py: a quoted text is read back as it was.
use Prim.Native.Char.{Char, char, code}
use Prim.Native.String as S
use Prim.Native.String.append as append
use Prim.Native.String.compare as compare
use newbro.Prelude.{
  ℕ, String, true, false, ◌≡◌, refl, arith, inl, inr, ◌&&◌, if◌then◌else◌, eqb, Bool-cases, ap, ◌∙◌,
  sym,
}
use text.Mathlib.Text.{is_eq}
use text.Mathlib.TextEquality.{Char-path}
use mathlib.Core.Path.{subst}
use newbro.Prelude.Text.{◌==◌, fstring, strip, lstrip, rstrip, is_space}
use newbro.Nodes.Rendering.{replace_char}
use newbro.Communication.Quoting.{
  escaped, yaml_quote, is_escape, replace_escape, unescaped, ends_by, is_quoted, but_last, inner,
  unquote,
}

-- No backslash is in the text.
unfoldable pub HasNoBackslash : String → Type 0
HasNoBackslash S.[] = Unit
HasNoBackslash (S.◌∷◌ c s) = (eqb (code c) 0x5c ≡ false) × HasNoBackslash s

-- A character that is no backslash begins no escape.
replace_escape_plain :
    (n : ℕ) (r : String) (c : Char) (s : String)
    → eqb (code c) 0x5c ≡ false
    → replace_escape n r (S.◌∷◌ c s) ≡ S.◌∷◌ c (replace_escape n r s)
unfolding replace_escape is_escape
replace_escape_plain n r c S.[] h = refl
replace_escape_plain n r c (S.◌∷◌ d s) h =
    ap
      (λ b. elim b as (λ _. String) [
        | true ↦ S.◌++◌ r (replace_escape n r s)
        | false ↦ S.◌∷◌ c (replace_escape n r (S.◌∷◌ d s))
      ])
      (ap (λ b. b && eqb (code d) n) h)

eqb_eq : (a b : ℕ) → eqb a b ≡ true → a ≡ b
eqb_eq a b h = ground arith

append_one : (c : Char) (s : String) → S.◌++◌ (S.◌∷◌ c S.[]) s ≡ S.◌∷◌ c s
append_one c s = append.cons c S.[] s ∙ ap (S.◌∷◌ c) (append.nil s)

append_two : (c d : Char) (s : String) → S.◌++◌ (S.◌∷◌ c (S.◌∷◌ d S.[])) s ≡ S.◌∷◌ c (S.◌∷◌ d s)
append_two c d s = append.cons c (S.◌∷◌ d S.[]) s ∙ ap (S.◌∷◌ c) (append_one d s)

abbrev newline : Char
newline = char 0x0a tt

abbrev quote : Char
quote = char 0x22 tt

abbrev backslash : Char
backslash = char 0x5c tt

abbrev letter_n : Char
letter_n = char 0x6e tt

-- The three replacements of `unquote` on a character that is no backslash.
unescaped_plain :
    (c : Char) (s : String)
    → eqb (code c) 0x5c ≡ false
    → unescaped (S.◌∷◌ c s) ≡ S.◌∷◌ c (unescaped s)
unfolding unescaped
unescaped_plain c s h =
    ap (λ x. replace_escape 0x5c "\\" (replace_escape 0x22 "\"" x))
      (replace_escape_plain 0x6e "\n" c s h)
    ∙ ap (replace_escape 0x5c "\\") (replace_escape_plain 0x22 "\"" c _ h)
    ∙ replace_escape_plain 0x5c "\\" c _ h

unescaped-newline :
    (s : String) → unescaped (S.◌∷◌ backslash (S.◌∷◌ letter_n s)) ≡ S.◌∷◌ newline (unescaped s)
unfolding unescaped replace_escape is_escape
unescaped-newline s =
    ap (λ x. replace_escape 0x5c "\\" (replace_escape 0x22 "\"" x))
      (append_one newline (replace_escape 0x6e "\n" s))
    ∙ ap (replace_escape 0x5c "\\")
        (replace_escape_plain 0x22 "\"" newline (replace_escape 0x6e "\n" s) refl)
    ∙ replace_escape_plain 0x5c "\\" newline (replace_escape 0x22 "\"" (replace_escape 0x6e "\n" s))
        refl

unescaped-quote :
    (s : String) → unescaped (S.◌∷◌ backslash (S.◌∷◌ quote s)) ≡ S.◌∷◌ quote (unescaped s)
unfolding unescaped replace_escape is_escape
unescaped-quote s =
    ap (λ x. replace_escape 0x5c "\\" (replace_escape 0x22 "\"" (S.◌∷◌ backslash x)))
      (replace_escape_plain 0x6e "\n" quote s refl)
    ∙ ap (replace_escape 0x5c "\\")
        (append_one quote (replace_escape 0x22 "\"" (replace_escape 0x6e "\n" s)))
    ∙ replace_escape_plain 0x5c "\\" quote (replace_escape 0x22 "\"" (replace_escape 0x6e "\n" s))
        refl

-- What an escaped text is read back as, character by character.
escaped-newline :
    (s : String) → escaped (S.◌∷◌ newline s) ≡ S.◌∷◌ backslash (S.◌∷◌ letter_n (escaped s))
unfolding escaped replace_char
escaped-newline s =
    ap (replace_char 0x22 "\\\"")
      (append_two backslash letter_n (replace_char 0x0a "\\n" (replace_char 0x5c "\\\\" s)))

escaped-quote : (s : String) → escaped (S.◌∷◌ quote s) ≡ S.◌∷◌ backslash (S.◌∷◌ quote (escaped s))
unfolding escaped replace_char
escaped-quote s = append_two backslash quote _

escaped_plain :
    (c : Char) (s : String)
    → eqb (code c) 0x5c ≡ false
    → eqb (code c) 0x0a ≡ false
    → eqb (code c) 0x22 ≡ false
    → escaped (S.◌∷◌ c s) ≡ S.◌∷◌ c (escaped s)
unfolding escaped replace_char
escaped_plain c s h i j = rw (replace_char, h, i, j) refl

-- A character is read back as it was, before any text.
IsReadBack : Char → String → Type 0
IsReadBack c s = unescaped (escaped (S.◌∷◌ c s)) ≡ S.◌∷◌ c (unescaped (escaped s))

read_char : (c : Char) (s : String) → eqb (code c) 0x5c ≡ false → IsReadBack c s
unfolding IsReadBack
read_char c s h = elim (Bool-cases (eqb (code c) 0x0a)) [
  | inl e ↦
      subst (λ d. IsReadBack d s) (Char-path newline c (sym (eqb_eq _ _ e)))
        (ap unescaped (escaped-newline s) ∙ unescaped-newline (escaped s))
  | inr i ↦ elim (Bool-cases (eqb (code c) 0x22)) [
    | inl e ↦
        subst (λ d. IsReadBack d s) (Char-path quote c (sym (eqb_eq _ _ e)))
          (ap unescaped (escaped-quote s) ∙ unescaped-quote (escaped s))
    | inr j ↦ ap unescaped (escaped_plain c s h i j) ∙ unescaped_plain c (escaped s) h
  ]
]

unescaped-escaped : (s : String) → HasNoBackslash s → unescaped (escaped s) ≡ s
unfolding HasNoBackslash IsReadBack unescaped escaped replace_char replace_escape
unescaped-escaped S.[] h = refl
unescaped-escaped (S.◌∷◌ c s) (h, hs) = read_char c s h ∙ ap (S.◌∷◌ c) (unescaped-escaped s hs)

-- The quotes around a text.
snoc_cases :
    (P : String → Type 0) (c : Char) (s : String)
    → ((d : Char) (t : String) → P (S.◌∷◌ d t))
    → P (S.◌++◌ s (S.◌∷◌ c S.[]))
snoc_cases P c S.[] f = subst P (sym (append.nil (S.◌∷◌ c S.[]))) (f c S.[])
snoc_cases P c (S.◌∷◌ e s) f =
    subst P (sym (append.cons e s (S.◌∷◌ c S.[]))) (f e (S.◌++◌ s (S.◌∷◌ c S.[])))

ends_by-append :
    (c : Char) (q : ℕ) (s : String) → ends_by q (S.◌++◌ s (S.◌∷◌ c S.[])) ≡ eqb (code c) q
unfolding ends_by
ends_by-append c q S.[] = ap (ends_by q) (append.nil (S.◌∷◌ c S.[]))
ends_by-append c q (S.◌∷◌ e s) =
    ap (ends_by q) (append.cons e s (S.◌∷◌ c S.[]))
    ∙ snoc_cases (λ x. ends_by q (S.◌∷◌ e x) ≡ ends_by q x) c s (λ d t. refl)
    ∙ ends_by-append c q s

but_last-append : (c : Char) (s : String) → but_last (S.◌++◌ s (S.◌∷◌ c S.[])) ≡ s
unfolding but_last
but_last-append c S.[] = ap but_last (append.nil (S.◌∷◌ c S.[]))
but_last-append c (S.◌∷◌ e s) =
    ap but_last (append.cons e s (S.◌∷◌ c S.[]))
    ∙ snoc_cases (λ x. but_last (S.◌∷◌ e x) ≡ S.◌∷◌ e (but_last x)) c s (λ d t. refl)
    ∙ ap (S.◌∷◌ e) (but_last-append c s)

rstrip_cons :
    (e : Char) (x : String) → rstrip x ≡ x → (x == "") ≡ false → rstrip (S.◌∷◌ e x) ≡ S.◌∷◌ e x
unfolding rstrip
rstrip_cons e x p h =
    ap (λ y. if is_space e && (y == "") then "" else S.◌∷◌ e y) p ∙ elim (Bool-cases (is_space e)) [
      | inl b ↦ ap (λ z. if z then "" else S.◌∷◌ e x) (ap (λ z. z && (x == "")) b ∙ h)
      | inr b ↦ ap (λ z. if z && (x == "") then "" else S.◌∷◌ e x) b
    ]

rstrip-append :
    (c : Char) (s : String)
    → is_space c ≡ false
    → rstrip (S.◌++◌ s (S.◌∷◌ c S.[])) ≡ S.◌++◌ s (S.◌∷◌ c S.[])
unfolding rstrip
rstrip-append c S.[] h =
    subst (λ x. rstrip x ≡ x) (sym (append.nil (S.◌∷◌ c S.[])))
      (ap (λ z. if z && true then "" else S.◌∷◌ c S.[]) h)
rstrip-append c (S.◌∷◌ e s) h =
    subst (λ x. rstrip x ≡ x) (sym (append.cons e s (S.◌∷◌ c S.[])))
      (rstrip_cons e _ (rstrip-append c s h)
        (snoc_cases (λ x. (x == "") ≡ false) c s (λ d t i. is_eq (compare.cons-nil d t i))))

-- The text between the quotes, with the last of them.
closed : String → String
closed value = S.◌++◌ (escaped value) (S.◌∷◌ quote S.[])

yaml_quote-closed : (value : String) → yaml_quote value ≡ S.◌∷◌ quote (closed value)
unfolding yaml_quote fstring closed
yaml_quote-closed value =
    ap (λ x. S.◌++◌ "\"" (S.◌++◌ (escaped value) x)) (append_one quote S.[])
    ∙ append_one quote (closed value)

strip-closed : (value : String) → strip (S.◌∷◌ quote (closed value)) ≡ S.◌∷◌ quote (closed value)
unfolding strip lstrip rstrip is_space closed
strip-closed value = ap (S.◌∷◌ quote) (rstrip-append quote (escaped value) refl)

-- A text without a backslash is, once quoted, read back as it was, with its quotes, its newlines and the
-- white space at its ends.
pub unquote-yaml_quote :
    (value : String) → HasNoBackslash value → unquote (yaml_quote value) ≡ value
unfolding unquote is_quoted inner closed
unquote-yaml_quote value h =
    ap
      (λ s.
        if is_quoted 0x22 s then unescaped (inner s) else if is_quoted 0x27 s then inner s else s)
      (ap strip (yaml_quote-closed value) ∙ strip-closed value)
    ∙ ap
        (λ b.
          if b
          then unescaped (but_last (closed value))
          else if is_quoted 0x27 (S.◌∷◌ quote (closed value))
          then inner (S.◌∷◌ quote (closed value))
          else S.◌∷◌ quote (closed value))
        (ends_by-append quote 0x22 (escaped value))
    ∙ ap unescaped (but_last-append quote (escaped value))
    ∙ unescaped-escaped value h
