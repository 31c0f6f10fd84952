-- ===== src/Examples/Personas.antt =====
-- Texts of the personas file.
use newbro.Prelude.{◌≡◌, refl}
use newbro.Prelude.Text.{fstring, strip, lstrip, rstrip, is_space}
use newbro.Nodes.Rendering.{replace_char}
use newbro.Communication.Quoting.{
  escaped, yaml_quote, is_escape, replace_escape, unescaped, ends_by, is_quoted, but_last, inner,
  unquote,
}
use newbro.Communication.Quoting.Reading.{HasNoBackslash, unquote-yaml_quote}

unquote-yaml_quote_example : unquote (yaml_quote " \"a\n") ≡ " \"a\n"
unfolding HasNoBackslash
unquote-yaml_quote_example = unquote-yaml_quote " \"a\n" (refl, (refl, (refl, (refl, tt))))

-- The newline is looked for first, and found in what an escaped backslash and an `n` make.
unquote_backslash : unquote (yaml_quote "\\n") ≡ "\\\n"
unfolding escaped yaml_quote is_escape replace_escape unescaped ends_by is_quoted but_last inner
    unquote replace_char fstring strip lstrip rstrip is_space
unquote_backslash = refl

unquote_single : unquote " 'a\\n' " ≡ "a\\n"
unfolding is_escape replace_escape unescaped ends_by is_quoted but_last inner unquote strip lstrip
    rstrip is_space
unquote_single = refl
