-- ===== src/Bootstrap/Commands/Quoting.antt =====
-- What /bin/sh reads of the text that `shellQuote` of internal/bootstrap/bootstrap.go makes.
use mini_control_action.Prelude.{
  append_assoc, ℕ, ◌≡◌, refl, sym, ap, zero, suc, ◌∙◌, Bool, Option, none, some, List, [], ◌∷◌,
  ◌++◌, any, Text, codes, ◌==◌, ==_iff, Bool-cases, inl, inr, if◌then◌else◌,
}
use mini_control_action.Bootstrap.Commands.{replace_quotes, stage_command}

-- A word of the POSIX shell language, by its quoting rules: outside quotes, within single quotes, and
-- after a backslash.
pub data Mode : Type 0 where
  bare quoted escaped : Mode

-- An unquoted one of these ends a word: a blank or an operator.
abbrev ends_word : ℕ → Bool
ends_word c = any (λ x. x == c) (codes " \t\n|&;<>()")

-- An unquoted one of these expands to something else.
abbrev expands : ℕ → Bool
expands c = any (λ x. x == c) (codes "$`\"*?[#~")

abbrev after_byte : ℕ → Option (Text × Text) → Option (Text × Text)
after_byte c none = none
after_byte c (some (word, rest)) = some (c ∷ word, rest)

-- The first word of a command and what follows it; `none` where it is more than quoted bytes.
unfoldable pub read_word : Mode → Text → Option (Text × Text)
read_word bare [] = some ([], [])
read_word quoted [] = none
read_word escaped [] = none
read_word bare (c ∷ s) =
    let ended = some ([], c ∷ s) in
    let into = read_word quoted s in
    let escape = read_word escaped s in
    let on = after_byte c (read_word bare s) in
    if ends_word c
    then ended
    else if c == 39
    then into
    else if c == 92
    then escape
    else if expands c
    then none
    else on
read_word quoted (c ∷ s) =
    let out = read_word bare s in
    let on = after_byte c (read_word quoted s) in if c == 39 then out else on
read_word escaped (c ∷ s) = after_byte c (read_word bare s)

read_word-quoted :
    (s rest : Text)
    → read_word quoted (replace_quotes (codes "'\\''") s ++ 39 ∷ b' ' ∷ rest)
      ≡ some (s, b' ' ∷ rest)
unfolding read_word replace_quotes codes
read_word-quoted [] rest = refl
read_word-quoted (c ∷ s) rest = elim (Bool-cases (c == 39)) [
  | inl e ↦
      rw e (
        rw (read_word-quoted s rest)
          (ap (λ x. some (x ∷ s, b' ' ∷ rest)) (sym ((==_iff c 39).0 e))))
  | inr e ↦ rw e (rw e (rw (read_word-quoted s rest) refl))
]

quoted_then :
    (s rest : Text)
    → read_word quoted ((replace_quotes (codes "'\\''") s ++ 39 ∷ []) ++ b' ' ∷ rest)
      ≡ some (s, b' ' ∷ rest)
quoted_then s rest =
    ap (read_word quoted) (append_assoc (replace_quotes (codes "'\\''") s) (39 ∷ []) (b' ' ∷ rest))
    ∙ read_word-quoted s rest

abbrev put_word : Text → Option (List Text) → Option (List Text)
put_word word none = none
put_word word (some words) = some (word ∷ words)

-- Words with a blank between them.
abbrev next_word : Option (Text × Text) → (Text → Option (List Text)) → Option (List Text)
next_word none f = none
next_word (some (word, [])) f = none
next_word (some (word, c ∷ rest)) f = put_word word (f rest)

unfoldable pub first_words : ℕ → Text → Option (List Text)
unfolding read_word
first_words zero s = some []
first_words (suc n) s = next_word (read_word bare s) (first_words n)

-- `shellQuote` loses nothing: of the command of `StageCommand` the shell reads `printf`, `%s` and then
-- one word, which is the encoded script, whatever bytes it has; nothing in it is expanded or run.
pub stage_command_words :
    (base64 : Text → Text) (script jit_config : Text)
    → first_words 3 (stage_command base64 script jit_config)
      ≡ some (codes "printf" ∷ codes "%s" ∷ base64 script ∷ [])
unfolding first_words stage_command codes
stage_command_words base64 script jit_config =
    ap (λ r. put_word (codes "printf") (put_word (codes "%s") (next_word r (first_words 0))))
      (quoted_then (base64 script) _)
