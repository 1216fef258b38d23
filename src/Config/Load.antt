-- ===== src/Config/Load.antt =====
-- `expandEnv` and `Load` of internal/config/config.go. The YAML decoder, the file system and the
-- environment are arguments.
pub mod Expansion
pub mod Checked
use mini_control_action.Prelude.{
  ℕ, zero, suc, ◌+◌, ◌-◌, Bool, true, false, not, ◌&&◌, ◌||◌, ◌==◌, Option, none, some, List, [],
  ◌∷◌, ◌++◌, Text, length, leb, is_digit, is_empty, if◌then◌else◌,
}
use mini_control_action.Config.{Config}
use mini_control_action.Config.Defaults.{apply_defaults}
use mini_control_action.Config.Validate.{Problem, validate}

-- [A-Za-z_]
unfoldable pub starts_name : ℕ → Bool
starts_name c = (leb 65 c && leb c 90) || ((leb 97 c && leb c 122) || c == b'_')

-- [A-Za-z0-9_]
unfoldable pub in_name : ℕ → Bool
unfolding starts_name is_digit
in_name c = starts_name c || is_digit c

-- The bytes of a name up to the closing brace.
unfoldable pub read_name : Text → Option Text
unfolding in_name
read_name [] = none
read_name (c ∷ s) =
    let rest = read_name s in
    if c == b'}'
    then some []
    else if in_name c
    then elim rest [ none ↦ none | some n ↦ some (c ∷ n) ]
    else none

unfoldable pub read_ref : Text → Option Text
unfolding starts_name read_name
read_ref [] = none
read_ref (c ∷ []) = none
read_ref (c ∷ d ∷ []) = none
read_ref (c ∷ d ∷ e ∷ s) =
    if c == b'$' && (d == b'{' && starts_name e) then read_name (e ∷ s) else none

-- The byte `c`, or the value of the variable whose reference begins there.
abbrev pub put_value : (Text → Text) → ℕ → Option Text → (ℕ → Text) → Text
put_value env c none later = c ∷ later 0
put_value env c (some name) later = env name ++ later (length name + 2)

-- `ReplaceAllFunc`: the references from the left; `skip` counts what is left of one that was replaced.
unfoldable pub expand : (Text → Text) → ℕ → Text → Text
unfolding read_ref
expand env skip [] = []
expand env (suc skip) (c ∷ s) = expand env skip s
expand env zero (c ∷ s) = put_value env c (read_ref (c ∷ s)) (λ skip. expand env skip s)

-- `expandEnv`
abbrev pub expand_env : (Text → Text) → Text → Text
expand_env env s = expand env 0 s

pub data Loaded : Type 0 where
  unreadable malformed : Loaded
  invalid : List Problem → Loaded
  loaded : Config → Loaded

-- A configuration without problems is valid.
abbrev pub checked : Config → List Problem → Loaded
checked cfg [] = loaded cfg
checked cfg (p ∷ problems) = invalid (p ∷ problems)

abbrev pub after_decode : Option Config → Loaded
after_decode none = malformed
after_decode (some cfg) = checked (apply_defaults cfg) (validate (apply_defaults cfg))

-- `Load`
unfoldable pub load : (Text → Text) → (Text → Option Config) → Option Text → Loaded
unfolding expand apply_defaults validate
load env decode none = unreadable
load env decode (some raw) = after_decode (decode (expand_env env raw))
