-- ===== src/Config/Load/Expansion.antt =====
-- What `expandEnv` of internal/config/config.go makes of a text with references to the environment.
use mini_control_action.Prelude.{
  ℕ, suc, ◌+◌, ◌≡◌, refl, ap, ◌∙◌, Bool, true, false, not, ◌&&◌, ◌==◌, none, some, List, [], ◌∷◌,
  ◌++◌, all, Text, length, is_digit, arith, if◌then◌else◌,
}
use mini_control_action.Config.Load.{
  starts_name, in_name, read_name, read_ref, put_value, expand, expand_env,
}

-- A text as pieces: bytes that are no `$`, and references to variables.
pub data Piece : Type 0 where
  byte : ℕ → Piece
  ref : Text → Piece

abbrev pub is_name : Text → Bool
is_name [] = false
is_name (c ∷ s) = starts_name c && all in_name s

abbrev pub is_proper : Piece → Bool
is_proper (byte c) = not (c == b'$')
is_proper (ref name) = is_name name

abbrev pub write : List Piece → Text
write [] = []
write (byte c ∷ ps) = c ∷ write ps
write (ref name ∷ ps) = b'$' ∷ b'{' ∷ (name ++ b'}' ∷ write ps)

abbrev pub value : (Text → Text) → List Piece → Text
value env [] = []
value env (byte c ∷ ps) = c ∷ value env ps
value env (ref name ∷ ps) = env name ++ value env ps

no_brace : (c : ℕ) → in_name c ≡ true → (c == b'}') ≡ false
unfolding in_name starts_name is_digit
no_brace c h = ground arith

left_true : (a b : Bool) → a && b ≡ true → a ≡ true
left_true a b h = ground arith

starts_in : (c : ℕ) (b : Bool) → starts_name c && b ≡ true → in_name c && b ≡ true
unfolding in_name
starts_in c b h = ground arith

read_name-name : (n rest : Text) → all in_name n ≡ true → read_name (n ++ b'}' ∷ rest) ≡ some n
unfolding read_name
read_name-name [] rest h = refl
read_name-name (c ∷ n) rest h =
    let rest_read = read_name-name n rest (ground arith) in
    rw (no_brace c (ground arith))
      (rw (left_true (in_name c) (all in_name n) h) (rw rest_read refl))

read_ref-byte : (c : ℕ) (s : Text) → not (c == b'$') ≡ true → read_ref (c ∷ s) ≡ none
unfolding read_ref
read_ref-byte c [] h = refl
read_ref-byte c (d ∷ []) h = refl
read_ref-byte c (d ∷ e ∷ s) h = ground arith

read_ref-name :
    (name rest : Text)
    → is_name name ≡ true
    → read_ref (b'$' ∷ b'{' ∷ (name ++ b'}' ∷ rest)) ≡ some name
unfolding read_ref
read_ref-name [] rest h = absurd (cc)
read_ref-name (c ∷ n) rest h =
    ap (λ b. if b then read_name (c ∷ n ++ b'}' ∷ rest) else none)
      (left_true (starts_name c) (all in_name n) h)
    ∙ read_name-name (c ∷ n) rest (starts_in c (all in_name n) h)

expand-skip :
    (env : Text → Text) (n rest : Text)
    → expand env (length n + 1) (n ++ b'}' ∷ rest) ≡ expand env 0 rest
unfolding expand
expand-skip env [] rest = refl
expand-skip env (c ∷ n) rest =
    ap (λ k. expand env k (c ∷ (n ++ b'}' ∷ rest))) {x = suc (length n) + 1}
      {y = suc (length n + 1)} (omega arith)
    ∙ expand-skip env n rest

-- `expandEnv` puts the value of each variable in the place of its reference, and changes nothing else:
-- it makes of any text that is written from bytes other than `$` and from references `${NAME}` the
-- bytes and the values, in order. A value is not expanded again.
pub expand_env-write :
    (env : Text → Text) (ps : List Piece)
    → all is_proper ps ≡ true
    → expand_env env (write ps) ≡ value env ps
unfolding expand read_ref
expand_env-write env [] h = refl
expand_env-write env (byte c ∷ ps) h =
    ap (λ r. put_value env c r (λ k. expand env k (write ps)))
      (read_ref-byte c (write ps) (left_true (not (c == b'$')) (all is_proper ps) h))
    ∙ ap (λ t. c ∷ t) (expand_env-write env ps (ground arith))
expand_env-write env (ref name ∷ ps) h =
    ap (λ r. put_value env b'$' r (λ k. expand env k (b'{' ∷ (name ++ b'}' ∷ write ps))))
      (read_ref-name name (write ps) (left_true (is_name name) (all is_proper ps) h))
    ∙ ap (λ t. env name ++ t)
        (ap (λ k. expand env k (b'{' ∷ (name ++ b'}' ∷ write ps))) {x = length name + 2}
            {y = suc (length name + 1)} (omega arith)
          ∙ (expand-skip env name (write ps) ∙ expand_env-write env ps (ground arith)))
