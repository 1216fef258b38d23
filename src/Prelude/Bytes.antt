-- ===== src/Prelude/Bytes.antt =====
-- Go strings are sequences of bytes: text is a list of numbers. `text_eq` and `codes` stay shut, so
-- that a comparison with a literal is one unknown to the tactics.
use Prim.Native.Nat.{ℕ, zero, suc, ◌+◌, ◌/◌, ◌%◌, ◌<◌}
use Prim.Native.Char.{code}
use Prim.Native.String.{String}
use mathlib.Core.Path.{◌≡◌, refl}
use mathlib.Core.Logic.{◌↔◌}
use mathlib.Core.Bool.{Bool, true, false, ◌&&◌}
use mathlib.Core.Option.{Option, none, some}
use mathlib.Core.List.{List, [], ◌∷◌, ◌++◌}
use native.Mathlib.Omega.{arith}
use mini_control_action.Prelude.Tests.{◌==◌, ltb, if◌then◌else◌, ℤ, pos, negsuc}
use mini_control_action.Prelude.Lists.{length}

abbrev pub Text : Type 0
Text = List ℕ

unfoldable pub codes : String → Text
codes String.[] = []
codes (String.◌∷◌ c s) = code c ∷ codes s

unfoldable pub text_eq : Text → Text → Bool
text_eq [] [] = true
text_eq [] (d ∷ t) = false
text_eq (c ∷ s) [] = false
text_eq (c ∷ s) (d ∷ t) = c == d && text_eq s t

pub text_eq_iff : (s t : Text) → (text_eq s t ≡ true) ↔ (s ≡ t)
unfolding text_eq
text_eq_iff [] [] = ground arith
text_eq_iff [] (d ∷ t) = ground arith
text_eq_iff (c ∷ s) [] = ground arith
text_eq_iff (c ∷ s) (d ∷ t) = ground (arith, text_eq_iff s t)

pub text_eq_refl : (s : Text) → text_eq s s ≡ true
text_eq_refl s = (text_eq_iff s s).1 refl

-- s == "lit"
unfoldable pub is_lit : Text → String → Bool
unfolding text_eq codes
is_lit s l = text_eq s (codes l)

-- s == ""
abbrev pub is_empty {ℓ} : {A : Type ℓ} → List A → Bool
is_empty [] = true
is_empty (_ ∷ _) = false

-- strings.CutPrefix: the rest of `s` after the prefix `p`
unfoldable pub cut_prefix : Text → Text → Option Text
cut_prefix [] s = some s
cut_prefix (c ∷ p) [] = none
cut_prefix (c ∷ p) (d ∷ s) = let rest = cut_prefix p s in if c == d then rest else none

abbrev pub is_some {ℓ} : {A : Type ℓ} → Option A → Bool
is_some none = false
is_some (some _) = true

-- strings.HasPrefix
unfoldable pub has_prefix : Text → Text → Bool
unfolding cut_prefix
has_prefix s p = is_some (cut_prefix p s)

pub cut_prefix-append : (p s : Text) → cut_prefix p (p ++ s) ≡ some s
unfolding cut_prefix
cut_prefix-append [] s = refl
cut_prefix-append (c ∷ p) s = ground (arith, cut_prefix-append p s)

pub cut_prefix-eq-some : (p s r : Text) → cut_prefix p s ≡ some r → s ≡ p ++ r
unfolding cut_prefix
cut_prefix-eq-some [] s r h = ground arith
cut_prefix-eq-some (c ∷ p) [] r h = ground arith
cut_prefix-eq-some (c ∷ p) (d ∷ s) r h = ground (arith, cut_prefix-eq-some p s r)

-- fmt's %d: decimal digits, most significant first; `fuel` bounds their number
decimal_go : ℕ → ℕ → Text → Text
decimal_go zero n acc = acc
decimal_go (suc fuel) n acc =
    let acc' = (48 + n % 10) ∷ acc in
    let rest = decimal_go fuel (n / 10) acc' in if ltb n 10 then acc' else rest

-- an int64 has at most 19 digits
unfoldable pub decimal : ℕ → Text
unfolding decimal_go
decimal n = decimal_go 20 n []

length-decimal_go : (f n : ℕ) (acc : Text) → length (decimal_go f n acc) < f + length acc + 1
unfolding decimal_go
length-decimal_go zero n acc = omega arith
length-decimal_go (suc f) n acc = ground (arith, length-decimal_go f (n / 10) ((48 + n % 10) ∷ acc))

pub length-decimal : (n : ℕ) → length (decimal n) < 21
unfolding decimal
length-decimal n = omega (arith, length-decimal_go 20 n [])

unfoldable pub int_decimal : ℤ → Text
unfolding decimal
int_decimal (pos n) = decimal n
int_decimal (negsuc n) = b'-' ∷ decimal (n + 1)
