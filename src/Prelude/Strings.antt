-- ===== src/Prelude/Strings.antt =====
-- The functions of Go's `strings` and `strconv` that the program calls, on ASCII text.
use Prim.Native.Nat.{ℕ, zero, suc, ◌+◌, ◌-◌, ◌*◌}
use mathlib.Core.Bool.{Bool, ◌&&◌, ◌||◌}
use mathlib.Core.Option.{Option, none, some}
use mathlib.Core.List.{[], ◌∷◌, ◌++◌, reverse, map}
use mini_control_action.Prelude.Tests.{◌==◌, ltb, leb, if◌then◌else◌, ℤ, pos, negsuc}
use mini_control_action.Prelude.Lists.{length, take}
use mini_control_action.Prelude.Bytes.{Text, codes, cut_prefix, is_some}

unfoldable pub is_space : ℕ → Bool
is_space c = (leb 9 c && leb c 13) || c == 32

unfoldable pub trim_left : Text → Text
unfolding is_space
trim_left [] = []
trim_left (c ∷ s) = let rest = trim_left s in if is_space c then rest else c ∷ s

-- strings.TrimSpace
unfoldable pub trim_space : Text → Text
unfolding trim_left
trim_space s = reverse (trim_left (reverse (trim_left s)))

unfoldable pub to_lower_byte : ℕ → ℕ
to_lower_byte c = if leb 65 c && leb c 90 then c + 32 else c

-- strings.ToLower
unfoldable pub to_lower : Text → Text
unfolding to_lower_byte
to_lower s = map to_lower_byte s

unfoldable pub is_digit : ℕ → Bool
is_digit c = leb 48 c && leb c 57

unfoldable pub digits_value : ℕ → Text → Option ℕ
unfolding is_digit
digits_value acc [] = some acc
digits_value acc (c ∷ s) = if is_digit c then digits_value (acc * 10 + (c - 48)) s else none

abbrev in_int_range : (ℕ → ℤ) → ℕ → Option ℕ → Option ℤ
in_int_range sign limit none = none
in_int_range sign limit (some n) = if ltb limit n then none else some (sign n)

abbrev negate : ℕ → ℤ
negate zero = pos 0
negate (suc n) = negsuc n

unfoldable pub unsigned_value : Text → Option ℕ
unfolding digits_value
unsigned_value [] = none
unsigned_value (c ∷ s) = digits_value 0 (c ∷ s)

-- strconv.Atoi: an optional sign and digits, in the range of an int64
unfoldable pub atoi : Text → Option ℤ
unfolding unsigned_value
atoi [] = none
atoi (c ∷ s) =
    if c == b'-'
    then in_int_range negate 9223372036854775808 (unsigned_value s)
    else if c == b'+'
    then in_int_range pos 9223372036854775807 (unsigned_value s)
    else in_int_range pos 9223372036854775807 (unsigned_value (c ∷ s))

-- strings.Cut: what stands before and after the first occurrence of `sep`
unfoldable pub cut_text : Text → Text → Option (Text × Text)
unfolding cut_prefix
cut_text sep [] = elim (cut_prefix sep []) [ none ↦ none | some rest ↦ some ([], rest) ]
cut_text sep (c ∷ s) =
    let later = cut_text sep s in
    elim (cut_prefix sep (c ∷ s)) [
      | some rest ↦ some ([], rest)
      | none ↦ elim later [ none ↦ none | some (head, rest) ↦ some (c ∷ head, rest) ]
    ]

abbrev is_suffix_of : Text → Text → Bool
is_suffix_of p s = is_some (cut_prefix (reverse p) (reverse s))

-- strings.HasSuffix
unfoldable pub has_suffix : Text → Text → Bool
unfolding cut_prefix
has_suffix s p = is_suffix_of p s

-- strings.Contains
unfoldable pub contains : Text → Text → Bool
unfolding cut_text
contains s sep = is_some (cut_text sep s)

-- `if len(s) > n { return s[:n] + "..." }`, which the scaler and the GitHub client both declare
unfoldable pub truncate : Text → ℕ → Text
unfolding codes
truncate s n = if ltb n (length s) then take n s ++ codes "..." else s
