-- ===== src/Config/Stable.antt =====
-- `applyDefaults` of internal/config/config.go, applied again.
use mini_control_action.Prelude.{◌≡◌, refl, List, [], ◌∷◌, ℤ, pos, negsuc, ℕ, zero, suc}
use mini_control_action.Config.{Config}
use mini_control_action.Config.Defaults.{apply_defaults, or_list, or_int, or_duration}

or_list_twice {ℓ} :
    {A : Type ℓ} (xs : List A) (d : A) (ds : List A)
    → or_list (or_list xs (d ∷ ds)) (d ∷ ds) ≡ or_list xs (d ∷ ds)
or_list_twice [] d ds = refl
or_list_twice (x ∷ xs) d ds = refl

or_int_twice : (i : ℤ) (n : ℕ) → or_int (or_int i (pos n)) (pos n) ≡ or_int i (pos n)
or_int_twice (pos zero) zero = refl
or_int_twice (pos zero) (suc n) = refl
or_int_twice (pos (suc i)) n = refl
or_int_twice (negsuc i) n = refl

or_duration_twice : (n d : ℕ) → or_duration (or_duration n d) d ≡ or_duration n d
or_duration_twice zero zero = refl
or_duration_twice zero (suc d) = refl
or_duration_twice (suc n) d = refl

-- Defaults change nothing when they have been applied already.
pub apply_defaults_twice : (c : Config) → apply_defaults (apply_defaults c) ≡ apply_defaults c
unfolding apply_defaults
apply_defaults_twice c = simp (or_list_twice, or_int_twice, or_duration_twice)
