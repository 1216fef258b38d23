-- ===== src/Config/Accepted.antt =====
-- What a configuration must set: `applyDefaults` and `Validate` of internal/config/config.go together.
use mini_control_action.Prelude.{
  ◌≡◌, ◌≢◌, ◌↔◌, refl, Bool, true, false, not, List, [], ◌∷◌, ◌++◌, Text, pos, is_empty, is_lit,
  text_eq, has_prefix, codes, arith, length,
}
use mini_control_action.Config.{Config}
use mini_control_action.Config.Defaults.{apply_defaults}
use mini_control_action.Config.Validate.{
  Problem, bad, validate, known_level, known_format, scope_problems, token_required,
  base_url_required, api_key_prefix, sku_required,
}

bad_iff :
    (b : Bool) (p : Problem) (xs : List Problem) → (bad b p ++ xs ≡ []) ↔ ((b ≡ false) × (xs ≡ []))
bad_iff true p xs = (λ h. absurd (cc), λ h. absurd (cc))
bad_iff false p xs = (λ h. (refl, h), λ h. h.1)

filled_iff : (s : Text) → (is_empty s ≡ false) ↔ (s ≢ [])
filled_iff [] = (λ h. absurd (cc), λ h. absurd (h refl))
filled_iff (c ∷ s) = (λ h e. absurd (cc), λ h. refl)

-- What is left of the checks when all that has a default is unset.
abbrev required : Config → List Problem
required c =
    bad (is_empty c.github.token) token_required
    ++ (bad (is_empty c.minicontrol.base_url) base_url_required
        ++ (bad (not (has_prefix c.minicontrol.api_key (codes "mck_")))
              (api_key_prefix (length c.minicontrol.api_key))
            ++ (bad (is_empty c.minicontrol.sku) sku_required ++ [])))

pub record IsUnset (c : Config) : Type 0 where
  pub level : c.log.level ≡ []
  pub format : c.log.format ≡ []
  pub scope : c.github.scope ≡ []
  pub labels : c.runner.labels ≡ []
  pub vms : c.limits.max_concurrent_vms ≡ pos 0

validate-required : (c : Config) → IsUnset c → validate (apply_defaults c) ≡ required c
unfolding validate apply_defaults known_level known_format scope_problems codes is_lit text_eq
validate-required c u = rw (u.level, u.format, u.scope, u.labels, u.vms) refl

-- With everything unset that has a default and is checked (the log's level and format, the scope, the
-- labels and the number of VMs), a configuration is accepted, after the defaults, exactly if its token,
-- base URL and SKU are set and its API key begins with `mck_`.
pub defaults_accepted_iff :
    (c : Config)
    → IsUnset c
    → (validate (apply_defaults c) ≡ []) ↔ (
        (c.github.token ≢ [])
        × (c.minicontrol.base_url ≢ [])
        × (has_prefix c.minicontrol.api_key (codes "mck_") ≡ true)
        × (c.minicontrol.sku ≢ []))
defaults_accepted_iff c u = rw (validate-required c u) (
    ground (
      arith,
      bad_iff (is_empty c.github.token) token_required _,
      bad_iff (is_empty c.minicontrol.base_url) base_url_required _,
      bad_iff (not (has_prefix c.minicontrol.api_key (codes "mck_"))) _ _,
      bad_iff (is_empty c.minicontrol.sku) sku_required [],
      filled_iff c.github.token,
      filled_iff c.minicontrol.base_url,
      filled_iff c.minicontrol.sku,
    ))
