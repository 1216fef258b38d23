-- ===== src/Config/Validate.antt =====
-- `Validate` of internal/config/config.go: all that is wrong, in the order of the source's checks.
use mini_control_action.Prelude.{
  ℕ, Bool, true, false, not, ◌&&◌, ◌||◌, List, [], ◌∷◌, ◌++◌, any, length, ltb, Text, pos, is_lit,
  is_empty, has_prefix, codes, int_le, if◌then◌else◌,
}
use mini_control_action.Config.{Config, GitHub}

pub data Problem : Type 0 where
  bad_level bad_format bad_scope : Text → Problem
  owner_and_repo_required owner_required token_required repos_required base_url_required : Problem
  api_key_prefix : ℕ → Problem
  sku_required self_hosted_required : Problem
  too_many_labels : ℕ → Problem
  too_few_vms : Problem

-- `if test { bad(p) }`
abbrev pub bad : Bool → Problem → List Problem
bad true p = p ∷ []
bad false p = []

unfoldable pub known_level : Text → Bool
known_level l = is_lit l "debug" || (is_lit l "info" || (is_lit l "warn" || is_lit l "error"))

unfoldable pub known_format : Text → Bool
known_format f = is_lit f "json" || is_lit f "text"

unfoldable pub scope_problems : GitHub → List Problem
scope_problems g =
    if is_lit g.scope "all"
    then []
    else if is_lit g.scope "repo"
    then bad (is_empty g.owner || is_empty g.repo) owner_and_repo_required
    else if is_lit g.scope "org"
    then bad (is_empty g.owner) owner_required
    else bad_scope g.scope ∷ []

abbrev is_self_hosted : Text → Bool
is_self_hosted l = is_lit l "self-hosted"

-- The configuration is accepted if there is no problem.
unfoldable pub validate : Config → List Problem
unfolding known_level known_format scope_problems
validate c =
    bad (not (known_level c.log.level)) (bad_level c.log.level)
    ++ (bad (not (known_format c.log.format)) (bad_format c.log.format)
        ++ (scope_problems c.github
            ++ (bad (is_empty c.github.token) token_required
                ++ (bad (is_lit c.github.scope "org" && is_empty c.github.poll.repos) repos_required
                    ++ (bad (is_empty c.minicontrol.base_url) base_url_required
                        ++ (bad (not (has_prefix c.minicontrol.api_key (codes "mck_")))
                              (api_key_prefix (length c.minicontrol.api_key))
                            ++ (bad (is_empty c.minicontrol.sku) sku_required
                                ++ (bad (not (any is_self_hosted c.runner.labels))
                                      self_hosted_required
                                    ++ (bad (ltb 100 (length c.runner.labels))
                                          (too_many_labels (length c.runner.labels))
                                        ++ bad (not (int_le (pos 1) c.limits.max_concurrent_vms))
                                            too_few_vms)))))))))
