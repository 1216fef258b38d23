-- ===== src/Reconciler/Registrations.antt =====
-- internal/reconciler/reconciler.go: `runnerScopes` and `cleanRunners`, the last part of `Sweep`. The
-- map of live VMs is the list of their IDs.
pub mod Kept
use mini_control_action.Prelude.{
  ℕ, Bool, true, false, not, ◌&&◌, ◌||◌, Option, none, some, List, [], ◌∷◌, ◌++◌, any, keep_if,
  Text, codes, is_lit, text_eq, is_empty, cut_prefix, cut_text, has_prefix, if◌then◌else◌,
}
use mini_control_action.Errors.{Result, ok, err}
use mini_control_action.Config.{Config, GitHub, repo_full_name}
use mini_control_action.State.{Record}
use mini_control_action.State.Store.{Store, list}
use mini_control_action.Github.{Runner, reapable}
use mini_control_action.Github.Api.{Server, Client, G, ◌>>=◌, ◌>>◌, pure}
use mini_control_action.Github.Runners.{list_runners, remove_runner}

unfoldable pub record_repos : List Text → List Record → List Text
record_repos seen [] = []
record_repos seen (r ∷ rs) =
    let new = r.repo ∷ record_repos (r.repo ∷ seen) rs in
    let rest = record_repos seen rs in
    if not (is_empty r.repo) && not (any (text_eq r.repo) seen) then new else rest

-- `runnerScopes`
unfoldable pub runner_scopes : GitHub → Store → List Text
unfolding repo_full_name record_repos list
runner_scopes g s =
    if is_lit g.scope "org"
    then [] ∷ []
    else if is_lit g.scope "repo"
    then repo_full_name g ∷ []
    else record_repos [] (list s)

-- A VM whose ID begins with the text is alive.
abbrev pub is_alive : List Text → Text → Bool
is_alive live vmid8 = any (λ id. has_prefix id vmid8) live

unfoldable pub names_dead : List Text → Option (Text × Text) → Bool
names_dead live none = false
names_dead live (some (vmid8, rest)) = not (is_alive live vmid8)

-- The text behind the prefix and its dash.
unfoldable pub is_unowned : List Text → Option Text → Bool
unfolding names_dead cut_text
is_unowned live none = false
is_unowned live (some rest) = names_dead live (cut_text (codes "-j") rest)

-- The runners that the loop over a repository's runners removes.
unfoldable pub is_stale : Text → List Text → Runner → Bool
unfolding is_unowned reapable cut_prefix
is_stale prefix live rn = reapable rn && is_unowned live (cut_prefix (prefix ++ codes "-") rn.name)

module _ (cfg : Config) (server : Server) (live : List Text) where
  -- A removal that fails is only logged.
  unfoldable pub try_remove : Text → Runner → G (Unit {0})
  unfolding remove_runner
  try_remove repo rn c = (ok tt, (remove_runner cfg.github server repo rn.id c).1)

  unfoldable pub remove_stale : Text → List Runner → G (Unit {0})
  unfolding is_stale try_remove pure
  remove_stale repo [] = pure tt
  remove_stale repo (rn ∷ runners) =
      if is_stale cfg.runner.name_prefix live rn
      then try_remove repo rn >> remove_stale repo runners
      else remove_stale repo runners

  -- A repository whose runners cannot be listed is left out.
  abbrev after_runners : Text → Result (List Runner) → G (Unit {0})
  after_runners repo (ok runners) = remove_stale repo runners
  after_runners repo (err e) = pure tt

  unfoldable pub clean_repo : Text → G (Unit {0})
  unfolding list_runners remove_stale pure
  clean_repo repo c = let (r, c') = list_runners cfg.github server repo c in after_runners repo r c'

  unfoldable pub clean_repos : List Text → G (Unit {0})
  unfolding clean_repo pure
  clean_repos [] = pure tt
  clean_repos (repo ∷ repos) = clean_repo repo >> clean_repos repos

  -- `cleanRunners`
  unfoldable pub clean_runners : Store → G (Unit {0})
  unfolding runner_scopes clean_repos
  clean_runners s = clean_repos (runner_scopes cfg.github s)
