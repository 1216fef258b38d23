-- ===== src/Github/Repos.antt =====
-- `ListAccessibleRepos` of internal/githubapp/client.go, and the choice of repositories in `poll` of
-- internal/githubapp/poller.go.
pub mod Chosen
use mini_control_action.Prelude.{
  ℕ, zero, suc, ◌+◌, ◌*◌, ◌-◌, Bool, true, false, ◌&&◌, not, Option, none, some, List, [], ◌∷◌,
  ◌++◌, Text, ℤ, pos, length, ltb, codes, decimal, is_empty, int_le, if◌then◌else◌,
}
use mini_control_action.Github.Api.{
  RepoJson, RepoInfo, Server, Client, G, ◌>>=◌, ◌>>◌, pure, gets, change, call, get_request,
}

abbrev pub repo_cache_ttl : ℕ
repo_cache_ttl = 300 * 1000000000

abbrev repo_page_cap : ℕ
repo_page_cap = 10

unfoldable pub repos_path : ℕ → Text
unfolding codes decimal
repos_path page =
    codes "/user/repos?per_page=100&page=" ++ (decimal page ++ codes "&sort=pushed&direction=desc")

abbrev pub info : RepoJson → Option ℕ → List RepoInfo
info r none = []
info r (some t) = if r.archived then [] else record { full_name = r.full_name; pushed_at = t } ∷ []

-- The repositories that are not archived and have been pushed to.
unfoldable pub infos : List RepoJson → List RepoInfo
infos [] = []
infos (r ∷ repos) = info r r.pushed_at ++ infos repos

-- Since the time `repo_at`, less than the cache's lifetime has passed at the time `now`.
unfoldable pub is_cached : ℕ → Client → Bool
is_cached now c = not (is_empty c.repo_cache) && ltb now (c.repo_at + repo_cache_ttl)

module _ (server : Server) where
  unfoldable pub repo_page :
      ℕ → List RepoInfo → (List RepoInfo → G (List RepoInfo)) → G (List RepoInfo)
  unfolding call repos_path infos pure
  repo_page page found rest = do
    repos ← call server [] (some server.json.repos) (get_request (repos_path page))
    (if ltb (length repos) 100 then pure (found ++ infos repos) else rest (found ++ infos repos))

  -- The pages that are left; what lies behind the last is not asked for.
  unfoldable pub repo_pages : ℕ → ℕ → List RepoInfo → G (List RepoInfo)
  unfolding repo_page pure
  repo_pages zero page found = pure found
  repo_pages (suc left) page found = repo_page page found (repo_pages left (page + 1))

  unfoldable pub discover : G (List RepoInfo)
  unfolding repo_pages gets change pure
  discover = do
    found ← repo_pages repo_page_cap 1 []
    now ← gets (λ c. server.time c.step)
    change (λ c. record c { repo_cache = found; repo_at = now })
    pure found

  -- `ListAccessibleRepos`
  unfoldable pub list_accessible_repos : G (List RepoInfo)
  unfolding discover gets pure is_cached
  list_accessible_repos = do
    cached ← gets (λ c. is_cached (server.time c.step) c)
    (if cached then gets (λ c. c.repo_cache) else discover)

-- The loop of `poll` over the repositories, the most recently pushed first: it stops at the first that
-- was pushed before the cutoff, and when there are `max_repos` of them.
unfoldable pub choose : ℕ → ℤ → ℕ → List RepoInfo → List Text
choose cutoff max_repos chosen [] = []
choose cutoff max_repos chosen (ri ∷ found) =
    let later = choose cutoff max_repos (chosen + 1) found in
    if ltb ri.pushed_at cutoff
    then []
    else if int_le max_repos (pos (chosen + 1))
    then ri.full_name ∷ []
    else ri.full_name ∷ later
