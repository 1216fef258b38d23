-- ===== src/Github/Runners.antt =====
-- The calls of internal/githubapp/client.go on runner registrations, on one job, and on the runner's
-- release.
pub mod Pages
pub mod Answers
use mini_control_action.Prelude.{
  ℕ, zero, suc, ◌+◌, ◌==◌, Bool, true, false, ◌&&◌, Option, none, some, List, [], ◌∷◌, ◌++◌, Text,
  ℤ, pos, length, ltb, codes, decimal, is_lit, is_empty, is_digit, cut_prefix, all, text_eq,
  if◌then◌else◌,
}
use mini_control_action.Errors.{
  Error, github, too_many_pages, bad_release_tag, no_asset, Result, ok, err,
}
use mini_control_action.Bootstrap.Commands.{asset_name}
use mini_control_action.Config.{GitHub}
use mini_control_action.Github.{Runner, JobRef, JobStatus}
use mini_control_action.Github.Api.{
  post, delete, Asset, Release, Server, Client, G, ◌>>=◌, ◌>>◌, pure, fail, get_request, call,
}

-- `runnersBase`
unfoldable pub runners_base : GitHub → Text → Text
unfolding codes
runners_base g repo =
    if is_lit g.scope "org"
    then codes "/orgs/" ++ (g.owner ++ codes "/actions/runners")
    else codes "/repos/"
      ++ ((if is_empty repo then g.owner ++ codes "/" ++ g.repo else repo)
          ++ codes "/actions/runners")

unfoldable pub page_path : Text → ℕ → Text
unfolding codes decimal
page_path base page = base ++ (codes "?per_page=100&page=" ++ decimal page)

abbrev pub page_size : ℕ
page_size = 100

abbrev pub page_cap : ℕ
page_cap = 20

abbrev release_path : Text
release_path = codes "/repos/actions/runner/releases/latest"

abbrev pub zero_status : JobStatus
zero_status = record { status = []; conclusion = []; runner_name = []; runner_id = 0; steps = [] }

abbrev pub job_path : JobRef → Text
job_path ref = codes "/repos/" ++ (ref.repo ++ (codes "/actions/jobs/" ++ decimal ref.job_id))

-- A 404 (already gone) is success.
abbrev pub forgive : Result (Unit {0}) → Result (Unit {0})
forgive (err (github e)) = if e.status == 404 then ok tt else err (github e)
forgive r = r

-- One run of digits of a version, and what follows it.
unfoldable pub skip_digits : Text → Text
skip_digits [] = []
skip_digits (c ∷ s) = let rest = skip_digits s in if is_digit c then rest else c ∷ s

abbrev pub starts_with_digit : Text → Bool
starts_with_digit [] = false
starts_with_digit (c ∷ s) = is_digit c

abbrev pub after_dot : Text → Option Text
after_dot [] = none
after_dot (c ∷ s) = if c == b'.' then some s else none

-- ^\d+\.\d+\.\d+$, with the number of dots that are still to come.
unfoldable pub is_version_tail : ℕ → Text → Bool
unfolding skip_digits
is_version_tail zero s = starts_with_digit s && is_empty (skip_digits s)
is_version_tail (suc dots) s =
    starts_with_digit s && elim (after_dot (skip_digits s)) as (λ x. Bool) [
      | none ↦ false
      | some rest ↦ is_version_tail dots rest
    ]

unfoldable pub is_version : Text → Bool
unfolding is_version_tail
is_version s = is_version_tail 2 s

-- strings.TrimPrefix(tag, "v")
abbrev pub trim_v : Text → Option Text → Text
trim_v tag none = tag
trim_v tag (some rest) = rest

unfoldable pub version_of : Text → Text
unfolding cut_prefix
version_of tag = trim_v tag (cut_prefix (codes "v") tag)

unfoldable pub find_asset : Text → List Asset → Option Asset
find_asset name [] = none
find_asset name (a ∷ assets) = if text_eq a.name name then some a else find_asset name assets

abbrev pub pick_asset : Text → Option Asset → Result (Text × Text)
pick_asset version none = err (no_asset version)
pick_asset version (some a) = ok (version, a.url)

-- What `ResolveRunnerDownload` makes of the release.
unfoldable pub resolve : Release → Result (Text × Text)
unfolding is_version version_of find_asset
resolve out =
    let version = version_of out.tag in
    if is_version version
    then pick_asset version (find_asset (asset_name version) out.assets)
    else err (bad_release_tag out.tag)

abbrev pub answer : {A : Type 0} → Result A → G A
answer (ok a) = pure a
answer (err e) = fail e

module _ (server : Server) where
  -- One page of the loop of `ListRunners`, after the runners of the pages before it; `rest` is the
  -- pages after it.
  unfoldable pub runner_page :
      Text → ℕ → List Runner → (List Runner → G (List Runner)) → G (List Runner)
  unfolding call page_path pure
  runner_page base page found rest = do
    out ← call server [] (some server.json.runners) (get_request (page_path base page))
    (if ltb (length out) page_size then pure (found ++ out) else rest (found ++ out))

  -- The pages that are left.
  unfoldable pub runner_pages : ℕ → Text → ℕ → List Runner → G (List Runner)
  unfolding runner_page fail
  runner_pages zero base page found = fail too_many_pages
  runner_pages (suc left) base page found =
      runner_page base page found (runner_pages left base (page + 1))

  -- `GetJobStatus`
  unfoldable pub get_job_status : JobRef → G JobStatus
  unfolding call
  get_job_status ref =
      call server zero_status (some server.json.job_status) (get_request (job_path ref))

  -- `ResolveRunnerDownload`
  unfoldable pub resolve_runner_download : G (Text × Text)
  unfolding call resolve pure fail
  resolve_runner_download = do
    out ←
        call server (record { tag = []; assets = [] }) (some server.json.release)
          (record (get_request release_path) { public = true })
    answer (resolve out)

module _ (cfg : GitHub) (server : Server) where
  -- `GenerateJITConfig`
  unfoldable pub generate_jit_config : Text → Text → List Text → Text → G (Text × ℕ)
  unfolding runners_base call codes
  generate_jit_config repo name labels work_dir =
      call server ([], 0) (some server.json.jit)
        (record {
          method = post;
          public = false;
          path = runners_base cfg repo ++ codes "/generate-jitconfig";
          body = some (record {
            name = name;
            labels = labels;
            group = cfg.runner_group_id;
            work_folder = work_dir;
          });
        })

  -- `ListRunners`
  unfoldable pub list_runners : Text → G (List Runner)
  unfolding runner_pages runners_base
  list_runners repo = runner_pages server page_cap (runners_base cfg repo) 1 []

  -- `RemoveRunner`
  unfoldable pub remove_runner : Text → ℕ → G (Unit {0})
  unfolding runners_base call codes decimal
  remove_runner repo id c =
      let (r, c') =
        call server tt none
          (record {
            method = delete;
            public = false;
            path = runners_base cfg repo ++ (codes "/" ++ decimal id);
            body = none;
          })
          c in
      (forgive r, c')
