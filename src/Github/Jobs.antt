-- ===== src/Github/Jobs.antt =====
-- `ListQueuedJobs` of internal/githubapp/client.go and `poll` of internal/githubapp/poller.go. The gate
-- `run_updated` and the set `live_runs` are shared by all repositories of a sweep, and keep what they
-- were given when the listing of a repository fails.
pub mod Gate
pub mod Offers
pub mod Pages
use mini_control_action.Prelude.{
  ℕ, zero, suc, ◌+◌, ◌-◌, ◌==◌, Bool, true, false, not, ◌&&◌, ◌||◌, Option, none, some, List, [],
  ◌∷◌, ◌++◌, any, keep_if, Text, ℤ, length, ltb, codes, decimal, is_lit, is_empty, text_eq,
  if◌then◌else◌,
}
use mini_control_action.Errors.{Error, Result, ok, err}
use mini_control_action.Config.{Config}
use mini_control_action.Github.{JobRef, JobEvent, labels_satisfiable}
use mini_control_action.Github.Api.{
  Run, JobJson, Server, Client, G, ◌>>=◌, ◌>>◌, pure, fail, gets, change, call, get_request,
}
use mini_control_action.Github.Repos.{choose, list_accessible_repos}

abbrev pub jobs_path : Text → ℕ → ℕ → Text
jobs_path repo run_id page =
    codes "/repos/"
    ++ (repo
        ++ (codes "/actions/runs/"
            ++ (decimal run_id
                ++ (codes "/jobs?filter=latest&per_page=100&page=" ++ decimal page))))

abbrev pub runs_path : Text → Text → ℕ → Text
runs_path repo status page =
    codes "/repos/"
    ++ (repo
        ++ (codes "/actions/runs?status="
            ++ (status ++ (codes "&per_page=100&page=" ++ decimal page))))

unfoldable pub is_wanted : List Text → JobJson → Bool
is_wanted ours j = is_lit j.status "queued" && labels_satisfiable j.labels ours

abbrev pub job_ref : Text → JobJson → JobRef
job_ref repo j = record {
  repo = repo;
  job_id = j.id;
  run_id = j.run_id;
  run_attempt = j.run_attempt;
  labels = j.labels;
}

unfoldable pub job_refs : Text → List Text → List JobJson → List JobRef
unfolding is_wanted
job_refs repo ours [] = []
job_refs repo ours (j ∷ jobs) =
    let rest = job_refs repo ours jobs in if is_wanted ours j then job_ref repo j ∷ rest else rest

-- c.runUpdated[id], the empty string where it is missing
unfoldable pub last_updated : ℕ → List Run → Text
last_updated id [] = []
last_updated id (r ∷ runs) = if r.id == id then r.updated_at else last_updated id runs

unfoldable pub put_run : Run → List Run → List Run
put_run r [] = r ∷ []
put_run r (x ∷ runs) = if x.id == r.id then r ∷ runs else x ∷ put_run r runs

abbrev pub is_live : ℕ → Client → Bool
is_live id c = any (λ x. x == id) c.live_runs

unfoldable pub is_unchanged : Run → Client → Bool
unfolding last_updated
is_unchanged run c =
    text_eq (last_updated run.id c.run_updated) run.updated_at && not (is_empty run.updated_at)

module _ (server : Server) (ours : List Text) where
  unfoldable pub job_page :
      Text → ℕ → ℕ → List JobRef → (List JobRef → G (List JobRef)) → G (List JobRef)
  unfolding call job_refs pure
  job_page repo run_id page found rest = do
    jobs ← call server [] (some server.json.jobs) (get_request (jobs_path repo run_id page))
    (if ltb (length jobs) 100
        then pure (found ++ job_refs repo ours jobs)
        else rest (found ++ job_refs repo ours jobs))

  -- The pages of `listQueuedJobsInRun` that are left; what lies behind the last is not asked for.
  unfoldable pub job_pages : ℕ → Text → ℕ → ℕ → List JobRef → G (List JobRef)
  unfolding job_page pure
  job_pages zero repo run_id page found = pure found
  job_pages (suc left) repo run_id page found =
      job_page repo run_id page found (job_pages left repo run_id (page + 1))

  -- `listQueuedJobsInRun`
  unfoldable pub list_in_run : Text → ℕ → G (List JobRef)
  unfolding job_pages
  list_in_run repo run_id = job_pages 3 repo run_id 1 []

  unfoldable pub fetch_run : Text → Run → G (List JobRef)
  unfolding list_in_run change put_run pure
  fetch_run repo run = do
    refs ← list_in_run repo run.id
    change (λ c. record c { run_updated = put_run run c.run_updated })
    pure refs

  -- The body of the loop over the runs of a page.
  unfoldable pub take_run : Text → Run → G (List JobRef)
  unfolding fetch_run gets change is_unchanged pure
  take_run repo run = do
    live ← gets (is_live run.id)
    (if live then pure [] else (do
      change (λ c. record c { live_runs = run.id ∷ c.live_runs })
      unchanged ← gets (is_unchanged run)
      (if unchanged then pure [] else fetch_run repo run)))

  unfoldable pub take_runs : Text → List Run → List JobRef → G (List JobRef)
  unfolding take_run pure
  take_runs repo [] found = pure found
  take_runs repo (run ∷ runs) found =
      take_run repo run >>= λ refs. take_runs repo runs (found ++ refs)

  unfoldable pub run_page :
      Text → Text → ℕ → List JobRef → (List JobRef → G (List JobRef)) → G (List JobRef)
  unfolding call take_runs pure
  run_page repo status page found rest = do
    runs ← call server [] (some server.json.runs) (get_request (runs_path repo status page))
    found' ← take_runs repo runs found
    (if ltb (length runs) 100 then pure found' else rest found')

  unfoldable pub run_pages : ℕ → Text → Text → ℕ → List JobRef → G (List JobRef)
  unfolding run_page pure
  run_pages zero repo status page found = pure found
  run_pages (suc left) repo status page found =
      run_page repo status page found (run_pages left repo status (page + 1))

  -- `listQueuedJobsInRepo`
  unfoldable pub list_in_repo : Text → G (List JobRef)
  unfolding run_pages codes
  list_in_repo repo = do
    found ← run_pages 5 repo (codes "queued") 1 []
    run_pages 5 repo (codes "in_progress") 1 found

  -- A repository whose listing fails is left out, unless the context is done.
  abbrev pub after_repo : Bool → Result (List JobRef) → G (List JobRef)
  after_repo stopping (ok refs) = pure refs
  after_repo false (err e) = pure []
  after_repo true (err e) = fail e

  unfoldable pub sweep_repo : (ℕ → Bool) → Text → G (List JobRef)
  unfolding list_in_repo pure fail
  sweep_repo stopping repo c =
      let (r, c') = list_in_repo repo c in after_repo (stopping c'.step) r c'

  unfoldable pub sweep_repos : (ℕ → Bool) → List Text → List JobRef → G (List JobRef)
  unfolding sweep_repo pure
  sweep_repos stopping [] found = pure found
  sweep_repos stopping (repo ∷ repos) found =
      sweep_repo stopping repo >>= λ refs. sweep_repos stopping repos (found ++ refs)

  -- Runs that are no longer live are forgotten.
  abbrev pub prune_gate : Client → Client
  prune_gate c = record c { run_updated = keep_if (λ (r : Run). is_live r.id c) c.run_updated }

  -- `ListQueuedJobs`; `stopping` says whether the context is done after so many requests.
  unfoldable pub list_queued_jobs : (ℕ → Bool) → List Text → G (List JobRef)
  unfolding sweep_repos change pure
  list_queued_jobs stopping repos = do
    change (λ c. record c { live_runs = [] })
    refs ← sweep_repos stopping repos []
    change prune_gate
    pure refs

abbrev pub queued_event : JobRef → JobEvent
queued_event ref = record { action = codes "queued"; job = ref; conclusion = []; runner_name = [] }

-- The wiring of the poller in cmd/minicontrol-runner/main.go.
pub record Poller : Type 0 where
  pub discover_repos : Bool
  pub repos : List Text
  pub our_labels : List Text
  pub active_window : ℕ
  pub max_repos : ℤ

abbrev pub events : List JobRef → List JobEvent
events [] = []
events (ref ∷ refs) = queued_event ref ∷ events refs

module _ (server : Server) (p : Poller) where
  unfoldable pub poll_repos : G (List Text)
  unfolding list_accessible_repos gets choose pure
  poll_repos =
      if p.discover_repos
      then (do
        found ← list_accessible_repos server
        now ← gets (λ c. server.time c.step)
        pure (choose (now - p.active_window) p.max_repos 0 found))
      else pure p.repos

  -- `poll`: the events that it submits, in order; on an error there are none.
  unfoldable pub poll : (ℕ → Bool) → G (List JobEvent)
  unfolding poll_repos list_queued_jobs pure
  poll stopping = do
    repos ← poll_repos
    refs ← list_queued_jobs server p.our_labels stopping repos
    pure (events refs)
