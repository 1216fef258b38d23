-- ===== src/Examples/Polls.antt =====
-- The client of internal/githubapp/client.go and a poll, at concrete inputs.
use mini_control_action.Prelude.{
  pos, ℕ, zero, suc, ◌≤◌, ◌<◌, ◌==◌, ◌≡◌, ◌↔◌, ◌⊎◌, refl, Bool, false, Option, none, some, List, [],
  ◌∷◌, Memᴰ, All, Text, codes, contains, has_suffix, is_lit, is_digit, text_eq, to_lower, map, ◌++◌,
  sym, take, drop, ◌+◌, ◌*◌, inl, inr, Bool-cases, subst, decimal, keep_if, length, ltb, arith,
  if◌then◌else◌,
}
use mini_control_action.Errors.{ok, err, too_many_pages}
use mini_control_action.Bootstrap.Commands.{asset_name}
use mini_control_action.Github.{Runner, labels_satisfiable}
use mini_control_action.Github.Api.{
  Reply, lost, replied, Run, JobJson, Asset, Release, Json, Server, RepoInfo, Client, interpret,
  get_request, ◌>>=◌,
}
use mini_control_action.Github.Runners.{
  list_runners, runners_base, page_path, resolve, remove_runner,
}
use mini_control_action.Github.Runners.Pages.{IsPaged, list_runners_whole}
use mini_control_action.Github.Runners.Answers.{
  IsDotted, resolve-asset, remove_request, remove_runner_ok_iff,
}
use mini_control_action.Github.Repos.{choose}
use mini_control_action.Github.Repos.Chosen.{IsNewestFirst, is_active, names, choose_newest}
use mini_control_action.Github.Jobs.{
  Poller, poll, queued_event, job_ref, list_in_run, list_queued_jobs, jobs_path,
}
use mini_control_action.Github.Jobs.Offers.{IsQueuedOffer, poll_offers}
use mini_control_action.Github.Jobs.Pages.{is_for, IsPagedJobs, list_in_run_whole}
use mini_control_action.Examples.Service.{config}

abbrev pub repo : Text
repo = codes "octo/app"

abbrev labels : List Text
labels = config.runner.labels

abbrev pub runner : Runner
runner = record { id = 4; name = codes "mcra-09-j7-0a"; status = codes "offline"; busy = false }

abbrev pub queued_job : JobJson
queued_job = record {
  id = 7;
  run_id = 1;
  run_attempt = pos 1;
  status = codes "queued";
  labels = codes "macOS" ∷ [];
}

abbrev running_job : JobJson
running_job = record {
  id = 8;
  run_id = 1;
  run_attempt = pos 1;
  status = codes "in_progress";
  labels = codes "macOS" ∷ [];
}

abbrev both_jobs : List JobJson
both_jobs = queued_job ∷ running_job ∷ []

abbrev first_run : Run
first_run = record { id = 1; updated_at = codes "10:00" }

abbrev second_run : Run
second_run = record { id = 2; updated_at = codes "10:01" }

-- An element of the first page.
abbrev on_first : {A : Type 0} → List A → Text → Option (List A)
on_first xs path = some (if has_suffix path (codes "&page=1") then xs else [])

-- Replies are the paths that were asked for.
abbrev json : Json
json = record {
  repos = λ s. some [];
  runners = on_first (runner ∷ []);
  jit = λ s. none;
  job_status = λ s. none;
  runs = λ s.
      on_first (first_run ∷ second_run ∷ []) (if contains s (codes "status=queued") then s else []);
  jobs = on_first both_jobs;
  release = λ s. none;
}

abbrev reply : ℕ → Text → Reply
reply status s = record {
  status = status;
  content = s;
  retry_after = [];
  remaining = [];
  reset = [];
}

abbrev pub server : Server
server = record { send = λ n req. replied (reply 200 req.path); time = λ n. n; json = json }

-- The third request is lost.
abbrev shaky : Server
shaky = record server { send = λ n req. if n == 2 then lost else replied (reply 200 req.path) }

abbrev pub client : Client
client = record { step = 0; repo_cache = []; repo_at = 0; run_updated = []; live_runs = [] }

abbrev AllBelow : (ℕ → Type 0) → ℕ → Type 0
AllBelow P zero = Unit {0}
AllBelow P (suc n) = P n × AllBelow P n

below : (P : ℕ → Type 0) (n : ℕ) → AllBelow P n → (p : ℕ) → p < n → P p
below P zero h p k = absurd (omega arith)
below P (suc n) h p k = elim (Bool-cases (p == n)) [
  | inl e ↦ subst P (ground arith) h.0
  | inr e ↦ below P n h.1 p (ground arith)
]

pages_of_runners : IsPaged server (runners_base config.github repo) (runner ∷ [])
unfolding interpret runners_base codes decimal has_suffix page_path is_lit
pages_of_runners = record {
  page = λ n p h.
      below
        (λ q.
          interpret n [] (some server.json.runners)
            (server.send n (get_request (page_path (runners_base config.github repo) (q + 1))))
          ≡ ok (take 100 (drop (100 * q) (runner ∷ []))))
        20
        (
          refl,
          (
            refl,
            (
              refl,
              (
                refl,
                (
                  refl,
                  (
                    refl,
                    (
                      refl,
                      (
                        refl,
                        (
                          refl,
                          (
                            refl,
                            (
                              refl,
                              (
                                refl,
                                (refl, (refl, (refl, (refl, (refl, (refl, (refl, (refl, tt)))))))),
                              ),
                            ),
                          ),
                        ),
                      ),
                    ),
                  ),
                ),
              ),
            ),
          ),
        )
        p h;
}

list_runners_whole_example :
    (list_runners config.github server repo client).0
    ≡ (if ltb (length (runner ∷ [])) 2000 then ok (runner ∷ []) else err too_many_pages)
list_runners_whole_example =
    list_runners_whole config.github server repo (runner ∷ []) client pages_of_runners

pages_of_jobs : IsPagedJobs server repo 1 both_jobs
unfolding interpret codes decimal has_suffix
pages_of_jobs = record {
  page = λ n p h.
      below
        (λ q.
          interpret n [] (some server.json.jobs)
            (server.send n (get_request (jobs_path repo 1 (q + 1))))
          ≡ ok (take 100 (drop (100 * q) both_jobs)))
        3 (refl, (refl, (refl, tt))) p h;
}

list_in_run_whole_example :
    (list_in_run server labels repo 1 client).0
    ≡ ok (map (job_ref repo) (keep_if (is_for labels) (take 300 both_jobs)))
list_in_run_whole_example = list_in_run_whole server labels repo 1 both_jobs client pages_of_jobs

-- A release with an asset for macOS.
abbrev release : Release
release = record {
  tag = codes "v2.320.1";
  assets =
      record { name = asset_name (codes "2.320.1"); url = codes "https://dl.example/r.tar.gz" }
      ∷ [];
}

resolved : resolve release ≡ ok (codes "2.320.1", codes "https://dl.example/r.tar.gz")
unfolding resolve codes asset_name is_digit text_eq
resolved = refl

resolve-asset_example :
    IsDotted (codes "2.320.1")
    × ((release.tag ≡ codes "2.320.1") ⊎ (release.tag ≡ codes "v" ++ codes "2.320.1"))
    × ((a : Asset) × Memᴰ a release.assets
        × (a.name ≡ codes "actions-runner-osx-arm64-" ++ (codes "2.320.1" ++ codes ".tar.gz"))
        × (a.url ≡ codes "https://dl.example/r.tar.gz"))
resolve-asset_example =
    resolve-asset release (codes "2.320.1") (codes "https://dl.example/r.tar.gz") resolved

remove_runner_ok_iff_example :
    let r = reply 200 (remove_request config.github repo 4).path in
    ((remove_runner config.github server repo 4 client).0 ≡ ok tt)
    ↔ ((r.status < 300) ⊎ (r.status ≡ 404))
remove_runner_ok_iff_example =
    remove_runner_ok_iff config.github server repo 4 client
      (reply 200 (remove_request config.github repo 4).path) refl

-- Three repositories, the last of them idle.
abbrev repos : List RepoInfo
repos =
    record { full_name = codes "octo/app"; pushed_at = 30 }
    ∷ record { full_name = codes "octo/lib"; pushed_at = 20 }
    ∷ record { full_name = codes "octo/old"; pushed_at = 1 }
    ∷ []

each : (P : RepoInfo → Type 0) (rs : List RepoInfo) → All P rs → (q : RepoInfo) → Memᴰ q rs → P q
each P (r ∷ rs) h q (Memᴰ.head e) = subst P (sym e) h.0
each P (r ∷ rs) h q (Memᴰ.tail m) = each P rs h.1 q m
each P [] h q m = elim m [ ]

newest_first : IsNewestFirst repos
newest_first = (
  each (λ q. q.pushed_at ≤ 30) (drop 1 repos) (omega arith, (omega arith, tt)),
  (
    each (λ q. q.pushed_at ≤ 20) (drop 2 repos) (omega arith, tt),
    (each (λ q. q.pushed_at ≤ 1) [] tt, tt),
  ),
)

choose_newest_example : choose 10 (pos 1) 0 repos ≡ names (take 1 (keep_if (is_active 10) repos))
choose_newest_example = choose_newest 10 0 repos newest_first

abbrev poller : Poller
poller = record {
  discover_repos = false;
  repos = repo ∷ [];
  our_labels = labels;
  active_window = 0;
  max_repos = pos 5;
}

abbrev pub never : ℕ → Bool
never n = false

polled :
    (poll server poller never client).0
    ≡ ok (queued_event (job_ref repo queued_job) ∷ queued_event (job_ref repo queued_job) ∷ [])
unfolding poll codes decimal has_suffix contains ◌>>=◌ text_eq is_lit labels_satisfiable to_lower
polled = refl

poll_offers_example :
    All
      (IsQueuedOffer labels)
      (queued_event (job_ref repo queued_job) ∷ queued_event (job_ref repo queued_job) ∷ [])
poll_offers_example =
    poll_offers server poller never client
      (queued_event (job_ref repo queued_job) ∷ queued_event (job_ref repo queued_job) ∷ []) polled

-- The first run's job is found, but the second run's jobs are lost on the way: the poll offers nothing.
shaky_poll : (list_queued_jobs shaky labels never (repo ∷ []) client).0 ≡ ok []
unfolding list_queued_jobs codes decimal has_suffix contains ◌>>=◌ text_eq is_lit labels_satisfiable
    to_lower
shaky_poll = refl

-- The next poll offers the second run's job, and never again the first one's.
next_poll :
    (list_queued_jobs shaky labels never
      (repo ∷ [])
      (list_queued_jobs shaky labels never (repo ∷ []) client).1).0
    ≡ ok (job_ref repo queued_job ∷ [])
unfolding list_queued_jobs codes decimal has_suffix contains ◌>>=◌ text_eq is_lit labels_satisfiable
    to_lower
next_poll = refl
