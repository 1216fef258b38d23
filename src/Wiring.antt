-- ===== src/Wiring.antt =====
-- How cmd/minicontrol-runner/main.go puts the parts together: the poller of the configuration, which
-- submits to the scaler (internal/githubapp/poller.go, internal/scaler/scaler.go).
pub mod Served
pub mod Smoke
pub mod Status
pub mod DryRun
use mini_control_action.Prelude.{ℕ, Bool, Option, List, [], ◌∷◌, is_lit, if◌then◌else◌}
use mini_control_action.Errors.{Result, ok, err}
use mini_control_action.Config.{Config, repo_full_name}
use mini_control_action.State.Store.{Fault}
use mini_control_action.Github.{JobEvent}
use mini_control_action.Github.Api.{Server, Client}
use mini_control_action.Github.Jobs.{Poller, poll}
use mini_control_action.Scaler.Dispatch.{Dispatch, submit}

-- The poller that `main` makes.
unfoldable pub poller_of : Config → Poller
unfolding repo_full_name
poller_of cfg = record {
  discover_repos = is_lit cfg.github.scope "all";
  repos =
      if is_lit cfg.github.scope "repo"
      then repo_full_name cfg.github ∷ []
      else cfg.github.poll.repos;
  our_labels = cfg.runner.labels;
  active_window = cfg.github.poll.active_window;
  max_repos = cfg.github.poll.max_repos;
}

module _ (now : JobEvent → ℕ) (fault : JobEvent → Option Fault) where
  -- The loop of `poll` that submits.
  unfoldable pub submit_all : List JobEvent → Dispatch → Dispatch
  unfolding submit
  submit_all [] d = d
  submit_all (ev ∷ evs) d = submit_all evs (submit (now ev) (fault ev) ev d)

  -- A poll that fails submits nothing.
  abbrev after_poll : Result (List JobEvent) → Dispatch → Dispatch
  after_poll (ok evs) d = submit_all evs d
  after_poll (err e) d = d

  unfoldable pub poll_once : Config → Server → (ℕ → Bool) → Client → Dispatch → Client × Dispatch
  unfolding poll poller_of submit_all
  poll_once cfg server stopping c d =
      let (r, c') = poll server (poller_of cfg) stopping c in (c', after_poll r d)
