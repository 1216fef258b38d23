-- ===== src/Config.antt =====
-- internal/config/config.go: the configuration, as records of the same shape. Durations are
-- nanoseconds, and negative ones are not represented.
pub mod Defaults
pub mod Stable
pub mod Validate
pub mod Accepted
pub mod Load
use mini_control_action.Prelude.{
  ℕ, Bool, List, [], ◌++◌, ◌∷◌, Text, ℤ, is_lit, codes, if◌then◌else◌,
}

pub record Log : Type 0 where
  pub level : Text
  pub format : Text

pub record Server : Type 0 where
  pub listen : Text

pub record Poll : Type 0 where
  pub interval : ℕ
  pub repos : List Text
  pub active_window : ℕ
  pub max_repos : ℤ

pub record GitHub : Type 0 where
  pub api_base_url : Text
  pub scope : Text
  pub owner : Text
  pub repo : Text
  pub runner_group_id : ℤ
  pub token : Text
  pub poll : Poll

pub record MiniControl : Type 0 where
  pub base_url : Text
  pub api_key : Text
  pub sku : Text
  pub worker_tag : Text
  pub poll_interval : ℕ
  pub provision_timeout : ℕ
  pub request_timeout : ℕ

pub record Runner : Type 0 where
  pub labels : List Text
  pub version : Text
  pub download_url : Text
  pub preinstalled_path : Text
  pub name_prefix : Text
  pub work_dir : Text
  pub status_poll_interval : ℕ
  pub pickup_timeout : ℕ
  pub max_job_duration : ℕ

pub record Backoff : Type 0 where
  pub initial : ℕ
  pub max : ℕ

pub record Limits : Type 0 where
  pub max_concurrent_vms : ℤ
  pub max_retries_per_job : ℤ
  pub capacity_backoff : Backoff

pub record Reconciler : Type 0 where
  pub interval : ℕ
  pub orphan_grace : ℕ

pub record Config : Type 0 where
  pub log : Log
  pub server : Server
  pub github : GitHub
  pub minicontrol : MiniControl
  pub runner : Runner
  pub limits : Limits
  pub reconciler : Reconciler
  pub state_path : Text
  pub stream_bootstrap_logs : Bool

-- `RepoFullName`
unfoldable pub repo_full_name : GitHub → Text
repo_full_name g = if is_lit g.scope "repo" then g.owner ++ (codes "/" ++ g.repo) else []
