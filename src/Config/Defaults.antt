-- ===== src/Config/Defaults.antt =====
-- `applyDefaults` of internal/config/config.go.
use mini_control_action.Prelude.{ℕ, zero, suc, ◌*◌, List, [], ◌∷◌, Text, ℤ, pos, negsuc, codes}
use mini_control_action.Config.{Config}

abbrev second : ℕ
second = 1000000000

abbrev minute : ℕ
minute = 60 * second

-- `if c.F == "" { c.F = d }`, and so for lists, integers and durations.
abbrev pub or_list {ℓ} : {A : Type ℓ} → List A → List A → List A
or_list [] d = d
or_list (x ∷ xs) d = x ∷ xs

abbrev pub or_int : ℤ → ℤ → ℤ
or_int (pos zero) d = d
or_int (pos (suc n)) d = pos (suc n)
or_int (negsuc n) d = negsuc n

abbrev pub or_duration : ℕ → ℕ → ℕ
or_duration zero d = d
or_duration (suc n) d = suc n

abbrev default_labels : List Text
default_labels = codes "self-hosted" ∷ codes "macos" ∷ codes "arm64" ∷ codes "mini-control" ∷ []

unfoldable pub apply_defaults : Config → Config
unfolding codes
apply_defaults c = record c {
  log = record {
    level = or_list c.log.level (codes "info");
    format = or_list c.log.format (codes "json");
  };
  server = record { listen = or_list c.server.listen (codes ":8080") };
  github = record c.github {
    api_base_url = or_list c.github.api_base_url (codes "https://api.github.com");
    scope = or_list c.github.scope (codes "all");
    runner_group_id = or_int c.github.runner_group_id (pos 1);
    poll = record c.github.poll {
      interval = or_duration c.github.poll.interval (60 * second);
      active_window = or_duration c.github.poll.active_window (120 * minute);
      max_repos = or_int c.github.poll.max_repos (pos 10);
    };
  };
  minicontrol = record c.minicontrol {
    poll_interval = or_duration c.minicontrol.poll_interval (10 * second);
    provision_timeout = or_duration c.minicontrol.provision_timeout (12 * minute);
    request_timeout = or_duration c.minicontrol.request_timeout (30 * second);
  };
  runner = record c.runner {
    labels = or_list c.runner.labels default_labels;
    version = or_list c.runner.version (codes "latest");
    name_prefix = or_list c.runner.name_prefix (codes "mc");
    work_dir = or_list c.runner.work_dir (codes "_work");
    status_poll_interval = or_duration c.runner.status_poll_interval (20 * second);
    pickup_timeout = or_duration c.runner.pickup_timeout (10 * minute);
    max_job_duration = or_duration c.runner.max_job_duration (120 * minute);
  };
  limits = record {
    max_concurrent_vms = or_int c.limits.max_concurrent_vms (pos 4);
    max_retries_per_job = or_int c.limits.max_retries_per_job (pos 2);
    capacity_backoff = record {
      initial = or_duration c.limits.capacity_backoff.initial (30 * second);
      max = or_duration c.limits.capacity_backoff.max (5 * minute);
    };
  };
  reconciler = record {
    interval = or_duration c.reconciler.interval (60 * second);
    orphan_grace = or_duration c.reconciler.orphan_grace (3 * minute);
  };
  state_path = or_list c.state_path (codes "/var/lib/minicontrol-runner/state.json");
}
