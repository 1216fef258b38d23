-- ===== src/Examples/Service.antt =====
-- A configuration, a record and an environment: the VM service makes a VM for each create, the VMs
-- become ready, and no command can be run in them.
use mini_control_action.Prelude.{true, false, none, [], ◌∷◌, Text, pos, codes}
use mini_control_action.Errors.{transport, ok, err}
use mini_control_action.State.{queued, Record}
use mini_control_action.State.Store.{Store, no_file}
use mini_control_action.Config.{Config}
use mini_control_action.Minicontrol.{Vm}
use mini_control_action.Github.{JobStatus}
use mini_control_action.Scaler.World.{Env, tick, Worker}

abbrev pub config : Config
config = record {
  log = record { level = codes "info"; format = codes "text" };
  server = record { listen = codes ":8080" };
  github = record {
    api_base_url = codes "https://api.github.com";
    scope = codes "repo";
    owner = codes "octo";
    repo = codes "app";
    runner_group_id = pos 1;
    token = codes "t";
    poll = record { interval = 10; repos = []; active_window = 0; max_repos = pos 0 };
  };
  minicontrol = record {
    base_url = codes "https://vm.example";
    api_key = codes "k";
    sku = codes "small";
    worker_tag = [];
    poll_interval = 5;
    provision_timeout = 100;
    request_timeout = 30;
  };
  runner = record {
    labels = codes "self-hosted" ∷ codes "macOS" ∷ [];
    version = codes "latest";
    download_url = [];
    preinstalled_path = codes "/opt/runner";
    name_prefix = codes "mcra";
    work_dir = codes "_work";
    status_poll_interval = 10;
    pickup_timeout = 50;
    max_job_duration = 1000;
  };
  limits = record {
    max_concurrent_vms = pos 2;
    max_retries_per_job = pos 1;
    capacity_backoff = record { initial = 15; max = 120 };
  };
  reconciler = record { interval = 60; orphan_grace = 10 };
  state_path = codes "state.json";
  stream_bootstrap_logs = false;
}

abbrev pub job : Record
job = record {
  job_id = 7;
  run_attempt = pos 1;
  retry = 0;
  repo = codes "octo/app";
  labels = codes "macOS" ∷ [];
  workflow_job_url = [];
  state = queued;
  vm_id = [];
  idempotency_key = [];
  runner_name = [];
  runner_id = 0;
  last_error = [];
  queued_at = 3;
  updated_at = 3;
}

abbrev pub ready_vm : Text → Vm
ready_vm id = record {
  id = id;
  status = codes "ready";
  sku = codes "small";
  worker_name = [];
  worker_tags = [];
  billing_active = true;
  last_error = [];
  username = codes "runner";
  password = codes "p";
  websocket_url = codes "wss://vm";
}

abbrev pub waiting_job : JobStatus
waiting_job = record {
  status = codes "queued";
  conclusion = [];
  runner_id = 0;
  runner_name = [];
  steps = [];
}

abbrev pub env : Env
env = record {
  cfg = config;
  lag = λ n. 1;
  cancelled = λ n. false;
  fault = λ n. none;
  nonce = λ n. n ∷ [];
  slept = λ n. true;
  acquired = λ n. true;
  wake = λ n. tick;
  create_vm = λ n req key. ok (ready_vm (n ∷ []));
  get_vm = λ n id. ok (ready_vm id);
  delete_vm = λ n id. ok tt;
  exec = λ n id command seconds. err transport;
  job_status = λ n repo id. ok waiting_job;
  list_runners = λ n repo. ok [];
  remove_runner = λ n repo id. ok tt;
  jit_config = λ n repo name labels dir. ok (name, 12);
  latest_runner = λ n. ok ([], []);
  render_script = λ url path. ok url;
  base64 = λ s. s;
  show_error = λ e. [];
}

abbrev pub empty_store : Store
empty_store = record { recs = []; file = no_file; temps = 0 }

abbrev pub worker : Worker
worker = record {
  rec = job;
  store = empty_store;
  clock = 3;
  step = 0;
  trace = [];
  url_val = [];
  watch = record { pickup_deadline = 0; job_deadline = 0; tick_count = 0; job_done = false };
}

-- The worker with a VM.
abbrev pub with_vm : Worker
with_vm = record worker { rec = record job { vm_id = 9 ∷ [] } }
