-- ===== src/Examples/Programs.antt =====
-- The program of cmd/minicontrol-runner, its checks, and the loading of its configuration, at concrete
-- inputs.
use mini_control_action.Prelude.{
  pos, ◌+◌, ◌≡◌, ◌≢◌, ◌↔◌, refl, true, false, Option, none, some, List, [], ◌∷◌, Memᴰ, All, Text,
  ltb, if◌then◌else◌, codes, decimal, has_suffix, has_prefix, contains, text_eq, is_lit, to_lower,
  count_if, arith,
}
use mini_control_action.Errors.{ok, err, transport}
use mini_control_action.Config.Accepted.{IsUnset, defaults_accepted_iff}
use mini_control_action.State.Store.{Store}
use mini_control_action.Config.{Config}
use mini_control_action.Config.Defaults.{apply_defaults}
use mini_control_action.Config.Validate.{validate}
use mini_control_action.Config.Load.{starts_name, expand_env, load, loaded}
use mini_control_action.Config.Load.Expansion.{Piece, byte, ref, write, value, expand_env-write}
use mini_control_action.Config.Load.Checked.{load_sound}
use mini_control_action.Bootstrap.Commands.{stage_command}
use mini_control_action.Bootstrap.Commands.Quoting.{first_words, stage_command_words}
use mini_control_action.Minicontrol.{Sku}
use mini_control_action.Github.{JobEvent, labels_satisfiable}
use mini_control_action.Github.Api.{◌>>=◌}
use mini_control_action.Github.Jobs.{poll, queued_event, job_ref}
use mini_control_action.Scaler.Dispatch.{Dispatch}
use mini_control_action.Wiring.{poller_of, poll_once}
use mini_control_action.Wiring.Served.{IsServedIn, poll_serves}
use mini_control_action.Wiring.Smoke.{SmokeEnv, run_smoke, deleted}
use mini_control_action.Wiring.Smoke.Cleanup.{IsReturn, smoke_cleans_up}
use mini_control_action.Wiring.Status.{status, is_state_complete, is_state_failed, status_counts}
use mini_control_action.Wiring.DryRun.{Answers, IsOffered, IsUsable, dry_run, dry_run_iff}
use mini_control_action.Examples.Service.{config, job, ready_vm, empty_store}
use mini_control_action.Examples.Polls.{server, client, repo, runner, never, queued_job}

abbrev idle : Dispatch
idle = record { store = empty_store; lanes = []; started = [] }

abbrev found : List JobEvent
found = queued_event (job_ref repo queued_job) ∷ queued_event (job_ref repo queued_job) ∷ []

found_by_poll : (poll server (poller_of config) never client).0 ≡ ok found
unfolding poll poller_of codes decimal has_suffix contains ◌>>=◌ text_eq is_lit labels_satisfiable
    to_lower
found_by_poll = refl

poll_serves_example :
    All
      (IsServedIn (λ ev. 5) (poll_once (λ ev. 5) (λ ev. none) config server never client idle).1)
      found
poll_serves_example = poll_serves (λ ev. 5) config server never client idle found found_by_poll

-- The VM is ready at the third poll, and the command fails.
abbrev smoke : SmokeEnv
smoke = record {
  create = ok (ready_vm (9 ∷ []));
  poll = λ n. ok (record (ready_vm (9 ∷ [])) {
    status = if ltb n 2 then codes "provisioning" else codes "ready";
  });
  interrupted = λ n. false;
  exec = err transport;
}

smoke_cleans_up_example :
    IsReturn (run_smoke smoke 5 []) × Memᴰ (deleted (9 ∷ [])) (run_smoke smoke 5 []).1
unfolding is_lit text_eq codes
smoke_cleans_up_example = smoke_cleans_up smoke [] 5 2 (ready_vm (9 ∷ [])) refl refl (omega arith)

stage_command_words_example :
    first_words 3 (stage_command (λ s. s) (codes "it's $HOME") (codes "jit"))
    ≡ some (codes "printf" ∷ codes "%s" ∷ codes "it's $HOME" ∷ [])
stage_command_words_example = stage_command_words (λ s. s) (codes "it's $HOME") (codes "jit")

-- "k: ${T}"
abbrev pieces : List Piece
pieces = byte b'k' ∷ byte b':' ∷ byte b' ' ∷ ref (codes "T") ∷ []

abbrev token : Text → Text
token name = codes "${X}"

expand_env-write_example : expand_env token (write pieces) ≡ value token pieces
unfolding codes starts_name
expand_env-write_example = expand_env-write token pieces refl

abbrev valid : Config
valid = record config { minicontrol = record config.minicontrol { api_key = codes "mck_1" } }

abbrev decoder : Text → Option Config
decoder s = some valid

config_loads : load token decoder (some []) ≡ loaded (apply_defaults valid)
unfolding load codes text_eq is_lit has_prefix
config_loads = refl

load_sound_example :
    (validate (apply_defaults valid) ≡ [])
    × (apply_defaults (apply_defaults valid) ≡ apply_defaults valid)
load_sound_example = load_sound token decoder (some []) (apply_defaults valid) config_loads

abbrev one_record : Store
one_record = record empty_store { recs = job ∷ [] }

status_counts_example :
    (status one_record).active_jobs
      + (count_if is_state_complete one_record.recs + count_if is_state_failed one_record.recs)
    ≡ 1
status_counts_example = status_counts one_record

abbrev small_sku : Sku
small_sku = record {
  id = codes "small";
  hardware_profile = [];
  cpu_cores = pos 4;
  memory_mib = pos 8192;
  disk_gib = pos 60;
  available = true;
}

abbrev answers : Answers
answers = record { skus = ok (small_sku ∷ []); repos = ok []; runners = ok (runner ∷ []) }

dry_run_iff_example :
    (dry_run config answers ≡ 0) ↔ (IsOffered config answers.skus × IsUsable config answers)
dry_run_iff_example = dry_run_iff config answers

-- The configuration with nothing set that has a default.
abbrev bare : Config
bare = record valid {
  log = record valid.log { level = []; format = [] };
  github = record valid.github { scope = [] };
  runner = record valid.runner { labels = [] };
  limits = record valid.limits { max_concurrent_vms = pos 0 };
}

bare-IsUnset : IsUnset bare
bare-IsUnset = record { level = refl; format = refl; scope = refl; labels = refl; vms = refl }

defaults_accepted_iff_example : (validate (apply_defaults bare) ≡ []) ↔ (
    (bare.github.token ≢ [])
    × (bare.minicontrol.base_url ≢ [])
    × (has_prefix bare.minicontrol.api_key (codes "mck_") ≡ true)
    × (bare.minicontrol.sku ≢ []))
defaults_accepted_iff_example = defaults_accepted_iff bare bare-IsUnset
