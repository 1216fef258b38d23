-- ===== src/Examples/Events.antt =====
-- Events and workers of internal/scaler/scaler.go at concrete inputs.
use mini_control_action.Prelude.{◌≡◌, refl, true, none, List, [], ◌∷◌, codes, Memᴰ, pos}
use mini_control_action.State.{key_of}
use mini_control_action.State.Store.{list}
use mini_control_action.State.Store.Sorting.{sort_by}
use mini_control_action.Github.{JobEvent}
use mini_control_action.Scaler.Dispatch.{Dispatch, is_active, resume}
use mini_control_action.Scaler.Dispatch.Workers.{
  IsSound, Happening, submitted, resumed, adopted, finished, happen_all, one_worker_per_key,
  resume_adopts_all,
}
use mini_control_action.Examples.Service.{job, empty_store}

abbrev idle : Dispatch
idle = record { store = empty_store; lanes = []; started = [] }

abbrev queued_event : JobEvent
queued_event = record {
  action = codes "queued";
  job = record {
    repo = codes "octo/app";
    job_id = 7;
    run_id = 2;
    run_attempt = pos 0;
    labels = codes "macOS" ∷ [];
  };
  conclusion = [];
  runner_name = [];
}

-- The same job is offered twice, its record is adopted and resumed, and its worker ends.
abbrev busy_day : List Happening
busy_day =
    submitted 5 none queued_event
    ∷ submitted 6 none queued_event
    ∷ adopted job
    ∷ resumed
    ∷ finished (key_of job)
    ∷ submitted 7 none queued_event
    ∷ []

one_worker_per_key_example : IsSound (happen_all busy_day idle).lanes
one_worker_per_key_example = one_worker_per_key busy_day idle tt

abbrev leftover : Dispatch
leftover = record idle { store = record empty_store { recs = job ∷ [] } }

resume_adopts_all_example : is_active (resume leftover) (key_of job) ≡ true
unfolding list sort_by
resume_adopts_all_example = resume_adopts_all leftover job (Memᴰ.head refl) refl
