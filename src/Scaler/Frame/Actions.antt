-- ===== src/Scaler/Frame/Actions.antt =====
-- The frame of `deleteVM`, `removeRunnerRegistration`, `waitReady`, `bootstrapRunner` and `monitor`,
-- whatever the environment answers, and however far they get.
use mini_control_action.Prelude.{
  ℕ, zero, suc, ◌≡◌, refl, Bool-cases, inl, inr, Option, List, [], ◌∷◌, Text, is_empty, String,
}
use mini_control_action.Errors.{Error, Result, ok, err}
use mini_control_action.State.{JobState, Record}
use mini_control_action.Github.{JobEvent, JobStatus, Runner}
use mini_control_action.Bootstrap.{Status}
use mini_control_action.Scaler.World.{
  Env, Worker, Wake, cancel, event, tick, M, ◌>>=◌, pure, get_rec, set_rec,
}
use mini_control_action.Scaler.Keeps.{Keeps, Keeps-pure, Keeps-out_of_fuel}
use mini_control_action.Scaler.Frame.{
  Frame, Frame-set_rec, frame_steps, Frame-persist, Frame-sleep, Frame-query_job,
  Frame-job_already_finished,
}
use mini_control_action.Scaler.Cleanup.{
  delete_call, delete_pause, delete_try, delete_tries, delete_vm, query_runners, remove_call,
  remove_if_reapable, remove_reapable, remove_listed, remove_runner_registration,
}
use mini_control_action.Scaler.Boot.{
  get_vm_call, poll_vm, wait_ready_loop, wait_ready, exec_call, exec_ok, exec_status,
  runner_version, resolve_url, download_url, drop_stale_runner, name_runner, jit_call,
  launch_script, register_and_launch, bootstrap_runner,
}
use mini_control_action.Scaler.Monitor.{
  Outcome, mark_running, runner_busy, on_event, marker_phase, on_job_status, poll_phase,
  release_phase, pickup_expired, pickup_phase, deadline_phase, on_tick, on_wake, round, round_then,
  monitor_loop, monitor,
}

module _ {w0 : Worker} where
  Frame-set_name :
      (f : Record → Text) → Keeps (Frame w0) (set_rec (λ r. record r { runner_name = f r }))
  Frame-set_name f = Frame-set_rec _ (record {
    job_id = λ r. refl;
    run_attempt = λ r. refl;
    vm_id = λ r. refl;
    retry = λ r. refl;
    key = λ r. refl;
  })

  Frame-set_runner :
      (f : Record → ℕ) → Keeps (Frame w0) (set_rec (λ r. record r { runner_id = f r }))
  Frame-set_runner f = Frame-set_rec _ (record {
    job_id = λ r. refl;
    run_attempt = λ r. refl;
    vm_id = λ r. refl;
    retry = λ r. refl;
    key = λ r. refl;
  })

  pub Frame-set_status : (st : JobState) → Keeps (Frame w0) (set_rec (λ r. record r { state = st }))
  Frame-set_status st = Frame-set_rec _ (record {
    job_id = λ r. refl;
    run_attempt = λ r. refl;
    vm_id = λ r. refl;
    retry = λ r. refl;
    key = λ r. refl;
  })

module _ {w0 : Worker} (env : Env) where
  Frame-delete_pause : Keeps (Frame w0) (delete_pause env)
  unfolding delete_pause
  Frame-delete_pause = search frame_steps

  Frame-delete_call : (id : Text) → id ≡ w0.rec.vm_id → Keeps (Frame w0) (delete_call env id)
  unfolding delete_call
  Frame-delete_call id e = search frame_steps

  Frame-delete_try :
      (id : Text) (rest : M (Unit {0}))
      → id ≡ w0.rec.vm_id
      → Keeps (Frame w0) rest
      → Keeps (Frame w0) (delete_try env id rest)
  unfolding delete_try
  Frame-delete_try id rest e k = search (frame_steps, Frame-delete_call, Frame-delete_pause)

  Frame-delete_tries :
      (tries : ℕ) (id : Text) → id ≡ w0.rec.vm_id → Keeps (Frame w0) (delete_tries env tries id)
  unfolding delete_tries
  Frame-delete_tries zero id e = Keeps-pure tt
  Frame-delete_tries (suc tries) id e =
      Frame-delete_try id (delete_tries env tries id) e (Frame-delete_tries tries id e)

  pub Frame-delete_vm : Keeps (Frame w0) (delete_vm env)
  unfolding delete_vm get_rec pure ◌>>=◌
  Frame-delete_vm = record {
    at = λ w h. elim (Bool-cases (is_empty w.rec.vm_id)) [
      | inl e ↦ rw e h
      | inr e ↦ rw e ((Frame-delete_tries 3 w.rec.vm_id h.vm_id).at w h)
    ];
  }

  Frame-query_runners : Keeps (Frame w0) (query_runners env)
  unfolding query_runners
  Frame-query_runners = search frame_steps

  Frame-remove_call : (id : ℕ) → Keeps (Frame w0) (remove_call env id)
  unfolding remove_call
  Frame-remove_call id = search frame_steps

  Frame-remove_if_reapable :
      (id : ℕ) (x : Runner) (later : M (Unit {0}))
      → Keeps (Frame w0) later
      → Keeps (Frame w0) (remove_if_reapable env id x later)
  unfolding remove_if_reapable
  Frame-remove_if_reapable id x later k = search (frame_steps, Frame-remove_call)

  Frame-remove_reapable :
      (id : ℕ) (runners : List Runner) → Keeps (Frame w0) (remove_reapable env id runners)
  unfolding remove_reapable
  Frame-remove_reapable id [] = Keeps-pure tt
  Frame-remove_reapable id (x ∷ runners) =
      Frame-remove_if_reapable id x (remove_reapable env id runners)
        (Frame-remove_reapable id runners)

  Frame-remove_listed :
      (id : ℕ) (answer : Result (List Runner)) → Keeps (Frame w0) (remove_listed env id answer)
  unfolding remove_listed
  Frame-remove_listed id (err e) = Keeps-pure tt
  Frame-remove_listed id (ok runners) = Frame-remove_reapable id runners

  pub Frame-remove_runner_registration : Keeps (Frame w0) (remove_runner_registration env)
  unfolding remove_runner_registration
  Frame-remove_runner_registration = search (frame_steps, Frame-query_runners, Frame-remove_listed)

  Frame-get_vm_call : Keeps (Frame w0) (get_vm_call env)
  unfolding get_vm_call
  Frame-get_vm_call = search frame_steps

  Frame-poll_vm :
      (deadline : ℕ) (rest : M (Option Error))
      → Keeps (Frame w0) rest
      → Keeps (Frame w0) (poll_vm env deadline rest)
  unfolding poll_vm
  Frame-poll_vm deadline rest k = search (frame_steps, Frame-get_vm_call, Frame-sleep env) depth 12

  Frame-wait_ready_loop : (fuel deadline : ℕ) → Keeps (Frame w0) (wait_ready_loop env fuel deadline)
  unfolding wait_ready_loop
  Frame-wait_ready_loop zero deadline = Keeps-out_of_fuel
  Frame-wait_ready_loop (suc fuel) deadline =
      Frame-poll_vm deadline (wait_ready_loop env fuel deadline)
        (Frame-wait_ready_loop fuel deadline)

  pub Frame-wait_ready : (fuel : ℕ) → Keeps (Frame w0) (wait_ready env fuel)
  unfolding wait_ready
  Frame-wait_ready fuel = search (frame_steps, Frame-wait_ready_loop)

  Frame-exec_call :
      (command : Text) (seconds : ℕ) → Keeps (Frame w0) (exec_call env command seconds)
  unfolding exec_call
  Frame-exec_call command seconds = search frame_steps

  Frame-exec_ok :
      (command : Text) (sentinel : String) → Keeps (Frame w0) (exec_ok env command sentinel)
  unfolding exec_ok
  Frame-exec_ok command sentinel = search (frame_steps, Frame-exec_call)

  Frame-exec_status : Keeps (Frame w0) (exec_status env)
  unfolding exec_status
  Frame-exec_status = search (frame_steps, Frame-exec_call)

  Frame-runner_version : Keeps (Frame w0) (runner_version env)
  unfolding runner_version
  Frame-runner_version = search frame_steps

  Frame-resolve_url : Keeps (Frame w0) (resolve_url env)
  unfolding resolve_url
  Frame-resolve_url = search (frame_steps, Frame-runner_version)

  Frame-download_url : Keeps (Frame w0) (download_url env)
  unfolding download_url
  Frame-download_url = search (frame_steps, Frame-resolve_url)

  Frame-drop_stale_runner : Keeps (Frame w0) (drop_stale_runner env)
  unfolding drop_stale_runner
  Frame-drop_stale_runner = search (frame_steps, Frame-remove_call, Frame-set_runner)

  Frame-name_runner : Keeps (Frame w0) (name_runner env)
  unfolding name_runner
  Frame-name_runner = search (frame_steps, Frame-set_name)

  Frame-jit_call : Keeps (Frame w0) (jit_call env)
  unfolding jit_call
  Frame-jit_call = search frame_steps

  Frame-launch_script : (script jit : Text) → Keeps (Frame w0) (launch_script env script jit)
  unfolding launch_script
  Frame-launch_script script jit = search (frame_steps, Frame-exec_ok) depth 8

  Frame-register_and_launch : (url : Text) → Keeps (Frame w0) (register_and_launch env url)
  unfolding register_and_launch
  Frame-register_and_launch url =
      search
        (
          frame_steps,
          Frame-drop_stale_runner,
          Frame-name_runner,
          Frame-jit_call,
          Frame-set_runner,
          Frame-persist env,
          Frame-launch_script,
        )
        depth 12

  pub Frame-bootstrap_runner : Keeps (Frame w0) (bootstrap_runner env)
  unfolding bootstrap_runner
  Frame-bootstrap_runner =
      search (frame_steps, Frame-exec_status, Frame-download_url, Frame-register_and_launch) depth
        10

  Frame-mark_running : Keeps (Frame w0) (mark_running env)
  unfolding mark_running
  Frame-mark_running = search (frame_steps, Frame-set_status, Frame-persist env)

  Frame-runner_busy : Keeps (Frame w0) (runner_busy env)
  unfolding runner_busy
  Frame-runner_busy = search (frame_steps, Frame-query_runners)

  Frame-on_event : (ev : JobEvent) → Keeps (Frame w0) (on_event env ev)
  unfolding on_event
  Frame-on_event ev = search (frame_steps, Frame-mark_running) depth 8

  Frame-marker_phase : (status : Result Status) → Keeps (Frame w0) (marker_phase env status)
  unfolding marker_phase
  Frame-marker_phase (err e) = search frame_steps
  Frame-marker_phase (ok st) = search (frame_steps, Frame-query_job env) depth 8

  Frame-on_job_status : (answer : Result JobStatus) → Keeps (Frame w0) (on_job_status env answer)
  unfolding on_job_status
  Frame-on_job_status (err e) = search frame_steps
  Frame-on_job_status (ok st) = search (frame_steps, Frame-mark_running) depth 8

  Frame-poll_phase : Keeps (Frame w0) (poll_phase env)
  unfolding poll_phase
  Frame-poll_phase =
      search (frame_steps, Frame-get_vm_call, Frame-query_job env, Frame-on_job_status) depth 8

  Frame-release_phase : Keeps (Frame w0) (release_phase env)
  unfolding release_phase
  Frame-release_phase = search (frame_steps, Frame-runner_busy) depth 8

  Frame-pickup_expired : Keeps (Frame w0) (pickup_expired env)
  unfolding pickup_expired
  Frame-pickup_expired =
      search (frame_steps, Frame-runner_busy, Frame-job_already_finished env) depth 8

  Frame-pickup_phase : Keeps (Frame w0) (pickup_phase env)
  unfolding pickup_phase
  Frame-pickup_phase = search (frame_steps, Frame-pickup_expired) depth 8

  Frame-deadline_phase : Keeps (Frame w0) (deadline_phase env)
  unfolding deadline_phase
  Frame-deadline_phase = search frame_steps depth 8

  Frame-on_tick : Keeps (Frame w0) (on_tick env)
  unfolding on_tick
  Frame-on_tick =
      search
        (
          frame_steps, Frame-exec_status, Frame-marker_phase, Frame-poll_phase, Frame-release_phase,
          Frame-pickup_phase, Frame-deadline_phase,
        )
        depth 12

  Frame-on_wake : (k : Wake) → Keeps (Frame w0) (on_wake env k)
  unfolding on_wake
  Frame-on_wake cancel = search frame_steps
  Frame-on_wake (event ev) = search (frame_steps, Frame-on_event)
  Frame-on_wake tick = Frame-on_tick

  Frame-round : Keeps (Frame w0) (round env)
  unfolding round
  Frame-round = search (frame_steps, Frame-on_wake)

  Frame-round_then :
      (rest : M Outcome) → Keeps (Frame w0) rest → Keeps (Frame w0) (round_then env rest)
  unfolding round_then
  Frame-round_then rest k = search (frame_steps, Frame-round)

  Frame-monitor_loop : (fuel : ℕ) → Keeps (Frame w0) (monitor_loop env fuel)
  unfolding monitor_loop
  Frame-monitor_loop zero = Keeps-out_of_fuel
  Frame-monitor_loop (suc fuel) = Frame-round_then (monitor_loop env fuel) (Frame-monitor_loop fuel)

  pub Frame-monitor : (fuel : ℕ) → Keeps (Frame w0) (monitor env fuel)
  unfolding monitor
  Frame-monitor fuel = search (frame_steps, Frame-monitor_loop) depth 8
