-- ===== src/Scaler/Returns/Actions.antt =====
-- Time and retries in the actions of internal/scaler/job.go that have no loop of unknown length.
use mini_control_action.Prelude.{
  ℕ, zero, suc, ◌≡◌, refl, true, Option, List, [], ◌∷◌, Text, String, arith,
}
use mini_control_action.Errors.{Error, Result, ok, err}
use mini_control_action.State.{JobState, Record}
use mini_control_action.State.Store.{Fault}
use mini_control_action.Github.{JobStatus, Runner}
use mini_control_action.Bootstrap.{Status}
use mini_control_action.Scaler.World.{
  Env, Worker, Watch, Call, M, get_rec, set_rec, set_watch, set_url, now, emit, store_rec, elapse,
  ask, upsert_rec, persist, cancelled, sleep, query_job, job_already_finished,
}
use mini_control_action.Scaler.Cleanup.{
  delete_call, delete_pause, delete_try, delete_tries, delete_vm, query_runners, remove_call,
  remove_if_reapable, remove_reapable, remove_listed, remove_runner_registration,
}
use mini_control_action.Scaler.Boot.{
  get_vm_call, exec_call, exec_ok, exec_status, runner_version, resolve_url, download_url,
  drop_stale_runner, name_runner, jit_call, launch_script, register_and_launch, bootstrap_runner,
}
use mini_control_action.Scaler.Create.{fresh_key, create_call, plan_wait}
use mini_control_action.Scaler.Monitor.{
  mark_running, runner_busy, marker_phase, on_job_status, poll_phase, release_phase, pickup_expired,
  pickup_phase,
}
use mini_control_action.Scaler.Returns.{
  Returns, Returns-pure, Returns-gets, returns_rules, Later, Later-trans,
}

module _ {w0 : Worker} where
  pub Later-set_rec :
      (f : Record → Record)
      → ((r : Record) → (f r).retry ≡ r.retry)
      → Returns (Later w0) (set_rec f)
  unfolding set_rec
  Later-set_rec f h = record {
    at = λ w k. Later-trans k (record { clock = omega arith; retry = h w.rec; deadline = refl });
  }

  Later-set_name :
      (f : Record → Text) → Returns (Later w0) (set_rec (λ r. record r { runner_name = f r }))
  Later-set_name f = Later-set_rec _ (λ r. refl)

  Later-set_key :
      (f : Record → Text) → Returns (Later w0) (set_rec (λ r. record r { idempotency_key = f r }))
  Later-set_key f = Later-set_rec _ (λ r. refl)

  Later-set_runner :
      (f : Record → ℕ) → Returns (Later w0) (set_rec (λ r. record r { runner_id = f r }))
  Later-set_runner f = Later-set_rec _ (λ r. refl)

  Later-set_status : (st : JobState) → Returns (Later w0) (set_rec (λ r. record r { state = st }))
  Later-set_status st = Later-set_rec _ (λ r. refl)

  Later-get_rec : Returns (Later w0) get_rec
  unfolding get_rec
  Later-get_rec = Returns-gets _

  Later-now : Returns (Later w0) now
  unfolding now
  Later-now = Returns-gets _

  pub Later-set_watch :
      (f : Watch → Watch)
      → ((v : Watch) → (f v).job_deadline ≡ v.job_deadline)
      → Returns (Later w0) (set_watch f)
  unfolding set_watch
  Later-set_watch f h = record {
    at = λ w k. Later-trans k (record { clock = omega arith; retry = refl; deadline = h w.watch });
  }

  Later-set_done : Returns (Later w0) (set_watch (λ v. record v { job_done = true }))
  Later-set_done = Later-set_watch _ (λ v. refl)

  Later-set_pickup :
      (t : ℕ) → Returns (Later w0) (set_watch (λ v. record v { pickup_deadline = t }))
  Later-set_pickup t = Later-set_watch _ (λ v. refl)

  Later-set_url : (u : Text) → Returns (Later w0) (set_url u)
  unfolding set_url
  Later-set_url u = record {
    at = λ w k. Later-trans k (record { clock = omega arith; retry = refl; deadline = refl });
  }

  Later-elapse : (d : ℕ) → Returns (Later w0) (elapse d)
  unfolding elapse
  Later-elapse d = record {
    at = λ w k. Later-trans k (record { clock = omega arith; retry = refl; deadline = refl });
  }

  Later-emit : (c : Call) → Returns (Later w0) (emit c)
  unfolding emit
  Later-emit c = record {
    at = λ w k. Later-trans k (record { clock = omega arith; retry = refl; deadline = refl });
  }

  Later-store_rec : (fault : Option Fault) → Returns (Later w0) (store_rec fault)
  unfolding store_rec
  Later-store_rec fault = record {
    at = λ w k. Later-trans k (record { clock = omega arith; retry = refl; deadline = refl });
  }

  pub Later-ask : (env : Env) {A : Type 0} (f : ℕ → A) → Returns (Later w0) (ask env f)
  unfolding ask
  Later-ask env f = record {
    at = λ w k. Later-trans k (record { clock = omega arith; retry = refl; deadline = refl });
  }

ruleset later_steps = (
  Later-set_name, Later-set_key, Later-set_runner, Later-set_status, Later-set_done,
  Later-set_pickup, returns_rules, Later-get_rec, Later-now, Later-set_url, Later-elapse,
  Later-emit, Later-store_rec, Later-ask,
)

module _ {w0 : Worker} (env : Env) where
  pub Later-upsert_rec : Returns (Later w0) (upsert_rec env)
  unfolding upsert_rec
  Later-upsert_rec = search later_steps

  pub Later-persist : Returns (Later w0) (persist env)
  unfolding persist
  Later-persist = search (later_steps, Later-upsert_rec)

  pub Later-cancelled : Returns (Later w0) (cancelled env)
  unfolding cancelled
  Later-cancelled = search later_steps

  pub Later-sleep : (d : ℕ) → Returns (Later w0) (sleep env d)
  unfolding sleep
  Later-sleep d = search later_steps

  pub Later-query_job : Returns (Later w0) (query_job env)
  unfolding query_job
  Later-query_job = search later_steps

  pub Later-job_already_finished : Returns (Later w0) (job_already_finished env)
  unfolding job_already_finished
  Later-job_already_finished = search (later_steps, Later-query_job)

  pub Later-delete_pause : Returns (Later w0) (delete_pause env)
  unfolding delete_pause
  Later-delete_pause = search later_steps

  pub Later-delete_call : (id : Text) → Returns (Later w0) (delete_call env id)
  unfolding delete_call
  Later-delete_call id = search later_steps

  Later-delete_try :
      (id : Text) (rest : M (Unit {0}))
      → Returns (Later w0) rest
      → Returns (Later w0) (delete_try env id rest)
  unfolding delete_try
  Later-delete_try id rest k = search (later_steps, Later-delete_call, Later-delete_pause)

  Later-delete_tries : (tries : ℕ) (id : Text) → Returns (Later w0) (delete_tries env tries id)
  unfolding delete_tries
  Later-delete_tries zero id = Returns-pure tt
  Later-delete_tries (suc tries) id =
      Later-delete_try id (delete_tries env tries id) (Later-delete_tries tries id)

  pub Later-delete_vm : Returns (Later w0) (delete_vm env)
  unfolding delete_vm
  Later-delete_vm = search (later_steps, Later-delete_tries)

  pub Later-query_runners : Returns (Later w0) (query_runners env)
  unfolding query_runners
  Later-query_runners = search later_steps

  pub Later-remove_call : (id : ℕ) → Returns (Later w0) (remove_call env id)
  unfolding remove_call
  Later-remove_call id = search later_steps

  Later-remove_if_reapable :
      (id : ℕ) (x : Runner) (later : M (Unit {0}))
      → Returns (Later w0) later
      → Returns (Later w0) (remove_if_reapable env id x later)
  unfolding remove_if_reapable
  Later-remove_if_reapable id x later k = search (later_steps, Later-remove_call)

  Later-remove_reapable :
      (id : ℕ) (runners : List Runner) → Returns (Later w0) (remove_reapable env id runners)
  unfolding remove_reapable
  Later-remove_reapable id [] = Returns-pure tt
  Later-remove_reapable id (x ∷ runners) =
      Later-remove_if_reapable id x (remove_reapable env id runners)
        (Later-remove_reapable id runners)

  Later-remove_listed :
      (id : ℕ) (answer : Result (List Runner)) → Returns (Later w0) (remove_listed env id answer)
  unfolding remove_listed
  Later-remove_listed id (err e) = Returns-pure tt
  Later-remove_listed id (ok runners) = Later-remove_reapable id runners

  pub Later-remove_runner_registration : Returns (Later w0) (remove_runner_registration env)
  unfolding remove_runner_registration
  Later-remove_runner_registration = search (later_steps, Later-query_runners, Later-remove_listed)

  pub Later-get_vm_call : Returns (Later w0) (get_vm_call env)
  unfolding get_vm_call
  Later-get_vm_call = search later_steps

  pub Later-exec_call :
      (command : Text) (seconds : ℕ) → Returns (Later w0) (exec_call env command seconds)
  unfolding exec_call
  Later-exec_call command seconds = search later_steps

  pub Later-exec_ok :
      (command : Text) (sentinel : String) → Returns (Later w0) (exec_ok env command sentinel)
  unfolding exec_ok
  Later-exec_ok command sentinel = search (later_steps, Later-exec_call)

  pub Later-exec_status : Returns (Later w0) (exec_status env)
  unfolding exec_status
  Later-exec_status = search (later_steps, Later-exec_call)

  pub Later-runner_version : Returns (Later w0) (runner_version env)
  unfolding runner_version
  Later-runner_version = search later_steps

  pub Later-resolve_url : Returns (Later w0) (resolve_url env)
  unfolding resolve_url
  Later-resolve_url = search (later_steps, Later-runner_version)

  pub Later-download_url : Returns (Later w0) (download_url env)
  unfolding download_url
  Later-download_url = search (later_steps, Later-resolve_url)

  pub Later-drop_stale_runner : Returns (Later w0) (drop_stale_runner env)
  unfolding drop_stale_runner
  Later-drop_stale_runner = search (later_steps, Later-remove_call)

  pub Later-name_runner : Returns (Later w0) (name_runner env)
  unfolding name_runner
  Later-name_runner = search later_steps

  pub Later-jit_call : Returns (Later w0) (jit_call env)
  unfolding jit_call
  Later-jit_call = search later_steps

  pub Later-launch_script :
      (script : Text) (jit : Text) → Returns (Later w0) (launch_script env script jit)
  unfolding launch_script
  Later-launch_script script jit = search (later_steps, Later-exec_ok) depth 8

  pub Later-register_and_launch : (url : Text) → Returns (Later w0) (register_and_launch env url)
  unfolding register_and_launch
  Later-register_and_launch url =
      search
        (
          later_steps, Later-drop_stale_runner, Later-name_runner, Later-jit_call, Later-persist,
          Later-launch_script,
        )
        depth 12

  pub Later-bootstrap_runner : Returns (Later w0) (bootstrap_runner env)
  unfolding bootstrap_runner
  Later-bootstrap_runner =
      search (later_steps, Later-exec_status, Later-download_url, Later-register_and_launch) depth
        10

  pub Later-fresh_key : Returns (Later w0) (fresh_key env)
  unfolding fresh_key
  Later-fresh_key = search later_steps

  pub Later-create_call : Returns (Later w0) (create_call env)
  unfolding create_call
  Later-create_call = search later_steps

  pub Later-plan_wait : (e : Error) (backoff : ℕ) → Returns (Later w0) (plan_wait env e backoff)
  unfolding plan_wait
  Later-plan_wait e backoff = search (later_steps, Later-fresh_key, Later-upsert_rec) depth 8

  pub Later-mark_running : Returns (Later w0) (mark_running env)
  unfolding mark_running
  Later-mark_running = search (later_steps, Later-persist)

  pub Later-runner_busy : Returns (Later w0) (runner_busy env)
  unfolding runner_busy
  Later-runner_busy = search (later_steps, Later-query_runners)

  pub Later-marker_phase : (status : Result Status) → Returns (Later w0) (marker_phase env status)
  unfolding marker_phase
  Later-marker_phase (err e) = search later_steps
  Later-marker_phase (ok st) = search (later_steps, Later-query_job) depth 8

  Later-on_job_status : (answer : Result JobStatus) → Returns (Later w0) (on_job_status env answer)
  unfolding on_job_status
  Later-on_job_status (err e) = search later_steps
  Later-on_job_status (ok st) = search (later_steps, Later-mark_running) depth 8

  pub Later-poll_phase : Returns (Later w0) (poll_phase env)
  unfolding poll_phase
  Later-poll_phase =
      search (later_steps, Later-get_vm_call, Later-query_job, Later-on_job_status) depth 8

  pub Later-release_phase : Returns (Later w0) (release_phase env)
  unfolding release_phase
  Later-release_phase = search (later_steps, Later-runner_busy) depth 8

  pub Later-pickup_expired : Returns (Later w0) (pickup_expired env)
  unfolding pickup_expired
  Later-pickup_expired =
      search (later_steps, Later-runner_busy, Later-job_already_finished) depth 10

  pub Later-pickup_phase : Returns (Later w0) (pickup_phase env)
  unfolding pickup_phase
  Later-pickup_phase = search (later_steps, Later-pickup_expired) depth 10
