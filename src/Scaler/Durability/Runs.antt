-- ===== src/Scaler/Durability/Runs.antt =====
-- The durability of idempotency keys over whole runs of `runJob`, with every failure, crash point and
-- retry that the environment may bring about.
use mini_control_action.Prelude.{Bool, ℕ, zero, suc, Option, none, some}
use mini_control_action.Errors.{Error}
use mini_control_action.State.{JobState, creating}
use mini_control_action.Scaler.World.{
  Env, Worker, M, on_option, get_rec, ask, sleep, cancelled, persist, job_already_finished,
}
use mini_control_action.Scaler.Keeps.{Keeps, Keeps-gets, Keeps-out_of_fuel, keeps_rules}
use mini_control_action.Scaler.Frame.{
  Frame-ask, Frame-persist, Frame-cancelled, Frame-sleep, Frame-job_already_finished,
}
use mini_control_action.Scaler.Frame.Actions.{
  Frame-delete_vm, Frame-remove_runner_registration, Frame-wait_ready, Frame-bootstrap_runner,
  Frame-monitor,
}
use mini_control_action.Scaler.Ensures.{Ensures, Ensures-bind, Ensures-of_Keeps, Keeps-of_Ensures}
use mini_control_action.Scaler.Create.{Created, got, not_needed, create_error, fresh_key}
use mini_control_action.Scaler.Boot
use mini_control_action.Scaler.Boot.{bootstrap_runner}
use mini_control_action.Scaler.Monitor.{monitor}
use mini_control_action.Scaler.Cleanup.{delete_vm, remove_runner_registration}
use mini_control_action.Scaler.Attempt.{
  set_state, fail_cleanup, proceed, after_create, mint_key, create_steps, create_stage, ready_stage,
  bootstrap_stage, monitor_stage, delete_stage, attempt, give_up, reset_for_retry, retry_pause,
  after_failure, job_round, job_round_then, job_loop, run_job,
}
use mini_control_action.Scaler.Durability.{
  KeysDurable, Durable, Armed, Durable_of_Frame, Durable-set_rec, AfterWrite, Ensures-upsert_rec,
  Ensures-create_vm,
}

module _ (env : Env) where
  D-ask : {A : Type 0} (f : ℕ → A) → Keeps Durable (ask env f)
  D-ask f = Durable_of_Frame (λ w. Frame-ask env f)

  D-get_rec : Keeps Durable get_rec
  unfolding get_rec
  D-get_rec = Keeps-gets _

  D-persist : Keeps Durable (persist env)
  D-persist = Durable_of_Frame (λ w. Frame-persist env)

  D-cancelled : Keeps Durable (cancelled env)
  D-cancelled = Durable_of_Frame (λ w. Frame-cancelled env)

  D-sleep : (d : ℕ) → Keeps Durable (sleep env d)
  D-sleep d = Durable_of_Frame (λ w. Frame-sleep env d)

  D-job_already_finished : Keeps Durable (job_already_finished env)
  D-job_already_finished = Durable_of_Frame (λ w. Frame-job_already_finished env)

  D-delete_vm : Keeps Durable (delete_vm env)
  D-delete_vm = Durable_of_Frame (λ w. Frame-delete_vm env)

  D-remove_runner_registration : Keeps Durable (remove_runner_registration env)
  D-remove_runner_registration = Durable_of_Frame (λ w. Frame-remove_runner_registration env)

  D-wait_ready : (fuel : ℕ) → Keeps Durable (Boot.wait_ready env fuel)
  D-wait_ready fuel = Durable_of_Frame (λ w. Frame-wait_ready env fuel)

  D-bootstrap_runner : Keeps Durable (bootstrap_runner env)
  D-bootstrap_runner = Durable_of_Frame (λ w. Frame-bootstrap_runner env)

  D-monitor : (fuel : ℕ) → Keeps Durable (monitor env fuel)
  D-monitor fuel = Durable_of_Frame (λ w. Frame-monitor env fuel)

D-set_state : (st : JobState) → Keeps Durable (set_state st)
unfolding set_state
D-set_state st = Durable-set_rec _

ruleset durable_steps = (
  keeps_rules, Durable-set_rec, D-set_state, D-ask, D-get_rec, D-persist, D-cancelled, D-sleep,
  D-job_already_finished, D-delete_vm, D-remove_runner_registration, D-wait_ready,
  D-bootstrap_runner, D-monitor,
)

module _ (env : Env) where
  D-fail_cleanup : (e : Error) → Keeps Durable (fail_cleanup env e)
  unfolding fail_cleanup
  D-fail_cleanup e = search durable_steps

  D-proceed : (next : JobState) (e : Option Error) → Keeps Durable (proceed env next e)
  unfolding proceed
  D-proceed next none = search durable_steps
  D-proceed next (some e) = search (durable_steps, D-fail_cleanup)

  D-after_create : (c : Created) → Keeps Durable (after_create env c)
  unfolding after_create
  D-after_create (got vm) = search durable_steps
  D-after_create not_needed = search durable_steps
  D-after_create (create_error b e) = search durable_steps

  D-fresh_key : Keeps Durable (fresh_key env)
  unfolding fresh_key
  D-fresh_key = search durable_steps

  D-mint_key : Keeps Durable (mint_key env)
  unfolding mint_key
  D-mint_key = search (durable_steps, D-fresh_key)

  whole : (w : Worker) → Durable w → Durable w
  whole w h = h

  Ensures-write :
      {A : Type 0} (o : Option Error) {n : M A} {f : Error → M A}
      → Ensures Durable Armed n (λ _. Durable)
      → ((e : Error) → Ensures Durable Durable (f e) (λ _. Durable))
      → Ensures Durable (AfterWrite o) (on_option o n f) (λ _. Durable)
  unfolding AfterWrite
  Ensures-write none kn kf = kn
  Ensures-write (some e) kn kf = kf e

  D-create_steps : (fuel : ℕ) → Keeps Durable (create_steps env fuel)
  unfolding create_steps
  D-create_steps fuel = Keeps-of_Ensures (
      Ensures-bind (Ensures-of_Keeps D-mint_key whole) λ _.
        Ensures-bind (Ensures-of_Keeps (D-set_state creating) whole) λ _.
          Ensures-bind (Ensures-upsert_rec env) λ o.
            Ensures-write o
              (Ensures-bind (Ensures-create_vm env fuel)
                (λ c. Ensures-of_Keeps (D-after_create c) whole))
              (λ e. Ensures-of_Keeps (search durable_steps) whole))

  D-create_stage : (fuel : ℕ) → Keeps Durable (create_stage env fuel)
  unfolding create_stage
  D-create_stage fuel = search (durable_steps, D-create_steps)

  D-ready_stage : (fuel : ℕ) → Keeps Durable (ready_stage env fuel)
  unfolding ready_stage
  D-ready_stage fuel = search (durable_steps, D-proceed)

  D-bootstrap_stage : Keeps Durable (bootstrap_stage env)
  unfolding bootstrap_stage
  D-bootstrap_stage = search (durable_steps, D-proceed)

  D-monitor_stage : (fuel : ℕ) → Keeps Durable (monitor_stage env fuel)
  unfolding monitor_stage
  D-monitor_stage fuel = search (durable_steps, D-proceed)

  D-delete_stage : Keeps Durable (delete_stage env)
  unfolding delete_stage
  D-delete_stage = search durable_steps depth 12

  D-attempt : (fuel : ℕ) → Keeps Durable (attempt env fuel)
  unfolding attempt
  D-attempt fuel =
      search
        (
          durable_steps, D-create_stage, D-ready_stage, D-bootstrap_stage, D-monitor_stage,
          D-delete_stage,
        )
        depth 8

  D-after_failure : (b : Bool) (e : Error) → Keeps Durable (after_failure env b e)
  unfolding after_failure give_up reset_for_retry retry_pause
  D-after_failure b e = search durable_steps depth 12

  D-job_round_then :
      (fuel : ℕ) (rest : M (Unit {0}))
      → Keeps Durable rest
      → Keeps Durable (job_round_then env fuel rest)
  unfolding job_round_then job_round
  D-job_round_then fuel rest k = search (durable_steps, D-attempt, D-after_failure) depth 10

  D-job_loop : (rounds fuel : ℕ) → Keeps Durable (job_loop env rounds fuel)
  unfolding job_loop
  D-job_loop zero fuel = Keeps-out_of_fuel
  D-job_loop (suc rounds) fuel =
      D-job_round_then fuel (job_loop env rounds fuel) (D-job_loop rounds fuel)

  D-run_job : (rounds fuel : ℕ) → Keeps Durable (run_job env rounds fuel)
  unfolding run_job
  D-run_job rounds fuel = search (durable_steps, D-job_loop)

-- Whatever the environment answers and wherever the run is cut off: each create that `runJob` has
-- sent carried the key of the record that this worker had last written, and that write of the state
-- file had succeeded. (The trace it starts with has the same property, as an empty one does.)
pub run_job-KeysDurable :
    (env : Env) (rounds fuel : ℕ) (w : Worker)
    → KeysDurable w.trace
    → KeysDurable (run_job env rounds fuel w).1.trace
run_job-KeysDurable env rounds fuel w h = (D-run_job env rounds fuel).at w h
