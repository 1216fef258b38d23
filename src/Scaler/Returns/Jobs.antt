-- ===== src/Scaler/Returns/Jobs.antt =====
-- Time and retries in one `attempt` of internal/scaler/job.go.
use mini_control_action.Prelude.{ℕ, ◌<◌, refl, Option, none, some}
use mini_control_action.Errors.{Error}
use mini_control_action.State.{JobState}
use mini_control_action.Scaler.World.{
  Env, get_rec, cancelled, upsert_rec, persist, job_already_finished,
}
use mini_control_action.Scaler.Cleanup.{delete_vm, remove_runner_registration}
use mini_control_action.Scaler.Create.{Created, got, not_needed, create_error, fresh_key}
use mini_control_action.Scaler.Create
use mini_control_action.Scaler.Boot
use mini_control_action.Scaler.Boot.{bootstrap_runner}
use mini_control_action.Scaler.Monitor.{monitor}
use mini_control_action.Scaler.Attempt.{
  set_state, fail_cleanup, proceed, after_create, mint_key, create_steps, create_stage, ready_stage,
  bootstrap_stage, monitor_stage, delete_stage, attempt,
}
use mini_control_action.Scaler.Returns.{Returns, Returns-gets, Returns-bind, returns_rules}
use mini_control_action.Scaler.Returns.Actions.{
  Later-set_rec, Later-persist, Later-upsert_rec, Later-cancelled, Later-delete_vm,
  Later-remove_runner_registration, Later-fresh_key, Later-bootstrap_runner,
  Later-job_already_finished,
}
use mini_control_action.Scaler.Returns.Waits.{
  IsPrompt, Late, Returns-Late, Late-wait_ready, Late-create_vm,
}
use mini_control_action.Scaler.Returns.Watching.{Late-monitor}

module _ (env : Env) {n : ℕ} where
  pub L-get_rec : Returns (Late n 0) get_rec
  unfolding get_rec
  L-get_rec = Returns-gets _

  pub L-set_state : (st : JobState) → Returns (Late n 0) (set_state st)
  unfolding set_state
  L-set_state st = Returns-Late (λ w. Later-set_rec _ (λ r. refl))

  pub L-persist : Returns (Late n 0) (persist env)
  L-persist = Returns-Late (λ w. Later-persist env)

  pub L-cancelled : Returns (Late n 0) (cancelled env)
  L-cancelled = Returns-Late (λ w. Later-cancelled env)

  L-delete_vm : Returns (Late n 0) (delete_vm env)
  L-delete_vm = Returns-Late (λ w. Later-delete_vm env)

  L-remove_runner_registration : Returns (Late n 0) (remove_runner_registration env)
  L-remove_runner_registration = Returns-Late (λ w. Later-remove_runner_registration env)

  L-fresh_key : Returns (Late n 0) (fresh_key env)
  L-fresh_key = Returns-Late (λ w. Later-fresh_key env)

  L-upsert_rec : Returns (Late n 0) (upsert_rec env)
  L-upsert_rec = Returns-Late (λ w. Later-upsert_rec env)

  L-bootstrap_runner : Returns (Late n 0) (bootstrap_runner env)
  L-bootstrap_runner = Returns-Late (λ w. Later-bootstrap_runner env)

  pub L-job_already_finished : Returns (Late n 0) (job_already_finished env)
  L-job_already_finished = Returns-Late (λ w. Later-job_already_finished env)

ruleset job_steps = (
  returns_rules, L-get_rec, L-set_state, L-persist, L-cancelled, L-delete_vm,
  L-remove_runner_registration, L-fresh_key, L-upsert_rec, L-bootstrap_runner,
  L-job_already_finished,
)

module _ (env : Env) {n : ℕ} where
  L-fail_cleanup : (e : Error) → Returns (Late n 0) (fail_cleanup env e)
  unfolding fail_cleanup
  L-fail_cleanup e = search job_steps depth 8

  L-proceed : (st : JobState) (e : Option Error) → Returns (Late n 0) (proceed env st e)
  unfolding proceed
  L-proceed st none = search job_steps depth 8
  L-proceed st (some e) = search (job_steps, L-fail_cleanup) depth 8

  L-after_create : (c : Created) → Returns (Late n 0) (after_create env c)
  unfolding after_create
  L-after_create (create_error b e) = search job_steps
  L-after_create not_needed = search job_steps depth 8
  L-after_create (got vm) =
      Returns-bind _ _ (Returns-Late (λ w. Later-set_rec _ (λ r. refl)))
        (λ _. search job_steps depth 8)

  L-mint_key : Returns (Late n 0) (mint_key env)
  unfolding mint_key
  L-mint_key = search job_steps depth 8

-- Enough fuel for each loop of one attempt.
pub record IsEnough (env : Env) (fuel : ℕ) : Type 0 where
  pub job : env.cfg.runner.max_job_duration < fuel
  pub ready : env.cfg.minicontrol.provision_timeout < fuel

module _ (env : Env) (prompt : IsPrompt env) (fuel : ℕ) (enough : IsEnough env fuel) {n : ℕ} where
  L-create_stage_of :
      Returns (Late n 0) (Create.create_vm env fuel) → Returns (Late n 0) (create_stage env fuel)
  unfolding create_stage create_steps
  L-create_stage_of k = search (job_steps, L-mint_key, L-after_create) depth 12

  L-create_stage : Returns (Late n 0) (create_stage env fuel)
  L-create_stage = L-create_stage_of (Late-create_vm env prompt fuel enough.job)

  L-ready_stage_of :
      Returns (Late n 0) (Boot.wait_ready env fuel) → Returns (Late n 0) (ready_stage env fuel)
  unfolding ready_stage
  L-ready_stage_of k = search (job_steps, L-proceed) depth 8

  L-ready_stage : Returns (Late n 0) (ready_stage env fuel)
  L-ready_stage = L-ready_stage_of (Late-wait_ready env prompt fuel enough.ready)

  L-bootstrap_stage : Returns (Late n 0) (bootstrap_stage env)
  unfolding bootstrap_stage
  L-bootstrap_stage = search (job_steps, L-proceed) depth 8

  L-monitor_stage_of :
      Returns (Late n 0) (monitor env fuel) → Returns (Late n 0) (monitor_stage env fuel)
  unfolding monitor_stage
  L-monitor_stage_of k = search (job_steps, L-proceed) depth 8

  L-monitor_stage : Returns (Late n 0) (monitor_stage env fuel)
  L-monitor_stage = L-monitor_stage_of (Late-monitor env prompt fuel enough.job)

  L-delete_stage : Returns (Late n 0) (delete_stage env)
  unfolding delete_stage
  L-delete_stage = search job_steps depth 12

  pub L-attempt : Returns (Late n 0) (attempt env fuel)
  unfolding attempt
  L-attempt =
      search
        (
          job_steps, L-create_stage, L-ready_stage, L-bootstrap_stage, L-monitor_stage,
          L-delete_stage,
        )
        depth 10
