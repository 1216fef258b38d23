-- ===== src/Scaler/Attempt.antt =====
-- `attempt` and `runJob` of internal/scaler/job.go. An early return is a stage that has a result.
-- One fuel bounds the rounds of each loop, another the retries.
use mini_control_action.Prelude.{
  ℕ, zero, suc, ◌+◌, ◌*◌, Bool, true, false, not, ◌||◌, Option, none, some, [], pos, int_le,
  is_empty, if◌then◌else◌,
}
use mini_control_action.Errors.{Error, persist_key}
use mini_control_action.State.{
  JobState, queued, creating, wait_ready, bootstrapping, runner_up, job_running, job_done, deleting,
  complete, failed,
}
use mini_control_action.Scaler.World.{
  Env, M, ◌>>=◌, ◌>>◌, ◌otherwise◌, pure, on_option, out_of_fuel, get_rec, set_rec, ask, sleep,
  cancelled, upsert_rec, persist, job_already_finished, is_done,
}
use mini_control_action.Scaler.Cleanup.{delete_vm, remove_runner_registration}
use mini_control_action.Scaler.Create.{Created, got, not_needed, create_error, fresh_key, create_vm}
use mini_control_action.Scaler.Boot
use mini_control_action.Scaler.Boot.{bootstrap_runner}
use mini_control_action.Scaler.Monitor.{Outcome, completed, not_ours, broke, monitor}

-- What `attempt` returns: whether to retry, and the error.
pub record Exit : Type 0 where
  pub retryable : Bool
  pub error : Option Error

abbrev pub is_queued : JobState → Bool
is_queued queued = true
is_queued _ = false

abbrev pub needs_create : JobState → Bool
needs_create queued = true
needs_create creating = true
needs_create _ = false

abbrev pub needs_ready : JobState → Bool
needs_ready wait_ready = true
needs_ready _ = false

abbrev pub needs_bootstrap : JobState → Bool
needs_bootstrap bootstrapping = true
needs_bootstrap _ = false

abbrev pub needs_monitor : JobState → Bool
needs_monitor runner_up = true
needs_monitor job_running = true
needs_monitor _ = false

abbrev pub needs_delete : JobState → Bool
needs_delete job_done = true
needs_delete deleting = true
needs_delete _ = false

unfoldable pub set_state : JobState → M (Unit {0})
unfolding set_rec
set_state st = set_rec (λ r. record r { state = st })

module _ (env : Env) where
  -- `failCleanup`: a shutdown keeps the VM for the next start.
  unfoldable pub fail_cleanup : Error → M Exit
  unfolding pure
  fail_cleanup e = do
    stopping ← cancelled env
    (if stopping
        then pure (record { retryable = false; error = some e })
        else (do delete_vm env; pure (record { retryable = true; error = some e })))

  -- A stage's error, with the cleanup; `none` goes on in the state `next`.
  unfoldable pub proceed : JobState → Option Error → M (Option Exit)
  unfolding fail_cleanup set_state pure
  proceed next none = do set_state next; persist env; pure none
  proceed next (some e) = do x ← fail_cleanup e; pure (some x)

  unfoldable pub after_create : Created → M (Option Exit)
  unfolding set_state set_rec pure
  after_create (create_error retryable e) =
      pure (some (record { retryable = retryable; error = some e }))
  after_create not_needed = do
    set_state complete
    persist env
    pure (some (record { retryable = false; error = none }))
  after_create (got vm) = do
    set_rec (λ r. record r { vm_id = vm.id; state = wait_ready })
    persist env
    pure none

  unfoldable pub mint_key : M (Unit {0})
  unfolding get_rec pure
  mint_key = do
    r ← get_rec
    (if is_empty r.idempotency_key || is_queued r.state then fresh_key env else pure tt)

  unfoldable pub create_steps : ℕ → M (Option Exit)
  unfolding mint_key set_state after_create pure
  create_steps fuel = do
    mint_key
    set_state creating
    written ← upsert_rec env
    on_option written (do created ← create_vm env fuel; after_create created)
        (λ e. pure (some (record { retryable = true; error = some (persist_key e) })))

  unfoldable pub create_stage : ℕ → M (Option Exit)
  unfolding create_steps get_rec pure
  create_stage fuel = do
    r ← get_rec
    (if needs_create r.state then create_steps fuel else pure none)

  unfoldable pub ready_stage : ℕ → M (Option Exit)
  unfolding proceed get_rec pure
  ready_stage fuel = do
    r ← get_rec
    (if needs_ready r.state
        then (do e ← Boot.wait_ready env fuel; proceed bootstrapping e)
        else pure none)

  unfoldable pub bootstrap_stage : M (Option Exit)
  unfolding proceed get_rec pure
  bootstrap_stage = do
    r ← get_rec
    (if needs_bootstrap r.state
        then (do e ← bootstrap_runner env; proceed runner_up e)
        else pure none)

  abbrev outcome_error : Outcome → Option Error
  outcome_error completed = none
  outcome_error not_ours = none
  outcome_error (broke e) = some e

  unfoldable pub monitor_stage : ℕ → M (Option Exit)
  unfolding proceed get_rec pure
  monitor_stage fuel = do
    r ← get_rec
    (if needs_monitor r.state
        then (do o ← monitor env fuel; proceed job_done (outcome_error o))
        else pure none)

  unfoldable pub delete_stage : M (Option Exit)
  unfolding set_state get_rec pure
  delete_stage = do
    r ← get_rec
    (if needs_delete r.state
        then (do
          set_state deleting
          persist env
          delete_vm env
          remove_runner_registration env
          set_state complete
          persist env
          pure none)
        else pure none)

  abbrev pub exit_of : Option Exit → Exit
  exit_of none = record { retryable = false; error = none }
  exit_of (some x) = x

  unfoldable pub attempt : ℕ → M Exit
  unfolding create_stage ready_stage bootstrap_stage monitor_stage delete_stage ◌otherwise◌ pure
  attempt fuel = do
    x ←
        create_stage fuel
        otherwise ready_stage fuel
        otherwise bootstrap_stage
        otherwise monitor_stage fuel
        otherwise delete_stage
    pure (exit_of x)

  unfoldable pub give_up : Error → M (Unit {0})
  unfolding set_rec
  give_up e = do
    set_rec (λ r. record r { state = failed; last_error = env.show_error e })
    persist env

  unfoldable pub reset_for_retry : M (Unit {0})
  unfolding set_rec
  reset_for_retry = do
    set_rec (λ r. record r {
      retry = r.retry + 1;
      state = queued;
      vm_id = [];
      idempotency_key = [];
      runner_name = [];
      runner_id = 0;
    })
    persist env

  unfoldable pub retry_pause : M Bool
  unfolding get_rec
  retry_pause = do r ← get_rec; sleep env (r.retry * env.cfg.limits.capacity_backoff.initial)

  -- After a failed attempt: whether the loop goes round once more.
  unfoldable pub after_failure : Bool → Error → M Bool
  unfolding give_up reset_for_retry retry_pause set_state get_rec pure
  after_failure retryable e = do
    r ← get_rec
    (if not retryable || int_le env.cfg.limits.max_retries_per_job (pos r.retry)
        then (do give_up e; pure false)
        else (do
          answer ← job_already_finished env
          (if is_done answer
              then (do set_state complete; persist env; pure false)
              else (do reset_for_retry; retry_pause))))

  -- One round of the loop of `runJob`.
  unfoldable pub job_round : ℕ → M Bool
  unfolding attempt after_failure pure
  job_round fuel = do
    x ← attempt fuel
    on_option x.error (pure false) (λ e. do
      stopping ← cancelled env
      (if stopping then pure false else after_failure x.retryable e))

  unfoldable pub job_round_then : ℕ → M (Unit {0}) → M (Unit {0})
  unfolding job_round pure
  job_round_then fuel rest = do again ← job_round fuel; (if again then rest else pure tt)

  unfoldable pub job_loop : ℕ → ℕ → M (Unit {0})
  unfolding job_round_then out_of_fuel
  job_loop zero fuel = out_of_fuel
  job_loop (suc rounds) fuel = job_round_then fuel (job_loop rounds fuel)

  -- `runJob`: a worker that gets no place among the VMs before a shutdown does nothing.
  unfoldable pub run_job : ℕ → ℕ → M (Unit {0})
  unfolding job_loop pure
  run_job rounds fuel = do
    place ← ask env env.acquired
    (if place then job_loop rounds fuel else pure tt)
