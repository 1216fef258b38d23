-- ===== src/Scaler/Create.antt =====
-- `createVM` of internal/scaler/job.go. The fuel bounds the rounds of its loop.
use mini_control_action.Prelude.{
  ℕ, zero, suc, ◌+◌, ◌*◌, min, Bool, true, false, Option, none, some, Text, ltb, if◌then◌else◌,
}
use mini_control_action.Errors.{
  Error, context_done, persist_key, create_failed, gave_up, Result, ok, err,
}
use mini_control_action.State.{new_idem_key}
use mini_control_action.Minicontrol.{Vm, CreateVmRequest, is_capacity, retry_delay, second}
use mini_control_action.Scaler.World.{
  Env, M, ◌>>=◌, ◌>>◌, pure, on_option, on_result, out_of_fuel, get_rec, set_rec, emit, now, ask,
  sleep, upsert_rec, job_already_finished, is_done, create_sent,
}

-- The three ways to return: a VM, no VM and no error, or whether to retry and an error.
pub data Created : Type 0 where
  got : Vm → Created
  not_needed : Created
  create_error : Bool → Error → Created

-- What a failed create leads to: give up, or wait and go on with the next backoff.
pub data Plan : Type 0 where
  stop : Created → Plan
  wait_for : ℕ → ℕ → Plan

abbrev pub on_plan : Plan → (Created → M Created) → (ℕ → ℕ → M Created) → M Created
on_plan (stop c) f g = f c
on_plan (wait_for wait backoff) f g = g wait backoff

abbrev pub vm_id_of : Result Vm → Option Text
vm_id_of (ok vm) = some vm.id
vm_id_of (err e) = none

module _ (env : Env) where
  -- `rec.IdempotencyKey = state.NewIdemKey(rec.JobID, rec.RunAttempt, rec.Retry)`
  unfoldable pub fresh_key : M (Unit {0})
  unfolding ask set_rec
  fresh_key = do
    nonce ← ask env env.nonce
    set_rec (λ r. record r { idempotency_key = new_idem_key r.job_id r.run_attempt r.retry nonce })

  abbrev request : CreateVmRequest
  request = record { sku = env.cfg.minicontrol.sku; tag = env.cfg.minicontrol.worker_tag }

  unfoldable pub create_call : M (Result Vm)
  unfolding get_rec ask emit pure
  create_call = do
    r ← get_rec
    answer ← ask env (λ n. env.create_vm n request r.idempotency_key)
    emit (create_sent r.idempotency_key (vm_id_of answer))
    pure answer

  abbrev after_upsert : ℕ → Option Error → Plan
  after_upsert backoff (some e) = stop (create_error true (persist_key e))
  after_upsert backoff none =
      wait_for backoff (min (backoff * 2) env.cfg.limits.capacity_backoff.max)

  abbrev after_other : Error → ℕ → Option ℕ → Plan
  after_other e backoff none = stop (create_error true (create_failed e))
  after_other e backoff (some d) = wait_for (d + second) backoff

  unfoldable pub plan_wait : Error → ℕ → M Plan
  unfolding fresh_key upsert_rec pure
  plan_wait e backoff =
      if is_capacity e
      then (do fresh_key; written ← upsert_rec env; pure (after_upsert backoff written))
      else pure (after_other e backoff (retry_delay e))

  -- The wait, with the tests around it: `none` means that the loop goes on.
  unfoldable pub wait_round : Error → ℕ → ℕ → M (Option Created)
  unfolding now sleep job_already_finished pure
  wait_round e deadline wait = do
    t ← now
    (if ltb deadline (t + wait) then pure (some (create_error false (gave_up e))) else (do
      fired ← sleep env wait
      (if fired
          then (do
            answer ← job_already_finished env
            pure (if is_done answer then some not_needed else none))
          else pure (some (create_error false context_done)))))

  -- One round of the loop; `rest` is the rounds after it, from a backoff.
  unfoldable pub create_round : ℕ → ℕ → (ℕ → M Created) → M Created
  unfolding create_call plan_wait wait_round pure
  create_round backoff deadline rest = do
    answer ← create_call
    on_result answer (λ vm. pure (got vm))
        (λ e. do
          plan ← plan_wait e backoff
          on_plan plan pure (λ wait backoff'. do
            result ← wait_round e deadline wait
            on_option result (rest backoff') pure))

  unfoldable pub create_loop : ℕ → ℕ → ℕ → M Created
  unfolding create_round out_of_fuel
  create_loop zero deadline backoff = out_of_fuel
  create_loop (suc fuel) deadline backoff =
      create_round backoff deadline (create_loop fuel deadline)

  unfoldable pub create_vm : ℕ → M Created
  unfolding create_loop now
  create_vm fuel = do
    t ← now
    create_loop fuel (t + env.cfg.runner.max_job_duration) env.cfg.limits.capacity_backoff.initial
