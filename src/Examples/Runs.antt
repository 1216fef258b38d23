-- ===== src/Examples/Runs.antt =====
-- Runs of `runJob` of internal/scaler/job.go in the service of Examples.Service.
use mini_control_action.Prelude.{
  none, ◌∷◌, ◌+◌, ◌≤◌, ◌≢◌, ◌≡◌, refl, ◌⊎◌, inl, true, some, [], Text, codes, is_lit,
}
use mini_control_action.Errors.{ok}
use mini_control_action.State.{failed, key_of, Record, terminal}
use mini_control_action.State.Store.{get, upsert}
use mini_control_action.Scaler.World.{◌>>=◌, ask, upsert_rec, persist, cancelled}
use mini_control_action.Scaler.Cleanup.{delete_vm}
use mini_control_action.Scaler.Create.{fresh_key, create_vm}
use mini_control_action.Scaler.Boot.{wait_ready, bootstrap_runner}
use mini_control_action.Scaler.Attempt.{run_job}
use mini_control_action.Scaler.Durability.{KeysDurable}
use mini_control_action.Scaler.Durability.Runs.{run_job-KeysDurable}
use mini_control_action.Scaler.Settled.{DeleteOk, failures}
use mini_control_action.Scaler.Settled.Deletes.{delete_vm-settle}
use mini_control_action.Scaler.Settled.{IsSettled, WasCreated}
use mini_control_action.Scaler.Settled.Creates.{IsReady}
use mini_control_action.Scaler.Settled.Runs.{IsRunning, run_job_settles_vms}
use mini_control_action.Scaler.Release.{WasUsable, wait_ready_needs_usable}
use mini_control_action.Scaler.World.{Env, get_rec, emit}
use mini_control_action.Examples.Service.{env, worker, with_vm, waiting_job}

-- Two attempts fail in the bootstrap, and the job is given up.
two_attempts : (run_job env 2 3 worker).0 ≡ some tt
unfolding run_job codes is_lit ◌>>=◌ ask upsert_rec persist cancelled fresh_key create_vm wait_ready
    bootstrap_runner delete_vm upsert
two_attempts = refl

ends_failed : (run_job env 2 3 worker).1.rec.state ≡ failed
unfolding run_job codes is_lit ◌>>=◌ ask upsert_rec persist cancelled fresh_key create_vm wait_ready
    bootstrap_runner delete_vm upsert
ends_failed = refl

env-IsRunning : IsRunning env
env-IsRunning = record { alive = λ n. refl; fires = λ n. refl; place = λ n. refl }

worker-IsReady : IsReady worker
worker-IsReady = inl (refl, record { each = λ id m. absurd m })

run_job_settles_vms_example :
    let w' = (run_job env 2 3 worker).1 in
    (terminal w'.rec.state ≡ true)
    × ((r : Record) × (get w'.store (key_of w'.rec) ≡ some r) × (r.state ≡ w'.rec.state))
    × ((id : Text) → WasCreated id w'.trace → id ≢ [] → IsSettled id w'.trace)
run_job_settles_vms_example =
    run_job_settles_vms env 2 3 worker env-IsRunning worker-IsReady two_attempts

run_job-KeysDurable_example : KeysDurable (run_job env 2 3 worker).1.trace
run_job-KeysDurable_example = run_job-KeysDurable env 2 3 worker tt

delete_vm-settle_example :
    let (r, w') = delete_vm env with_vm in
    (r ≡ some tt)
    × ((with_vm.rec.vm_id ≡ [])
        ⊎ DeleteOk with_vm.rec.vm_id w'.trace
        ⊎ (3 + failures with_vm.rec.vm_id with_vm.trace ≤ failures with_vm.rec.vm_id w'.trace))
delete_vm-settle_example = delete_vm-settle env with_vm

becomes_ready : (wait_ready env 2 with_vm).0 ≡ some none
unfolding wait_ready get_rec ask emit ◌>>=◌ codes is_lit
becomes_ready = refl

wait_ready_needs_usable_example : WasUsable env (9 ∷ [])
wait_ready_needs_usable_example = wait_ready_needs_usable env 2 with_vm becomes_ready

-- The job was done by another runner, and no runner is listed: the third tick lets the VM go.
abbrev done_elsewhere : Env
done_elsewhere = record env {
  job_status = λ n repo id. ok (record waiting_job { status = codes "completed" });
}
