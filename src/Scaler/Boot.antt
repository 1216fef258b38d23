-- ===== src/Scaler/Boot.antt =====
-- `waitReady`, `bootstrapRunner`, `execOK` and `execStatus` of internal/scaler/job.go, and
-- `downloadURL` of internal/scaler/scaler.go. The fuel bounds the rounds of the readiness loop.
use mini_control_action.Prelude.{
  ℕ, zero, suc, ◌+◌, Bool, false, not, ◌&&◌, ◌||◌, Option, none, some, ◌++◌, Text, pos, int_eq,
  codes, decimal, String, [], is_lit, is_empty, contains, take, truncate, ltb, ◌==◌, if◌then◌else◌,
}
use mini_control_action.Errors.{
  Error, context_done, vm_disappeared, vm_deleting, vm_not_ready, vm_error_state, resolve_download,
  jit_config, stage_failed, launch_failed, exec_failed, Result, ok, err,
}
use mini_control_action.Minicontrol.{Vm, ExecResult, is_not_found}
use mini_control_action.Bootstrap.{Status, launched, parse_status}
use mini_control_action.Bootstrap.Commands.{
  stage_command, launch_command, status_command, mirror_url, default_download_url,
}
use mini_control_action.Scaler.World.{
  Env, M, ◌>>=◌, ◌>>◌, pure, on_option, on_result, gets, out_of_fuel, get_rec, set_rec, set_url,
  emit, now, ask, sleep, persist, get_sent, exec_sent, jit_sent,
}
use mini_control_action.Scaler.Cleanup.{remove_call}

-- What one poll of the VM decides: `none` polls again.
unfoldable pub ready_verdict : Text → Result Vm → Option (Option Error)
ready_verdict id (err e) = if is_not_found e then some (some (vm_disappeared id)) else none
ready_verdict id (ok vm) =
    if is_lit vm.status "ready"
    then (if not (is_empty vm.username) && not (is_empty vm.websocket_url) then some none else none)
    else if is_lit vm.status "error"
    then some (some (vm_error_state id vm.last_error))
    else if is_lit vm.status "deleting"
    then some (some (vm_deleting id))
    else none

abbrev pub read_status : Result ExecResult → Result Status
read_status (ok res) = ok (parse_status res.stdout)
read_status (err e) = err e

unfoldable pub exec_verdict : String → Result ExecResult → Option Error
exec_verdict sentinel (err e) = some e
exec_verdict sentinel (ok res) =
    if not (int_eq res.exit_code (pos 0)) || not (contains res.stdout (codes sentinel))
    then some (exec_failed res.exit_code (truncate res.stdout 200) (truncate res.stderr 200))
    else none

unfoldable pub is_launched : Result Status → Bool
is_launched (ok st) = launched st
is_launched (err e) = false

module _ (env : Env) where
  unfoldable pub get_vm_call : M (Result Vm)
  unfolding ask get_rec emit pure
  get_vm_call = do
    r ← get_rec
    answer ← ask env (λ n. env.get_vm n r.vm_id)
    emit (get_sent r.vm_id)
    pure answer

  -- One round of the loop; `rest` is the rounds after it.
  unfoldable pub poll_vm : ℕ → M (Option Error) → M (Option Error)
  unfolding get_vm_call ready_verdict get_rec now sleep pure
  poll_vm deadline rest = do
    r ← get_rec
    answer ← get_vm_call
    on_option (ready_verdict r.vm_id answer)
        (do
          t ← now
          (if ltb deadline t then pure (some (vm_not_ready r.vm_id)) else (do
            fired ← sleep env env.cfg.minicontrol.poll_interval
            (if fired then rest else pure (some context_done)))))
        pure

  unfoldable pub wait_ready_loop : ℕ → ℕ → M (Option Error)
  unfolding poll_vm out_of_fuel
  wait_ready_loop zero deadline = out_of_fuel
  wait_ready_loop (suc fuel) deadline = poll_vm deadline (wait_ready_loop fuel deadline)

  unfoldable pub wait_ready : ℕ → M (Option Error)
  unfolding wait_ready_loop now
  wait_ready fuel = do t ← now; wait_ready_loop fuel (t + env.cfg.minicontrol.provision_timeout)

  unfoldable pub exec_call : Text → ℕ → M (Result ExecResult)
  unfolding ask get_rec emit pure
  exec_call command seconds = do
    r ← get_rec
    answer ← ask env (λ n. env.exec n r.vm_id command seconds)
    emit (exec_sent r.vm_id command)
    pure answer

  -- `execOK`: the error, if there is one.
  unfoldable pub exec_ok : Text → String → M (Option Error)
  unfolding exec_call exec_verdict pure
  exec_ok command sentinel = do answer ← exec_call command 60; pure (exec_verdict sentinel answer)

  unfoldable pub exec_status : M (Result Status)
  unfolding exec_call pure
  exec_status = do answer ← exec_call status_command 30; pure (read_status answer)

  abbrev chosen_url : Text → Text → Text
  chosen_url version asset_url =
      if not (is_empty env.cfg.runner.download_url)
      then mirror_url env.cfg.runner.download_url version
      else if not (is_empty asset_url)
      then asset_url
      else default_download_url version

  abbrev configured_version : Result (Text × Text)
  configured_version = ok (env.cfg.runner.version, [])

  unfoldable pub runner_version : M (Result (Text × Text))
  unfolding ask pure
  runner_version =
      if is_lit env.cfg.runner.version "latest"
      then ask env env.latest_runner
      else pure configured_version

  unfoldable pub resolve_url : M (Result Text)
  unfolding runner_version set_url pure
  resolve_url = do
    answer ← runner_version
    on_result answer
        (λ found. do set_url (chosen_url found.0 found.1); pure (ok (chosen_url found.0 found.1)))
        (λ e. pure (err e))

  -- `downloadURL`
  unfoldable pub download_url : M (Result Text)
  unfolding resolve_url gets pure
  download_url = do
    cached ← gets (λ w. w.url_val)
    (if not (is_empty env.cfg.runner.preinstalled_path)
        then pure (ok [])
        else if not (is_empty cached)
        then pure (ok cached)
        else resolve_url)

  -- A registration of an earlier attempt is removed, and its ID forgotten.
  unfoldable pub drop_stale_runner : M (Unit {0})
  unfolding get_rec set_rec pure
  drop_stale_runner = do
    r ← get_rec
    (if r.runner_id == 0
        then pure tt
        else (do remove_call env r.runner_id; set_rec (λ r. record r { runner_id = 0 })))

  -- "<prefix>-<vmid8>-j<jobid>-<nonce>"
  unfoldable pub name_runner : M (Unit {0})
  unfolding ask set_rec
  name_runner = do
    nonce ← ask env env.nonce
    set_rec (λ r. record r {
      runner_name =
          env.cfg.runner.name_prefix
          ++ (codes "-"
              ++ (take 8 r.vm_id ++ (codes "-j" ++ (decimal r.job_id ++ (codes "-" ++ nonce)))));
    })

  unfoldable pub jit_call : M (Result (Text × ℕ))
  unfolding ask get_rec emit pure
  jit_call = do
    r ← get_rec
    answer ←
        ask env
          (λ n. env.jit_config n r.repo r.runner_name env.cfg.runner.labels env.cfg.runner.work_dir)
    emit (jit_sent r.runner_name)
    pure answer

  abbrev wrap : (Error → Error) → Option Error → Option Error
  wrap f none = none
  wrap f (some e) = some (f e)

  unfoldable pub launch_script : Text → Text → M (Option Error)
  unfolding exec_ok pure
  launch_script script jit = do
    staged ← exec_ok (stage_command env.base64 script jit) "staged"
    on_option staged
        (do launched ← exec_ok launch_command "launched"; pure (wrap launch_failed launched))
        (λ e. pure (some (stage_failed e)))

  unfoldable pub register_and_launch : Text → M (Option Error)
  unfolding drop_stale_runner name_runner jit_call launch_script set_rec pure
  register_and_launch url = do
    drop_stale_runner
    name_runner
    answer ← jit_call
    on_result answer
        (λ made. do
          set_rec (λ r. record r { runner_id = made.1 })
          persist env
          on_result (env.render_script url env.cfg.runner.preinstalled_path)
              (λ script. launch_script script made.0) (λ e. pure (some e)))
        (λ e. pure (some (jit_config e)))

  -- `bootstrapRunner`
  unfoldable pub bootstrap_runner : M (Option Error)
  unfolding exec_status is_launched download_url register_and_launch pure
  bootstrap_runner = do
    status ← exec_status
    (if is_launched status then pure none else (do
      url ← download_url
      on_result url register_and_launch (λ e. pure (some (resolve_download e)))))
