-- ===== src/Scaler/Monitor.antt =====
-- `monitor`, `runnerBusy` and `markRunning` of internal/scaler/job.go. The variables of the loop that
-- outlive a round are the worker's `watch`; `lastStatus` is left out, since it is only logged.
use mini_control_action.Prelude.{
  ℕ, zero, suc, ◌+◌, ◌%◌, Bool, true, false, not, ◌&&◌, ◌||◌, Option, none, some, List, [], ◌∷◌,
  Text, pos, int_eq, is_lit, is_empty, text_eq, truncate, ltb, ◌==◌, if◌then◌else◌,
}
use mini_control_action.Errors.{
  Error, context_done, vm_gone, bootstrap_failed, runner_exited, served_another, runner_idle,
  max_duration, Result, ok, err,
}
use mini_control_action.State.{JobState, runner_up, job_running, Record}
use mini_control_action.Minicontrol.{is_not_found}
use mini_control_action.Github.{JobEvent, JobStatus, Runner}
use mini_control_action.Bootstrap.{Status, failed, done}
use mini_control_action.Scaler.World.{
  Env, Wake, cancel, event, tick, M, ◌>>=◌, ◌>>◌, ◌otherwise◌, pure, on_option, gets, out_of_fuel,
  get_rec, set_rec, set_watch, now, ask, persist, query_job, job_already_finished, is_done,
}
use mini_control_action.Scaler.Cleanup.{query_runners}
use mini_control_action.Scaler.Boot.{exec_status, get_vm_call}

-- What `monitor` returns.
pub data Outcome : Type 0 where
  completed : Outcome
  not_ours : Outcome
  broke : Error → Outcome

abbrev pub is_running : JobState → Bool
is_running job_running = true
is_running _ = false

abbrev pub is_runner_up : JobState → Bool
is_runner_up runner_up = true
is_runner_up _ = false

-- "GitHub unknown — trust the exit code."
unfoldable pub by_exit_code : Status → Outcome
by_exit_code st = if int_eq st.exit (pos 0) then completed else broke (runner_exited st.exit)

unfoldable pub is_waiting_status : Text → Bool
is_waiting_status s =
    is_lit s "queued" || (is_lit s "waiting" || (is_lit s "requested" || is_lit s "pending"))

-- The runner has exited: GitHub's status of the record's own job decides.
unfoldable pub exit_outcome : Status → Result JobStatus → Outcome
unfolding by_exit_code is_waiting_status
exit_outcome st (err e) = by_exit_code st
exit_outcome st (ok job) =
    if is_lit job.status "completed"
    then completed
    else if is_lit job.status "in_progress"
    then not_ours
    else if is_waiting_status job.status
    then broke (served_another job.status)
    else by_exit_code st

-- The runner that the record registered is the one that GitHub names.
unfoldable pub is_ours : Record → JobStatus → Bool
is_ours r st =
    (not (st.runner_id == 0) && st.runner_id == r.runner_id)
    || (st.runner_id == 0 && text_eq st.runner_name r.runner_name)

-- The first listed runner with the ID decides; a registration that is gone is not busy.
unfoldable pub busy_in : ℕ → List Runner → Bool
busy_in id [] = false
busy_in id (x ∷ runners) = if x.id == id then x.busy else busy_in id runners

-- Unknown counts as busy.
unfoldable pub busy_answer : ℕ → Result (List Runner) → Bool
unfolding busy_in
busy_answer id (err e) = true
busy_answer id (ok runners) = busy_in id runners

module _ (env : Env) where
  -- `markRunning`
  unfoldable pub mark_running : M (Unit {0})
  unfolding get_rec set_rec pure
  mark_running = do
    r ← get_rec
    (if is_running r.state
        then pure tt
        else (do set_rec (λ r. record r { state = job_running }); persist env))

  -- `runnerBusy`
  unfoldable pub runner_busy : M Bool
  unfolding busy_answer get_rec pure
  runner_busy = do r ← get_rec; answer ← query_runners env; pure (busy_answer r.runner_id answer)

  unfoldable pub on_event : JobEvent → M (Unit {0})
  unfolding mark_running get_rec set_watch pure
  on_event ev = do
    r ← get_rec
    (if is_lit ev.action "in_progress"
        then (if is_empty ev.runner_name || text_eq ev.runner_name r.runner_name
            then mark_running
            else pure tt)
        else if is_lit ev.action "completed"
        then set_watch (λ v. record v { job_done = true })
        else pure tt)

  unfoldable pub marker_phase : Result Status → M (Option Outcome)
  unfolding exit_outcome get_rec pure
  marker_phase (err e) = do
    r ← get_rec
    pure (if is_not_found e then some (broke (vm_gone r.vm_id)) else none)
  marker_phase (ok st) =
      if failed st
      then pure (some (broke (bootstrap_failed st.phase (truncate st.log_tail 400))))
      else if done st
      then (do job ← query_job env; pure (some (exit_outcome st job)))
      else pure none

  unfoldable pub on_job_status : Result JobStatus → M (Unit {0})
  unfolding mark_running is_ours get_rec set_watch pure
  on_job_status (err e) = pure tt
  on_job_status (ok st) = do
    r ← get_rec
    (if is_lit st.status "completed"
        then set_watch (λ v. record v { job_done = true })
        else if is_lit st.status "in_progress" && is_ours r st
        then mark_running
        else pure tt)

  -- Every third tick asks for the VM (to log it) and for the job.
  unfoldable pub poll_phase : M (Option Outcome)
  unfolding on_job_status gets pure
  poll_phase = do
    v ← gets (λ w. w.watch)
    (if v.tick_count % 3 == 0
        then (do get_vm_call env; st ← query_job env; on_job_status st)
        else pure tt)
    pure none

  unfoldable pub release_phase : M (Option Outcome)
  unfolding runner_busy gets pure
  release_phase = do
    v ← gets (λ w. w.watch)
    (if v.job_done
        then (do busy ← runner_busy; pure (if busy then none else some not_ours))
        else pure none)

  unfoldable pub pickup_expired : M (Option Outcome)
  unfolding runner_busy set_watch now pure
  pickup_expired = do
    busy ← runner_busy
    (if busy
        then (do
          t ← now
          set_watch (λ v. record v { pickup_deadline = t + env.cfg.runner.pickup_timeout })
          pure none)
        else (do
          answer ← job_already_finished env
          pure (some (if is_done answer then not_ours else broke runner_idle))))

  unfoldable pub pickup_phase : M (Option Outcome)
  unfolding pickup_expired gets get_rec now pure
  pickup_phase = do
    r ← get_rec
    v ← gets (λ w. w.watch)
    t ← now
    (if is_runner_up r.state && ltb v.pickup_deadline t then pickup_expired else pure none)

  unfoldable pub deadline_phase : M (Option Outcome)
  unfolding gets now pure
  deadline_phase = do
    v ← gets (λ w. w.watch)
    t ← now
    pure (if ltb v.job_deadline t then some (broke max_duration) else none)

  unfoldable pub on_tick : M (Option Outcome)
  unfolding marker_phase poll_phase release_phase pickup_phase deadline_phase set_watch ◌otherwise◌
  on_tick = do
    set_watch (λ v. record v { tick_count = v.tick_count + 1 })
    status ← exec_status env
    marker_phase status
        otherwise poll_phase
        otherwise release_phase
        otherwise pickup_phase
        otherwise deadline_phase

  unfoldable pub on_wake : Wake → M (Option Outcome)
  unfolding on_event on_tick pure
  on_wake cancel = pure (some (broke context_done))
  on_wake (event ev) = do on_event ev; pure none
  on_wake tick = on_tick

  unfoldable pub round : M (Option Outcome)
  unfolding on_wake ask
  round = do woken ← ask env env.wake; on_wake woken

  -- One round of the loop; `rest` is the rounds after it.
  unfoldable pub round_then : M Outcome → M Outcome
  unfolding round pure
  round_then rest = do result ← round; on_option result rest pure

  unfoldable pub monitor_loop : ℕ → M Outcome
  unfolding round_then out_of_fuel
  monitor_loop zero = out_of_fuel
  monitor_loop (suc fuel) = round_then (monitor_loop fuel)

  unfoldable pub monitor : ℕ → M Outcome
  unfolding monitor_loop now set_watch
  monitor fuel = do
    t ← now
    set_watch (λ v. record {
      pickup_deadline = t + env.cfg.runner.pickup_timeout;
      job_deadline = t + env.cfg.runner.max_job_duration;
      tick_count = 0;
      job_done = false;
    })
    monitor_loop fuel
