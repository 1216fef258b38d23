-- ===== src/Scaler/Returns/Watching.antt =====
-- How long the loop of `monitor` of internal/scaler/job.go takes.
use mini_control_action.Prelude.{
  ℕ, zero, suc, ◌+◌, ◌≤◌, ◌<◌, ◌≡◌, ◌≢◌, refl, ◌∙◌, Bool, true, false, Option, none, some, ltb,
  arith, if◌then◌else◌,
}
use mini_control_action.Errors.{max_duration}
use mini_control_action.Github.{JobEvent}
use mini_control_action.Scaler.World.{
  Env, Worker, Wake, cancel, event, tick, M, ◌>>=◌, pure, now, gets, ask, set_watch, on_option,
}
use mini_control_action.Scaler.Ensures.{
  Pred, Ensures, Ensures-pure, Ensures-out_of_fuel, Ensures-bind, Ensures-otherwise, Ensures-weaken,
  Branch,
}
use mini_control_action.Scaler.Monitor.{
  Outcome, broke, deadline_phase, on_tick, on_wake, round, round_then, monitor_loop, monitor,
}
use mini_control_action.Scaler.Returns.{Never, Returns, Later, Returns-of_Later, Branch-of_Returns}
use mini_control_action.Scaler.Returns.Actions.{
  Later-set_watch, Later-exec_status, Later-marker_phase, Later-poll_phase, Later-release_phase,
  Later-pickup_phase,
}
use mini_control_action.Scaler.Returns.Waits.{IsPrompt, Late, Late-Later, Ensures-now}

-- The time is at least `t` and the job's deadline is `d`.
abbrev Until : ℕ → ℕ → ℕ → Pred
Until n d t w = Late n t w × (w.watch.job_deadline ≡ d)

-- The deadline has not passed.
abbrev Open : ℕ → ℕ → ℕ → Pred
Open n d t w = Until n d t w × (w.clock ≤ d)

module _ (env : Env) {n d t : ℕ} where
  Until-Later : (w w' : Worker) → Until n d t w → Later w w' → Until n d t w'
  Until-Later w w' h l = (Late-Later w w' h.0 l, l.deadline ∙ h.1)

  Until-Returns :
      {A : Type 0} {m : M A} → ((w : Worker) → Returns (Later w) m) → Returns (Until n d t) m
  Until-Returns k = Returns-of_Later Until-Later k

  Until-deadline_phase :
      Ensures Never (Until n d t) (deadline_phase env) (Branch (Open n d t) (λ _. Until n d t))
  unfolding deadline_phase gets now pure ◌>>=◌
  Until-deadline_phase = record { at = λ w h. tested w h (ltb w.watch.job_deadline w.clock) refl }
    where
      tested :
          (w : Worker)
          → Until n d t w
          → (b : Bool) → ltb w.watch.job_deadline w.clock ≡ b
          → Branch
              (Open n d t)
              (λ (_ : Outcome). Until n d t)
              (if b then some (broke max_duration) else none)
              w
      tested w h true e = h
      tested w h false e = (h, let k = h.1 in ground arith)

  Until-on_tick : Ensures Never (Until n d t) (on_tick env) (Branch (Open n d t) (λ _. Until n d t))
  unfolding on_tick
  Until-on_tick = Ensures-bind (Until-Returns (λ w. Later-set_watch _ (λ v. refl))) λ _.
      Ensures-bind (Until-Returns (λ w. Later-exec_status env)) λ status.
        Ensures-otherwise (Branch-of_Returns (Until-Returns (λ w. Later-marker_phase env status))) (
          Ensures-otherwise (Branch-of_Returns (Until-Returns (λ w. Later-poll_phase env))) (
            Ensures-otherwise (Branch-of_Returns (Until-Returns (λ w. Later-release_phase env))) (
              Ensures-otherwise (Branch-of_Returns (Until-Returns (λ w. Later-pickup_phase env)))
                Until-deadline_phase)))

module _ (env : Env) (prompt : IsPrompt env) {n d : ℕ} where
  -- What is known of the answer to a wait.
  Until-ask :
      {t : ℕ}
      → Ensures Never
          (Until n d t)
          (ask env env.wake)
          (λ k w. Until n d (suc t) w × ((ev : JobEvent) → k ≢ event ev))
  unfolding ask
  Until-ask = record {
    at = λ w h. (
      (
        record {
          clock = let a = h.0.clock in let b = prompt.lag w.step in omega arith;
          retry = h.0.retry;
        },
        h.1,
      ),
      prompt.quiet w.step,
    );
  }

  Until-round :
      {t : ℕ}
      → Ensures Never (Until n d t) (round env) (Branch (Open n d (suc t)) (λ _. Until n d (suc t)))
  unfolding round on_wake
  Until-round {t} = Ensures-bind Until-ask (λ k. woken k)
    where
      woken :
          (k : Wake)
          → Ensures Never
              (λ w. Until n d (suc t) w × ((ev : JobEvent) → k ≢ event ev))
              (on_wake env k)
              (Branch (Open n d (suc t)) (λ _. Until n d (suc t)))
      woken cancel = Ensures-pure _ (λ w h. h.0)
      woken (event ev) = record { at = λ w h. absurd (h.1 ev refl) }
      woken tick = Ensures-weaken (Until-on_tick env) (λ w h. h.0) (λ _ w h. h)

  Until-round_then :
      {t : ℕ} (rest : M Outcome)
      → Ensures Never (Open n d (suc t)) rest (λ _. Late n 0)
      → Ensures Never (Until n d t) (round_then env rest) (λ _. Late n 0)
  unfolding round_then
  Until-round_then {t} rest k = Ensures-bind Until-round (λ r. next r)
    where
      next :
          (r : Option Outcome)
          → Ensures Never
              (Branch (Open n d (suc t)) (λ _. Until n d (suc t)) r)
              (on_option r rest pure)
              (λ _. Late n 0)
      next none = k
      next (some o) = Ensures-pure o (λ w h. record { clock = omega arith; retry = h.0.retry })

  Until-monitor_loop :
      (fuel t : ℕ)
      → d < t + fuel
      → Ensures Never (Open n d t) (monitor_loop env fuel) (λ _. Late n 0)
  unfolding monitor_loop
  Until-monitor_loop zero t h =
      Ensures-out_of_fuel (λ w k. absurd (let a = k.0.0.clock in let b = k.1 in omega arith))
  Until-monitor_loop (suc fuel) t h =
      Ensures-weaken
        (Until-round_then (monitor_loop env fuel) (Until-monitor_loop fuel (suc t) (omega arith)))
        (λ w k. k.0) (λ _ w k. k)

module _ (env : Env) (prompt : IsPrompt env) {n : ℕ} where
  pub Late-monitor :
      (fuel : ℕ) → env.cfg.runner.max_job_duration < fuel → Returns (Late n 0) (monitor env fuel)
  unfolding monitor set_watch
  Late-monitor fuel h = Ensures-now λ s.
      Ensures-bind {Q = λ _. Open n (s + env.cfg.runner.max_job_duration) s} (started s)
        (λ _. Until-monitor_loop env prompt fuel s (omega arith))
    where
      started :
          (s : ℕ)
          → Ensures Never
              (λ w. Late n 0 w × (w.clock ≡ s))
              (set_watch (λ v. record {
                pickup_deadline = s + env.cfg.runner.pickup_timeout;
                job_deadline = s + env.cfg.runner.max_job_duration;
                tick_count = 0;
                job_done = false;
              }))
              (λ _. Open n (s + env.cfg.runner.max_job_duration) s)
      started s = record {
        at = λ w k.
            let e = k.1 in ((record { clock = omega arith; retry = k.0.retry }, refl), omega arith);
      }
