-- ===== src/Scaler/Returns/Waits.antt =====
-- How long the loops of `waitReady` and `createVM` of internal/scaler/job.go take.
use mini_control_action.Prelude.{
  ℕ, zero, suc, ◌+◌, ◌≤◌, ◌<◌, ◌≡◌, ◌≢◌, refl, ◌∙◌, Bool, true, false, Option, none, some, ltb,
  arith, if◌then◌else◌,
}
use mini_control_action.Errors.{Error}
use mini_control_action.Github.{JobEvent}
use mini_control_action.Scaler.World.{
  Env, Worker, M, on_option, ◌>>=◌, pure, now, gets, ask, emit, event, is_done,
}
use mini_control_action.Scaler.Ensures.{
  Pred, Ensures, Ensures-pure, Ensures-out_of_fuel, Ensures-if, Ensures-bind, Ensures-option,
  Ensures-result, Ensures-get_rec, Ensures-weaken, Branch,
}
use mini_control_action.Scaler.Boot
use mini_control_action.Scaler.Boot.{ready_verdict, get_vm_call, poll_vm, wait_ready_loop}
use mini_control_action.Scaler.Create.{
  Created, not_needed, Plan, stop, wait_for, on_plan, create_call, wait_round, create_round,
  create_loop, create_vm,
}
use mini_control_action.Scaler.Returns.{Never, Returns, Later, Returns-of_Later}
use mini_control_action.Scaler.Returns.Actions.{
  Later-sleep, Later-plan_wait, Later-job_already_finished,
}

-- Each interaction takes at least a nanosecond, and no event of the poller arrives.
pub record IsPrompt (env : Env) : Type 0 where
  pub lag : (n : ℕ) → 0 < env.lag n
  pub quiet : (n : ℕ) (ev : JobEvent) → env.wake n ≢ event ev

-- The time is at least `t`, and the record is in its retry `n`.
pub record Late (n t : ℕ) (w : Worker) : Type 0 where
  pub clock : t ≤ w.clock
  pub retry : w.rec.retry ≡ n

-- In time for the deadline.
abbrev InTime : ℕ → ℕ → ℕ → Pred
InTime n deadline t w = Late n t w × (t ≤ deadline)

pub Late-Later : {n t : ℕ} (w w' : Worker) → Late n t w → Later w w' → Late n t w'
Late-Later w w' h l = record {
  clock = let a = h.clock in let b = l.clock in omega arith;
  retry = l.retry ∙ h.retry;
}

pub Returns-Late :
    {n t : ℕ} {A : Type 0} {m : M A} → ((w : Worker) → Returns (Later w) m) → Returns (Late n t) m
Returns-Late k = Returns-of_Later Late-Later k

-- The time that the code reads is the worker's.
module _ {I : Pred} {B : Type 0} {P : Pred} {R : B → Pred} where
  pub Ensures-now :
      {f : ℕ → M B}
      → ((t : ℕ) → Ensures I (λ w. P w × (w.clock ≡ t)) (f t) R)
      → Ensures I P (now >>= f) R
  unfolding now gets ◌>>=◌
  Ensures-now kf = record { at = λ w h. (kf w.clock).at w (h, refl) }

module _ (env : Env) (prompt : IsPrompt env) {n : ℕ} where
  pub Late-ask :
      {t : ℕ} {A : Type 0} (f : ℕ → A) → Ensures Never (Late n t) (ask env f) (λ _. Late n (suc t))
  unfolding ask
  Late-ask f = record {
    at = λ w h. record {
      clock = let a = h.clock in let b = prompt.lag w.step in omega arith;
      retry = h.retry;
    };
  }

  Late-emit_get : {t : ℕ} → Ensures Never (Late n t) (get_vm_call env) (λ _. Late n (suc t))
  unfolding get_vm_call emit
  Late-emit_get = Ensures-get_rec λ r.
      Ensures-bind (Ensures-weaken (Late-ask _) (λ w h. h.0) (λ _ w h. h)) λ answer.
        Ensures-bind {Q = λ _. Late n (suc _)}
          (record { at = λ w h. record { clock = h.clock; retry = h.retry } })
          (λ _. Ensures-pure answer (λ w h. h))

  Late-poll_vm :
      {t : ℕ} (deadline : ℕ) (rest : M (Option Error))
      → Ensures Never (InTime n deadline (suc t)) rest (λ _. Late n 0)
      → Ensures Never (Late n t) (poll_vm env deadline rest) (λ _. Late n 0)
  unfolding poll_vm
  Late-poll_vm {t} deadline rest k = Ensures-get_rec λ r.
      Ensures-bind (Ensures-weaken Late-emit_get (λ w h. h.0) (λ _ w h. h)) λ answer.
        Ensures-option (ready_verdict r.vm_id answer)
          (λ _. Ensures-now λ s.
            Ensures-if (ltb deadline s)
              (λ _. Ensures-pure _ (λ w h. record { clock = omega arith; retry = h.0.retry }))
              (λ e.
                Ensures-bind {Q = λ _. InTime n deadline (suc t)}
                  (Ensures-weaken {P = InTime n deadline (suc t)}
                    (Returns-of_Later (λ w w' h l. (Late-Later w w' h.0 l, h.1))
                      (λ w. Later-sleep env _))
                    (λ w h. (h.0, let a = h.0.clock in let b = h.1 in ground arith)) (λ _ w h. h))
                  (λ fired.
                    Ensures-if fired (λ _. k)
                      (λ _.
                        Ensures-pure _
                          (λ w h. record { clock = omega arith; retry = h.0.retry })))))
          (λ v _. Ensures-pure v (λ w h. record { clock = omega arith; retry = h.retry }))

  Late-wait_ready_loop :
      (fuel deadline t : ℕ)
      → deadline < t + fuel
      → Ensures Never (InTime n deadline t) (wait_ready_loop env fuel deadline) (λ _. Late n 0)
  unfolding wait_ready_loop
  Late-wait_ready_loop zero deadline t h =
      Ensures-out_of_fuel (λ w k. absurd (let a = k.1 in omega arith))
  Late-wait_ready_loop (suc fuel) deadline t h =
      Ensures-weaken
        (Late-poll_vm deadline (wait_ready_loop env fuel deadline)
          (Late-wait_ready_loop fuel deadline (suc t) (omega arith)))
        (λ w k. k.0) (λ _ w k. k)

  pub Late-wait_ready :
      (fuel : ℕ)
      → env.cfg.minicontrol.provision_timeout < fuel
      → Returns (Late n 0) (Boot.wait_ready env fuel)
  unfolding Boot.wait_ready
  Late-wait_ready fuel h = Ensures-now λ s.
      Ensures-weaken
        (Late-wait_ready_loop fuel (s + env.cfg.minicontrol.provision_timeout) s (omega arith))
        (λ w k. (record { clock = let e = k.1 in omega arith; retry = k.0.retry }, omega arith))
        (λ _ w k. k)

  Late-create_call : {t : ℕ} → Ensures Never (Late n t) (create_call env) (λ _. Late n (suc t))
  unfolding create_call emit
  Late-create_call = Ensures-get_rec λ r.
      Ensures-bind (Ensures-weaken (Late-ask _) (λ w h. h.0) (λ _ w h. h)) λ answer.
        Ensures-bind {Q = λ _. Late n (suc _)}
          (record { at = λ w h. record { clock = h.clock; retry = h.retry } })
          (λ _. Ensures-pure answer (λ w h. h))

  Late-wait_round :
      {t : ℕ} (e : Error) (deadline wait : ℕ)
      → Ensures Never
          (Late n t)
          (wait_round env e deadline wait)
          (Branch (InTime n deadline t) (λ _. Late n 0))
  unfolding wait_round
  Late-wait_round {t} e deadline wait = Ensures-now λ s.
      Ensures-if (ltb deadline (s + wait))
        (λ _. Ensures-pure _ (λ w h. record { clock = omega arith; retry = h.0.retry }))
        λ b.
          Ensures-bind
            (Ensures-weaken {P = InTime n deadline t}
              (Returns-of_Later (λ w w' h l. (Late-Later w w' h.0 l, h.1)) (λ w. Later-sleep env _))
              (λ w h. (h.0, let c = h.0.clock in let d = h.1 in ground arith)) (λ _ w h. h))
            λ fired.
              Ensures-if fired
                (λ _.
                  Ensures-bind
                    (Returns-of_Later {P = InTime n deadline t}
                      (λ w w' h l. (Late-Later w w' h.0 l, h.1))
                      (λ w. Later-job_already_finished env))
                    (λ answer. said (is_done answer)))
                (λ _. Ensures-pure _ (λ w h. record { clock = omega arith; retry = h.0.retry }))
    where
      said :
          (b : Bool)
          → Ensures Never
              (InTime n deadline t)
              (pure (if b then some not_needed else none))
              (Branch (InTime n deadline t) (λ _. Late n 0))
      said true = Ensures-pure _ (λ w h. record { clock = omega arith; retry = h.0.retry })
      said false = Ensures-pure _ (λ w h. h)

  Late-create_round :
      {t : ℕ} (backoff deadline : ℕ) (rest : ℕ → M Created)
      → ((b : ℕ) → Ensures Never (InTime n deadline (suc t)) (rest b) (λ _. Late n 0))
      → Ensures Never (Late n t) (create_round env backoff deadline rest) (λ _. Late n 0)
  unfolding create_round
  Late-create_round {t} backoff deadline rest k = Ensures-bind Late-create_call λ answer.
      Ensures-result answer (λ vm _. Ensures-pure _ (λ w h. ended w h))
        λ e _.
          Ensures-bind (Returns-Late (λ w. Later-plan_wait env e backoff)) (λ plan. next e plan)
    where
      ended : {u : ℕ} (w : Worker) → Late n u w → Late n 0 w
      ended w h = record { clock = omega arith; retry = h.retry }

      next :
          (e : Error) (plan : Plan)
          → Ensures Never
              (Late n (suc t))
              (on_plan plan pure (λ wait backoff'. do
                result ← wait_round env e deadline wait
                on_option result (rest backoff') pure))
              (λ _. Late n 0)
      next e (stop c) = Ensures-pure c (λ w h. ended w h)
      next e (wait_for wait backoff') =
          Ensures-bind (Late-wait_round e deadline wait) λ r. outcome backoff' r
        where
          outcome :
              (b : ℕ) (r : Option Created)
              → Ensures Never
                  (Branch (InTime n deadline (suc t)) (λ _. Late n 0) r)
                  (on_option r (rest b) pure)
                  (λ _. Late n 0)
          outcome b none = k b
          outcome b (some c) = Ensures-pure c (λ w h. h)

  Late-create_loop :
      (fuel deadline t backoff : ℕ)
      → deadline < t + fuel
      → Ensures Never (InTime n deadline t) (create_loop env fuel deadline backoff) (λ _. Late n 0)
  unfolding create_loop
  Late-create_loop zero deadline t backoff h =
      Ensures-out_of_fuel (λ w k. absurd (let a = k.1 in omega arith))
  Late-create_loop (suc fuel) deadline t backoff h =
      Ensures-weaken
        (Late-create_round backoff deadline (create_loop env fuel deadline)
          (λ b. Late-create_loop fuel deadline (suc t) b (omega arith)))
        (λ w k. k.0) (λ _ w k. k)

  pub Late-create_vm :
      (fuel : ℕ) → env.cfg.runner.max_job_duration < fuel → Returns (Late n 0) (create_vm env fuel)
  unfolding create_vm
  Late-create_vm fuel h = Ensures-now λ s.
      Ensures-weaken (Late-create_loop fuel (s + env.cfg.runner.max_job_duration) s _ (omega arith))
        (λ w k. (record { clock = let e = k.1 in omega arith; retry = k.0.retry }, omega arith))
        (λ _ w k. k)
