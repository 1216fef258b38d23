-- ===== src/Scaler/Settled/Runs.antt =====
-- Whole runs of `runJob` of internal/scaler/job.go, while the service is not shutting down.
use mini_control_action.Prelude.{
  ℕ, zero, suc, ◌≡◌, refl, ◌≢◌, ap, ◌∙◌, ◌⊎◌, inl, inr, Bool, true, false, not, ◌||◌, Option, none,
  some, [], Text, pos, int_le, if◌then◌else◌,
}
use mini_control_action.Errors.{Error}
use mini_control_action.State.{complete, terminal, Record, key_of}
use mini_control_action.State.Store.{get}
use mini_control_action.Scaler.World.{
  Env, Worker, M, ◌>>◌, pure, ask, elapse, sleep, is_done, persist,
}
use mini_control_action.Scaler.Frame.{Frame-job_already_finished}
use mini_control_action.Scaler.Ensures.{
  Branch, Ensures, Ensures-pure, Ensures-out_of_fuel, Ensures-if, Ensures-bind, Ensures-option,
  Ensures-get_rec, Ensures-otherwise, Ensures-weaken, Ensures_implies,
}
use mini_control_action.Scaler.Attempt.{
  Exit, exit_of, needs_create, attempt, give_up, reset_for_retry, retry_pause, after_failure,
  job_round, job_round_then, job_loop, run_job,
}
use mini_control_action.Scaler.Settled.{WasCreated, IsSettled}
use mini_control_action.Scaler.Settled.Creates.{IsReady, Over, Ensures-create_stage}
use mini_control_action.Scaler.Settled.Stages.{
  Any, Clear, Finished, Fin, Clear_of_Frame, Ensures-set_rec, Ensures-set_state, Ensures-persist,
  persist-Clear, Ensures-cancelled, Ensures-ready_stage, Ensures-bootstrap_stage,
  Ensures-monitor_stage, Ensures-delete_stage,
}

-- A round of the loop goes on with a fresh attempt, or the job is over.
AfterRound : Bool → Worker → Type 0
AfterRound true w = (needs_create w.rec.state ≡ true) × Clear w
AfterRound false w = Over w

-- A round starts afresh, with no VM.
abbrev Fresh : Worker → Type 0
Fresh w = (needs_create w.rec.state ≡ true) × Clear w

-- No shutdown: the context is never cancelled, no wait is cut short, and the worker gets its place.
pub record IsRunning (env : Env) : Type 0 where
  pub alive : (n : ℕ) → env.cancelled n ≡ false
  pub fires : (n : ℕ) → env.slept n ≡ true
  pub place : (n : ℕ) → env.acquired n ≡ true

module _ (env : Env) (running : IsRunning env) where
  Ensures-attempt : (fuel : ℕ) → Ensures Any IsReady (attempt env fuel) Fin
  unfolding attempt
  Ensures-attempt fuel =
      Ensures-bind
        (Ensures-otherwise (Ensures-create_stage env fuel) (
          Ensures-otherwise (Ensures-ready_stage env running.alive fuel) (
            Ensures-otherwise (Ensures-bootstrap_stage env running.alive) (
              Ensures-otherwise (Ensures-monitor_stage env running.alive fuel)
                (Ensures-delete_stage env)))))
        (λ x. result x)
    where
      result : (x : Option Exit) → Ensures Any (Branch Finished Fin x) (pure (exit_of env x)) Fin
      result none = Ensures-pure _ (λ w h. (h.1, λ _. h))
      result (some x) = Ensures-pure x (λ w h. h)

  -- The record is written in a terminal state.
  Ensures-persist_end :
      Ensures Any (λ w. (terminal w.rec.state ≡ true) × Clear w) (persist env) (λ _. Over)
  Ensures-persist_end = Ensures-persist env (λ w w' h e b t k.
      (ap (λ (r : Record). terminal r.state) e ∙ h.0, persist-Clear env w w' h.1 e b t k, k))

  Ensures-fires : Ensures Any Fresh (ask env env.slept) (λ b w. (b ≡ true) × Fresh w)
  unfolding ask
  Ensures-fires = record { at = λ w h. (running.fires w.step, h) }

  Ensures-elapse : (d : ℕ) → Ensures Any Fresh (elapse d) (λ _. Fresh)
  unfolding elapse
  Ensures-elapse d = record { at = λ w h. h }

  Ensures-retry_pause : Ensures Any Fresh (retry_pause env) (λ b w. (b ≡ true) × Fresh w)
  unfolding retry_pause sleep
  Ensures-retry_pause = Ensures-get_rec λ r.
      Ensures-bind (Ensures-weaken Ensures-fires (λ w h. h.0) (λ _ w h. h)) λ fired.
        Ensures-bind {Q = λ _ w. (fired ≡ true) × Fresh w}
          (Ensures-if fired (λ e. Ensures-weaken (Ensures-elapse _) (λ w h. h.1) (λ _ w h. (e, h)))
            (λ _. Ensures-pure tt (λ w h. h)))
          (λ _. Ensures-pure fired (λ w h. h))

  Ensures-retry : Ensures Any Clear (reset_for_retry env >> retry_pause env) AfterRound
  unfolding reset_for_retry AfterRound
  Ensures-retry =
      Ensures-bind
        (Ensures-bind (Ensures-set_rec {Q = Fresh} _ (λ w h. (refl, h))) (λ _.
          Ensures-persist env (λ w w' h e b t k. (
            ap (λ (r : Record). needs_create r.state) e ∙ h.0,
            persist-Clear env w w' h.1 e b t k,
          ))))
        λ _. Ensures-weaken Ensures-retry_pause (λ w h. h) (λ b w h. again b w h)
    where
      again : (b : Bool) (w : Worker) → (b ≡ true) × Fresh w → AfterRound b w
      again true w h = h.1
      again false w h = absurd (cc)

  Ensures-after_failure :
      (retryable : Bool) (e : Error) → Ensures Any Clear (after_failure env retryable e) AfterRound
  unfolding after_failure give_up AfterRound
  Ensures-after_failure retryable e = Ensures-get_rec λ r.
      Ensures-if (not retryable || int_le env.cfg.limits.max_retries_per_job (pos r.retry))
        (λ _.
          Ensures-bind
            (Ensures-bind
              (Ensures-set_rec {Q = λ w. (terminal w.rec.state ≡ true) × Clear w} _
                (λ w h. (refl, h.0)))
              (λ _. Ensures-persist_end))
            (λ _. Ensures-pure false (λ w h. h)))
        λ _.
          Ensures-bind
            (Ensures-weaken (Clear_of_Frame (λ w. Frame-job_already_finished env)) (λ w h. h.0)
              (λ _ w h. h))
            λ answer.
              Ensures-if (is_done answer)
                (λ _.
                  Ensures-bind
                    (Ensures-set_state {Q = λ w. (terminal w.rec.state ≡ true) × Clear w} complete
                      (λ w h. (refl, h)))
                    (λ _. Ensures-bind Ensures-persist_end (λ _. Ensures-pure false (λ w h. h))))
                (λ _. Ensures-retry)

  Ensures-job_round : (fuel : ℕ) → Ensures Any IsReady (job_round env fuel) AfterRound
  unfolding job_round AfterRound
  Ensures-job_round fuel = Ensures-bind (Ensures-attempt fuel) λ x.
      Ensures-option x.error
        (λ n. Ensures-pure false (λ w h. let f = h.1 n in (ap terminal f.0, f.1, f.2)))
        λ e _.
          Ensures-bind
            (Ensures-weaken (Ensures-cancelled env running.alive {P = Clear} (λ w h. h))
              (λ w h. h.0) (λ _ w h. h))
            λ b.
              Ensures-if b (λ s. Ensures-pure false (λ w h. absurd (clash s h.0)))
                (λ _.
                  Ensures-weaken (Ensures-after_failure x.retryable e) (λ w h. h.1) (λ _ w h. h))
    where
      clash : {b : Bool} → b ≡ true → b ≡ false → ⊥
      clash h k = cc

  Ensures-job_round_then :
      (fuel : ℕ) (rest : M (Unit {0}))
      → Ensures Any IsReady rest (λ _. Over)
      → Ensures Any IsReady (job_round_then env fuel rest) (λ _. Over)
  unfolding job_round_then AfterRound
  Ensures-job_round_then fuel rest k = Ensures-bind (Ensures-job_round fuel) (λ b. next b)
    where
      next : (b : Bool) → Ensures Any (AfterRound b) (if b then rest else pure tt) (λ _. Over)
      next true = Ensures-weaken k (λ w h. inl h) (λ _ w h. h)
      next false = Ensures-pure tt (λ w h. h)

  Ensures-job_loop : (rounds fuel : ℕ) → Ensures Any IsReady (job_loop env rounds fuel) (λ _. Over)
  unfolding job_loop
  Ensures-job_loop zero fuel = Ensures-out_of_fuel (λ w h. tt)
  Ensures-job_loop (suc rounds) fuel =
      Ensures-job_round_then fuel (job_loop env rounds fuel) (Ensures-job_loop rounds fuel)

  Ensures-place : Ensures Any IsReady (ask env env.acquired) (λ b w. (b ≡ true) × IsReady w)
  unfolding ask
  Ensures-place = record { at = λ w h. (running.place w.step, h) }

  Ensures-run_job : (rounds fuel : ℕ) → Ensures Any IsReady (run_job env rounds fuel) (λ _. Over)
  unfolding run_job
  Ensures-run_job rounds fuel = Ensures-bind Ensures-place λ b.
      Ensures-if b (λ _. Ensures-weaken (Ensures-job_loop rounds fuel) (λ w h. h.1) (λ _ w h. h))
        (λ n. Ensures-pure tt (λ w h. absurd (clash h.0 n)))
    where
      clash : {b : Bool} → b ≡ true → b ≡ false → ⊥
      clash h k = cc

-- When `runJob` returns and the service is not shutting down, from a record that is queued, creating,
-- or in a state between those and `deleting`: the record is terminal, and so is its entry in the
-- store; and every VM that a create has answered with, and that has an ID, has had a delete succeed
-- or at least three deletes fail. (At the start, each VM made before is the record's own or settled.)
pub run_job_settles_vms :
    (env : Env) (rounds fuel : ℕ) (w : Worker)
    → IsRunning env
    → IsReady w
    → (run_job env rounds fuel w).0 ≡ some tt
    → let w' = (run_job env rounds fuel w).1 in
      (terminal w'.rec.state ≡ true)
      × ((r : Record) × (get w'.store (key_of w'.rec) ≡ some r) × (r.state ≡ w'.rec.state))
      × ((id : Text) → WasCreated id w'.trace → id ≢ [] → IsSettled id w'.trace)
run_job_settles_vms env rounds fuel w running ready returns =
    let over = Ensures_implies (Ensures-run_job env running rounds fuel) w tt ready returns in
    (over.0, over.2, λ id m n. pick id n (over.1.each id m))
  where
    pick :
        (id : Text)
        → id ≢ []
        → (id ≡ []) ⊎ (id ≡ []) ⊎ IsSettled id (run_job env rounds fuel w).1.trace
        → IsSettled id (run_job env rounds fuel w).1.trace
    pick id n (inl e) = absurd (n e)
    pick id n (inr (inl e)) = absurd (n e)
    pick id n (inr (inr s)) = s
