-- ===== src/Scaler/Settled/Creates.antt =====
-- The creation stage of `attempt` of internal/scaler/job.go: a VM that was made becomes the current one.
use mini_control_action.Prelude.{
  ltb, ℕ, zero, suc, ◌+◌, ◌≡◌, refl, ap, ◌∙◌, ◌⊎◌, inl, inr, true, false, Option, none, some, [],
  ◌∷◌, arith,
}
use mini_control_action.Errors.{Error, Result, ok, err}
use mini_control_action.State.{JobState, queued, creating, complete, terminal, Record}
use mini_control_action.Minicontrol.{Vm, is_capacity}
use mini_control_action.Scaler.World.{
  Env, Worker, create_sent, M, ◌>>=◌, pure, on_option, on_result, get_rec, set_rec, emit, ask, now,
  sleep, upsert_rec, job_already_finished,
}
use mini_control_action.Scaler.Keeps.{Keeps, Keeps-gets, keeps_rules}
use mini_control_action.Scaler.Frame.{
  Frame-ask, Frame-upsert_rec, Frame-sleep, Frame-job_already_finished,
}
use mini_control_action.Scaler.Ensures.{
  Pred, Branch, Ensures, Ensures-pure, Ensures-out_of_fuel, Ensures-if, Ensures-bind,
  Ensures-option, Ensures-get_rec, Ensures-of_Keeps, Keeps-of_Frame, Ensures-weaken,
}
use mini_control_action.Scaler.Create.{
  Created, got, not_needed, create_error, Plan, stop, wait_for, on_plan, fresh_key, create_call,
  plan_wait, wait_round, create_round, create_loop, create_vm, vm_id_of,
}
use mini_control_action.Scaler.Attempt.{
  needs_create, mint_key, after_create, create_steps, create_stage,
}
use mini_control_action.Scaler.Settled.{IsAccounted, IsAccounted-cons, IsAccounted-create}
use mini_control_action.Scaler.Settled.Stages.{
  Any, Clear, In, Kept, Finished, Fin, holds, Clear-Frame, Ensures-set_rec, Ensures-set_state,
  Ensures-persist, persist-In, persist-Clear,
}

-- What the loop of `runJob` starts a round with: the record's VM is the current one, if its state says
-- that it has one.
abbrev pub IsReady : Pred
IsReady w = ((needs_create w.rec.state ≡ true) × Clear w) ⊎ In holds w

-- What it ends with: the record is terminal, in the store too, and no VM is current.
abbrev pub Over : Pred
Over w = (terminal w.rec.state ≡ true) × Clear w × Kept w

-- What a create leads to.
AfterCreate : Created → Pred
AfterCreate (got vm) w = IsAccounted vm.id w.trace
AfterCreate _ w = Clear w

AfterCall : Result Vm → Pred
AfterCall (ok vm) w = IsAccounted vm.id w.trace
AfterCall (err e) w = Clear w

module _ (env : Env) where
  C-set_rec : (f : Record → Record) → Keeps Clear (set_rec f)
  unfolding set_rec
  C-set_rec f = record { at = λ w h. h }

  C-now : Keeps Clear now
  unfolding now
  C-now = Keeps-gets _

  C-ask : {A : Type 0} (f : ℕ → A) → Keeps Clear (ask env f)
  C-ask f = Keeps-of_Frame Clear-Frame (λ w. Frame-ask env f)

  C-upsert_rec : Keeps Clear (upsert_rec env)
  C-upsert_rec = Keeps-of_Frame Clear-Frame (λ w. Frame-upsert_rec env)

  C-sleep : (d : ℕ) → Keeps Clear (sleep env d)
  C-sleep d = Keeps-of_Frame Clear-Frame (λ w. Frame-sleep env d)

  C-job_already_finished : Keeps Clear (job_already_finished env)
  C-job_already_finished = Keeps-of_Frame Clear-Frame (λ w. Frame-job_already_finished env)

  Ensures-keep : {A : Type 0} {m : M A} → Keeps Clear m → Ensures Any Clear m (λ _. Clear)
  Ensures-keep k = Ensures-of_Keeps k (λ w h. tt)

  C-fresh_key : Keeps Clear (fresh_key env)
  unfolding fresh_key
  C-fresh_key = search (keeps_rules, C-ask, C-set_rec)

  C-plan_wait : (e : Error) (backoff : ℕ) → Keeps Clear (plan_wait env e backoff)
  unfolding plan_wait
  C-plan_wait e backoff = search (keeps_rules, C-fresh_key, C-upsert_rec) depth 8

  C-wait_round : (e : Error) (deadline wait : ℕ) → Keeps Clear (wait_round env e deadline wait)
  unfolding wait_round
  C-wait_round e deadline wait = search (keeps_rules, C-sleep, C-job_already_finished) depth 12

  Ensures-create_call : Ensures Any Clear (create_call env) AfterCall
  unfolding create_call get_rec ask emit pure ◌>>=◌ AfterCall
  Ensures-create_call = record {
    at = λ w h. made (env.create_vm w.step _ w.rec.idempotency_key) w h;
  }
    where
      made :
          (answer : Result Vm) (w : Worker)
          → Clear w
          → AfterCall answer (record w {
            step = w.step + 1;
            clock = w.clock + env.lag w.step;
            trace = create_sent w.rec.idempotency_key (vm_id_of answer) ∷ w.trace;
          })
      made (ok vm) w h = IsAccounted-create w.rec.idempotency_key vm.id w.trace h
      made (err e) w h = IsAccounted-cons [] (create_sent w.rec.idempotency_key none) w.trace refl h

  Ensures-answer :
      (answer : Result Vm) {g : Error → M Created}
      → ((e : Error) → Ensures Any Clear (g e) AfterCreate)
      → Ensures Any (AfterCall answer) (on_result answer (λ vm. pure (got vm)) g) AfterCreate
  unfolding AfterCall AfterCreate
  Ensures-answer (ok vm) k = Ensures-pure (got vm) (λ w h. h)
  Ensures-answer (err e) k = k e

  NoVm : Option Created → Type 0
  NoVm (some (got vm)) = ⊥
  NoVm _ = Unit {0}

  -- The loop stops without a VM only by an error or because the job is over.
  StopsWithout : Plan → Type 0
  StopsWithout (stop c) = NoVm (some c)
  StopsWithout (wait_for wait backoff) = Unit {0}

  Clear-AfterCreate : (c : Created) → NoVm (some c) → (w : Worker) → Clear w → AfterCreate c w
  unfolding NoVm AfterCreate
  Clear-AfterCreate (got vm) n w h = absurd n
  Clear-AfterCreate not_needed n w h = h
  Clear-AfterCreate (create_error b e) n w h = h

  plan-StopsWithout :
      (e : Error) (backoff : ℕ)
      → Ensures Any Clear (plan_wait env e backoff) (λ plan w. Clear w × StopsWithout plan)
  unfolding plan_wait StopsWithout NoVm
  plan-StopsWithout e backoff =
      Ensures-if (is_capacity e)
        (λ _. Ensures-bind (Ensures-keep C-fresh_key) (λ _.
          Ensures-bind (Ensures-keep C-upsert_rec) (λ o. Ensures-pure _ (λ w h. ground arith))))
        (λ _. Ensures-pure _ (λ w h. ground arith))

  round-NoVm :
      (e : Error) (deadline wait : ℕ)
      → Ensures Any Clear (wait_round env e deadline wait) (λ o w. Clear w × NoVm o)
  unfolding wait_round NoVm
  round-NoVm e deadline wait = Ensures-bind (Ensures-keep C-now) λ t.
      Ensures-if (ltb deadline (t + wait)) (λ _. Ensures-pure _ (λ w h. (h, tt)))
        λ _. Ensures-bind (Ensures-keep (C-sleep wait)) λ fired.
          Ensures-if fired
            (λ _.
              Ensures-bind (Ensures-keep C-job_already_finished)
                (λ answer. Ensures-pure _ (λ w h. ground arith)))
            (λ _. Ensures-pure _ (λ w h. (h, tt)))

  Ensures-plan :
      (plan : Plan) {g : ℕ → ℕ → M Created}
      → ((wait backoff : ℕ) → Ensures Any Clear (g wait backoff) AfterCreate)
      → Ensures Any (λ w. Clear w × StopsWithout plan) (on_plan plan pure g) AfterCreate
  unfolding StopsWithout
  Ensures-plan (stop c) kg = Ensures-pure c (λ w h. Clear-AfterCreate c h.1 w h.0)
  Ensures-plan (wait_for wait backoff) kg =
      Ensures-weaken (kg wait backoff) (λ w h. h.0) (λ _ w h. h)

  Ensures-round_result :
      (o : Option Created) {n : M Created}
      → Ensures Any Clear n AfterCreate
      → Ensures Any (λ w. Clear w × NoVm o) (on_option o n pure) AfterCreate
  Ensures-round_result none k = Ensures-weaken k (λ w h. h.0) (λ _ w h. h)
  Ensures-round_result (some c) k = Ensures-pure c (λ w h. Clear-AfterCreate c h.1 w h.0)

  Ensures-create_round :
      (backoff deadline : ℕ) (rest : ℕ → M Created)
      → ((b : ℕ) → Ensures Any Clear (rest b) AfterCreate)
      → Ensures Any Clear (create_round env backoff deadline rest) AfterCreate
  unfolding create_round
  Ensures-create_round backoff deadline rest k = Ensures-bind Ensures-create_call λ answer.
      Ensures-answer answer λ e. Ensures-bind (plan-StopsWithout e backoff) λ plan.
        Ensures-plan plan λ wait backoff'.
          Ensures-bind (round-NoVm e deadline wait) λ o. Ensures-round_result o (k backoff')

  Ensures-create_loop :
      (fuel deadline backoff : ℕ)
      → Ensures Any Clear (create_loop env fuel deadline backoff) AfterCreate
  unfolding create_loop
  Ensures-create_loop zero deadline backoff = Ensures-out_of_fuel (λ w h. tt)
  Ensures-create_loop (suc fuel) deadline backoff =
      Ensures-create_round backoff deadline (create_loop env fuel deadline)
        (Ensures-create_loop fuel deadline)

  Ensures-create_vm : (fuel : ℕ) → Ensures Any Clear (create_vm env fuel) AfterCreate
  unfolding create_vm
  Ensures-create_vm fuel = Ensures-bind (Ensures-keep C-now) (λ t. Ensures-create_loop fuel _ _)

  Ensures-after_create :
      (c : Created) → Ensures Any (AfterCreate c) (after_create env c) (Branch (In holds) Fin)
  unfolding after_create AfterCreate
  Ensures-after_create (create_error b e) = Ensures-pure _ (λ w h. (h, λ n. absurd (cc)))
  Ensures-after_create not_needed =
      Ensures-bind
        (Ensures-set_state {Q = λ w. (w.rec.state ≡ complete) × Clear w} complete
          (λ w h. (refl, h)))
        λ _.
          Ensures-bind
            (Ensures-persist env {Q = Finished} (λ w w' h e b t k.
              (ap (λ (r : Record). r.state) e ∙ h.0, persist-Clear env w w' h.1 e b t k, k)))
            λ _. Ensures-pure _ (λ w h. (h.1, λ _. h))
  Ensures-after_create (got vm) =
      Ensures-bind (Ensures-set_rec {Q = In holds} _ (λ w h. (refl, h))) λ _.
        Ensures-bind (Ensures-persist env (persist-In env holds))
          (λ _. Ensures-pure none (λ w h. h))

  C-mint_key : Keeps Clear (mint_key env)
  unfolding mint_key
  C-mint_key = search (keeps_rules, C-fresh_key)

  Ensures-create_steps :
      (fuel : ℕ) → Ensures Any Clear (create_steps env fuel) (Branch (In holds) Fin)
  unfolding create_steps
  Ensures-create_steps fuel = Ensures-bind (Ensures-keep C-mint_key) λ _.
      Ensures-bind (Ensures-set_state {Q = Clear} creating (λ w h. h)) λ _.
        Ensures-bind (Ensures-keep C-upsert_rec) λ o.
          Ensures-option o (λ _. Ensures-bind (Ensures-create_vm fuel) Ensures-after_create)
            (λ e _. Ensures-pure _ (λ w h. (h, λ n. absurd (cc))))

  pub Ensures-create_stage :
      (fuel : ℕ) → Ensures Any IsReady (create_stage env fuel) (Branch (In holds) Fin)
  unfolding create_stage
  Ensures-create_stage fuel = Ensures-get_rec λ r.
      Ensures-if (needs_create r.state)
        (λ y.
          Ensures-weaken (Ensures-create_steps fuel)
            (λ w h. clear w h.0 (ap (λ (r : Record). needs_create r.state) h.1 ∙ y)) (λ _ w h. h))
        (λ n.
          Ensures-pure none (λ w h. held w h.0 (ap (λ (r : Record). needs_create r.state) h.1 ∙ n)))
    where
      apart : (s : JobState) → holds s ≡ true → needs_create s ≡ true → ⊥
      apart queued h n = cc
      apart creating h n = cc
      apart _ h n = cc

      clear : (w : Worker) → IsReady w → needs_create w.rec.state ≡ true → Clear w
      clear w (inl h) y = h.1
      clear w (inr h) y = absurd (apart w.rec.state h.0 y)

      held : (w : Worker) → IsReady w → needs_create w.rec.state ≡ false → In holds w
      held w (inl h) n = absurd (cc)
      held w (inr h) n = h
