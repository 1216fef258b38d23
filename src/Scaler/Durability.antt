-- ===== src/Scaler/Durability.antt =====
-- "The key MUST be durable before the server sees it": the idempotency keys of a worker's creates.
pub mod Runs
use mini_control_action.Prelude.{
  arith, ℕ, ◌+◌, zero, suc, ◌≡◌, refl, sym, ap, ◌∙◌, subst, Bool, true, false, Option, none, some,
  List, [], ◌∷◌, Text, is_empty,
}
use mini_control_action.Errors.{Error, Result, ok, err}
use mini_control_action.State.{JobState, Record}
use mini_control_action.State.Store.{Fault, upsert}
use mini_control_action.Minicontrol.{is_capacity}
use mini_control_action.Scaler.World.{
  Env, Worker, Call, saved, create_sent, delete_sent, get_sent, exec_sent, job_query, runners_query,
  remove_sent, jit_sent, M, ◌>>=◌, ◌>>◌, ◌otherwise◌, pure, on_option, get_rec, set_rec, emit,
  store_rec, elapse, ask, now, write_error, sleep, cancelled, upsert_rec, persist, query_job,
  job_already_finished,
}
use mini_control_action.Scaler.Keeps.{
  Keeps, Keeps-bind, Keeps-pure, Keeps-gets, Keeps-out_of_fuel, keeps_rules,
}
use mini_control_action.Scaler.Frame.{
  Frame, Frame-refl, Trail, start, more, Quiet, Frame-persist, Frame-cancelled, Frame-sleep,
  Frame-job_already_finished,
}
use mini_control_action.Scaler.Frame.Actions.{
  Frame-delete_vm, Frame-remove_runner_registration, Frame-wait_ready, Frame-bootstrap_runner,
  Frame-monitor,
}
use mini_control_action.Scaler.Ensures.{
  Pred, Ensures, Ensures-pure, Ensures-out_of_fuel, Ensures-if, Ensures-bind, Ensures-option,
  Ensures-result, Ensures-get_rec, Ensures-of_Keeps, Keeps-of_Frame, Ensures-weaken,
}
use mini_control_action.Scaler.Create.{
  on_plan, Created, got, not_needed, create_error, Plan, stop, wait_for, fresh_key, create_call,
  plan_wait, wait_round, create_round, create_loop, create_vm, vm_id_of,
}

-- The latest write of the record in the trace succeeded, and wrote the key `k`.
abbrev pub LastSaved : Text → List Call → Type 0
LastSaved k [] = ⊥
LastSaved k (saved r written ∷ t) = (r.idempotency_key ≡ k) × (written ≡ true)
LastSaved k (_ ∷ t) = LastSaved k t

-- Each create was sent when the record's latest write to the state file had succeeded and held the
-- key of that create.
abbrev pub KeysDurable : List Call → Type 0
KeysDurable [] = Unit {0}
KeysDurable (create_sent k v ∷ t) = LastSaved k t × KeysDurable t
KeysDurable (_ ∷ t) = KeysDurable t

abbrev pub Durable : Pred
Durable w = KeysDurable w.trace

-- The record's key may be sent.
abbrev pub Armed : Pred
Armed w = LastSaved w.rec.idempotency_key w.trace × KeysDurable w.trace

KeysDurable-more :
    (id : Text) (c : Call) (t : List Call) → Quiet id c → KeysDurable t → KeysDurable (c ∷ t)
KeysDurable-more id (create_sent k v) t q h = absurd q
KeysDurable-more id (saved r b) t q h = h
KeysDurable-more id (delete_sent j b) t q h = h
KeysDurable-more id (get_sent j) t q h = h
KeysDurable-more id (exec_sent j c) t q h = h
KeysDurable-more id job_query t q h = h
KeysDurable-more id runners_query t q h = h
KeysDurable-more id (remove_sent j) t q h = h
KeysDurable-more id (jit_sent n) t q h = h

KeysDurable-Trail : {id : Text} {t0 t : List Call} → Trail id t0 t → KeysDurable t0 → KeysDurable t
KeysDurable-Trail start h = h
KeysDurable-Trail {id} (more {c} {t} q r) h = KeysDurable-more id c t q (KeysDurable-Trail r h)

Durable-Frame : (w w' : Worker) → Durable w → Frame w w' → Durable w'
Durable-Frame w w' h f = KeysDurable-Trail f.trail h

pub Durable_of_Frame : {A : Type 0} {m : M A} → ((w : Worker) → Keeps (Frame w) m) → Keeps Durable m
Durable_of_Frame k = Keeps-of_Frame Durable-Frame k

pub Durable-set_rec : (f : Record → Record) → Keeps Durable (set_rec f)
unfolding set_rec
Durable-set_rec f = record { at = λ w h. h }

-- What a write of the record leaves, by its error.
unfoldable pub AfterWrite : Option Error → Pred
AfterWrite none = Armed
AfterWrite (some e) = Durable

AfterPlan : Plan → Pred
AfterPlan (stop c) = Durable
AfterPlan (wait_for wait backoff) = Armed

module _ (env : Env) where
  Armed-ask : {A : Type 0} (f : ℕ → A) → Keeps Armed (ask env f)
  unfolding ask
  Armed-ask f = record { at = λ w h. h }

  Armed-elapse : (d : ℕ) → Keeps Armed (elapse d)
  unfolding elapse
  Armed-elapse d = record { at = λ w h. h }

  Armed-job_query : Keeps Armed (emit job_query)
  unfolding emit
  Armed-job_query = record { at = λ w h. h }

  Armed-now : Keeps Armed now
  unfolding now
  Armed-now = Keeps-gets _

  Armed-wait_round : (e : Error) (deadline wait : ℕ) → Keeps Armed (wait_round env e deadline wait)
  unfolding wait_round sleep job_already_finished query_job
  Armed-wait_round e deadline wait =
      search (keeps_rules, Armed-ask, Armed-elapse, Armed-job_query) depth 12

  Armed-create_call : Keeps Armed (create_call env)
  unfolding create_call get_rec emit ask pure ◌>>=◌
  Armed-create_call = record { at = λ w h. (h.0, h) }

  -- A write that succeeds arms the record's key.
  pub Ensures-upsert_rec : Ensures Durable Durable (upsert_rec env) AfterWrite
  unfolding upsert_rec ask store_rec pure AfterWrite ◌>>=◌
  Ensures-upsert_rec = record { at = λ w h. ground arith }

  Disarm-fresh_key : Ensures Durable Armed (fresh_key env) (λ _. Durable)
  unfolding fresh_key ask set_rec ◌>>=◌
  Disarm-fresh_key = record { at = λ w h. h.1 }

  Ensures-plan_wait :
      (e : Error) (backoff : ℕ) → Ensures Durable Armed (plan_wait env e backoff) AfterPlan
  unfolding plan_wait AfterPlan AfterWrite
  Ensures-plan_wait e backoff =
      Ensures-if (is_capacity e)
        (λ _.
          Ensures-bind Disarm-fresh_key
            (λ _. Ensures-bind Ensures-upsert_rec (λ o. Ensures-pure _ (λ w h. ground arith))))
        (λ _. Ensures-pure _ (λ w h. ground arith))

  weak : (w : Worker) → Armed w → Durable w
  weak w h = h.1

  Ensures-plan :
      (plan : Plan) {f : Created → M Created} {g : ℕ → ℕ → M Created}
      → ((c : Created) → Ensures Durable Durable (f c) (λ _. Durable))
      → ((wait backoff : ℕ) → Ensures Durable Armed (g wait backoff) (λ _. Durable))
      → Ensures Durable (AfterPlan plan) (on_plan plan f g) (λ _. Durable)
  unfolding AfterPlan
  Ensures-plan (stop c) kf kg = kf c
  Ensures-plan (wait_for wait backoff) kf kg = kg wait backoff

  Ensures-create_round :
      (backoff deadline : ℕ) (rest : ℕ → M Created)
      → ((b : ℕ) → Ensures Durable Armed (rest b) (λ _. Durable))
      → Ensures Durable Armed (create_round env backoff deadline rest) (λ _. Durable)
  unfolding create_round
  Ensures-create_round backoff deadline rest k =
      Ensures-bind (Ensures-of_Keeps Armed-create_call weak) λ answer.
        Ensures-result answer (λ vm _. Ensures-pure _ weak)
          λ e _. Ensures-bind (Ensures-plan_wait e backoff) λ plan.
            Ensures-plan plan (λ c. Ensures-pure c (λ w h. h))
              λ wait backoff'.
                Ensures-bind (Ensures-of_Keeps (Armed-wait_round e deadline wait) weak)
                  λ o. Ensures-option o (λ _. k backoff') (λ c _. Ensures-pure c weak)

  Ensures-create_loop :
      (fuel deadline backoff : ℕ)
      → Ensures Durable Armed (create_loop env fuel deadline backoff) (λ _. Durable)
  unfolding create_loop
  Ensures-create_loop zero deadline backoff = Ensures-out_of_fuel weak
  Ensures-create_loop (suc fuel) deadline backoff =
      Ensures-create_round backoff deadline (create_loop env fuel deadline)
        (Ensures-create_loop fuel deadline)

  pub Ensures-create_vm : (fuel : ℕ) → Ensures Durable Armed (create_vm env fuel) (λ _. Durable)
  unfolding create_vm now
  Ensures-create_vm fuel =
      Ensures-bind (Ensures-of_Keeps Armed-now weak) (λ t. Ensures-create_loop fuel _ _)
