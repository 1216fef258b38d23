-- ===== src/Scaler/Settled/Stages.antt =====
-- The stages of `attempt` of internal/scaler/job.go, while the service is not shutting down: which VM is
-- the current one after each.
use mini_control_action.Prelude.{
  ℕ, ◌+◌, ◌≤◌, ◌≡◌, refl, sym, ap, ◌∙◌, subst, ◌⊎◌, inl, inr, Bool, true, false, Option, none, some,
  List, [], ◌∷◌, Text, arith,
}
use mini_control_action.Errors.{Error}
use mini_control_action.State.{
  JobState, wait_ready, bootstrapping, runner_up, job_running, job_done, deleting, complete, Record,
  key_of, key_eq_refl,
}
use mini_control_action.State.Store.{get}
use mini_control_action.State.Store.Updates.{get-upsert}
use mini_control_action.Scaler.World.{
  Env, Worker, Call, saved, M, ◌>>=◌, ◌>>◌, pure, set_rec, store_rec, ask, cancelled, upsert_rec,
  persist,
}
use mini_control_action.Scaler.Keeps.{Keeps}
use mini_control_action.Scaler.Frame.{Frame, Frame-refl, Frame-persist}
use mini_control_action.Scaler.Frame.Actions.{
  Frame-delete_vm, Frame-remove_runner_registration, Frame-wait_ready, Frame-bootstrap_runner,
  Frame-monitor,
}
use mini_control_action.Scaler.Ensures.{
  Pred, Branch, Ensures, Ensures-pure, Ensures-if, Ensures-bind, Ensures-get_rec, Ensures-of_Keeps,
  Keeps-of_Frame, Ensures-weaken, Post_of_some,
}
use mini_control_action.Scaler.Cleanup.{delete_vm}
use mini_control_action.Scaler.Attempt.{
  Exit, set_state, fail_cleanup, proceed, needs_ready, needs_bootstrap, needs_monitor, needs_delete,
  ready_stage, bootstrap_stage, monitor_stage, delete_stage,
}
use mini_control_action.Scaler.Settled.{
  DeleteOk, failures, IsSettled, IsAccounted, IsAccounted-cons, IsAccounted-Trail,
  IsAccounted-settle,
}
use mini_control_action.Scaler.Settled.Deletes.{delete_vm-settle}

-- Of a run that is cut off nothing is said.
abbrev pub Any : Pred
Any w = Unit {0}

-- The record's VM is the current one.
abbrev pub Current : Pred
Current w = IsAccounted w.rec.vm_id w.trace

-- No VM is.
abbrev pub Clear : Pred
Clear w = IsAccounted [] w.trace

abbrev pub In : (JobState → Bool) → Pred
In p w = (p w.rec.state ≡ true) × Current w

-- The store's entry of the worker's record has the record's state.
abbrev pub Kept : Pred
Kept w = (r : Record) × (get w.store (key_of w.rec) ≡ some r) × (r.state ≡ w.rec.state)

abbrev pub Finished : Pred
Finished w = (w.rec.state ≡ complete) × Clear w × Kept w

-- A returned exit: no VM is current, and without an error the job is complete.
abbrev pub Fin : Exit → Pred
Fin x w = Clear w × (x.error ≡ none → Finished w)

abbrev pub holds : JobState → Bool
holds wait_ready = true
holds bootstrapping = true
holds runner_up = true
holds job_running = true
holds job_done = true
holds deleting = true
holds _ = false

abbrev pub past_ready : JobState → Bool
past_ready wait_ready = false
past_ready s = holds s

abbrev pub past_bootstrap : JobState → Bool
past_bootstrap bootstrapping = false
past_bootstrap s = past_ready s

Current-Frame : (w w' : Worker) → Current w → Frame w w' → Current w'
Current-Frame w w' h f =
    subst (λ v. IsAccounted v w'.trace) (sym f.vm_id) (IsAccounted-Trail f.trail h)

pub Clear-Frame : (w w' : Worker) → Clear w → Frame w w' → Clear w'
Clear-Frame w w' h f = IsAccounted-Trail f.trail h

module _ {A : Type 0} {m : M A} where
  pub Current_of_Frame : ((w : Worker) → Keeps (Frame w) m) → Ensures Any Current m (λ _. Current)
  Current_of_Frame k = Ensures-of_Keeps (Keeps-of_Frame Current-Frame k) (λ w h. tt)

  pub Clear_of_Frame : ((w : Worker) → Keeps (Frame w) m) → Ensures Any Clear m (λ _. Clear)
  Clear_of_Frame k = Ensures-of_Keeps (Keeps-of_Frame Clear-Frame k) (λ w h. tt)

pub Ensures-set_rec :
    {I P Q : Pred} (f : Record → Record)
    → ((w : Worker) → P w → Q (record w { rec = f w.rec }))
    → Ensures I P (set_rec f) (λ _. Q)
unfolding set_rec
Ensures-set_rec f h = record { at = h }

pub Ensures-set_state :
    {I P Q : Pred} (st : JobState)
    → ((w : Worker) → P w → Q (record w { rec = record w.rec { state = st } }))
    → Ensures I P (set_state st) (λ _. Q)
unfolding set_state
Ensures-set_state st h = Ensures-set_rec _ h

module _ (env : Env) where
  -- What `persist` leaves: the record, one call more, and the record's entry in the store.
  persist_effect :
      (w : Worker)
      → let (r, w') = persist env w in
        (r ≡ some tt)
        × (w'.rec ≡ w.rec)
        × ((b : Bool) × (w'.trace ≡ saved w.rec b ∷ w.trace))
        × Kept w'
  unfolding persist upsert_rec ask store_rec pure ◌>>=◌
  persist_effect w = (
    refl,
    refl,
    (_, refl),
    (
      record w.rec { updated_at = w.clock + env.lag w.step },
      get-upsert (w.clock + env.lag w.step) (env.fault w.step) w.rec w.store (key_of w.rec)
          ∙ (rw (key_eq_refl (key_of w.rec))),
      refl,
    ),
  )

  pub Ensures-persist :
      {P Q : Pred}
      → ((w w' : Worker)
          → P w
          → w'.rec ≡ w.rec
          → (b : Bool) → w'.trace ≡ saved w.rec b ∷ w.trace
          → Kept w'
          → Q w')
      → Ensures Any P (persist env) (λ _. Q)
  Ensures-persist {Q} k = record {
    at = λ w h.
        let e = persist_effect w in
        Post_of_some Any (λ _. Q) e.0 (k w (persist env w).1 h e.1 e.2.0 e.2.1 e.3);
  }

  pub persist-In :
      (p : JobState → Bool) (w w' : Worker)
      → In p w
      → w'.rec ≡ w.rec
      → (b : Bool) → w'.trace ≡ saved w.rec b ∷ w.trace
      → Kept w'
      → In p w'
  persist-In p w w' h e b t k =
      rw (e, t) (h.0, IsAccounted-cons w.rec.vm_id (saved w.rec b) w.trace refl h.1)

  pub persist-Clear :
      (w w' : Worker)
      → Clear w
      → w'.rec ≡ w.rec
      → (b : Bool) → w'.trace ≡ saved w.rec b ∷ w.trace
      → Kept w'
      → Clear w'
  persist-Clear w w' h e b t k = rw t (IsAccounted-cons [] (saved w.rec b) w.trace refl h)

  -- A terminal state is written.
  pub Ensures-end :
      (st : JobState)
      → Ensures Any Clear
          (set_state st >> persist env)
          (λ _ w. (w.rec.state ≡ st) × Clear w × Kept w)
  Ensures-end st =
      Ensures-bind (Ensures-set_state {Q = λ w. (w.rec.state ≡ st) × Clear w} st (λ w h. (refl, h)))
        λ _. Ensures-persist (λ w w' h e b t k.
          (ap (λ (r : Record). r.state) e ∙ h.0, persist-Clear w w' h.1 e b t k, k))

  pub Ensures-delete_vm : Ensures Any Current (delete_vm env) (λ _. Clear)
  Ensures-delete_vm = record {
    at = λ w h.
        let d = delete_vm-settle env w in
        Post_of_some Any (λ _. Clear) d.0
          (IsAccounted-settle
            (IsAccounted-Trail ((Frame-delete_vm env).at w (Frame-refl w)).trail h)
            (settled w.rec.vm_id w.trace (delete_vm env w).1.trace d.1));
  }
    where
      settled :
          (id : Text) (t t' : List Call)
          → (id ≡ []) ⊎ DeleteOk id t' ⊎ (3 + failures id t ≤ failures id t')
          → (id ≡ []) ⊎ IsSettled id t'
      settled id t t' (inl e) = inl e
      settled id t t' (inr (inl d)) = inr (inl d)
      settled id t t' (inr (inr f)) = inr (inr (omega arith))

  -- The service is not shutting down.
  module _ (running : (n : ℕ) → env.cancelled n ≡ false) where
    pub Ensures-cancelled :
        {I P : Pred}
        → ((w : Worker)
            → P w
            → P (record w { step = w.step + 1; clock = w.clock + env.lag w.step }))
        → Ensures I P (cancelled env) (λ b w. (b ≡ false) × P w)
    unfolding cancelled ask
    Ensures-cancelled keep = record { at = λ w h. (running w.step, keep w h) }

    Ensures-fail_cleanup : (e : Error) → Ensures Any Current (fail_cleanup env e) Fin
    unfolding fail_cleanup
    Ensures-fail_cleanup e = Ensures-bind (Ensures-cancelled (λ w h. h)) λ b.
        Ensures-if b (λ yes'. Ensures-pure _ (λ w h. absurd (cc)))
          (λ _.
            Ensures-bind (Ensures-weaken Ensures-delete_vm (λ w h. h.1) (λ _ w h. h))
              (λ _. Ensures-pure _ (λ w h. (h, λ n. absurd (cc)))))

    -- A stage's work is done, or has failed.
    Ensures-proceed :
        (p : JobState → Bool) (next : JobState) (e : Option Error)
        → p next ≡ true
        → Ensures Any Current (proceed env next e) (Branch (In p) Fin)
    unfolding proceed
    Ensures-proceed p next none ok' =
        Ensures-bind (Ensures-set_state {Q = In p} next (λ w h. (ok', h)))
          λ _. Ensures-bind (Ensures-persist (persist-In p)) (λ _. Ensures-pure none (λ w h. h))
    Ensures-proceed p next (some e) ok' =
        Ensures-bind (Ensures-fail_cleanup e) (λ x. Ensures-pure (some x) (λ w h. h))

    pub Ensures-ready_stage :
        (fuel : ℕ) → Ensures Any (In holds) (ready_stage env fuel) (Branch (In past_ready) Fin)
    unfolding ready_stage
    Ensures-ready_stage fuel = Ensures-get_rec λ r.
        Ensures-if (needs_ready r.state)
          (λ _.
            Ensures-bind
              (Ensures-weaken (Current_of_Frame (λ w. Frame-wait_ready env fuel)) (λ w h. h.0.1)
                (λ _ w h. h))
              (λ e. Ensures-proceed past_ready bootstrapping e refl))
          (λ n. Ensures-pure none (λ w h. (past w.rec.state h.0.0 (rw h.1 n), h.0.1)))
      where
        past : (s : JobState) → holds s ≡ true → needs_ready s ≡ false → past_ready s ≡ true
        past wait_ready h n = absurd (cc)
        past _ h n = h

    pub Ensures-bootstrap_stage :
        Ensures Any (In past_ready) (bootstrap_stage env) (Branch (In past_bootstrap) Fin)
    unfolding bootstrap_stage
    Ensures-bootstrap_stage = Ensures-get_rec λ r.
        Ensures-if (needs_bootstrap r.state)
          (λ _.
            Ensures-bind
              (Ensures-weaken (Current_of_Frame (λ w. Frame-bootstrap_runner env)) (λ w h. h.0.1)
                (λ _ w h. h))
              (λ e. Ensures-proceed past_bootstrap runner_up e refl))
          (λ n. Ensures-pure none (λ w h. (past w.rec.state h.0.0 (rw h.1 n), h.0.1)))
      where
        past :
            (s : JobState)
            → past_ready s ≡ true
            → needs_bootstrap s ≡ false
            → past_bootstrap s ≡ true
        past bootstrapping h n = absurd (cc)
        past _ h n = h

    pub Ensures-monitor_stage :
        (fuel : ℕ)
        → Ensures Any (In past_bootstrap) (monitor_stage env fuel) (Branch (In needs_delete) Fin)
    unfolding monitor_stage
    Ensures-monitor_stage fuel = Ensures-get_rec λ r.
        Ensures-if (needs_monitor r.state)
          (λ _.
            Ensures-bind
              (Ensures-weaken (Current_of_Frame (λ w. Frame-monitor env fuel)) (λ w h. h.0.1)
                (λ _ w h. h))
              (λ o. Ensures-proceed needs_delete job_done _ refl))
          (λ n. Ensures-pure none (λ w h. (past w.rec.state h.0.0 (rw h.1 n), h.0.1)))
      where
        past :
            (s : JobState)
            → past_bootstrap s ≡ true
            → needs_monitor s ≡ false
            → needs_delete s ≡ true
        past runner_up h n = absurd (cc)
        past job_running h n = absurd (cc)
        past _ h n = h

  pub Ensures-delete_stage : Ensures Any (In needs_delete) (delete_stage env) (Branch Finished Fin)
  unfolding delete_stage
  Ensures-delete_stage = Ensures-get_rec λ r.
      Ensures-if (needs_delete r.state)
        (λ _. Ensures-bind (Ensures-set_state {Q = Current} deleting (λ w h. h.0.1)) λ _.
          Ensures-bind (Current_of_Frame (λ w. Frame-persist env)) λ _.
            Ensures-bind Ensures-delete_vm λ _.
              Ensures-bind (Clear_of_Frame (λ w. Frame-remove_runner_registration env)) λ _.
                Ensures-bind
                  (Ensures-set_state {Q = λ w. (w.rec.state ≡ complete) × Clear w} complete
                    (λ w h. (refl, h)))
                  λ _.
                    Ensures-bind
                      (Ensures-persist {Q = Finished} (λ w w' h e b t k.
                        (ap (λ (r : Record). r.state) e ∙ h.0, persist-Clear w w' h.1 e b t k, k)))
                      λ _. Ensures-pure none (λ w h. h))
        (λ n. Ensures-pure none (λ w h. absurd (clash h.0.0 (rw h.1 n))))
    where
      clash : {b : Bool} → b ≡ true → b ≡ false → ⊥
      clash h k = cc
