-- ===== src/Scaler/Release.antt =====
-- When `waitReady` of internal/scaler/job.go takes a VM.
use mini_control_action.Prelude.{
  ℕ, zero, suc, ◌≡◌, ◌≢◌, refl, sym, ap, ◌∙◌, true, false, Option, none, some, [], ◌∷◌, Text,
  is_lit, is_empty, arith, ltb,
}
use mini_control_action.Errors.{Error, Result, ok, err}
use mini_control_action.Minicontrol.{Vm}
use mini_control_action.Scaler.World.{
  Env, Worker, M, ◌>>=◌, pure, gets, get_rec, ask, emit, now, sleep,
}
use mini_control_action.Scaler.Ensures.{
  Pred, Ensures, Ensures-pure, Ensures-gets, Ensures-out_of_fuel, Ensures-if, Ensures-bind,
  Ensures-option, Ensures-get_rec, Ensures-weaken, Ensures_implies, Ensures-of_Keeps,
  Keeps-of_Frame,
}
use mini_control_action.Scaler.Frame.{Frame-sleep}
use mini_control_action.Scaler.Boot
use mini_control_action.Scaler.Boot.{ready_verdict, get_vm_call, poll_vm, wait_ready_loop}

-- GitHub Actions can be run in the VM: it was reported ready, with its credentials.
abbrev pub IsUsable : Vm → Type 0
IsUsable vm = (is_lit vm.status "ready" ≡ true) × (vm.username ≢ []) × (vm.websocket_url ≢ [])

nonempty : (s : Text) → is_empty s ≡ false → s ≢ []
nonempty [] h = absurd (cc)
nonempty (c ∷ s) h = λ e. absurd (cc)

verdict-IsUsable :
    (id : Text) (r : Result Vm)
    → ready_verdict id r ≡ some none
    → (vm : Vm) × (r ≡ ok vm) × IsUsable vm
unfolding ready_verdict
verdict-IsUsable id (err e) h = absurd (ground arith)
verdict-IsUsable id (ok vm) h = (
  vm,
  refl,
  (ground arith, nonempty vm.username (ground arith), nonempty vm.websocket_url (ground arith)),
)

-- Some poll of the VM `id` found it usable.
abbrev pub WasUsable : Env → Text → Type 0
WasUsable env id = (n : ℕ) × (vm : Vm) × (env.get_vm n id ≡ ok vm) × IsUsable vm

abbrev Cut : Pred
Cut w = Unit {0}

abbrev About : Text → Pred
About id w = w.rec.vm_id ≡ id

abbrev Verdict : Env → Text → Option Error → Pred
Verdict env id e w = e ≡ none → WasUsable env id

module _ (env : Env) (id : Text) where
  Ensures-get_vm_call :
      Ensures Cut
        (About id)
        (get_vm_call env)
        (λ r w. About id w × ((n : ℕ) × (r ≡ env.get_vm n id)))
  unfolding get_vm_call get_rec gets ask emit pure ◌>>=◌
  Ensures-get_vm_call = record { at = λ w h. (h, (w.step, ap (λ i. env.get_vm w.step i) h)) }

  Ensures-poll_vm :
      (deadline : ℕ) (rest : M (Option Error))
      → Ensures Cut (About id) rest (Verdict env id)
      → Ensures Cut (About id) (poll_vm env deadline rest) (Verdict env id)
  unfolding poll_vm
  Ensures-poll_vm deadline rest k = Ensures-get_rec λ r.
      Ensures-bind (Ensures-weaken Ensures-get_vm_call (λ w h. h.0) (λ _ w h. h)) λ answer.
        Ensures-option (ready_verdict r.vm_id answer)
          (λ _.
            Ensures-bind
              (Ensures-weaken {P = About id} (record { at = λ w h. h }) (λ w h. h.0) (λ _ w h. h))
              λ t.
                Ensures-if (ltb deadline t) (λ _. Ensures-pure _ (λ w h e. absurd (ground arith)))
                  (λ _. Ensures-bind asleep (λ fired.
                    Ensures-if fired (λ _. k)
                      (λ _. Ensures-pure _ (λ w h e. absurd (ground arith))))))
          (λ v e. Ensures-pure v (λ w h z. seen r.vm_id answer v e z h.1))
    where
      asleep : Ensures Cut (About id) (sleep env env.cfg.minicontrol.poll_interval) (λ _. About id)
      asleep =
          Ensures-of_Keeps (Keeps-of_Frame (λ w w' h f. f.vm_id ∙ h) (λ w. Frame-sleep env _))
            (λ w h. tt)

      seen :
          (i : Text) (answer : Result Vm) (v : Option Error)
          → ready_verdict i answer ≡ some v
          → v ≡ none
          → ((n : ℕ) × (answer ≡ env.get_vm n id))
          → WasUsable env id
      seen i answer v e z (n, a) =
          let (vm, q, u) = verdict-IsUsable i answer (e ∙ ap some z) in (n, vm, sym a ∙ q, u)

  Ensures-wait_ready_loop :
      (fuel deadline : ℕ)
      → Ensures Cut (About id) (wait_ready_loop env fuel deadline) (Verdict env id)
  unfolding wait_ready_loop
  Ensures-wait_ready_loop zero deadline = Ensures-out_of_fuel (λ w h. tt)
  Ensures-wait_ready_loop (suc fuel) deadline =
      Ensures-poll_vm deadline (wait_ready_loop env fuel deadline)
        (Ensures-wait_ready_loop fuel deadline)

  Ensures-wait_ready :
      (fuel : ℕ) → Ensures Cut (About id) (Boot.wait_ready env fuel) (Verdict env id)
  unfolding Boot.wait_ready now
  Ensures-wait_ready fuel =
      Ensures-bind (Ensures-gets _ (λ w h. h)) (λ t. Ensures-wait_ready_loop fuel _)

-- `waitReady` succeeds only when one of its polls has found the record's VM ready with a user name and
-- a websocket URL: a VM that is ready without credentials is not taken.
pub wait_ready_needs_usable :
    (env : Env) (fuel : ℕ) (w : Worker)
    → (Boot.wait_ready env fuel w).0 ≡ some none
    → WasUsable env w.rec.vm_id
wait_ready_needs_usable env fuel w e =
    Ensures_implies (Ensures-wait_ready env w.rec.vm_id fuel) w none refl e refl
