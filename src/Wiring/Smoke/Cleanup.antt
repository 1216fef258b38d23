-- ===== src/Wiring/Smoke/Cleanup.antt =====
-- That the smoke test of cmd/minicontrol-runner/main.go ends, and cleans up.
use mini_control_action.Prelude.{
  ℕ, zero, suc, ◌+◌, ◌<◌, ◌≡◌, refl, sym, ◌∙◌, subst, inl, inr, Bool, true, false, not, ◌||◌, none,
  some, List, [], ◌∷◌, ◌++◌, Memᴰ, Text, pos, int_eq, Bool-cases, is_lit, arith, if◌then◌else◌,
}
use mini_control_action.Errors.{Result, ok, err}
use mini_control_action.Minicontrol.{Vm, ExecResult}
use mini_control_action.Wiring.Smoke.{
  SmokeEnv, Call, created, executed, deleted, Run, before, run_command, on_poll, wait_then_run,
  after_delete, is_placed, run_smoke,
}

-- The poll at which the waiting ends: it fails, finds the VM ready or in error, or the program is
-- interrupted after it.
abbrev pub ends : SmokeEnv → ℕ → Result Vm → Bool
ends env n (err e) = true
ends env n (ok vm) = is_lit vm.status "ready" || (is_lit vm.status "error" || env.interrupted n)

abbrev pub IsReturn : Run → Type 0
IsReturn r = (code : ℕ) × (r.0 ≡ some code)

true_not_false : true ≡ false → ⊥
true_not_false e = cc

module _ (env : SmokeEnv) where
  run_command-IsReturn : (id : Text) → IsReturn (run_command env id)
  unfolding run_command
  run_command-IsReturn id = by_answer env.exec
    where
      by_answer :
          (x : Result ExecResult)
          → IsReturn (elim x [
            | err e ↦ (some 1, executed id ∷ [])
            | ok res ↦ (some (if int_eq res.exit_code (pos 0) then 0 else 1), executed id ∷ [])
          ])
      by_answer (err e) = (1, refl)
      by_answer (ok res) = (_, refl)

  on_poll-IsReturn :
      (n : ℕ) (id : Text) (r : Result Vm) (later : Run)
      → (ends env n r ≡ false → IsReturn later)
      → IsReturn (on_poll env n id r later)
  unfolding on_poll
  on_poll-IsReturn n id (err e) later k = (1, refl)
  on_poll-IsReturn n id (ok vm) later k = elim (Bool-cases (is_lit vm.status "ready")) [
    | inl e ↦ rw e (run_command-IsReturn id)
    | inr e ↦ rw e (elim (Bool-cases (is_lit vm.status "error")) [
      | inl f ↦ rw f (1, refl)
      | inr f ↦ rw f (elim (Bool-cases (env.interrupted n)) [
        | inl g ↦ rw g (1, refl)
        | inr g ↦ rw g (k (rw (e, f, g) refl))
      ])
    ])
  ]

  -- The waiting ends at the poll `p`, which is `m` polls ahead.
  wait-IsReturn :
      (fuel n m p : ℕ) (id : Text)
      → p ≡ n + m
      → ends env p (env.poll p) ≡ true
      → m < fuel
      → IsReturn (wait_then_run env fuel n id)
  unfolding wait_then_run
  wait-IsReturn zero n m p id e h l = absurd (omega arith)
  wait-IsReturn (suc fuel) n zero p id e h l =
      let now = subst (λ q. ends env q (env.poll q) ≡ true) {x = p} {y = n} (omega arith) h in
      on_poll-IsReturn n id (env.poll n) (wait_then_run env fuel (n + 1) id)
        (λ k. absurd (true_not_false (sym now ∙ k)))
  wait-IsReturn (suc fuel) n (suc m) p id e h l =
      on_poll-IsReturn n id (env.poll n) (wait_then_run env fuel (n + 1) id)
        (λ k. wait-IsReturn fuel (n + 1) m p id (omega arith) h (omega arith))

  body-IsReturn :
      (fuel p : ℕ) (tag : Text) (vm : Vm)
      → ends env p (env.poll p) ≡ true
      → p < fuel
      → IsReturn (if not (is_placed tag vm) then (some 1, []) else wait_then_run env fuel 0 vm.id)
  body-IsReturn fuel p tag vm h l = either (is_placed tag vm)
    where
      either :
          (b : Bool) → IsReturn (if not b then (some 1, []) else wait_then_run env fuel 0 vm.id)
      either true = wait-IsReturn fuel 0 p p vm.id (omega arith) h l
      either false = (1, refl)

last-mem : (x : Call) (xs : List Call) → Memᴰ x (xs ++ x ∷ [])
last-mem x [] = Memᴰ.head refl
last-mem x (y ∷ xs) = Memᴰ.tail (last-mem x xs)

cleaned :
    (env : SmokeEnv) (id : Text) (r : Run)
    → IsReturn r
    → IsReturn (before created (after_delete env id r))
      × Memᴰ (deleted id) (before created (after_delete env id r)).1
cleaned env id (none, calls) (code, e) = absurd (cc)
cleaned env id (some c, calls) h = ((c, refl), Memᴰ.tail (last-mem (deleted id) calls))

-- The smoke test leaves no VM behind. When the create has answered with a VM, and at some poll the
-- service fails, reports the VM ready or in error, or the program is interrupted, then `runSmoke`
-- returns, and has sent a delete for the VM: whether its tag is right and whatever the command answers.
pub smoke_cleans_up :
    (env : SmokeEnv) (tag : Text) (fuel p : ℕ) (vm : Vm)
    → env.create ≡ ok vm
    → ends env p (env.poll p) ≡ true
    → p < fuel
    → IsReturn (run_smoke env fuel tag) × Memᴰ (deleted vm.id) (run_smoke env fuel tag).1
unfolding run_smoke
smoke_cleans_up env tag fuel p vm e h l =
    rw e (cleaned env vm.id _ (body-IsReturn env fuel p tag vm h l))
