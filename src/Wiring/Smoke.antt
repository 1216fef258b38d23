-- ===== src/Wiring/Smoke.antt =====
-- `runSmoke` of cmd/minicontrol-runner/main.go: a VM is made, waited for, used once and deleted. What is
-- printed is left out. The loop that waits has no bound in the code; here it runs on fuel.
pub mod Cleanup
use mini_control_action.Prelude.{
  ℕ, zero, suc, ◌+◌, Bool, true, false, not, ◌||◌, Option, none, some, List, [], ◌∷◌, ◌++◌, any,
  Text, pos, int_eq, is_lit, is_empty, text_eq, to_lower, if◌then◌else◌,
}
use mini_control_action.Errors.{Result, ok, err}
use mini_control_action.Minicontrol.{Vm, ExecResult}

-- The answers of the VM service to the create, to each poll and to the command, and whether the program
-- is interrupted in the wait after a poll.
pub record SmokeEnv : Type 0 where
  pub create : Result Vm
  pub poll : ℕ → Result Vm
  pub interrupted : ℕ → Bool
  pub exec : Result ExecResult

pub data Call : Type 0 where
  created : Call
  polled executed deleted : Text → Call

-- strings.EqualFold on ASCII text
abbrev equal_fold : Text → Text → Bool
equal_fold s t = text_eq (to_lower s) (to_lower t)

-- The VM's worker carries the tag that was asked for.
unfoldable pub is_placed : Text → Vm → Bool
unfolding text_eq to_lower
is_placed tag vm = is_empty tag || any (λ t. equal_fold t tag) vm.worker_tags

-- An exit code, if the run comes to one, and the calls that were made, the first first.
abbrev pub Run : Type 0
Run = Option ℕ × List Call

abbrev pub before : Call → Run → Run
before call r = (r.0, call ∷ r.1)

module _ (env : SmokeEnv) where
  unfoldable pub run_command : Text → Run
  run_command id = elim env.exec [
    | err e ↦ (some 1, executed id ∷ [])
    | ok res ↦ (some (if int_eq res.exit_code (pos 0) then 0 else 1), executed id ∷ [])
  ]

  -- What a poll decides; `later` is the next round.
  unfoldable pub on_poll : ℕ → Text → Result Vm → Run → Run
  unfolding run_command is_lit
  on_poll n id (err e) later = (some 1, [])
  on_poll n id (ok cur) later =
      if is_lit cur.status "ready"
      then run_command id
      else if is_lit cur.status "error"
      then (some 1, [])
      else if env.interrupted n
      then (some 1, [])
      else later

  unfoldable pub wait_then_run : ℕ → ℕ → Text → Run
  unfolding on_poll
  wait_then_run zero n id = (none, [])
  wait_then_run (suc fuel) n id =
      before (polled id) (on_poll n id (env.poll n) (wait_then_run fuel (n + 1) id))

  -- The deferred delete runs on every return; a run that is cut off has not returned.
  abbrev pub after_delete : Text → Run → Run
  after_delete id (none, calls) = (none, calls)
  after_delete id (some code, calls) = (some code, calls ++ deleted id ∷ [])

  abbrev pub with_vm : ℕ → Text → Result Vm → Run
  with_vm fuel tag (err e) = (some 1, [])
  with_vm fuel tag (ok vm) =
      after_delete vm.id
        (if not (is_placed tag vm) then (some 1, []) else wait_then_run fuel 0 vm.id)

  -- `runSmoke` with the tag of the configuration
  unfoldable pub run_smoke : ℕ → Text → Run
  unfolding wait_then_run is_placed
  run_smoke fuel tag = before created (with_vm fuel tag env.create)
