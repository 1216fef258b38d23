-- ===== src/Scaler/NotOurs/Phases.antt =====
-- When `monitor` of internal/scaler/job.go lets a VM go because its job is done elsewhere.
use mini_control_action.Prelude.{ℕ, ◌≡◌, ◌⊎◌, Text}
use mini_control_action.Errors.{Result}
use mini_control_action.State.{Record}
use mini_control_action.Bootstrap.{Status}
use mini_control_action.Bootstrap.Commands.{status_command}
use mini_control_action.Scaler.World.{Env}
use mini_control_action.Scaler.Ensures.{Pred, Ensures}
use mini_control_action.Scaler.Boot.{read_status}
use mini_control_action.Scaler.Monitor.{Outcome, not_ours}
use mini_control_action.Scaler.NotOurs.{WasIdle, HasExited}

module _ (env : Env) (r0 : Record) where
  abbrev Excuse : Type 0
  Excuse = WasIdle env r0 ⊎ HasExited env r0

  -- A VM is let go as not ours only with an excuse.
  abbrev Excused : Outcome → Pred
  Excused o w = o ≡ not_ours → Excuse

  abbrev Told : Result Status → Type 0
  Told r = (n : ℕ) × (vm : Text) × (r ≡ read_status (env.exec n vm status_command 30))
