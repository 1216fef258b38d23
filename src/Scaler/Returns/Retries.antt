-- ===== src/Scaler/Returns/Retries.antt =====
-- Time and retries in `runJob` of internal/scaler/job.go.
use mini_control_action.Prelude.{ℕ, suc, ◌≡◌, Bool, true, false, pos, int_le}
use mini_control_action.Scaler.World.{Env}
use mini_control_action.Scaler.Ensures.{Pred, Ensures}
use mini_control_action.Scaler.Returns.Waits.{Late}

-- After a round: over, or in the next retry, which the configuration allows.
AfterTry : Env → ℕ → Bool → Pred
AfterTry env n true w =
    Late (suc n) 0 w × (int_le env.cfg.limits.max_retries_per_job (pos n) ≡ false)
AfterTry env n false w = Unit {0}
