-- ===== src/Reconciler/Pass.antt =====
-- `Sweep` of internal/reconciler/reconciler.go, put together from its parts.
pub mod Sent
use mini_control_action.Prelude.{
  ℕ, ◌≤◌, ◌<◌, ◌≡◌, ◌⊎◌, inl, inr, Bool, List, [], ◌∷◌, ◌++◌, Memᴰ, Text,
}
use mini_control_action.Errors.{Result, ok, err}
use mini_control_action.Config.{Config}
use mini_control_action.Minicontrol.{Vm}
use mini_control_action.State.Store.{Store, list}
use mini_control_action.Github.Api.{Server, Client}
use mini_control_action.Reconciler.{Sweep, Sight, sweep_orphans}
use mini_control_action.Reconciler.Walk.{Walk, Surroundings, walk}
use mini_control_action.Reconciler.Registrations.{clean_runners}

-- What a sweep changes.
pub record Pass : Type 0 where
  pub orphans : Sweep
  pub walked : Walk
  pub client : Client

abbrev pub ids : List Vm → List Text
ids [] = []
ids (vm ∷ vms) = vm.id ∷ ids vms

-- What a sweep meets: the stores that the orphans' part sees, the answers to its deletes, and the
-- surroundings of the walk.
pub record Meets : Type 0 where
  pub now : ℕ
  pub stores : ℕ → Store
  pub deleted : ℕ → Text → Bool
  pub around : Surroundings

module _ (cfg : Config) (server : Server) (m : Meets) where
  -- Nothing happens when the VMs cannot be listed.
  unfoldable pub sweep : Result (List Vm) → Pass → Pass
  unfolding sweep_orphans walk clean_runners
  sweep (err e) p = p
  sweep (ok vms) p =
      let walked = walk m.now (ids vms) m.around p.walked in
      record {
        orphans =
            sweep_orphans cfg.reconciler.orphan_grace m.now m.stores m.deleted (ok vms) p.orphans;
        walked = walked;
        client = (clean_runners cfg server (ids vms) walked.dispatch.store p.client).1;
      }
