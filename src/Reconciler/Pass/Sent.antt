-- ===== src/Reconciler/Pass/Sent.antt =====
-- All deletes of a sweep of internal/reconciler/reconciler.go.
use mini_control_action.Prelude.{◌⊎◌, List, Memᴰ, Text}
use mini_control_action.Config.{Config}
use mini_control_action.Minicontrol.{Vm}
use mini_control_action.State.Store.{list}
use mini_control_action.Github.Api.{Server}
use mini_control_action.Reconciler.Orphans.{IsOrphan}
use mini_control_action.Reconciler.Walk.Deletes.{IsDueIn}
use mini_control_action.Reconciler.Pass.{Pass, Meets, ids}

-- A delete was sent for the VM, for the one reason or the other.
abbrev pub IsSent : Pass → Text → Type 0
IsSent p id = Memᴰ id p.orphans.deletes ⊎ Memᴰ id p.walked.deletes

module _ (cfg : Config) (server : Server) (m : Meets) (vms : List Vm) (p : Pass) (id : Text) where
  abbrev pub IsOrphanIn : Type 0
  IsOrphanIn = IsOrphan cfg.reconciler.orphan_grace m.now m.stores m.deleted p.orphans id

  abbrev pub IsSettledIn : Type 0
  IsSettledIn = IsDueIn (ids vms) (list p.walked.dispatch.store) id
