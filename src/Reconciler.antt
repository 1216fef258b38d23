-- ===== src/Reconciler.antt =====
-- internal/reconciler/reconciler.go: the first part of `Sweep`, which deletes the VMs that no record
-- names. The other workers run at the same time: each look at the store and each delete is numbered,
-- and the store and the answer at a number are arguments.
pub mod Orphans
pub mod Walk
pub mod Registrations
pub mod Pass
use mini_control_action.Prelude.{
  ℕ, ◌+◌, Bool, true, false, not, ◌||◌, Option, none, some, List, [], ◌∷◌, any, keep_if, leb, Text,
  text_eq, is_lit, if◌then◌else◌,
}
use mini_control_action.State.Store.{Store, has_vm}
use mini_control_action.Errors.{Result, ok, err}
use mini_control_action.Minicontrol.{Vm}

-- An entry of `firstSeen`.
pub record Sight : Type 0 where
  pub id : Text
  pub at : ℕ

-- `deletes` has the VMs that a delete was sent for, the newest first; `looks` counts the VMs walked.
pub record Sweep : Type 0 where
  pub first_seen : List Sight
  pub deletes : List Text
  pub looks : ℕ

abbrev pub forget : Text → List Sight → List Sight
forget id = keep_if (λ x. not (text_eq x.id id))

unfoldable pub sighted : Text → List Sight → Option Sight
sighted id [] = none
sighted id (x ∷ xs) = if text_eq x.id id then some x else sighted id xs

module _ (grace now : ℕ) (stores : ℕ → Store) (deleted : ℕ → Text → Bool) where
  -- A candidate that was seen before.
  unfoldable pub judge : Text → Sight → Sweep → Sweep
  judge id x o =
      if leb (x.at + grace) now
      then record o {
        first_seen = if deleted o.looks id then forget id o.first_seen else o.first_seen;
        deletes = id ∷ o.deletes;
        looks = o.looks + 1;
      }
      else record o { looks = o.looks + 1 }

  unfoldable pub on_sight : Text → Option Sight → Sweep → Sweep
  unfolding judge
  on_sight id none o = record o {
    first_seen = record { id = id; at = now } ∷ o.first_seen;
    looks = o.looks + 1;
  }
  on_sight id (some x) o = judge id x o

  -- The body of the loop over the VMs.
  unfoldable pub consider : Vm → Sweep → Sweep
  unfolding on_sight sighted
  consider vm o =
      if is_lit vm.status "deleting" || has_vm (stores o.looks) vm.id
      then record o { first_seen = forget vm.id o.first_seen; looks = o.looks + 1 }
      else on_sight vm.id (sighted vm.id o.first_seen) o

  unfoldable pub consider_all : List Vm → Sweep → Sweep
  unfolding consider
  consider_all [] o = o
  consider_all (vm ∷ vms) o = consider_all vms (consider vm o)

  abbrev is_live : List Vm → Sight → Bool
  is_live vms x = any (λ (vm : Vm). text_eq vm.id x.id) vms

  -- The first part of `Sweep`: nothing happens when the VMs cannot be listed.
  unfoldable pub sweep_orphans : Result (List Vm) → Sweep → Sweep
  unfolding consider_all
  sweep_orphans (err e) o = o
  sweep_orphans (ok vms) o =
      let o' = consider_all vms o in record o' { first_seen = keep_if (is_live vms) o'.first_seen }
