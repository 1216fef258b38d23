-- ===== src/Examples/Sweeps.antt =====
-- A sweep of internal/reconciler/reconciler.go at a concrete input.
use mini_control_action.Prelude.{
  ◌≡◌, ◌⊎◌, refl, true, none, some, List, [], ◌∷◌, Memᴰ, text_eq, arith, is_lit,
}
use mini_control_action.Errors.{Result, ok}
use mini_control_action.State.Store.{has_vm}
use mini_control_action.Minicontrol.{Vm}
use mini_control_action.Reconciler.{Sweep, sweep_orphans}
use mini_control_action.Reconciler.Orphans.{IsOrphan, sweep_spares}
use mini_control_action.State.{Record, deleting, key_of, key_eq}
use mini_control_action.State.Store.Map.{lookup}
use mini_control_action.State.Store.Sorting.{sort_by}
use mini_control_action.State.Store.{get, list}
use mini_control_action.Scaler.Dispatch.{is_active}
use mini_control_action.Scaler.Boot.{name_runner}
use mini_control_action.Github.{Runner}
use mini_control_action.Reconciler.Pass.{Pass, Meets}
use mini_control_action.Reconciler.Walk.{Walk, Surroundings, walk}
use mini_control_action.Reconciler.Walk.Expected.{IsQuiet, outcome, worked}
use mini_control_action.Reconciler.Walk.Outcome.{walk-outcome}
use mini_control_action.Reconciler.Walk.Deletes.{IsDueIn, walk-deletes}
use mini_control_action.Reconciler.Registrations.{remove_stale}
use mini_control_action.Reconciler.Registrations.Kept.{alive_kept}
use mini_control_action.Examples.Service.{config, env, job, with_vm, ready_vm, empty_store}
use mini_control_action.Examples.Polls.{server, client, repo, runner}

-- Two VMs without a record: one was seen by an earlier sweep, one is new.
abbrev before : Sweep
before = record { first_seen = record { id = 5 ∷ []; at = 100 } ∷ []; deletes = []; looks = 0 }

abbrev listed : Result (List Vm)
listed = ok (ready_vm (5 ∷ []) ∷ ready_vm (6 ∷ []) ∷ [])

deletes_the_old :
    (sweep_orphans 180 280 (λ n. empty_store) (λ n id. true) listed before).deletes ≡ (5 ∷ []) ∷ []
unfolding sweep_orphans is_lit has_vm
deletes_the_old = refl

sweep_spares_example :
    Memᴰ (5 ∷ []) before.deletes
    ⊎ IsOrphan 180 280 (λ n. empty_store) (λ n id. true) before (5 ∷ [])
sweep_spares_example =
    sweep_spares 180 280 (λ n. empty_store) (λ n id. true) listed before (5 ∷ []) (omega arith)
      (rw deletes_the_old (Memᴰ.head refl))

-- A record that is stuck in `deleting`, with its VM; no other worker does anything.
abbrev stuck : Record
stuck = record job { state = deleting; vm_id = 9 ∷ [] }

abbrev at_start : Walk
at_start = record {
  dispatch = record { store = record empty_store { recs = stuck ∷ [] }; lanes = []; started = [] };
  deletes = [];
}

abbrev still : Surroundings
still = record {
  before = λ r d. d;
  during = λ r d. d;
  deleted = λ r. true;
  fault = λ r. none;
  clock = λ r. 50;
}

undisturbed : IsQuiet still (key_of stuck)
undisturbed = record {
  before_get = λ r d. refl;
  before_active = λ r d. refl;
  during_get = λ r d. refl;
  during_active = λ r d. refl;
}

stuck_stored : get at_start.dispatch.store (key_of stuck) ≡ some stuck
unfolding get lookup key_eq
stuck_stored = refl

walk-outcome_example :
    (get (walk 40 ((9 ∷ []) ∷ []) still at_start).dispatch.store (key_of stuck)
      ≡ outcome 40 ((9 ∷ []) ∷ []) still (is_active at_start.dispatch (key_of stuck)) stuck)
    × (is_active (walk 40 ((9 ∷ []) ∷ []) still at_start).dispatch (key_of stuck)
        ≡ worked 40 ((9 ∷ []) ∷ []) still (is_active at_start.dispatch (key_of stuck)) stuck)
unfolding lookup
walk-outcome_example =
    walk-outcome 40 ((9 ∷ []) ∷ []) still at_start stuck (refl, tt) undisturbed stuck_stored

sent_again : (walk 40 ((9 ∷ []) ∷ []) still at_start).deletes ≡ (9 ∷ []) ∷ []
unfolding walk list sort_by text_eq
sent_again = refl

walk-deletes_example :
    Memᴰ (9 ∷ []) at_start.deletes ⊎ IsDueIn ((9 ∷ []) ∷ []) (list at_start.dispatch.store) (9 ∷ [])
walk-deletes_example =
    walk-deletes 40 ((9 ∷ []) ∷ []) still at_start (9 ∷ []) (rw sent_again (Memᴰ.head refl))

-- The registration that the worker's VM has.
abbrev registered : Runner
registered = record runner { name = (name_runner env with_vm).1.rec.runner_name }

alive_kept_example :
    remove_stale config server ((9 ∷ []) ∷ []) repo (runner ∷ registered ∷ []) client
    ≡ remove_stale config server ((9 ∷ []) ∷ []) repo (runner ∷ []) client
alive_kept_example =
    alive_kept env with_vm server ((9 ∷ []) ∷ []) repo registered (runner ∷ []) [] client
      (Memᴰ.head refl) refl

-- One VM is an orphan for long, the other is the stuck record's.
abbrev meets : Meets
meets = record { now = 280; stores = λ n. empty_store; deleted = λ n id. true; around = still }

abbrev whole : Pass
whole = record { orphans = before; walked = at_start; client = client }

abbrev two_vms : List Vm
two_vms = ready_vm (5 ∷ []) ∷ ready_vm (9 ∷ []) ∷ []
