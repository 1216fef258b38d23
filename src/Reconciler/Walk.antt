-- ===== src/Reconciler/Walk.antt =====
-- internal/reconciler/reconciler.go: the second part of `Sweep`, which walks the records. The other
-- workers run at the same time: what they do before the walk comes to a record, and while a delete is
-- under way, are arguments.
pub mod Expected
pub mod Outcome
pub mod Deletes
use mini_control_action.Prelude.{
  ℕ, ◌+◌, ◌*◌, Bool, true, false, not, ◌&&◌, Option, List, [], ◌∷◌, any, ltb, Text, text_eq,
  is_empty, if◌then◌else◌,
}
use mini_control_action.State.{deleting, job_done, complete, JobState, terminal, Record, key_of}
use mini_control_action.State.Store.{Store, Fault, upsert, delete, list}
use mini_control_action.Scaler.Dispatch.{Dispatch, is_active, spawn}

abbrev pub retention : ℕ
retention = 24 * 3600 * 1000000000

-- `deletes` has the VMs that a delete was sent for, the newest first.
pub record Walk : Type 0 where
  pub dispatch : Dispatch
  pub deletes : List Text

-- What is not the walk's own: the other workers, the answer to a delete, the file, and the clock, for
-- each record that is walked.
pub record Surroundings : Type 0 where
  pub before : Record → Dispatch → Dispatch
  pub during : Record → Dispatch → Dispatch
  pub deleted : Record → Bool
  pub fault : Record → Option Fault
  pub clock : Record → ℕ

-- The states that the walk settles: the job is over, and its VM may not be.
abbrev pub settles : JobState → Bool
settles deleting = true
settles job_done = true
settles _ = false

unfoldable pub is_expired : ℕ → Record → Bool
is_expired now r = ltb (r.updated_at + retention) now

module _ (now : ℕ) (live : List Text) (env : Surroundings) where
  unfoldable pub has_live_vm : Record → Bool
  has_live_vm r = not (is_empty r.vm_id) && any (text_eq r.vm_id) live

  abbrev expire : Record → Walk → Walk
  expire r w = record w {
    dispatch = record w.dispatch { store = (delete (env.fault r) (key_of r) w.dispatch.store).0 };
  }

  abbrev finish_record : Record → Walk → Walk
  finish_record r w = record w {
    dispatch = record w.dispatch {
      store =
          (upsert (env.clock r) (env.fault r) (record r { state = complete }) w.dispatch.store).0;
    };
  }

  -- The delete is sent again, and a delete that fails leaves the record as it is.
  unfoldable pub redelete : Record → Walk → Walk
  redelete r w =
      let w' : Walk = record {
        dispatch = env.during r w.dispatch;
        deletes = r.vm_id ∷ w.deletes;
      } in
      if env.deleted r then finish_record r w' else w'

  unfoldable pub settle : Record → Walk → Walk
  unfolding is_active has_live_vm redelete
  settle r w =
      if is_active w.dispatch (key_of r)
      then w
      else if has_live_vm r
      then redelete r w
      else finish_record r w

  unfoldable pub adopt : Record → Walk → Walk
  unfolding is_active spawn
  adopt r w =
      if is_active w.dispatch (key_of r) then w else record w { dispatch = spawn r w.dispatch }

  -- The body of the loop over the records.
  unfoldable pub walk_record : Record → Walk → Walk
  unfolding is_expired settle adopt
  walk_record r w =
      let w' = record w { dispatch = env.before r w.dispatch } in
      if terminal r.state
      then (if is_expired now r then expire r w' else w')
      else if settles r.state
      then settle r w'
      else adopt r w'

  unfoldable pub walk_records : List Record → Walk → Walk
  unfolding walk_record
  walk_records [] w = w
  walk_records (r ∷ rs) w = walk_records rs (walk_record r w)

  -- The loop walks the list that the store gave at its start.
  unfoldable pub walk : Walk → Walk
  unfolding walk_records
  walk w = walk_records (list w.dispatch.store) w
