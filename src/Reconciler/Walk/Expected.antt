-- ===== src/Reconciler/Walk/Expected.antt =====
-- What is expected of the walk over the records in internal/reconciler/reconciler.go, by the record's state.
use mini_control_action.Prelude.{
  ℕ, ◌-◌, ltb, any, text_eq, is_empty, ◌≡◌, refl, Bool, true, false, not, ◌&&◌, ◌||◌, Option, none,
  some, List, [], ◌∷◌, Text, arith, if◌then◌else◌,
}
use mini_control_action.State.{
  JobState, complete, failed, deleting, job_done, terminal, Record, Key,
}
use mini_control_action.State.Store.{get}
use mini_control_action.Scaler.Dispatch.{Dispatch, is_active}
use mini_control_action.Reconciler.Walk.{Surroundings, settles, is_expired, has_live_vm}

-- The other workers leave the record at `k` alone, and no worker for it starts or ends.
pub record IsQuiet (env : Surroundings) (k : Key) : Type 0 where
  pub before_get : (r : Record) (d : Dispatch) → get (env.before r d).store k ≡ get d.store k
  pub before_active : (r : Record) (d : Dispatch) → is_active (env.before r d) k ≡ is_active d k
  pub during_get : (r : Record) (d : Dispatch) → get (env.during r d).store k ≡ get d.store k
  pub during_active : (r : Record) (d : Dispatch) → is_active (env.during r d) k ≡ is_active d k

module _ (now : ℕ) (live : List Text) (env : Surroundings) where
  -- The VM is among the listed ones.
  abbrev pub is_listed : Text → Bool
  is_listed [] = false
  is_listed (c ∷ id) = any (text_eq (c ∷ id)) live

  abbrev kept_a_day : Record → Option Record
  kept_a_day r = if ltb 86400000000000 (now - r.updated_at) then none else some r

  abbrev pub completed_unless : Bool → Record → Option Record
  completed_unless waits r =
      if waits then some r else some (record r { state = complete; updated_at = env.clock r })

  abbrev pub outcome_of : JobState → Bool → Record → Option Record
  outcome_of complete active r = kept_a_day r
  outcome_of failed active r = kept_a_day r
  outcome_of deleting active r =
      completed_unless (active || (is_listed r.vm_id && not (env.deleted r))) r
  outcome_of job_done active r =
      completed_unless (active || (is_listed r.vm_id && not (env.deleted r))) r
  outcome_of _ active r = some r

  -- The record that the walk leaves in place of `r`, when a worker of it is active or not.
  abbrev pub outcome : Bool → Record → Option Record
  outcome active r = outcome_of r.state active r

  abbrev pub worked_in : JobState → Bool → Bool
  worked_in complete active = active
  worked_in failed active = active
  worked_in deleting active = active
  worked_in job_done active = active
  worked_in _ active = true

  -- A record in any other state has a worker afterwards.
  abbrev pub worked : Bool → Record → Bool
  worked active r = worked_in r.state active

  -- The same, with the tests of the walk.
  abbrev pub left_in : JobState → Bool → Record → Option Record
  left_in st active r =
      if terminal st
      then (if is_expired now r then none else some r)
      else if settles st
      then completed_unless (active || (has_live_vm now live env r && not (env.deleted r))) r
      else some r

  abbrev pub left : Bool → Record → Option Record
  left active r = left_in r.state active r

  abbrev pub served_in : JobState → Bool → Bool
  served_in st active = if terminal st || settles st then active else true

  abbrev pub served : Bool → Record → Bool
  served active r = served_in r.state active

  listed_same : (r : Record) → is_listed r.vm_id ≡ has_live_vm now live env r
  unfolding has_live_vm
  listed_same r = go r.vm_id
    where
      go : (id : Text) → is_listed id ≡ not (is_empty id) && any (text_eq id) live
      go [] = refl
      go (c ∷ id) = refl

  day_same : (r : Record) → ltb 86400000000000 (now - r.updated_at) ≡ is_expired now r
  unfolding is_expired
  day_same r = ground arith

  pub outcome-left :
      (st : JobState) (active : Bool) (r : Record) → outcome_of st active r ≡ left_in st active r
  outcome-left complete active r = rw (day_same r) refl
  outcome-left failed active r = rw (day_same r) refl
  outcome-left deleting active r = rw (listed_same r) refl
  outcome-left job_done active r = rw (listed_same r) refl
  outcome-left _ active r = refl

  pub worked-served : (st : JobState) (active : Bool) → worked_in st active ≡ served_in st active
  worked-served complete active = refl
  worked-served failed active = refl
  worked-served deleting active = refl
  worked-served job_done active = refl
  worked-served _ active = refl
