-- ===== src/Scaler/Dispatch.antt =====
-- internal/scaler/scaler.go: which events start a worker, and which workers there are. An operation is
-- atomic here: `spawn` looks again for an active worker under the lock, so that the window between the
-- two looks of `Submit` starts no second one.
pub mod Workers
use mini_control_action.Prelude.{
  ℕ, suc, Bool, true, false, not, Option, none, some, List, [], ◌∷◌, ◌++◌, any, keep_if, length,
  ltb, Text, ℤ, pos, int_le, is_lit, if◌then◌else◌,
}
use mini_control_action.State.{queued, terminal, Record, Key, key_of, key_eq}
use mini_control_action.State.Store.{Store, Fault, upsert, get, list}
use mini_control_action.Github.{JobRef, JobEvent}

-- An entry of `active`: a worker's key, and the events in its channel, the oldest first.
pub record Lane : Type 0 where
  pub key : Key
  pub events : List JobEvent

-- `started` has the record of each worker that was started, the newest first.
pub record Dispatch : Type 0 where
  pub store : Store
  pub lanes : List Lane
  pub started : List Record

abbrev pub owns_key : Key → Lane → Bool
owns_key k l = key_eq l.key k

-- `Active`
unfoldable pub is_active : Dispatch → Key → Bool
is_active d k = any (owns_key k) d.lanes

-- `spawn`, and so `resume` and `ResumeRecord`
unfoldable pub spawn : Record → Dispatch → Dispatch
unfolding is_active
spawn r d = if is_active d (key_of r) then d else record d {
  lanes = record { key = key_of r; events = [] } ∷ d.lanes;
  started = r ∷ d.started;
}

abbrev pub channel_size : ℕ
channel_size = 8

-- A send that does not block: an event that finds the channel full is dropped.
unfoldable pub send : JobEvent → Lane → Lane
send ev l =
    if ltb (length l.events) channel_size then record l { events = l.events ++ ev ∷ [] } else l

unfoldable pub deliver : Key → JobEvent → List Lane → List Lane
unfolding send
deliver k ev [] = []
deliver k ev (l ∷ lanes) = if key_eq l.key k then send ev l ∷ lanes else l ∷ deliver k ev lanes

abbrev event_attempt : JobEvent → ℤ
event_attempt ev = if int_le ev.job.run_attempt (pos 0) then pos 1 else ev.job.run_attempt

abbrev pub event_key : JobEvent → Key
event_key ev = record { job_id = ev.job.job_id; run_attempt = event_attempt ev }

abbrev pub new_record : ℕ → JobEvent → Record
new_record now ev = record {
  job_id = ev.job.job_id;
  run_attempt = event_attempt ev;
  retry = 0;
  repo = ev.job.repo;
  labels = ev.job.labels;
  workflow_job_url = [];
  state = queued;
  vm_id = [];
  idempotency_key = [];
  runner_name = [];
  runner_id = 0;
  last_error = [];
  queued_at = now;
  updated_at = 0;
}

abbrev pub spawn_if : Bool → Record → Dispatch → Dispatch
spawn_if written r d = if written then spawn r d else d

-- The record of a job that is new: it is written before its worker starts.
unfoldable pub admit : ℕ → Option Fault → JobEvent → Dispatch → Dispatch
admit now fault ev d =
    let (s, written) = upsert now fault (new_record now ev) d.store in
    spawn_if written (new_record now ev) (record d { store = s })

unfoldable pub on_queued : ℕ → Option Fault → JobEvent → Option Record → Dispatch → Dispatch
unfolding admit spawn
on_queued now fault ev none d = admit now fault ev d
on_queued now fault ev (some r) d = if terminal r.state then d else spawn r d

unfoldable pub on_completed : Option Record → Dispatch → Dispatch
unfolding spawn
on_completed none d = d
on_completed (some r) d = if terminal r.state then d else spawn r d

-- `Submit` at the time `now`.
unfoldable pub submit : ℕ → Option Fault → JobEvent → Dispatch → Dispatch
unfolding is_active deliver on_queued on_completed
submit now fault ev d =
    if is_lit ev.action "waiting"
    then d
    else if is_active d (event_key ev)
    then record d { lanes = deliver (event_key ev) ev d.lanes }
    else if is_lit ev.action "queued"
    then on_queued now fault ev (get d.store (event_key ev)) d
    else if is_lit ev.action "completed"
    then on_completed (get d.store (event_key ev)) d
    else d

unfoldable pub resume_all : List Record → Dispatch → Dispatch
unfolding spawn
resume_all [] d = d
resume_all (r ∷ rs) d = resume_all rs (if terminal r.state then d else spawn r d)

-- `Resume`
unfoldable pub resume : Dispatch → Dispatch
unfolding resume_all
resume d = resume_all (list d.store) d

-- The end of a worker's goroutine.
unfoldable pub finish : Key → Dispatch → Dispatch
finish k d = record d { lanes = keep_if (λ l. not (owns_key k l)) d.lanes }
