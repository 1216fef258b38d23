-- ===== src/Scaler/World.antt =====
-- What a worker of internal/scaler/job.go acts on: its record (which the code passes by pointer),
-- the store, the clock and the calls made so far; and the environment that answers its calls.
use mini_control_action.Prelude.{
  ℕ, ◌+◌, Bool, true, false, Option, none, some, List, ◌∷◌, Text, is_lit, if◌then◌else◌,
}
use mini_control_action.Errors.{Error, write_failed, Result, ok, err}
use mini_control_action.State.{Record}
use mini_control_action.State.Store.{Store, Fault, upsert}
use mini_control_action.Config.{Config}
use mini_control_action.Minicontrol.{Vm, CreateVmRequest, ExecResult}
use mini_control_action.Github.{JobEvent, JobStatus, Runner}

-- What ends a wait in the `select` of `monitor`.
pub data Wake : Type 0 where
  cancel : Wake
  event : JobEvent → Wake
  tick : Wake

-- The worker's interactions are numbered, and each answer is a function of the number: any
-- sequence of answers of the two services, the disk, the timers and the shutdown signal is one of
-- these. `lag` is the time that an interaction takes.
pub record Env : Type 0 where
  pub cfg : Config
  pub lag : ℕ → ℕ
  pub cancelled : ℕ → Bool
  pub fault : ℕ → Option Fault
  pub nonce : ℕ → Text
  pub slept : ℕ → Bool
  pub acquired : ℕ → Bool
  pub wake : ℕ → Wake
  pub create_vm : ℕ → CreateVmRequest → Text → Result Vm
  pub get_vm : ℕ → Text → Result Vm
  pub delete_vm : ℕ → Text → Result (Unit {0})
  pub exec : ℕ → Text → Text → ℕ → Result ExecResult
  pub job_status : ℕ → Text → ℕ → Result JobStatus
  pub list_runners : ℕ → Text → Result (List Runner)
  pub remove_runner : ℕ → Text → ℕ → Result (Unit {0})
  pub jit_config : ℕ → Text → Text → List Text → Text → Result (Text × ℕ)
  pub latest_runner : ℕ → Result (Text × Text)
  pub render_script : Text → Text → Result Text
  pub base64 : Text → Text
  pub show_error : Error → Text

-- The calls that leave a trace. `saved` is an `Upsert` with whether the file was written;
-- `create_sent` has the key and the ID of the VM, if one was made.
pub data Call : Type 0 where
  saved : Record → Bool → Call
  create_sent : Text → Option Text → Call
  delete_sent : Text → Bool → Call
  get_sent : Text → Call
  exec_sent : Text → Text → Call
  job_query runners_query : Call
  remove_sent : ℕ → Call
  jit_sent : Text → Call

-- The variables of `monitor` that outlive a round of its loop.
pub record Watch : Type 0 where
  pub pickup_deadline : ℕ
  pub job_deadline : ℕ
  pub tick_count : ℕ
  pub job_done : Bool

-- `trace` has the newest call first; `url_val` is the scaler's cached download URL.
pub record Worker : Type 0 where
  pub rec : Record
  pub store : Store
  pub clock : ℕ
  pub step : ℕ
  pub trace : List Call
  pub url_val : Text
  pub watch : Watch

-- An action returns, or (`none`) it is still running when a loop's fuel is used up; the worker is
-- then as far as it got.
abbrev pub M : Type 0 → Type 0
M A = Worker → Option A × Worker

abbrev pub continue : {A B : Type 0} → Option A → (A → M B) → M B
continue none f w = (none, w)
continue (some a) f w = f a w

infixl 5 ◌>>=◌ ◌>>◌
unfoldable pub ◌>>=◌ : {A B : Type 0} → M A → (A → M B) → M B
◌>>=◌ m f w = let (r, w') = m w in continue r f w'

abbrev pub ◌>>◌ : {A B : Type 0} → M A → M B → M B
m >> k = m >>= λ _. k

-- A case split on a result, as a function.
module _ {A B : Type 0} where
  abbrev pub on_option : Option A → M B → (A → M B) → M B
  on_option none n f = n
  on_option (some a) n f = f a

  abbrev pub on_result : Result A → (A → M B) → (Error → M B) → M B
  on_result (ok a) f g = f a
  on_result (err e) f g = g e

module _ {A : Type 0} where
  unfoldable pub pure : A → M A
  pure a w = (some a, w)

  unfoldable pub out_of_fuel : M A
  out_of_fuel w = (none, w)

  unfoldable pub gets : (Worker → A) → M A
  gets f w = (some (f w), w)

module _ {A : Type 0} where
  -- An early return: `m` goes first, and `k` only if `m` has no result.
  infixr 6 ◌otherwise◌
  unfoldable pub ◌otherwise◌ : M (Option A) → M (Option A) → M (Option A)
  unfolding pure
  m otherwise k = m >>= λ r. on_option r k (λ a. pure (some a))

unfoldable pub get_rec : M Record
unfolding gets
get_rec = gets (λ w. w.rec)

unfoldable pub set_rec : (Record → Record) → M (Unit {0})
set_rec f w = (some tt, record w { rec = f w.rec })

unfoldable pub set_watch : (Watch → Watch) → M (Unit {0})
set_watch f w = (some tt, record w { watch = f w.watch })

unfoldable pub set_url : Text → M (Unit {0})
set_url u w = (some tt, record w { url_val = u })

-- time.Now()
unfoldable pub now : M ℕ
unfolding gets
now = gets (λ w. w.clock)

unfoldable pub emit : Call → M (Unit {0})
emit c w = (some tt, record w { trace = c ∷ w.trace })

unfoldable pub store_rec : Option Fault → M Bool
store_rec fault w =
    let (s, written) = upsert w.clock fault w.rec w.store in
    (some written, record w { store = s; trace = saved w.rec written ∷ w.trace })

abbrev pub write_error : Bool → Option Error
write_error true = none
write_error false = some write_failed

unfoldable pub elapse : ℕ → M (Unit {0})
elapse d w = (some tt, record w { clock = w.clock + d })

module _ (env : Env) where
  -- One interaction.
  unfoldable pub ask : {A : Type 0} → (ℕ → A) → M A
  ask f w = (some (f w.step), record w { step = w.step + 1; clock = w.clock + env.lag w.step })

  -- `s.store.Upsert(*rec)`
  unfoldable pub upsert_rec : M (Option Error)
  unfolding ask store_rec pure
  upsert_rec = do fault ← ask env.fault; written ← store_rec fault; pure (write_error written)

  -- `s.persist(rec, log)`: an error is only logged.
  unfoldable pub persist : M (Unit {0})
  unfolding upsert_rec pure
  persist = do upsert_rec; pure tt

  -- ctx.Err() != nil
  unfoldable pub cancelled : M Bool
  unfolding ask
  cancelled = ask env.cancelled

  -- `select` between the timer `time.After(d)` (true, and at least `d` has passed) and ctx.Done().
  unfoldable pub sleep : ℕ → M Bool
  unfolding ask elapse pure
  sleep d = do fired ← ask env.slept; (if fired then elapse d else pure tt); pure fired

  abbrev finished : Result JobStatus → Result Bool
  finished (ok st) = ok (is_lit st.status "completed")
  finished (err e) = err e

  unfoldable pub query_job : M (Result JobStatus)
  unfolding ask get_rec emit pure
  query_job = do
    r ← get_rec
    st ← ask (λ n. env.job_status n r.repo r.job_id)
    emit job_query
    pure st

  -- `jobAlreadyFinished`
  unfoldable pub job_already_finished : M (Result Bool)
  unfolding query_job pure
  job_already_finished = do st ← query_job; pure (finished st)

-- `err == nil && done`
abbrev pub is_done : Result Bool → Bool
is_done (ok b) = b
is_done (err e) = false
