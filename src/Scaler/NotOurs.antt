-- ===== src/Scaler/NotOurs.antt =====
-- What excuses that `monitor` of internal/scaler/job.go lets a VM go as not its record's own, and what its
-- actions leave of the record.
pub mod Phases
use mini_control_action.Prelude.{
  ℕ, zero, suc, ◌≡◌, ◌≢◌, refl, sym, ap, ◌∙◌, ◌⊎◌, inl, inr, Bool, true, false, Option, none, some,
  List, [], ◌∷◌, Text, codes, is_lit, text_eq_iff, ==_iff, ◌==◌, Bool-cases, arith, if◌then◌else◌,
  ltb,
}
use mini_control_action.Errors.{Error, Result, ok, err, max_duration}
use mini_control_action.State.{Record, job_running}
use mini_control_action.State.Store.{Fault}
use mini_control_action.Minicontrol.{is_not_found}
use mini_control_action.Github.{Runner, JobEvent, JobStatus}
use mini_control_action.Bootstrap.{Status, failed, done}
use mini_control_action.Bootstrap.Commands.{status_command}
use mini_control_action.Scaler.World.{
  Env, Worker, Wake, cancel, event, tick, Watch, Call, M, ◌>>=◌, ◌>>◌, ◌otherwise◌, pure, on_option,
  gets, get_rec, set_rec, set_watch, now, emit, store_rec, ask, upsert_rec, persist, query_job,
  job_already_finished,
}
use mini_control_action.Scaler.Keeps.{Keeps, Keeps-gets, Keeps-pure, keeps_rules}
use mini_control_action.Scaler.Ensures.{
  Pred, Ensures, Ensures-pure, Ensures-gets, Ensures-out_of_fuel, Ensures-if, Ensures-bind,
  Ensures-weaken, Ensures-of_Keeps, Ensures_implies, Ensures-otherwise, Branch,
}
use mini_control_action.Scaler.Cleanup.{query_runners}
use mini_control_action.Scaler.Boot.{exec_status, exec_call, read_status, get_vm_call}
use mini_control_action.Scaler.Monitor.{
  Outcome, completed, not_ours, broke, by_exit_code, exit_outcome, is_waiting_status, busy_in,
  busy_answer, mark_running, runner_busy, on_event, marker_phase, on_job_status, poll_phase,
  release_phase, pickup_expired, pickup_phase, deadline_phase, on_tick, on_wake, round, round_then,
  monitor_loop, monitor,
}

-- The first listed runner with the ID is not busy, if there is one.
abbrev pub IsIdleIn : ℕ → List Runner → Type 0
IsIdleIn id [] = Unit {0}
IsIdleIn id (x ∷ runners) = (x.id ≡ id → x.busy ≡ false) × (x.id ≢ id → IsIdleIn id runners)

busy_in-IsIdleIn :
    (id : ℕ) (runners : List Runner) → busy_in id runners ≡ false → IsIdleIn id runners
unfolding busy_in
busy_in-IsIdleIn id [] h = tt
busy_in-IsIdleIn id (x ∷ runners) h = elim (Bool-cases (x.id == id)) [
  | inl e ↦ (λ q. ground arith, λ n. absurd (n ((==_iff x.id id).0 e)))
  | inr e ↦ (λ q. absurd (ground arith), λ n. busy_in-IsIdleIn id runners (ground arith))
]

pub answer-IsIdleIn :
    (id : ℕ) (r : Result (List Runner))
    → busy_answer id r ≡ false
    → (runners : List Runner) × (r ≡ ok runners) × IsIdleIn id runners
unfolding busy_answer
answer-IsIdleIn id (err e) h = absurd (cc)
answer-IsIdleIn id (ok runners) h = (runners, refl, busy_in-IsIdleIn id runners h)

by_code_ours : (st : Status) → by_exit_code st ≢ not_ours
unfolding by_exit_code
by_code_ours st = λ h. absurd (ground arith)

pub exit_elsewhere :
    (st : Status) (r : Result JobStatus)
    → exit_outcome st r ≡ not_ours
    → (job : JobStatus) × (r ≡ ok job) × (job.status ≡ codes "in_progress")
unfolding exit_outcome is_lit by_exit_code
exit_elsewhere st (err e) h = absurd (by_code_ours st h)
exit_elsewhere st (ok job) h =
    (job, refl, ground (arith, text_eq_iff job.status (codes "in_progress")))

-- What is known when `monitor` starts with the record `r`: GitHub has answered a listing of the
-- repository's runners in which the record's runner is idle or missing.
abbrev pub WasIdle : Env → Record → Type 0
WasIdle env r =
    (n : ℕ) × (runners : List Runner) × (env.list_runners n r.repo ≡ ok runners)
    × IsIdleIn r.runner_id runners

-- The VM has reported that its runner is done, and GitHub that the record's job is still running.
abbrev pub HasExited : Env → Record → Type 0
HasExited env r =
    ((n : ℕ) × (vm : Text) × (st : Status) × (read_status (env.exec n vm status_command 30) ≡ ok st)
      × (st.phase ≡ codes "done"))
    × ((n : ℕ) × (job : JobStatus) × (env.job_status n r.repo r.job_id ≡ ok job)
        × (job.status ≡ codes "in_progress"))

abbrev pub Free : Pred
Free w = Unit {0}

pub record About (r0 : Record) (w : Worker) : Type 0 where
  pub repo : w.rec.repo ≡ r0.repo
  pub runner : w.rec.runner_id ≡ r0.runner_id
  pub job : w.rec.job_id ≡ r0.job_id

pub About-of : {r0 : Record} {w w' : Worker} → About r0 w → w'.rec ≡ w.rec → About r0 w'
About-of h e = record {
  repo = ap (λ (r : Record). r.repo) e ∙ h.repo;
  runner = ap (λ (r : Record). r.runner_id) e ∙ h.runner;
  job = ap (λ (r : Record). r.job_id) e ∙ h.job;
}

module _ {r0 : Record} where
  pub A-set_watch : (f : Watch → Watch) → Keeps (About r0) (set_watch f)
  unfolding set_watch
  A-set_watch f = record { at = λ w h. About-of h refl }

  pub A-emit : (c : Call) → Keeps (About r0) (emit c)
  unfolding emit
  A-emit c = record { at = λ w h. About-of h refl }

  pub A-store_rec : (fault : Option Fault) → Keeps (About r0) (store_rec fault)
  unfolding store_rec
  A-store_rec fault = record { at = λ w h. About-of h refl }

  pub A-ask : (env : Env) {A : Type 0} (f : ℕ → A) → Keeps (About r0) (ask env f)
  unfolding ask
  A-ask env f = record { at = λ w h. About-of h refl }

  pub A-running : Keeps (About r0) (set_rec (λ r. record r { state = job_running }))
  unfolding set_rec
  A-running = record { at = λ w h. record { repo = h.repo; runner = h.runner; job = h.job } }

  pub A-get_rec : Keeps (About r0) get_rec
  unfolding get_rec
  A-get_rec = Keeps-gets _

  pub A-now : Keeps (About r0) now
  unfolding now
  A-now = Keeps-gets _

pub ruleset about_steps =
    (keeps_rules, A-set_watch, A-emit, A-store_rec, A-ask, A-running, A-get_rec, A-now)

module _ {r0 : Record} (env : Env) where
  A-upsert_rec : Keeps (About r0) (upsert_rec env)
  unfolding upsert_rec
  A-upsert_rec = search about_steps

  A-persist : Keeps (About r0) (persist env)
  unfolding persist
  A-persist = search (about_steps, A-upsert_rec)

  A-mark_running : Keeps (About r0) (mark_running env)
  unfolding mark_running
  A-mark_running = search (about_steps, A-persist)

  pub A-on_event : (ev : JobEvent) → Keeps (About r0) (on_event env ev)
  unfolding on_event
  A-on_event ev = search (about_steps, A-mark_running) depth 8

  pub A-get_vm_call : Keeps (About r0) (get_vm_call env)
  unfolding get_vm_call
  A-get_vm_call = search about_steps

  pub A-query_job : Keeps (About r0) (query_job env)
  unfolding query_job
  A-query_job = search about_steps

  pub A-on_job_status : (answer : Result JobStatus) → Keeps (About r0) (on_job_status env answer)
  unfolding on_job_status
  A-on_job_status (err e) = search about_steps
  A-on_job_status (ok st) = search (about_steps, A-mark_running) depth 8
