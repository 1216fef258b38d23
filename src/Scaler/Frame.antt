-- ===== src/Scaler/Frame.antt =====
-- What an action of a worker leaves alone: the identity of its record, its VM, its retry count and
-- its idempotency key; and what calls it adds to the trace.
pub mod Actions
use mini_control_action.Prelude.{
  ℕ, ◌≡◌, refl, ap, ◌∙◌, Bool, true, false, Option, none, some, List, [], ◌∷◌, Text, ℤ,
}
use mini_control_action.State.{Record}
use mini_control_action.State.Store.{Fault}
use mini_control_action.Scaler.World.{
  Env, Worker, Watch, Call, saved, create_sent, delete_sent, M, ◌>>=◌, ◌>>◌, pure, gets, get_rec,
  set_rec, set_watch, set_url, now, emit, store_rec, elapse, ask, upsert_rec, persist, cancelled,
  sleep, query_job, job_already_finished, get_sent, exec_sent, job_query, runners_query,
  remove_sent, jit_sent,
}
use mini_control_action.Scaler.Keeps.{Keeps, Keeps-bind, Keeps-pure, Keeps-gets, keeps_rules}

-- No VM is asked for, and only the VM `id` is deleted.
abbrev pub Quiet : Text → Call → Type 0
Quiet id (saved r b) = Unit {0}
Quiet id (create_sent k v) = ⊥
Quiet id (delete_sent j b) = j ≡ id
Quiet id _ = Unit {0}

-- The trace `t` is the trace `t0` with quiet calls added.
pub data Trail (id : Text) (t0 : List Call) : List Call → Type 0 where
  start : Trail id t0 t0
  more : {c : Call} {t : List Call} → Quiet id c → Trail id t0 t → Trail id t0 (c ∷ t)

pub record Frame (w0 : Worker) (w : Worker) : Type 0 where
  pub job_id : w.rec.job_id ≡ w0.rec.job_id
  pub run_attempt : w.rec.run_attempt ≡ w0.rec.run_attempt
  pub vm_id : w.rec.vm_id ≡ w0.rec.vm_id
  pub retry : w.rec.retry ≡ w0.rec.retry
  pub key : w.rec.idempotency_key ≡ w0.rec.idempotency_key
  pub trail : Trail w0.rec.vm_id w0.trace w.trace

pub Frame-refl : (w : Worker) → Frame w w
Frame-refl w = record {
  job_id = refl;
  run_attempt = refl;
  vm_id = refl;
  retry = refl;
  key = refl;
  trail = start;
}

-- A change of the record that leaves what a frame fixes.
pub record IsMild (f : Record → Record) : Type 0 where
  pub job_id : (r : Record) → (f r).job_id ≡ r.job_id
  pub run_attempt : (r : Record) → (f r).run_attempt ≡ r.run_attempt
  pub vm_id : (r : Record) → (f r).vm_id ≡ r.vm_id
  pub retry : (r : Record) → (f r).retry ≡ r.retry
  pub key : (r : Record) → (f r).idempotency_key ≡ r.idempotency_key

module _ {w0 : Worker} where
  pub Frame-set_rec : (f : Record → Record) → IsMild f → Keeps (Frame w0) (set_rec f)
  unfolding set_rec
  Frame-set_rec f m = record {
    at = λ w h. record {
      job_id = m.job_id w.rec ∙ h.job_id;
      run_attempt = m.run_attempt w.rec ∙ h.run_attempt;
      vm_id = m.vm_id w.rec ∙ h.vm_id;
      retry = m.retry w.rec ∙ h.retry;
      key = m.key w.rec ∙ h.key;
      trail = h.trail;
    };
  }

  Frame-of :
      {w w' : Worker}
      → Frame w0 w
      → w'.rec ≡ w.rec
      → Trail w0.rec.vm_id w0.trace w'.trace
      → Frame w0 w'
  Frame-of h e t = record {
    job_id = ap (λ (r : Record). r.job_id) e ∙ h.job_id;
    run_attempt = ap (λ (r : Record). r.run_attempt) e ∙ h.run_attempt;
    vm_id = ap (λ (r : Record). r.vm_id) e ∙ h.vm_id;
    retry = ap (λ (r : Record). r.retry) e ∙ h.retry;
    key = ap (λ (r : Record). r.idempotency_key) e ∙ h.key;
    trail = t;
  }

  pub Frame-get_rec : Keeps (Frame w0) get_rec
  unfolding get_rec
  Frame-get_rec = Keeps-gets _

  pub Frame-now : Keeps (Frame w0) now
  unfolding now
  Frame-now = Keeps-gets _

  pub Frame-set_watch : (f : Watch → Watch) → Keeps (Frame w0) (set_watch f)
  unfolding set_watch
  Frame-set_watch f = record { at = λ w h. Frame-of h refl h.trail }

  pub Frame-set_url : (u : Text) → Keeps (Frame w0) (set_url u)
  unfolding set_url
  Frame-set_url u = record { at = λ w h. Frame-of h refl h.trail }

  pub Frame-elapse : (d : ℕ) → Keeps (Frame w0) (elapse d)
  unfolding elapse
  Frame-elapse d = record { at = λ w h. Frame-of h refl h.trail }

  pub Frame-emit : (c : Call) → Quiet w0.rec.vm_id c → Keeps (Frame w0) (emit c)
  unfolding emit
  Frame-emit c q = record { at = λ w h. Frame-of h refl (more q h.trail) }

  pub Frame-store_rec : (fault : Option Fault) → Keeps (Frame w0) (store_rec fault)
  unfolding store_rec
  Frame-store_rec fault = record { at = λ w h. Frame-of h refl (more tt h.trail) }

  pub Frame-ask : (env : Env) {A : Type 0} (f : ℕ → A) → Keeps (Frame w0) (ask env f)
  unfolding ask
  Frame-ask env f = record { at = λ w h. Frame-of h refl h.trail }

module _ {w0 : Worker} where
  pub Frame-delete_sent :
      (id : Text) (b : Bool) → id ≡ w0.rec.vm_id → Keeps (Frame w0) (emit (delete_sent id b))
  Frame-delete_sent id b e = Frame-emit _ e

  pub Frame-get_sent : (id : Text) → Keeps (Frame w0) (emit (get_sent id))
  Frame-get_sent id = Frame-emit _ tt

  pub Frame-exec_sent : (id command : Text) → Keeps (Frame w0) (emit (exec_sent id command))
  Frame-exec_sent id command = Frame-emit _ tt

  pub Frame-jit_sent : (name : Text) → Keeps (Frame w0) (emit (jit_sent name))
  Frame-jit_sent name = Frame-emit _ tt

  pub Frame-remove_sent : (id : ℕ) → Keeps (Frame w0) (emit (remove_sent id))
  Frame-remove_sent id = Frame-emit _ tt

  pub Frame-job_query : Keeps (Frame w0) (emit job_query)
  Frame-job_query = Frame-emit _ tt

  pub Frame-runners_query : Keeps (Frame w0) (emit runners_query)
  Frame-runners_query = Frame-emit _ tt

pub ruleset frame_steps = (
  Frame-delete_sent, Frame-get_sent, Frame-exec_sent, Frame-jit_sent, Frame-remove_sent,
  Frame-job_query, Frame-runners_query, keeps_rules, Frame-get_rec, Frame-now, Frame-set_watch,
  Frame-set_url, Frame-elapse, Frame-store_rec, Frame-ask,
)

module _ {w0 : Worker} (env : Env) where
  pub Frame-upsert_rec : Keeps (Frame w0) (upsert_rec env)
  unfolding upsert_rec
  Frame-upsert_rec = search frame_steps

  pub Frame-persist : Keeps (Frame w0) (persist env)
  unfolding persist
  Frame-persist = search (frame_steps, Frame-upsert_rec)

  pub Frame-cancelled : Keeps (Frame w0) (cancelled env)
  unfolding cancelled
  Frame-cancelled = Frame-ask env _

  pub Frame-sleep : (d : ℕ) → Keeps (Frame w0) (sleep env d)
  unfolding sleep
  Frame-sleep d = search frame_steps

  pub Frame-query_job : Keeps (Frame w0) (query_job env)
  unfolding query_job
  Frame-query_job = search frame_steps

  pub Frame-job_already_finished : Keeps (Frame w0) (job_already_finished env)
  unfolding job_already_finished
  Frame-job_already_finished = search (frame_steps, Frame-query_job)
