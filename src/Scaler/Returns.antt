-- ===== src/Scaler/Returns.antt =====
-- For internal/scaler/job.go: actions that return, one rule for each way to build one; and what a frame of time and retries is.
pub mod Actions
pub mod Waits
pub mod Watching
pub mod Jobs
pub mod Retries
use mini_control_action.Prelude.{
  ℕ, ◌+◌, ◌≤◌, ◌≡◌, refl, ◌∙◌, Bool, true, false, Option, none, some, arith, if◌then◌else◌,
}
use mini_control_action.Errors.{Error, Result, ok, err}
use mini_control_action.Scaler.World.{
  Worker, M, ◌>>=◌, ◌otherwise◌, pure, on_option, on_result, gets,
}
use mini_control_action.Scaler.Ensures.{
  Pred, Ensures, Ensures-pure, Ensures-gets, Ensures-if, Ensures-bind, Ensures-option,
  Ensures-result, Ensures-weaken, Branch, Post,
}

-- No worker: a triple with it for runs that are cut off says that the action returns.
abbrev pub Never : Pred
Never w = ⊥

-- From a worker with `P` the action returns, and `P` holds.
abbrev pub Returns : {A : Type 0} → Pred → M A → Type 0
Returns P m = Ensures Never P m (λ _. P)

module _ {P : Pred} {A : Type 0} where
  pub Returns-pure : (a : A) → Returns P (pure a)
  Returns-pure a = Ensures-pure a (λ w h. h)

  pub Returns-gets : (f : Worker → A) → Returns P (gets f)
  Returns-gets f = Ensures-gets f (λ w h. h)

  pub Returns-if :
      (b : Bool) (m n : M A) → Returns P m → Returns P n → Returns P (if b then m else n)
  Returns-if b m n km kn = Ensures-if b (λ _. km) (λ _. kn)

module _ {P : Pred} {A B : Type 0} where
  pub Returns-bind :
      (m : M A) (f : A → M B) → Returns P m → ((a : A) → Returns P (f a)) → Returns P (m >>= f)
  Returns-bind m f km kf = Ensures-bind km kf

  pub Returns-option :
      (o : Option A) (n : M B) (f : A → M B)
      → Returns P n
      → ((a : A) → Returns P (f a))
      → Returns P (on_option o n f)
  Returns-option o n f kn kf = Ensures-option o (λ _. kn) (λ a _. kf a)

  pub Returns-result :
      (r : Result A) (f : A → M B) (g : Error → M B)
      → ((a : A) → Returns P (f a))
      → ((e : Error) → Returns P (g e))
      → Returns P (on_result r f g)
  Returns-result r f g kf kg = Ensures-result r (λ a _. kf a) (λ e _. kg e)

module _ {P : Pred} {A : Type 0} where
  pub Returns-otherwise :
      (m k : M (Option A)) → Returns P m → Returns P k → Returns P (m otherwise k)
  unfolding ◌otherwise◌
  Returns-otherwise m k km kk =
      Returns-bind m _ km (λ r. Returns-option r k _ kk (λ a. Returns-pure (some a)))

  -- A step of a chain of early returns.
  pub Branch-of_Returns : {m : M (Option A)} → Returns P m → Ensures Never P m (Branch P (λ _. P))
  Branch-of_Returns k = Ensures-weaken k (λ w h. h) (λ r w h. either r w h)
    where
      either : (r : Option A) (w : Worker) → P w → Branch P (λ (_ : A). P) r w
      either none w h = h
      either (some a) w h = h

pub ruleset returns_rules = (
  Returns-pure, Returns-gets, Returns-if, Returns-bind, Returns-option, Returns-result,
  Returns-otherwise,
)

-- Time passes, the retry count and the deadline of the job stay.
pub record Later (w0 : Worker) (w : Worker) : Type 0 where
  pub clock : w0.clock ≤ w.clock
  pub retry : w.rec.retry ≡ w0.rec.retry
  pub deadline : w.watch.job_deadline ≡ w0.watch.job_deadline

pub Later-refl : (w : Worker) → Later w w
Later-refl w = record { clock = omega arith; retry = refl; deadline = refl }

pub Later-trans : {u v w : Worker} → Later u v → Later v w → Later u w
Later-trans h k = record {
  clock = let a = h.clock in let b = k.clock in omega arith;
  retry = k.retry ∙ h.retry;
  deadline = k.deadline ∙ h.deadline;
}

-- A predicate that time does not break is kept.
pub Returns-of_Later :
    {A : Type 0} {P : Pred} {m : M A}
    → ((w w' : Worker) → P w → Later w w' → P w')
    → ((w : Worker) → Returns (Later w) m)
    → Returns P m
Returns-of_Later {A} {P} {m} stable k = record {
  at = λ w h. post w h (m w).0 (m w).1 ((k w).at w (Later-refl w));
}
  where
    post :
        (w : Worker)
        → P w
        → (r : Option A) (w' : Worker) → Post Never (λ _. Later w) r w'
        → Post Never (λ _. P) r w'
    post w h none w' l = l
    post w h (some a) w' l = stable w w' h l
