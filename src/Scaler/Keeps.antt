-- ===== src/Scaler/Keeps.antt =====
-- Predicates of the worker that an action keeps, one rule for each way to build an action. They
-- hold of an action that returns and of one that is still running.
use mini_control_action.Prelude.{Bool, true, false, Option, none, some, if◌then◌else◌}
use mini_control_action.Errors.{Error, Result, ok, err}
use mini_control_action.Scaler.World.{
  Worker, M, continue, ◌>>=◌, ◌otherwise◌, pure, on_option, on_result, out_of_fuel, gets,
}

pub record Keeps {A : Type 0} (P : Worker → Type 0) (m : M A) : Type 0 where
  pub at : (w : Worker) → P w → P (m w).1

module _ {P : Worker → Type 0} {A : Type 0} where
  pub Keeps-pure : (a : A) → Keeps P (pure a)
  unfolding pure
  Keeps-pure a = record { at = λ w h. h }

  pub Keeps-out_of_fuel : Keeps P (out_of_fuel {A = A})
  unfolding out_of_fuel
  Keeps-out_of_fuel = record { at = λ w h. h }

  pub Keeps-gets : (f : Worker → A) → Keeps P (gets f)
  unfolding gets
  Keeps-gets f = record { at = λ w h. h }

  pub Keeps-if : (b : Bool) (m n : M A) → Keeps P m → Keeps P n → Keeps P (if b then m else n)
  Keeps-if true m n km kn = km
  Keeps-if false m n km kn = kn

module _ {P : Worker → Type 0} {A B : Type 0} where
  after :
      (r : Option A) (w : Worker) (f : A → M B)
      → P w
      → ((a : A) → Keeps P (f a))
      → P (continue r f w).1
  after none w f h kf = h
  after (some a) w f h kf = (kf a).at w h

  pub Keeps-bind :
      (m : M A) (f : A → M B) → Keeps P m → ((a : A) → Keeps P (f a)) → Keeps P (m >>= f)
  unfolding ◌>>=◌
  Keeps-bind m f km kf = record { at = λ w h. after (m w).0 (m w).1 f (km.at w h) kf }

  pub Keeps-option :
      (o : Option A) (n : M B) (f : A → M B)
      → Keeps P n
      → ((a : A) → Keeps P (f a))
      → Keeps P (on_option o n f)
  Keeps-option none n f kn kf = kn
  Keeps-option (some a) n f kn kf = kf a

  pub Keeps-result :
      (r : Result A) (f : A → M B) (g : Error → M B)
      → ((a : A) → Keeps P (f a))
      → ((e : Error) → Keeps P (g e))
      → Keeps P (on_result r f g)
  Keeps-result (ok a) f g kf kg = kf a
  Keeps-result (err e) f g kf kg = kg e

module _ {P : Worker → Type 0} {A : Type 0} where
  pub Keeps-otherwise : (m k : M (Option A)) → Keeps P m → Keeps P k → Keeps P (m otherwise k)
  unfolding ◌otherwise◌
  Keeps-otherwise m k km kk = search (Keeps-bind, Keeps-option, Keeps-pure)

pub ruleset keeps_rules = (
  Keeps-pure, Keeps-out_of_fuel, Keeps-gets, Keeps-if, Keeps-bind, Keeps-option, Keeps-result,
  Keeps-otherwise,
)
