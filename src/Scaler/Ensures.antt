-- ===== src/Scaler/Ensures.antt =====
-- Triples of actions: from a worker with `P` the action returns a worker and a result with `Q`, or it
-- is still running at a worker with `I`.
use mini_control_action.Prelude.{
  ◌≡◌, refl, sym, subst, Bool, true, false, Option, none, some, if◌then◌else◌,
}
use mini_control_action.Errors.{Error, Result, ok, err}
use mini_control_action.State.{Record}
use mini_control_action.Scaler.World.{
  Worker, M, continue, ◌>>=◌, ◌otherwise◌, pure, on_option, on_result, out_of_fuel, gets, get_rec,
}
use mini_control_action.Scaler.Keeps.{Keeps}
use mini_control_action.Scaler.Frame.{Frame, Frame-refl}

abbrev pub Pred : Type 1
Pred = Worker → Type 0

abbrev pub Post : {A : Type 0} → Pred → (A → Pred) → Option A → Pred
Post I Q none w = I w
Post I Q (some a) w = Q a w

pub record Ensures {A : Type 0} (I : Pred) (P : Pred) (m : M A) (Q : A → Pred) : Type 0 where
  pub at : (w : Worker) → P w → Post I Q (m w).0 (m w).1

module _ {I : Pred} {A : Type 0} {P : Pred} {Q : A → Pred} where
  pub Ensures-pure : (a : A) → ((w : Worker) → P w → Q a w) → Ensures I P (pure a) Q
  unfolding pure
  Ensures-pure a h = record { at = h }

  pub Ensures-out_of_fuel : ((w : Worker) → P w → I w) → Ensures I P out_of_fuel Q
  unfolding out_of_fuel
  Ensures-out_of_fuel h = record { at = h }

  pub Ensures-if :
      (b : Bool) {m n : M A}
      → (b ≡ true → Ensures I P m Q)
      → (b ≡ false → Ensures I P n Q)
      → Ensures I P (if b then m else n) Q
  Ensures-if true km kn = km refl
  Ensures-if false km kn = kn refl

  -- What an action does to any one worker, seen from the worker.
  pub Ensures-gets : (f : Worker → A) → ((w : Worker) → P w → Q (f w) w) → Ensures I P (gets f) Q
  unfolding gets
  Ensures-gets f h = record { at = h }

module _ {I : Pred} {A B : Type 0} {R : B → Pred} where
  Post-continue :
      {Q : A → Pred} (r : Option A) (w : Worker) (f : A → M B)
      → Post I Q r w
      → ((a : A) → Ensures I (Q a) (f a) R)
      → Post I R (continue r f w).0 (continue r f w).1
  Post-continue none w f h k = h
  Post-continue (some a) w f h k = (k a).at w h

module _ {I : Pred} {A B : Type 0} {P : Pred} {R : B → Pred} where
  pub Ensures-bind :
      {Q : A → Pred} {m : M A} {f : A → M B}
      → Ensures I P m Q
      → ((a : A) → Ensures I (Q a) (f a) R)
      → Ensures I P (m >>= f) R
  unfolding ◌>>=◌
  Ensures-bind {m} {f} km kf = record { at = λ w h. Post-continue (m w).0 (m w).1 f (km.at w h) kf }

  pub Ensures-option :
      (o : Option A) {n : M B} {f : A → M B}
      → (o ≡ none → Ensures I P n R)
      → ((a : A) → o ≡ some a → Ensures I P (f a) R)
      → Ensures I P (on_option o n f) R
  Ensures-option none kn kf = kn refl
  Ensures-option (some a) kn kf = kf a refl

  pub Ensures-result :
      (r : Result A) {f : A → M B} {g : Error → M B}
      → ((a : A) → r ≡ ok a → Ensures I P (f a) R)
      → ((e : Error) → r ≡ err e → Ensures I P (g e) R)
      → Ensures I P (on_result r f g) R
  Ensures-result (ok a) kf kg = kf a refl
  Ensures-result (err e) kf kg = kg e refl

module _ {I : Pred} {B : Type 0} {P : Pred} {R : B → Pred} where
  -- The record that the code reads is the worker's.
  pub Ensures-get_rec :
      {f : Record → M B}
      → ((r : Record) → Ensures I (λ w. P w × (w.rec ≡ r)) (f r) R)
      → Ensures I P (get_rec >>= f) R
  unfolding get_rec gets ◌>>=◌
  Ensures-get_rec kf = record { at = λ w h. (kf w.rec).at w (h, refl) }

module _ {I : Pred} {A : Type 0} {P : Pred} {m : M A} where
  pub Ensures-of_Keeps : Keeps P m → ((w : Worker) → P w → I w) → Ensures I P m (λ _. P)
  Ensures-of_Keeps k weaken = record { at = λ w h. post (m w).0 (m w).1 (k.at w h) }
    where
      post : (r : Option A) (w : Worker) → P w → Post I (λ _. P) r w
      post none w h = weaken w h
      post (some a) w h = h

module _ {A : Type 0} {P : Pred} {m : M A} where
  -- A predicate that every frame keeps is kept by an action with a frame.
  pub Keeps-of_Frame :
      ((w w' : Worker) → P w → Frame w w' → P w') → ((w : Worker) → Keeps (Frame w) m) → Keeps P m
  Keeps-of_Frame stable k = record { at = λ w h. stable w _ h ((k w).at w (Frame-refl w)) }

module _ {I : Pred} {A : Type 0} {P P' : Pred} {Q Q' : A → Pred} {m : M A} where
  pub Ensures-weaken :
      Ensures I P m Q
      → ((w : Worker) → P' w → P w)
      → ((a : A) (w : Worker) → Q a w → Q' a w)
      → Ensures I P' m Q'
  Ensures-weaken k pre after = record { at = λ w h. post (m w).0 (m w).1 (k.at w (pre w h)) }
    where
      post : (r : Option A) (w : Worker) → Post I Q r w → Post I Q' r w
      post none w h = h
      post (some a) w h = after a w h

module _ {I : Pred} {A : Type 0} {P : Pred} {Q : A → Pred} {m : M A} where
  pub Ensures_implies :
      Ensures I P m Q → (w : Worker) (a : A) → P w → (m w).0 ≡ some a → Q a (m w).1
  Ensures_implies k w a h e = rw e at (k.at w h)

module _ {A : Type 0} {P : Pred} {m : M A} where
  pub Keeps-of_Ensures : Ensures P P m (λ _. P) → Keeps P m
  Keeps-of_Ensures k = record { at = λ w h. either (m w).0 (m w).1 (k.at w h) }
    where
      either : (r : Option A) (w : Worker) → Post P (λ _. P) r w → P w
      either none w h = h
      either (some a) w h = h

-- The post-condition of a stage: `P` if it goes on, `F x` if it returns `x`.
abbrev pub Branch : {A : Type 0} → Pred → (A → Pred) → Option A → Pred
Branch P F none = P
Branch P F (some x) = F x

module _ {I : Pred} {A : Type 0} {P P' P'' : Pred} {F : A → Pred} {m k : M (Option A)} where
  pub Ensures-otherwise :
      Ensures I P m (Branch P' F)
      → Ensures I P' k (Branch P'' F)
      → Ensures I P (m otherwise k) (Branch P'' F)
  unfolding ◌otherwise◌
  Ensures-otherwise km kk = Ensures-bind km (λ r. next r)
    where
      next :
          (r : Option A)
          → Ensures I (Branch P' F r) (on_option r k (λ a. pure (some a))) (Branch P'' F)
      next none = kk
      next (some a) = Ensures-pure (some a) (λ w h. h)

pub Post_of_some :
    {A : Type 0} (I : Pred) (Q : A → Pred) {r : Option A} {a : A} {w : Worker}
    → r ≡ some a
    → Q a w
    → Post I Q r w
Post_of_some I Q {r} {a} {w} e h = subst (λ o. Post I Q o w) (sym e) h
