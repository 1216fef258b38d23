-- ===== src/Github/Actions.antt =====
-- Actions of the client of internal/githubapp/client.go: predicates of the client that they keep, and
-- of the results that they give. One rule for each way to build an action.
use mini_control_action.Prelude.{
  Bool, true, false, ◌≡◌, refl, sym, subst, Option, Text, ℕ, if◌then◌else◌,
}
use mini_control_action.Errors.{Error, Result, ok, err}
use mini_control_action.Github.Api.{
  Request, Server, Client, G, continue, ◌>>=◌, pure, fail, gets, change, call,
}

-- From a client with `P` the action leaves one with `P`, whether it fails or not; a result has `Q`.
pub record Gives {A : Type 0} (P : Client → Type 0) (m : G A) (Q : A → Type 0) : Type 0 where
  pub kept : (c : Client) → P c → P (m c).1
  pub given : (c : Client) (a : A) → P c → (m c).0 ≡ ok a → Q a

abbrev pub Any : {A : Type 0} → A → Type 0
Any a = Unit {0}

module _ {P : Client → Type 0} {A : Type 0} {Q : A → Type 0} where
  pub Gives-pure : (a : A) → Q a → Gives P (pure a) Q
  unfolding pure
  Gives-pure a q = record { kept = λ c h. h; given = λ c b h e. same b e }
    where
      same : (b : A) → ok a ≡ ok b → Q b
      same b e = let k : a ≡ b = cc in rw (sym k) q

  pub Gives-fail : (e : Error) → Gives P (fail {A = A} e) Q
  unfolding fail
  Gives-fail e = record { kept = λ c h. h; given = λ c b h k. absurd (cc) }

  pub Gives-if :
      (b : Bool) (m n : G A)
      → (b ≡ true → Gives P m Q)
      → (b ≡ false → Gives P n Q)
      → Gives P (if b then m else n) Q
  Gives-if true m n km kn = km refl
  Gives-if false m n km kn = kn refl

module _ {P : Client → Type 0} {A B : Type 0} {R : B → Type 0} where
  after_kept :
      (r : Result A) (c : Client) (f : A → G B)
      → P c
      → ((a : A) → r ≡ ok a → Gives P (f a) R)
      → P (continue r f c).1
  after_kept (ok a) c f h k = (k a refl).kept c h
  after_kept (err e) c f h k = h

  after_given :
      (r : Result A) (c : Client) (f : A → G B) (b : B)
      → P c
      → ((a : A) → r ≡ ok a → Gives P (f a) R)
      → (continue r f c).0 ≡ ok b
      → R b
  after_given (ok a) c f b h k e = (k a refl).given c b h e
  after_given (err x) c f b h k e = absurd (cc)

  pub Gives-bind :
      {Q : A → Type 0} (m : G A) (f : A → G B)
      → Gives P m Q
      → ((a : A) → Q a → Gives P (f a) R)
      → Gives P (m >>= f) R
  unfolding ◌>>=◌
  Gives-bind m f km kf = record {
    kept = λ c h. after_kept (m c).0 (m c).1 f (km.kept c h) (λ a e. kf a (km.given c a h e));
    given =
        λ c b h e. after_given (m c).0 (m c).1 f b (km.kept c h) (λ a k. kf a (km.given c a h k)) e;
  }

module _ {P : Client → Type 0} where
  pub Gives-gets :
      {A : Type 0} {Q : A → Type 0} (f : Client → A)
      → ((c : Client) → P c → Q (f c))
      → Gives P (gets f) Q
  unfolding gets
  Gives-gets {Q} f k = record {
    kept = λ c h. h;
    given = λ c a h e. let same : f c ≡ a = cc in subst Q same (k c h);
  }

  pub Gives-change : (f : Client → Client) → ((c : Client) → P c → P (f c)) → Gives P (change f) Any
  unfolding change
  Gives-change f k = record { kept = k; given = λ c a h e. tt }

  -- A request changes only the number of the next one.
  pub Gives-call :
      (server : Server) {A : Type 0} (zero_value : A) (decode : Option (Text → Option A))
      (req : Request)
      → ((c : Client) (n : ℕ) → P c → P (record c { step = n }))
      → Gives P (call server zero_value decode req) Any
  unfolding call
  Gives-call server zero_value decode req k = record {
    kept = λ c h. k c _ h;
    given = λ c a h e. tt;
  }
