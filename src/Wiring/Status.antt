-- ===== src/Wiring/Status.antt =====
-- `/status` of internal/httpserver/server.go.
use mathlib.Core.Logic.{∥∥₁_elim}
use native.Mathlib.Nat.{ℕ_set}
use mathlib.Core.List.{Perm, Permᴰ}
use mini_control_action.Prelude.{
  ℕ, ◌+◌, ◌≡◌, refl, ap, ◌∙◌, Bool, true, false, not, length, [], ◌∷◌, List, count_if, arith,
}
use mini_control_action.State.{JobState, complete, failed, terminal, Record}
use mini_control_action.State.Store.{Store, list}
use mini_control_action.State.Store.Listing.{list-IsNewestFirst}

pub record Status : Type 0 where
  pub active_jobs : ℕ
  pub records : List Record

abbrev pub is_open : Record → Bool
is_open r = not (terminal r.state)

-- The handler of /status.
unfoldable pub status : Store → Status
unfolding list
status s = let recs = list s in record { active_jobs = count_if is_open recs; records = recs }

count_if-Permᴰ :
    (p : Record → Bool) {xs ys : List Record} → Permᴰ xs ys → count_if p xs ≡ count_if p ys
count_if-Permᴰ p Permᴰ.nil = refl
count_if-Permᴰ p (Permᴰ.cons e s) =
    let rest = count_if-Permᴰ p s in let same = ap p e in ground arith
count_if-Permᴰ p (Permᴰ.swap e f) = let first = ap p e in let second = ap p f in ground arith
count_if-Permᴰ p (Permᴰ.trans s t) = count_if-Permᴰ p s ∙ count_if-Permᴰ p t

count_if-Perm :
    (p : Record → Bool) (xs ys : List Record) → Perm xs ys → count_if p xs ≡ count_if p ys
count_if-Perm p xs ys h = ∥∥₁_elim h (ℕ_set _ _) (λ d. count_if-Permᴰ p d)

abbrev pub is_state_complete : Record → Bool
is_state_complete r = elim r.state [ complete ↦ true | _ ↦ false ]

abbrev pub is_state_failed : Record → Bool
is_state_failed r = elim r.state [ failed ↦ true | _ ↦ false ]

open_or_over :
    (r : Record)
    → count_if is_open (r ∷ [])
        + (count_if is_state_complete (r ∷ []) + count_if is_state_failed (r ∷ []))
      ≡ 1
open_or_over r = go r r.state refl
  where
    go :
        (r : Record) (st : JobState)
        → r.state ≡ st
        → count_if is_open (r ∷ [])
            + (count_if is_state_complete (r ∷ []) + count_if is_state_failed (r ∷ []))
          ≡ 1
    go r complete e = rw e refl
    go r failed e = rw e refl
    go r _ e = rw e refl

counts_add :
    (rs : List Record)
    → count_if is_open rs + (count_if is_state_complete rs + count_if is_state_failed rs)
      ≡ length rs
counts_add [] = refl
counts_add (r ∷ rs) = let first = open_or_over r in let rest = counts_add rs in ground arith

-- The jobs that `/status` counts as active are all records of the store but those that are complete
-- and those that have failed.
pub status_counts :
    (s : Store)
    → (status s).active_jobs + (count_if is_state_complete s.recs + count_if is_state_failed s.recs)
      ≡ length s.recs
unfolding status
status_counts s =
    let same = count_if-Perm is_open (list s) s.recs (list-IsNewestFirst s).0 in
    let all = counts_add s.recs in ground arith
