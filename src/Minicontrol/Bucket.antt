-- ===== src/Minicontrol/Bucket.antt =====
-- `waitCreateToken` of internal/minicontrol/client.go: the token bucket of VM creation.
-- The tokens are counted in units of 1 / 500,000,000 token, which a nanosecond refills by one: 5
-- tokens of burst are 2,500,000,000 units, 2 tokens a second are 1 unit a nanosecond. The source has
-- floats for the same amounts, which round, and cuts the wait off to whole nanoseconds, so that its wait
-- may differ from the exact one by a nanosecond, and a caller that is back after it may have to wait
-- again. Of the wait nothing is stated but that there is one.
use mini_control_action.Prelude.{
  ℕ, ◌+◌, ◌-◌, ◌*◌, ◌≤◌, min, ◌≡◌, Option, none, some, List, [], ◌∷◌, arith, leb, if◌then◌else◌,
}

pub record Bucket : Type 0 where
  pub tokens : ℕ
  pub last : ℕ

abbrev pub one_token : ℕ
one_token = 500000000

abbrev pub create_burst : ℕ
create_burst = 5 * one_token

abbrev pub full : ℕ → Bucket
full now = record { tokens = create_burst; last = now }

-- One round of the loop, under the lock, at the time `now`: a token, or how long to wait.
unfoldable pub take_token : ℕ → Bucket → Bucket × Option ℕ
take_token now b =
    let have = min create_burst (b.tokens + (now - b.last)) in
    if leb one_token have
    then (record { tokens = have - one_token; last = now }, none)
    else (record { tokens = have; last = now }, some (one_token - have))

abbrev pub granted : Option ℕ → ℕ
granted none = 1
granted (some _) = 0

-- The rounds of all callers, in the order in which they take the lock, at the given times; the
-- result counts the tokens that were granted.
unfoldable pub take_all : List ℕ → Bucket → Bucket × ℕ
unfolding take_token
take_all [] b = (b, 0)
take_all (now ∷ later) b =
    let (b', wait) = take_token now b in let (b'', n) = take_all later b' in (b'', n + granted wait)

-- The clock does not go back.
abbrev pub InOrder : ℕ → List ℕ → Type 0
InOrder t [] = Unit {0}
InOrder t (now ∷ later) = (t ≤ now) × InOrder now later

take_token-budget :
    (now : ℕ) (b : Bucket)
    → b.last ≤ now
    → let (b', wait) = take_token now b in
      (granted wait * one_token + b'.tokens ≤ b.tokens + (now - b.last)) × (b'.last ≡ now)
unfolding take_token
take_token-budget now b h = ground arith

-- Over any rounds of any callers, at times that do not go back, the tokens granted never pass what
-- the bucket held and what the elapsed time refilled: from a full bucket at most 5 creates and 2
-- more for each second that has passed.
pub take_all_rate :
    (times : List ℕ) (b : Bucket)
    → InOrder b.last times
    → let (b', n) = take_all times b in
      (n * one_token + b'.tokens ≤ b.tokens + (b'.last - b.last)) × (b.last ≤ b'.last)
unfolding take_all
take_all_rate [] b h = omega arith
take_all_rate (now ∷ later) b h =
    let step = take_token-budget now b h.0 in
    let b' = (take_token now b).0 in
    let rest = take_all_rate later b' (rw step.1 h.1) in omega arith
