-- ===== src/State.antt =====
-- internal/state/store.go: the job states, the record of one job attempt and its key. The store
-- is in the child module Store, its laws are below it.

pub mod Store
use mini_control_action.Prelude.{
  ℕ, ◌≡◌, refl, ◌↔◌, Bool, true, false, ◌&&◌, ◌++◌, List, arith, ◌==◌, ℤ, int_eq, int_eq_iff,
  ==_iff, Text, codes, decimal, int_decimal,
}

-- `JobState` is a Go string: `other` is any text that is none of the constants.
pub data JobState : Type 0 where
  queued creating wait_ready bootstrapping runner_up job_running job_done deleting : JobState
  complete failed : JobState
  other : Text → JobState

abbrev pub terminal : JobState → Bool
terminal complete = true
terminal failed = true
terminal _ = false

-- `retry` only counts up from 0; times are nanoseconds of the service's clock.
pub record Record : Type 0 where
  pub job_id : ℕ
  pub run_attempt : ℤ
  pub retry : ℕ
  pub repo : Text
  pub labels : List Text
  pub workflow_job_url : Text
  pub state : JobState
  pub vm_id : Text
  pub idempotency_key : Text
  pub runner_name : Text
  pub runner_id : ℕ
  pub last_error : Text
  pub queued_at : ℕ
  pub updated_at : ℕ

pub record Key : Type 0 where
  pub job_id : ℕ
  pub run_attempt : ℤ

abbrev pub key_of : Record → Key
key_of r = record { job_id = r.job_id; run_attempt = r.run_attempt }

unfoldable pub key_eq : Key → Key → Bool
key_eq a b = a.job_id == b.job_id && int_eq a.run_attempt b.run_attempt

pub key_eq_iff : (a b : Key) → (key_eq a b ≡ true) ↔ (a ≡ b)
unfolding key_eq
key_eq_iff a b = ground (arith, int_eq_iff a.run_attempt b.run_attempt)

pub key_eq_refl : (a : Key) → key_eq a a ≡ true
key_eq_refl a = (key_eq_iff a a).1 refl

-- The nonce is drawn by the caller.
unfoldable pub new_idem_key : ℕ → ℤ → ℕ → Text → Text
unfolding decimal int_decimal codes
new_idem_key job_id attempt retry nonce =
    codes "mcra1-j"
    ++ (decimal job_id
        ++ (codes "-a"
            ++ (int_decimal attempt ++ (codes "-r" ++ (decimal retry ++ (codes "-" ++ nonce))))))
