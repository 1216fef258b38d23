-- ===== src/Errors.antt =====
-- Go errors as one data type: the API errors of internal/minicontrol/types.go and
-- internal/githubapp/client.go, and one constructor for each `fmt.Errorf` that a caller can meet.
use mini_control_action.Prelude.{ℕ, Text, ℤ, Option, none, some, Bool, true, false}

-- minicontrol.APIError; `retry_after` in nanoseconds, not positive where it is absent.
pub record ApiError : Type 0 where
  pub status : ℕ
  pub message : Text
  pub reason_code : Text
  pub retry_after : ℤ

-- githubapp.APIError
pub record GithubError : Type 0 where
  pub status : ℕ
  pub body : Text
  pub retry_after : ℤ

pub data Error : Type 0 where
  api : ApiError → Error
  github : GithubError → Error
  -- ctx.Err(), a transport failure, an undecodable reply, a body over the limit
  context_done transport undecodable body_too_long : Error
  key_length : ℕ → Error
  write_failed : Error
  persist_key : Error → Error
  create_failed : Error → Error
  gave_up : Error → Error
  vm_disappeared vm_deleting vm_not_ready : Text → Error
  vm_error_state : Text → Text → Error
  resolve_download jit_config render_script stage_failed launch_failed : Error → Error
  exec_failed : ℤ → Text → Text → Error
  vm_gone : Text → Error
  bootstrap_failed : Text → Text → Error
  runner_exited : ℤ → Error
  served_another : Text → Error
  runner_idle max_duration : Error
  too_many_pages : Error
  bad_release_tag no_asset : Text → Error

pub data Result {ℓ} (A : Type ℓ) : Type ℓ where
  ok : A → Result A
  err : Error → Result A

-- An error that is nil is `none`.
abbrev pub error_of {ℓ} : {A : Type ℓ} → Result A → Option Error
error_of (ok a) = none
error_of (err e) = some e

abbrev pub is_ok {ℓ} : {A : Type ℓ} → Result A → Bool
is_ok (ok a) = true
is_ok (err e) = false
