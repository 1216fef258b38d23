-- ===== src/Minicontrol.antt =====
-- internal/minicontrol: the types of types.go and the tests on errors of types.go and client.go.
-- The client is in the child module Client, its token bucket in Bucket.
pub mod Bucket
pub mod Client
pub mod Fake
use mini_control_action.Prelude.{
  ℕ, zero, suc, ◌*◌, Bool, true, false, not, ◌&&◌, Option, none, some, List, Text, ℤ, pos, negsuc,
  ◌==◌, is_empty,
}
use mini_control_action.Errors.{ApiError, Error, api}

pub record Vm : Type 0 where
  pub id : Text
  pub status : Text
  pub sku : Text
  pub worker_name : Text
  pub worker_tags : List Text
  pub billing_active : Bool
  pub last_error : Text
  pub username : Text
  pub password : Text
  pub websocket_url : Text

-- The price, which is only printed, is left out.
pub record Sku : Type 0 where
  pub id : Text
  pub hardware_profile : Text
  pub cpu_cores : ℤ
  pub memory_mib : ℤ
  pub disk_gib : ℤ
  pub available : Bool

pub record CreateVmRequest : Type 0 where
  pub sku : Text
  pub tag : Text

pub record ExecResult : Type 0 where
  pub exit_code : ℤ
  pub stdout : Text
  pub stderr : Text

-- `IsNotFound`
unfoldable pub is_not_found : Error → Bool
is_not_found (api e) = e.status == 404
is_not_found _ = false

-- `IsCapacity`: a 409 with a reason code
unfoldable pub is_capacity : Error → Bool
is_capacity (api e) = e.status == 409 && not (is_empty e.reason_code)
is_capacity _ = false

abbrev pub second : ℕ
second = 1000000000

abbrev delay_or_default : ℤ → ℕ
delay_or_default (pos zero) = 5 * second
delay_or_default (pos (suc n)) = suc n
delay_or_default (negsuc n) = 5 * second

-- `RetryDelay`
unfoldable pub retry_delay : Error → Option ℕ
retry_delay (api e) = elim (e.status == 429) [
  | true ↦ some (delay_or_default e.retry_after)
  | false ↦ none
]
retry_delay _ = none
