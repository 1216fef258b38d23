-- ===== src/Minicontrol/Client.antt =====
-- internal/minicontrol/client.go: the requests that the client sends and how it reads the replies.
-- `net/http` is the argument `send`, `encoding/json` the decoders.
pub mod Replies
pub mod Keys
use mini_control_action.Prelude.{
  ℕ, suc, ◌+◌, ◌-◌, ◌*◌, ◌%◌, Bool, true, false, not, ◌&&◌, ◌||◌, Option, none, some, List, [], ◌∷◌,
  ◌++◌, Text, ℤ, pos, negsuc, of_bits, codes, atoi, trim_space, is_empty, length, take, leb, ltb,
  if◌then◌else◌,
}
use mini_control_action.Errors.{
  ApiError, Error, api, transport, undecodable, body_too_long, key_length, Result, ok, err,
}
use mini_control_action.Minicontrol.{Sku, Vm, CreateVmRequest, ExecResult, is_not_found, second}

pub data Method : Type 0 where
  get post delete : Method

pub data Body : Type 0 where
  no_body : Body
  create_body : CreateVmRequest → Body
  exec_body : Text → ℕ → Body

-- `key` is the Idempotency-Key header, if one is set.
pub record Request : Type 0 where
  pub method : Method
  pub path : Text
  pub body : Body
  pub key : Option Text

pub record Reply : Type 0 where
  pub status : ℕ
  pub content : Text
  pub retry_after : Text

-- What `c.http.Do` and reading the body come to.
pub data Outcome : Type 0 where
  lost : Outcome
  broken : Outcome
  replied : Reply → Outcome

-- What the decoder of the error body gives: `error` and `reason_code`.
pub record ErrorBody : Type 0 where
  pub error : Text
  pub reason_code : Text

abbrev default_message : Text → Text → Text
default_message [] content = trim_space content
default_message (c ∷ m) content = c ∷ m

-- `time.Duration(secs) * time.Second`, which wraps around.
abbrev scale : Option ℤ → ℤ
scale none = pos 0
scale (some (pos n)) = of_bits (n * second % 18446744073709551616)
scale (some (negsuc n)) =
    of_bits (18446744073709551615 - (n * second + 999999999) % 18446744073709551616)

abbrev body_of : Option ErrorBody → ErrorBody
body_of none = record { error = []; reason_code = [] }
body_of (some b) = b

-- The `*APIError` of a reply that is not 2xx.
unfoldable pub api_error : (Text → Option ErrorBody) → Text → Reply → ApiError
api_error decode_error content r =
    let b = body_of (decode_error content) in
    record {
      status = r.status;
      message = default_message b.error content;
      reason_code = b.reason_code;
      retry_after = scale (atoi r.retry_after);
    }

unfoldable pub is_2xx : ℕ → Bool
is_2xx status = leb 200 status && ltb status 300

module _ {A : Type 0} where
  abbrev pub decoded : Option A → Result A
  decoded none = err undecodable
  decoded (some a) = ok a

  -- An empty body leaves the zero value, and so does a call with no place for the answer.
  abbrev pub accept : A → Option (Text → Option A) → Text → Result A
  accept zero_value none content = ok zero_value
  accept zero_value (some decode) [] = ok zero_value
  accept zero_value (some decode) (c ∷ content) = decoded (decode (c ∷ content))

  -- `doLimited` on what the server answered.
  unfoldable pub interpret :
      (Text → Option ErrorBody) → ℕ → A → Option (Text → Option A) → Outcome → Result A
  unfolding api_error is_2xx
  interpret decode_error max_body zero_value decode lost = err transport
  interpret decode_error max_body zero_value decode broken = err transport
  interpret decode_error max_body zero_value decode (replied r) =
      let content = take (max_body + 1) r.content in
      if ltb max_body (length content)
      then err body_too_long
      else if is_2xx r.status
      then accept zero_value decode content
      else err (api (api_error decode_error content r))

abbrev pub default_limit : ℕ
default_limit = 4194304

abbrev pub exec_limit : ℕ
exec_limit = 16777216

abbrev vm_path : Text → Text
vm_path id = codes "/vms/" ++ id

abbrev pub create_request : CreateVmRequest → Text → Request
create_request req key = record {
  method = post;
  path = codes "/vms";
  body = create_body req;
  key = some key;
}

abbrev pub delete_request : Text → Request
delete_request id = record { method = delete; path = vm_path id; body = no_body; key = none }

abbrev pub get_request : Text → Request
get_request id = record { method = get; path = vm_path id; body = no_body; key = none }

abbrev pub exec_request : Text → Text → ℕ → Request
exec_request id command seconds = record {
  method = post;
  path = vm_path id ++ codes "/ssh/exec";
  body = exec_body command seconds;
  key = none;
}

abbrev pub zero_vm : Vm
zero_vm = record {
  id = [];
  status = [];
  sku = [];
  worker_name = [];
  worker_tags = [];
  billing_active = false;
  last_error = [];
  username = [];
  password = [];
  websocket_url = [];
}

abbrev pub zero_exec : ExecResult
zero_exec = record { exit_code = pos 0; stdout = []; stderr = [] }

-- A 404 (already gone) is success.
abbrev pub forgive : Result (Unit {0}) → Result (Unit {0})
forgive (ok u) = ok u
forgive (err e) = if is_not_found e then ok tt else err e

-- `encoding/json` for the replies of the VM service.
pub record Decoders : Type 0 where
  pub error_body : Text → Option ErrorBody
  pub vm : Text → Option Vm
  pub vms : Text → Option (List Vm)
  pub exec_result : Text → Option ExecResult
  pub skus : Text → Option (List Sku)

module _ (json : Decoders) (send : Request → Outcome) where
  -- `CreateVM`; `token` is the error of `waitCreateToken`, if it has one.
  unfoldable pub create_vm : Option Error → CreateVmRequest → Text → Result Vm
  create_vm token req key =
      if ltb (length key) 1 || ltb 128 (length key)
      then err (key_length (length key))
      else elim token [
        | some e ↦ err e
        | none ↦
            interpret json.error_body default_limit zero_vm (some json.vm)
              (send (create_request req key))
      ]

  -- `GetVM`
  unfoldable pub get_vm : Text → Result Vm
  get_vm id = interpret json.error_body default_limit zero_vm (some json.vm) (send (get_request id))

  -- `ListVMs`
  unfoldable pub list_vms : Result (List Vm)
  list_vms =
      interpret json.error_body default_limit [] (some json.vms)
        (send (record { method = get; path = codes "/vms"; body = no_body; key = none }))

  -- `ListSKUs`
  unfoldable pub list_skus : Result (List Sku)
  list_skus =
      interpret json.error_body default_limit [] (some json.skus)
        (send (record { method = get; path = codes "/skus"; body = no_body; key = none }))

  -- `DeleteVM`
  unfoldable pub delete_vm : Text → Result (Unit {0})
  delete_vm id =
      forgive (interpret json.error_body default_limit tt none (send (delete_request id)))

  -- `Exec`
  unfoldable pub exec : Text → Text → ℕ → Result ExecResult
  exec id command seconds =
      interpret json.error_body exec_limit zero_exec (some json.exec_result)
        (send (exec_request id command seconds))
