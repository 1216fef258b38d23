-- ===== src/Minicontrol/Fake/Routes.antt =====
-- internal/minicontrol/fake/fake.go: the service's routes, as a state machine over requests.
use mini_control_action.Prelude.{
  ℕ, zero, suc, ◌+◌, ◌-◌, ◌==◌, Bool, true, false, not, ◌&&◌, Option, none, some, List, [], ◌∷◌,
  keep_if, length, Text, ℤ, pos, negsuc, int_le, codes, is_lit, is_empty, text_eq, cut_prefix,
  has_prefix, has_suffix, take, if◌then◌else◌,
}
use mini_control_action.Minicontrol.Client.{Method, get, post, delete}
use mini_control_action.Minicontrol.Fake.{
  FakeVm, VmJson, nothing, one_vm, all_vms, all_skus, executed, Response, Fake, Request, respond,
  refuse, not_found, vm_json, find_vm, put_vm, handle_create,
}

abbrev less_one : ℤ → ℤ
less_one (pos zero) = negsuc 0
less_one (pos (suc n)) = pos n
less_one (negsuc n) = negsuc (suc n)

abbrev ready_now : FakeVm → FakeVm
ready_now vm = record vm {
  gets_until_ready = less_one vm.gets_until_ready;
  status = if int_le (less_one vm.gets_until_ready) (pos 0) then codes "ready" else vm.status;
}

abbrev counted : FakeVm → FakeVm
counted vm = if is_lit vm.status "ready" then record vm { ready_gets = vm.ready_gets + 1 } else vm

-- What a GET makes of the VM: it comes nearer to being ready.
unfoldable pub polled : FakeVm → FakeVm
polled vm = counted (if is_lit vm.status "provisioning" then ready_now vm else vm)

abbrev pub get_found : Option FakeVm → Fake → Response × Fake
get_found none s = (not_found, s)
get_found (some vm) s = (
  respond 200 (one_vm (vm_json s.creds_delay (polled vm))),
  record s { vms = put_vm (polled vm) s.vms },
)

abbrev is_other : Text → FakeVm → Bool
is_other id vm = not (text_eq vm.id id)

abbrev pub deleted_answer : Option FakeVm → Response
deleted_answer none = not_found
deleted_answer (some vm) = respond 204 nothing

abbrev pub delete_found : Text → Fake → Response × Fake
delete_found id s = (
  deleted_answer (find_vm id s.vms),
  record s { vms = keep_if (is_other id) s.vms; delete_count = s.delete_count + 1 },
)

abbrev executed_answer : ℤ × Text × Text → Response
executed_answer (code, stdout, stderr) = respond 200 (executed code stdout stderr)

-- `handleExec`
unfoldable pub handle_exec : Text → Text → Option FakeVm → Fake → Response
handle_exec id command none s = not_found
handle_exec id command (some vm) s =
    if not (is_lit vm.status "ready")
    then refuse 409 (codes "vm not ready")
    else if not (s.fail_exec_status == 0)
    then refuse s.fail_exec_status (codes "exec unavailable")
    else executed_answer (s.exec id command)

abbrev vms_json : ℕ → List FakeVm → List VmJson
vms_json delay [] = []
vms_json delay (vm ∷ vms) = vm_json delay vm ∷ vms_json delay vms

abbrev trimmed : Text → Option Text → Text
trimmed s none = s
trimmed s (some rest) = rest

-- strings.TrimPrefix and strings.TrimSuffix
abbrev trim_prefix : Text → Text → Text
trim_prefix p s = trimmed s (cut_prefix p s)

abbrev trim_suffix : Text → Text → Text
trim_suffix p s = if has_suffix s p then take (length s - length p) s else s

abbrev is_get : Method → Bool
is_get get = true
is_get _ = false

abbrev is_post : Method → Bool
is_post post = true
is_post _ = false

abbrev is_delete : Method → Bool
is_delete delete = true
is_delete _ = false

abbrev vm_prefix : Text
vm_prefix = codes "/vms/"

abbrev exec_suffix : Text
exec_suffix = codes "/ssh/exec"

pub data Route : Type 0 where
  list_skus create list unknown : Route
  exec_in get_one delete_one : Text → Route

-- The cases of `handle` for the path behind the API's base, in their order.
unfoldable pub route : Method → Text → Route
unfolding cut_prefix has_prefix has_suffix codes
route method path =
    let id = trim_prefix vm_prefix path in
    if is_lit path "/skus" && is_get method
    then list_skus
    else if is_lit path "/vms" && is_post method
    then create
    else if is_lit path "/vms" && is_get method
    then list
    else if has_prefix path vm_prefix && (has_suffix path exec_suffix && is_post method)
    then exec_in (trim_suffix exec_suffix id)
    else if has_prefix path vm_prefix && is_get method
    then get_one id
    else if has_prefix path vm_prefix && is_delete method
    then delete_one id
    else unknown

unfoldable pub serve : Route → Request → Fake → Response × Fake
unfolding handle_create handle_exec polled find_vm put_vm vm_json
serve list_skus req s = (respond 200 (all_skus s.skus), s)
serve create req s = handle_create req s
serve list req s = (respond 200 (all_vms (vms_json s.creds_delay s.vms)), s)
serve (exec_in id) req s = (handle_exec id req.command (find_vm id s.vms) s, s)
serve (get_one id) req s = get_found (find_vm id s.vms) s
serve (delete_one id) req s = delete_found id s
serve unknown req s = (not_found, s)

-- `handle`
unfoldable pub handle : Request → Fake → Response × Fake
unfolding route serve
handle req s =
    if not req.authorized
    then (refuse 401 (codes "unauthorized"), s)
    else serve (route req.method (trim_prefix (codes "/api/client/v1") req.path)) req s

abbrev ids_of : List FakeVm → List Text
ids_of [] = []
ids_of (vm ∷ vms) = vm.id ∷ ids_of vms

-- What the tests read and set: `VMIDs`, `SetCapacityReason`, `IdemKeyCount`, `Counts`, `VM` and `AddVM`.
abbrev vm_ids : Fake → List Text
vm_ids s = ids_of s.vms

abbrev set_capacity_reason : Text → Fake → Fake
set_capacity_reason reason s = record s { capacity_reason = reason }

abbrev idem_key_count : Fake → ℕ
idem_key_count s = length s.idem_keys

abbrev counts : Fake → ℕ × ℕ
counts s = (s.create_count, s.delete_count)

abbrev vm_of : Text → Fake → Option FakeVm
vm_of id s = find_vm id s.vms

abbrev put_ready : FakeVm → Fake → Fake
put_ready vm s = record s {
  vms =
      put_vm (record vm { status = if is_empty vm.status then codes "ready" else vm.status }) s.vms;
}
