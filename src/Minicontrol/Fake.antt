-- ===== src/Minicontrol/Fake.antt =====
-- internal/minicontrol/fake/fake.go: the state of the VM service of the offline tests, and its create.
-- A request is what the server has read of it, and a response is the value that is encoded.
pub mod Memory
pub mod Replays
pub mod Routes
pub mod Waits
use mini_control_action.Prelude.{
  ℕ, zero, suc, ◌+◌, ◌-◌, ◌/◌, ◌%◌, ◌==◌, Bool, true, false, not, ◌&&◌, ◌||◌, Option, none, some,
  List, [], ◌∷◌, ◌++◌, any, keep_if, ltb, leb, length, Text, ℤ, pos, negsuc, int_le, codes, is_lit,
  is_empty, text_eq, to_lower, cut_prefix, has_prefix, has_suffix, take, if◌then◌else◌,
}
use mini_control_action.Minicontrol.{CreateVmRequest}
use mini_control_action.Minicontrol.Client.{Method, get, post, delete}

pub record FakeVm : Type 0 where
  pub id : Text
  pub status : Text
  pub sku : Text
  pub tag : Text
  pub worker_name : Text
  pub worker_tags : List Text
  pub username : Text
  pub password : Text
  pub gets_until_ready : ℤ
  pub ready_gets : ℕ

-- What `vmJSON` makes; the credentials and the URL only stand there for a VM that is ready for long
-- enough.
pub record VmJson : Type 0 where
  pub id : Text
  pub status : Text
  pub sku : Text
  pub worker_name : Text
  pub worker_tags : List Text
  pub access : Option (Text × Text × Text)

pub data Payload : Type 0 where
  nothing : Payload
  refused : Text → Text → Payload
  one_vm : VmJson → Payload
  all_vms : List VmJson → Payload
  all_skus : Text → Payload
  executed : ℤ → Text → Text → Payload

pub record Response : Type 0 where
  pub status : ℕ
  pub payload : Payload
  pub retry_after : Text

-- `body` is the text of the request's body.
pub record Stored : Type 0 where
  pub key : Text
  pub body : Text
  pub response : Response

pub record Fake : Type 0 where
  pub vms : List FakeVm
  pub idempotency : List Stored
  pub next_id : ℕ
  pub reject_tag : Bool
  pub fleet_tag : Text
  pub worker_name : Text
  pub capacity_reason : Text
  pub inject_429 : ℕ
  pub gets_until_ready : ℤ
  pub creds_delay : ℕ
  pub exec : Text → Text → ℤ × Text × Text
  pub fail_exec_status : ℕ
  pub create_count : ℕ
  pub delete_count : ℕ
  pub last_idempotency : Text
  pub idem_keys : List Text
  pub skus : Text

-- A request as it was read: `create` is the decoded body, if it decodes.
pub record Request : Type 0 where
  pub authorized : Bool
  pub method : Method
  pub path : Text
  pub key : Text
  pub body : Text
  pub create : Option CreateVmRequest
  pub command : Text

abbrev pub respond : ℕ → Payload → Response
respond status payload = record { status = status; payload = payload; retry_after = [] }

abbrev pub refuse : ℕ → Text → Response
refuse status message = respond status (refused message [])

abbrev pub not_found : Response
not_found = refuse 404 (codes "not found")

abbrev or_text : Text → Text → Text
or_text [] d = d
or_text (c ∷ s) d = c ∷ s

-- `vmJSON`
unfoldable pub vm_json : ℕ → FakeVm → VmJson
vm_json delay vm = record {
  id = vm.id;
  status = vm.status;
  sku = vm.sku;
  worker_name = vm.worker_name;
  worker_tags = vm.worker_tags;
  access =
      if is_lit vm.status "ready" && ltb delay vm.ready_gets
      then some (
        or_text vm.username (codes "admin"),
        or_text vm.password (codes "secret"),
        codes "wss://fake/vms/" ++ (vm.id ++ codes "/ssh/ws"),
      )
      else none;
}

abbrev digit : ℕ → Text
digit n = (97 + n % 10) ∷ []

-- `pad`: three letters, so that the IDs of every thousand creates are the same
unfoldable pub pad : ℕ → Text
pad n = codes "vm-" ++ (digit (n / 100) ++ (digit (n / 10) ++ digit n))

unfoldable pub find_vm : Text → List FakeVm → Option FakeVm
find_vm id [] = none
find_vm id (vm ∷ vms) = if text_eq vm.id id then some vm else find_vm id vms

-- s.vms[vm.ID] = vm
unfoldable pub put_vm : FakeVm → List FakeVm → List FakeVm
put_vm vm [] = vm ∷ []
put_vm vm (x ∷ vms) = if text_eq x.id vm.id then vm ∷ vms else x ∷ put_vm vm vms

unfoldable pub find_stored : Text → List Stored → Option Stored
find_stored key [] = none
find_stored key (x ∷ xs) = if text_eq x.key key then some x else find_stored key xs

abbrev pub store_response : Request → Response → Fake → Response × Fake
store_response req resp s = (
  resp,
  record s {
    idempotency = record { key = req.key; body = req.body; response = resp } ∷ s.idempotency;
  },
)

abbrev fleet_tags : Text → List Text
fleet_tags [] = []
fleet_tags (c ∷ tag) = (c ∷ tag) ∷ []

abbrev pub new_vm : CreateVmRequest → Fake → FakeVm
new_vm req s = record {
  id = pad (s.next_id + 1);
  status = if int_le s.gets_until_ready (pos 0) then codes "ready" else codes "provisioning";
  sku = req.sku;
  tag = req.tag;
  worker_name = or_text s.worker_name (codes "fake-worker-01");
  worker_tags = fleet_tags s.fleet_tag;
  username = [];
  password = [];
  gets_until_ready = s.gets_until_ready;
  ready_gets = 0;
}

unfoldable pub add_vm : FakeVm → Fake → Fake
unfolding put_vm
add_vm vm s = record s {
  next_id = s.next_id + 1;
  create_count = s.create_count + 1;
  vms = put_vm vm s.vms;
}

abbrev no_worker : Response
no_worker = respond 409 (
    refused (codes "no available worker matches the requested tag")
      (codes "no_workers_matching_tag"))

-- The last part of `handleCreate`, for a key that is new.
unfoldable pub create_new : Request → CreateVmRequest → Fake → Response × Fake
unfolding add_vm pad vm_json
create_new req body s =
    if not (s.inject_429 == 0)
    then (
      record (refuse 429 (codes "rate limited")) { retry_after = codes "1" },
      record s { inject_429 = s.inject_429 - 1 },
    )
    else if not (is_empty s.capacity_reason)
    then store_response req
        (respond 409 (refused (codes "no_matching_candidate") s.capacity_reason)) s
    else if not (is_empty body.tag) && not (text_eq (to_lower body.tag) (to_lower s.fleet_tag))
    then store_response req no_worker s
    else store_response req (respond 201 (one_vm (vm_json s.creds_delay (new_vm body s))))
        (add_vm (new_vm body s) s)

-- A key that was used: the same response, for the same body.
abbrev pub replay : Request → CreateVmRequest → Option Stored → Fake → Response × Fake
replay req body none s = create_new req body s
replay req body (some x) s = (
  if text_eq x.body req.body
      then x.response
      else refuse 409 (codes "Idempotency-Key was already used with a different request"),
  s,
)

abbrev pub add_key : Text → List Text → List Text
add_key key keys = if any (text_eq key) keys then keys else key ∷ keys

abbrev pub noted : Request → Fake → Fake
noted req s = record s { last_idempotency = req.key; idem_keys = add_key req.key s.idem_keys }

-- The message of a body that does not decode is left out.
abbrev pub create_decoded : Request → Option CreateVmRequest → Fake → Response × Fake
create_decoded req none s = (refuse 400 (codes "invalid request"), s)
create_decoded req (some body) s =
    if s.reject_tag && not (is_empty body.tag)
    then (refuse 400 (codes "invalid json"), noted req s)
    else replay req body (find_stored req.key s.idempotency) (noted req s)

-- `handleCreate`
unfoldable pub handle_create : Request → Fake → Response × Fake
unfolding create_new find_stored
handle_create req s =
    if is_empty req.key || ltb 128 (length req.key)
    then (refuse 400 (codes "missing or invalid Idempotency-Key"), s)
    else create_decoded req req.create s

-- `New`, with nothing set; a server without `Exec` answers 0 and no output.
abbrev pub new_server : Text → Fake
new_server skus = record {
  vms = [];
  idempotency = [];
  next_id = 0;
  reject_tag = false;
  fleet_tag = [];
  worker_name = [];
  capacity_reason = [];
  inject_429 = 0;
  gets_until_ready = pos 0;
  creds_delay = 0;
  exec = λ id command. (pos 0, [], []);
  fail_exec_status = 0;
  create_count = 0;
  delete_count = 0;
  last_idempotency = [];
  idem_keys = [];
  skus = skus;
}
