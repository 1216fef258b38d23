-- ===== src/Minicontrol/Client/Keys.antt =====
-- The idempotency keys of internal/state/store.go against the length test of `CreateVM`.
use mini_control_action.Prelude.{
  ℕ, ◌+◌, ◌≤◌, ◌<◌, ◌≡◌, none, some, ◌++◌, Text, ℤ, pos, negsuc, length, codes, decimal,
  int_decimal, length-decimal, length-append, arith,
}
use mini_control_action.State.{new_idem_key}
use mini_control_action.Minicontrol.{CreateVmRequest}
use mini_control_action.Minicontrol.Client.{
  Request, Outcome, Decoders, interpret, create_vm, create_request, default_limit, zero_vm,
}

length-int_decimal : (i : ℤ) → length (int_decimal i) < 22
unfolding int_decimal
length-int_decimal (pos n) = omega (arith, length-decimal n)
length-int_decimal (negsuc n) = omega (arith, length-decimal (n + 1))

length-new_idem_key :
    (job_id retry : ℕ) (attempt : ℤ) (nonce : Text)
    → (1 ≤ length (new_idem_key job_id attempt retry nonce))
      × (length (new_idem_key job_id attempt retry nonce) ≤ 75 + length nonce)
unfolding new_idem_key codes
length-new_idem_key job_id retry attempt nonce = omega (
  arith,
  length-append (decimal job_id) (
      codes "-a"
      ++ (int_decimal attempt ++ (codes "-r" ++ (decimal retry ++ (codes "-" ++ nonce))))),
  length-append (int_decimal attempt) (codes "-r" ++ (decimal retry ++ (codes "-" ++ nonce))),
  length-append (decimal retry) (codes "-" ++ nonce),
  length-decimal job_id,
  length-int_decimal attempt,
  length-decimal retry,
)

-- With a nonce of at most 53 bytes (the source draws 8) a key of `NewIdemKey` passes the length test of
-- `CreateVM`, whatever the job, the attempt and the retry: the create is sent, with that key.
pub create_vm_takes_keys :
    (json : Decoders) (send : Request → Outcome) (req : CreateVmRequest) (job_id retry : ℕ)
    (attempt : ℤ) (nonce : Text)
    → length nonce ≤ 53
    → let key = new_idem_key job_id attempt retry nonce in
      create_vm json send none req key
      ≡ interpret json.error_body default_limit zero_vm
          (some json.vm)
          (send (create_request req key))
unfolding create_vm
create_vm_takes_keys json send req job_id retry attempt nonce h =
    let bounds = length-new_idem_key job_id retry attempt nonce in ground arith
