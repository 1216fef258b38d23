-- ===== src/Examples/Parts.antt =====
-- The store, the client and the token bucket at concrete inputs.
use mini_control_action.Prelude.{
  pos, length, ◌<◌, ℕ, ◌+◌, ◌-◌, ◌*◌, ◌≤◌, ◌≡◌, ◌≢◌, ◌⊎◌, refl, ◌↔◌, true, false, Option, none,
  some, List, [], ◌∷◌, Memᴰ, Text, codes, arith,
}
use mathlib.Core.List.{Perm}
use mini_control_action.Errors.{ApiError, api, ok, err}
use mini_control_action.State.{terminal, Record, Key, key_of}
use mini_control_action.State.Store.{Store, at_write, get, has_vm, list, open_store, read, opened}
use mini_control_action.State.Store.Encoding.{IsClean, IsFaithful, is_utf8}
use mini_control_action.State.Store.Listing.{IsNewestFirst, has_vm_iff, list-IsNewestFirst}
use mini_control_action.State.Store.Refinement.{
  Op, upsert_op, delete_op, run, spec_run, fresh, fresh_spec, restart_recovers,
}
use mini_control_action.Minicontrol.Bucket.{one_token, full, take_all, take_all_rate}
use mini_control_action.State.{new_idem_key}
use mini_control_action.Minicontrol.{CreateVmRequest}
use mini_control_action.Github.{labels_satisfiable}
use mini_control_action.Github.Labels.{IsOffered, labels_satisfiable_iff}
use mini_control_action.Minicontrol.Client.Keys.{create_vm_takes_keys}
use mini_control_action.Minicontrol.Client.Replies.{delete_vm_ok_iff}
use mini_control_action.Minicontrol.Client.{
  Decoders, Request, Outcome, delete_vm, create_vm, create_request, default_limit, zero_vm,
}
use mini_control_action.Minicontrol.Client.{Reply, ErrorBody, replied, interpret}
use mini_control_action.Minicontrol.Client.Replies.{IsFailure, interpret-IsFailure}
use mini_control_action.Examples.Service.{config, job, with_vm, empty_store}

-- Two records are written, the second write fails, and the first record is deleted.
abbrev changes : List Op
changes =
    upsert_op 5 none job
    ∷ upsert_op 6 (some at_write) (record job { job_id = 8 })
    ∷ delete_op none (key_of job)
    ∷ []

-- A decoder that gives back what was written.
abbrev all_back : List Record → Option (List Record)
all_back rs = some rs

all_back-IsFaithful : IsFaithful all_back
all_back-IsFaithful = record { clean = λ rs h. refl }

job-IsClean : IsClean job
unfolding is_utf8 codes
job-IsClean = record {
  repo = refl;
  labels = (refl, tt);
  url = refl;
  state = refl;
  vm_id = refl;
  key = refl;
  runner_name = refl;
  last_error = refl;
}

next_job-IsClean : IsClean (record job { job_id = 8 })
next_job-IsClean = record {
  repo = job-IsClean.repo;
  labels = job-IsClean.labels;
  url = job-IsClean.url;
  state = job-IsClean.state;
  vm_id = job-IsClean.vm_id;
  key = job-IsClean.key;
  runner_name = job-IsClean.runner_name;
  last_error = job-IsClean.last_error;
}

restart_recovers_example :
    ((k : Key) → get (run changes fresh) k ≡ (spec_run changes fresh_spec).memory k)
    × ((s : Store) × (open_store all_back true (read (run changes fresh).file) true 0 ≡ opened s)
        × ((k : Key) → get s k ≡ (spec_run changes fresh_spec).durable k))
restart_recovers_example =
    restart_recovers all_back changes 0 all_back-IsFaithful
      (job-IsClean, (next_job-IsClean, (tt, tt)))

abbrev two_records : Store
two_records = record empty_store {
  recs = with_vm.rec ∷ record job { job_id = 8; queued_at = 4 } ∷ [];
}

has_vm_iff_example :
    (has_vm two_records (9 ∷ []) ≡ true)
    ↔ ((r : Record) × Memᴰ r two_records.recs × (r.vm_id ≡ 9 ∷ []) × (terminal r.state ≡ false))
has_vm_iff_example = has_vm_iff two_records (9 ∷ [])

list-IsNewestFirst_example :
    Perm (list two_records) two_records.recs × IsNewestFirst (list two_records)
list-IsNewestFirst_example = list-IsNewestFirst two_records

-- Six callers at once and one a second later.
abbrev rush : List ℕ
rush = 10 ∷ 10 ∷ 10 ∷ 10 ∷ 10 ∷ 10 ∷ 1000000010 ∷ []

take_all_rate_example :
    let (b', n) = take_all rush (full 10) in
    (n * one_token + b'.tokens ≤ (full 10).tokens + (b'.last - (full 10).last))
    × ((full 10).last ≤ b'.last)
take_all_rate_example = take_all_rate rush (full 10) (omega arith)

abbrev conflict : Reply
conflict = record { status = 409; content = codes "no capacity"; retry_after = [] }

abbrev no_json : Text → Option ErrorBody
no_json s = none

abbrev id_json : Text → Option Text
id_json s = some s

interpret-IsFailure_example :
    ((e : ApiError)
      → interpret no_json 20 [] (some id_json) (replied conflict) ≡ err (api e)
      → IsFailure conflict × (e.status ≡ 409))
    × (length conflict.content ≤ 20
        → IsFailure conflict
        → (e : ApiError) × (interpret no_json 20 [] (some id_json) (replied conflict) ≡ err (api e))
          × (e.status ≡ 409))
interpret-IsFailure_example = interpret-IsFailure no_json 20 [] (some id_json) conflict

abbrev json : Decoders
json = record {
  error_body = no_json;
  vm = λ s. none;
  vms = λ s. none;
  exec_result = λ s. none;
  skus = λ s. none;
}

abbrev gone : Reply
gone = record { status = 404; content = codes "vm not found"; retry_after = [] }

abbrev answers : Reply → Request → Outcome
answers r req = replied r

delete_vm_ok_iff_example :
    (delete_vm json (answers gone) (9 ∷ []) ≡ ok tt)
    ↔ (((200 ≤ gone.status) × (gone.status < 300)) ⊎ (gone.status ≡ 404))
unfolding codes
delete_vm_ok_iff_example = delete_vm_ok_iff json (answers gone) (9 ∷ []) gone refl (omega arith)

abbrev small : CreateVmRequest
small = record { sku = codes "small"; tag = [] }

create_vm_takes_keys_example :
    let key = new_idem_key 7 (pos 1) 0 (codes "0a1b2c3d") in
    create_vm json (answers conflict) none small key
    ≡ interpret json.error_body default_limit zero_vm
        (some json.vm)
        (answers conflict (create_request small key))
unfolding codes
create_vm_takes_keys_example =
    create_vm_takes_keys json (answers conflict) small 7 0 (pos 1) (codes "0a1b2c3d") (omega arith)

labels_satisfiable_iff_example :
    (labels_satisfiable job.labels config.runner.labels ≡ true)
    ↔ ((job.labels ≢ []) × ((l : Text) → Memᴰ l job.labels → IsOffered config.runner.labels l))
unfolding codes
labels_satisfiable_iff_example =
    labels_satisfiable_iff job.labels config.runner.labels (refl, tt) (refl, (refl, tt))
