-- ===== src/Examples/Fakes.antt =====
-- The VM service of the tests on concrete requests.
use mini_control_action.Prelude.{
  ◌≡◌, refl, ltb, ◌+◌, is_some, true, some, none, [], ◌∷◌, codes, pos,
}
use mini_control_action.Minicontrol.Client.{get, post, delete}
use mini_control_action.Minicontrol.Fake.{
  Request, Fake, FakeVm, new_server, new_vm, vm_json, handle_create,
}
use mini_control_action.Minicontrol.Fake.Routes.{handle}
use mini_control_action.Minicontrol.Fake.Memory.{run}
use mini_control_action.Minicontrol.Fake.Replays.{create_replays}
use mini_control_action.Minicontrol.Fake.Waits.{polls, polls_show}

abbrev create_small : Request
create_small = record {
  authorized = true;
  method = post;
  path = codes "/api/client/v1/vms";
  key = codes "k1";
  body = codes "{}";
  create = some (record { sku = codes "small"; tag = [] });
  command = [];
}

abbrev look : Request
look = record create_small { method = get; path = codes "/api/client/v1/vms/vm-aab" }

abbrev remove : Request
remove = record look { method = delete }

abbrev server : Fake
server = record (new_server []) { gets_until_ready = pos 1 }

created : (handle_create create_small server).0.status ≡ 201
unfolding handle_create codes
created = refl

gone : (handle look (run (look ∷ remove ∷ []) (handle create_small server).1)).0.status ≡ 404
unfolding handle codes mini_control_action.Prelude.is_lit
gone = refl

create_replays_example :
    let s' = run (look ∷ remove ∷ []) (handle_create create_small server).1 in
    ((handle_create create_small s').0 ≡ (handle_create create_small server).0)
    × ((handle_create create_small s').1.vms ≡ s'.vms)
create_replays_example = create_replays create_small server (look ∷ remove ∷ []) created

abbrev fresh_vm : FakeVm
fresh_vm = new_vm (record { sku = codes "small"; tag = [] }) server

polls_show_example : is_some (vm_json 2 (polls 3 fresh_vm)).access ≡ ltb (0 + 2) 3
polls_show_example = polls_show 2 0 3 fresh_vm refl refl refl
