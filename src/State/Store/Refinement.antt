-- ===== src/State/Store/Refinement.antt =====
-- The store against its contract: a map in memory, and the map that the next start will read.
use mini_control_action.Prelude.{
  ℕ, All, ◌≡◌, refl, ◌∙◌, Bool, true, Option, none, some, List, [], ◌∷◌, arith, if◌then◌else◌,
}
use mini_control_action.State.{Record, Key, key_of, key_eq, key_eq_iff}
use mini_control_action.State.Store.Map.{
  lookup, put, IsMap, lookup-put, lookup-remove, put-IsMap, remove-IsMap,
}
use mini_control_action.State.Store.Sorting.{lookup-sort_by, sort_by-IsMap}
use mini_control_action.State.Store.Encoding.{IsClean, IsFaithful, All-put, All-remove, All-sort_by}
use mini_control_action.State.Store.{
  FileContent, no_file, corrupt, holds, Store, Fault, at_create, at_rename, file_less, persist,
  upsert, get, delete, load, read, opened, open_store,
}

-- A change to the store, with where its write of the file fails.
pub data Op : Type 0 where
  upsert_op : ℕ → Option Fault → Record → Op
  delete_op : Option Fault → Key → Op

pub step : Op → Store → Store × Bool
unfolding upsert delete
step (upsert_op now fault r) s = upsert now fault r s
step (delete_op fault k) s = delete fault k s

pub run : List Op → Store → Store
unfolding step
run [] s = s
run (op ∷ ops) s = run ops (step op s).0

-- The contract's state.
pub record Spec : Type 0 where
  pub memory : Key → Option Record
  pub durable : Key → Option Record

abbrev pub commit : Option Fault → (Key → Option Record) → Spec → Spec
commit none m a = record { memory = m; durable = m }
commit (some _) m a = record { memory = m; durable = a.durable }

pub spec_step : Op → Spec → Spec
spec_step (upsert_op now fault r) a =
    commit fault
      (λ k. if key_eq (key_of r) k then some (record r { updated_at = now }) else a.memory k) a
spec_step (delete_op fault j) a = commit fault (λ k. if key_eq j k then none else a.memory k) a

pub spec_run : List Op → Spec → Spec
unfolding spec_step
spec_run [] a = a
spec_run (op ∷ ops) a = spec_run ops (spec_step op a)

-- What the next start reads from the file.
abbrev pub reread : FileContent → List Record
reread (holds rs) = load [] rs
reread _ = []

pub record Refines (s : Store) (a : Spec) : Type 0 where
  pub is_map : IsMap s.recs
  pub memory : (k : Key) → get s k ≡ a.memory k
  pub durable : (k : Key) → lookup (reread s.file) k ≡ a.durable k

abbrev or_else : Option Record → Option Record → Option Record
or_else none y = y
or_else (some r) y = some r

lookup-load :
    (acc rs : List Record) (k : Key)
    → IsMap rs
    → lookup (load acc rs) k ≡ or_else (lookup rs k) (lookup acc k)
unfolding lookup load
lookup-load acc [] k h = refl
lookup-load acc (r ∷ rs) k h =
    ground (arith, lookup-load (put r acc) rs k h.1, lookup-put r k acc, key_eq_iff (key_of r) k)

lookup-reread : (rs : List Record) (k : Key) → IsMap rs → lookup (reread (holds rs)) k ≡ lookup rs k
unfolding lookup
lookup-reread rs k h = ground (arith, lookup-load [] rs k h)

-- A write makes the memory durable, or leaves what was durable.
persist-Refines :
    (fault : Option Fault) (s : Store) (a : Spec) (m : Key → Option Record)
    → IsMap s.recs
    → ((k : Key) → get s k ≡ m k)
    → ((k : Key) → lookup (reread s.file) k ≡ a.durable k)
    → Refines (persist fault s).0 (commit fault m a)
unfolding persist get
persist-Refines none s a m is_map now old = record {
  is_map = is_map;
  memory = now;
  durable = λ k.
      lookup-reread _ k (sort_by-IsMap file_less s.recs is_map)
      ∙ (lookup-sort_by file_less s.recs k is_map ∙ now k);
}
persist-Refines (some at_create) s a m is_map now old = record {
  is_map = is_map;
  memory = now;
  durable = old;
}
persist-Refines (some at_rename) s a m is_map now old = record {
  is_map = is_map;
  memory = now;
  durable = old;
}
persist-Refines (some _) s a m is_map now old = record {
  is_map = is_map;
  memory = now;
  durable = old;
}

step-Refines :
    (op : Op) (s : Store) (a : Spec) → Refines s a → Refines (step op s).0 (spec_step op a)
unfolding step spec_step get
step-Refines (upsert_op now fault r) s a h =
    persist-Refines fault _ a _ (put-IsMap _ s.recs h.is_map)
      (λ k. ground (arith, lookup-put (record r { updated_at = now }) k s.recs, h.memory k))
      h.durable
step-Refines (delete_op fault j) s a h =
    persist-Refines fault _ a _ (remove-IsMap j s.recs h.is_map)
      (λ k. ground (arith, lookup-remove j k s.recs, h.memory k)) h.durable

run-Refines :
    (ops : List Op) (s : Store) (a : Spec) → Refines s a → Refines (run ops s) (spec_run ops a)
unfolding run spec_run
run-Refines [] s a h = h
run-Refines (op ∷ ops) s a h = run-Refines ops _ _ (step-Refines op s a h)

abbrev pub fresh : Store
fresh = record { recs = []; file = no_file; temps = 0 }

abbrev pub fresh_spec : Spec
fresh_spec = record { memory = λ k. none; durable = λ k. none }

fresh-Refines : Refines fresh fresh_spec
unfolding get lookup
fresh-Refines = record { is_map = tt; memory = λ k. refl; durable = λ k. refl }

-- The strings that the change writes are valid UTF-8.
abbrev pub IsCleanOp : Op → Type 0
IsCleanOp (upsert_op now fault r) = IsClean r
IsCleanOp (delete_op fault k) = Unit {0}

abbrev CleanFile : FileContent → Type 0
CleanFile (holds rs) = All IsClean rs
CleanFile _ = Unit {0}

abbrev CleanStore : Store → Type 0
CleanStore s = All IsClean s.recs × CleanFile s.file

touched-IsClean : (now : ℕ) (r : Record) → IsClean r → IsClean (record r { updated_at = now })
touched-IsClean now r h = record {
  repo = h.repo;
  labels = h.labels;
  url = h.url;
  state = h.state;
  vm_id = h.vm_id;
  key = h.key;
  runner_name = h.runner_name;
  last_error = h.last_error;
}

persist-CleanStore :
    (fault : Option Fault) (s : Store) → CleanStore s → CleanStore (persist fault s).0
unfolding persist
persist-CleanStore none s h = (h.0, All-sort_by IsClean file_less s.recs h.0)
persist-CleanStore (some at_create) s h = h
persist-CleanStore (some at_rename) s h = h
persist-CleanStore (some _) s h = h

step-CleanStore : (op : Op) (s : Store) → IsCleanOp op → CleanStore s → CleanStore (step op s).0
unfolding step
step-CleanStore (upsert_op now fault r) s c h =
    persist-CleanStore fault _
      (All-put IsClean (record r { updated_at = now }) s.recs (touched-IsClean now r c) h.0, h.1)
step-CleanStore (delete_op fault k) s c h =
    persist-CleanStore fault _ (All-remove IsClean k s.recs h.0, h.1)

run-CleanStore :
    (ops : List Op) (s : Store) → All IsCleanOp ops → CleanStore s → CleanStore (run ops s)
unfolding run
run-CleanStore [] s c h = h
run-CleanStore (op ∷ ops) s c h = run-CleanStore ops _ c.1 (step-CleanStore op s c.0 h)

-- With a decoder that gives back records whose strings are valid UTF-8: from a fresh store and after any
-- sequence of `Delete` and of `Upsert` of such records, whichever of their writes fail, `Get` answers
-- what the last change of its key made, and a restart (`Open` on the file that is there) succeeds with a
-- store whose `Get` answers what memory held at the last write that succeeded.
pub restart_recovers :
    (decode : List Record → Option (List Record)) (ops : List Op) (temps : ℕ)
    → IsFaithful decode
    → All IsCleanOp ops
    → ((k : Key) → get (run ops fresh) k ≡ (spec_run ops fresh_spec).memory k)
      × ((s : Store) × (open_store decode true (read (run ops fresh).file) true temps ≡ opened s)
          × ((k : Key) → get s k ≡ (spec_run ops fresh_spec).durable k))
unfolding open_store get
restart_recovers decode ops temps faithful clean =
    let h = run-Refines ops fresh fresh_spec fresh-Refines in
    let c = run-CleanStore ops fresh clean (tt, tt) in
    (h.memory, reopen (run ops fresh).file c.1 h.durable)
  where
    reopen :
        (f : FileContent)
        → CleanFile f
        → ((k : Key) → lookup (reread f) k ≡ (spec_run ops fresh_spec).durable k)
        → (s : Store) × (open_store decode true (read f) true temps ≡ opened s)
          × ((k : Key) → get s k ≡ (spec_run ops fresh_spec).durable k)
    reopen no_file c h = (record { recs = []; file = no_file; temps = temps }, refl, h)
    reopen corrupt c h = (record { recs = []; file = no_file; temps = temps }, refl, h)
    reopen (holds rs) c h = (
      record { recs = load [] rs; file = holds rs; temps = temps },
      rw (faithful.clean rs c) refl,
      h,
    )
