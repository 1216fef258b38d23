-- ===== src/State/Store/Updates.antt =====
-- What a single `Upsert` or `Delete` of internal/state/store.go does to the memory.
use mini_control_action.Prelude.{ℕ, ◌≡◌, refl, Option, none, some, if◌then◌else◌}
use mini_control_action.State.{Record, Key, key_of, key_eq}
use mini_control_action.State.Store.Map.{put, lookup-put, remove, lookup-remove}
use mini_control_action.State.Store.{
  Store, Fault, at_create, at_write, at_sync, at_close, at_rename, upsert, delete, persist, get,
}

pub recs-upsert :
    (now : ℕ) (fault : Option Fault) (r : Record) (s : Store)
    → (upsert now fault r s).0.recs ≡ put (record r { updated_at = now }) s.recs
unfolding upsert
recs-upsert now none r s = refl
recs-upsert now (some at_create) r s = refl
recs-upsert now (some at_rename) r s = refl
recs-upsert now (some _) r s = refl

-- Also if its write of the file fails.
pub get-upsert :
    (now : ℕ) (fault : Option Fault) (r : Record) (s : Store) (k : Key)
    → get (upsert now fault r s).0 k
      ≡ (if key_eq (key_of r) k then some (record r { updated_at = now }) else get s k)
unfolding get
get-upsert now fault r s k = rw recs-upsert (lookup-put (record r { updated_at = now }) k s.recs)

pub recs-delete :
    (fault : Option Fault) (j : Key) (s : Store) → (delete fault j s).0.recs ≡ remove j s.recs
unfolding delete persist
recs-delete none j s = refl
recs-delete (some at_create) j s = refl
recs-delete (some at_write) j s = refl
recs-delete (some at_sync) j s = refl
recs-delete (some at_close) j s = refl
recs-delete (some at_rename) j s = refl

pub get-delete :
    (fault : Option Fault) (j : Key) (s : Store) (k : Key)
    → get (delete fault j s).0 k ≡ (if key_eq j k then none else get s k)
unfolding get
get-delete fault j s k = rw recs-delete (lookup-remove j k s.recs)
