-- ===== src/State/Store.antt =====
-- The store of internal/state/store.go: the map of records, and the file that each change rewrites.
-- A Go map is an association list; `sort.Slice` is an insertion sort. The content of a file is the records
-- that `json.MarshalIndent` was given; what `json.Unmarshal` gives back of them is an argument.
pub mod Map
pub mod Sorting
pub mod Encoding
pub mod Refinement
pub mod Listing
pub mod Updates
use mini_control_action.Prelude.{
  ℕ, suc, ◌+◌, Bool, true, false, not, ◌&&◌, Option, none, some, List, [], ◌∷◌, any, ltb, ◌==◌,
  if◌then◌else◌, int_le, int_eq, Text, text_eq,
}
use mini_control_action.State.{terminal, Record, Key, key_of}
use Map.{lookup, put, remove}
use Sorting.{sort_by}

pub data FileContent : Type 0 where
  no_file : FileContent
  corrupt : FileContent
  holds : List Record → FileContent

-- `temps` counts the temporary files that a write has left in the directory.
pub record Store : Type 0 where
  pub recs : List Record
  pub file : FileContent
  pub temps : ℕ

-- Where a write of the file fails.
pub data Fault : Type 0 where
  at_create at_write at_sync at_close at_rename : Fault

-- The order of the records in the file.
unfoldable pub file_less : Record → Record → Bool
file_less a b =
    if a.job_id == b.job_id
    then (int_le a.run_attempt b.run_attempt && not (int_eq a.run_attempt b.run_attempt))
    else ltb a.job_id b.job_id

-- `persist`: the steps of the atomic write. A failed step removes the temporary file, but for the
-- last: a failed rename leaves it.
unfoldable pub persist : Option Fault → Store → Store × Bool
persist none s = (record s { file = holds (sort_by file_less s.recs) }, true)
persist (some at_create) s = (s, false)
persist (some at_write) s = (s, false)
persist (some at_sync) s = (s, false)
persist (some at_close) s = (s, false)
persist (some at_rename) s = (record s { temps = s.temps + 1 }, false)

-- `Upsert` at the time `now`.
unfoldable pub upsert : ℕ → Option Fault → Record → Store → Store × Bool
unfolding persist
upsert now fault r s =
    persist fault (record s { recs = put (record r { updated_at = now }) s.recs })

unfoldable pub get : Store → Key → Option Record
get s k = lookup s.recs k

-- `Delete`
unfoldable pub delete : Option Fault → Key → Store → Store × Bool
unfolding persist
delete fault k s = persist fault (record s { recs = remove k s.recs })

unfoldable pub newer : Record → Record → Bool
newer a b = ltb b.queued_at a.queued_at

-- `List`: newest-queued first.
unfoldable pub list : Store → List Record
unfolding newer
list s = sort_by newer s.recs

unfoldable pub owns : Text → Record → Bool
owns id r = text_eq r.vm_id id && not (terminal r.state)

unfoldable pub has_vm : Store → Text → Bool
unfolding owns
has_vm s id = any (owns id) s.recs

-- `for _, r := range f.Records { s.recs[r.Key()] = r }`
unfoldable pub load : List Record → List Record → List Record
load recs [] = recs
load recs (r ∷ rs) = load (put r recs) rs

-- What `os.ReadFile` answers.
pub data ReadResult : Type 0 where
  read : FileContent → ReadResult
  read_error : ReadResult

pub data OpenResult : Type 0 where
  opened : Store → OpenResult
  open_error : OpenResult

-- A file that does not decode is moved aside, and is there no longer.
abbrev set_aside : Bool → ℕ → OpenResult
set_aside false temps = open_error
set_aside true temps = opened (record { recs = []; file = no_file; temps = temps })

abbrev load_decoded : FileContent → Bool → ℕ → Option (List Record) → OpenResult
load_decoded file rename_ok temps none = set_aside rename_ok temps
load_decoded file rename_ok temps (some rs) =
    opened (record { recs = load [] rs; file = file; temps = temps })

-- `Open`: the Booleans say whether the calls that make the directory and move a file aside succeed.
unfoldable pub open_store :
    (List Record → Option (List Record)) → Bool → ReadResult → Bool → ℕ → OpenResult
unfolding load
open_store decode false answer rename_ok temps = open_error
open_store decode true read_error rename_ok temps = open_error
open_store decode true (read no_file) rename_ok temps =
    opened (record { recs = []; file = no_file; temps = temps })
open_store decode true (read corrupt) rename_ok temps = set_aside rename_ok temps
open_store decode true (read (holds rs)) rename_ok temps =
    load_decoded (holds rs) rename_ok temps (decode rs)
