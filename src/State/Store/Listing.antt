-- ===== src/State/Store/Listing.antt =====
-- `HasVM` and `List` of internal/state/store.go.
use mathlib.Core.List.{Perm}
use mini_control_action.Prelude.{
  ◌≡◌, ◌≤◌, List, [], ◌∷◌, All, ◌↔◌, true, false, Memᴰ, find_any, any-mem, arith, Text, text_eq_iff,
}
use mini_control_action.State.{terminal, Record}
use mini_control_action.State.Store.Sorting.{sort_by-Perm, IsOrdered, sort_by-IsOrdered}
use mini_control_action.State.Store.{Store, owns, has_vm, newer, list}

owns_iff :
    (id : Text) (r : Record) → (owns id r ≡ true) ↔ ((r.vm_id ≡ id) × (terminal r.state ≡ false))
unfolding owns
owns_iff id r = ground (arith, text_eq_iff r.vm_id id)

-- `HasVM id` answers true exactly when some record that is not terminal names the VM `id`.
pub has_vm_iff :
    (s : Store) (id : Text)
    → (has_vm s id ≡ true)
      ↔ ((r : Record) × Memᴰ r s.recs × (r.vm_id ≡ id) × (terminal r.state ≡ false))
unfolding has_vm
has_vm_iff s id = (
  (λ h.
      let (r, m, q) = find_any (owns id) s.recs h in
      let both = (owns_iff id r).0 q in (r, m, both.0, both.1)),
  λ t. any-mem (owns id) t.1 ((owns_iff id t.0).1 (t.2, t.3)),
)

newer_trans : (a b c : Record) → newer b a ≡ false → newer c b ≡ false → newer c a ≡ false
unfolding newer
newer_trans a b c h k = ground arith

newer_asym : (a b : Record) → newer a b ≡ true → newer b a ≡ false
unfolding newer
newer_asym a b h = ground arith

-- No record stands behind one that was queued earlier than it.
abbrev pub IsNewestFirst : List Record → Type 0
IsNewestFirst [] = Unit {0}
IsNewestFirst (r ∷ rs) = All (λ (x : Record). x.queued_at ≤ r.queued_at) rs × IsNewestFirst rs

none_newer :
    (r : Record) (rs : List Record)
    → All (λ x. newer x r ≡ false) rs
    → All (λ (x : Record). x.queued_at ≤ r.queued_at) rs
unfolding newer
none_newer r [] h = tt
none_newer r (x ∷ rs) h = let first = h.0 in (ground arith, none_newer r rs h.1)

ordered-IsNewestFirst : (rs : List Record) → IsOrdered newer rs → IsNewestFirst rs
ordered-IsNewestFirst [] h = tt
ordered-IsNewestFirst (r ∷ rs) h = (none_newer r rs h.0, ordered-IsNewestFirst rs h.1)

-- `List` returns every record of the map, each as often as it is there, and each has a `queued_at`
-- that is at least that of every record behind it.
pub list-IsNewestFirst : (s : Store) → Perm (list s) s.recs × IsNewestFirst (list s)
unfolding list
list-IsNewestFirst s = (
  sort_by-Perm newer s.recs,
  ordered-IsNewestFirst _ (sort_by-IsOrdered newer newer_trans newer_asym s.recs),
)
