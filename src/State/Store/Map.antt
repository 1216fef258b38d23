-- ===== src/State/Store/Map.antt =====
-- The Go map `recs` of internal/state/store.go as an association list with its laws.
use mini_control_action.Prelude.{
  ◌≡◌, refl, sym, ap, ◌∙◌, Option, none, some, List, [], ◌∷◌, Bool-cases, inl, inr, arith,
  if◌then◌else◌,
}
use mini_control_action.State.{Record, Key, key_of, key_eq, key_eq_iff}

-- recs[k]
unfoldable pub lookup : List Record → Key → Option Record
lookup [] k = none
lookup (r ∷ rs) k = if key_eq (key_of r) k then some r else lookup rs k

-- recs[r.Key()] = r
unfoldable pub put : Record → List Record → List Record
put r [] = r ∷ []
put r (x ∷ xs) = if key_eq (key_of x) (key_of r) then r ∷ xs else x ∷ put r xs

-- delete(recs, k)
unfoldable pub remove : Key → List Record → List Record
remove k [] = []
remove k (x ∷ xs) = let rest = remove k xs in if key_eq (key_of x) k then rest else x ∷ rest

-- A map has one entry for each key.
abbrev pub IsMap : List Record → Type 0
IsMap [] = Unit {0}
IsMap (r ∷ rs) = (lookup rs (key_of r) ≡ none) × IsMap rs

pub lookup-put :
    (r : Record) (k : Key) (rs : List Record)
    → lookup (put r rs) k ≡ (if key_eq (key_of r) k then some r else lookup rs k)
unfolding lookup put
lookup-put r k [] = refl
lookup-put r k (x ∷ xs) = ground (
  arith,
  key_eq_iff (key_of r) k,
  key_eq_iff (key_of x) k,
  key_eq_iff (key_of x) (key_of r),
  lookup-put r k xs,
)

pub lookup-remove :
    (j k : Key) (rs : List Record)
    → lookup (remove j rs) k ≡ (if key_eq j k then none else lookup rs k)
unfolding lookup remove
lookup-remove j k [] = ground arith
lookup-remove j k (x ∷ xs) =
    ground (
      arith,
      key_eq_iff j k,
      key_eq_iff (key_of x) k,
      key_eq_iff (key_of x) j,
      lookup-remove j k xs,
    )

pub key_of-lookup : (k : Key) (rs : List Record) (r : Record) → lookup rs k ≡ some r → key_of r ≡ k
unfolding lookup
key_of-lookup k [] r h = absurd (ground arith)
key_of-lookup k (x ∷ xs) r h = elim (Bool-cases (key_eq (key_of x) k)) [
  | inl e ↦ let same : x ≡ r = ground arith in ap key_of (sym same) ∙ (key_eq_iff (key_of x) k).0 e
  | inr e ↦ key_of-lookup k xs r (ground arith)
]

pub put-IsMap : (r : Record) (rs : List Record) → IsMap rs → IsMap (put r rs)
unfolding lookup put
put-IsMap r [] h = (refl, tt)
put-IsMap r (x ∷ xs) h = ground (
  arith,
  put-IsMap r xs h.1,
  key_eq_iff (key_of x) (key_of r),
  key_eq_iff (key_of r) (key_of x),
  lookup-put r (key_of x) xs,
)

pub remove-IsMap : (k : Key) (rs : List Record) → IsMap rs → IsMap (remove k rs)
unfolding remove
remove-IsMap k [] h = tt
remove-IsMap k (x ∷ xs) h =
    ground (arith, remove-IsMap k xs h.1, key_eq_iff k (key_of x), lookup-remove k (key_of x) xs)
