-- ===== src/State/Store/Sorting.antt =====
-- `sort.Slice(xs, less)` as an insertion sort: it rearranges, it leaves a map a map, and the result
-- is ordered.
use mathlib.Core.List.{Perm}
use mathlib.Core.List.Perm
use mini_control_action.Prelude.{
  ◌≡◌, refl, ◌∙◌, Bool, true, false, none, some, List, [], ◌∷◌, All, arith, if◌then◌else◌, inl, inr,
  Bool-cases,
}
use mini_control_action.State.{Record, Key, key_of, key_eq, key_eq_iff}
use mini_control_action.State.Store.Map.{lookup, IsMap}

module _ {ℓ} {A : Type ℓ} (less : A → A → Bool) where
  unfoldable pub insert_by : A → List A → List A
  insert_by a [] = a ∷ []
  insert_by a (x ∷ xs) = if less x a then x ∷ insert_by a xs else a ∷ x ∷ xs

  unfoldable pub sort_by : List A → List A
  unfolding insert_by
  sort_by [] = []
  sort_by (x ∷ xs) = insert_by x (sort_by xs)

  pub insert_by-Perm : (a : A) (xs : List A) → Perm (insert_by a xs) (a ∷ xs)
  unfolding insert_by
  insert_by-Perm a [] = Perm.refl _
  insert_by-Perm a (x ∷ xs) = elim (Bool-cases (less x a)) [
    | inl e ↦ rw e (Perm.trans (Perm.cons x (insert_by-Perm a xs)) (Perm.swap a x xs))
    | inr e ↦ rw e (Perm.refl _)
  ]

  pub sort_by-Perm : (xs : List A) → Perm (sort_by xs) xs
  unfolding sort_by
  sort_by-Perm [] = Perm.refl _
  sort_by-Perm (x ∷ xs) = Perm.trans (insert_by-Perm x (sort_by xs)) (Perm.cons x (sort_by-Perm xs))

  -- No later element is less than an earlier one.
  abbrev pub IsOrdered : List A → Type ℓ
  IsOrdered [] = Unit
  IsOrdered (x ∷ xs) = All (λ y. less y x ≡ false) xs × IsOrdered xs

module _ (less : Record → Record → Bool) where
  lookup-insert_by :
      (r : Record) (k : Key) (xs : List Record)
      → lookup xs (key_of r) ≡ none
      → lookup (insert_by less r xs) k ≡ (if key_eq (key_of r) k then some r else lookup xs k)
  unfolding insert_by lookup
  lookup-insert_by r k [] h = refl
  lookup-insert_by r k (x ∷ xs) h = ground (
    arith,
    lookup-insert_by r k xs,
    key_eq_iff (key_of r) k,
    key_eq_iff (key_of x) k,
    key_eq_iff (key_of x) (key_of r),
  )

  -- Sorting a map changes no entry.
  pub lookup-sort_by :
      (xs : List Record) (k : Key) → IsMap xs → lookup (sort_by less xs) k ≡ lookup xs k
  unfolding sort_by lookup
  lookup-sort_by [] k h = refl
  lookup-sort_by (x ∷ xs) k h = ground (
    arith,
    lookup-sort_by xs k h.1,
    lookup-sort_by xs (key_of x) h.1,
    lookup-insert_by x k (sort_by less xs),
  )

  insert_by-IsMap :
      (r : Record) (xs : List Record)
      → IsMap xs
      → lookup xs (key_of r) ≡ none
      → IsMap (insert_by less r xs)
  unfolding insert_by lookup
  insert_by-IsMap r [] h n = (refl, tt)
  insert_by-IsMap r (x ∷ xs) h n = ground (
    arith,
    insert_by-IsMap r xs h.1,
    lookup-insert_by r (key_of x) xs,
    key_eq_iff (key_of x) (key_of r),
    key_eq_iff (key_of r) (key_of x),
  )

  pub sort_by-IsMap : (xs : List Record) → IsMap xs → IsMap (sort_by less xs)
  unfolding sort_by
  sort_by-IsMap [] h = tt
  sort_by-IsMap (x ∷ xs) h =
      insert_by-IsMap x (sort_by less xs) (sort_by-IsMap xs h.1)
        (lookup-sort_by xs (key_of x) h.1 ∙ h.0)

module _ {ℓ} {A : Type ℓ} (less : A → A → Bool)
    (trans : (a b c : A) → less b a ≡ false → less c b ≡ false → less c a ≡ false)
    (asym : (a b : A) → less a b ≡ true → less b a ≡ false) where
  All-insert_by :
      (a b : A) (xs : List A)
      → less b a ≡ false
      → All (λ y. less y a ≡ false) xs
      → All (λ y. less y a ≡ false) (insert_by less b xs)
  unfolding insert_by
  All-insert_by a b [] h hs = (h, tt)
  All-insert_by a b (x ∷ xs) h hs = ground (arith, All-insert_by a b xs h hs.1)

  All-weaken :
      (a b : A) (xs : List A)
      → less b a ≡ false
      → All (λ y. less y b ≡ false) xs
      → All (λ y. less y a ≡ false) xs
  All-weaken a b [] h hs = tt
  All-weaken a b (x ∷ xs) h hs = (trans a b x h hs.0, All-weaken a b xs h hs.1)

  insert_by-IsOrdered :
      (a : A) (xs : List A) → IsOrdered less xs → IsOrdered less (insert_by less a xs)
  unfolding insert_by
  insert_by-IsOrdered a [] h = (tt, tt)
  insert_by-IsOrdered a (x ∷ xs) h = elim (Bool-cases (less x a)) [
    | inl e ↦ rw e (All-insert_by x a xs (asym x a e) h.0, insert_by-IsOrdered a xs h.1)
    | inr e ↦ rw e ((e, All-weaken a x xs e h.0), h)
  ]

  pub sort_by-IsOrdered : (xs : List A) → IsOrdered less (sort_by less xs)
  unfolding sort_by
  sort_by-IsOrdered [] = tt
  sort_by-IsOrdered (x ∷ xs) = insert_by-IsOrdered x (sort_by less xs) (sort_by-IsOrdered xs)
