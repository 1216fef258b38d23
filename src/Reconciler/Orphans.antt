-- ===== src/Reconciler/Orphans.antt =====
-- Which VMs the sweep of internal/reconciler/reconciler.go deletes.
use mini_control_action.Prelude.{
  ℕ, ◌+◌, ◌≤◌, ◌<◌, ◌≡◌, refl, sym, ap, ◌∙◌, subst, ◌⊎◌, inl, inr, Bool, true, false, ◌||◌, Option,
  none, some, List, [], ◌∷◌, keep_if, leb, Memᴰ, Bool-cases, Text, text_eq, text_eq_iff, is_lit,
  arith, if◌then◌else◌,
}
use mini_control_action.State.Store.{Store, has_vm}
use mini_control_action.Errors.{Result, ok, err}
use mini_control_action.Minicontrol.{Vm}
use mini_control_action.Reconciler.{
  Sight, Sweep, forget, sighted, judge, on_sight, consider, consider_all, sweep_orphans,
}

mem_of_keep_if :
    {A : Type 0} (p : A → Bool) {x : A} (xs : List A) → Memᴰ x (keep_if p xs) → Memᴰ x xs
mem_of_keep_if p [] m = m
mem_of_keep_if p {x} (y ∷ xs) m = either (p y) m (mem_of_keep_if p xs)
  where
    either :
        (b : Bool)
        → Memᴰ x (if b then y ∷ keep_if p xs else keep_if p xs)
        → (Memᴰ x (keep_if p xs) → Memᴰ x xs)
        → Memᴰ x (y ∷ xs)
    either true (Memᴰ.head e) k = Memᴰ.head e
    either true (Memᴰ.tail n) k = Memᴰ.tail (k n)
    either false n k = Memᴰ.tail (k n)

sighted-mem :
    (id : Text) (xs : List Sight) (x : Sight) → sighted id xs ≡ some x → Memᴰ x xs × (x.id ≡ id)
unfolding sighted
sighted-mem id [] x h = absurd (ground arith)
sighted-mem id (y ∷ xs) x h = elim (Bool-cases (text_eq y.id id)) [
  | inl e ↦
      let q : y ≡ x = ground arith in
      (Memᴰ.head (sym q), ap (λ (z : Sight). z.id) (sym q) ∙ (text_eq_iff y.id id).0 e)
  | inr e ↦ let r = sighted-mem id xs x (ground arith) in (Memᴰ.tail r.0, r.1)
]

module _ (grace now : ℕ) (stores : ℕ → Store) (deleted : ℕ → Text → Bool) (o0 : Sweep) where
  -- No record but terminal ones named the VM `id` at some look, and an earlier sweep saw it at least the grace ago.
  abbrev pub IsOrphan : Text → Type 0
  IsOrphan id =
      ((n : ℕ) × (has_vm (stores n) id ≡ false))
      × ((x : Sight) × Memᴰ x o0.first_seen × (x.id ≡ id) × (x.at + grace ≤ now))

  record Good (o : Sweep) : Type 0 where
    sights : (x : Sight) → Memᴰ x o.first_seen → Memᴰ x o0.first_seen ⊎ (x.at ≡ now)
    deletes : (id : Text) → Memᴰ id o.deletes → Memᴰ id o0.deletes ⊎ IsOrphan id

  module _ (positive : 0 < grace) where
    Good-on_sight :
        (id : Text) (s : Option Sight) (o : Sweep)
        → Good o
        → ((n : ℕ) × (has_vm (stores n) id ≡ false))
        → ((x : Sight) → s ≡ some x → Memᴰ x o.first_seen × (x.id ≡ id))
        → Good (on_sight grace now stores deleted id s o)
    unfolding on_sight judge
    Good-on_sight id none o h f k = record { sights = λ x m. newer x m; deletes = h.deletes }
      where
        newer :
            (x : Sight)
            → Memᴰ x (record { id = id; at = now } ∷ o.first_seen)
            → Memᴰ x o0.first_seen ⊎ (x.at ≡ now)
        newer x (Memᴰ.head e) = inr (ap (λ (z : Sight). z.at) e)
        newer x (Memᴰ.tail m) = h.sights x m
    Good-on_sight id (some x) o h f k = decided (leb (x.at + grace) now) refl
      where
        fewer :
            (b : Bool) (y : Sight)
            → Memᴰ y (if b then forget id o.first_seen else o.first_seen)
            → Memᴰ y o.first_seen
        fewer true y m = mem_of_keep_if _ o.first_seen m
        fewer false y m = m

        old : x.at + grace ≤ now → Memᴰ x o0.first_seen ⊎ (x.at ≡ now) → IsOrphan id
        old e (inl m) = (f, (x, m, (k x refl).1, e))
        old e (inr q) = absurd (omega arith)

        sent :
            x.at + grace ≤ now
            → (j : Text) → Memᴰ j (id ∷ o.deletes)
            → Memᴰ j o0.deletes ⊎ IsOrphan j
        sent e j (Memᴰ.head q) = inr (subst IsOrphan (sym q) (old e (h.sights x (k x refl).0)))
        sent e j (Memᴰ.tail m) = h.deletes j m

        decided :
            (b : Bool)
            → leb (x.at + grace) now ≡ b
            → Good (
                if b
                then record o {
                  first_seen = if deleted o.looks id then forget id o.first_seen else o.first_seen;
                  deletes = id ∷ o.deletes;
                  looks = o.looks + 1;
                }
                else record o { looks = o.looks + 1 })
        decided true e = record {
          sights = λ y m. h.sights y (fewer (deleted o.looks id) y m);
          deletes = sent (ground arith);
        }
        decided false e = record { sights = h.sights; deletes = h.deletes }

    Good-consider : (vm : Vm) (o : Sweep) → Good o → Good (consider grace now stores deleted vm o)
    unfolding consider
    Good-consider vm o h =
        decided (is_lit vm.status "deleting") (has_vm (stores o.looks) vm.id) refl
      where
        decided :
            (a b : Bool)
            → has_vm (stores o.looks) vm.id ≡ b
            → Good (
                if a || b
                then record o { first_seen = forget vm.id o.first_seen; looks = o.looks + 1 }
                else on_sight grace now stores deleted vm.id (sighted vm.id o.first_seen) o)
        decided true b e = record {
          sights = λ y m. h.sights y (mem_of_keep_if _ o.first_seen m);
          deletes = h.deletes;
        }
        decided false true e = record {
          sights = λ y m. h.sights y (mem_of_keep_if _ o.first_seen m);
          deletes = h.deletes;
        }
        decided false false e =
            Good-on_sight vm.id _ o h (o.looks, e) (λ x q. sighted-mem vm.id o.first_seen x q)

    Good-consider_all :
        (vms : List Vm) (o : Sweep) → Good o → Good (consider_all grace now stores deleted vms o)
    unfolding consider_all
    Good-consider_all [] o h = h
    Good-consider_all (vm ∷ vms) o h = Good-consider_all vms _ (Good-consider vm o h)

-- With a grace that is not zero (as the defaults make it), a sweep sends a delete for a VM only if the
-- store, when asked, had no record that is not terminal and names it, and if an earlier sweep had
-- already seen it without one, at least the grace ago.
pub sweep_spares :
    (grace now : ℕ) (stores : ℕ → Store) (deleted : ℕ → Text → Bool) (answer : Result (List Vm))
    (o : Sweep) (id : Text)
    → 0 < grace
    → Memᴰ id (sweep_orphans grace now stores deleted answer o).deletes
    → Memᴰ id o.deletes ⊎ IsOrphan grace now stores deleted o id
unfolding sweep_orphans
sweep_spares grace now stores deleted (err e) o id positive m = inl m
sweep_spares grace now stores deleted (ok vms) o id positive m =
    (Good-consider_all grace now stores deleted o positive vms o
        (record { sights = λ x k. inl k; deletes = λ j k. inl k })).deletes
      id m
