-- ===== src/Minicontrol/Fake/Waits.antt =====
-- How many polls a VM of internal/minicontrol/fake/fake.go needs.
use mini_control_action.Prelude.{
  ℕ, zero, suc, ◌+◌, ◌-◌, ◌≡◌, ◌≤◌, ◌<◌, refl, ap, sym, ◌∙◌, inl, inr, Bool-cases, Bool, true,
  false, is_some, none, some, pos, codes, Text, is_lit, text_eq, ltb, ◌&&◌, arith, if◌then◌else◌,
}
use mini_control_action.Minicontrol.Fake.{FakeVm, vm_json}
use mini_control_action.Minicontrol.Fake.Routes.{polled}

abbrev pub polls : ℕ → FakeVm → FakeVm
polls zero vm = vm
polls (suc n) vm = polls n (polled vm)

abbrev pub is_offered : ℕ → FakeVm → Bool
is_offered delay vm = is_lit vm.status "ready" && ltb delay vm.ready_gets

ready_polled :
    (vm : FakeVm)
    → vm.status ≡ codes "ready"
    → ((polled vm).status ≡ codes "ready") × ((polled vm).ready_gets ≡ vm.ready_gets + 1)
unfolding polled codes is_lit text_eq
ready_polled vm h = rw h (refl, refl)

ready_polls :
    (n : ℕ) (vm : FakeVm)
    → vm.status ≡ codes "ready"
    → ((polls n vm).status ≡ codes "ready") × ((polls n vm).ready_gets ≡ vm.ready_gets + n)
ready_polls zero vm h = (h, omega arith)
ready_polls (suc n) vm h =
    let (a, b) = ready_polled vm h in let (c, d) = ready_polls n (polled vm) a in (c, omega arith)

waiting :
    (n : ℕ) (vm : FakeVm)
    → vm.status ≡ codes "provisioning"
    → vm.gets_until_ready ≡ pos (suc (suc n))
    → ((polled vm).status ≡ codes "provisioning")
      × ((polled vm).gets_until_ready ≡ pos (suc n))
      × ((polled vm).ready_gets ≡ vm.ready_gets)
unfolding polled codes is_lit text_eq
waiting n vm h g = rw (h, g) (ground arith)

last :
    (vm : FakeVm)
    → vm.status ≡ codes "provisioning"
    → vm.gets_until_ready ≡ pos 1
    → ((polled vm).status ≡ codes "ready") × ((polled vm).ready_gets ≡ vm.ready_gets + 1)
unfolding polled codes is_lit text_eq
last vm h g = rw (h, g) (refl, refl)

still :
    (k n : ℕ) (vm : FakeVm)
    → vm.status ≡ codes "provisioning"
    → vm.gets_until_ready ≡ pos (suc (k + n))
    → ((polls k vm).status ≡ codes "provisioning")
      × ((polls k vm).gets_until_ready ≡ pos (suc n))
      × ((polls k vm).ready_gets ≡ vm.ready_gets)
still zero n vm h g = (h, g ∙ ap (λ x. pos (suc x)) (omega arith), refl)
still (suc k) n vm h g =
    let (a, b, c) = waiting (k + n) vm h (g ∙ ap (λ x. pos (suc x)) (omega arith)) in
    let (d, e, f) = still k n (polled vm) a b in (d, e, f ∙ c)

polls_add : (a b : ℕ) (vm : FakeVm) → polls (a + b) vm ≡ polls b (polls a vm)
polls_add zero b vm = let e : 0 + b ≡ b = omega arith in rw e refl
polls_add (suc a) b vm =
    let e : suc a + b ≡ suc (a + b) = omega arith in rw e (polls_add a b (polled vm))

before_ready :
    (n k : ℕ) (vm : FakeVm)
    → vm.status ≡ codes "provisioning"
    → vm.gets_until_ready ≡ pos (suc n)
    → k ≤ n
    → (polls k vm).status ≡ codes "provisioning"
before_ready n k vm h g l = (still k (n - k) vm h (g ∙ ap (λ x. pos (suc x)) (omega arith))).0

once_ready :
    (n k : ℕ) (vm : FakeVm)
    → vm.status ≡ codes "provisioning"
    → vm.gets_until_ready ≡ pos (suc n)
    → n < k
    → ((polls k vm).status ≡ codes "ready") × ((polls k vm).ready_gets ≡ vm.ready_gets + (k - n))
once_ready n k vm h g l =
    let (a, b, c) = still n 0 vm h (g ∙ ap (λ x. pos (suc x)) (omega arith)) in
    let (d, r) = last (polls n vm) a b in
    let (u, v) = ready_polls (k - suc n) (polled (polls n vm)) d in
    let e : n + suc (k - suc n) ≡ k = omega arith in
    let split : polls k vm ≡ polls (k - suc n) (polled (polls n vm)) =
      ap (λ x. polls x vm) (sym e) ∙ polls_add n (suc (k - suc n)) vm in
    rw split (u, omega arith)

is_some-if : (b : Bool) (x : Text × Text × Text) → is_some (if b then some x else none) ≡ b
is_some-if true x = refl
is_some-if false x = refl

shown_ready :
    (delay : ℕ) (vm : FakeVm)
    → vm.status ≡ codes "ready"
    → is_some (vm_json delay vm).access ≡ ltb delay vm.ready_gets
unfolding vm_json codes is_lit text_eq
shown_ready delay vm h = rw h (is_some-if (ltb delay vm.ready_gets) _)

shown_waiting :
    (delay : ℕ) (vm : FakeVm)
    → vm.status ≡ codes "provisioning"
    → is_some (vm_json delay vm).access ≡ false
unfolding vm_json codes is_lit text_eq
shown_waiting delay vm h = rw h refl

same_test : (delay n k g : ℕ) → n < k → g ≡ k - n → ltb delay g ≡ ltb (n + delay) k
same_test delay n k g l e = ground arith

not_yet : (delay n k : ℕ) → k ≤ n → false ≡ ltb (n + delay) k
not_yet delay n k l = ground arith

-- A VM of the fake service that is provisioning, gets ready at poll n + 1, and has not been seen ready
-- yet, shows its credentials after k polls exactly if k is above n + `CredsDelay`.
pub polls_show :
    (delay n k : ℕ) (vm : FakeVm)
    → vm.status ≡ codes "provisioning"
    → vm.gets_until_ready ≡ pos (suc n)
    → vm.ready_gets ≡ 0
    → is_some (vm_json delay (polls k vm)).access ≡ ltb (n + delay) k
polls_show delay n k vm h g z = elim (Bool-cases (ltb n k)) [
  | inl e ↦
      let l : n < k = ground arith in
      let (a, b) = once_ready n k vm h g l in
      shown_ready delay (polls k vm) a ∙ same_test delay n k _ l (omega arith)
  | inr e ↦
      let l : k ≤ n = ground arith in
      shown_waiting delay (polls k vm) (before_ready n k vm h g l) ∙ not_yet delay n k l
]
