-- ===== src/Minicontrol/Fake/Replays.antt =====
-- That a create can be repeated: the idempotency keys of internal/minicontrol/fake/fake.go.
use mini_control_action.Prelude.{
  ◌≡◌, refl, sym, ◌∙◌, Bool, true, false, not, ◌&&◌, ◌||◌, ◌==◌, Option, none, some, List, text_eq,
  text_eq_refl, text_eq_iff, is_empty, ltb, length, to_lower, Bool-cases, inl, inr, arith,
  if◌then◌else◌,
}
use mini_control_action.Minicontrol.{CreateVmRequest}
use mini_control_action.Minicontrol.Fake.{
  noted, add_vm, new_vm, store_response, Fake, Stored, Request, Response, find_stored, create_new,
  replay, create_decoded, handle_create,
}
use mini_control_action.Minicontrol.Fake.Memory.{run, Remembers, run-Remembers}

module _ (req : Request) where
  -- A create that is answered with 201 has its response stored, for its body.
  abbrev IsStored : Response × Fake → Type 0
  IsStored r =
      r.0.status ≡ 201
      → (x : Stored) × (find_stored req.key r.1.idempotency ≡ some x)
        × (x.body ≡ req.body)
        × (x.response ≡ r.0)

  if-IsStored :
      (b : Bool) (r r' : Response × Fake)
      → IsStored r
      → IsStored r'
      → IsStored (if b then r else r')
  if-IsStored true r r' h k = h
  if-IsStored false r r' h k = k

  store_response-IsStored : (resp : Response) (s : Fake) → IsStored (store_response req resp s)
  unfolding find_stored
  store_response-IsStored resp s h = (
    record { key = req.key; body = req.body; response = resp },
    rw (text_eq_refl req.key) refl,
    refl,
    refl,
  )

  new-IsStored : (body : CreateVmRequest) (s : Fake) → IsStored (create_new req body s)
  unfolding create_new
  new-IsStored body s =
      if-IsStored (not (s.inject_429 == 0)) _ _ (λ h. absurd (omega arith))
        (if-IsStored (not (is_empty s.capacity_reason)) _ _ (store_response-IsStored _ s) (
          if-IsStored
            (not (is_empty body.tag) && not (text_eq (to_lower body.tag) (to_lower s.fleet_tag))) _
            _ (store_response-IsStored _ s) (store_response-IsStored _ (add_vm (new_vm body s) s))))

  replay-IsStored :
      (body : CreateVmRequest) (o : Option Stored) (s : Fake)
      → find_stored req.key s.idempotency ≡ o
      → IsStored (replay req body o s)
  replay-IsStored body none s n = new-IsStored body s
  replay-IsStored body (some x) s n = elim (Bool-cases (text_eq x.body req.body)) [
    | inl e ↦ rw e (λ h. (x, n, (text_eq_iff x.body req.body).0 e, refl))
    | inr e ↦ rw e (λ h. absurd (omega arith))
  ]

  -- The second time, the stored response is the answer.
  replayed :
      (body : CreateVmRequest) (x : Stored) (o : Option Stored) (s : Fake)
      → o ≡ some x
      → x.body ≡ req.body
      → replay req body o s ≡ (x.response, s)
  replayed body x o s e b = rw (e, b, text_eq_refl req.body) refl

  abbrev rejects : CreateVmRequest → Fake → Bool
  rejects body s = s.reject_tag && not (is_empty body.tag)

  not_rejected :
      (body : CreateVmRequest) (s : Fake)
      → rejects body s ≡ false
      → create_decoded req (some body) s
        ≡ replay req body (find_stored req.key s.idempotency) (noted req s)
  not_rejected body s h = rw h refl

  rejected_status :
      (body : CreateVmRequest) (s : Fake)
      → rejects body s ≡ true
      → (create_decoded req (some body) s).0.status ≡ 400
  rejected_status body s h = rw h refl

  new-reject_tag :
      (body : CreateVmRequest) (s : Fake) → (create_new req body s).1.reject_tag ≡ s.reject_tag
  unfolding create_new add_vm
  new-reject_tag body s = ground arith

  replay-reject_tag :
      (body : CreateVmRequest) (o : Option Stored) (s : Fake)
      → (replay req body o s).1.reject_tag ≡ s.reject_tag
  replay-reject_tag body none s = new-reject_tag body s
  replay-reject_tag body (some x) s = refl

  decoded_again :
      (o : Option CreateVmRequest) (s s' : Fake)
      → (create_decoded req o s).0.status ≡ 201
      → ((x : Stored)
          → Remembers req.key x s.reject_tag (create_decoded req o s).1
          → Remembers req.key x s.reject_tag s')
      → ((create_decoded req o s').0 ≡ (create_decoded req o s).0)
        × ((create_decoded req o s').1.vms ≡ s'.vms)
  decoded_again none s s' h k = absurd (omega arith)
  decoded_again (some body) s s' h k = elim (Bool-cases (rejects body s)) [
    | inl e ↦ let bad = rejected_status body s e in absurd (omega arith)
    | inr e ↦
        let once = not_rejected body s e in
        let (x, f, b, r) =
          replay-IsStored body (find_stored req.key s.idempotency) (noted req s) refl
            (rw (sym once) h) in
        let m =
          k x (
            rw once
              (f, replay-reject_tag body (find_stored req.key s.idempotency) (noted req s))) in
        let twice =
          not_rejected body s' (rw (m.1) e)
          ∙ replayed body x (find_stored req.key s'.idempotency) (noted req s') m.0 b in
        rw (twice, once) (r, refl)
  ]

bad_key :
    (req : Request) (s : Fake)
    → (is_empty req.key || ltb 128 (length req.key)) ≡ true
    → (handle_create req s).0.status ≡ 400
unfolding handle_create
bad_key req s h = rw h refl

good_key :
    (req : Request) (s : Fake)
    → (is_empty req.key || ltb 128 (length req.key)) ≡ false
    → handle_create req s ≡ create_decoded req req.create s
unfolding handle_create
good_key req s h = rw h refl

made_again :
    (req : Request) (s s' : Fake)
    → (is_empty req.key || ltb 128 (length req.key)) ≡ false
    → (handle_create req s).0.status ≡ 201
    → ((x : Stored)
        → Remembers req.key x s.reject_tag (handle_create req s).1
        → Remembers req.key x s.reject_tag s')
    → ((handle_create req s').0 ≡ (handle_create req s).0) × ((handle_create req s').1.vms ≡ s'.vms)
made_again req s s' e h k =
    rw (good_key req s e, good_key req s' e)
      (decoded_again req req.create s s' (rw (sym (good_key req s e)) h)
        (λ x m. k x (rw (good_key req s e) m)))

-- A create may be repeated with the same key and body, as the client does after a crash: once it has
-- been answered with 201, then after any other requests it gets the same answer, and no VM is made,
-- changed or lost by it.
pub create_replays :
    (req : Request) (s : Fake) (rs : List Request)
    → (handle_create req s).0.status ≡ 201
    → let s' = run rs (handle_create req s).1 in
      ((handle_create req s').0 ≡ (handle_create req s).0) × ((handle_create req s').1.vms ≡ s'.vms)
create_replays req s rs h = elim (Bool-cases (is_empty req.key || ltb 128 (length req.key))) [
  | inl e ↦ let bad = bad_key req s e in absurd (omega arith)
  | inr e ↦
      made_again req s (run rs (handle_create req s).1) e h
        (λ x m. run-Remembers req.key x s.reject_tag rs _ m)
]
