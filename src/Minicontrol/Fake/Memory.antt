-- ===== src/Minicontrol/Fake/Memory.antt =====
-- What the service of internal/minicontrol/fake/fake.go keeps of a create, whatever is requested after it.
use mini_control_action.Prelude.{
  ◌≡◌, refl, subst, Bool, true, false, not, ◌&&◌, ◌||◌, ◌==◌, Option, none, some, List, [], ◌∷◌,
  Text, text_eq, text_eq_iff, is_empty, ltb, length, to_lower, Bool-cases, inl, inr, if◌then◌else◌,
}
use mini_control_action.Minicontrol.{CreateVmRequest}
use mini_control_action.Minicontrol.Fake.{
  Fake, FakeVm, Stored, Request, Response, find_stored, create_new, replay, create_decoded,
  handle_create, find_vm,
}
use mini_control_action.Minicontrol.Fake.Routes.{
  Route, list_skus, create, list, unknown, exec_in, get_one, delete_one, serve, get_found, handle,
}

abbrev pub run : List Request → Fake → Fake
run [] s = s
run (r ∷ rs) s = run rs (handle r s).1

module _ (key : Text) (x : Stored) where
  -- The response is stored under the key, and tags are rejected or not as before.
  abbrev pub Remembers : Bool → Fake → Type 0
  Remembers rejects s = (find_stored key s.idempotency ≡ some x) × (s.reject_tag ≡ rejects)

  differs :
      (k : Text) (xs : List Stored)
      → find_stored k xs ≡ none
      → find_stored key xs ≡ some x
      → text_eq k key ≡ false
  differs k xs n h = elim (Bool-cases (text_eq k key)) [
    | inl e ↦
        let gone : find_stored key xs ≡ none =
          subst (λ j. find_stored j xs ≡ none) ((text_eq_iff k key).0 e) n in
        absurd (cc)
    | inr e ↦ e
  ]

  module _ (rejects : Bool) where
    if-Remembers :
        (b : Bool) (r r' : Response × Fake)
        → Remembers rejects r.1
        → Remembers rejects r'.1
        → Remembers rejects (if b then r else r').1
    if-Remembers true r r' h k = h
    if-Remembers false r r' h k = k

    new-Remembers :
        (req : Request) (body : CreateVmRequest) (s : Fake)
        → find_stored req.key s.idempotency ≡ none
        → Remembers rejects s
        → Remembers rejects (create_new req body s).1
    unfolding create_new find_stored
    new-Remembers req body s n h =
        let other = differs req.key s.idempotency n h.0 in
        if-Remembers (not (s.inject_429 == 0)) _ _ h (
          if-Remembers (not (is_empty s.capacity_reason)) _ _ (rw other h.0, h.1)
            (if-Remembers
              (not (is_empty body.tag) && not (text_eq (to_lower body.tag) (to_lower s.fleet_tag)))
              _ _ (rw other h.0, h.1) (rw other h.0, h.1)))

    replay-Remembers :
        (req : Request) (body : CreateVmRequest) (o : Option Stored) (s : Fake)
        → find_stored req.key s.idempotency ≡ o
        → Remembers rejects s
        → Remembers rejects (replay req body o s).1
    replay-Remembers req body none s n h = new-Remembers req body s n h
    replay-Remembers req body (some y) s n h = h

    decoded-Remembers :
        (req : Request) (o : Option CreateVmRequest) (s : Fake)
        → Remembers rejects s
        → Remembers rejects (create_decoded req o s).1
    decoded-Remembers req none s h = h
    decoded-Remembers req (some body) s h =
        if-Remembers (s.reject_tag && not (is_empty body.tag)) _ _ h
          (replay-Remembers req body _ _ refl h)

    get-Remembers :
        (req : Request) (o : Option FakeVm) (s : Fake)
        → Remembers rejects s
        → Remembers rejects (get_found o s).1
    get-Remembers req none s h = h
    get-Remembers req (some vm) s h = h

    serve-Remembers :
        (r : Route) (req : Request) (s : Fake)
        → Remembers rejects s
        → Remembers rejects (serve r req s).1
    unfolding serve handle_create
    serve-Remembers list_skus req s h = h
    serve-Remembers create req s h =
        if-Remembers (is_empty req.key || ltb 128 (length req.key)) _ _ h
          (decoded-Remembers req req.create s h)
    serve-Remembers list req s h = h
    serve-Remembers (exec_in id) req s h = h
    serve-Remembers (get_one id) req s h = get-Remembers req (find_vm id s.vms) s h
    serve-Remembers (delete_one id) req s h = h
    serve-Remembers unknown req s h = h

    handle-Remembers :
        (req : Request) (s : Fake) → Remembers rejects s → Remembers rejects (handle req s).1
    unfolding handle
    handle-Remembers req s h = if-Remembers (not req.authorized) _ _ h (serve-Remembers _ req s h)

    pub run-Remembers :
        (rs : List Request) (s : Fake) → Remembers rejects s → Remembers rejects (run rs s)
    run-Remembers [] s h = h
    run-Remembers (r ∷ rs) s h = run-Remembers rs (handle r s).1 (handle-Remembers r s h)
