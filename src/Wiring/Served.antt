-- ===== src/Wiring/Served.antt =====
-- That a poll's jobs reach a worker: internal/githubapp/poller.go and internal/scaler/scaler.go.
use mini_control_action.Prelude.{
  ℕ, ◌≡◌, refl, sym, ap, ◌∙◌, subst, ◌⊎◌, inl, inr, Bool, true, false, Option, none, some, List, [],
  ◌∷◌, All, Bool-cases, is_lit, text_eq, codes, Text, arith, if◌then◌else◌,
}
use mini_control_action.Errors.{ok}
use mini_control_action.Config.{Config}
use mini_control_action.State.{terminal, Record, Key, key_eq, key_eq_iff}
use mini_control_action.State.Store.{Fault, get, upsert, persist}
use mini_control_action.State.Store.Updates.{get-upsert}
use mini_control_action.State.Store.Map.{key_of-lookup}
use mini_control_action.Github.{JobEvent}
use mini_control_action.Github.Api.{Server, Client}
use mini_control_action.Github.Jobs.{poll}
use mini_control_action.Github.Jobs.Offers.{IsQueuedOffer, poll_offers}
use mini_control_action.Scaler.Dispatch.{
  Dispatch, is_active, spawn, submit, admit, on_queued, on_completed, new_record, event_key,
  deliver,
}
use mini_control_action.Scaler.Dispatch.Workers.{any-deliver, spawn_keeps, spawn-is_active}
use mini_control_action.Wiring.{poller_of, submit_all, poll_once}

-- The job has a worker, or is over.
abbrev pub IsServed : Dispatch → Key → Type 0
IsServed d k =
    (is_active d k ≡ true) ⊎ ((r : Record) × (get d.store k ≡ some r) × (terminal r.state ≡ true))

carry_over :
    (k : Key) (d d' : Dispatch)
    → d'.store ≡ d.store
    → (is_active d k ≡ true → is_active d' k ≡ true)
    → IsServed d k
    → IsServed d' k
carry_over k d d' e f (inl h) = inl (f h)
carry_over k d d' e f (inr (r, g, t)) = inr (r, ap (λ s. get s k) e ∙ g, t)

store-spawn : (r : Record) (d : Dispatch) → (spawn r d).store ≡ d.store
unfolding spawn is_active
store-spawn r d = ground arith

spawn_serves : (k : Key) (r : Record) (d : Dispatch) → IsServed d k → IsServed (spawn r d) k
spawn_serves k r d h = carry_over k d (spawn r d) (store-spawn r d) (spawn_keeps r k d) h

spawn_unless_serves :
    (b : Bool) (k : Key) (r : Record) (d : Dispatch)
    → IsServed d k
    → IsServed (if b then d else spawn r d) k
spawn_unless_serves true k r d h = h
spawn_unless_serves false k r d h = spawn_serves k r d h

if_serves :
    (b : Bool) (k : Key) (c d : Dispatch)
    → IsServed c k
    → IsServed d k
    → IsServed (if b then c else d) k
if_serves true k c d h l = h
if_serves false k c d h l = l

deliver_serves :
    (j k : Key) (ev : JobEvent) (d : Dispatch)
    → IsServed d k
    → IsServed (record d { lanes = deliver j ev d.lanes }) k
unfolding is_active
deliver_serves j k ev d h =
    carry_over k d (record d { lanes = deliver j ev d.lanes }) refl
      (λ a. any-deliver k j ev d.lanes ∙ a) h

-- The state with the new record, which is written under a key that has none.
abbrev recorded : ℕ → JobEvent → Dispatch → Dispatch
recorded now ev d = record d { store = (upsert now none (new_record now ev) d.store).0 }

recorded_serves :
    (now : ℕ) (ev : JobEvent) (k : Key) (d : Dispatch)
    → get d.store (event_key ev) ≡ none
    → IsServed d k
    → IsServed (recorded now ev d) k
unfolding is_active
recorded_serves now ev k d n (inl a) = inl a
recorded_serves now ev k d n (inr (r, g, t)) = elim (Bool-cases (key_eq (event_key ev) k)) [
  | inl e ↦
      let gone = subst (λ j. get d.store j ≡ none) ((key_eq_iff (event_key ev) k).0 e) n in
      absurd (clash gone)
  | inr e ↦ inr (r, get-upsert now none (new_record now ev) d.store k ∙ rw e g, t)
]
  where
    clash : get d.store k ≡ none → ⊥
    clash gone = let same : none ≡ some r = sym gone ∙ g in cc

admit_serves :
    (now : ℕ) (ev : JobEvent) (k : Key) (d : Dispatch)
    → get d.store (event_key ev) ≡ none
    → IsServed d k
    → IsServed (admit now none ev d) k
unfolding admit upsert persist
admit_serves now ev k d n h =
    spawn_serves k (new_record now ev) (recorded now ev d) (recorded_serves now ev k d n h)

on_queued_serves :
    (now : ℕ) (ev : JobEvent) (k : Key) (o : Option Record) (d : Dispatch)
    → get d.store (event_key ev) ≡ o
    → IsServed d k
    → IsServed (on_queued now none ev o d) k
unfolding on_queued
on_queued_serves now ev k none d n h = admit_serves now ev k d n h
on_queued_serves now ev k (some r) d n h = spawn_unless_serves (terminal r.state) k r d h

on_completed_serves :
    (k : Key) (o : Option Record) (d : Dispatch) → IsServed d k → IsServed (on_completed o d) k
unfolding on_completed
on_completed_serves k none d h = h
on_completed_serves k (some r) d h = spawn_unless_serves (terminal r.state) k r d h

submit_keeps :
    (now : ℕ) (ev : JobEvent) (d : Dispatch) (k : Key)
    → IsServed d k
    → IsServed (submit now none ev d) k
unfolding submit
submit_keeps now ev d k h = if_serves (is_lit ev.action "waiting") k _ _ h (
    if_serves (is_active d (event_key ev)) k _ _ (deliver_serves (event_key ev) k ev d h) (
      if_serves (is_lit ev.action "queued") k _ _ (on_queued_serves now ev k _ d refl h)
        (if_serves (is_lit ev.action "completed") k _ _ (on_completed_serves k _ d h) h)))

on_queued_own :
    (now : ℕ) (ev : JobEvent) (o : Option Record) (d : Dispatch)
    → get d.store (event_key ev) ≡ o
    → IsServed (on_queued now none ev o d) (event_key ev)
unfolding on_queued admit upsert persist get
on_queued_own now ev none d n = inl (spawn-is_active (new_record now ev) (recorded now ev d))
on_queued_own now ev (some r) d n = elim (Bool-cases (terminal r.state)) [
  | inl t ↦ rw t (inr (r, n, t))
  | inr t ↦ rw t (
      inl (
        subst (λ j. is_active (spawn r d) j ≡ true) (key_of-lookup (event_key ev) d.store.recs r n)
          (spawn-is_active r d)))
]

submit_serves :
    (now : ℕ) (ev : JobEvent) (d : Dispatch)
    → ev.action ≡ codes "queued"
    → IsServed (submit now none ev d) (event_key ev)
unfolding submit is_lit text_eq codes
submit_serves now ev d h = rw h (elim (Bool-cases (is_active d (event_key ev))) [
  | inl e ↦ rw e (inl (any-deliver (event_key ev) (event_key ev) _ d.lanes ∙ e))
  | inr e ↦ rw e (on_queued_own now ev _ d refl)
])

module _ (now : JobEvent → ℕ) where
  abbrev never_fails : JobEvent → Option Fault
  never_fails ev = none

  submit_all_keeps :
      (evs : List JobEvent) (d : Dispatch) (k : Key)
      → IsServed d k
      → IsServed (submit_all now never_fails evs d) k
  unfolding submit_all
  submit_all_keeps [] d k h = h
  submit_all_keeps (ev ∷ evs) d k h = submit_all_keeps evs _ k (submit_keeps (now ev) ev d k h)

  abbrev pub IsServedIn : Dispatch → JobEvent → Type 0
  IsServedIn d ev = IsServed d (event_key ev)

  -- The events are served in `d'`, when `d'` serves what the loop leaves served.
  served_later :
      (ours : List Text) (evs : List JobEvent) (d d' : Dispatch)
      → All (IsQueuedOffer ours) evs
      → ((k : Key) → IsServed (submit_all now never_fails evs d) k → IsServed d' k)
      → All (IsServedIn d') evs
  unfolding submit_all
  served_later ours [] d d' h f = tt
  served_later ours (ev ∷ evs) d d' h f = (
    f (event_key ev) (submit_all_keeps evs _ (event_key ev) (submit_serves (now ev) ev d h.0.0)),
    served_later ours evs (submit (now ev) none ev d) d' h.1 f,
  )

-- A poll loses no job that it finds, if the writes of the state file succeed: when its events have been
-- submitted, each of their jobs has an active worker, or a record that is over already.
pub poll_serves :
    (now : JobEvent → ℕ) (cfg : Config) (server : Server) (stopping : ℕ → Bool) (c : Client)
    (d : Dispatch) (evs : List JobEvent)
    → (poll server (poller_of cfg) stopping c).0 ≡ ok evs
    → All (IsServedIn now (poll_once now (λ ev. none) cfg server stopping c d).1) evs
unfolding poll_once
poll_serves now cfg server stopping c d evs e = rw e (
    served_later now (poller_of cfg).our_labels evs d (submit_all now (λ ev. none) evs d)
      (poll_offers server (poller_of cfg) stopping c evs e) (λ k h. h))
