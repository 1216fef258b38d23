-- ===== src/Scaler/Dispatch/Workers.antt =====
-- The active workers of internal/scaler/scaler.go over any sequence of its operations.
use mini_control_action.Prelude.{
  ℕ, ◌+◌, ◌≤◌, ◌≡◌, refl, sym, ap, ◌∙◌, Bool, true, false, ◌||◌, Option, none, some, List, [], ◌∷◌,
  ◌++◌, any, keep_if, length, ltb, Memᴰ, arith, Bool-cases, inl, inr, if◌then◌else◌, is_lit,
}
use mini_control_action.State.{terminal, Record, Key, key_of, key_eq, key_eq_refl}
use mini_control_action.State.Store.{Fault, list}
use mini_control_action.Github.{JobEvent}
use mini_control_action.Scaler.Dispatch.{
  Lane, Dispatch, owns_key, is_active, spawn, send, deliver, event_key, admit, on_queued,
  on_completed, submit, resume_all, resume, finish, spawn_if, channel_size,
}

-- No two lanes have the same key, and no channel holds more than its size.
abbrev pub IsSound : List Lane → Type 0
IsSound [] = Unit {0}
IsSound (l ∷ lanes) =
    (any (owns_key l.key) lanes ≡ false) × (length l.events ≤ channel_size) × IsSound lanes

spawn-IsSound : (r : Record) (d : Dispatch) → IsSound d.lanes → IsSound (spawn r d).lanes
unfolding spawn is_active
spawn-IsSound r d h = elim (Bool-cases (any (owns_key (key_of r)) d.lanes)) [
  | inl e ↦ rw e h
  | inr e ↦ rw e (e, omega arith, h)
]

length-snoc : (ev : JobEvent) (es : List JobEvent) → length (es ++ ev ∷ []) ≡ length es + 1
length-snoc ev [] = refl
length-snoc ev (e ∷ es) = ground (arith, length-snoc ev es)

send_lem :
    (ev : JobEvent) (l : Lane)
    → length l.events ≤ channel_size
    → ((send ev l).key ≡ l.key) × (length (send ev l).events ≤ channel_size)
unfolding send
send_lem ev l h = elim (Bool-cases (ltb (length l.events) channel_size)) [
  | inl e ↦ rw e (refl, ground (arith, length-snoc ev l.events))
  | inr e ↦ rw e (refl, h)
]

send-key : (ev : JobEvent) (l : Lane) → (send ev l).key ≡ l.key
unfolding send
send-key ev l = ground arith

pub any-deliver :
    (j k : Key) (ev : JobEvent) (lanes : List Lane)
    → any (owns_key j) (deliver k ev lanes) ≡ any (owns_key j) lanes
unfolding deliver
any-deliver j k ev [] = refl
any-deliver j k ev (l ∷ lanes) = elim (Bool-cases (key_eq l.key k)) [
  | inl e ↦ rw e (ap (λ i. key_eq i j || any (owns_key j) lanes) (send-key ev l))
  | inr e ↦ rw e (ap (λ b. key_eq l.key j || b) (any-deliver j k ev lanes))
]

deliver-IsSound :
    (k : Key) (ev : JobEvent) (lanes : List Lane) → IsSound lanes → IsSound (deliver k ev lanes)
unfolding deliver
deliver-IsSound k ev [] h = tt
deliver-IsSound k ev (l ∷ lanes) h = elim (Bool-cases (key_eq l.key k)) [
  | inl e ↦
      rw e (let s = send_lem ev l h.1 in (ap (λ i. any (owns_key i) lanes) s.0 ∙ h.0, s.1, h.2))
  | inr e ↦ rw e (any-deliver l.key k ev lanes ∙ h.0, h.1, deliver-IsSound k ev lanes h.2)
]

any-keep_if :
    {A : Type 0} (p q : A → Bool) (xs : List A) → any p xs ≡ false → any p (keep_if q xs) ≡ false
any-keep_if p q [] h = refl
any-keep_if p q (x ∷ xs) h = ground (arith, any-keep_if p q xs)

kept_if :
    (b : Bool) (l : Lane) (lanes : List Lane)
    → IsSound (l ∷ lanes)
    → IsSound (if b then l ∷ lanes else lanes)
kept_if true l lanes h = h
kept_if false l lanes h = h.2

keep_if-IsSound : (q : Lane → Bool) (lanes : List Lane) → IsSound lanes → IsSound (keep_if q lanes)
keep_if-IsSound q [] h = tt
keep_if-IsSound q (l ∷ lanes) h =
    kept_if (q l) l (keep_if q lanes)
      (any-keep_if (owns_key l.key) q lanes h.0, h.1, keep_if-IsSound q lanes h.2)

spawn_unless-IsSound :
    (b : Bool) (r : Record) (d : Dispatch)
    → IsSound d.lanes
    → IsSound (if b then d else spawn r d).lanes
spawn_unless-IsSound true r d h = h
spawn_unless-IsSound false r d h = spawn-IsSound r d h

spawn_if-IsSound :
    (b : Bool) (r : Record) (d : Dispatch) → IsSound d.lanes → IsSound (spawn_if b r d).lanes
spawn_if-IsSound true r d h = spawn-IsSound r d h
spawn_if-IsSound false r d h = h

on_queued-IsSound :
    (now : ℕ) (fault : Option Fault) (ev : JobEvent) (o : Option Record) (d : Dispatch)
    → IsSound d.lanes
    → IsSound (on_queued now fault ev o d).lanes
unfolding on_queued admit
on_queued-IsSound now fault ev none d h = spawn_if-IsSound _ _ _ h
on_queued-IsSound now fault ev (some r) d h = spawn_unless-IsSound (terminal r.state) r d h

on_completed-IsSound :
    (o : Option Record) (d : Dispatch) → IsSound d.lanes → IsSound (on_completed o d).lanes
unfolding on_completed
on_completed-IsSound none d h = h
on_completed-IsSound (some r) d h = spawn_unless-IsSound (terminal r.state) r d h

if-IsSound :
    (b : Bool) (c d : Dispatch)
    → IsSound c.lanes
    → IsSound d.lanes
    → IsSound (if b then c else d).lanes
if-IsSound true c d h k = h
if-IsSound false c d h k = k

submit-IsSound :
    (now : ℕ) (fault : Option Fault) (ev : JobEvent) (d : Dispatch)
    → IsSound d.lanes
    → IsSound (submit now fault ev d).lanes
unfolding submit
submit-IsSound now fault ev d h = if-IsSound (is_lit ev.action "waiting") _ _ h (
    if-IsSound (is_active d (event_key ev)) _ _ (deliver-IsSound (event_key ev) ev d.lanes h) (
      if-IsSound (is_lit ev.action "queued") _ _ (on_queued-IsSound now fault ev _ d h)
        (if-IsSound (is_lit ev.action "completed") _ _ (on_completed-IsSound _ d h) h)))

resume_all-IsSound :
    (rs : List Record) (d : Dispatch) → IsSound d.lanes → IsSound (resume_all rs d).lanes
unfolding resume_all
resume_all-IsSound [] d h = h
resume_all-IsSound (r ∷ rs) d h =
    resume_all-IsSound rs _ (spawn_unless-IsSound (terminal r.state) r d h)

-- What happens to the map of active workers: an event, a start of the service, a record that the
-- reconciler takes up, the end of a worker.
pub data Happening : Type 0 where
  submitted : ℕ → Option Fault → JobEvent → Happening
  resumed : Happening
  adopted : Record → Happening
  finished : Key → Happening

abbrev pub happen : Happening → Dispatch → Dispatch
happen (submitted now fault ev) d = submit now fault ev d
happen resumed d = resume d
happen (adopted r) d = spawn r d
happen (finished k) d = finish k d

abbrev pub happen_all : List Happening → Dispatch → Dispatch
happen_all [] d = d
happen_all (x ∷ xs) d = happen_all xs (happen x d)

happen-IsSound : (x : Happening) (d : Dispatch) → IsSound d.lanes → IsSound (happen x d).lanes
unfolding resume finish
happen-IsSound (submitted now fault ev) d h = submit-IsSound now fault ev d h
happen-IsSound resumed d h = resume_all-IsSound (list d.store) d h
happen-IsSound (adopted r) d h = spawn-IsSound r d h
happen-IsSound (finished k) d h = keep_if-IsSound _ d.lanes h

-- Whatever events arrive, restarts, adoptions and ends of workers happen, in any order: there is at
-- most one active worker for each job attempt, and no channel holds more than eight events. (The
-- workers it starts with are such, as none are.)
pub one_worker_per_key :
    (xs : List Happening) (d : Dispatch) → IsSound d.lanes → IsSound (happen_all xs d).lanes
one_worker_per_key [] d h = h
one_worker_per_key (x ∷ xs) d h = one_worker_per_key xs (happen x d) (happen-IsSound x d h)

pub spawn_keeps :
    (r : Record) (k : Key) (d : Dispatch) → is_active d k ≡ true → is_active (spawn r d) k ≡ true
unfolding spawn is_active
spawn_keeps r k d h = ground arith

pub spawn-is_active : (r : Record) (d : Dispatch) → is_active (spawn r d) (key_of r) ≡ true
unfolding spawn is_active
spawn-is_active r d = ground (arith, key_eq_refl (key_of r))

spawn_unless_keeps :
    (b : Bool) (r : Record) (k : Key) (d : Dispatch)
    → is_active d k ≡ true
    → is_active (if b then d else spawn r d) k ≡ true
spawn_unless_keeps true r k d h = h
spawn_unless_keeps false r k d h = spawn_keeps r k d h

resume_all_keeps :
    (rs : List Record) (k : Key) (d : Dispatch)
    → is_active d k ≡ true
    → is_active (resume_all rs d) k ≡ true
unfolding resume_all
resume_all_keeps [] k d h = h
resume_all_keeps (r ∷ rs) k d h =
    resume_all_keeps rs k _ (spawn_unless_keeps (terminal r.state) r k d h)

resume_all-is_active :
    (rs : List Record) (r : Record) (d : Dispatch)
    → Memᴰ r rs
    → terminal r.state ≡ false
    → is_active (resume_all rs d) (key_of r) ≡ true
unfolding resume_all
resume_all-is_active (q ∷ rs) r d (Memᴰ.head e) t =
    resume_all_keeps rs (key_of r) _
      (rw (ap (λ (x : Record). terminal x.state) (sym e) ∙ t, e) (spawn-is_active q d))
resume_all-is_active (q ∷ rs) r d (Memᴰ.tail m) t = resume_all-is_active rs r _ m t
resume_all-is_active [] r d m t = elim m [ ]

-- After `Resume`, every record of the store that is not terminal has an active worker.
pub resume_adopts_all :
    (d : Dispatch) (r : Record)
    → Memᴰ r (list d.store)
    → terminal r.state ≡ false
    → is_active (resume d) (key_of r) ≡ true
unfolding resume
resume_adopts_all d r m t = resume_all-is_active (list d.store) r d m t
