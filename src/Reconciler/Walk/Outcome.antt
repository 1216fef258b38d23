-- ===== src/Reconciler/Walk/Outcome.antt =====
-- What the walk over the records in internal/reconciler/reconciler.go does to each of them.
use mini_control_action.Prelude.{
  ℕ, sym, ◌≡◌, refl, subst, ◌∙◌, Bool, true, false, not, ◌&&◌, ◌||◌, Option, none, some, List, [],
  ◌∷◌, Text, arith, Bool-cases, inl, inr, if◌then◌else◌,
}
use mini_control_action.State.{complete, terminal, Record, Key, key_of, key_eq, key_eq_refl}
use mini_control_action.State.Store.{get, list, newer}
use mini_control_action.State.Store.Map.{lookup, IsMap}
use mini_control_action.State.Store.Updates.{get-upsert, get-delete}
use mini_control_action.State.Store.Sorting.{lookup-sort_by, sort_by-IsMap}
use mini_control_action.Scaler.Dispatch.{is_active, spawn}
use mini_control_action.Reconciler.Walk.{
  Walk, Surroundings, settles, is_expired, has_live_vm, expire, finish_record, redelete, settle,
  adopt, walk_record, walk_records, walk,
}
use mini_control_action.Reconciler.Walk.Expected.{
  IsQuiet, outcome, worked, left, served, outcome-left, worked-served,
}

module _ (now : ℕ) (live : List Text) (env : Surroundings) where
  module _ (k : Key) (quiet : IsQuiet env k) where
    -- The record and the worker at `k` are the same before and after.
    abbrev Same : Walk → Walk → Type 0
    Same w w' =
        (get w'.dispatch.store k ≡ get w.dispatch.store k)
        × (is_active w'.dispatch k ≡ is_active w.dispatch k)

    Same-trans : (u v w : Walk) → Same u v → Same v w → Same u w
    Same-trans u v w h l = (l.0 ∙ h.0, l.1 ∙ h.1)

    expire-other :
        (r : Record) (w : Walk) → key_eq (key_of r) k ≡ false → Same w (expire now live env r w)
    unfolding is_active
    expire-other r w h = (get-delete (env.fault r) (key_of r) w.dispatch.store k ∙ rw h refl, refl)

    finish_record-other :
        (r : Record) (w : Walk)
        → key_eq (key_of r) k ≡ false
        → Same w (finish_record now live env r w)
    unfolding is_active
    finish_record-other r w h = (
      get-upsert (env.clock r) (env.fault r) (record r { state = complete }) w.dispatch.store k
          ∙ rw h refl,
      refl,
    )

    redelete-other :
        (r : Record) (w : Walk) → key_eq (key_of r) k ≡ false → Same w (redelete now live env r w)
    unfolding redelete
    redelete-other r w h =
        let w' : Walk = record {
          dispatch = env.during r w.dispatch;
          deletes = r.vm_id ∷ w.deletes;
        } in
        let same : Same w w' = (quiet.during_get r w.dispatch, quiet.during_active r w.dispatch) in
        elim (Bool-cases (env.deleted r)) [
          | inl e ↦
              rw e (
                Same-trans w w' (finish_record now live env r w') same (finish_record-other r w' h))
          | inr e ↦ rw e same
        ]

    settle-other :
        (r : Record) (w : Walk) → key_eq (key_of r) k ≡ false → Same w (settle now live env r w)
    unfolding settle
    settle-other r w h = elim (Bool-cases (is_active w.dispatch (key_of r))) [
      | inl e ↦ rw e (refl, refl)
      | inr e ↦ rw e (elim (Bool-cases (has_live_vm now live env r)) [
        | inl l ↦ rw l (redelete-other r w h)
        | inr l ↦ rw l (finish_record-other r w h)
      ])
    ]

    adopt-other :
        (r : Record) (w : Walk) → key_eq (key_of r) k ≡ false → Same w (adopt now live env r w)
    unfolding adopt spawn is_active
    adopt-other r w h = elim (Bool-cases (is_active w.dispatch (key_of r))) [
      | inl e ↦ rw e (refl, refl)
      | inr e ↦ rw e (refl, rw h refl)
    ]

    walk_record-other :
        (r : Record) (w : Walk)
        → key_eq (key_of r) k ≡ false
        → Same w (walk_record now live env r w)
    unfolding walk_record
    walk_record-other r w h =
        let w' : Walk = record w { dispatch = env.before r w.dispatch } in
        let same : Same w w' = (quiet.before_get r w.dispatch, quiet.before_active r w.dispatch) in
        elim (Bool-cases (terminal r.state)) [
          | inl t ↦ rw t (elim (Bool-cases (is_expired now r)) [
            | inl x ↦ rw x (Same-trans w w' (expire now live env r w') same (expire-other r w' h))
            | inr x ↦ rw x same
          ])
          | inr t ↦ rw t (elim (Bool-cases (settles r.state)) [
            | inl x ↦ rw x (Same-trans w w' (settle now live env r w') same (settle-other r w' h))
            | inr x ↦ rw x (Same-trans w w' (adopt now live env r w') same (adopt-other r w' h))
          ])
        ]

    walk_records-none :
        (rs : List Record) (w : Walk) → lookup rs k ≡ none → Same w (walk_records now live env rs w)
    unfolding walk_records lookup
    walk_records-none [] w h = (refl, refl)
    walk_records-none (r ∷ rs) w h = elim (Bool-cases (key_eq (key_of r) k)) [
      | inl e ↦ absurd (ground arith)
      | inr e ↦
          let w' = walk_record now live env r w in
          Same-trans w w' (walk_records now live env rs w') (walk_record-other r w e)
            (walk_records-none rs w' (ground arith))
    ]

  module _ (r : Record) (quiet : IsQuiet env (key_of r)) where
    -- The walk leaves the record `o`, and a worker or none.
    abbrev Leaves : Option Record → Bool → Walk → Type 0
    Leaves o a w = (get w.dispatch.store (key_of r) ≡ o) × (is_active w.dispatch (key_of r) ≡ a)

    expire-own :
        (a : Bool) (w : Walk) → Leaves (some r) a w → Leaves none a (expire now live env r w)
    unfolding is_active
    expire-own a w h = (
      get-delete (env.fault r) (key_of r) w.dispatch.store (key_of r)
          ∙ rw (key_eq_refl (key_of r)) refl,
      h.1,
    )

    abbrev finished : Record
    finished = record r { state = complete; updated_at = env.clock r }

    finish_record-own :
        (a : Bool) (w : Walk)
        → Leaves (some r) a w
        → Leaves (some finished) a (finish_record now live env r w)
    unfolding is_active
    finish_record-own a w h = (
      get-upsert (env.clock r) (env.fault r) (record r { state = complete }) w.dispatch.store
            (key_of r)
          ∙ rw (key_eq_refl (key_of r)) refl,
      h.1,
    )

    redelete-own :
        (a : Bool) (w : Walk)
        → Leaves (some r) a w
        → Leaves
            (if not (env.deleted r) then some r else some finished)
            a
            (redelete now live env r w)
    unfolding redelete
    redelete-own a w h =
        let w' : Walk = record {
          dispatch = env.during r w.dispatch;
          deletes = r.vm_id ∷ w.deletes;
        } in
        let same : Leaves (some r) a w' =
          (quiet.during_get r w.dispatch ∙ h.0, quiet.during_active r w.dispatch ∙ h.1) in
        elim (Bool-cases (env.deleted r)) [
          | inl e ↦ rw e (finish_record-own a w' same)
          | inr e ↦ rw e same
        ]

    settle-own :
        (a : Bool) (w : Walk)
        → Leaves (some r) a w
        → Leaves
            (if a || (has_live_vm now live env r && not (env.deleted r))
              then some r
              else some finished)
            a
            (settle now live env r w)
    unfolding settle
    settle-own true w h = rw (h.1) h
    settle-own false w h = rw (h.1) (elim (Bool-cases (has_live_vm now live env r)) [
      | inl l ↦ rw l (redelete-own false w h)
      | inr l ↦ rw l (finish_record-own false w h)
    ])

    adopt-own :
        (a : Bool) (w : Walk) → Leaves (some r) a w → Leaves (some r) true (adopt now live env r w)
    unfolding adopt spawn is_active
    adopt-own true w h = rw (h.1) h
    adopt-own false w h = rw (h.1) (h.0, ground (arith, key_eq_refl (key_of r)))

    walk_record-own :
        (a : Bool) (w : Walk)
        → Leaves (some r) a w
        → Leaves (left now live env a r) (served now live env a r) (walk_record now live env r w)
    unfolding walk_record
    walk_record-own a w h =
        let w' : Walk = record w { dispatch = env.before r w.dispatch } in
        let same : Leaves (some r) a w' =
          (quiet.before_get r w.dispatch ∙ h.0, quiet.before_active r w.dispatch ∙ h.1) in
        elim (Bool-cases (terminal r.state)) [
          | inl t ↦ rw t (elim (Bool-cases (is_expired now r)) [
            | inl x ↦ rw x (expire-own a w' same)
            | inr x ↦ rw x same
          ])
          | inr t ↦ rw t (elim (Bool-cases (settles r.state)) [
            | inl x ↦ rw x (settle-own a w' same)
            | inr x ↦ rw x (adopt-own a w' same)
          ])
        ]

    walk_records-own :
        (a : Bool) (rs : List Record) (w : Walk)
        → IsMap rs
        → lookup rs (key_of r) ≡ some r
        → Leaves (some r) a w
        → Leaves (left now live env a r) (served now live env a r) (walk_records now live env rs w)
    unfolding walk_records lookup
    walk_records-own a [] w m l h = absurd (cc)
    walk_records-own a (x ∷ rs) w m l h = elim (Bool-cases (key_eq (key_of x) (key_of r))) [
      | inl e ↦
          let same : x ≡ r = ground arith in
          let own : Leaves (left now live env a r) (served now live env a r)
              (walk_record now live env x w) =
            rw same (walk_record-own a w h) in
          let gone : lookup rs (key_of r) ≡ none =
            subst (λ y. lookup rs (key_of y) ≡ none) same m.0 in
          let rest = walk_records-none (key_of r) quiet rs (walk_record now live env x w) gone in
          (rest.0 ∙ own.0, rest.1 ∙ own.1)
      | inr e ↦
          let rest = walk_record-other (key_of r) quiet x w e in
          walk_records-own a rs (walk_record now live env x w) m.1 (ground arith)
            (rest.0 ∙ h.0, rest.1 ∙ h.1)
    ]

-- What a sweep's walk makes of a record `r` of the store, when the other workers leave `r` alone and
-- start and end no worker of it. A record that is complete or failed is removed once it is older than 24
-- hours, and kept before. A record that is deleting or whose job is done becomes complete, unless it has
-- a worker or its VM is still listed and the repeated delete fails. Any other record stays and has a
-- worker afterwards; no worker is lost.
pub walk-outcome :
    (now : ℕ) (live : List Text) (env : Surroundings) (w : Walk) (r : Record)
    → IsMap w.dispatch.store.recs
    → IsQuiet env (key_of r)
    → get w.dispatch.store (key_of r) ≡ some r
    → (get (walk now live env w).dispatch.store (key_of r)
        ≡ outcome now live env (is_active w.dispatch (key_of r)) r)
      × (is_active (walk now live env w).dispatch (key_of r)
          ≡ worked now live env (is_active w.dispatch (key_of r)) r)
unfolding walk list get
walk-outcome now live env w r m quiet h =
    let active = is_active w.dispatch (key_of r) in
    let own =
      walk_records-own now live env r quiet active (list w.dispatch.store) w
        (sort_by-IsMap newer w.dispatch.store.recs m)
        (lookup-sort_by newer w.dispatch.store.recs (key_of r) m ∙ h) (h, refl) in
    (
      own.0 ∙ sym (outcome-left now live env r.state active r),
      own.1 ∙ sym (worked-served now live env r.state active),
    )
