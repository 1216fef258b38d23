-- ===== src/Reconciler/Walk/Deletes.antt =====
-- Which VMs the walk over the records in internal/reconciler/reconciler.go deletes.
use mini_control_action.Prelude.{
  ℕ, ◌≡◌, ◌≢◌, arith, false, find_any, text_eq, text_eq_iff, is_empty, refl, sym, subst, ◌⊎◌, inl,
  inr, true, List, [], ◌∷◌, Memᴰ, Text, Bool-cases,
}
use mini_control_action.State.{JobState, deleting, job_done, terminal, Record, key_of}
use mini_control_action.State.Store.{list}
use mini_control_action.Scaler.Dispatch.{is_active}
use mini_control_action.Reconciler.Walk.{
  Walk, Surroundings, settles, is_expired, has_live_vm, redelete, settle, adopt, walk_record,
  walk_records, walk,
}

module _ (live : List Text) where
  -- The job of the record is over, and its VM is still listed.
  abbrev pub IsDue : Record → Type 0
  IsDue r = ((r.state ≡ deleting) ⊎ (r.state ≡ job_done)) × (r.vm_id ≢ []) × Memᴰ r.vm_id live

  -- The VM of a record of `rs` that is due.
  abbrev pub IsDueIn : List Record → Text → Type 0
  IsDueIn rs id = (r : Record) × Memᴰ r rs × (r.vm_id ≡ id) × IsDue r

settled_state : (st : JobState) → settles st ≡ true → (st ≡ deleting) ⊎ (st ≡ job_done)
settled_state deleting h = inl refl
settled_state job_done h = inr refl
settled_state _ h = absurd (cc)

filled : (s : Text) → is_empty s ≡ false → s ≢ []
filled [] h = absurd (cc)
filled (c ∷ s) h = λ e. absurd (cc)

module _ (now : ℕ) (live : List Text) (env : Surroundings) where
  due : (r : Record) → settles r.state ≡ true → has_live_vm now live env r ≡ true → IsDue live r
  unfolding has_live_vm
  due r s l =
      let (id, m, e) = find_any (text_eq r.vm_id) live (ground arith) in
      (
        settled_state r.state s,
        filled r.vm_id (ground arith),
        subst (λ x. Memᴰ x live) (sym ((text_eq_iff r.vm_id id).0 e)) m,
      )

  abbrev Sends : Record → Walk → Walk → Type 0
  Sends r w w' = (w'.deletes ≡ w.deletes) ⊎ ((w'.deletes ≡ r.vm_id ∷ w.deletes) × IsDue live r)

  redelete-deletes :
      (r : Record) (w : Walk) → (redelete now live env r w).deletes ≡ r.vm_id ∷ w.deletes
  unfolding redelete
  redelete-deletes r w = elim (Bool-cases (env.deleted r)) [ inl e ↦ rw e refl | inr e ↦ rw e refl ]

  settle-Sends :
      (r : Record) (w : Walk) → settles r.state ≡ true → Sends r w (settle now live env r w)
  unfolding settle
  settle-Sends r w s = elim (Bool-cases (is_active w.dispatch (key_of r))) [
    | inl e ↦ rw e (inl refl)
    | inr e ↦ rw e (elim (Bool-cases (has_live_vm now live env r)) [
      | inl l ↦ inr (rw l (redelete-deletes r w), due r s l)
      | inr l ↦ rw l (inl refl)
    ])
  ]

  walk_record-Sends : (r : Record) (w : Walk) → Sends r w (walk_record now live env r w)
  unfolding walk_record adopt
  walk_record-Sends r w =
      let w' : Walk = record w { dispatch = env.before r w.dispatch } in
      elim (Bool-cases (terminal r.state)) [
        | inl t ↦
            inl (
              rw t (elim (Bool-cases (is_expired now r)) [ inl x ↦ rw x refl | inr x ↦ rw x refl ]))
        | inr t ↦ elim (Bool-cases (settles r.state)) [
          | inl x ↦
              let same : walk_record now live env r w ≡ settle now live env r w' =
                rw t (rw x refl) in
              subst (λ o. Sends r w o) (sym same) (settle-Sends r w' x)
          | inr x ↦ inl (
              rw t (
                rw x (elim (Bool-cases (is_active w'.dispatch (key_of r))) [
                  | inl a ↦ rw a refl
                  | inr a ↦ rw a refl
                ])))
        ]
      ]

  sent_before :
      (id : Text) (r : Record) (rs : List Record) (w w' : Walk)
      → Sends r w w'
      → Memᴰ id w'.deletes
      → Memᴰ id w.deletes ⊎ IsDueIn live (r ∷ rs) id
  sent_before id r rs w w' (inl e) m = inl (subst (λ xs. Memᴰ id xs) e m)
  sent_before id r rs w w' (inr (e, d)) m = first (subst (λ xs. Memᴰ id xs) e m)
    where
      first : Memᴰ id (r.vm_id ∷ w.deletes) → Memᴰ id w.deletes ⊎ IsDueIn live (r ∷ rs) id
      first (Memᴰ.head p) = inr (r, Memᴰ.head refl, sym p, d)
      first (Memᴰ.tail n) = inl n

  walk_records-deletes :
      (id : Text) (rs : List Record) (w : Walk)
      → Memᴰ id (walk_records now live env rs w).deletes
      → Memᴰ id w.deletes ⊎ IsDueIn live rs id
  unfolding walk_records
  walk_records-deletes id [] w m = inl m
  walk_records-deletes id (r ∷ rs) w m =
      back (walk_records-deletes id rs (walk_record now live env r w) m)
    where
      back :
          Memᴰ id (walk_record now live env r w).deletes ⊎ IsDueIn live rs id
          → Memᴰ id w.deletes ⊎ IsDueIn live (r ∷ rs) id
      back (inl n) = sent_before id r rs w (walk_record now live env r w) (walk_record-Sends r w) n
      back (inr (q, n, same, due)) = inr (q, Memᴰ.tail n, same, due)

-- A sweep's walk sends a delete only for the VM of a record that the store held at its start as
-- deleting or with its job done, and only if that VM was listed, whatever the other workers do
-- meanwhile. In particular it sends none for the VM of a job that waits, boots or runs.
pub walk-deletes :
    (now : ℕ) (live : List Text) (env : Surroundings) (w : Walk) (id : Text)
    → Memᴰ id (walk now live env w).deletes
    → Memᴰ id w.deletes ⊎ IsDueIn live (list w.dispatch.store) id
unfolding walk
walk-deletes now live env w id m = walk_records-deletes now live env id (list w.dispatch.store) w m
