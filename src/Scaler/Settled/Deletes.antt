-- ===== src/Scaler/Settled/Deletes.antt =====
-- What `deleteVM` of internal/scaler/job.go achieves.
use mini_control_action.Prelude.{
  ℕ, zero, suc, ◌+◌, ◌≤◌, ◌≡◌, refl, ◌⊎◌, inl, inr, true, false, Bool-cases, Option, some, [], ◌∷◌,
  Text, text_eq_refl, is_empty, arith,
}
use mini_control_action.Errors.{is_ok}
use mini_control_action.Scaler.World.{
  Env, Worker, delete_sent, ◌>>=◌, pure, ask, emit, elapse, get_rec,
}
use mini_control_action.Scaler.Cleanup.{
  delete_call, delete_pause, delete_try, delete_tries, delete_vm,
}
use mini_control_action.Scaler.Settled.{DeleteOk, failures}

module _ (env : Env) where
  -- The worker after a failed delete and the pause.
  paused : Text → Worker → Worker
  unfolding delete_pause
  paused id w =
      (delete_pause env (record w {
        step = w.step + 1;
        clock = w.clock + env.lag w.step;
        trace = delete_sent id false ∷ w.trace;
      })).1

  delete_try-ok :
      (id : Text) (rest : Worker → Option (Unit {0}) × Worker) (w : Worker)
      → is_ok (env.delete_vm w.step id) ≡ true
      → ((delete_try env id rest w).0 ≡ some tt) × DeleteOk id (delete_try env id rest w).1.trace
  unfolding delete_try delete_call ask emit pure ◌>>=◌
  delete_try-ok id rest w e = rw e (refl, inl (refl, refl))

  delete_try-failed :
      (id : Text) (rest : Worker → Option (Unit {0}) × Worker) (w : Worker)
      → is_ok (env.delete_vm w.step id) ≡ false
      → delete_try env id rest w ≡ rest (paused id w)
  unfolding delete_try delete_call delete_pause paused ask emit elapse pure ◌>>=◌
  delete_try-failed id rest w e = elim (Bool-cases (env.slept (w.step + 1))) [
    | inl s ↦ ground arith
    | inr s ↦ ground arith
  ]

  trace-paused : (id : Text) (w : Worker) → (paused id w).trace ≡ delete_sent id false ∷ w.trace
  unfolding paused delete_pause ask elapse pure ◌>>=◌
  trace-paused id w = elim (Bool-cases (env.slept (w.step + 1))) [
    | inl s ↦ ground arith
    | inr s ↦ ground arith
  ]

  delete_tries-settle :
      (tries : ℕ) (id : Text) (w : Worker)
      → let (r, w') = delete_tries env tries id w in
        (r ≡ some tt)
        × (DeleteOk id w'.trace ⊎ (tries + failures id w.trace ≤ failures id w'.trace))
  unfolding delete_tries pure
  delete_tries-settle zero id w = (refl, inr (omega arith))
  delete_tries-settle (suc tries) id w = elim (Bool-cases (is_ok (env.delete_vm w.step id))) [
    | inl e ↦ let (r, d) = delete_try-ok id (delete_tries env tries id) w e in (r, inl d)
    | inr e ↦ rw (delete_try-failed id (delete_tries env tries id) w e) (
        ground
          (arith, delete_tries-settle tries id (paused id w), trace-paused id w, text_eq_refl id))
  ]

  -- `deleteVM` always returns; then the record has no VM, or a delete of its VM has succeeded, or three
  -- more deletes of it have failed.
  pub delete_vm-settle :
      (w : Worker)
      → let (r, w') = delete_vm env w in
        (r ≡ some tt)
        × ((w.rec.vm_id ≡ [])
            ⊎ DeleteOk w.rec.vm_id w'.trace
            ⊎ (3 + failures w.rec.vm_id w.trace ≤ failures w.rec.vm_id w'.trace))
  unfolding delete_vm get_rec pure ◌>>=◌
  delete_vm-settle w = elim (Bool-cases (is_empty w.rec.vm_id)) [
    | inl e ↦ rw e (refl, inl (nothing w.rec.vm_id e))
    | inr e ↦ rw e (let (r, d) = delete_tries-settle 3 w.rec.vm_id w in (r, inr d))
  ]
    where
      nothing : (s : Text) → is_empty s ≡ true → s ≡ []
      nothing [] h = refl
      nothing (c ∷ s) h = absurd (cc)
