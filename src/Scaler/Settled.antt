-- ===== src/Scaler/Settled.antt =====
-- For internal/scaler/job.go: which of the VMs that a worker made have had their deletion confirmed, or
-- refused three times.
pub mod Deletes
pub mod Stages
pub mod Creates
pub mod Runs
use mini_control_action.Prelude.{
  ℕ, zero, suc, ◌+◌, ◌≤◌, ◌≡◌, refl, sym, ◌∙◌, subst, ◌⊎◌, inl, inr, Bool, true, false, Option,
  none, some, List, [], ◌∷◌, Text, text_eq, arith, if◌then◌else◌,
}
use mini_control_action.Scaler.World.{
  Call, saved, create_sent, delete_sent, get_sent, exec_sent, job_query, runners_query, remove_sent,
  jit_sent,
}
use mini_control_action.Scaler.Frame.{Trail, start, more, Quiet}

-- A delete of the VM `id` succeeded.
abbrev pub DeleteOk : Text → List Call → Type 0
DeleteOk id [] = ⊥
DeleteOk id (delete_sent j b ∷ t) = ((j ≡ id) × (b ≡ true)) ⊎ DeleteOk id t
DeleteOk id (_ ∷ t) = DeleteOk id t

-- How many deletes of the VM `id` failed.
abbrev pub failures : Text → List Call → ℕ
failures id [] = 0
failures id (delete_sent j false ∷ t) = if text_eq j id then suc (failures id t) else failures id t
failures id (_ ∷ t) = failures id t

abbrev pub IsSettled : Text → List Call → Type 0
IsSettled id t = DeleteOk id t ⊎ (3 ≤ failures id t)

-- A create was answered with the VM `id`.
abbrev pub WasCreated : Text → List Call → Type 0
WasCreated id [] = ⊥
WasCreated id (create_sent k (some v) ∷ t) = (v ≡ id) ⊎ WasCreated id t
WasCreated id (_ ∷ t) = WasCreated id t

-- Every VM that was made is the VM `current`, is settled, or has no ID.
pub record IsAccounted (current : Text) (t : List Call) : Type 0 where
  pub each : (id : Text) → WasCreated id t → (id ≡ current) ⊎ (id ≡ []) ⊎ IsSettled id t

IsSettled-cons : (id : Text) (c : Call) (t : List Call) → IsSettled id t → IsSettled id (c ∷ t)
IsSettled-cons id (delete_sent j true) t h = ground arith
IsSettled-cons id (delete_sent j false) t h = ground arith
IsSettled-cons id (create_sent k (some v)) t h = h
IsSettled-cons id (create_sent k none) t h = h
IsSettled-cons id (saved r b) t h = h
IsSettled-cons id (get_sent j) t h = h
IsSettled-cons id (exec_sent j c) t h = h
IsSettled-cons id job_query t h = h
IsSettled-cons id runners_query t h = h
IsSettled-cons id (remove_sent j) t h = h
IsSettled-cons id (jit_sent n) t h = h

-- A call that makes no VM.
abbrev pub makes_none : Call → Bool
makes_none (create_sent k (some v)) = false
makes_none _ = true

WasCreated-of_cons :
    (id : Text) (c : Call) (t : List Call)
    → makes_none c ≡ true
    → WasCreated id (c ∷ t)
    → WasCreated id t
WasCreated-of_cons id (create_sent k (some v)) t e h = absurd (cc)
WasCreated-of_cons id (create_sent k none) t e h = h
WasCreated-of_cons id (delete_sent j b) t e h = h
WasCreated-of_cons id (saved r b) t e h = h
WasCreated-of_cons id (get_sent j) t e h = h
WasCreated-of_cons id (exec_sent j c) t e h = h
WasCreated-of_cons id job_query t e h = h
WasCreated-of_cons id runners_query t e h = h
WasCreated-of_cons id (remove_sent j) t e h = h
WasCreated-of_cons id (jit_sent n) t e h = h

pub IsAccounted-cons :
    (current : Text) (c : Call) (t : List Call)
    → makes_none c ≡ true
    → IsAccounted current t
    → IsAccounted current (c ∷ t)
IsAccounted-cons current c t e h = record {
  each = λ id m. kept id (h.each id (WasCreated-of_cons id c t e m));
}
  where
    kept :
        (id : Text)
        → (id ≡ current) ⊎ (id ≡ []) ⊎ IsSettled id t
        → (id ≡ current) ⊎ (id ≡ []) ⊎ IsSettled id (c ∷ t)
    kept id (inl e) = inl e
    kept id (inr (inl e)) = inr (inl e)
    kept id (inr (inr s)) = inr (inr (IsSettled-cons id c t s))

makes_none_of_Quiet : (id : Text) (c : Call) → Quiet id c → makes_none c ≡ true
makes_none_of_Quiet id (create_sent k v) q = absurd q
makes_none_of_Quiet id (delete_sent j b) q = refl
makes_none_of_Quiet id _ q = refl

pub IsAccounted-Trail :
    {current id : Text} {t0 t : List Call}
    → Trail id t0 t
    → IsAccounted current t0
    → IsAccounted current t
IsAccounted-Trail start h = h
IsAccounted-Trail {current} {id} (more {c} {t} q r) h =
    IsAccounted-cons current c t (makes_none_of_Quiet id c q) (IsAccounted-Trail r h)

-- A VM that was just made becomes the current one, if none was current before.
pub IsAccounted-create :
    (k id : Text) (t : List Call) → IsAccounted [] t → IsAccounted id (create_sent k (some id) ∷ t)
IsAccounted-create k id t h = record { each = λ v m. made v m }
  where
    older :
        (v : Text)
        → (v ≡ []) ⊎ (v ≡ []) ⊎ IsSettled v t
        → (v ≡ id) ⊎ (v ≡ []) ⊎ IsSettled v (create_sent k (some id) ∷ t)
    older v (inl e) = inr (inl e)
    older v (inr (inl e)) = inr (inl e)
    older v (inr (inr s)) = inr (inr s)

    made :
        (v : Text)
        → (id ≡ v) ⊎ WasCreated v t
        → (v ≡ id) ⊎ (v ≡ []) ⊎ IsSettled v (create_sent k (some id) ∷ t)
    made v (inl e) = inl (sym e)
    made v (inr m) = older v (h.each v m)

-- The current VM is settled, or has no ID: none is current any more.
pub IsAccounted-settle :
    {current : Text} {t : List Call}
    → IsAccounted current t
    → (current ≡ []) ⊎ IsSettled current t
    → IsAccounted [] t
IsAccounted-settle {current} {t} h s = record { each = λ id m. settle id s (h.each id m) }
  where
    settle :
        (id : Text)
        → (current ≡ []) ⊎ IsSettled current t
        → (id ≡ current) ⊎ (id ≡ []) ⊎ IsSettled id t
        → (id ≡ []) ⊎ (id ≡ []) ⊎ IsSettled id t
    settle id (inl n) (inl e) = inl (e ∙ n)
    settle id (inr s) (inl e) = inr (inr (subst (λ v. IsSettled v t) (sym e) s))
    settle id s (inr (inl e)) = inl e
    settle id s (inr (inr d)) = inr (inr d)
