-- ===== src/Github/Labels.antt =====
-- `LabelsSatisfiable` of internal/githubapp/client.go.
use mini_control_action.Prelude.{
  Bool, ltb, all, All, ◌≡◌, ◌≢◌, ◌↔◌, true, List, [], ◌∷◌, find_any, any-mem, all_iff, Memᴰ, refl,
  Text, text_eq_iff, to_lower,
}
use mini_control_action.Github.{labels_satisfiable, offered}

-- A label of `ours` is the label `l`, but for the case of its letters.
abbrev pub IsOffered : List Text → Text → Type 0
IsOffered ours l = (o : Text) × Memᴰ o ours × (to_lower o ≡ to_lower l)

offered_iff : (ours : List Text) (l : Text) → (offered ours l ≡ true) ↔ IsOffered ours l
unfolding offered
offered_iff ours l = (
  λ h. let (o, m, e) = find_any _ ours h in (o, m, (text_eq_iff _ _).0 e),
  λ t. any-mem _ t.1 ((text_eq_iff _ _).1 t.2),
)

-- Letters of ASCII are those whose case the model folds.
abbrev pub is_ascii : Text → Bool
is_ascii s = all (λ c. ltb c 128) s

-- For labels of ASCII letters: a job's labels can be served exactly when there are some, and each of
-- them is one of ours but for the case of its letters. The job need not ask for `self-hosted`.
pub labels_satisfiable_iff :
    (job ours : List Text)
    → All (λ l. is_ascii l ≡ true) job
    → All (λ l. is_ascii l ≡ true) ours
    → (labels_satisfiable job ours ≡ true)
      ↔ ((job ≢ []) × ((l : Text) → Memᴰ l job → IsOffered ours l))
unfolding labels_satisfiable
labels_satisfiable_iff [] ours a b = (λ h. absurd (cc), λ h. absurd (h.0 refl))
labels_satisfiable_iff (l ∷ job) ours a b =
    let each = all_iff (offered ours) (offered_iff ours) (l ∷ job) in
    (λ h. ((λ e. absurd (cc)), each.0 h), λ h. each.1 h.1)
