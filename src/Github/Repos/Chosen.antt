-- ===== src/Github/Repos/Chosen.antt =====
-- Which repositories `poll` of internal/githubapp/poller.go looks at.
use mini_control_action.Prelude.{
  ℕ, zero, suc, ◌<◌, ◌+◌, ◌≤◌, ◌≡◌, refl, ap, inl, inr, Bool, true, false, List, [], ◌∷◌, Text, pos,
  ltb, arith, Memᴰ, Bool-cases, keep_if, take, not, leb, if◌then◌else◌,
}
use mini_control_action.Github.Api.{RepoInfo}
use mini_control_action.Github.Repos.{choose}

-- Sorted, the most recently pushed first.
abbrev pub IsNewestFirst : List RepoInfo → Type 0
IsNewestFirst [] = Unit {0}
IsNewestFirst (r ∷ rs) = ((q : RepoInfo) → Memᴰ q rs → q.pushed_at ≤ r.pushed_at) × IsNewestFirst rs

abbrev pub is_active : ℕ → RepoInfo → Bool
is_active cutoff r = not (ltb r.pushed_at cutoff)

abbrev pub names : List RepoInfo → List Text
names [] = []
names (r ∷ rs) = r.full_name ∷ names rs

keep_if-none :
    (p : RepoInfo → Bool) (rs : List RepoInfo)
    → ((q : RepoInfo) → Memᴰ q rs → p q ≡ false)
    → keep_if p rs ≡ []
keep_if-none p [] h = refl
keep_if-none p (r ∷ rs) h = rw (h r (Memᴰ.head refl)) (keep_if-none p rs (λ q m. h q (Memᴰ.tail m)))

full : (m n : ℕ) → m ≤ n → leb m n ≡ true
full m n h = ground arith

room : (m n : ℕ) → n < m → leb m n ≡ false
room m n h = ground arith

choose_lem :
    (cutoff total chosen most : ℕ) (rs : List RepoInfo)
    → total ≡ chosen + suc most
    → IsNewestFirst rs
    → choose cutoff (pos total) chosen rs ≡ names (take (suc most) (keep_if (is_active cutoff) rs))
unfolding choose
choose_lem cutoff total chosen most [] e h = refl
choose_lem cutoff total chosen most (r ∷ rs) e h = elim (Bool-cases (ltb r.pushed_at cutoff)) [
  | inl old ↦
      rw (old, keep_if-none (is_active cutoff) rs (λ q m. let k = h.0 q m in ground arith)) refl
  | inr young ↦ rw young (kept most e (λ k q. choose_lem cutoff total (chosen + 1) k rs q h.1))
]
  where
    kept :
        (most : ℕ)
        → total ≡ chosen + suc most
        → ((k : ℕ)
            → total ≡ chosen + 1 + suc k
            → choose cutoff (pos total) (chosen + 1) rs
              ≡ names (take (suc k) (keep_if (is_active cutoff) rs)))
        → (if leb total (chosen + 1)
            then r.full_name ∷ []
            else r.full_name ∷ choose cutoff (pos total) (chosen + 1) rs)
          ≡ r.full_name ∷ names (take most (keep_if (is_active cutoff) rs))
    kept zero e later = rw (full total (chosen + 1) (omega arith)) refl
    kept (suc k) e later =
        rw (room total (chosen + 1) (omega arith))
          (ap (λ t. r.full_name ∷ t) (later k (omega arith)))

-- From a list that has the most recently pushed first, and with a positive cap: `poll` looks at exactly
-- the repositories that were pushed at the cutoff or later, in that order, up to the cap.
pub choose_newest :
    (cutoff most : ℕ) (rs : List RepoInfo)
    → IsNewestFirst rs
    → choose cutoff (pos (suc most)) 0 rs ≡ names (take (suc most) (keep_if (is_active cutoff) rs))
choose_newest cutoff most rs h = choose_lem cutoff (suc most) 0 most rs (omega arith) h
