-- ===== src/Wiring/DryRun.antt =====
-- `runDryRun` of cmd/minicontrol-runner/main.go, without what it prints: the configured SKU is offered,
-- and the token can list what the scope needs.
use mini_control_action.Prelude.{
  ℕ, ◌≡◌, ◌↔◌, ◌⊎◌, refl, subst, Bool, true, false, List, [], ◌∷◌, any, find_any, any-mem, Memᴰ,
  Text, text_eq, text_eq_iff, is_lit, inl, inr, arith, if◌then◌else◌,
}
use mini_control_action.Errors.{Result, ok, err}
use mini_control_action.Config.{Config}
use mini_control_action.Minicontrol.{Sku}
use mini_control_action.Github.{Runner}
use mini_control_action.Github.Api.{RepoInfo}

-- The answers to the three listings.
pub record Answers : Type 0 where
  pub skus : Result (List Sku)
  pub repos : Result (List RepoInfo)
  pub runners : Result (List Runner)

abbrev pub offers : Text → List Sku → Bool
offers id = any (λ (s : Sku). text_eq s.id id)

-- A token that sees no repository does not pass.
abbrev check_repos : Result (List RepoInfo) → ℕ
check_repos (err e) = 1
check_repos (ok []) = 1
check_repos (ok (r ∷ repos)) = 0

abbrev check_runners : Result (List Runner) → ℕ
check_runners (err e) = 1
check_runners (ok runners) = 0

unfoldable pub check_github : Config → Answers → ℕ
check_github cfg a =
    if is_lit cfg.github.scope "all" then check_repos a.repos else check_runners a.runners

abbrev pub check_skus : Config → Answers → Result (List Sku) → ℕ
check_skus cfg a (err e) = 1
check_skus cfg a (ok skus) = if offers cfg.minicontrol.sku skus then check_github cfg a else 1

-- `runDryRun`: its exit code. That the newest runner cannot be resolved is no failure.
unfoldable pub dry_run : Config → Answers → ℕ
unfolding check_github
dry_run cfg a = check_skus cfg a a.skus

-- The listing has an SKU of the configured ID.
abbrev pub IsOffered : Config → Result (List Sku) → Type 0
IsOffered cfg r =
    (skus : List Sku) × (r ≡ ok skus) × ((s : Sku) × Memᴰ s skus × (s.id ≡ cfg.minicontrol.sku))

-- What GitHub must answer for the scope.
abbrev pub IsUsable : Config → Answers → Type 0
IsUsable cfg a =
    ((is_lit cfg.github.scope "all" ≡ true)
      × ((r : RepoInfo) × (rs : List RepoInfo) × (a.repos ≡ ok (r ∷ rs))))
    ⊎ ((is_lit cfg.github.scope "all" ≡ false) × ((rs : List Runner) × (a.runners ≡ ok rs)))

repos_iff :
    (x : Result (List RepoInfo))
    → (check_repos x ≡ 0) ↔ ((r : RepoInfo) × (rs : List RepoInfo) × (x ≡ ok (r ∷ rs)))
repos_iff (err e) = (λ h. absurd (omega arith), λ t. absurd (let h = t.2 in cc))
repos_iff (ok []) = (λ h. absurd (omega arith), λ t. absurd (let h = t.2 in cc))
repos_iff (ok (r ∷ rs)) = (λ h. (r, rs, refl), λ t. refl)

runners_iff :
    (x : Result (List Runner)) → (check_runners x ≡ 0) ↔ ((rs : List Runner) × (x ≡ ok rs))
runners_iff (err e) = (λ h. absurd (omega arith), λ t. absurd (let h = t.1 in cc))
runners_iff (ok rs) = (λ h. (rs, refl), λ t. refl)

first : {P Q : Type 0} → ((true ≡ true) × P) ⊎ ((true ≡ false) × Q) → P
first (inl (e, p)) = p
first (inr (e, q)) = absurd (cc)

second : {P Q : Type 0} → ((false ≡ true) × P) ⊎ ((false ≡ false) × Q) → Q
second (inl (e, p)) = absurd (cc)
second (inr (e, q)) = q

check_github_iff : (cfg : Config) (a : Answers) → (check_github cfg a ≡ 0) ↔ IsUsable cfg a
unfolding check_github
check_github_iff cfg a = by_scope (is_lit cfg.github.scope "all")
  where
    by_scope :
        (b : Bool)
        → ((if b then check_repos a.repos else check_runners a.runners) ≡ 0) ↔ (
            ((b ≡ true) × ((r : RepoInfo) × (rs : List RepoInfo) × (a.repos ≡ ok (r ∷ rs))))
            ⊎ ((b ≡ false) × ((rs : List Runner) × (a.runners ≡ ok rs))))
    by_scope true = (λ h. inl (refl, (repos_iff a.repos).0 h), λ u. (repos_iff a.repos).1 (first u))
    by_scope false =
        (λ h. inr (refl, (runners_iff a.runners).0 h), λ u. (runners_iff a.runners).1 (second u))

offers_iff :
    (id : Text) (skus : List Sku)
    → (offers id skus ≡ true) ↔ ((s : Sku) × Memᴰ s skus × (s.id ≡ id))
offers_iff id skus = (
  λ h.
      let (s, m, e) = find_any (λ (s : Sku). text_eq s.id id) skus h in
      (s, m, (text_eq_iff s.id id).0 e),
  λ t. any-mem (λ (s : Sku). text_eq s.id id) t.1 ((text_eq_iff t.0.id id).1 t.2),
)

zero_if : (b : Bool) (n : ℕ) → ((if b then n else 1) ≡ 0) ↔ ((b ≡ true) × (n ≡ 0))
zero_if b n = ground arith

sku_of :
    (cfg : Config) (skus : List Sku)
    → IsOffered cfg (ok skus)
    → (s : Sku) × Memᴰ s skus × (s.id ≡ cfg.minicontrol.sku)
sku_of cfg skus (others, e, (s, m, same)) =
    let one : others ≡ skus = cc in (s, subst (λ x. Memᴰ s x) one m, same)

-- `runDryRun` exits with 0 exactly if the SKU that is configured is one of those that the service
-- lists, and GitHub lists at least one repository, for the scope `all`, or the runners, for another.
pub dry_run_iff :
    (cfg : Config) (a : Answers) → (dry_run cfg a ≡ 0) ↔ (IsOffered cfg a.skus × IsUsable cfg a)
unfolding dry_run
dry_run_iff cfg a = by_skus a.skus
  where
    by_skus :
        (r : Result (List Sku)) → (check_skus cfg a r ≡ 0) ↔ (IsOffered cfg r × IsUsable cfg a)
    by_skus (err e) = (λ h. absurd (omega arith), λ t. absurd (let k = t.0.1 in cc))
    by_skus (ok skus) =
        let whole = zero_if (offers cfg.minicontrol.sku skus) (check_github cfg a) in
        let sku = offers_iff cfg.minicontrol.sku skus in
        let github = check_github_iff cfg a in
        (
          λ h. ((skus, refl, sku.0 (whole.0 h).0), github.0 (whole.0 h).1),
          λ t. whole.1 (sku.1 (sku_of cfg skus t.0), github.1 t.1),
        )
