-- ===== src/Github/Runners/Answers.antt =====
-- What `ResolveRunnerDownload` and `RemoveRunner` of internal/githubapp/client.go make of an answer.
use mini_control_action.Prelude.{
  ℕ, suc, subst, ◌<◌, ◌≤◌, ◌≡◌, ◌≢◌, refl, All, is_digit, is_empty, cut_prefix, cut_prefix-eq-some,
  sym, ap, ◌∙◌, ◌↔◌, ◌⊎◌, inl, inr, true, false, none, some, List, [], ◌∷◌, ◌++◌, Text, codes,
  decimal, text_eq, text_eq_iff, Memᴰ, Bool-cases, Option-cases, arith,
}
use mini_control_action.Errors.{ok}
use mini_control_action.Bootstrap.Commands.{asset_name}
use mini_control_action.Config.{GitHub}
use mini_control_action.Github.Api.{
  Asset, Release, Reply, replied, Server, Client, delete, interpret, call, Request,
}
use mini_control_action.Github.Runners.{
  is_version, is_version_tail, skip_digits, starts_with_digit, after_dot, trim_v, version_of,
  find_asset, resolve, runners_base, remove_runner,
}

find_asset-mem :
    (name : Text) (assets : List Asset) (a : Asset)
    → find_asset name assets ≡ some a
    → Memᴰ a assets × (a.name ≡ name)
unfolding find_asset
find_asset-mem name [] a h = absurd (ground arith)
find_asset-mem name (b ∷ assets) a h = elim (Bool-cases (text_eq b.name name)) [
  | inl e ↦
      let same : b ≡ a = ground arith in
      (Memᴰ.head (sym same), ap (λ (x : Asset). x.name) (sym same) ∙ (text_eq_iff b.name name).0 e)
  | inr e ↦ let rest = find_asset-mem name assets a (ground arith) in (Memᴰ.tail rest.0, rest.1)
]

-- Decimal digits, at least one.
abbrev pub IsNumber : Text → Type 0
IsNumber s = (s ≢ []) × All (λ c. (48 ≤ c) × (c ≤ 57)) s

-- Three numbers with dots between them.
abbrev pub IsDotted : Text → Type 0
IsDotted s =
    (a : Text) × (b : Text) × (c : Text) × (s ≡ a ++ (codes "." ++ (b ++ (codes "." ++ c))))
    × IsNumber a
    × IsNumber b
    × IsNumber c

digit_range : (c : ℕ) → is_digit c ≡ true → (48 ≤ c) × (c ≤ 57)
unfolding is_digit
digit_range c h = (ground arith, ground arith)

digits_of : (s : Text) → (a : Text) × (s ≡ a ++ skip_digits s) × All (λ c. (48 ≤ c) × (c ≤ 57)) a
unfolding skip_digits
digits_of [] = ([], refl, tt)
digits_of (c ∷ s) = elim (Bool-cases (is_digit c)) [
  | inl e ↦ let (a, q, d) = digits_of s in (c ∷ a, rw e (ap (λ r. c ∷ r) q), (digit_range c e, d))
  | inr e ↦ ([], rw e refl, tt)
]

leading-IsNumber :
    (s : Text) → starts_with_digit s ≡ true → (a : Text) × (s ≡ a ++ skip_digits s) × IsNumber a
unfolding skip_digits
leading-IsNumber [] h = absurd (cc)
leading-IsNumber (c ∷ s) h =
    let (a, q, d) = digits_of s in
    (c ∷ a, rw h (ap (λ r. c ∷ r) q), ((λ e. absurd (cc)), (digit_range c h, d)))

empty_nil : (s : Text) → is_empty s ≡ true → s ≡ []
empty_nil [] h = refl
empty_nil (c ∷ s) h = absurd (cc)

append_nil : (a : Text) → a ++ [] ≡ a
append_nil [] = refl
append_nil (c ∷ a) = ap (λ r. c ∷ r) (append_nil a)

tail-IsNumber : (s : Text) → is_version_tail 0 s ≡ true → IsNumber s
unfolding is_version_tail
tail-IsNumber s h =
    let (a, q, k) = leading-IsNumber s (ground arith) in
    let done : skip_digits s ≡ [] = empty_nil (skip_digits s) (ground arith) in
    let same : s ≡ a = q ∙ (ap (λ r. a ++ r) done ∙ append_nil a) in subst IsNumber (sym same) k

tag_of :
    (tag version : Text) → version_of tag ≡ version → (tag ≡ version) ⊎ (tag ≡ codes "v" ++ version)
unfolding version_of
tag_of tag version h = elim (Option-cases (cut_prefix (codes "v") tag)) [
  | inl n ↦
      let same : trim_v tag (cut_prefix (codes "v") tag) ≡ tag = rw n refl in inl (sym same ∙ h)
  | inr (rest, e) ↦
      let same : trim_v tag (cut_prefix (codes "v") tag) ≡ rest = rw e refl in
      inr (cut_prefix-eq-some (codes "v") tag rest e ∙ ap (λ x. codes "v" ++ x) (sym same ∙ h))
]

after_dot_lem : (s rest : Text) → after_dot s ≡ some rest → s ≡ codes "." ++ rest
unfolding codes
after_dot_lem [] rest h = absurd (cc)
after_dot_lem (c ∷ s) rest h = ground arith

dotted-IsNumber :
    (n : ℕ) (s : Text)
    → is_version_tail (suc n) s ≡ true
    → (a : Text) × (rest : Text) × (s ≡ a ++ (codes "." ++ rest))
      × IsNumber a
      × (is_version_tail n rest ≡ true)
unfolding is_version_tail
dotted-IsNumber n s h = elim (Option-cases (after_dot (skip_digits s))) [
  | inl none_left ↦ absurd (ground arith)
  | inr (rest, e) ↦
      let (a, q, k) = leading-IsNumber s (ground arith) in
      (a, rest, q ∙ ap (λ x. a ++ x) (after_dot_lem (skip_digits s) rest e), k, ground arith)
]

version-IsDotted : (s : Text) → is_version s ≡ true → IsDotted s
unfolding is_version
version-IsDotted s h =
    let (a, r, q, number, t) = dotted-IsNumber 1 s h in
    let (b, c, q', number', t') = dotted-IsNumber 0 r t in
    (a, b, c, q ∙ ap (λ x. a ++ (codes "." ++ x)) q', number, number', tail-IsNumber c t')

-- `ResolveRunnerDownload` accepts a release only with a version of three decimal numbers, which is its
-- tag or its tag without a leading `v`, and with the URL of one of the release's own assets, of the name
-- that the version gives.
pub resolve-asset :
    (out : Release) (version url : Text)
    → resolve out ≡ ok (version, url)
    → IsDotted version
      × ((out.tag ≡ version) ⊎ (out.tag ≡ codes "v" ++ version))
      × ((a : Asset) × Memᴰ a out.assets
          × (a.name ≡ codes "actions-runner-osx-arm64-" ++ (version ++ codes ".tar.gz"))
          × (a.url ≡ url))
unfolding resolve asset_name
resolve-asset out version url h = elim (Bool-cases (is_version (version_of out.tag))) [
  | inr e ↦ absurd (ground arith)
  | inl e ↦ elim (Option-cases (find_asset (asset_name (version_of out.tag)) out.assets)) [
    | inl n ↦ absurd (ground arith)
    | inr (a, f) ↦
        let same : version_of out.tag ≡ version = ground arith in
        let link : a.url ≡ url = ground arith in
        let found = find_asset-mem _ out.assets a f in
        (
          version-IsDotted version (ap is_version (sym same) ∙ e),
          tag_of out.tag version same,
          (a, found.0, found.1 ∙ ap asset_name same, link),
        )
  ]
]

abbrev pub remove_request : GitHub → Text → ℕ → Request
remove_request cfg repo id = record {
  method = delete;
  public = false;
  path = runners_base cfg repo ++ (codes "/" ++ decimal id);
  body = none;
}

-- When the server has answered, `RemoveRunner` reports success exactly for a status below 300 and for
-- 404: the registration is gone or was gone already.
pub remove_runner_ok_iff :
    (cfg : GitHub) (server : Server) (repo : Text) (id : ℕ) (c : Client) (r : Reply)
    → server.send c.step (remove_request cfg repo id) ≡ replied r
    → ((remove_runner cfg server repo id c).0 ≡ ok tt) ↔ ((r.status < 300) ⊎ (r.status ≡ 404))
unfolding remove_runner call interpret
remove_runner_ok_iff cfg server repo id c r sent = rw sent (ground arith)
