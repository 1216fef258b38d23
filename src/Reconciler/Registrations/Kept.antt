-- ===== src/Reconciler/Registrations/Kept.antt =====
-- Which registrations `cleanRunners` of internal/reconciler/reconciler.go keeps, by the names that
-- `bootstrapRunner` of internal/scaler/job.go gives.
use mini_control_action.Prelude.{
  append_assoc, take-append-drop, ◌≡◌, refl, sym, ap, ◌∙◌, subst, Bool, true, false, not, ◌&&◌,
  some, List, [], ◌∷◌, ◌++◌, Memᴰ, all, any-mem, Text, codes, decimal, take, drop, ◌==◌, cut_prefix,
  cut_text, has_prefix, cut_prefix-append, arith, Bool-cases, Option-cases, inl, inr,
}
use mini_control_action.Github.{Runner, reapable}
use mini_control_action.Config.{Config}
use mini_control_action.Github.Api.{Server, Client, ◌>>◌}
use mini_control_action.Scaler.World.{Env, Worker, ask, ◌>>=◌, set_rec}
use mini_control_action.Scaler.Boot.{name_runner}
use mini_control_action.Reconciler.Registrations.{
  is_alive, is_unowned, names_dead, is_stale, try_remove, remove_stale,
}

has_prefix-append : (p s : Text) → has_prefix (p ++ s) p ≡ true
unfolding has_prefix
has_prefix-append p s = rw (cut_prefix-append p s) refl

-- What is cut off before the first `sep` begins the text before any `sep`.
abbrev IsCutIn : Text → Text → Text → Type 0
IsCutIn sep h t =
    (a : Text) × (b : Text) × (h' : Text) × (cut_text sep (h ++ (sep ++ t)) ≡ some (a, b))
    × (h ≡ a ++ h')

cut_text-found : (sep s r : Text) → cut_prefix sep s ≡ some r → cut_text sep s ≡ some ([], r)
unfolding cut_text
cut_text-found sep [] r h = rw (cut_text, h) refl
cut_text-found sep (c ∷ s) r h = rw (cut_text, h) refl

cut_text-IsCutIn : (sep h t : Text) → IsCutIn sep h t
unfolding cut_text
cut_text-IsCutIn sep [] t =
    ([], t, [], cut_text-found sep (sep ++ t) t (cut_prefix-append sep t), refl)
cut_text-IsCutIn sep (c ∷ h) t = elim (Option-cases (cut_prefix sep (c ∷ h ++ (sep ++ t)))) [
  | inl n ↦
      let (a, b, h', e, p) = cut_text-IsCutIn sep h t in
      (c ∷ a, b, h', rw (cut_text, n) (rw e refl), ap (λ x. c ∷ x) p)
  | inr (r, e) ↦ ([], r, c ∷ h, rw (cut_text, e) refl, refl)
]

-- The name of a registration for the VM `vm_id`.
abbrev pub runner_name : Text → Text → Text → Text
runner_name prefix vm_id rest = prefix ++ (codes "-" ++ (take 8 vm_id ++ (codes "-j" ++ rest)))

named_rest :
    (prefix vm_id rest : Text)
    → cut_prefix (prefix ++ codes "-") (runner_name prefix vm_id rest)
      ≡ some (take 8 vm_id ++ (codes "-j" ++ rest))
unfolding codes
named_rest prefix vm_id rest =
    ap (cut_prefix (prefix ++ codes "-"))
      (sym (append_assoc prefix (codes "-") (take 8 vm_id ++ (codes "-j" ++ rest))))
    ∙ cut_prefix-append (prefix ++ codes "-") (take 8 vm_id ++ (codes "-j" ++ rest))

is_alive-cut :
    (live : List Text) (vm_id a h' : Text)
    → Memᴰ vm_id live
    → take 8 vm_id ≡ a ++ h'
    → is_alive live a ≡ true
is_alive-cut live vm_id a h' m e =
    any-mem (λ id. has_prefix id a) m
      (subst (λ s. has_prefix s a ≡ true)
        (sym (append_assoc a h' (drop 8 vm_id))
          ∙ (ap (λ s. s ++ drop 8 vm_id) (sym e) ∙ take-append-drop 8 vm_id))
        (has_prefix-append a (h' ++ drop 8 vm_id)))

and_false : (b : Bool) → b && false ≡ false
and_false b = ground arith

alive_name :
    (prefix : Text) (live : List Text) (rn : Runner) (vm_id rest : Text)
    → Memᴰ vm_id live
    → rn.name ≡ runner_name prefix vm_id rest
    → is_stale prefix live rn ≡ false
unfolding is_stale is_unowned names_dead
alive_name prefix live rn vm_id rest m e =
    let (a, b, h', c, p) = cut_text-IsCutIn (codes "-j") (take 8 vm_id) rest in
    rw (e, named_rest prefix vm_id rest, c, is_alive-cut live vm_id a h' m p)
      (and_false (reapable rn))

module _ (cfg : Config) (server : Server) (live : List Text) (repo : Text) (rn : Runner) where
  skipped :
      (runners later : List Runner)
      → is_stale cfg.runner.name_prefix live rn ≡ false
      → remove_stale cfg server live repo (runners ++ rn ∷ later)
        ≡ remove_stale cfg server live repo (runners ++ later)
  unfolding remove_stale
  skipped [] later h = rw h refl
  skipped (x ∷ runners) later h = elim (Bool-cases (is_stale cfg.runner.name_prefix live x)) [
    | inl e ↦ rw e (ap (λ g. try_remove cfg server live repo x >> g) (skipped runners later h))
    | inr e ↦ rw e (skipped runners later h)
  ]

-- A sweep removes no registration of a VM that is alive. For a runner with the name that
-- `bootstrapRunner` gives to a VM whose ID is among the live ones, whatever its status, the clean-up
-- of a repository's runners sends what it would send were the runner not listed.
pub alive_kept :
    (env : Env) (w : Worker) (server : Server) (live : List Text) (repo : Text) (rn : Runner)
    (runners later : List Runner) (c : Client)
    → Memᴰ w.rec.vm_id live
    → rn.name ≡ (name_runner env w).1.rec.runner_name
    → remove_stale env.cfg server live repo (runners ++ rn ∷ later) c
      ≡ remove_stale env.cfg server live repo (runners ++ later) c
unfolding name_runner ask set_rec ◌>>=◌
alive_kept env w server live repo rn runners later c m e =
    ap (λ g. g c)
      (skipped env.cfg server live repo rn runners later (
        alive_name env.cfg.runner.name_prefix live rn w.rec.vm_id
          (decimal w.rec.job_id ++ (codes "-" ++ env.nonce w.step)) m e))

-- The text has no letter `j`.
abbrev pub has_no_j : Text → Bool
has_no_j s = all (λ c. not (c == b'j')) s
