-- ===== src/Github.antt =====
-- internal/githubapp: the types of client.go and poller.go, and the tests on them.
pub mod Labels
pub mod Api
pub mod Actions
pub mod Runners
pub mod Repos
pub mod Jobs
use mini_control_action.Prelude.{
  ℕ, Bool, false, not, ◌&&◌, ◌||◌, List, [], ◌∷◌, any, all, Text, ℤ, text_eq, is_lit, to_lower,
  is_empty, if◌then◌else◌,
}

pub record JobRef : Type 0 where
  pub repo : Text
  pub job_id : ℕ
  pub run_id : ℕ
  pub run_attempt : ℤ
  pub labels : List Text

pub record JobStep : Type 0 where
  pub name : Text
  pub status : Text
  pub conclusion : Text

pub record JobStatus : Type 0 where
  pub status : Text
  pub conclusion : Text
  pub runner_name : Text
  pub runner_id : ℕ
  pub steps : List JobStep

pub record JobEvent : Type 0 where
  pub action : Text
  pub job : JobRef
  pub conclusion : Text
  pub runner_name : Text

pub record Runner : Type 0 where
  pub id : ℕ
  pub name : Text
  pub status : Text
  pub busy : Bool

-- `Reapable`
unfoldable pub reapable : Runner → Bool
reapable r = not (is_lit r.status "online") && not r.busy

unfoldable pub ended_well : Text → Bool
ended_well c = is_empty c || (is_lit c "success" || (is_lit c "skipped" || is_lit c "neutral"))

-- `FailedSteps`
unfoldable pub failed_steps : List JobStep → List Text
unfolding ended_well
failed_steps [] = []
failed_steps (s ∷ steps) =
    if ended_well s.conclusion then failed_steps steps else s.name ∷ failed_steps steps

-- The set `ours` of lower-case labels, asked for one label.
unfoldable pub offered : List Text → Text → Bool
offered ours l = any (λ o. text_eq (to_lower o) (to_lower l)) ours

-- `LabelsSatisfiable`
unfoldable pub labels_satisfiable : List Text → List Text → Bool
unfolding offered
labels_satisfiable [] ours = false
labels_satisfiable (l ∷ job) ours = all (offered ours) (l ∷ job)
