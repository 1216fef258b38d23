-- ===== src/Github/Jobs/Pages.antt =====
-- The pagination of `listQueuedJobsInRun` of internal/githubapp/client.go.
use mini_control_action.Prelude.{
  ℕ, zero, suc, ◌+◌, ◌*◌, ◌-◌, ◌≤◌, ◌<◌, min, ◌≡◌, refl, sym, ap, ◌∙◌, Bool, true, false, some,
  List, [], ◌∷◌, ◌++◌, map, keep_if, any, all, not, ◌&&◌, text_eq, is_lit, to_lower, codes, Text,
  length, take, drop, ltb, arith, Bool-cases, inl, inr, take-append_drop, length-take, length-drop,
  take_all, if◌then◌else◌,
}
use mini_control_action.Errors.{Result, ok}
use mini_control_action.Github.{JobRef, labels_satisfiable, offered}
use mini_control_action.Github.Api.{
  JobJson, Server, Client, G, ◌>>=◌, pure, call, interpret, get_request,
}
use mini_control_action.Github.Runners.Pages.{short_page, full_page}
use mini_control_action.Github.Jobs.{
  is_wanted, job_ref, job_refs, jobs_path, job_page, job_pages, list_in_run,
}

-- The server has the jobs `all` of a run, and answers each page of a hundred of them, up to the third.
pub record IsPagedJobs (server : Server) (repo : Text) (run_id : ℕ) (all : List JobJson)
    : Type 0 where
  pub page :
      (n p : ℕ)
      → p < 3
      → interpret
          (server.time n)
          []
          (some server.json.jobs)
          (server.send n (get_request (jobs_path repo run_id (p + 1))))
        ≡ ok (take 100 (drop (100 * p) all))

job_refs-append :
    (repo : Text) (ours : List Text) (xs ys : List JobJson)
    → job_refs repo ours (xs ++ ys) ≡ job_refs repo ours xs ++ job_refs repo ours ys
unfolding job_refs
job_refs-append repo ours [] ys = refl
job_refs-append repo ours (x ∷ xs) ys = elim (Bool-cases (is_wanted ours x)) [
  | inl e ↦ rw (e) (ap (λ r. job_ref repo x ∷ r) (job_refs-append repo ours xs ys))
  | inr e ↦ rw (e) (job_refs-append repo ours xs ys)
]

module _ (server : Server) (ours : List Text) (repo : Text) (id : ℕ) (all : List JobJson)
    (paged : IsPagedJobs server repo id all) where
  -- The wanted jobs among the first `n`.
  abbrev first : ℕ → List JobRef
  first n = job_refs repo ours (take n all)

  first-page :
      (p : ℕ)
      → first (100 * p) ++ job_refs repo ours (take 100 (drop (100 * p) all))
        ≡ first (100 * p + 100)
  first-page p =
      sym (job_refs-append repo ours (take (100 * p) all) (take 100 (drop (100 * p) all)))
      ∙ ap (job_refs repo ours) (take-append_drop (100 * p) 100 all)

  job_page-step :
      (p : ℕ) (rest : List JobRef → G (List JobRef)) (c : Client)
      → p < 3
      → (job_page server ours repo id (p + 1) (first (100 * p)) rest c).0 ≡ (
          if ltb (length (take 100 (drop (100 * p) all))) 100
          then ok (first (100 * p + 100))
          else (rest (first (100 * p + 100)) (record c { step = c.step + 1 })).0)
  unfolding job_page call pure ◌>>=◌
  job_page-step p rest c b =
      rw (paged.page c.step p b, first-page p)
        (either (ltb (length (take 100 (drop (100 * p) all))) 100))
    where
      either :
          (b : Bool)
          → ((if b then pure (first (100 * p + 100)) else rest (first (100 * p + 100)))
              (record c { step = c.step + 1 })).0
            ≡ (if b
                then ok (first (100 * p + 100))
                else (rest (first (100 * p + 100)) (record c { step = c.step + 1 })).0)
      either true = refl
      either false = refl

  job_pages_lem :
      (left p page m : ℕ) (found : List JobRef) (c : Client)
      → m ≡ 100 * p
      → page ≡ p + 1
      → found ≡ first (100 * p)
      → m ≤ length all
      → p + left ≡ 3
      → (job_pages server ours left repo id page found c).0 ≡ ok (first (m + 100 * left))
  unfolding job_pages pure
  job_pages_lem zero p page m found c e f g h b = rw (g) (ap (λ i. ok (first i)) (omega arith))
  job_pages_lem (suc left) p page m found c e f g h b =
      rw (f, g)
        (job_page-step p (job_pages server ours left repo id (p + 1 + 1)) c (omega arith)
          ∙ last_or_more _ refl (λ k.
            job_pages_lem left (p + 1) (p + 1 + 1) (m + 100) _ _ (omega arith) refl
              (ap first {x = 100 * p + 100} (omega arith)) k (omega arith)))
    where
      size : length (take 100 (drop (100 * p) all)) ≡ min 100 (length all - 100 * p)
      size = length-take 100 (drop (100 * p) all) ∙ ap (min 100) (length-drop (100 * p) all)

      last_or_more :
          {more : Result (List JobRef)} (b : Bool)
          → ltb (length (take 100 (drop (100 * p) all))) 100 ≡ b
          → (m + 100 ≤ length all → more ≡ ok (first (m + 100 + 100 * left)))
          → (if b then ok (first (100 * p + 100)) else more) ≡ ok (first (m + 100 * suc left))
      last_or_more true q k =
          let below = short_page (length all) (100 * p) _ size (omega arith) q in
          ap (λ xs. ok (job_refs repo ours xs))
            (take_all (100 * p + 100) all (omega arith)
              ∙ sym (take_all (m + 100 * suc left) all (omega arith)))
      last_or_more false q k =
          let full = full_page (length all) (100 * p) _ size (omega arith) q in
          k (omega arith) ∙ ap (λ i. ok (first i)) {x = m + 100 + 100 * left} (omega arith)

abbrev is_empty_list : List Text → Bool
is_empty_list [] = true
is_empty_list (l ∷ ls) = false

-- A job that is queued, has labels, and whose labels are ours but for the case of their letters.
abbrev pub is_for : List Text → JobJson → Bool
is_for ours j =
    text_eq j.status (codes "queued")
    && (not (is_empty_list j.labels)
        && all (λ l. any (λ o. text_eq (to_lower o) (to_lower l)) ours) j.labels)

is_for_lem : (ours : List Text) (j : JobJson) → is_wanted ours j ≡ is_for ours j
unfolding is_wanted labels_satisfiable offered is_lit
is_for_lem ours j = ap (λ b. text_eq j.status (codes "queued") && b) (go j.labels)
  where
    go :
        (labels : List Text)
        → labels_satisfiable labels ours
          ≡ not (is_empty_list labels)
            && all (λ l. any (λ o. text_eq (to_lower o) (to_lower l)) ours) labels
    go [] = refl
    go (l ∷ labels) = refl

job_refs_lem :
    (repo : Text) (ours : List Text) (jobs : List JobJson)
    → job_refs repo ours jobs ≡ map (job_ref repo) (keep_if (is_for ours) jobs)
unfolding job_refs
job_refs_lem repo ours [] = refl
job_refs_lem repo ours (j ∷ jobs) = elim (Bool-cases (is_wanted ours j)) [
  | inl e ↦
      rw (sym (is_for_lem ours j), e) (ap (λ r. job_ref repo j ∷ r) (job_refs_lem repo ours jobs))
  | inr e ↦ rw (sym (is_for_lem ours j), e) (job_refs_lem repo ours jobs)
]

-- From a server that answers each of the first 3 pages of the jobs of a run: `listQueuedJobsInRun` returns
-- a reference to each job among the first 300 that has the status `queued` and some labels, all of them
-- ours but for the case of their letters, in order, and to no other job.
pub list_in_run_whole :
    (server : Server) (ours : List Text) (repo : Text) (id : ℕ) (all : List JobJson) (c : Client)
    → IsPagedJobs server repo id all
    → (list_in_run server ours repo id c).0
      ≡ ok (map (job_ref repo) (keep_if (is_for ours) (take 300 all)))
unfolding list_in_run
list_in_run_whole server ours repo id all c paged =
    job_pages_lem server ours repo id all paged 3 0 1 0 [] c refl refl refl (omega arith) refl
    ∙ ap ok (job_refs_lem repo ours (take 300 all))
