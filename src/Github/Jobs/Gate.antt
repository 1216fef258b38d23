-- ===== src/Github/Jobs/Gate.antt =====
-- What the listing of queued jobs of internal/githubapp/client.go keeps and gives: one walk through its
-- loops, for any predicate of the client that the gate's rules respect.
use mini_control_action.Prelude.{
  ℕ, zero, suc, ◌+◌, ◌≡◌, refl, subst, Bool, true, false, List, [], ◌∷◌, ◌++◌, All, Text, length,
  ltb, arith, codes, some, if◌then◌else◌,
}
use mini_control_action.Errors.{Result, ok, err}
use mini_control_action.Github.{JobRef, labels_satisfiable}
use mini_control_action.Github.Api.{Run, JobJson, Server, Client, G, pure, fail}
use mini_control_action.Github.Actions.{
  Gives, Any, Gives-pure, Gives-if, Gives-bind, Gives-gets, Gives-change, Gives-call,
}
use mini_control_action.Github.Jobs.{
  is_wanted, job_ref, job_refs, put_run, is_live, is_unchanged, job_page, job_pages, list_in_run,
  fetch_run, take_run, take_runs, run_page, run_pages, list_in_repo, sweep_repo, sweep_repos,
  after_repo,
}

-- A job that our runners can serve, of one of the repositories of the sweep.
abbrev pub IsOffer : List Text → JobRef → Type 0
IsOffer ours ref = labels_satisfiable ref.labels ours ≡ true

pub wanted_serves :
    (ours : List Text) (repo : Text) (j : JobJson)
    → is_wanted ours j ≡ true
    → IsOffer ours (job_ref repo j)
unfolding is_wanted
wanted_serves ours repo j h = ground arith

pub All-append :
    {A : Type 0} (Q : A → Type 0) (xs ys : List A) → All Q xs → All Q ys → All Q (xs ++ ys)
All-append Q [] ys h k = k
All-append Q (x ∷ xs) ys h k = (h.0, All-append Q xs ys h.1 k)

-- `P` may not depend on the request count, survives a new live run, and survives that a run is written
-- into the gate which was not live when it was met.
pub record IsRespected (P : Client → Type 0) (Free : Run → Type 0) : Type 0 where
  pub step : (c : Client) (n : ℕ) → P c → P (record c { step = n })
  pub live : (c : Client) (id : ℕ) → P c → P (record c { live_runs = id ∷ c.live_runs })
  pub free : (c : Client) (run : Run) → P c → is_live run.id c ≡ false → Free run
  pub put :
      (c : Client) (run : Run)
      → P c
      → Free run
      → P (record c { run_updated = put_run run c.run_updated })

module _ {P : Client → Type 0} {Free : Run → Type 0} (respected : IsRespected P Free)
    (server : Server) (ours : List Text) (Good : JobRef → Type 0)
    (good : (repo : Text) (j : JobJson) → is_wanted ours j ≡ true → Good (job_ref repo j)) where
  abbrev Offers : List JobRef → Type 0
  Offers refs = All Good refs

  job_refs-All : (repo : Text) (jobs : List JobJson) → Offers (job_refs repo ours jobs)
  unfolding job_refs
  job_refs-All repo [] = tt
  job_refs-All repo (j ∷ jobs) = either (is_wanted ours j) refl (job_refs-All repo jobs)
    where
      either :
          (b : Bool)
          → is_wanted ours j ≡ b
          → Offers (job_refs repo ours jobs)
          → Offers (if b then job_ref repo j ∷ job_refs repo ours jobs else job_refs repo ours jobs)
      either true e h = (good repo j e, h)
      either false e h = h

  W-job_page :
      (repo : Text) (id page : ℕ) (found : List JobRef) (rest : List JobRef → G (List JobRef))
      → Offers found
      → ((more : List JobRef) → Offers more → Gives P (rest more) Offers)
      → Gives P (job_page server ours repo id page found rest) Offers
  unfolding job_page
  W-job_page repo id page found rest h k =
      Gives-bind _ _ (Gives-call server [] (some server.json.jobs) _ respected.step) λ jobs _.
        let more = All-append Good found (job_refs repo ours jobs) h (job_refs-All repo jobs) in
        Gives-if (ltb (length jobs) 100) _ _ (λ _. Gives-pure _ more) (λ _. k _ more)

  pub W-job_pages :
      (left : ℕ) (repo : Text) (id page : ℕ) (found : List JobRef)
      → Offers found
      → Gives P (job_pages server ours left repo id page found) Offers
  unfolding job_pages
  W-job_pages zero repo id page found h = Gives-pure found h
  W-job_pages (suc left) repo id page found h =
      W-job_page repo id page found _ h (λ more m. W-job_pages left repo id (page + 1) more m)

  W-fetch_run :
      (repo : Text) (run : Run) → Free run → Gives P (fetch_run server ours repo run) Offers
  unfolding fetch_run list_in_run
  W-fetch_run repo run f = Gives-bind _ _ (W-job_pages 3 repo run.id 1 [] tt) λ refs h.
      Gives-bind _ _ (Gives-change _ (λ c p. respected.put c run p f)) (λ _ _. Gives-pure refs h)

  pub W-take_run : (repo : Text) (run : Run) → Gives P (take_run server ours repo run) Offers
  unfolding take_run
  W-take_run repo run =
      Gives-bind {Q = λ b. b ≡ false → Free run} _ _
        (Gives-gets (is_live run.id) (λ c p n. respected.free c run p n))
        λ live free.
          Gives-if live _ _ (λ _. Gives-pure [] tt)
            λ n. Gives-bind _ _ (Gives-change _ (λ c p. respected.live c run.id p)) λ _ _.
              Gives-bind {Q = Any} _ _ (Gives-gets (is_unchanged run) (λ c p. tt))
                λ b _. Gives-if b _ _ (λ _. Gives-pure [] tt) (λ _. W-fetch_run repo run (free n))

  pub W-take_runs :
      (repo : Text) (runs : List Run) (found : List JobRef)
      → Offers found
      → Gives P (take_runs server ours repo runs found) Offers
  unfolding take_runs
  W-take_runs repo [] found h = Gives-pure found h
  W-take_runs repo (run ∷ runs) found h =
      Gives-bind _ _ (W-take_run repo run)
        (λ refs k. W-take_runs repo runs (found ++ refs) (All-append Good found refs h k))

  W-run_page :
      (repo status : Text) (page : ℕ) (found : List JobRef) (rest : List JobRef → G (List JobRef))
      → Offers found
      → ((more : List JobRef) → Offers more → Gives P (rest more) Offers)
      → Gives P (run_page server ours repo status page found rest) Offers
  unfolding run_page
  W-run_page repo status page found rest h k =
      Gives-bind _ _ (Gives-call server [] (some server.json.runs) _ respected.step) λ runs _.
        Gives-bind _ _ (W-take_runs repo runs found h)
          λ more m. Gives-if (ltb (length runs) 100) _ _ (λ _. Gives-pure more m) (λ _. k more m)

  W-run_pages :
      (left : ℕ) (repo status : Text) (page : ℕ) (found : List JobRef)
      → Offers found
      → Gives P (run_pages server ours left repo status page found) Offers
  unfolding run_pages
  W-run_pages zero repo status page found h = Gives-pure found h
  W-run_pages (suc left) repo status page found h =
      W-run_page repo status page found _ h
        (λ more m. W-run_pages left repo status (page + 1) more m)

  W-list_in_repo : (repo : Text) → Gives P (list_in_repo server ours repo) Offers
  unfolding list_in_repo
  W-list_in_repo repo =
      Gives-bind _ _ (W-run_pages 5 repo (codes "queued") 1 [] tt)
        (λ found h. W-run_pages 5 repo (codes "in_progress") 1 found h)

  W-sweep_repo :
      (stopping : ℕ → Bool) (repo : Text) → Gives P (sweep_repo server ours stopping repo) Offers
  unfolding sweep_repo pure fail
  W-sweep_repo stopping repo = record {
    kept = λ c h.
        stays (stopping _) ((list_in_repo server ours repo) c).0 _ ((W-list_in_repo repo).kept c h);
    given = λ c refs h e.
        offers (stopping _) ((list_in_repo server ours repo) c).0 _ refs
          (λ found. (W-list_in_repo repo).given c found h) e;
  }
    where
      stays :
          (b : Bool) (r : Result (List JobRef)) (c : Client)
          → P c
          → P (after_repo server ours b r c).1
      stays b (ok refs) c h = h
      stays true (err e) c h = h
      stays false (err e) c h = h

      offers :
          (b : Bool) (r : Result (List JobRef)) (c : Client) (refs : List JobRef)
          → ((found : List JobRef) → r ≡ ok found → Offers found)
          → (after_repo server ours b r c).0 ≡ ok refs
          → Offers refs
      offers b (ok found) c refs k e = k refs e
      offers true (err x) c refs k e = absurd (cc)
      offers false (err x) c refs k e =
          let none_found : [] ≡ refs = cc in subst Offers none_found tt

  pub W-sweep_repos :
      (stopping : ℕ → Bool) (repos : List Text) (found : List JobRef)
      → Offers found
      → Gives P (sweep_repos server ours stopping repos found) Offers
  unfolding sweep_repos
  W-sweep_repos stopping [] found h = Gives-pure found h
  W-sweep_repos stopping (repo ∷ repos) found h =
      Gives-bind _ _ (W-sweep_repo stopping repo)
        (λ refs k. W-sweep_repos stopping repos (found ++ refs) (All-append Good found refs h k))
