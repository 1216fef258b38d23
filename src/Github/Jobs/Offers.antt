-- ===== src/Github/Jobs/Offers.antt =====
-- What a poll of internal/githubapp/poller.go offers.
use mini_control_action.Prelude.{ℕ, ◌≡◌, refl, Bool, true, List, [], ◌∷◌, All, Text, codes}
use mini_control_action.Errors.{ok}
use mini_control_action.Github.{JobRef, JobEvent, labels_satisfiable}
use mini_control_action.Github.Api.{Server, Client, G, change}
use mini_control_action.Github.Actions.{Gives, Any, Gives-pure, Gives-bind}
use mini_control_action.Github.Jobs.{Poller, poll, poll_repos, list_queued_jobs, events}
use mini_control_action.Github.Jobs.Gate.{IsOffer, wanted_serves, IsRespected, W-sweep_repos}

abbrev Always : Client → Type 0
Always c = Unit {0}

no_condition : IsRespected Always (λ run. Unit {0})
no_condition = record {
  step = λ c n h. tt;
  live = λ c id h. tt;
  free = λ c run h n. tt;
  put = λ c run h f. tt;
}

abbrev pub IsQueuedOffer : List Text → JobEvent → Type 0
IsQueuedOffer ours e = (e.action ≡ codes "queued") × (labels_satisfiable e.job.labels ours ≡ true)

events_offer :
    (ours : List Text) (refs : List JobRef)
    → All (IsOffer ours) refs
    → All (IsQueuedOffer ours) (events refs)
events_offer ours [] h = tt
events_offer ours (r ∷ refs) h = ((refl, h.0), events_offer ours refs h.1)

any_client : {A : Type 0} (m : G A) → Gives Always m Any
any_client m = record { kept = λ c h. tt; given = λ c a h e. tt }

listing_offers :
    (server : Server) (ours : List Text) (stopping : ℕ → Bool) (repos : List Text)
    → Gives Always (list_queued_jobs server ours stopping repos) (All (IsOffer ours))
unfolding list_queued_jobs
listing_offers server ours stopping repos = Gives-bind _ _ (any_client (change _)) λ _ _.
    Gives-bind _ _
      (W-sweep_repos no_condition server ours (IsOffer ours) (wanted_serves ours) stopping repos []
        tt)
      λ refs h. Gives-bind _ _ (any_client (change _)) (λ _ _. Gives-pure refs h)

-- Every event that a poll submits is a `queued` event of a job whose labels are all among the
-- configured runner labels, whatever the server answers.
pub poll_offers :
    (server : Server) (p : Poller) (stopping : ℕ → Bool) (c : Client) (evs : List JobEvent)
    → (poll server p stopping c).0 ≡ ok evs
    → All (IsQueuedOffer p.our_labels) evs
unfolding poll
poll_offers server p stopping c evs e = offers.given c evs tt e
  where
    offers : Gives Always (poll server p stopping) (All (IsQueuedOffer p.our_labels))
    offers = Gives-bind {Q = Any} _ _ (any_client (poll_repos server p)) λ repos _.
        Gives-bind _ _ (listing_offers server p.our_labels stopping repos)
          λ refs h. Gives-pure (events refs) (events_offer p.our_labels refs h)
