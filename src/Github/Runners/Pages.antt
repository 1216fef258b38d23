-- ===== src/Github/Runners/Pages.antt =====
-- The pagination of `ListRunners` of internal/githubapp/client.go.
use mini_control_action.Prelude.{
  ℕ, zero, suc, ◌+◌, ◌*◌, ◌-◌, ◌≤◌, ◌<◌, min, ◌≡◌, refl, sym, ap, ◌∙◌, Bool, true, false, some,
  List, [], Text, length, take, drop, ltb, arith, take-append_drop, length-take, length-drop,
  take_all, if◌then◌else◌,
}
use mini_control_action.Errors.{too_many_pages, Result, ok, err}
use mini_control_action.Config.{GitHub}
use mini_control_action.Github.{Runner}
use mini_control_action.Github.Api.{
  Server, Client, G, ◌>>=◌, pure, fail, call, interpret, get_request,
}
use mini_control_action.Github.Runners.{
  page_path, page_size, page_cap, runner_page, runner_pages, list_runners, runners_base,
}

-- The server has the runners `all`, and answers each page of a hundred of them, up to the page cap.
pub record IsPaged (server : Server) (base : Text) (all : List Runner) : Type 0 where
  pub page :
      (n p : ℕ)
      → p < page_cap
      → interpret
          (server.time n)
          []
          (some server.json.runners)
          (server.send n (get_request (page_path base (p + 1))))
        ≡ ok (take page_size (drop (page_size * p) all))

pub short_page :
    (l m n : ℕ) → n ≡ min page_size (l - m) → m ≤ l → ltb n page_size ≡ true → l < m + page_size
short_page l m n e h k = ground arith

pub full_page :
    (l m n : ℕ) → n ≡ min page_size (l - m) → m ≤ l → ltb n page_size ≡ false → m + page_size ≤ l
full_page l m n e h k = ground arith

lt_test : (m n : ℕ) → m < n → ltb m n ≡ true
lt_test m n h = ground arith

ge_test : (m n : ℕ) → n ≤ m → ltb m n ≡ false
ge_test m n h = ground arith

module _ (server : Server) (base : Text) (all : List Runner) (paged : IsPaged server base all) where
  -- What the pages come to, when `m` runners and `left` pages are the most.
  abbrev whole_or_error : ℕ → Result (List Runner)
  whole_or_error most = if ltb (length all) most then ok all else err too_many_pages

  runner_page-step :
      (p : ℕ) (rest : List Runner → G (List Runner)) (c : Client)
      → p < page_cap
      → (runner_page server base (p + 1) (take (page_size * p) all) rest c).0 ≡ (
          if ltb (length (take page_size (drop (page_size * p) all))) page_size
          then ok (take (page_size * p + page_size) all)
          else (rest (take (page_size * p + page_size) all) (record c { step = c.step + 1 })).0)
  unfolding runner_page call pure ◌>>=◌
  runner_page-step p rest c b =
      rw (paged.page c.step p b, take-append_drop (page_size * p) page_size all)
        (either (ltb (length (take page_size (drop (page_size * p) all))) page_size))
    where
      found : List Runner
      found = take (page_size * p + page_size) all

      either :
          (b : Bool)
          → ((if b then pure found else rest found) (record c { step = c.step + 1 })).0
            ≡ (if b then ok found else (rest found (record c { step = c.step + 1 })).0)
      either true = refl
      either false = refl

  runner_pages_lem :
      (left p page m : ℕ) (found : List Runner) (c : Client)
      → m ≡ page_size * p
      → page ≡ p + 1
      → found ≡ take (page_size * p) all
      → m ≤ length all
      → p + left ≡ page_cap
      → (runner_pages server left base page found c).0 ≡ whole_or_error (m + page_size * left)
  unfolding runner_pages fail
  runner_pages_lem zero p page m found c e f g h b =
      rw (ge_test (length all) (m + page_size * 0) (omega arith)) refl
  runner_pages_lem (suc left) p page m found c e f g h b =
      rw (f, g)
        (runner_page-step p (runner_pages server left base (p + 1 + 1)) c (omega arith)
          ∙ last_or_more _ refl (λ k.
            runner_pages_lem left (p + 1) (p + 1 + 1) (m + page_size) _ _ (omega arith) refl
              (ap (λ i. take i all) {x = page_size * p + page_size} (omega arith)) k (omega arith)))
    where
      size :
          length (take page_size (drop (page_size * p) all))
          ≡ min page_size (length all - page_size * p)
      size =
          length-take page_size (drop (page_size * p) all)
          ∙ ap (min page_size) (length-drop (page_size * p) all)

      last_or_more :
          {more : Result (List Runner)} (b : Bool)
          → ltb (length (take page_size (drop (page_size * p) all))) page_size ≡ b
          → (m + page_size ≤ length all → more ≡ whole_or_error (m + page_size + page_size * left))
          → (if b then ok (take (page_size * p + page_size) all) else more)
            ≡ whole_or_error (m + page_size * suc left)
      last_or_more true q k =
          let below = short_page (length all) (page_size * p) _ size (omega arith) q in
          ap ok (take_all (page_size * p + page_size) all (omega arith))
          ∙ sym (
              ap (λ b. if b then ok all else err too_many_pages)
                (lt_test (length all) (m + page_size * suc left) (omega arith)))
      last_or_more false q k =
          let full = full_page (length all) (page_size * p) _ size (omega arith) q in
          k (omega arith) ∙ ap whole_or_error {x = m + page_size + page_size * left} (omega arith)

-- From a server that has the runners `all` and answers each of their first 20 pages: `ListRunners` returns all of
-- them, in order, if they are less than 2,000, and an error otherwise; it never returns a part of them.
pub list_runners_whole :
    (cfg : GitHub) (server : Server) (repo : Text) (all : List Runner) (c : Client)
    → IsPaged server (runners_base cfg repo) all
    → (list_runners cfg server repo c).0
      ≡ (if ltb (length all) 2000 then ok all else err too_many_pages)
unfolding list_runners
list_runners_whole cfg server repo all c paged =
    runner_pages_lem server (runners_base cfg repo) all paged page_cap 0 1 0 [] c refl refl refl
      (omega arith) refl
