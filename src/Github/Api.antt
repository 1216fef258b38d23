-- ===== src/Github/Api.antt =====
-- `do` and `doAt` of internal/githubapp/client.go: what the client sends, how it reads an answer, and
-- the state that its calls share. `net/http` is the argument `send` of a server, `encoding/json` its
-- decoders; requests are numbered.
use mini_control_action.Prelude.{
  ℕ, ◌+◌, ◌-◌, ◌*◌, ◌%◌, min, of_bits, Bool, false, not, ◌||◌, Option, none, some, List, [], ◌∷◌,
  Text, ℤ, pos, negsuc, take, leb, ◌==◌, atoi, is_lit, is_empty, if◌then◌else◌,
}
use mini_control_action.Errors.{Error, github, transport, undecodable, Result, ok, err}
use mini_control_action.Github.{Runner, JobStatus}

pub data Method : Type 0 where
  get post delete : Method

-- The body of generate-jitconfig; an empty work folder is left out of the JSON.
pub record JitBody : Type 0 where
  pub name : Text
  pub labels : List Text
  pub group : ℤ
  pub work_folder : Text

-- `public` asks the public API for the release, whatever the configured base URL.
pub record Request : Type 0 where
  pub method : Method
  pub public : Bool
  pub path : Text
  pub body : Option JitBody

-- `content` is what was read of the body: an error of the read is ignored, and so is what stands
-- behind the first 4 MiB.
pub record Reply : Type 0 where
  pub status : ℕ
  pub content : Text
  pub retry_after : Text
  pub remaining : Text
  pub reset : Text

pub data Outcome : Type 0 where
  lost : Outcome
  replied : Reply → Outcome

-- The replies' JSON.
pub record RepoJson : Type 0 where
  pub full_name : Text
  pub archived : Bool
  pub pushed_at : Option ℕ

pub record Run : Type 0 where
  pub id : ℕ
  pub updated_at : Text

pub record JobJson : Type 0 where
  pub id : ℕ
  pub run_id : ℕ
  pub run_attempt : ℤ
  pub status : Text
  pub labels : List Text

pub record Asset : Type 0 where
  pub name : Text
  pub url : Text

pub record Release : Type 0 where
  pub tag : Text
  pub assets : List Asset

pub record Json : Type 0 where
  pub repos : Text → Option (List RepoJson)
  pub runners : Text → Option (List Runner)
  pub jit : Text → Option (Text × ℕ)
  pub job_status : Text → Option JobStatus
  pub runs : Text → Option (List Run)
  pub jobs : Text → Option (List JobJson)
  pub release : Text → Option Release

pub record Server : Type 0 where
  pub send : ℕ → Request → Outcome
  pub time : ℕ → ℕ
  pub json : Json

pub record RepoInfo : Type 0 where
  pub full_name : Text
  pub pushed_at : ℕ

-- The fields of `Client` that calls change, the number of the next request, and `liveRuns` of
-- `ListQueuedJobs`. An empty `repo_cache` is the nil slice; `run_updated` is a map from run IDs.
pub record Client : Type 0 where
  pub step : ℕ
  pub repo_cache : List RepoInfo
  pub repo_at : ℕ
  pub run_updated : List Run
  pub live_runs : List ℕ

-- An action on the client; an error ends it, and what it has changed stays.
abbrev pub G : Type 0 → Type 0
G A = Client → Result A × Client

abbrev pub continue : {A B : Type 0} → Result A → (A → G B) → G B
continue (ok a) f c = f a c
continue (err e) f c = (err e, c)

infixl 5 ◌>>=◌ ◌>>◌
unfoldable pub ◌>>=◌ : {A B : Type 0} → G A → (A → G B) → G B
◌>>=◌ m f c = let (r, c') = m c in continue r f c'

abbrev pub ◌>>◌ : {A B : Type 0} → G A → G B → G B
m >> k = m >>= λ _. k

unfoldable pub pure : {A : Type 0} → A → G A
pure a c = (ok a, c)

unfoldable pub fail : {A : Type 0} → Error → G A
fail e c = (err e, c)

unfoldable pub gets : {A : Type 0} → (Client → A) → G A
gets f c = (ok (f c), c)

unfoldable pub change : (Client → Client) → G (Unit {0})
change f c = (ok tt, f c)

abbrev pub get_request : Text → Request
get_request path = record { method = get; public = false; path = path; body = none }

abbrev second : ℕ
second = 1000000000

-- `time.Duration(secs) * time.Second`, which wraps around.
abbrev scale : Option ℤ → ℤ
scale none = pos 0
scale (some (pos n)) = of_bits (n * second % 18446744073709551616)
scale (some (negsuc n)) =
    of_bits (18446744073709551615 - (n * second + 999999999) % 18446744073709551616)

abbrev longest : ℕ
longest = 9223372036854775807

-- time.Until, which stops at the longest duration, of a time that is `n` seconds after the epoch
abbrev minus : ℕ → ℕ → ℤ
minus a b = if leb b a then pos (min (a - b) longest) else negsuc (min (b - a - 1) longest)

abbrev until : ℕ → Option ℤ → ℤ
until now none = pos 0
until now (some (pos n)) = minus (n * second) now
until now (some (negsuc n)) = negsuc (min (n * second + 999999999 + now) longest)

-- The wait that a 403 or a 429 asks for.
unfoldable pub retry_after : ℕ → Reply → ℤ
retry_after now r =
    if r.status == 403 || r.status == 429
    then (if not (is_empty r.retry_after)
        then scale (atoi r.retry_after)
        else if is_lit r.remaining "0"
        then until now (atoi r.reset)
        else pos 0)
    else pos 0

abbrev pub body_limit : ℕ
body_limit = 4194304

module _ {A : Type 0} where
  abbrev decoded : Option A → Result A
  decoded none = err undecodable
  decoded (some a) = ok a

  abbrev accept : A → Option (Text → Option A) → Text → Result A
  accept zero_value none content = ok zero_value
  accept zero_value (some decode) [] = ok zero_value
  accept zero_value (some decode) (c ∷ content) = decoded (decode (c ∷ content))

  -- `doAt` on what the server answered at the time `now`.
  unfoldable pub interpret : ℕ → A → Option (Text → Option A) → Outcome → Result A
  unfolding retry_after
  interpret now zero_value decode lost = err transport
  interpret now zero_value decode (replied r) =
      let content = take body_limit r.content in
      if leb 300 r.status
      then err
          (github (record { status = r.status; body = content; retry_after = retry_after now r }))
      else accept zero_value decode content

module _ (server : Server) where
  unfoldable pub call : {A : Type 0} → A → Option (Text → Option A) → Request → G A
  unfolding interpret
  call zero_value decode req c = (
    interpret (server.time c.step) zero_value decode (server.send c.step req),
    record c { step = c.step + 1 },
  )
