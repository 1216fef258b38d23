-- ===== src/Lib.antt =====
-- minicontrol-runner: ephemeral macOS runners for GitHub Actions. The service polls GitHub for queued
-- jobs, makes one virtual machine for each, starts a runner in it, and deletes the machine when the
-- job is over.
--
-- The parts, and the files that model them:
--   internal/scaler/job.go            Scaler and its child modules. Scaler.World has what a worker acts
--     on and the interactions it is made of; Scaler.Create is `createVM`, Scaler.Boot `waitReady` and
--     `bootstrapRunner` (with `downloadURL` of scaler.go), Scaler.Monitor `monitor`, Scaler.Cleanup
--     `deleteVM` and `removeRunnerRegistration`, Scaler.Attempt `attempt` and `runJob`.
--   internal/scaler/scaler.go         Scaler.Dispatch: `Submit`, `Resume`, `spawn`, `Active`, and the map of
--     active workers.
--   internal/state/store.go           State (the record of a job) and State.Store (the map and its file).
--   internal/minicontrol              Minicontrol (types, tests on errors), Minicontrol.Client (requests
--     and replies), Minicontrol.Bucket (the token bucket of creates), Minicontrol.Fake (the fake service,
--     a state that requests change; the requests and the VMs' polls are sequences of steps).
--   internal/reconciler               Reconciler: the part of `Sweep` that deletes orphan VMs;
--     Reconciler.Walk the walk over the records; Reconciler.Registrations `cleanRunners`; Reconciler.Pass
--     `Sweep`, put together from them.
--   internal/githubapp                Github (types, labels), Github.Api (`do`, and the state of the
--     client), Github.Runners, Github.Repos, Github.Jobs (the calls, and `poll` of poller.go).
--   internal/bootstrap                Bootstrap (the status that a VM reports), Bootstrap.Commands.
--   internal/config                   Config, Config.Defaults, Config.Validate, Config.Load.
--   cmd/minicontrol-runner            Wiring (the poller and the scaler together), Wiring.Smoke `runSmoke`,
--     Wiring.DryRun `runDryRun`; Wiring.Status is /status of internal/httpserver.
--   Errors has the errors of all packages as one type, Prelude the strings and numbers of Go. Examples
--   has concrete inputs.
--
-- How the parts interact: a worker writes its record through State.Store before and after each step, it
-- calls the two services through the environment of Scaler.World, and the record in the store is what
-- the next start of the service resumes from.
--
-- A worker is a function from its state to its state: the record (which the code passes by pointer),
-- the store, the clock, the number of interactions so far and a trace of the calls. The environment
-- answers each interaction as a function of its number, so that a theorem for every environment covers
-- every sequence of answers, failures, timer and shutdown signals. Other workers change other keys of
-- the store, and are not part of one worker's run.
--
-- A Go string is its list of bytes, a duration or a time a number of nanoseconds that is not negative,
-- `int` and `int64` are unbounded, but for the delay of a Retry-After header, which wraps around: the
-- identifiers come from the services, and the counters of the code are far from 2^63. The loops of `createVM`, `waitReady`, `monitor` and `runJob` have no bound in the
-- code, nor has that of `runSmoke`; in the model they run on fuel, and a run that is cut off ends in
-- `none` with the state that it has reached. No fuel is fixed. Enough for the loops of an attempt is
-- more than the provisioning timeout and the longest job in nanoseconds, since each round takes time
-- and tests its deadline; enough for `runJob` is one attempt more than the retries that are left.
--
-- The client of GitHub is an action on its state over a server that answers the numbered requests; the
-- scaler's environment stands for its calls, and the poller's events for those that a worker reads. In
-- a sweep of the reconciler, what the other workers do between its steps is an argument.
--
-- `strings.ToLower` and `strings.EqualFold` are modelled on the letters of ASCII; other letters are
-- compared as they are. The token bucket counts exactly where the source rounds floats, so the length
-- of a wait is exact only up to a nanosecond. A file of the store is the records that it was encoded
-- from; what decoding gives back is an argument, and that strings of valid UTF-8 come back is what
-- State.Store.Encoding assumes of it.
--
-- Not modelled: internal/logging; in internal/httpserver and cmd/minicontrol-runner, flags, signals,
-- printing and the server; the tickers that repeat a poll and a sweep; ghfake, and the tests.
-- `net/http`, `encoding/json`, the YAML decoder, `text/template` and `encoding/base64` are parameters of
-- the definitions that use them.
mod Prelude
pub mod Errors
pub mod State
pub mod Minicontrol
pub mod Github
pub mod Bootstrap
pub mod Config
pub mod Scaler
pub mod Reconciler
pub mod Wiring
mod Examples
