-- ===== src/Scaler/Cleanup.antt =====
-- `deleteVM` and `removeRunnerRegistration` of internal/scaler/job.go.
use mini_control_action.Prelude.{
  ℕ, zero, suc, ◌*◌, Bool, ◌&&◌, List, [], ◌∷◌, Text, is_empty, ◌==◌, if◌then◌else◌,
}
use mini_control_action.Errors.{Result, ok, err, is_ok}
use mini_control_action.Minicontrol.{second}
use mini_control_action.Github.{Runner, reapable}
use mini_control_action.Scaler.World.{
  Env, M, ◌>>=◌, ◌>>◌, pure, get_rec, emit, ask, elapse, delete_sent, runners_query, remove_sent,
}

module _ (env : Env) where
  unfoldable pub delete_call : Text → M Bool
  unfolding ask emit pure
  delete_call id = do
    answer ← ask env (λ n. env.delete_vm n id)
    emit (delete_sent id (is_ok answer))
    pure (is_ok answer)

  -- `select` of a two-second timer and ctx.Done(): the wait is cut short by a shutdown.
  unfoldable pub delete_pause : M (Unit {0})
  unfolding ask elapse pure
  delete_pause = do fired ← ask env env.slept; (if fired then elapse (2 * second) else pure tt)

  -- One round of the loop; `rest` is the rounds after it.
  unfoldable pub delete_try : Text → M (Unit {0}) → M (Unit {0})
  unfolding delete_call delete_pause pure
  delete_try id rest = do
    deleted ← delete_call id
    (if deleted then pure tt else (do delete_pause; rest))

  -- The tries that are left.
  unfoldable pub delete_tries : ℕ → Text → M (Unit {0})
  unfolding delete_try pure
  delete_tries zero id = pure tt
  delete_tries (suc tries) id = delete_try id (delete_tries tries id)

  unfoldable pub delete_vm : M (Unit {0})
  unfolding delete_tries get_rec pure
  delete_vm = do r ← get_rec; (if is_empty r.vm_id then pure tt else delete_tries 3 r.vm_id)

  unfoldable pub query_runners : M (Result (List Runner))
  unfolding ask get_rec emit pure
  query_runners = do
    r ← get_rec
    answer ← ask env (λ n. env.list_runners n r.repo)
    emit runners_query
    pure answer

  unfoldable pub remove_call : ℕ → M (Result (Unit {0}))
  unfolding ask get_rec emit pure
  remove_call id = do
    r ← get_rec
    answer ← ask env (λ n. env.remove_runner n r.repo id)
    emit (remove_sent id)
    pure answer

  unfoldable pub remove_if_reapable : ℕ → Runner → M (Unit {0}) → M (Unit {0})
  unfolding remove_call pure
  remove_if_reapable id x later =
      if x.id == id && reapable x then (do remove_call x.id; pure tt) else later

  unfoldable pub remove_reapable : ℕ → List Runner → M (Unit {0})
  unfolding remove_if_reapable pure
  remove_reapable id [] = pure tt
  remove_reapable id (x ∷ runners) = remove_if_reapable id x (remove_reapable id runners)

  unfoldable pub remove_listed : ℕ → Result (List Runner) → M (Unit {0})
  unfolding remove_reapable pure
  remove_listed id (err e) = pure tt
  remove_listed id (ok runners) = remove_reapable id runners

  unfoldable pub remove_runner_registration : M (Unit {0})
  unfolding query_runners remove_listed get_rec pure
  remove_runner_registration = do
    r ← get_rec
    (if r.runner_id == 0
        then pure tt
        else (do answer ← query_runners; remove_listed r.runner_id answer))
