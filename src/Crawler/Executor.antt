-- ===== src/Crawler/Executor.antt =====
-- The service that runs one crawl, crawler/application/executor.py. The commands of the pool run in
-- the order in which they are submitted: an interleaving of theirs is not modelled.
pub mod Commands
pub mod Completed
pub mod Tests
use sahabino.Common.{ℕ, Option, none, some, List, [], ◌∷◌}
use sahabino.Crawler.Exceptions.{Exception, Result, ok, raised, group, no_more, and_also}
use sahabino.Crawler.Lifecycle.{
  CrawlRunStatus, TriggerType, ApplicationRef, TaskIds, create_run, create_tasks, finish_run,
}
use sahabino.Crawler.World.{
  ProxyProvider, Environment, Settings, M, pure, raise, ◌>>=◌, ◌>>◌, attempt_then,
}
use Prim.Native.String.{String}
use sahabino.Crawler.World.Actions.{transact}
use sahabino.Crawler.Client.{Retrying}
use sahabino.Crawler.Tasks
use sahabino.Crawler.Tasks.{change}

module _ {P : Type 0} (env : Environment) where
  -- `_create_run`
  unfoldable pub start_run : TriggerType → Option ℕ → M P ℕ
  start_run trigger scheduled_for =
      transact env (λ now d. ok (create_run now trigger scheduled_for d))

  -- `_create_tasks`, with the default locale of the service.
  unfoldable pub start_tasks :
      ℕ → List ApplicationRef → String → String → M P (List (ApplicationRef × TaskIds))
  start_tasks run_id applications language_code country_code =
      transact env (λ _ d. ok (create_tasks run_id applications language_code country_code d))

  -- `_finish_run`
  unfoldable pub end_run : ℕ → Option CrawlRunStatus → M P (Unit {0})
  end_run run_id forced = change env (λ now. finish_run now run_id forced)

  both_failed : Exception → Result (Unit {0}) → M P (Unit {0})
  both_failed error (ok a) = pure a
  both_failed error (raised finalization_error) =
      raise (group (and_also error (and_also finalization_error no_more)))

  -- `_finish_failed_preserving`
  unfoldable pub finish_failed_preserving : ℕ → Exception → M P (Unit {0})
  unfolding end_run both_failed
  finish_failed_preserving run_id error =
      attempt_then (end_run run_id (some CrawlRunStatus.failed)) (both_failed error)

-- The exception that the loop over the results re-raises: that of the first command that raised.
unfoldable pub first_error : Result (Unit {0}) → Option Exception → Option Exception
first_error (ok _) rest = rest
first_error (raised e) rest = some e

module _ {P : Type 0} (env : Environment) (safe_error_message : Exception → List ℕ)
    (prov : ProxyProvider P) (s : Settings) (retrying : Retrying P) where
  -- All commands run, whichever of them raise.
  unfoldable pub run_commands : List (ApplicationRef × TaskIds) → M P (Option Exception)
  unfolding first_error
  run_commands [] = pure none
  run_commands ((a, ids) ∷ rest) =
      let others = run_commands rest in
      attempt_then (Tasks.execute env safe_error_message prov s retrying a.application_id ids)
        (λ r. others >>= (λ e. pure (first_error r e)))

  re_raise : Option Exception → M P (Unit {0})
  re_raise none = pure tt
  re_raise (some e) = raise e

  -- The second `try` body of `crawl_once`.
  unfoldable pub run_all : ℕ → List ApplicationRef → String → String → M P (Unit {0})
  unfolding start_tasks run_commands re_raise end_run
  run_all run_id applications language_code country_code = do
    task_ids ← start_tasks env run_id applications language_code country_code
    error ← run_commands task_ids
    re_raise error
    end_run env run_id none

  unfoldable pub finish_crawl : ℕ → Result (Unit {0}) → M P ℕ
  unfolding finish_failed_preserving
  finish_crawl run_id (ok _) = pure run_id
  finish_crawl run_id (raised e) = finish_failed_preserving env run_id e >> raise e

  -- What the registry returned or raised.
  unfoldable pub crawl : ℕ → Result (List ApplicationRef) → String → String → M P ℕ
  unfolding run_all finish_crawl finish_failed_preserving
  crawl run_id (raised e) language_code country_code =
      finish_failed_preserving env run_id e >> pure run_id
  crawl run_id (ok applications) language_code country_code =
      attempt_then (run_all run_id applications language_code country_code) (finish_crawl run_id)

  -- `crawl_once`; the registry's answer is given.
  unfoldable pub crawl_once :
      TriggerType → Option ℕ → Result (List ApplicationRef) → String → String → M P ℕ
  unfolding start_run crawl
  crawl_once trigger scheduled_for applications language_code country_code = do
    run_id ← start_run env trigger scheduled_for
    crawl run_id applications language_code country_code
