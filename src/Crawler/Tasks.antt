-- ===== src/Crawler/Tasks.antt =====
-- The command of one application, crawler/application/tasks.py: its two tasks and how they end.
-- Logging and time measurement are left out. The package name, the locale and the limit of reviews
-- are arguments of the adapter only.
pub mod Frames
pub mod TaskEnds
pub mod Settled
pub mod Tests
use Prim.Native.String.{String}
use sahabino.Common.{ℕ, ◌+◌, Bool, Option, none, some, List, [], ◌∷◌}
use sahabino.Crawler.Errors.{CrawlerError, code, crawler_error}
use sahabino.Crawler.Exceptions.{
  Exception, Exceptions, Result, ok, raised, crawler, value_error, group, no_more, and_also,
}
use sahabino.Crawler.Lifecycle.{
  Database, TaskIds, begin_attempt, mark_retrying, mark_task_succeeded, mark_task_failed,
}
use sahabino.Crawler.World.{
  ProxyProvider, Environment, Settings, World, M, Hooks, pure, raise, ◌>>=◌, ◌>>◌, attempt_then,
}
use sahabino.Crawler.World.Actions.{transact}
use sahabino.Crawler.Client
use sahabino.Crawler.Client.{Retrying}

-- `_error_code`
unfoldable pub error_code : Exception → String
error_code (crawler e) = code e.kind
error_code _ = code crawler_error

-- The result of a row change, as that of an operation without a value.
unfoldable pub without_value : Result Database → Result (Unit {0} × Database)
without_value (ok d) = ok (tt, d)
without_value (raised e) = raised e

-- A transaction with one row change and a commit.
unfoldable pub change :
    {P : Type 0} → Environment → (ℕ → Database → Result Database) → M P (Unit {0})
unfolding without_value
change env operation = transact env (λ now d. without_value (operation now d))

-- The publisher: it raises what the surroundings answer, else the event is sent.
abbrev publish_end : {P : Type 0} → ℕ → World P → Option Exception → Result (Unit {0}) × World P
publish_end payload w (some e) = (raised e, record w { asked = w.asked + 1 })
publish_end payload w none =
    (ok tt, record w { asked = w.asked + 1; published = payload ∷ w.published })

unfoldable pub publish : {P : Type 0} → Environment → ℕ → M P (Unit {0})
publish env payload w = publish_end payload w (env.publish w.asked)

-- The exceptions of the first task before those of the second.
pub append : Exceptions → Exceptions → Exceptions
append no_more rest = rest
append (and_also e more) rest = and_also e (append more rest)

-- `safe_error_message` is given: it edits the exception's text, which the model has not.
module _ {P : Type 0} (env : Environment) (safe_error_message : Exception → List ℕ) where
  -- `_hooks`, with `_begin_attempt` and `_mark_retrying`; the attempt's number is only logged.
  unfoldable pub hooks : ℕ → Hooks P
  unfolding change
  hooks task_id = record {
    before_attempt = λ _. change env (λ now. begin_attempt now task_id);
    before_retry = λ _. change env (λ _. mark_retrying task_id);
  }

  -- `_mark_succeeded`
  unfoldable pub mark_succeeded : ℕ → M P (Unit {0})
  unfolding change
  mark_succeeded task_id = change env (λ now. mark_task_succeeded now task_id)

  -- `_mark_failed`
  unfoldable pub mark_failed : ℕ → Exception → M P (Unit {0})
  unfolding change error_code
  mark_failed task_id error =
      change env (λ now. mark_task_failed now task_id (error_code error) (safe_error_message error))

  also_failed : Exception → Result (Unit {0}) → M P (Unit {0})
  also_failed error (ok a) = pure a
  also_failed error (raised finalization_error) =
      raise (group (and_also error (and_also finalization_error no_more)))

  -- `_mark_expected_failure` and `_mark_unexpected_failure`, which differ in the group's message.
  unfoldable pub mark_failure : ℕ → Exception → M P (Unit {0})
  unfolding mark_failed also_failed
  mark_failure task_id error = attempt_then (mark_failed task_id error) (also_failed error)

  -- The `except` and `else` clauses of `_run_details` and `_run_reviews`.
  unfoldable pub finish_task : ℕ → Result (Unit {0}) → M P (Unit {0})
  unfolding mark_succeeded mark_failure
  finish_task task_id (ok _) = mark_succeeded task_id
  finish_task task_id (raised (crawler e)) = mark_failure task_id (crawler e)
  finish_task task_id (raised e) = mark_failure task_id e >> raise e

  -- What the failure of one task adds in `_fail_open_tasks`.
  unfoldable pub finalization_error : Exceptions → Result (Unit {0}) → M P Exceptions
  finalization_error rest (ok _) = pure rest
  finalization_error rest (raised value_error) = pure rest
  finalization_error rest (raised e) = pure (and_also e rest)

  -- `_fail_open_tasks`; `no_more` is the empty list.
  unfoldable pub fail_open_tasks : TaskIds → Exception → M P Exceptions
  unfolding append finalization_error mark_failed
  fail_open_tasks ids error = do
    first ← attempt_then (mark_failed ids.details_id error) (finalization_error no_more)
    second ← attempt_then (mark_failed ids.reviews_id error) (finalization_error no_more)
    pure (append first second)

  -- The end of the two `except` clauses of `execute`: a crawler error that is on record in both
  -- tasks goes no further.
  unfoldable pub end_command : Exception → Exceptions → M P (Unit {0})
  end_command error (and_also e more) = raise (group (and_also error (and_also e more)))
  end_command (crawler e) no_more = pure tt
  end_command error no_more = raise error

  unfoldable pub finish_command : TaskIds → Result (Unit {0}) → M P (Unit {0})
  unfolding fail_open_tasks end_command
  finish_command ids (ok _) = pure tt
  finish_command ids (raised e) = fail_open_tasks ids e >>= end_command e

  module _ (prov : ProxyProvider P) (s : Settings) (retrying : Retrying P) where
    -- The `try` body of `_run_details` and `_run_reviews`.
    unfoldable pub fetch_and_publish : ℕ → M P (Unit {0})
    unfolding hooks publish
    fetch_and_publish task_id = do
      payload ← Client.execute prov env s retrying (hooks task_id)
      publish env payload

    -- `_run_details` and `_run_reviews`
    unfoldable pub run_task : ℕ → M P (Unit {0})
    unfolding fetch_and_publish finish_task
    run_task task_id = attempt_then (fetch_and_publish task_id) (finish_task task_id)

    -- The `finally` of `open_application`.
    unfoldable pub and_close : Result (Unit {0}) → M P (Unit {0})
    and_close (ok a) = Client.close prov env s >> pure a
    and_close (raised e) = Client.close prov env s >> raise e

    -- The `with` block of `execute`.
    unfoldable pub with_client : ℕ → TaskIds → M P (Unit {0})
    unfolding run_task and_close
    with_client context ids = do
      Client.open_client prov env s context
      attempt_then (do run_task ids.details_id; run_task ids.reviews_id) and_close

    -- `execute`
    unfoldable pub execute : ℕ → TaskIds → M P (Unit {0})
    unfolding with_client finish_command
    execute context ids = attempt_then (with_client context ids) (finish_command ids)
