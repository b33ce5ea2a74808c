-- ===== src/Crawler/Executor/Commands.antt =====
-- All commands of a run: what they keep, and how the tasks of their applications end.
use sahabino.Common.{ℕ, Option, none, some, List, [], ◌∷◌}
use sahabino.Crawler.Exceptions.{
  Exception, Exceptions, Result, ok, raised, crawler, value_error, lookup_error, database_error,
  other_error, group, no_more, and_also,
}
use sahabino.Crawler.Lifecycle.{ApplicationRef, Database, TaskIds}
use sahabino.Crawler.World.{ProxyProvider, Environment, Settings, pure, ◌>>=◌}
use sahabino.Crawler.World.Frames.{Keeps, Keeps-pure, Keeps-raise, Keeps-bind, Keeps-attempt_then}
use sahabino.Crawler.World.Outcomes.{
  Ends, Ends-pure, Ends-bind, Ends-attempt_then, Ends-and, Ends-weaken,
}
use sahabino.Crawler.Client.{Retrying}
use sahabino.Crawler.Client.Frames.{Keeps-close, Keeps-open_client}
use sahabino.Crawler.Tasks.{
  append, fail_open_tasks, end_command, finish_command, and_close, with_client, execute,
}
use sahabino.Crawler.Tasks.Frames.{IsStable, IsOnRecord-IsStable, IsDone-IsStable, Keeps-run_task}
use sahabino.Crawler.Tasks.Settled.{
  AreOnRecord, AreBothDone, CommandEnd, Keeps-fail_task, Ends-execute,
}
use sahabino.Crawler.Executor.{first_error, run_commands}

module _ {P : Type 0} (env : Environment) (safe_error_message : Exception → List ℕ)
    (prov : ProxyProvider P) (s : Settings) (retrying : Retrying P) where
  module _ {I : Database → Type 0} (stable : IsStable I) where
    Keeps-and_close :
        (r : Result (Unit {0})) → Keeps I (and_close env safe_error_message prov s retrying r)
    unfolding and_close
    Keeps-and_close (ok a) = Keeps-bind (Keeps-close prov env s) (λ _. Keeps-pure a)
    Keeps-and_close (raised e) = Keeps-bind (Keeps-close prov env s) (λ _. Keeps-raise e)

    Keeps-with_client :
        (context : ℕ) (ids : TaskIds)
        → Keeps I (with_client env safe_error_message prov s retrying context ids)
    unfolding with_client
    Keeps-with_client context ids = Keeps-bind (Keeps-open_client prov env s context) (λ _.
        Keeps-attempt_then
          (Keeps-bind (Keeps-run_task env stable safe_error_message prov s retrying ids.details_id)
            (λ _. Keeps-run_task env stable safe_error_message prov s retrying ids.reviews_id))
          Keeps-and_close)

    Keeps-end_command :
        (e : Exception) (errors : Exceptions)
        → Keeps {P = P} I (end_command env safe_error_message e errors)
    unfolding end_command
    Keeps-end_command e (and_also x more) = Keeps-raise _
    Keeps-end_command (crawler e) no_more = Keeps-pure tt
    Keeps-end_command value_error no_more = Keeps-raise _
    Keeps-end_command lookup_error no_more = Keeps-raise _
    Keeps-end_command database_error no_more = Keeps-raise _
    Keeps-end_command other_error no_more = Keeps-raise _
    Keeps-end_command (group es) no_more = Keeps-raise _

    Keeps-finish_command :
        (ids : TaskIds) (r : Result (Unit {0}))
        → Keeps {P = P} I (finish_command env safe_error_message ids r)
    unfolding finish_command fail_open_tasks
    Keeps-finish_command ids (ok a) = Keeps-pure tt
    Keeps-finish_command ids (raised e) =
        Keeps-bind
          (Keeps-bind (Keeps-fail_task env safe_error_message ids stable ids.details_id e) (λ first.
            Keeps-bind (Keeps-fail_task env safe_error_message ids stable ids.reviews_id e)
              (λ second. Keeps-pure (append first second))))
          (Keeps-end_command e)

    Keeps-execute :
        (context : ℕ) (ids : TaskIds)
        → Keeps I (execute env safe_error_message prov s retrying context ids)
    unfolding execute
    Keeps-execute context ids =
        Keeps-attempt_then (Keeps-with_client context ids) (Keeps-finish_command ids)

    Keeps-run_commands :
        (list : List (ApplicationRef × TaskIds))
        → Keeps I (run_commands env safe_error_message prov s retrying list)
    unfolding run_commands
    Keeps-run_commands [] = Keeps-pure none
    Keeps-run_commands ((a, ids) ∷ rest) =
        Keeps-attempt_then (Keeps-execute a.application_id ids)
          (λ r. Keeps-bind (Keeps-run_commands rest) (λ e. Keeps-pure (first_error r e)))

-- All tasks of these applications are in the table, or done.
unfoldable pub AllOnRecord : List (ApplicationRef × TaskIds) → Database → Type 0
AllOnRecord [] d = Unit {0}
AllOnRecord ((a, ids) ∷ rest) d = AreOnRecord ids d × AllOnRecord rest d

unfoldable pub AllDone : List (ApplicationRef × TaskIds) → Database → Type 0
AllDone [] d = Unit {0}
AllDone ((a, ids) ∷ rest) d = AreBothDone ids d × AllDone rest d

AllOnRecord-IsStable : (list : List (ApplicationRef × TaskIds)) → IsStable (AllOnRecord list)
unfolding AllOnRecord
AllOnRecord-IsStable [] id edit refuses d d' h e = tt
AllOnRecord-IsStable ((a, ids) ∷ rest) id edit refuses d d' h e = (
  (
    IsOnRecord-IsStable ids.details_id id edit refuses d d' h.0.0 e,
    IsOnRecord-IsStable ids.reviews_id id edit refuses d d' h.0.1 e,
  ),
  AllOnRecord-IsStable rest id edit refuses d d' h.1 e,
)

both_done-IsStable : (ids : TaskIds) → IsStable (AreBothDone ids)
both_done-IsStable ids id edit refuses d d' h e = (
  IsDone-IsStable ids.details_id id edit refuses d d' h.0 e,
  IsDone-IsStable ids.reviews_id id edit refuses d d' h.1 e,
)

-- What the commands come to: if none raised, every task is done.
unfoldable pub CommandsEnd :
    List (ApplicationRef × TaskIds) → Result (Option Exception) → Database → Type 0
CommandsEnd list (ok none) d = AllDone list d
CommandsEnd list _ d = Unit {0}

module _ {P : Type 0} (env : Environment) (safe_error_message : Exception → List ℕ)
    (prov : ProxyProvider P) (s : Settings) (retrying : Retrying P) where
  -- After a command, and with what the others come to.
  Ends-first_error :
      (a : ApplicationRef) (ids : TaskIds) (rest : List (ApplicationRef × TaskIds))
      → ((e : Option Exception)
          → Ends {P = P}
              (λ d. CommandsEnd rest (ok e) d × AreBothDone ids d)
              (CommandsEnd ((a, ids) ∷ rest))
              (pure (first_error (ok tt) e)))
  unfolding CommandsEnd AllDone first_error
  Ends-first_error a ids rest none = Ends-pure none (λ d h. (h.1, h.0))
  Ends-first_error a ids rest (some e) = Ends-pure (some e) (λ d h. tt)

  Ends-others :
      (a : ApplicationRef) (ids : TaskIds) (rest : List (ApplicationRef × TaskIds))
      → Ends
          (AllOnRecord rest)
          (CommandsEnd rest)
          (run_commands env safe_error_message prov s retrying rest)
      → (r : Result (Unit {0}))
      → Ends
          (λ d. CommandEnd env ids r d × AllOnRecord rest d)
          (CommandsEnd ((a, ids) ∷ rest))
          (run_commands env safe_error_message prov s retrying rest
            >>= (λ e. pure (first_error r e)))
  unfolding CommandEnd CommandsEnd first_error
  Ends-others a ids rest ends (ok u) =
      Ends-bind
        (Ends-weaken (λ d h. (h.1, h.0))
          (Ends-and ends (
            Keeps-run_commands env safe_error_message prov s retrying (both_done-IsStable ids)
              rest))
          (λ r d h. h))
        (Ends-first_error a ids rest) (λ e d h. tt)
  Ends-others a ids rest ends (raised x) =
      Ends-bind {R = λ _ _. Unit {0}} (record { ends = λ w h. tt })
        (λ e. Ends-pure (some x) (λ d h. tt)) (λ e d h. tt)

  pub Ends-run_commands :
      (list : List (ApplicationRef × TaskIds))
      → Ends
          (AllOnRecord list)
          (CommandsEnd list)
          (run_commands env safe_error_message prov s retrying list)
  unfolding run_commands AllOnRecord CommandsEnd AllDone
  Ends-run_commands [] = Ends-pure none (λ d h. tt)
  Ends-run_commands ((a, ids) ∷ rest) =
      Ends-attempt_then
        (Ends-and (Ends-execute env safe_error_message ids prov s retrying a.application_id) (
          Keeps-execute env safe_error_message prov s retrying (AllOnRecord-IsStable rest)
            a.application_id ids))
        (Ends-others a ids rest (Ends-run_commands rest))
