-- ===== src/Crawler/Tasks/Settled.antt =====
-- How the two tasks of an application end, whatever the network, the publisher and the database do.
use sahabino.Common.{ℕ, ◌≡◌, subst, ◌⊎◌, inl, inr, false, List, arith}
use sahabino.Crawler.Exceptions.{
  Exception, Exceptions, Result, ok, raised, crawler, value_error, lookup_error, database_error,
  other_error, group, no_more, and_also,
}
use sahabino.Crawler.Lifecycle.{Database, TaskIds}
use sahabino.Crawler.World.{ProxyProvider, Environment, Settings, World, pure, attempt_then}
use sahabino.Crawler.World.Frames.{Keeps, Keeps-attempt_then}
use sahabino.Crawler.World.Outcomes.{
  Ends, Ends-pure, Ends-raise, Ends-bind, Ends-attempt_then, Ends-Keeps, Ends-and, Ends-weaken,
}
use sahabino.Crawler.Client.{Retrying}
use sahabino.Crawler.Client.Frames.{Keeps-close, Keeps-open_client}
use sahabino.Crawler.Tasks.{
  mark_failed, finalization_error, append, fail_open_tasks, end_command, finish_command, run_task,
  and_close, with_client, execute,
}
use sahabino.Crawler.Tasks.Frames.{
  IsStable, IsOnRecord, IsDone, IsOnRecord-IsStable, IsDone-IsStable, Keeps-mark_failed,
  Keeps-finalization_error, Keeps-fetch_and_publish, Keeps-run_task,
}
use sahabino.Crawler.Tasks.TaskEnds.{
  HasFault, TaskEnd, Finalized, IsDone-IsOnRecord, Ends-mark_failed, Ends-finish_task,
  Ends-finalization_error,
}

abbrev pub AreBothDone : TaskIds → Database → Type 0
AreBothDone ids d = IsDone ids.details_id d × IsDone ids.reviews_id d

abbrev pub AreOnRecord : TaskIds → Database → Type 0
AreOnRecord ids d = IsOnRecord ids.details_id d × IsOnRecord ids.reviews_id d

-- What the `with` block comes to.
BlockEnd : TaskIds → Result (Unit {0}) → Database → Type 0
BlockEnd ids (ok _) d = AreBothDone ids d
BlockEnd ids (raised _) d = AreOnRecord ids d

AllFinalized : Environment → TaskIds → Result Exceptions → Database → Type 0
AllFinalized env ids (ok no_more) d = AreBothDone ids d
AllFinalized env ids (ok (and_also _ _)) d = HasFault env
AllFinalized env ids (raised _) d = HasFault env

unfoldable pub CommandEnd : Environment → TaskIds → Result (Unit {0}) → Database → Type 0
CommandEnd env ids (ok _) d = AreBothDone ids d
CommandEnd env ids (raised _) d = AreBothDone ids d ⊎ HasFault env

settled-AreOnRecord : (ids : TaskIds) (d : Database) → AreBothDone ids d → AreOnRecord ids d
settled-AreOnRecord ids d (a, b) =
    (IsDone-IsOnRecord ids.details_id d a, IsDone-IsOnRecord ids.reviews_id d b)

Finalized-IsStable :
    (env : Environment) (id : ℕ) (errors : Exceptions) → IsStable (Finalized env id (ok errors))
unfolding Finalized
Finalized-IsStable env id no_more = IsDone-IsStable id
Finalized-IsStable env id (and_also x more) = λ _ _ _ _ _ h _. h

module _ {P : Type 0} (env : Environment) (safe_error_message : Exception → List ℕ)
    (ids : TaskIds) where
  Ends-fail_task :
      (id : ℕ) (e : Exception)
      → Ends {P = P} (IsOnRecord id) (Finalized env id) (
          attempt_then
            (mark_failed env safe_error_message id e)
            (finalization_error env safe_error_message no_more))
  Ends-fail_task id e =
      Ends-attempt_then (Ends-mark_failed env safe_error_message id e)
        (Ends-finalization_error env safe_error_message id)

  pub Keeps-fail_task :
      {I : Database → Type 0}
      → IsStable I
      → (id : ℕ) (e : Exception)
      → Keeps {P = P} I (
          attempt_then
            (mark_failed env safe_error_message id e)
            (finalization_error env safe_error_message no_more))
  Keeps-fail_task stable id e =
      Keeps-attempt_then (Keeps-mark_failed env stable safe_error_message id e)
        (Keeps-finalization_error env stable safe_error_message no_more)

  Ends-append :
      (first second : Exceptions)
      → Ends {P = P}
          (λ d.
            Finalized env ids.reviews_id (ok second) d × Finalized env ids.details_id (ok first) d)
          (AllFinalized env ids)
          (pure (append first second))
  unfolding Finalized AllFinalized append
  Ends-append no_more no_more = Ends-pure _ (λ d h. (h.1, h.0))
  Ends-append no_more (and_also x more) = Ends-pure _ (λ d h. h.0)
  Ends-append (and_also x more) second = Ends-pure _ (λ d h. h.1)

  Ends-fail_open_tasks :
      (e : Exception)
      → Ends {P = P}
          (AreOnRecord ids)
          (AllFinalized env ids)
          (fail_open_tasks env safe_error_message ids e)
  unfolding fail_open_tasks
  Ends-fail_open_tasks e =
      Ends-bind
        (Ends-and (Ends-fail_task ids.details_id e)
          (Keeps-fail_task (IsOnRecord-IsStable ids.reviews_id) ids.details_id e))
        (λ first.
          Ends-bind
            (Ends-weaken (λ d h. (h.1, h.0))
              (Ends-and (Ends-fail_task ids.reviews_id e)
                (Keeps-fail_task (Finalized-IsStable env ids.details_id first) ids.reviews_id e))
              (λ r d h. h))
            (Ends-append first) (λ x d h. unfold Finalized AllFinalized in h.0))
        (λ x d h. unfold Finalized AllFinalized in h.0)

  Ends-end_command :
      (e : Exception) (errors : Exceptions)
      → Ends {P = P}
          (AllFinalized env ids (ok errors))
          (CommandEnd env ids)
          (end_command env safe_error_message e errors)
  unfolding AllFinalized CommandEnd end_command
  Ends-end_command e (and_also x more) = Ends-raise _ (λ d h. inr h)
  Ends-end_command (crawler e) no_more = Ends-pure tt (λ d h. h)
  Ends-end_command value_error no_more = Ends-raise _ (λ d h. inl h)
  Ends-end_command lookup_error no_more = Ends-raise _ (λ d h. inl h)
  Ends-end_command database_error no_more = Ends-raise _ (λ d h. inl h)
  Ends-end_command other_error no_more = Ends-raise _ (λ d h. inl h)
  Ends-end_command (group es) no_more = Ends-raise _ (λ d h. inl h)

  module _ (prov : ProxyProvider P) (s : Settings) (retrying : Retrying P) where
    Ends-run_task :
        (id : ℕ)
        → Ends (IsOnRecord id) (TaskEnd id) (run_task env safe_error_message prov s retrying id)
    unfolding run_task
    Ends-run_task id =
        Ends-attempt_then
          (Ends-Keeps (
            Keeps-fetch_and_publish env (IsOnRecord-IsStable id) safe_error_message prov s retrying
              id))
          (Ends-finish_task env safe_error_message id)

    Ends-run_details :
        Ends
          (AreOnRecord ids)
          (λ r d. TaskEnd ids.details_id r d × IsOnRecord ids.reviews_id d)
          (run_task env safe_error_message prov s retrying ids.details_id)
    Ends-run_details = Ends-and (Ends-run_task ids.details_id) (
        Keeps-run_task env (IsOnRecord-IsStable ids.reviews_id) safe_error_message prov s retrying
          ids.details_id)

    Ends-run_reviews :
        Ends
          (λ d. IsDone ids.details_id d × IsOnRecord ids.reviews_id d)
          (BlockEnd ids)
          (run_task env safe_error_message prov s retrying ids.reviews_id)
    unfolding TaskEnd BlockEnd
    Ends-run_reviews =
        Ends-weaken (λ d h. (h.1, h.0))
          (Ends-and (Ends-run_task ids.reviews_id) (
            Keeps-run_task env (IsDone-IsStable ids.details_id) safe_error_message prov s retrying
              ids.reviews_id))
          (λ r d. block_end r d)
      where
        block_end :
            (r : Result (Unit {0})) (d : Database)
            → TaskEnd ids.reviews_id r d × IsDone ids.details_id d
            → BlockEnd ids r d
        block_end (ok a) d h = (h.1, h.0)
        block_end (raised e) d h = (IsDone-IsOnRecord ids.details_id d h.1, h.0)

    Ends-and_close :
        (r : Result (Unit {0}))
        → Ends (BlockEnd ids r) (BlockEnd ids) (and_close env safe_error_message prov s retrying r)
    unfolding BlockEnd and_close
    Ends-and_close (ok a) =
        Ends-bind (Ends-Keeps (Keeps-close prov env s)) (λ _. Ends-pure a (λ d h. h))
          (λ e. settled-AreOnRecord ids)
    Ends-and_close (raised e) =
        Ends-bind (Ends-Keeps (Keeps-close prov env s)) (λ _. Ends-raise e (λ d h. h)) (λ x d h. h)

    Ends-with_client :
        (context : ℕ)
        → Ends
            (AreOnRecord ids)
            (BlockEnd ids)
            (with_client env safe_error_message prov s retrying context ids)
    unfolding with_client TaskEnd BlockEnd
    Ends-with_client context =
        Ends-bind (Ends-Keeps (Keeps-open_client prov env s context))
          (λ _.
            Ends-attempt_then (Ends-bind Ends-run_details (λ _. Ends-run_reviews) (λ e d h. h))
              Ends-and_close)
          (λ e d h. h)

    Ends-finish_command :
        (r : Result (Unit {0}))
        → Ends {P = P}
            (BlockEnd ids r)
            (CommandEnd env ids)
            (finish_command env safe_error_message ids r)
    unfolding finish_command BlockEnd CommandEnd
    Ends-finish_command (ok a) = Ends-pure tt (λ d h. h)
    Ends-finish_command (raised e) =
        Ends-bind (Ends-fail_open_tasks e) (Ends-end_command e)
          (λ x d h. inr (unfold AllFinalized in h))

    pub Ends-execute :
        (context : ℕ)
        → Ends
            (AreOnRecord ids)
            (CommandEnd env ids)
            (execute env safe_error_message prov s retrying context ids)
    unfolding execute
    Ends-execute context = Ends-attempt_then (Ends-with_client context) Ends-finish_command

    -- If the command of an application returns, both of its tasks, which were in the table, have
    -- succeeded or failed; this holds whatever the adapters, the provider, the publisher and the
    -- database do.
    pub returns_settled :
        (context : ℕ) (w : World P)
        → AreOnRecord ids w.db
        → (execute env safe_error_message prov s retrying context ids w).0 ≡ ok tt
        → AreBothDone ids (execute env safe_error_message prov s retrying context ids w).1.db
    unfolding CommandEnd
    returns_settled context w on_record returned =
        subst
          (λ r.
            CommandEnd env ids r
              (execute env safe_error_message prov s retrying context ids w).1.db)
          returned ((Ends-execute context).ends w on_record)

    -- If no commit fails, then however the command of an application ends, both of its tasks, which
    -- were in the table, have succeeded or failed.
    pub settled_without_faults :
        (context : ℕ) (w : World P)
        → AreOnRecord ids w.db
        → ((k : ℕ) → env.commit_fails k ≡ false)
        → AreBothDone ids (execute env safe_error_message prov s retrying context ids w).1.db
    unfolding CommandEnd
    settled_without_faults context w on_record commits =
        no_fault (execute env safe_error_message prov s retrying context ids w).0
          (execute env safe_error_message prov s retrying context ids w).1.db
          ((Ends-execute context).ends w on_record)
      where
        no_fault :
            (r : Result (Unit {0})) (d : Database) → CommandEnd env ids r d → AreBothDone ids d
        no_fault (ok a) d h = h
        no_fault (raised e) d (inl h) = h
        no_fault (raised e) d (inr (k, fails)) = absurd (ground (arith, commits k, fails))
