-- ===== src/Crawler/Executor/Completed.antt =====
-- What a crawl that returns has done to the tasks that it created, and to its run.
use Prim.Native.String.{String}
use sahabino.Common.{
  ℕ, ◌≡◌, refl, sym, subst, arith, Option, none, some, List, [], ◌∷◌, ℕ_discrete, Option-cases, inl,
  inr,
}
use sahabino.Common.Dict.{lookup, insert, lookup-insert}
use sahabino.Crawler.Exceptions.{Exception, Result, ok, raised}
use sahabino.Crawler.Lifecycle.{
  ApplicationRef, CrawlRun, CrawlTask, CrawlTaskType, app_details, reviews, Database, TaskIds,
  create_task, create_tasks, finish_run, run_status, task_statuses,
}
use sahabino.Crawler.Lifecycle.Tasks.{IsTerminal}
use sahabino.Crawler.World.{ProxyProvider, Environment, Settings, World, ◌>>=◌, ◌>>◌}
use sahabino.Crawler.World.Outcomes.{
  Ends, Ends-pure, Ends-raise, Ends-bind, Ends-attempt_then, OkEnd, Ends-transact,
}
use sahabino.Crawler.Client.{Retrying}
use sahabino.Crawler.Tasks.{change, without_value}
use sahabino.Crawler.Tasks.Frames.{IsOnRecord, without_value-ok}
use sahabino.Crawler.Executor.{
  start_tasks, end_run, run_commands, re_raise, run_all, finish_crawl, crawl,
}
use sahabino.Crawler.Executor.Commands.{AllOnRecord, AllDone, CommandsEnd, Ends-run_commands}

-- New rows do not displace the others, and are there themselves.
lookup-insert-some :
    (k j : ℕ) (row : CrawlTask) (tasks : List (ℕ × CrawlTask))
    → ((t : CrawlTask) × (lookup j tasks ≡ some t))
    → (t : CrawlTask) × (lookup j (insert k row tasks) ≡ some t)
lookup-insert-some k j row tasks (t, found) = elim (ℕ_discrete k j) [
  | yes new ↦ (row, ground (arith, lookup-insert k j row tasks))
  | no old ↦ (t, ground (arith, lookup-insert k j row tasks))
]

lookup-insert_self :
    {V : Type 0} (k : ℕ) (v : V) (entries : List (ℕ × V)) → lookup k (insert k v entries) ≡ some v
lookup-insert_self k v entries = ground (arith, lookup-insert k k v entries)

module _ (run : ℕ) (language country : String) where
  create_task-IsOnRecord :
      (a : ApplicationRef) (type : CrawlTaskType) (d : Database) (j : ℕ)
      → IsOnRecord j d
      → IsOnRecord j (create_task run a language country type d).1
  unfolding create_task
  create_task-IsOnRecord a type d j h = lookup-insert-some d.next_id j _ d.tasks h

  create_task-new :
      (a : ApplicationRef) (type : CrawlTaskType) (d : Database)
      → IsOnRecord
          (create_task run a language country type d).0
          (create_task run a language country type d).1
  unfolding create_task
  create_task-new a type d = (_, lookup-insert_self d.next_id _ d.tasks)

  create_tasks-IsOnRecord :
      (list : List ApplicationRef) (d : Database) (j : ℕ)
      → IsOnRecord j d
      → IsOnRecord j (create_tasks run list language country d).1
  unfolding create_tasks
  create_tasks-IsOnRecord [] d j h = h
  create_tasks-IsOnRecord (a ∷ rest) d j h =
      create_tasks-IsOnRecord rest _ j
        (create_task-IsOnRecord a reviews _ j (create_task-IsOnRecord a app_details d j h))

  create_tasks-AllOnRecord :
      (list : List ApplicationRef) (d : Database)
      → AllOnRecord
          (create_tasks run list language country d).0
          (create_tasks run list language country d).1
  unfolding create_tasks AllOnRecord
  create_tasks-AllOnRecord [] d = tt
  create_tasks-AllOnRecord (a ∷ rest) d = (
    (
      create_tasks-IsOnRecord rest _ _
          (create_task-IsOnRecord a reviews _ _ (create_task-new a app_details d)),
      create_tasks-IsOnRecord rest _ _ (create_task-new a reviews _),
    ),
    create_tasks-AllOnRecord rest _,
  )

-- The run is on record with the status that its tasks give.
abbrev pub RunFits : ℕ → Database → Type 0
RunFits run_id d =
    (run : CrawlRun) × (lookup run_id d.runs ≡ some run)
    × (run.status ≡ run_status (task_statuses run_id d.tasks))

AllDone-tasks :
    (list : List (ApplicationRef × TaskIds)) (d d' : Database)
    → d'.tasks ≡ d.tasks
    → AllDone list d
    → AllDone list d'
unfolding AllDone
AllDone-tasks [] d d' e h = tt
AllDone-tasks ((a, ids) ∷ rest) d d' e h = (
  subst
      (λ tasks.
        ((t : CrawlTask) × (lookup ids.details_id tasks ≡ some t) × IsTerminal t.status)
        × ((t : CrawlTask) × (lookup ids.reviews_id tasks ≡ some t) × IsTerminal t.status))
      (sym e) h.0,
  AllDone-tasks rest d d' e h.1,
)

finish_run-RunFits :
    (now run_id : ℕ) (d d' : Database)
    → finish_run now run_id none d ≡ ok d'
    → (d'.tasks ≡ d.tasks) × RunFits run_id d'
unfolding finish_run
finish_run-RunFits now run_id d d' e = elim (Option-cases (lookup run_id d.runs)) [
  | inl missing ↦ absurd (ground (arith, missing))
  | inr (r, found) ↦
      let ended : CrawlRun = record r {
        status = run_status (task_statuses run_id d.tasks);
        finished_at = some now;
      } in
      let made : record d { runs = insert run_id ended d.runs } ≡ d' = ground (arith, found) in
      subst (λ (x : Database). (x.tasks ≡ d.tasks) × RunFits run_id x) made
        (refl, (ended, lookup-insert_self run_id ended d.runs, refl))
]

-- What the crawl that returns leaves: the tasks are done and the run fits them.
abbrev pub IsFinished : ℕ → List (ApplicationRef × TaskIds) → Database → Type 0
IsFinished run_id list d = AllDone list d × RunFits run_id d

module _ {P : Type 0} (env : Environment) (run_id : ℕ)
    (list : List (ApplicationRef × TaskIds)) where
  Ends-end_run :
      Ends {P = P} (AllDone list) (OkEnd (λ _. IsFinished run_id list)) (end_run env run_id none)
  unfolding end_run change
  Ends-end_run =
      Ends-transact env (λ now d. without_value (finish_run now run_id none d))
        (λ now d d' a done e.
          let (tasks, fits) =
            finish_run-RunFits now run_id d d'
              (without_value-ok (finish_run now run_id none d) a d' e) in
          (AllDone-tasks list d d' tasks done, fits))

module _ {P : Type 0} (env : Environment) (safe_error_message : Exception → List ℕ)
    (prov : ProxyProvider P) (s : Settings) (retrying : Retrying P) (run_id : ℕ) where
  Ends-re_raise :
      (list : List (ApplicationRef × TaskIds)) (e : Option Exception)
      → Ends {P = P}
          (CommandsEnd list (ok e))
          (OkEnd (λ _. AllDone list))
          (re_raise env safe_error_message prov s retrying e)
  unfolding re_raise CommandsEnd OkEnd
  Ends-re_raise list none = Ends-pure tt (λ d h. h)
  Ends-re_raise list (some e) = Ends-raise e (λ d h. tt)

  -- From the tasks on record to the end of the run.
  Ends-from_tasks :
      (list : List (ApplicationRef × TaskIds))
      → Ends (AllOnRecord list) (OkEnd (λ _. IsFinished run_id list)) (
          run_commands env safe_error_message prov s retrying list
          >>= (λ e. re_raise env safe_error_message prov s retrying e >> end_run env run_id none))
  unfolding CommandsEnd OkEnd
  Ends-from_tasks list =
      Ends-bind (Ends-run_commands env safe_error_message prov s retrying list)
        (λ e. Ends-bind (Ends-re_raise list e) (λ _. Ends-end_run env run_id list) (λ x d h. tt))
        (λ x d h. tt)

  module _ (applications : List ApplicationRef) (language country : String) (d0 : Database) where
    abbrev created : List (ApplicationRef × TaskIds)
    created = (create_tasks run_id applications language country d0).0

    Ends-start_tasks :
        Ends {P = P}
          (λ d. d ≡ d0)
          (OkEnd (λ list d. (list ≡ created) × AllOnRecord created d))
          (start_tasks env run_id applications language country)
    unfolding start_tasks
    Ends-start_tasks =
        Ends-transact env (λ _ d. ok (create_tasks run_id applications language country d))
          (λ now d d' list same e.
            let pair : create_tasks run_id applications language country d ≡ (list, d') = cc in
            subst (λ x. (x.0 ≡ created) × AllOnRecord created x.1) pair
              (subst
                (λ y.
                  ((create_tasks run_id applications language country y).0 ≡ created)
                  × AllOnRecord created (create_tasks run_id applications language country y).1)
                (sym same)
                (refl, create_tasks-AllOnRecord run_id language country applications d0)))

    Ends-run_all :
        Ends
          (λ d. d ≡ d0)
          (OkEnd (λ _. IsFinished run_id created))
          (run_all env safe_error_message prov s retrying run_id applications language country)
    unfolding run_all OkEnd
    Ends-run_all =
        Ends-bind Ends-start_tasks
          (λ list. record {
            ends = λ w h.
                (subst
                    (λ l. Ends (AllOnRecord created) (OkEnd (λ _. IsFinished run_id created)) (
                      run_commands env safe_error_message prov s retrying l >>= (λ e.
                        re_raise env safe_error_message prov s retrying e
                        >> end_run env run_id none)))
                    (sym h.0) (Ends-from_tasks created)).ends
                  w h.1;
          })
          (λ x d h. tt)

    Ends-finish_crawl :
        (r : Result (Unit {0}))
        → Ends {P = P}
            (OkEnd (λ _. IsFinished run_id created) r)
            (OkEnd (λ _. IsFinished run_id created))
            (finish_crawl env safe_error_message prov s retrying run_id r)
    unfolding finish_crawl OkEnd
    Ends-finish_crawl (ok a) = Ends-pure run_id (λ d h. h)
    Ends-finish_crawl (raised e) =
        Ends-bind {R = λ _ _. Unit {0}} (record { ends = λ w h. tt })
          (λ _. Ends-raise e (λ d h. tt)) (λ x d h. tt)

  -- If a crawl returns that has loaded its applications, every task that it created for them has
  -- succeeded or failed, and the run has the status that the statuses of its tasks give.
  pub completed_run :
      (applications : List ApplicationRef) (language country : String) (w : World P) (result : ℕ)
      → (crawl env safe_error_message prov s retrying run_id (ok applications) language country w).0
        ≡ ok result
      → IsFinished run_id
          (create_tasks run_id applications language country w.db).0
          (crawl env safe_error_message prov s retrying run_id
            (ok applications)
            language
            country
            w).1.db
  unfolding crawl OkEnd
  completed_run applications language country w result returned =
      subst
        (λ r.
          OkEnd (λ (_ : ℕ). IsFinished run_id (created applications language country w.db)) r
            (crawl env safe_error_message prov s retrying run_id (ok applications) language country
              w).1.db)
        returned
        ((Ends-attempt_then (Ends-run_all applications language country w.db)
            (Ends-finish_crawl applications language country w.db)).ends
          w refl)
