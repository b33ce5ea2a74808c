-- ===== src/Crawler/Tasks/Frames.antt =====
-- What the command of an application keeps: every statement that no change of a task row can break.
use sahabino.Common.{
  ℕ, ◌≡◌, subst, ◌≢◌, inl, inr, none, some, List, arith, ℕ_discrete, Option-cases,
}
use sahabino.Common.Dict.{lookup, insert, lookup-insert}
use sahabino.Crawler.Exceptions.{
  Exception, Exceptions, Result, ok, raised, Result-cases, crawler, value_error, lookup_error,
  database_error, other_error, group,
}
use sahabino.Crawler.Lifecycle.{
  CrawlTask, Database, on_task, begin_row, retry_row, succeed_row, fail_row,
}
use sahabino.Crawler.Lifecycle.Tasks.{
  IsTerminal, begin_row-terminal, retry_row-terminal, succeed_row-terminal, fail_row-terminal,
}
use sahabino.Crawler.World.{ProxyProvider, Environment, Settings, raise, ◌>>◌}
use sahabino.Crawler.World.Frames.{
  Keeps, Keeps-pure, Keeps-raise, Keeps-bind, Keeps-attempt_then, Keeps-transact,
}
use sahabino.Crawler.Client.{Retrying}
use sahabino.Crawler.Client.Frames.{HooksKeep, Keeps-execute}
use sahabino.Crawler.Tasks.{
  error_code, publish_end, without_value, change, publish, hooks, mark_succeeded, mark_failed,
  also_failed, mark_failure, finish_task, finalization_error, fetch_and_publish, run_task,
}

-- A row change that a terminal row refuses.
abbrev pub RefusesTerminal : (CrawlTask → Result CrawlTask) → Type 0
RefusesTerminal edit = (t t' : CrawlTask) → IsTerminal t.status → edit t ≢ ok t'

-- Such changes, of whatever row, do not break the statement.
abbrev pub IsStable : (Database → Type 0) → Type 0
IsStable I =
    (id : ℕ) (edit : CrawlTask → Result CrawlTask)
    → RefusesTerminal edit
    → (d d' : Database) → I d
    → on_task id edit d ≡ ok d'
    → I d'

-- The task is in the table; it is there and in a terminal status.
abbrev pub IsOnRecord : ℕ → Database → Type 0
IsOnRecord id d = (t : CrawlTask) × (lookup id d.tasks ≡ some t)

abbrev pub IsDone : ℕ → Database → Type 0
IsDone id d = (t : CrawlTask) × (lookup id d.tasks ≡ some t) × IsTerminal t.status

-- What a change that was made did to the table.
pub on_task-ok :
    (id : ℕ) (edit : CrawlTask → Result CrawlTask) (d d' : Database)
    → on_task id edit d ≡ ok d'
    → (t : CrawlTask) × (t' : CrawlTask) × (lookup id d.tasks ≡ some t)
      × (edit t ≡ ok t')
      × (d'.tasks ≡ insert id t' d.tasks)
unfolding on_task
on_task-ok id edit d d' e = elim (Option-cases (lookup id d.tasks)) [
  | inl missing ↦ absurd (ground (arith, missing))
  | inr (t, found) ↦ elim (Result-cases (edit t)) [
    | inl (t', changed) ↦ (t, t', found, changed, ground (arith, found, changed))
    | inr (x, refused) ↦ absurd (ground (arith, found, refused))
  ]
]

pub IsOnRecord-IsStable : (j : ℕ) → IsStable (IsOnRecord j)
IsOnRecord-IsStable j id edit refuses d d' (t, found) e =
    let (old, new, at, changed, tasks) = on_task-ok id edit d d' e in
    elim (ℕ_discrete id j) [
      | yes same ↦ (new, ground (arith, lookup-insert id j new d.tasks))
      | no other ↦ (t, ground (arith, lookup-insert id j new d.tasks))
    ]

pub IsDone-IsStable : (j : ℕ) → IsStable (IsDone j)
IsDone-IsStable j id edit refuses d d' (t, found, done) e =
    let (old, new, at, changed, tasks) = on_task-ok id edit d d' e in
    elim (ℕ_discrete id j) [
      | yes same ↦
          let unchanged : t ≡ old = ground (arith, at, found, same) in
          absurd (
            refuses old new (subst (λ (x : CrawlTask). IsTerminal x.status) unchanged done) changed)
      | no other ↦ (t, ground (arith, lookup-insert id j new d.tasks), done)
    ]

-- Without the value, a change that is made is made.
pub without_value-ok :
    (r : Result Database) (a : Unit {0}) (d : Database) → without_value r ≡ ok (a, d) → r ≡ ok d
unfolding without_value
without_value-ok (ok d') a d e = ground (arith, e)
without_value-ok (raised x) a d e = ground (arith, e)

module _ {P : Type 0} {I : Database → Type 0} (env : Environment) (stable : IsStable I) where
  Keeps-change :
      (id : ℕ) (edit : ℕ → CrawlTask → Result CrawlTask)
      → ((now : ℕ) → RefusesTerminal (edit now))
      → Keeps {P = P} I (change env (λ now. on_task id (edit now)))
  unfolding change
  Keeps-change id edit refuses =
      Keeps-transact env (λ now d. without_value (on_task id (edit now) d))
        (λ now d d' a h e.
          stable id (edit now) (refuses now) d d' h
            (without_value-ok (on_task id (edit now) d) a d' e))

  Keeps-publish : (payload : ℕ) → Keeps {P = P} I (publish env payload)
  unfolding publish
  Keeps-publish payload = record {
    keeps = λ w h. elim (env.publish w.asked) as (λ o. I (publish_end payload w o).1.db) [
      | none ↦ h
      | some e ↦ h
    ];
  }

  module _ (safe_error_message : Exception → List ℕ) where
    hooks-HooksKeep : (id : ℕ) → HooksKeep {P = P} I (hooks env safe_error_message id)
    unfolding hooks
    hooks-HooksKeep id = record {
      keeps_attempt =
          λ _. Keeps-change id begin_row (λ now t t' done. begin_row-terminal t done now t');
      keeps_retry =
          λ _. Keeps-change id (λ _. retry_row) (λ _ t t' done. retry_row-terminal t done t');
    }

    pub Keeps-mark_succeeded : (id : ℕ) → Keeps {P = P} I (mark_succeeded env safe_error_message id)
    unfolding mark_succeeded
    Keeps-mark_succeeded id =
        Keeps-change id succeed_row (λ now t t' done. succeed_row-terminal t done now t')

    pub Keeps-mark_failed :
        (id : ℕ) (e : Exception) → Keeps {P = P} I (mark_failed env safe_error_message id e)
    unfolding mark_failed
    Keeps-mark_failed id e =
        Keeps-change id (λ now. fail_row now (error_code e) (safe_error_message e))
          (λ now t t' done. fail_row-terminal t done now (error_code e) (safe_error_message e) t')

    Keeps-also_failed :
        (e : Exception) (r : Result (Unit {0}))
        → Keeps {P = P} I (also_failed env safe_error_message e r)
    unfolding also_failed
    Keeps-also_failed e (ok a) = Keeps-pure a
    Keeps-also_failed e (raised x) = Keeps-raise _

    pub Keeps-mark_failure :
        (id : ℕ) (e : Exception) → Keeps {P = P} I (mark_failure env safe_error_message id e)
    unfolding mark_failure
    Keeps-mark_failure id e = Keeps-attempt_then (Keeps-mark_failed id e) (Keeps-also_failed e)

    pub Keeps-re_raise :
        (id : ℕ) (e : Exception)
        → Keeps {P = P} {A = Unit {0}} I (mark_failure env safe_error_message id e >> raise e)
    Keeps-re_raise id e = Keeps-bind (Keeps-mark_failure id e) (λ _. Keeps-raise e)

    Keeps-finish_task :
        (id : ℕ) (r : Result (Unit {0})) → Keeps {P = P} I (finish_task env safe_error_message id r)
    unfolding finish_task
    Keeps-finish_task id (ok a) = Keeps-mark_succeeded id
    Keeps-finish_task id (raised (crawler e)) = Keeps-mark_failure id (crawler e)
    Keeps-finish_task id (raised value_error) = Keeps-re_raise id value_error
    Keeps-finish_task id (raised lookup_error) = Keeps-re_raise id lookup_error
    Keeps-finish_task id (raised database_error) = Keeps-re_raise id database_error
    Keeps-finish_task id (raised other_error) = Keeps-re_raise id other_error
    Keeps-finish_task id (raised (group es)) = Keeps-re_raise id (group es)

    pub Keeps-finalization_error :
        (rest : Exceptions) (r : Result (Unit {0}))
        → Keeps {P = P} I (finalization_error env safe_error_message rest r)
    unfolding finalization_error
    Keeps-finalization_error rest (ok a) = Keeps-pure rest
    Keeps-finalization_error rest (raised value_error) = Keeps-pure rest
    Keeps-finalization_error rest (raised (crawler e)) = Keeps-pure _
    Keeps-finalization_error rest (raised lookup_error) = Keeps-pure _
    Keeps-finalization_error rest (raised database_error) = Keeps-pure _
    Keeps-finalization_error rest (raised other_error) = Keeps-pure _
    Keeps-finalization_error rest (raised (group es)) = Keeps-pure _

    module _ (prov : ProxyProvider P) (s : Settings) (retrying : Retrying P) where
      pub Keeps-fetch_and_publish :
          (id : ℕ) → Keeps I (fetch_and_publish env safe_error_message prov s retrying id)
      unfolding fetch_and_publish
      Keeps-fetch_and_publish id =
          Keeps-bind
            (Keeps-execute prov env s (hooks env safe_error_message id) (hooks-HooksKeep id)
              retrying)
            Keeps-publish

      pub Keeps-run_task : (id : ℕ) → Keeps I (run_task env safe_error_message prov s retrying id)
      unfolding run_task
      Keeps-run_task id = Keeps-attempt_then (Keeps-fetch_and_publish id) (Keeps-finish_task id)
