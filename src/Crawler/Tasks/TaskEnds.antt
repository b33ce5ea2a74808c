-- ===== src/Crawler/Tasks/TaskEnds.antt =====
-- How one task of an application ends, for the command's handlers (crawler/application/tasks.py).
use Prim.Native.String.{String}
use sahabino.Common.{ℕ, ◌≡◌, refl, sym, subst, inl, inr, true, some, List, arith, Bool-cases}
use sahabino.Common.Dict.{lookup, lookup-insert}
use sahabino.Crawler.Exceptions.{
  Exception, Exceptions, Result, ok, raised, Result-cases, crawler, value_error, lookup_error,
  database_error, other_error, group, no_more, and_also,
}
use sahabino.Crawler.Lifecycle.{CrawlTask, Database, on_task, succeed_row, fail_row}
use sahabino.Crawler.Lifecycle.Tasks.{IsTerminal}
use sahabino.Crawler.World.{Environment, World, raise, ◌>>◌}
use sahabino.Crawler.World.Actions.{transact, finish_transaction}
use sahabino.Crawler.World.Outcomes.{
  Ends, Ends-pure, Ends-raise, Ends-bind, Ends-attempt_then, Ends-and, Ends-weaken,
}
use sahabino.Crawler.Tasks.{
  error_code, without_value, change, mark_succeeded, mark_failed, also_failed, mark_failure,
  finish_task, finalization_error,
}
use sahabino.Crawler.Tasks.Frames.{
  IsOnRecord, IsDone, on_task-ok, IsOnRecord-IsStable, Keeps-mark_failed,
}

-- A commit fails at some time.
abbrev pub HasFault : Environment → Type 0
HasFault env = (k : ℕ) × (env.commit_fails k ≡ true)

-- A row change whose result, when there is one, is terminal, and that raises on terminal rows only.
abbrev Finishes : (CrawlTask → Result CrawlTask) → Type 0
Finishes edit = (t t' : CrawlTask) → edit t ≡ ok t' → IsTerminal t'.status

succeed_row-Finishes : (now : ℕ) → Finishes (succeed_row now)
unfolding succeed_row
succeed_row-Finishes now t t' e = ground arith

fail_row-Finishes : (now : ℕ) (code : String) (m : List ℕ) → Finishes (fail_row now code m)
unfolding fail_row
fail_row-Finishes now code m t t' e = ground arith

fail_row-raised :
    (now : ℕ) (code : String) (m : List ℕ) (t : CrawlTask) (x : Exception)
    → fail_row now code m t ≡ raised x
    → (x ≡ value_error) × IsTerminal t.status
unfolding fail_row
fail_row-raised now code m t x e = ground arith

on_task-Finishes :
    (id : ℕ) (edit : CrawlTask → Result CrawlTask)
    → Finishes edit
    → (d d' : Database) → on_task id edit d ≡ ok d'
    → IsDone id d'
on_task-Finishes id edit finishes d d' e =
    let (old, new, at, changed, tasks) = on_task-ok id edit d d' e in
    (new, ground (arith, lookup-insert id id new d.tasks), finishes old new changed)

on_task-raised :
    (id : ℕ) (edit : CrawlTask → Result CrawlTask) (d : Database) (t : CrawlTask) (x : Exception)
    → lookup id d.tasks ≡ some t
    → on_task id edit d ≡ raised x
    → edit t ≡ raised x
unfolding on_task
on_task-raised id edit d t x found e = elim (Result-cases (edit t)) [
  | inl (t', changed) ↦ absurd (ground (arith, found, changed))
  | inr (y, refused) ↦ ground (arith, found, refused)
]

-- What `mark_failed` comes to for a task on record.
unfoldable pub Marked : Environment → ℕ → Result (Unit {0}) → Database → Type 0
Marked env id (ok _) d = IsDone id d
Marked env id (raised value_error) d = IsDone id d
Marked env id (raised _) d = HasFault env

-- What a task comes to, of which only the value says that it is done.
unfoldable pub TaskEnd : ℕ → Result (Unit {0}) → Database → Type 0
TaskEnd id (ok _) d = IsDone id d
TaskEnd id (raised _) d = IsOnRecord id d

-- What the list of finalization errors says of a task.
unfoldable pub Finalized : Environment → ℕ → Result Exceptions → Database → Type 0
Finalized env id (ok no_more) d = IsDone id d
Finalized env id (ok (and_also _ _)) d = HasFault env
Finalized env id (raised _) d = HasFault env

pub IsDone-IsOnRecord : (id : ℕ) (d : Database) → IsDone id d → IsOnRecord id d
IsDone-IsOnRecord id d (t, found, done) = (t, found)

module _ {P : Type 0} (env : Environment) (safe_error_message : Exception → List ℕ) where
  finish-Marked :
      (id now : ℕ) (code : String) (m : List ℕ) (w : World P)
      → IsOnRecord id w.db
      → (r : Result Database) → on_task id (fail_row now code m) w.db ≡ r
      → Marked env id
          (finish_transaction env (without_value r) w).0
          (finish_transaction env (without_value r) w).1.db
  unfolding finish_transaction without_value Marked
  finish-Marked id now code m w on_record (ok d) e =
      elim (Bool-cases (env.commit_fails w.transactions)) [
        | inl fails ↦ rw fails (w.transactions, fails)
        | inr commits ↦
            rw commits
              (on_task-Finishes id (fail_row now code m) (fail_row-Finishes now code m) w.db d e)
      ]
  finish-Marked id now code m w (t, found) (raised x) e =
      let (value, done) =
        fail_row-raised now code m t x (on_task-raised id (fail_row now code m) w.db t x found e) in
      subst (λ y. Marked env id (raised y) w.db) (sym value) (t, found, done)

  pub Ends-mark_failed :
      (id : ℕ) (e : Exception)
      → Ends {P = P} (IsOnRecord id) (Marked env id) (mark_failed env safe_error_message id e)
  unfolding mark_failed change transact
  Ends-mark_failed id e = record {
    ends = λ w h.
        finish-Marked id (env.now w.transactions) (error_code e) (safe_error_message e) w h
          (on_task id (fail_row (env.now w.transactions) (error_code e) (safe_error_message e))
            w.db)
          refl;
  }

  finish-TaskEnd :
      (id now : ℕ) (w : World P) (r : Result Database)
      → on_task id (succeed_row now) w.db ≡ r
      → IsOnRecord id w.db
      → TaskEnd id
          (finish_transaction env (without_value r) w).0
          (finish_transaction env (without_value r) w).1.db
  unfolding finish_transaction without_value TaskEnd
  finish-TaskEnd id now w (ok d) e h = elim (Bool-cases (env.commit_fails w.transactions)) [
    | inl fails ↦ rw fails h
    | inr commits ↦
        rw commits (on_task-Finishes id (succeed_row now) (succeed_row-Finishes now) w.db d e)
  ]
  finish-TaskEnd id now w (raised x) e h = h

  Ends-mark_succeeded :
      (id : ℕ)
      → Ends {P = P} (IsOnRecord id) (TaskEnd id) (mark_succeeded env safe_error_message id)
  unfolding mark_succeeded change transact
  Ends-mark_succeeded id = record {
    ends = λ w h.
        finish-TaskEnd id (env.now w.transactions) w
          (on_task id (succeed_row (env.now w.transactions)) w.db) refl h;
  }

  Ends-also_failed :
      (id : ℕ) (e : Exception) (r : Result (Unit {0}))
      → Ends {P = P}
          (λ d. Marked env id r d × IsOnRecord id d)
          (TaskEnd id)
          (also_failed env safe_error_message e r)
  unfolding also_failed Marked TaskEnd
  Ends-also_failed id e (ok a) = Ends-pure a (λ d h. h.0)
  Ends-also_failed id e (raised x) = Ends-raise _ (λ d h. h.1)

  Ends-mark_failure :
      (id : ℕ) (e : Exception)
      → Ends {P = P} (IsOnRecord id) (TaskEnd id) (mark_failure env safe_error_message id e)
  unfolding mark_failure
  Ends-mark_failure id e =
      Ends-attempt_then
        (Ends-weaken {I = λ d. IsOnRecord id d × IsOnRecord id d} (λ d h. (h, h))
          (Ends-and (Ends-mark_failed id e)
            (Keeps-mark_failed env (IsOnRecord-IsStable id) safe_error_message id e))
          (λ r d h. h))
        (Ends-also_failed id e)

  Ends-re_raise :
      (id : ℕ) (e : Exception)
      → Ends {P = P}
          (IsOnRecord id)
          (TaskEnd id)
          (mark_failure env safe_error_message id e >> raise {A = Unit {0}} e)
  unfolding TaskEnd
  Ends-re_raise id e =
      Ends-bind (Ends-mark_failure id e) (λ _. Ends-raise e (IsDone-IsOnRecord id)) (λ _ d h. h)

  pub Ends-finish_task :
      (id : ℕ) (r : Result (Unit {0}))
      → Ends {P = P} (IsOnRecord id) (TaskEnd id) (finish_task env safe_error_message id r)
  unfolding finish_task
  Ends-finish_task id (ok a) = Ends-mark_succeeded id
  Ends-finish_task id (raised (crawler e)) = Ends-mark_failure id (crawler e)
  Ends-finish_task id (raised value_error) = Ends-re_raise id value_error
  Ends-finish_task id (raised lookup_error) = Ends-re_raise id lookup_error
  Ends-finish_task id (raised database_error) = Ends-re_raise id database_error
  Ends-finish_task id (raised other_error) = Ends-re_raise id other_error
  Ends-finish_task id (raised (group es)) = Ends-re_raise id (group es)

  pub Ends-finalization_error :
      (id : ℕ) (r : Result (Unit {0}))
      → Ends {P = P}
          (Marked env id r)
          (Finalized env id)
          (finalization_error env safe_error_message no_more r)
  unfolding finalization_error Marked Finalized
  Ends-finalization_error id (ok a) = Ends-pure no_more (λ d h. h)
  Ends-finalization_error id (raised value_error) = Ends-pure no_more (λ d h. h)
  Ends-finalization_error id (raised (crawler e)) = Ends-pure _ (λ d h. h)
  Ends-finalization_error id (raised lookup_error) = Ends-pure _ (λ d h. h)
  Ends-finalization_error id (raised database_error) = Ends-pure _ (λ d h. h)
  Ends-finalization_error id (raised other_error) = Ends-pure _ (λ d h. h)
  Ends-finalization_error id (raised (group es)) = Ends-pure _ (λ d h. h)
