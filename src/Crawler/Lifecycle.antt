-- ===== src/Crawler/Lifecycle.antt =====
-- The crawl lifecycle: the statuses of crawler/domain/results.py, the tables of
-- crawler/infrastructure/persistence/models.py, and the operations of
-- crawler/infrastructure/persistence/repository.py. A row's primary key is a number that the next
-- insertion takes from `next_id`, for the UUID that the source draws. `_now()` is an argument.
pub mod Tasks
pub mod Runs
pub mod Tests
use Prim.Native.String.{String}
use sahabino.Common.{
  ℕ, suc, ◌+◌, Bool, true, false, not, ◌&&◌, ◌||◌, Option, none, some, List, [], ◌∷◌, ◌==◌,
  if◌then◌else◌, length, take,
}
use sahabino.Common.Dict.{Dict, lookup, insert}
use sahabino.Crawler.Exceptions.{Result, ok, raised, value_error, lookup_error}

pub data TriggerType : Type 0 where
  scheduled manual : TriggerType

pub data CrawlRunStatus : Type 0 where
  pending running succeeded partially_failed failed : CrawlRunStatus

pub data CrawlTaskType : Type 0 where
  app_details reviews : CrawlTaskType

pub data CrawlTaskStatus : Type 0 where
  pending running retrying succeeded failed : CrawlTaskStatus

pub record CrawlRun : Type 0 where
  pub trigger_type : TriggerType
  pub status : CrawlRunStatus
  pub scheduled_for : Option ℕ
  pub started_at : Option ℕ
  pub finished_at : Option ℕ

-- An error message is the list of its code points.
pub record CrawlTask : Type 0 where
  pub crawl_run_id : ℕ
  pub application_id : ℕ
  pub task_type : CrawlTaskType
  pub status : CrawlTaskStatus
  pub language_code : String
  pub country_code : String
  pub attempt_count : ℕ
  pub started_at : Option ℕ
  pub finished_at : Option ℕ
  pub error_code : Option String
  pub error_message : Option (List ℕ)

pub record Database : Type 0 where
  pub runs : Dict CrawlRun
  pub tasks : Dict CrawlTask
  pub next_id : ℕ

-- `ApplicationRef`; a locale that is set is not blank, and both parts are set or neither is.
pub record ApplicationRef : Type 0 where
  pub application_id : ℕ
  pub locale : Option (String × String)

unfoldable pub effective_locale : ApplicationRef → String → String → String × String
effective_locale a language_code country_code = elim a.locale [
  | none ↦ (language_code, country_code)
  | some l ↦ l
]

unfoldable pub create_run : ℕ → TriggerType → Option ℕ → Database → ℕ × Database
create_run now trigger_type scheduled_for d = (
  d.next_id,
  record d {
    runs =
        insert d.next_id
          (record {
            trigger_type = trigger_type;
            status = running;
            scheduled_for = scheduled_for;
            started_at = some now;
            finished_at = none;
          })
          d.runs;
    next_id = d.next_id + 1;
  },
)

-- The inner step of `create_tasks`: one PENDING row.
unfoldable pub create_task :
    ℕ → ApplicationRef → String → String → CrawlTaskType → Database → ℕ × Database
unfolding effective_locale
create_task run_id a language_code country_code task_type d =
    let (language, country) = effective_locale a language_code country_code in
    (
      d.next_id,
      record d {
        tasks =
            insert d.next_id
              (record {
                crawl_run_id = run_id;
                application_id = a.application_id;
                task_type = task_type;
                status = pending;
                language_code = language;
                country_code = country;
                attempt_count = 0;
                started_at = none;
                finished_at = none;
                error_code = none;
                error_message = none;
              })
              d.tasks;
        next_id = d.next_id + 1;
      },
    )

-- The task ids of one application, one for each `CrawlTaskType`.
pub record TaskIds : Type 0 where
  pub details_id : ℕ
  pub reviews_id : ℕ

-- `create_tasks`; its dictionary by application and type is a list beside the applications. The run is
-- new and its applications are distinct rows of the registry, so the unique constraint on run,
-- application and type holds; that the transaction fails is an answer of the surroundings.
unfoldable pub create_tasks :
    ℕ
    → List ApplicationRef
    → String
    → String
    → Database
    → List (ApplicationRef × TaskIds) × Database
create_tasks run_id [] language_code country_code d = ([], d)
create_tasks run_id (a ∷ rest) language_code country_code d =
    let (details, d1) = create_task run_id a language_code country_code app_details d in
    let (revs, d2) = create_task run_id a language_code country_code reviews d1 in
    let (ids, d3) = create_tasks run_id rest language_code country_code d2 in
    ((a, record { details_id = details; reviews_id = revs }) ∷ ids, d3)

-- The row changes of the four transitions, with their guards.
unfoldable pub begin_row : ℕ → CrawlTask → Result CrawlTask
begin_row now t = elim t.status [
  | pending ↦ ok begun
  | retrying ↦ ok begun
  | _ ↦ raised value_error
]
  where
    begun : CrawlTask
    begun = record t {
      status = running;
      attempt_count = t.attempt_count + 1;
      started_at = elim t.started_at [ none ↦ some now | some s ↦ some s ];
      error_code = none;
      error_message = none;
    }

unfoldable pub retry_row : CrawlTask → Result CrawlTask
retry_row t = elim t.status [
  | running ↦ ok (record t { status = retrying })
  | _ ↦ raised value_error
]

unfoldable pub succeed_row : ℕ → CrawlTask → Result CrawlTask
succeed_row now t = elim t.status [
  | running ↦ ok (record t {
    status = succeeded;
    finished_at = some now;
    error_code = none;
    error_message = none;
  })
  | _ ↦ raised value_error
]

unfoldable pub fail_row : ℕ → String → List ℕ → CrawlTask → Result CrawlTask
fail_row now code message t = elim t.status [
  | succeeded ↦ raised value_error
  | failed ↦ raised value_error
  | _ ↦ ok (record t {
    status = failed;
    finished_at = some now;
    error_code = some code;
    error_message = some (take 500 message);
  })
]

-- `_task`, a change of the row, and the flush.
unfoldable pub on_task : ℕ → (CrawlTask → Result CrawlTask) → Database → Result Database
on_task id change d = elim (lookup id d.tasks) [
  | none ↦ raised lookup_error
  | some t ↦ elim (change t) [
    | ok t' ↦ ok (record d { tasks = insert id t' d.tasks })
    | raised e ↦ raised e
  ]
]

abbrev pub begin_attempt : ℕ → ℕ → Database → Result Database
begin_attempt now id = on_task id (begin_row now)

abbrev pub mark_retrying : ℕ → Database → Result Database
mark_retrying id = on_task id retry_row

abbrev pub mark_task_succeeded : ℕ → ℕ → Database → Result Database
mark_task_succeeded now id = on_task id (succeed_row now)

abbrev pub mark_task_failed : ℕ → ℕ → String → List ℕ → Database → Result Database
mark_task_failed now id code message = on_task id (fail_row now code message)

-- `task_statuses`: the statuses of the tasks of a run.
unfoldable pub task_statuses : ℕ → Dict CrawlTask → List CrawlTaskStatus
task_statuses run_id [] = []
task_statuses run_id ((id, t) ∷ rest) =
    let statuses = task_statuses run_id rest in
    if t.crawl_run_id == run_id then t.status ∷ statuses else statuses

abbrev pub is_succeeded : CrawlTaskStatus → Bool
is_succeeded succeeded = true
is_succeeded _ = false

abbrev pub is_failed : CrawlTaskStatus → Bool
is_failed failed = true
is_failed _ = false

-- `statuses.count(…)`
unfoldable pub count_status : (CrawlTaskStatus → Bool) → List CrawlTaskStatus → ℕ
count_status test [] = 0
count_status test (s ∷ rest) = (if test s then 1 else 0) + count_status test rest

unfoldable pub run_status : List CrawlTaskStatus → CrawlRunStatus
unfolding count_status
run_status statuses =
    if length statuses == 0 || count_status is_succeeded statuses == length statuses
    then succeeded
    else if count_status is_failed statuses == length statuses
    then failed
    else partially_failed

unfoldable pub finish_run : ℕ → ℕ → Option CrawlRunStatus → Database → Result Database
finish_run now run_id forced d = elim (lookup run_id d.runs) [
  | none ↦ raised lookup_error
  | some r ↦ ok (record d {
    runs =
        insert run_id
          (record r {
            status = elim forced [ none ↦ run_status (task_statuses run_id d.tasks) | some s ↦ s ];
            finished_at = some now;
          })
          d.runs;
  })
]
