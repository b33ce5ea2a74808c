-- ===== src/Crawler/Lifecycle/Tests.antt =====
-- Runs of the lifecycle operations, and their theorems at concrete inputs.
use sahabino.Common.{◌<◌, ◌≡◌, refl, ◌↔◌, ◌⊎◌, true, none, some, List, [], ◌∷◌, arith, length, All}
use sahabino.Common.Dict.{lookup, insert}
use sahabino.Crawler.Lifecycle.{
  CrawlTask, CrawlTaskStatus, Database, app_details, is_succeeded, is_failed, run_status,
  create_task, begin_row, retry_row, succeed_row, fail_row, on_task,
}
use sahabino.Crawler.Lifecycle
use sahabino.Crawler.Lifecycle.Tasks.{
  TasksAreValid, Operation, begins, retries, succeeds, fails, after_all, rows_stay_valid,
  terminal_is_final,
}
use sahabino.Crawler.Lifecycle.Runs.{run_status_exact}

abbrev new_task : CrawlTask
new_task = record {
  crawl_run_id = 0;
  application_id = 9;
  task_type = app_details;
  status = CrawlTaskStatus.pending;
  language_code = "fa";
  country_code = "ir";
  attempt_count = 0;
  started_at = none;
  finished_at = none;
  error_code = none;
  error_message = none;
}

abbrev one_task : Database
one_task = record { runs = []; tasks = (1, new_task) ∷ []; next_id = 2 }

abbrev operations : List Operation
operations =
    begins 10 1 ∷ retries 1 ∷ begins 20 1 ∷ succeeds 30 1 ∷ fails 40 1 "LATE" [] ∷ begins 50 8 ∷ []

abbrev done_task : CrawlTask
done_task = record new_task {
  status = CrawlTaskStatus.succeeded;
  attempt_count = 2;
  started_at = some 10;
  finished_at = some 30;
}

two_attempts : after_all one_task operations ≡ record one_task { tasks = (1, done_task) ∷ [] }
unfolding after_all on_task begin_row retry_row succeed_row fail_row lookup insert
two_attempts = refl

only_row : TasksAreValid one_task
unfolding lookup
only_row id t e = ground arith

rows_stay_valid_example : TasksAreValid (after_all one_task operations)
rows_stay_valid_example = rows_stay_valid one_task operations only_row

terminal_is_final_example :
    lookup 1 (after_all (record one_task { tasks = (1, done_task) ∷ [] }) operations).tasks
    ≡ some done_task
unfolding lookup
terminal_is_final_example =
    terminal_is_final (record one_task { tasks = (1, done_task) ∷ [] }) operations 1 done_task refl
      (omega arith) refl

abbrev statuses : List CrawlTaskStatus
statuses = CrawlTaskStatus.succeeded ∷ CrawlTaskStatus.failed ∷ []

run_status_exact_example :
    ((run_status statuses ≡ Lifecycle.CrawlRunStatus.succeeded)
      ↔ All (λ x. is_succeeded x ≡ true) statuses)
    × ((run_status statuses ≡ Lifecycle.CrawlRunStatus.failed)
        ↔ ((0 < length statuses) × All (λ x. is_failed x ≡ true) statuses))
    × ((run_status statuses ≡ Lifecycle.CrawlRunStatus.succeeded)
        ⊎ ((run_status statuses ≡ Lifecycle.CrawlRunStatus.failed)
            ⊎ (run_status statuses ≡ Lifecycle.partially_failed)))
run_status_exact_example = run_status_exact statuses
