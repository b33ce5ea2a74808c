-- ===== src/Crawler/Tasks/Tests.antt =====
-- A run of the command of one application, whose details are not found and whose reviews are
-- published.
use sahabino.Common.{ℕ, ◌+◌, ◌≡◌, refl, true, false, none, some, List, [], ◌∷◌, leb, if◌then◌else◌}
use sahabino.Common.Dict.{lookup, insert}
use sahabino.Crawler.Errors.{new_error, app_not_found}
use sahabino.Crawler.Exceptions.{ok}
use sahabino.Crawler.Circuit
use sahabino.Crawler.Lifecycle.{CrawlTask, CrawlTaskStatus, Database, TaskIds, app_details, reviews}
use sahabino.Crawler.Policies.{RawException}
use sahabino.Crawler.World.{Environment, Settings, World, returned, failed}
use sahabino.Crawler.Client.Loop.{retrying}
use sahabino.Crawler.Providers.{NoProxyProvider, no_proxies}
use sahabino.Crawler.Tasks.{execute}
use sahabino.Crawler.Tasks.Settled.{
  AreOnRecord, AreBothDone, returns_settled, settled_without_faults,
}
use sahabino.Common.Dict.{remove}
use sahabino.Crawler.World.{attempt_then, ◌>>=◌, continue, pure, raise}
use sahabino.Crawler.World.Actions.{
  read_clock, circuit_before_call, transact, call_primary, admit, circuit_success, circuit_failure,
  draw_random, finish_transaction,
}
use sahabino.Crawler.Egress.{
  acquire, handle_failure, is_usable, lease_proxy, network_success, release, rotate,
}
use sahabino.Crawler.Client.{open_client, attempt, close}
use sahabino.Crawler.Lifecycle.{on_task, begin_row, fail_row, succeed_row, retry_row}
use sahabino.Crawler.Policies.{classify, is_retryable, is_retryable_error, should_use_secondary}
use sahabino.Crawler.Providers.{
  acquire_directly, held_directly, is_usable_directly, release_directly,
}
use sahabino.Crawler.Tasks.{
  also_failed, and_close, change, end_command, error_code, fail_open_tasks, fetch_and_publish,
  finish_command, finish_task, hooks, mark_failed, mark_failure, mark_succeeded, publish, run_task,
  with_client, without_value,
}
use sahabino.Crawler.Client
use sahabino.Crawler.Proxy

abbrev details_task : CrawlTask
details_task = record {
  crawl_run_id = 0;
  application_id = 9;
  task_type = app_details;
  status = CrawlTaskStatus.pending;
  language_code = "fa";
  country_code = "ir";
  attempt_count = 0;
  started_at = none;
  finished_at = none;
  error_code = none;
  error_message = none;
}

abbrev two_tasks : Database
two_tasks = record {
  runs = [];
  tasks = (1, details_task) ∷ (2, record details_task { task_type = reviews }) ∷ [];
  next_id = 3;
}

abbrev ids : TaskIds
ids = record { details_id = 1; reviews_id = 2 }

abbrev not_found : RawException
not_found = record {
  as_crawler_error = some (new_error app_not_found);
  is_validation_error = false;
  name = "AppNotFound";
  status = none;
  retry_after = none;
  header_retry_after = none;
  mentions = λ text. false;
}

-- The first call of the adapter fails, the others return; every commit succeeds.
abbrev surroundings : Environment
surroundings = record {
  now = λ k. 100 + k;
  commit_fails = λ k. false;
  monotonic = λ k. k;
  random = λ k. 0;
  primary = λ k. if leb k 2 then failed not_found else returned k;
  secondary = λ k. returned k;
  publish = λ k. none;
}

abbrev settings : Settings
settings = record {
  max_attempts = 3;
  second = 10;
  max_delay = 300;
  secondary_enabled = false;
  rate_limit_threshold = 3;
}

abbrev start : World NoProxyProvider
start = record {
  db = two_tasks;
  transactions = 0;
  circuit = record {
    config = record { threshold = 5; cooldown = 60; enabled = true };
    state = Circuit.closed;
    failure_count = 0;
    opened_at = none;
    probe_in_flight = false;
    generation = 0;
  };
  provider = record { heap = []; leases = [] };
  rate_limits = [];
  client = record {
    context_id = 0;
    lease = 0;
    has_primary = false;
    refresh_egress = false;
    last_primary_attempt = 0;
  };
  asked = 0;
  slept = [];
  published = [];
}

on_record : AreOnRecord ids start.db
unfolding lookup
on_record = ((details_task, refl), (record details_task { task_type = reviews }, refl))

statuses : List (ℕ × CrawlTask) → List CrawlTaskStatus
statuses [] = []
statuses ((id, t) ∷ rest) = t.status ∷ statuses rest

details_fail_and_reviews_succeed :
    let (r, w) = execute surroundings (λ _. []) no_proxies settings retrying 9 ids start in
    (r ≡ ok tt)
    × (statuses w.db.tasks ≡ CrawlTaskStatus.failed ∷ CrawlTaskStatus.succeeded ∷ [])
    × (w.published ≡ 6 ∷ [])
unfolding execute statuses retrying no_proxies remove attempt_then ◌>>=◌ continue pure raise
    read_clock circuit_before_call transact call_primary admit circuit_success circuit_failure
    draw_random finish_transaction acquire handle_failure is_usable lease_proxy network_success
    release rotate open_client attempt close on_task begin_row fail_row succeed_row retry_row
    classify is_retryable is_retryable_error should_use_secondary acquire_directly held_directly
    is_usable_directly release_directly also_failed and_close change end_command error_code
    fail_open_tasks fetch_and_publish finish_command finish_task hooks mark_failed mark_failure
    mark_succeeded publish run_task with_client without_value insert lookup Client.execute
    Circuit.before_call Circuit.record_failure Circuit.record_success Circuit.is_relevant
    Proxy.release
details_fail_and_reviews_succeed = (refl, refl, refl)

returns_settled_example :
    AreBothDone ids (execute surroundings (λ _. []) no_proxies settings retrying 9 ids start).1.db
returns_settled_example =
    returns_settled surroundings (λ _. []) ids no_proxies settings retrying 9 start on_record
      details_fail_and_reviews_succeed.0

settled_without_faults_example :
    AreBothDone ids (execute surroundings (λ _. []) no_proxies settings retrying 9 ids start).1.db
settled_without_faults_example =
    settled_without_faults surroundings (λ _. []) ids no_proxies settings retrying 9 start on_record
      (λ k. refl)
