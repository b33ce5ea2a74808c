-- ===== src/Crawler/Executor/Tests.antt =====
-- A crawl of one application, whose two tasks succeed.
use sahabino.Common.{◌+◌, ◌≡◌, refl, false, true, none, some, List, [], ◌∷◌}
use sahabino.Common.Dict.{lookup, insert}
use sahabino.Crawler.Exceptions.{ok}
use sahabino.Crawler.Circuit
use sahabino.Crawler.Lifecycle
use sahabino.Crawler.Lifecycle.{ApplicationRef, CrawlRun, Database, create_tasks, effective_locale}
use sahabino.Crawler.World.{Environment, Settings, World, returned}
use sahabino.Crawler.Client.Loop.{retrying}
use sahabino.Common.Dict.{remove}
use sahabino.Crawler.World.{attempt_then, ◌>>=◌, continue, pure, raise}
use sahabino.Crawler.World.Actions.{
  read_clock, circuit_before_call, transact, call_primary, admit, circuit_success, circuit_failure,
  draw_random, finish_transaction,
}
use sahabino.Crawler.Egress.{
  acquire, handle_failure, is_usable, lease_proxy, network_success, release, rotate,
}
use sahabino.Crawler.Client.{open_client, attempt, close}
use sahabino.Crawler.Lifecycle.{
  on_task, begin_row, fail_row, succeed_row, retry_row, create_task, finish_run, run_status,
  task_statuses, count_status,
}
use sahabino.Crawler.Policies.{classify, is_retryable, is_retryable_error, should_use_secondary}
use sahabino.Crawler.Providers.{
  acquire_directly, held_directly, is_usable_directly, release_directly, NoProxyProvider,
  no_proxies,
}
use sahabino.Crawler.Tasks.{
  and_close, change, end_command, error_code, fail_open_tasks, fetch_and_publish, finish_command,
  finish_task, hooks, mark_failed, mark_failure, mark_succeeded, publish, run_task, with_client,
  without_value,
}
use sahabino.Crawler.Client
use sahabino.Crawler.Tasks
use sahabino.Crawler.Proxy
use sahabino.Crawler.Executor.{crawl}
use sahabino.Crawler.Executor.Completed.{IsFinished, completed_run}

abbrev surroundings : Environment
surroundings = record {
  now = λ k. 100 + k;
  commit_fails = λ k. false;
  monotonic = λ k. k;
  random = λ k. 0;
  primary = λ k. returned k;
  secondary = λ k. returned k;
  publish = λ k. none;
}

abbrev settings : Settings
settings = record {
  max_attempts = 3;
  second = 10;
  max_delay = 300;
  secondary_enabled = false;
  rate_limit_threshold = 3;
}

abbrev the_run : CrawlRun
the_run = record {
  trigger_type = Lifecycle.manual;
  status = Lifecycle.CrawlRunStatus.running;
  scheduled_for = none;
  started_at = some 100;
  finished_at = none;
}

abbrev start : World NoProxyProvider
start = record {
  db = record { runs = (0, the_run) ∷ []; tasks = []; next_id = 1 };
  transactions = 1;
  circuit = record {
    config = record { threshold = 5; cooldown = 60; enabled = true };
    state = Circuit.closed;
    failure_count = 0;
    opened_at = none;
    probe_in_flight = false;
    generation = 0;
  };
  provider = record { heap = []; leases = [] };
  rate_limits = [];
  client = record {
    context_id = 0;
    lease = 0;
    has_primary = false;
    refresh_egress = false;
    last_primary_attempt = 0;
  };
  asked = 0;
  slept = [];
  published = [];
}

abbrev applications : List ApplicationRef
applications = record { application_id = 9; locale = none } ∷ []

returns :
    (crawl surroundings
      (λ _. [])
      no_proxies
      settings
      retrying
      0
      (ok applications)
      "fa"
      "ir"
      start).0
    ≡ ok 0
unfolding crawl create_tasks create_task finish_run run_status task_statuses count_status
    effective_locale Tasks.execute retrying no_proxies remove attempt_then ◌>>=◌ continue pure raise
    read_clock circuit_before_call transact call_primary admit circuit_success circuit_failure
    draw_random finish_transaction acquire handle_failure is_usable lease_proxy network_success
    release rotate open_client attempt close on_task begin_row fail_row succeed_row retry_row
    classify is_retryable is_retryable_error should_use_secondary acquire_directly held_directly
    is_usable_directly release_directly and_close change end_command error_code fail_open_tasks
    fetch_and_publish finish_command finish_task hooks mark_failed mark_failure mark_succeeded
    publish run_task with_client without_value insert lookup Client.execute Circuit.before_call
    Circuit.record_failure Circuit.record_success Circuit.is_relevant Proxy.release
returns = refl

completed_run_example :
    IsFinished 0
      (create_tasks 0 applications "fa" "ir" start.db).0
      (crawl surroundings
        (λ _. [])
        no_proxies
        settings
        retrying
        0
        (ok applications)
        "fa"
        "ir"
        start).1.db
completed_run_example =
    completed_run surroundings (λ _. []) no_proxies settings retrying 0 applications "fa" "ir" start
      0 returns
