-- ===== src/Crawler/Policies/Tests.antt =====
-- The policies at concrete inputs.
use sahabino.Common.{◌≤◌, ◌≡◌, ◌&&◌, true, false, none, some, ◌⊎◌}
use sahabino.Crawler.Errors.{
  classify_http_status, new_error, new_error_after, rate_limited, schema_failure,
}
use sahabino.Crawler.Policies.{backoff, delay_for, is_retryable_error, should_use_secondary}
use sahabino.Crawler.Policies.Backoff.{delay_bounds}
use sahabino.Crawler.Policies.Decisions.{StatusOutcome, retry_or_fallback, http_status_exact}

delay_bounds_example :
    let asked = some (new_error_after rate_limited (some 70)) in
    (backoff 10 300 4 3 ≤ 300)
    × (backoff 10 300 4 3 ≤ delay_for 10 300 4 3 asked)
    × (70 ≤ delay_for 10 300 4 3 asked)
    × ((delay_for 10 300 4 3 asked ≡ backoff 10 300 4 3) ⊎ (delay_for 10 300 4 3 asked ≡ 70))
delay_bounds_example = delay_bounds 10 300 4 3 (some (new_error_after rate_limited (some 70)))

retry_or_fallback_example :
    (is_retryable_error (new_error schema_failure)
      && should_use_secondary true (new_error schema_failure))
    ≡ false
retry_or_fallback_example = retry_or_fallback true (new_error schema_failure)

http_status_exact_example : StatusOutcome 403 true (classify_http_status 403 none true)
http_status_exact_example = http_status_exact 403 none true
