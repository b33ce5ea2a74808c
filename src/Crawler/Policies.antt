-- ===== src/Crawler/Policies.antt =====
-- The pure policies: which errors are tried again and after what delay
-- (crawler/application/policies/retry.py), which ones the secondary adapter takes over
-- (crawler/application/policies/adapter.py), and how foreign exceptions are classified
-- (crawler/infrastructure/adapters/classifier.py). Delays are in clock ticks, `second` of them to
-- the second.
pub mod Backoff
pub mod Decisions
pub mod Tests
use Prim.Native.Nat.{◌^◌}
use Prim.Native.String.{String}
use text.Mathlib.Text.{◌==◌ as str_eq}
use sahabino.Common.{
  ℕ, ◌+◌, ◌-◌, ◌*◌, Bool, true, false, ◌&&◌, ◌||◌, Option, none, some, List, [], ◌∷◌, min, max,
  if◌then◌else◌, is_some,
}
use sahabino.Crawler.Exceptions.{Exception, crawler}
use sahabino.Crawler.Errors.{
  ErrorKind, CrawlerError, isinstance, new_error, new_error_after, classify_http_status,
  crawler_error, rate_limited, access_forbidden, network_timeout, temporary_connection_failure,
  proxy_connection_failure, proxy_authentication_failure, upstream_failure, app_not_found,
  invalid_package, parse_failure, schema_failure, adapter_failure,
}

unfoldable pub is_retryable_error : CrawlerError → Bool
is_retryable_error e =
    if isinstance e.kind (access_forbidden ∷ proxy_authentication_failure ∷ [])
    then e.retry_with_new_egress
    else isinstance e.kind (
        rate_limited ∷ network_timeout ∷ temporary_connection_failure ∷ proxy_connection_failure
        ∷ upstream_failure ∷ [])

-- `is_retryable`, of any exception.
unfoldable pub is_retryable : Exception → Bool
unfolding is_retryable_error
is_retryable (crawler e) = is_retryable_error e
is_retryable _ = false

-- `min(2 ** max(0, attempt_number - 1) + self._random(), self._max_delay)`
unfoldable pub backoff : ℕ → ℕ → ℕ → ℕ → ℕ
backoff second max_delay random attempt_number =
    min (2 ^ (attempt_number - 1) * second + random) max_delay

unfoldable pub delay_for : ℕ → ℕ → ℕ → ℕ → Option CrawlerError → ℕ
unfolding backoff
delay_for second max_delay random attempt_number none =
    backoff second max_delay random attempt_number
delay_for second max_delay random attempt_number (some e) =
    if isinstance e.kind (rate_limited ∷ upstream_failure ∷ []) && is_some e.retry_after_seconds
    then max (backoff second max_delay random attempt_number) (retry_after e.retry_after_seconds)
    else backoff second max_delay random attempt_number
  where
    retry_after : Option ℕ → ℕ
    retry_after none = 0
    retry_after (some d) = d

-- `AdapterFallbackPolicy.should_use_secondary`
unfoldable pub should_use_secondary : Bool → CrawlerError → Bool
should_use_secondary secondary_enabled e =
    secondary_enabled && isinstance e.kind (parse_failure ∷ schema_failure ∷ adapter_failure ∷ [])

-- An exception of an adapter as `classify` sees it: its class, the outcome of `int()` on its status
-- attribute, its delays, and the test `x in lowered` on its lowered name and text.
pub record RawException : Type 0 where
  pub as_crawler_error : Option CrawlerError
  pub is_validation_error : Bool
  pub name : String
  pub status : Option ℕ
  pub retry_after : Option ℕ
  pub header_retry_after : Option ℕ
  pub mentions : String → Bool

-- The status branch: `retry_after` of the exception, else that of its headers.
abbrev classify_status : RawException → Option CrawlerError
classify_status raw = elim raw.status [
  | none ↦ none
  | some status ↦
      classify_http_status status
        (elim raw.retry_after [ none ↦ raw.header_retry_after | some d ↦ some d ]) false
]

-- The branches by name and text.
unfoldable pub classify_text : RawException → CrawlerError
classify_text raw =
    if str_eq raw.name "InvalidAppIdError"
    then new_error invalid_package
    else if str_eq raw.name "AppNotFoundError" || str_eq raw.name "NotFoundError"
    then new_error app_not_found
    else if str_eq raw.name "DataParsingError" || str_eq raw.name "JSONDecodeError"
    then new_error parse_failure
    else if str_eq raw.name "RateLimitError" || raw.mentions "429"
    then new_error_after rate_limited raw.retry_after
    else if raw.mentions "proxy"
    then new_error proxy_connection_failure
    else if raw.mentions "timeout"
    then new_error network_timeout
    else if raw.mentions "connection" || raw.mentions "network"
    then new_error temporary_connection_failure
    else if str_eq raw.name "IndexError"
        || (str_eq raw.name "KeyError" || str_eq raw.name "TypeError")
    then new_error adapter_failure
    else new_error crawler_error

unfoldable pub classify : RawException → CrawlerError
unfolding classify_text classify_http_status
classify raw = elim raw.as_crawler_error [
  | some e ↦ e
  | none ↦
      if raw.is_validation_error
      then new_error schema_failure
      else elim (classify_status raw) [ some e ↦ e | none ↦ classify_text raw ]
]
