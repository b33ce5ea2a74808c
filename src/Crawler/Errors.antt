-- ===== src/Crawler/Errors.antt =====
-- The crawler's exception classes (crawler/domain/errors.py) and the classification of HTTP status
-- codes (crawler/infrastructure/http_errors.py). A delay in seconds is a number of clock ticks.
use Prim.Native.String.{String}
use sahabino.Common.{
  ℕ, Bool, false, ◌||◌, Option, none, some, List, [], ◌∷◌, ◌==◌, ltb, leb, if◌then◌else◌,
}

pub data ErrorKind : Type 0 where
  crawler_error rate_limited access_forbidden network_timeout : ErrorKind
  local_rate_limit_wait_exceeded temporary_connection_failure proxy_connection_failure : ErrorKind
  proxy_authentication_failure proxy_unavailable upstream_failure gateway_failure : ErrorKind
  app_not_found app_gone legal_restriction client_request_failure invalid_package : ErrorKind
  parse_failure schema_failure adapter_failure circuit_open registry_unavailable : ErrorKind
  messaging_publish_failure : ErrorKind

-- An instance of one of the classes. `retry_after_seconds` is `None` unless the constructor is
-- given it; only the two classes that declare `retry_with_new_egress` read that field.
pub record CrawlerError : Type 0 where
  pub kind : ErrorKind
  pub retry_after_seconds : Option ℕ
  pub retry_with_new_egress : Bool

-- The class attribute `code`.
pub code : ErrorKind → String
code crawler_error = "CRAWLER_ERROR"
code rate_limited = "RATE_LIMITED"
code access_forbidden = "ACCESS_FORBIDDEN"
code network_timeout = "NETWORK_TIMEOUT"
code local_rate_limit_wait_exceeded = "LOCAL_RATE_LIMIT_WAIT_EXCEEDED"
code temporary_connection_failure = "CONNECTION_FAILED"
code proxy_connection_failure = "PROXY_CONNECTION_FAILED"
code proxy_authentication_failure = "PROXY_AUTHENTICATION_FAILED"
code proxy_unavailable = "PROXY_UNAVAILABLE"
code upstream_failure = "UPSTREAM_FAILURE"
code gateway_failure = "UPSTREAM_GATEWAY_FAILURE"
code app_not_found = "APP_NOT_FOUND"
code app_gone = "APP_GONE"
code legal_restriction = "LEGAL_RESTRICTION"
code client_request_failure = "CLIENT_REQUEST_FAILED"
code invalid_package = "INVALID_PACKAGE"
code parse_failure = "PARSE_FAILURE"
code schema_failure = "SCHEMA_FAILURE"
code adapter_failure = "ADAPTER_FAILURE"
code circuit_open = "CIRCUIT_OPEN"
code registry_unavailable = "REGISTRY_UNAVAILABLE"
code messaging_publish_failure = "KAFKA_PUBLISH_FAILED"

-- A number for each class, to compare classes by.
abbrev tag : ErrorKind → ℕ
tag crawler_error = 0
tag rate_limited = 1
tag access_forbidden = 2
tag network_timeout = 3
tag local_rate_limit_wait_exceeded = 4
tag temporary_connection_failure = 5
tag proxy_connection_failure = 6
tag proxy_authentication_failure = 7
tag proxy_unavailable = 8
tag upstream_failure = 9
tag gateway_failure = 10
tag app_not_found = 11
tag app_gone = 12
tag legal_restriction = 13
tag client_request_failure = 14
tag invalid_package = 15
tag parse_failure = 16
tag schema_failure = 17
tag adapter_failure = 18
tag circuit_open = 19
tag registry_unavailable = 20
tag messaging_publish_failure = 21

-- The class that each `class X(Base)` line names; the root names itself.
abbrev base : ErrorKind → ErrorKind
base gateway_failure = upstream_failure
base _ = crawler_error

abbrev is_subclass : ErrorKind → ErrorKind → Bool
is_subclass k c = tag k == tag c || (tag (base k) == tag c || tag (base (base k)) == tag c)

-- `isinstance(error, (A, B, …))`, on the error's class.
abbrev pub isinstance : ErrorKind → List ErrorKind → Bool
isinstance k [] = false
isinstance k (c ∷ cs) = is_subclass k c || isinstance k cs

abbrev pub new_error : ErrorKind → CrawlerError
new_error k = record { kind = k; retry_after_seconds = none; retry_with_new_egress = false }

abbrev pub new_error_after : ErrorKind → Option ℕ → CrawlerError
new_error_after k delay = record (new_error k) { retry_after_seconds = delay }

abbrev pub new_error_egress : ErrorKind → Bool → CrawlerError
new_error_egress k egress = record (new_error k) { retry_with_new_egress = egress }

unfoldable pub classify_http_status : ℕ → Option ℕ → Bool → Option CrawlerError
classify_http_status status retry_after proxied =
    if ltb status 400
    then none
    else if status == 403
    then some (new_error_egress access_forbidden proxied)
    else if status == 407
    then some (new_error_egress proxy_authentication_failure proxied)
    else if status == 408
    then some (new_error network_timeout)
    else if status == 429
    then some (new_error_after rate_limited retry_after)
    else if status == 404
    then some (new_error app_not_found)
    else if status == 410
    then some (new_error app_gone)
    else if status == 451
    then some (new_error legal_restriction)
    else if status == 502 || status == 504
    then some (new_error gateway_failure)
    else if leb 500 status
    then some (new_error_after upstream_failure retry_after)
    else some (new_error client_request_failure)
