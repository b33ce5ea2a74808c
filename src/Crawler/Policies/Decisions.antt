-- ===== src/Crawler/Policies/Decisions.antt =====
-- The decisions that the policies take on each class of errors.
use sahabino.Common.{
  ℕ, ◌≤◌, ◌<◌, ◌≡◌, Bool, false, ◌&&◌, ◌||◌, Option, none, some, arith, ◌==◌, leb,
}
use sahabino.Crawler.Errors.{CrawlerError, classify_http_status}
use sahabino.Crawler.Policies.{is_retryable_error, should_use_secondary}

-- No error is both tried again and handed to the secondary adapter.
pub retry_or_fallback :
    (enabled : Bool) (e : CrawlerError)
    → (is_retryable_error e && should_use_secondary enabled e) ≡ false
unfolding is_retryable_error should_use_secondary
retry_or_fallback enabled e = ground arith

-- `status >= 400`, and what of it is tried again.
abbrev pub retried_status : ℕ → Bool → Bool
retried_status status proxied =
    status == 408
    || (status == 429 || (leb 500 status || ((status == 403 || status == 407) && proxied)))

-- What an outcome says of its status.
abbrev pub StatusOutcome : ℕ → Bool → Option CrawlerError → Type 0
StatusOutcome status proxied none = status < 400
StatusOutcome status proxied (some e) =
    (400 ≤ status) × (is_retryable_error e ≡ retried_status status proxied)

-- A status below 400 is no error; any other is one, and it is tried again exactly if it is 408,
-- 429 or at least 500, or is 403 or 407 and the call was proxied.
pub http_status_exact :
    (status : ℕ) (retry_after : Option ℕ) (proxied : Bool)
    → StatusOutcome status proxied (classify_http_status status retry_after proxied)
unfolding classify_http_status is_retryable_error
http_status_exact status retry_after proxied = ground arith
