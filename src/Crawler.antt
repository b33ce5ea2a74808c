-- ===== src/Crawler.antt =====
-- The Google Play crawler, src/sahabino/crawler.
pub mod Errors
pub mod Exceptions
pub mod Circuit
pub mod RateLimiter
pub mod Proxy
pub mod Lifecycle
pub mod Policies
pub mod World
pub mod Egress
pub mod Client
pub mod Tasks
pub mod Providers
pub mod Reviews
pub mod Executor
