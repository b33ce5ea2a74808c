-- ===== src/Crawler/World.antt =====
-- What the calls of the crawler read and change, and the actions over it: a method returns or
-- raises, and what it changed before it raised stays changed.
pub mod Actions
pub mod Frames
pub mod Outcomes
use sahabino.Common.{ℕ, zero, ◌+◌, Bool, true, false, Option, none, some, List, [], ◌∷◌}
use sahabino.Common.Dict.{Dict}
use sahabino.Crawler.Errors.{CrawlerError}
use sahabino.Crawler.Exceptions.{Exception, Result, ok, raised}
use sahabino.Crawler.Circuit.{CircuitBreaker}
use sahabino.Crawler.Lifecycle.{Database}
use sahabino.Crawler.Policies.{RawException}

-- The port `ProxyProvider` over a state `P`. A lease is a number that stands for the object; the
-- second number of an operation is a clock reading, and `none` the exception `ProxyUnavailable`.
pub record ProxyProvider (P : Type 0) : Type 0 where
  pub acquire : P → ℕ → ℕ → Option ℕ × P
  pub rotate : P → ℕ → ℕ → ℕ → Option ℕ × P
  pub record_success : P → ℕ → P
  pub record_failure : P → ℕ → ℕ → Bool × P
  pub start_cooldown : P → ℕ → ℕ → P
  pub mark_unhealthy : P → ℕ → P
  pub is_usable : P → ℕ → ℕ → Bool × P
  pub release : P → ℕ → P
  pub proxy_id : P → ℕ → Option ℕ

-- What a call of an adapter comes to: a normalized result, known by a number, or an exception.
pub data AdapterOutcome : Type 0 where
  returned : ℕ → AdapterOutcome
  failed : RawException → AdapterOutcome

-- What the surroundings answer, each time that they are asked: the clocks, the jitter, the
-- database, the adapters and the publisher.
pub record Environment : Type 0 where
  pub now : ℕ → ℕ
  pub commit_fails : ℕ → Bool
  pub monotonic : ℕ → ℕ
  pub random : ℕ → ℕ
  pub primary : ℕ → AdapterOutcome
  pub secondary : ℕ → AdapterOutcome
  pub publish : ℕ → Option Exception

-- The settings of the policies.
pub record Settings : Type 0 where
  pub max_attempts : ℕ
  pub second : ℕ
  pub max_delay : ℕ
  pub secondary_enabled : Bool
  pub rate_limit_threshold : ℕ

-- An `ApplicationPlayStoreClient`; `last_primary_attempt` is the variable of the running
-- `_execute`, and of `_primary` it matters only whether it is set.
pub record Client : Type 0 where
  pub context_id : ℕ
  pub lease : ℕ
  pub has_primary : Bool
  pub refresh_egress : Bool
  pub last_primary_attempt : ℕ

-- All state that a crawl touches, and how often each of the surroundings has been asked.
pub record World (P : Type 0) : Type 0 where
  pub db : Database
  pub transactions : ℕ
  pub circuit : CircuitBreaker
  pub provider : P
  pub rate_limits : Dict ℕ
  pub client : Client
  pub asked : ℕ
  pub slept : List ℕ
  pub published : List ℕ

abbrev pub M : Type 0 → Type 0 → Type 0
M P A = World P → Result A × World P

module _ {P A : Type 0} where
  unfoldable pub pure : A → M P A
  pure a w = (ok a, w)

  unfoldable pub raise : Exception → M P A
  raise e w = (raised e, w)

module _ {P A B : Type 0} where
  unfoldable pub continue : (A → M P B) → Result A × World P → Result B × World P
  continue f (ok a, w) = f a w
  continue f (raised e, w) = (raised e, w)

  infixl 5 ◌>>=◌ ◌>>◌
  unfoldable pub ◌>>=◌ : M P A → (A → M P B) → M P B
  unfolding continue pure raise
  ◌>>=◌ m f w = continue f (m w)

  abbrev pub ◌>>◌ : M P A → M P B → M P B
  m >> n = m >>= λ _. n

-- `try: … except Exception as e: …`, with the handler also for the value.
module _ {P A B : Type 0} where
  unfoldable pub attempt_then : M P A → (Result A → M P B) → M P B
  attempt_then m f w = let (r, w') = m w in f r w'

-- The parts of `OperationHooks`.
pub record Hooks (P : Type 0) : Type 0 where
  pub before_attempt : ℕ → M P (Unit {0})
  pub before_retry : Exception → M P (Unit {0})
