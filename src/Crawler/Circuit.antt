-- ===== src/Crawler/Circuit.antt =====
-- The circuit breaker, crawler/infrastructure/resilience/circuit_breaker.py. Each method runs under
-- the breaker's lock, so it is one step; the clock reading that it takes is an argument. A reading
-- `now - opened_at < cooldown` is written `now < opened_at + cooldown`.
pub mod Invariant
pub mod Probes
pub mod Threshold
pub mod Tests
use sahabino.Common.{
  ℕ, zero, ◌+◌, Bool, true, false, not, ◌&&◌, Option, none, some, [], ◌∷◌, ltb, leb, ◌==◌,
  if◌then◌else◌,
}
use sahabino.Crawler.Errors.{
  ErrorKind, access_forbidden, upstream_failure, rate_limited, network_timeout,
  temporary_connection_failure, isinstance,
}

pub data CircuitState : Type 0 where
  closed open_state half_open : CircuitState

pub record Config : Type 0 where
  pub threshold : ℕ
  pub cooldown : ℕ
  pub enabled : Bool

pub record CircuitBreaker : Type 0 where
  pub config : Config
  pub open config use *
  pub state : CircuitState
  pub failure_count : ℕ
  pub opened_at : Option ℕ
  pub probe_in_flight : Bool
  pub generation : ℕ

-- `__init__`; `none` where it raises. (A cooldown is a natural number, so it is not negative.)
unfoldable pub new_breaker : Config → Option CircuitBreaker
new_breaker c =
    if ltb c.threshold 1
    then none
    else some (record {
      config = c;
      state = closed;
      failure_count = 0;
      opened_at = none;
      probe_in_flight = false;
      generation = 0;
    })

-- What `before_call` does: it returns a token, or raises `CircuitOpen`, or its assertion fails.
pub data Admission : Type 0 where
  admitted : Option ℕ → Admission
  circuit_is_open : Admission
  assertion_failed : Admission

-- The part of `before_call` behind the test for OPEN.
pub admit_probe : CircuitBreaker → CircuitState → Admission × CircuitBreaker
admit_probe b half_open =
    if b.probe_in_flight
    then (circuit_is_open, b)
    else (admitted (some b.generation), record b { probe_in_flight = true })
admit_probe b _ = (admitted (some b.generation), b)

-- An OPEN breaker turns HALF_OPEN once the cooldown is over.
pub leave_open : CircuitBreaker → ℕ → Option ℕ → Admission × CircuitBreaker
unfolding admit_probe
leave_open b now none = (assertion_failed, b)
leave_open b now (some opened_at) =
    if ltb now (opened_at + b.cooldown)
    then (circuit_is_open, b)
    else admit_probe (record b { state = half_open; probe_in_flight = false }) half_open

pub before_state : CircuitBreaker → ℕ → CircuitState → Admission × CircuitBreaker
unfolding admit_probe leave_open
before_state b now open_state = leave_open b now b.opened_at
before_state b now s = admit_probe b s

unfoldable pub before_call : CircuitBreaker → ℕ → Admission × CircuitBreaker
unfolding before_state
before_call b now = if not b.enabled then (admitted none, b) else before_state b now b.state

-- `call_token is not None and call_token != self._generation`
pub is_stale : CircuitBreaker → Option ℕ → Bool
is_stale b none = false
is_stale b (some token) = not (token == b.generation)

unfoldable pub record_success : CircuitBreaker → Option ℕ → CircuitBreaker
unfolding is_stale
record_success b call_token =
    if not b.enabled
    then b
    else if is_stale b call_token
    then b
    else record b { state = closed; failure_count = 0; opened_at = none; probe_in_flight = false }

-- `_open`, at the clock reading `now`.
pub open_circuit : CircuitBreaker → ℕ → CircuitBreaker
open_circuit b now = record b {
  generation = b.generation + 1;
  state = open_state;
  opened_at = some now;
  probe_in_flight = false;
}

-- Whether a failure counts: a proxied call does not blame the store for what the proxy may cause.
unfoldable pub is_relevant : ErrorKind → Bool → Bool
is_relevant error proxied =
    if proxied
      && isinstance error (access_forbidden ∷ network_timeout ∷ temporary_connection_failure ∷ [])
    then false
    else isinstance error (
        access_forbidden ∷ upstream_failure ∷ rate_limited ∷ network_timeout
        ∷ temporary_connection_failure ∷ [])

-- A failure that counts, on a breaker that is not OPEN.
pub count_failure : CircuitBreaker → ℕ → CircuitState → CircuitBreaker
unfolding open_circuit
count_failure b now half_open = open_circuit b now
count_failure b now _ =
    let counted = record b { failure_count = b.failure_count + 1 } in
    if leb b.threshold counted.failure_count then open_circuit counted now else counted

pub record_current : CircuitBreaker → Bool → ℕ → CircuitState → CircuitBreaker
unfolding count_failure
record_current b relevant now open_state = b
record_current b relevant now s =
    if not relevant then record b { probe_in_flight = false } else count_failure b now s

unfoldable pub record_failure : CircuitBreaker → ErrorKind → Bool → Option ℕ → ℕ → CircuitBreaker
unfolding is_stale is_relevant record_current
record_failure b error proxied call_token now =
    if not b.enabled
    then b
    else if is_stale b call_token
    then b
    else record_current b (is_relevant error proxied) now b.state
