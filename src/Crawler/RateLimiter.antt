-- ===== src/Crawler/RateLimiter.antt =====
-- The token bucket, crawler/infrastructure/resilience/token_bucket.py. The floats are modelled by
-- exact scaled numbers: time is in clock ticks, and tokens are counted in the ticks of refill that
-- they cost, so that a whole token is `token_ticks` = 1 / `refill_per_second` units, the refill
-- adds one unit a tick, and the wait `(1 - tokens) / rate` is a plain difference. Float rounding
-- and rates whose inverse is no whole number of ticks are left out; a sleep is thus for a tick at
-- least, while the waits of the source may be as short as a float allows.
pub mod RateBound
pub mod Termination
pub mod Tests
use sahabino.Common.{
  ℕ, zero, suc, ◌+◌, ◌-◌, ◌*◌, Bool, true, false, Option, none, some, List, [], ◌∷◌, ltb, leb, min,
  max, ◌||◌, ◌==◌, if◌then◌else◌,
}

pub record TokenBucket : Type 0 where
  pub token_ticks : ℕ
  pub capacity : ℕ
  pub maximum_wait : ℕ
  pub tokens : ℕ
  pub last_refill : ℕ

-- `__init__` at the clock reading `now`; `none` where it raises.
unfoldable pub new_bucket : ℕ → ℕ → ℕ → ℕ → Option TokenBucket
new_bucket token_ticks capacity maximum_wait now =
    if token_ticks == 0 || (ltb capacity 1 || maximum_wait == 0)
    then none
    else some (record {
      token_ticks = token_ticks;
      capacity = capacity;
      maximum_wait = maximum_wait;
      tokens = capacity * token_ticks;
      last_refill = now;
    })

-- `_refill`; `max(0.0, now - last_refill)` is the truncated difference.
unfoldable pub refill : TokenBucket → ℕ → TokenBucket
refill b now = record b {
  tokens = min (b.capacity * b.token_ticks) (b.tokens + (now - b.last_refill));
  last_refill = max b.last_refill now;
}

pub available_tokens : TokenBucket → ℕ → ℕ × TokenBucket
unfolding refill
available_tokens b now = ((refill b now).tokens, refill b now)

-- What one round of the loop in `acquire` comes to: `return`, the exception, or `sleep`.
pub data Outcome : Type 0 where
  granted : Outcome
  wait_exceeded : Outcome
  sleep_for : ℕ → Outcome

-- The locked part of a round, on the refilled bucket.
pub decide_round : TokenBucket → ℕ → ℕ → Outcome × TokenBucket
decide_round b now deadline =
    if leb b.token_ticks b.tokens
    then (granted, record b { tokens = b.tokens - b.token_ticks })
    else if ltb deadline (now + (b.token_ticks - b.tokens))
    then (wait_exceeded, b)
    else (sleep_for (b.token_ticks - b.tokens), b)

unfoldable pub acquire_round : TokenBucket → ℕ → ℕ → Outcome × TokenBucket
unfolding refill decide_round
acquire_round b now deadline = decide_round (refill b now) now deadline

-- Between two rounds the thread sleeps for at least the time asked for, `oversleep` ticks more,
-- and other threads may have used the bucket.
pub record Environment : Type 0 where
  pub oversleep : ℕ → ℕ
  pub meanwhile : ℕ → TokenBucket → TokenBucket

-- `while True` of `acquire`, on fuel; `none` means that the fuel ran out. `n` numbers the rounds.
pub acquire_loop : ℕ → Environment → ℕ → TokenBucket → ℕ → ℕ → Option (Outcome × TokenBucket)
acquire_loop zero env n b now deadline = none
acquire_loop (suc fuel) env n b now deadline =
    let (outcome, b') = acquire_round b now deadline in
    elim outcome [
      | granted ↦ some (granted, b')
      | wait_exceeded ↦ some (wait_exceeded, b')
      | sleep_for wait ↦
          acquire_loop fuel env (n + 1) (env.meanwhile n b') (now + wait + env.oversleep n) deadline
    ]

-- `acquire`: the deadline is set from a first clock reading, the first round takes a second one.
unfoldable pub acquire : ℕ → Environment → TokenBucket → ℕ → ℕ → Option (Outcome × TokenBucket)
unfolding acquire_loop
acquire fuel env b started now = acquire_loop fuel env 0 b now (started + b.maximum_wait)
