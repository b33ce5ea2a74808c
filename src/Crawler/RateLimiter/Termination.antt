-- ===== src/Crawler/RateLimiter/Termination.antt =====
-- How `acquire` ends when no other thread uses the bucket.
use sahabino.Common.{
  ℕ, suc, ◌+◌, ◌||◌, ◌*◌, ◌≤◌, ◌<◌, ◌≡◌, arith, Option, none, some, leb, if◌then◌else◌,
}
use sahabino.Crawler.RateLimiter.{
  TokenBucket, Environment, Outcome, granted, wait_exceeded, refill, acquire_round, acquire,
}

-- No other thread uses the bucket.
abbrev pub alone : (ℕ → ℕ) → Environment
alone oversleep = record { oversleep = oversleep; meanwhile = λ n b. b }

abbrev pub outcome_of : Option (Outcome × TokenBucket) → Option Outcome
outcome_of none = none
outcome_of (some (o, b)) = some o

-- Alone on a bucket that has a capacity and was not refilled in the future, a thread is granted
-- its token exactly if the bucket has one when it is refilled at the first round, or will have one
-- at the deadline, which is set from the clock reading before that; it raises otherwise. Two rounds
-- are enough. Time and tokens are exact.
pub acquire_alone :
    (fuel started now : ℕ) (oversleep : ℕ → ℕ) (b : TokenBucket)
    → 0 < b.capacity
    → b.last_refill ≤ now
    → let tokens = (refill b now).tokens in
      outcome_of (acquire (suc (suc fuel)) (alone oversleep) b started now)
      ≡ some (
          if leb b.token_ticks tokens
            || leb (now + b.token_ticks) (started + b.maximum_wait + tokens)
          then granted
          else wait_exceeded)
unfolding acquire acquire_round
acquire_alone fuel started now oversleep b room past =
    let fits : b.token_ticks ≤ b.capacity * b.token_ticks = grind arith in ground (arith, fits)
