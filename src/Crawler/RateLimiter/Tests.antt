-- ===== src/Crawler/RateLimiter/Tests.antt =====
-- Runs of the bucket, and its theorems at concrete inputs.
use sahabino.Common.{◌+◌, ◌*◌, ◌≤◌, ◌≡◌, ◌||◌, refl, some, [], ◌∷◌, List, arith, leb, if◌then◌else◌}
use sahabino.Crawler.RateLimiter.{
  TokenBucket, granted, wait_exceeded, sleep_for, new_bucket, refill, acquire_round, acquire,
}
use sahabino.Crawler.RateLimiter.RateBound.{Round, run, IsWithin, rate_bound}
use sahabino.Crawler.RateLimiter.Termination.{alone, outcome_of, acquire_alone}

-- One token in ten ticks, two tokens at most, a wait of fifteen ticks at most.
abbrev bucket : TokenBucket
bucket = record {
  token_ticks = 10;
  capacity = 2;
  maximum_wait = 15;
  tokens = 20;
  last_refill = 100;
}

abbrev drained : TokenBucket
drained = record bucket { tokens = 3 }

sleeps_for_the_rest : acquire_round drained 100 115 ≡ (sleep_for 7, drained)
unfolding acquire_round
sleeps_for_the_rest = refl

abbrev rounds : List Round
rounds =
    record { now = 100; deadline = 115 }
    ∷ record { now = 101; deadline = 115 }
    ∷ record { now = 112; deadline = 127 }
    ∷ []

three_tokens : (run bucket rounds).0 ≡ 3
unfolding run acquire_round
three_tokens = refl

rate_bound_example :
    ((run bucket rounds).0 * 10 + 100 ≤ 2 * 10 + (run bucket rounds).1.last_refill)
    × IsWithin (run bucket rounds).1
unfolding new_bucket
rate_bound_example = rate_bound 10 2 15 100 bucket rounds refl

acquire_alone_example :
    outcome_of (acquire 2 (alone (λ n. 4)) drained 100 103)
    ≡ some (
        if leb 10 (refill drained 103).tokens || leb 113 (115 + (refill drained 103).tokens)
        then granted
        else wait_exceeded)
acquire_alone_example = acquire_alone 0 100 103 (λ n. 4) drained (omega arith) (omega arith)
