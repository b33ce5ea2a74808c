-- ===== src/Crawler/RateLimiter/RateBound.antt =====
-- The rate that the bucket allows, over every interleaving of the threads that use it.
use sahabino.Common.{ℕ, ◌+◌, ◌*◌, ◌≤◌, ◌≡◌, List, [], ◌∷◌, arith, ap, some}
use sahabino.Crawler.RateLimiter.{TokenBucket, Outcome, granted, new_bucket, acquire_round}

-- A round by some thread: its clock reading and its deadline.
pub record Round : Type 0 where
  pub now : ℕ
  pub deadline : ℕ

abbrev grants : Outcome → ℕ
grants granted = 1
grants _ = 0

-- The number of tokens that a sequence of rounds hands out, and the bucket after it.
unfoldable pub run : TokenBucket → List Round → ℕ × TokenBucket
run b [] = (0, b)
run b (r ∷ rs) =
    let (outcome, b') = acquire_round b r.now r.deadline in
    let rest = run b' rs in (grants outcome + rest.0, rest.1)

-- What a bucket keeps: it never overflows.
abbrev pub IsWithin : TokenBucket → Type 0
IsWithin b = b.tokens ≤ b.capacity * b.token_ticks

round_cost :
    (b : TokenBucket) (now deadline : ℕ)
    → let (outcome, b') = acquire_round b now deadline in
      IsWithin b'
      × (b'.token_ticks ≡ b.token_ticks)
      × (b'.capacity ≡ b.capacity)
      × (b.last_refill ≤ b'.last_refill)
      × (grants outcome * b.token_ticks + b'.tokens + b.last_refill ≤ b.tokens + b'.last_refill)
unfolding acquire_round
round_cost b now deadline = ground arith

abbrev Bounded : TokenBucket → ℕ × TokenBucket → Type 0
Bounded b r =
    IsWithin r.1
    × (r.1.token_ticks ≡ b.token_ticks)
    × (r.1.capacity ≡ b.capacity)
    × (b.last_refill ≤ r.1.last_refill)
    × (r.0 * b.token_ticks + r.1.tokens + b.last_refill ≤ b.tokens + r.1.last_refill)

run_cost : (b : TokenBucket) (rs : List Round) → IsWithin b → Bounded b (run b rs)
unfolding run
run_cost b [] w = omega arith
run_cost b (r ∷ rs) w =
    let (outcome, b') = acquire_round b r.now r.deadline in
    let step = round_cost b r.now r.deadline in
    let rest = run_cost b' rs step.0 in
    let same : (run b' rs).0 * b'.token_ticks ≡ (run b' rs).0 * b.token_ticks =
      ap (λ t. (run b' rs).0 * t) step.1 in
    grind (arith, step, rest, same)

-- Whatever rounds threads make on a new bucket, the tokens handed out cost no more than the full
-- bucket and the time between its construction and the latest clock reading, and the bucket never
-- holds more than its capacity.
pub rate_bound :
    (token_ticks capacity maximum_wait start : ℕ) (b : TokenBucket) (rs : List Round)
    → new_bucket token_ticks capacity maximum_wait start ≡ some b
    → ((run b rs).0 * token_ticks + start ≤ capacity * token_ticks + (run b rs).1.last_refill)
      × IsWithin (run b rs).1
unfolding new_bucket
rate_bound token_ticks capacity maximum_wait start b rs e = ground (arith, run_cost b rs)
