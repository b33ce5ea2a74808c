-- ===== src/Crawler/Policies/Backoff.antt =====
-- Bounds of the delay between two attempts.
use Prim.Native.Nat.{◌^◌}
use sahabino.Common.{
  ℕ, zero, suc, ◌-◌, ◌≤◌, ◌<◌, ◌≡◌, ◌⊎◌, inl, refl, Option, none, some, [], ◌∷◌, arith,
  if◌then◌else◌,
}
use sahabino.Crawler.Errors.{CrawlerError, isinstance, rate_limited, upstream_failure}
use sahabino.Crawler.Policies.{backoff, delay_for}
use native.Mathlib.Nat.{pow-suc}

-- The `Retry-After` of a rate limit or an upstream failure, and 0 where there is none.
abbrev pub requested : Option CrawlerError → ℕ
requested none = 0
requested (some e) = elim e.retry_after_seconds [
  | none ↦ 0
  | some seconds ↦ if isinstance e.kind (rate_limited ∷ upstream_failure ∷ []) then seconds else 0
]

-- The delay is the backoff, which never passes the maximum, or the `Retry-After` of a rate limit or
-- an upstream failure, whichever is longer; no other error prolongs it.
pub delay_bounds :
    (second max_delay random attempt : ℕ) (error : Option CrawlerError)
    → let plain = backoff second max_delay random attempt in
      let delay = delay_for second max_delay random attempt error in
      (plain ≤ max_delay)
      × (plain ≤ delay)
      × (requested error ≤ delay)
      × ((delay ≡ plain) ⊎ (delay ≡ requested error))
unfolding delay_for
delay_bounds second max_delay random attempt none =
    (omega arith, omega arith, omega arith, inl refl)
delay_bounds second max_delay random attempt (some e) = ground arith

pow_pos : (n : ℕ) → 1 ≤ 2 ^ n
pow_pos zero = omega arith
pow_pos (suc n) = rw (pow-suc 2 n) (omega (arith, pow_pos n))

-- While the jitter stays below a second, the backoff never falls from one attempt to the next.
backoff_grows :
    (second max_delay random random' attempt : ℕ)
    → random < second
    → 0 < attempt
    → backoff second max_delay random attempt ≤ backoff second max_delay random' (suc attempt)
unfolding backoff
backoff_grows second max_delay random random' zero h p = elim p [ ]
backoff_grows second max_delay random random' (suc n) h p =
    let exponent : suc (suc n) - 1 ≡ suc n = omega arith in
    let below : suc n - 1 ≡ n = omega arith in
    rw (exponent, below, pow-suc 2 n) (grind (arith, pow_pos n))
