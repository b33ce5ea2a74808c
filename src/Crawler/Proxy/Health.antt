-- ===== src/Crawler/Proxy/Health.antt =====
-- The health of one endpoint over any sequence of calls.
use sahabino.Common.{
  ℕ, ◌+◌, ◌≤◌, ◌≡◌, refl, ◌↔◌, true, false, List, [], ◌∷◌, arith, leb, if◌then◌else◌,
}
use sahabino.Crawler.Proxy.{
  ProxyEndpoint, is_out, record_success, usable, start_cooldown, record_failure, disable,
  mark_unhealthy,
}

pub data Call : Type 0 where
  succeeds : Call
  asks : ℕ → Call
  fails : ℕ → ℕ → ℕ → Call
  cools_down : ℕ → ℕ → Call
  disables : Call
  goes_unhealthy : Call

unfoldable pub after : ProxyEndpoint → Call → ProxyEndpoint
after e succeeds = record_success e
after e (asks now) = (usable e now).1
after e (fails threshold cooldown now) = (record_failure e threshold cooldown now).1
after e (cools_down cooldown now) = start_cooldown e cooldown now
after e disables = disable e
after e goes_unhealthy = mark_unhealthy e

unfoldable pub after_all : ProxyEndpoint → List Call → ProxyEndpoint
unfolding after
after_all e [] = e
after_all e (c ∷ cs) = after_all (after e c) cs

after-is_out :
    (e : ProxyEndpoint) (c : Call) → is_out e.state ≡ true → is_out (after e c).state ≡ true
unfolding after record_success usable record_failure mark_unhealthy disable
after-is_out e succeeds h = ground arith
after-is_out e (asks now) h = ground arith
after-is_out e (fails threshold cooldown now) h = ground arith
after-is_out e (cools_down cooldown now) h = ground arith
after-is_out e disables h = refl
after-is_out e goes_unhealthy h = ground arith

-- An endpoint that is unhealthy or disabled is out for good: after any calls it is still not
-- usable, at any time.
pub out_for_good :
    (e : ProxyEndpoint) (cs : List Call) (now : ℕ)
    → is_out e.state ≡ true
    → (usable (after_all e cs) now).0 ≡ false
unfolding after_all usable
out_for_good e [] now h = ground arith
out_for_good e (c ∷ cs) now h = out_for_good (after e c) cs now (after-is_out e c h)

-- After the failure that reaches the threshold, an endpoint in use is unusable up to the end of
-- its cooldown and usable again, with its count cleared, from then on.
pub cooldown_exact :
    (e : ProxyEndpoint) (threshold cooldown now later : ℕ)
    → is_out e.state ≡ false
    → threshold ≤ e.failure_count + 1
    → let (told, e') = record_failure e threshold cooldown now in
      (told ≡ true)
      × (((usable e' later).0 ≡ true) ↔ (now + cooldown ≤ later))
      × ((usable e' later).1.failure_count
          ≡ (if leb (now + cooldown) later then 0 else e.failure_count + 1))
unfolding record_failure usable
cooldown_exact e threshold cooldown now later h full = ground arith
