-- ===== src/Crawler/Circuit/Tests.antt =====
-- Runs of the breaker, and its theorems at concrete inputs.
use sahabino.Common.{ℕ, ◌+◌, ◌<◌, ◌≡◌, refl, ◌≢◌, ◌↔◌, ◌⊎◌, true, false, none, some, [], ◌∷◌, arith}
use sahabino.Crawler.Errors.{upstream_failure, network_timeout}
use sahabino.Crawler.Circuit.{
  CircuitBreaker, Config, closed, open_state, half_open, admitted, circuit_is_open,
  assertion_failed, new_breaker, before_call, record_failure, is_relevant,
}
use sahabino.Crawler.Circuit.Invariant.{before_call-ne-assertion_failed}
use sahabino.Crawler.Circuit.Probes.{
  Monitor, Reach, here, next, admit, fail, watched, count, erase, ProbesFit, one_probe_at_a_time,
}
use sahabino.Crawler.Circuit.Threshold.{
  AfterFailures, fail_all, consecutive_failures, refuses_iff, calls, succeeds, after,
  abandoned_probe,
}
use mathlib.Core.List.{foldl}

abbrev two_strikes : Config
two_strikes = record { threshold = 2; cooldown = 10; enabled = true }

abbrev fresh : CircuitBreaker
fresh = record {
  config = two_strikes;
  state = closed;
  failure_count = 0;
  opened_at = none;
  probe_in_flight = false;
  generation = 0;
}

abbrev probing : CircuitBreaker
probing = record fresh {
  state = half_open;
  opened_at = some 5;
  probe_in_flight = true;
  generation = 1;
}

second_failure_opens :
    (record_failure
      (record_failure fresh upstream_failure false none 1)
      network_timeout
      false
      none
      5).state
    ≡ open_state
unfolding record_failure
second_failure_opens = refl

proxied_timeout_is_not_counted : record_failure fresh network_timeout true (some 0) 3 ≡ fresh
unfolding record_failure
proxied_timeout_is_not_counted = refl

probe_after_cooldown :
    before_call (record probing { state = open_state; probe_in_flight = false }) 15
    ≡ (admitted (some 1), probing)
unfolding before_call
probe_after_cooldown = refl

abbrev one_strike : Config
one_strike = record { threshold = 1; cooldown = 10; enabled = true }

abbrev new_one : CircuitBreaker
new_one = record fresh { config = one_strike }

abbrev opened_one : CircuitBreaker
opened_one = record new_one {
  state = open_state;
  failure_count = 1;
  opened_at = some 5;
  generation = 1;
}

abbrev probing_one : Monitor
probing_one = record {
  breaker = record opened_one { state = half_open; probe_in_flight = true };
  outstanding = 1 ∷ [];
}

-- Admitted, failed (which opens the breaker), and admitted again as the probe.
Reach-probing_one : Reach (watched new_one) probing_one
unfolding before_call record_failure count erase
Reach-probing_one =
    next (next (next here (admit 1 0 new_one refl)) (fail 0 5 upstream_failure false (omega arith)))
      (admit 15 1 probing_one.breaker refl)

before_call-ne-assertion_failed_example : (before_call probing_one.breaker 99).0 ≢ assertion_failed
unfolding new_breaker
before_call-ne-assertion_failed_example =
    before_call-ne-assertion_failed one_strike new_one probing_one 99 refl Reach-probing_one

one_probe_at_a_time_example :
    ProbesFit probing_one.breaker.state
      (count probing_one.breaker.generation probing_one.outstanding)
unfolding new_breaker
one_probe_at_a_time_example =
    one_probe_at_a_time one_strike new_one probing_one refl refl Reach-probing_one

consecutive_failures_example : AfterFailures fresh 2 (
    fail_all fresh (
      record { error = upstream_failure; proxied = true; at = 1 }
      ∷ record { error = network_timeout; proxied = false; at = 2 }
      ∷ []))
unfolding is_relevant
consecutive_failures_example =
    consecutive_failures fresh
      (record { error = upstream_failure; proxied = true; at = 1 }
        ∷ record { error = network_timeout; proxied = false; at = 2 }
        ∷ [])
      refl refl (omega arith) (refl, (refl, tt))

refuses_iff_example : ((before_call probing 7).0 ≡ circuit_is_open) ↔ (
    ((probing.state ≡ open_state)
      × (t : ℕ) × (probing.opened_at ≡ some t)
      × (7 < t + probing.cooldown))
    ⊎ ((probing.state ≡ half_open) × (probing.probe_in_flight ≡ true)))
refuses_iff_example = refuses_iff probing 7 refl

abandoned_probe_example :
    (foldl after probing (calls 100 ∷ succeeds 0 ∷ []) ≡ probing)
    × ((before_call (foldl after probing (calls 100 ∷ succeeds 0 ∷ [])) 200).0 ≡ circuit_is_open)
abandoned_probe_example =
    abandoned_probe probing (calls 100 ∷ succeeds 0 ∷ []) 200 refl refl refl
      (tt, ((λ e. omega arith), tt))
