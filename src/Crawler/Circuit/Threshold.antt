-- ===== src/Crawler/Circuit/Threshold.antt =====
-- When a breaker opens, when it refuses, and when it refuses for ever.
use mathlib.Core.List.{foldl}
use sahabino.Common.{
  ℕ, ◌+◌, ◌≤◌, ◌<◌, ◌≡◌, refl, ◌≢◌, ◌↔◌, ◌⊎◌, inr, Bool, true, none, some, List, [], ◌∷◌, arith,
  length, dec_lt, All, subst, sym,
}
use sahabino.Crawler.Errors.{ErrorKind}
use sahabino.Crawler.Circuit.{
  CircuitBreaker, closed, open_state, half_open, circuit_is_open, before_call, record_success,
  record_failure, record_current, open_circuit, is_relevant,
}

-- A reported failure: its class, whether the call was proxied, and the clock reading.
pub record Failure : Type 0 where
  pub error : ErrorKind
  pub proxied : Bool
  pub at : ℕ

abbrev pub fail_with : CircuitBreaker → Failure → CircuitBreaker
fail_with b f = record_failure b f.error f.proxied none f.at

-- What a run of failures leaves behind, `n` of them after those already counted.
abbrev pub AfterFailures : CircuitBreaker → ℕ → CircuitBreaker → Type 0
AfterFailures b n b' =
    (b.failure_count + n < b.threshold
      → (b'.state ≡ closed) × (b'.failure_count ≡ b.failure_count + n))
    × (b.threshold ≤ b.failure_count + n
        → (b'.state ≡ open_state) × (b'.generation ≡ b.generation + 1))

fail_with-open : (b : CircuitBreaker) (f : Failure) → b.state ≡ open_state → fail_with b f ≡ b
unfolding record_failure
fail_with-open b f e = ground arith

pub fail_all : CircuitBreaker → List Failure → CircuitBreaker
fail_all b [] = b
fail_all b (f ∷ fs) = fail_all (fail_with b f) fs

opened_stays : (b : CircuitBreaker) (fs : List Failure) → b.state ≡ open_state → fail_all b fs ≡ b
unfolding fail_all open_circuit
opened_stays b [] e = refl
opened_stays b (f ∷ fs) e = rw (fail_with-open b f e) (opened_stays b fs e)

abbrev counted : CircuitBreaker → CircuitBreaker
counted b = record b { failure_count = b.failure_count + 1 }

module _ (b : CircuitBreaker) (f : Failure) (on : b.enabled ≡ true) (e : b.state ≡ closed)
    (h : is_relevant f.error f.proxied ≡ true) where
  fail_with-below : b.failure_count + 1 < b.threshold → fail_with b f ≡ counted b
  fail_with-below lt = unfold record_failure record_current in rw (on, h, e) (ground arith)

  fail_with-at : b.threshold ≤ b.failure_count + 1 → fail_with b f ≡ open_circuit (counted b) f.at
  fail_with-at le = unfold record_failure record_current in rw (on, h, e) (ground arith)

-- On an enabled CLOSED breaker, a run of failures that all count: below the threshold it stays
-- CLOSED and the count is exact; at the threshold or beyond it is OPEN, one generation later.
pub consecutive_failures :
    (b : CircuitBreaker) (fs : List Failure)
    → b.enabled ≡ true
    → b.state ≡ closed
    → b.failure_count < b.threshold
    → All (λ f. is_relevant f.error f.proxied ≡ true) fs
    → AfterFailures b (length fs) (fail_all b fs)
unfolding fail_all open_circuit
consecutive_failures b [] on e lt h = ground arith
consecutive_failures b (f ∷ fs) on e lt h = elim (dec_lt (b.failure_count + 1) b.threshold) [
  | yes below ↦
      subst (λ c. AfterFailures b (length (f ∷ fs)) (fail_all c fs))
        (sym (fail_with-below b f on e h.0 below))
        (ground (arith, consecutive_failures (counted b) fs on e below h.1))
  | no above ↦
      subst (λ c. AfterFailures b (length (f ∷ fs)) (fail_all c fs))
        (sym (fail_with-at b f on e h.0 (omega arith)))
        (rw (opened_stays (open_circuit (counted b) f.at) fs refl) (ground arith))
]

refuses_only :
    (b : CircuitBreaker) (now : ℕ)
    → (before_call b now).0 ≡ circuit_is_open
    → ((b.state ≡ open_state) × (t : ℕ) × (b.opened_at ≡ some t) × (now < t + b.cooldown))
      ⊎ ((b.state ≡ half_open) × (b.probe_in_flight ≡ true))
unfolding before_call
refuses_only b now h = ground arith

refuses :
    (b : CircuitBreaker) (now : ℕ)
    → b.enabled ≡ true
    → ((b.state ≡ open_state) × (t : ℕ) × (b.opened_at ≡ some t) × (now < t + b.cooldown))
      ⊎ ((b.state ≡ half_open) × (b.probe_in_flight ≡ true))
    → (before_call b now).0 ≡ circuit_is_open
unfolding before_call
refuses b now on h = ground arith

-- An enabled breaker refuses a call exactly while it is OPEN and its cooldown runs, or HALF_OPEN
-- with a probe under way.
pub refuses_iff :
    (b : CircuitBreaker) (now : ℕ)
    → b.enabled ≡ true
    → ((before_call b now).0 ≡ circuit_is_open) ↔ (
        ((b.state ≡ open_state) × (t : ℕ) × (b.opened_at ≡ some t) × (now < t + b.cooldown))
        ⊎ ((b.state ≡ half_open) × (b.probe_in_flight ≡ true)))
refuses_iff b now on = (refuses_only b now, refuses b now on)

pub data Call : Type 0 where
  calls : ℕ → Call
  succeeds : ℕ → Call
  fails : ℕ → Failure → Call

-- The breaker after a call; a report carries its token.
abbrev pub after : CircuitBreaker → Call → CircuitBreaker
after b (calls now) = (before_call b now).1
after b (succeeds token) = record_success b (some token)
after b (fails token f) = record_failure b f.error f.proxied (some token) f.at

-- Everything but a report with the token of the probe.
abbrev pub IsForeign : ℕ → Call → Type 0
IsForeign g (calls now) = Unit
IsForeign g (succeeds token) = token ≢ g
IsForeign g (fails token f) = token ≢ g

foreign_changes_nothing :
    (b : CircuitBreaker) (c : Call)
    → b.state ≡ half_open
    → b.probe_in_flight ≡ true
    → IsForeign b.generation c
    → after b c ≡ b
foreign_changes_nothing b (calls now) s p h = unfold before_call in ground arith
foreign_changes_nothing b (succeeds token) s p h = unfold record_success in ground arith
foreign_changes_nothing b (fails token f) s p h = unfold record_failure in ground arith

-- A probe that is never reported shuts an enabled breaker for good: after any calls and any
-- reports of other generations it is what it was, and refuses the next call at any time.
pub abandoned_probe :
    (b : CircuitBreaker) (cs : List Call) (now : ℕ)
    → b.enabled ≡ true
    → b.state ≡ half_open
    → b.probe_in_flight ≡ true
    → All (IsForeign b.generation) cs
    → (foldl after b cs ≡ b) × ((before_call (foldl after b cs) now).0 ≡ circuit_is_open)
abandoned_probe b [] now on s p h = (refl, refuses b now on (inr (s, p)))
abandoned_probe b (c ∷ cs) now on s p h =
    rw (foreign_changes_nothing b c s p h.0) (abandoned_probe b cs now on s p h.1)
