-- ===== src/Crawler/Circuit/Invariant.antt =====
-- What every breaker keeps, whatever the order in which threads call its methods.
use sahabino.Common.{
  ℕ, ◌<◌, ◌≡◌, ◌≢◌, ap, subst, Bool, true, false, Option, none, some, arith, is_some,
}
use sahabino.Crawler.Errors.{ErrorKind}
use sahabino.Crawler.Circuit.Probes.{
  Monitor, Step, admit, refuse, succeed, fail, Reach, here, next, watched,
}
use sahabino.Crawler.Circuit.{
  CircuitBreaker, CircuitState, Config, closed, open_state, half_open, assertion_failed,
  new_breaker, before_call, record_success, record_failure, record_current, is_relevant,
}

-- The facts about one state: only an OPEN or HALF_OPEN breaker has an opening time, only a
-- HALF_OPEN one a probe, and a CLOSED one has counted fewer failures than its threshold.
abbrev pub StateIsValid : CircuitState → CircuitBreaker → Type 0
StateIsValid closed b =
    (b.opened_at ≡ none) × (b.failure_count < b.threshold) × (b.probe_in_flight ≡ false)
StateIsValid open_state b = (is_some b.opened_at ≡ true) × (b.probe_in_flight ≡ false)
StateIsValid half_open b = is_some b.opened_at ≡ true

pub record IsValid (b : CircuitBreaker) : Type 0 where
  pub positive : 0 < b.threshold
  pub by_state : StateIsValid b.state b

pub new_breaker-IsValid : (c : Config) (b : CircuitBreaker) → new_breaker c ≡ some b → IsValid b
unfolding new_breaker
new_breaker-IsValid c b e = ground arith

pub before_call-IsValid : (b : CircuitBreaker) (now : ℕ) → IsValid b → IsValid (before_call b now).1
unfolding before_call
before_call-IsValid b now v = ground arith

pub record_success-IsValid :
    (b : CircuitBreaker) (token : Option ℕ) → IsValid b → IsValid (record_success b token)
unfolding record_success
record_success-IsValid b token v = ground arith

pub record_current-IsValid :
    (b : CircuitBreaker) (relevant : Bool) (now : ℕ)
    → IsValid b
    → IsValid (record_current b relevant now b.state)
unfolding record_current
record_current-IsValid b relevant now v = ground arith

pub record_failure-IsValid :
    (b : CircuitBreaker) (error : ErrorKind) (proxied : Bool) (token : Option ℕ) (now : ℕ)
    → IsValid b
    → IsValid (record_failure b error proxied token now)
record_failure-IsValid b error proxied token now v =
    unfold record_failure in
    ground (arith, record_current-IsValid b (is_relevant error proxied) now)

valid_asserted :
    (b : CircuitBreaker) (now : ℕ) → IsValid b → (before_call b now).0 ≢ assertion_failed
unfolding before_call
valid_asserted b now v = ground arith

Step-IsValid : {m n : Monitor} → Step m n → IsValid m.breaker → IsValid n.breaker
Step-IsValid {m} (admit now token b e) v =
    subst IsValid (ap (λ out. out.1) e) (before_call-IsValid m.breaker now v)
Step-IsValid {m} (refuse now b e) v =
    subst IsValid (ap (λ out. out.1) e) (before_call-IsValid m.breaker now v)
Step-IsValid {m} (succeed token known) v = record_success-IsValid m.breaker (some token) v
Step-IsValid {m} (fail token now error proxied known) v =
    record_failure-IsValid m.breaker error proxied (some token) now v

Reach-IsValid : {m n : Monitor} → IsValid m.breaker → Reach m n → IsValid n.breaker
Reach-IsValid v here = v
Reach-IsValid v (next r s) = Step-IsValid s (Reach-IsValid v r)

-- From a new breaker, by calls in any order whose reports carry tokens that are still out: the
-- assertion of `before_call` never fails, whatever the clock reads.
pub before_call-ne-assertion_failed :
    (c : Config) (b : CircuitBreaker) (m : Monitor) (now : ℕ)
    → new_breaker c ≡ some b
    → Reach (watched b) m
    → (before_call m.breaker now).0 ≢ assertion_failed
before_call-ne-assertion_failed c b m now new r =
    valid_asserted m.breaker now (Reach-IsValid (new_breaker-IsValid c b new) r)
