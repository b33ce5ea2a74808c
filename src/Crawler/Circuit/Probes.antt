-- ===== src/Crawler/Circuit/Probes.antt =====
-- Who is let through. A monitor follows the tokens that `before_call` has handed out and that no
-- report has come back for yet; threads call the breaker in any order.
use sahabino.Common.{
  ℕ, ◌+◌, ◌-◌, ◌≤◌, ◌<◌, ◌≡◌, Bool, true, some, List, [], ◌∷◌, arith, ◌==◌, if◌then◌else◌, ltb,
}
use sahabino.Crawler.Errors.{ErrorKind}
use sahabino.Crawler.Circuit.{
  CircuitBreaker, CircuitState, Config, closed, open_state, half_open, admitted, circuit_is_open,
  new_breaker, before_call, record_success, record_failure, record_current, is_relevant,
}

unfoldable pub count : ℕ → List ℕ → ℕ
count t [] = 0
count t (x ∷ xs) = (if x == t then 1 else 0) + count t xs

unfoldable pub erase : ℕ → List ℕ → List ℕ
erase t [] = []
erase t (x ∷ xs) = if x == t then xs else x ∷ erase t xs

count-erase :
    (t u : ℕ) (xs : List ℕ) → count t (erase u xs) ≡ (if t == u then count t xs - 1 else count t xs)
unfolding count erase
count-erase t u [] = ground arith
count-erase t u (x ∷ xs) = ground (arith, count-erase t u xs)

-- How many tokens lie above `g`.
pub exceeding : ℕ → List ℕ → ℕ
exceeding g [] = 0
exceeding g (x ∷ xs) = (if ltb g x then 1 else 0) + exceeding g xs

exceeding-erase : (g u : ℕ) (xs : List ℕ) → exceeding g (erase u xs) ≤ exceeding g xs
unfolding exceeding erase
exceeding-erase g u [] = omega arith
exceeding-erase g u (x ∷ xs) = ground (arith, exceeding-erase g u xs)

-- The next generation has no token among those of the earlier ones.
exceeding-suc :
    (g : ℕ) (xs : List ℕ)
    → (exceeding (g + 1) xs ≤ exceeding g xs) × (count (g + 1) xs ≤ exceeding g xs)
unfolding exceeding count
exceeding-suc g [] = omega arith
exceeding-suc g (x ∷ xs) = ground (arith, exceeding-suc g xs)

pub record Monitor : Type 0 where
  pub breaker : CircuitBreaker
  pub outstanding : List ℕ

-- One call of the breaker. A report carries a token that is still outstanding.
pub data Step (m : Monitor) : Monitor → Type 0 where
  admit :
      (now token : ℕ) (b : CircuitBreaker)
      → before_call m.breaker now ≡ (admitted (some token), b)
      → Step m (record { breaker = b; outstanding = token ∷ m.outstanding })
  refuse :
      (now : ℕ) (b : CircuitBreaker)
      → before_call m.breaker now ≡ (circuit_is_open, b)
      → Step m (record { breaker = b; outstanding = m.outstanding })
  succeed :
      (token : ℕ)
      → 0 < count token m.outstanding
      → Step m (record {
        breaker = record_success m.breaker (some token);
        outstanding = erase token m.outstanding;
      })
  fail :
      (token now : ℕ) (error : ErrorKind) (proxied : Bool)
      → 0 < count token m.outstanding
      → Step m (record {
        breaker = record_failure m.breaker error proxied (some token) now;
        outstanding = erase token m.outstanding;
      })

pub data Reach (m : Monitor) : Monitor → Type 0 where
  here : Reach m m
  next : {k n : Monitor} → Reach m k → Step k n → Reach m n

-- How many calls of the present generation may be under way.
abbrev Slots : CircuitState → CircuitBreaker → ℕ → Type 0
Slots closed b n = Unit
Slots open_state b n = n ≡ 0
Slots half_open b n = n ≡ (if b.probe_in_flight then 1 else 0)

pub record IsTracked (m : Monitor) : Type 0 where
  pub enabled : m.breaker.enabled ≡ true
  pub old : exceeding m.breaker.generation m.outstanding ≡ 0
  pub slots : Slots m.breaker.state m.breaker (count m.breaker.generation m.outstanding)

admit-IsTracked :
    (m : Monitor) (now token : ℕ) (b : CircuitBreaker)
    → before_call m.breaker now ≡ (admitted (some token), b)
    → IsTracked m
    → IsTracked (record { breaker = b; outstanding = token ∷ m.outstanding })
unfolding before_call count exceeding
admit-IsTracked m now token b e t = ground arith

refuse-IsTracked :
    (m : Monitor) (now : ℕ) (b : CircuitBreaker)
    → before_call m.breaker now ≡ (circuit_is_open, b)
    → IsTracked m
    → IsTracked (record { breaker = b; outstanding = m.outstanding })
unfolding before_call
refuse-IsTracked m now b e t = ground arith

module _ (m : Monitor) (token : ℕ) (known : 0 < count token m.outstanding) (t : IsTracked m) where
  succeed-IsTracked : IsTracked (record {
    breaker = record_success m.breaker (some token);
    outstanding = erase token m.outstanding;
  })
  unfolding record_success
  succeed-IsTracked = ground (
    arith,
    exceeding-erase m.breaker.generation token m.outstanding,
    count-erase m.breaker.generation token m.outstanding,
  )

  current-IsTracked :
      (relevant : Bool) (now : ℕ)
      → token ≡ m.breaker.generation
      → IsTracked (record {
        breaker = record_current m.breaker relevant now m.breaker.state;
        outstanding = erase token m.outstanding;
      })
  unfolding record_current
  current-IsTracked relevant now e = ground (
    arith,
    exceeding-erase m.breaker.generation token m.outstanding,
    count-erase m.breaker.generation token m.outstanding,
    exceeding-suc m.breaker.generation (erase token m.outstanding),
  )

  fail-IsTracked :
      (now : ℕ) (error : ErrorKind) (proxied : Bool)
      → IsTracked (record {
        breaker = record_failure m.breaker error proxied (some token) now;
        outstanding = erase token m.outstanding;
      })
  fail-IsTracked now error proxied =
      unfold record_failure in
      ground (
        arith,
        current-IsTracked (is_relevant error proxied) now,
        exceeding-erase m.breaker.generation token m.outstanding,
        count-erase m.breaker.generation token m.outstanding,
      )

Step-IsTracked : {m n : Monitor} → Step m n → IsTracked m → IsTracked n
Step-IsTracked {m} (admit now token b e) t = admit-IsTracked m now token b e t
Step-IsTracked {m} (refuse now b e) t = refuse-IsTracked m now b e t
Step-IsTracked {m} (succeed token known) t = succeed-IsTracked m token known t
Step-IsTracked {m} (fail token now error proxied known) t =
    fail-IsTracked m token known t now error proxied

Reach-IsTracked : {m n : Monitor} → IsTracked m → Reach m n → IsTracked n
Reach-IsTracked t here = t
Reach-IsTracked t (next r s) = Step-IsTracked s (Reach-IsTracked t r)

abbrev pub watched : CircuitBreaker → Monitor
watched b = record { breaker = b; outstanding = [] }

start-IsTracked :
    (c : Config) (b : CircuitBreaker)
    → c.enabled ≡ true
    → new_breaker c ≡ some b
    → IsTracked (watched b)
unfolding new_breaker count exceeding
start-IsTracked c b on new = ground arith

-- How many unreported calls of its own generation a breaker may have.
abbrev pub ProbesFit : CircuitState → ℕ → Type 0
ProbesFit closed n = Unit {0}
ProbesFit half_open n = n ≤ 1
ProbesFit open_state n = n ≡ 0

IsTracked-ProbesFit :
    (m : Monitor)
    → IsTracked m
    → ProbesFit m.breaker.state (count m.breaker.generation m.outstanding)
IsTracked-ProbesFit m t = ground arith

-- From a new breaker that is enabled, by calls in any order whose reports carry tokens that are
-- still out: while the breaker is HALF_OPEN at most one call of its generation is unreported,
-- and while it is OPEN there is none.
pub one_probe_at_a_time :
    (c : Config) (b : CircuitBreaker) (m : Monitor)
    → c.enabled ≡ true
    → new_breaker c ≡ some b
    → Reach (watched b) m
    → ProbesFit m.breaker.state (count m.breaker.generation m.outstanding)
one_probe_at_a_time c b m on new r =
    IsTracked-ProbesFit m (Reach-IsTracked (start-IsTracked c b on new) r)
