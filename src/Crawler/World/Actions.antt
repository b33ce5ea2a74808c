-- ===== src/Crawler/World/Actions.antt =====
-- The actions that ask the surroundings.
use sahabino.Common.{ℕ, ◌+◌, Bool, Option, if◌then◌else◌}
use sahabino.Crawler.Errors.{ErrorKind, new_error, circuit_open}
use sahabino.Crawler.Exceptions.{Result, ok, raised, crawler, database_error, other_error}
use sahabino.Crawler.Circuit
use sahabino.Crawler.Circuit.{Admission, admitted, circuit_is_open, assertion_failed}
use sahabino.Crawler.Lifecycle.{Database}
use sahabino.Crawler.World.{Environment, AdapterOutcome, M, ◌>>=◌}

module _ {P : Type 0} (env : Environment) where
  -- A reading of the monotonic clock.
  unfoldable pub read_clock : M P ℕ
  read_clock w = (ok (env.monotonic w.asked), record w { asked = w.asked + 1 })

  unfoldable pub draw_random : M P ℕ
  draw_random w = (ok (env.random w.asked), record w { asked = w.asked + 1 })

  unfoldable pub call_primary : M P AdapterOutcome
  call_primary w = (ok (env.primary w.asked), record w { asked = w.asked + 1 })

  unfoldable pub call_secondary : M P AdapterOutcome
  call_secondary w = (ok (env.secondary w.asked), record w { asked = w.asked + 1 })

-- `with lifecycle.transaction() as t: …; t.commit()`: an operation that raises and a commit that
-- fails leave the database as it was. The operation is given the time and the rows.
module _ {P A : Type 0} (env : Environment) where
  unfoldable pub finish_transaction : Result (A × Database) → M P A
  finish_transaction (raised e) w = (raised e, record w { transactions = w.transactions + 1 })
  finish_transaction (ok (a, d)) w =
      if env.commit_fails w.transactions
      then (raised database_error, record w { transactions = w.transactions + 1 })
      else (ok a, record w { transactions = w.transactions + 1; db = d })

  unfoldable pub transact : (ℕ → Database → Result (A × Database)) → M P A
  unfolding finish_transaction
  transact operation w = finish_transaction (operation (env.now w.transactions) w.db) w

-- The circuit breaker, shared by all clients.
module _ {P : Type 0} (env : Environment) where
  -- `before_call`, which raises `CircuitOpen`, or fails in its assertion.
  unfoldable pub admit : Admission × Circuit.CircuitBreaker → M P (Option ℕ)
  admit (admitted token, b) w = (ok token, record w { circuit = b })
  admit (circuit_is_open, b) w =
      (raised (crawler (new_error circuit_open)), record w { circuit = b })
  admit (assertion_failed, b) w = (raised other_error, record w { circuit = b })

  unfoldable pub circuit_before_call : M P (Option ℕ)
  unfolding admit read_clock
  circuit_before_call = do now ← read_clock env; λ w. admit (Circuit.before_call w.circuit now) w

  unfoldable pub circuit_failure : ErrorKind → Bool → Option ℕ → M P (Unit {0})
  unfolding read_clock
  circuit_failure error proxied token = do
    now ← read_clock env
    λ w. (ok tt, record w { circuit = Circuit.record_failure w.circuit error proxied token now })

unfoldable pub circuit_success : {P : Type 0} → Option ℕ → M P (Unit {0})
circuit_success token w = (ok tt, record w { circuit = Circuit.record_success w.circuit token })
