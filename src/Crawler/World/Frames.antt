-- ===== src/Crawler/World/Frames.antt =====
-- What actions leave of the database: a statement about it that they keep, however they end. The
-- rules follow the shape of an action.
use sahabino.Common.{ℕ, ◌≡◌, refl, inl, inr, Bool-cases, Bool, true, false, Option, if◌then◌else◌}
use sahabino.Crawler.Errors.{ErrorKind}
use sahabino.Crawler.Exceptions.{Exception, Result, ok, raised}
use sahabino.Crawler.Circuit.{Admission, admitted, circuit_is_open, assertion_failed}
use sahabino.Crawler.Circuit
use sahabino.Crawler.Lifecycle.{Database}
use sahabino.Crawler.World.{Environment, World, M, pure, raise, continue, ◌>>=◌, attempt_then}
use sahabino.Crawler.World.Actions.{
  read_clock, draw_random, call_primary, call_secondary, finish_transaction, transact,
  circuit_before_call, admit, circuit_failure, circuit_success,
}

pub record Keeps {P A : Type 0} (I : Database → Type 0) (m : M P A) : Type 0 where
  pub keeps : (w : World P) → I w.db → I (m w).1.db

module _ {P : Type 0} {I : Database → Type 0} where
  pub Keeps-pure : {A : Type 0} (a : A) → Keeps {P = P} I (pure a)
  unfolding pure
  Keeps-pure a = record { keeps = λ w h. h }

  pub Keeps-raise : {A : Type 0} (e : Exception) → Keeps {P = P} {A = A} I (raise e)
  unfolding raise
  Keeps-raise e = record { keeps = λ w h. h }

  pub Keeps-if :
      {A : Type 0} {m n : M P A} (b : Bool) → Keeps I m → Keeps I n → Keeps I (if b then m else n)
  Keeps-if true hm hn = hm
  Keeps-if false hm hn = hn

  -- The same, with the test known in each branch.
  pub Keeps-test :
      {A : Type 0} {m n : M P A} (b : Bool)
      → (b ≡ true → Keeps I m)
      → Keeps I n
      → Keeps I (if b then m else n)
  Keeps-test true hm hn = hm refl
  Keeps-test false hm hn = hn

  Keeps-continue :
      {A B : Type 0} (f : A → M P B)
      → ((a : A) → Keeps I (f a))
      → (r : Result A × World P) → I r.1.db
      → I (continue f r).1.db
  unfolding continue
  Keeps-continue f hf (ok a, w) h = (hf a).keeps w h
  Keeps-continue f hf (raised e, w) h = h

  pub Keeps-bind :
      {A B : Type 0} {m : M P A} {f : A → M P B}
      → Keeps I m
      → ((a : A) → Keeps I (f a))
      → Keeps I (m >>= f)
  unfolding ◌>>=◌
  Keeps-bind {m = m} {f = f} hm hf = record {
    keeps = λ w h. Keeps-continue f hf (m w) (hm.keeps w h);
  }

  pub Keeps-attempt_then :
      {A B : Type 0} {m : M P A} {f : Result A → M P B}
      → Keeps I m
      → ((r : Result A) → Keeps I (f r))
      → Keeps I (attempt_then m f)
  unfolding attempt_then
  Keeps-attempt_then {m = m} hm hf = record {
    keeps = λ w h. (hf (m w).0).keeps (m w).1 (hm.keeps w h);
  }

  module _ (env : Environment) where
    pub Keeps-read_clock : Keeps {P = P} I (read_clock env)
    unfolding read_clock
    Keeps-read_clock = record { keeps = λ w h. h }

    pub Keeps-draw_random : Keeps {P = P} I (draw_random env)
    unfolding draw_random
    Keeps-draw_random = record { keeps = λ w h. h }

    pub Keeps-call_primary : Keeps {P = P} I (call_primary env)
    unfolding call_primary
    Keeps-call_primary = record { keeps = λ w h. h }

    pub Keeps-call_secondary : Keeps {P = P} I (call_secondary env)
    unfolding call_secondary
    Keeps-call_secondary = record { keeps = λ w h. h }

    Keeps-admit : (r : Admission × Circuit.CircuitBreaker) → Keeps {P = P} I (admit env r)
    unfolding admit
    Keeps-admit (admitted token, b) = record { keeps = λ w h. h }
    Keeps-admit (circuit_is_open, b) = record { keeps = λ w h. h }
    Keeps-admit (assertion_failed, b) = record { keeps = λ w h. h }

    pub Keeps-circuit_before_call : Keeps {P = P} I (circuit_before_call env)
    unfolding circuit_before_call
    Keeps-circuit_before_call = Keeps-bind Keeps-read_clock (λ now. record {
      keeps = λ w h. (Keeps-admit (Circuit.before_call w.circuit now)).keeps w h;
    })

    pub Keeps-circuit_failure :
        (error : ErrorKind) (proxied : Bool) (token : Option ℕ)
        → Keeps {P = P} I (circuit_failure env error proxied token)
    unfolding circuit_failure
    Keeps-circuit_failure error proxied token =
        Keeps-bind Keeps-read_clock (λ now. record { keeps = λ w h. h })

    Keeps-finish_transaction :
        {A : Type 0} (r : Result (A × Database)) (w : World P)
        → ((a : A) (d : Database) → r ≡ ok (a, d) → I d)
        → I w.db
        → I (finish_transaction env r w).1.db
    unfolding finish_transaction
    Keeps-finish_transaction (raised e) w new h = h
    Keeps-finish_transaction (ok (a, d)) w new h =
        elim (Bool-cases (env.commit_fails w.transactions)) [
          | inl fails ↦ rw fails h
          | inr commits ↦ rw commits (new a d refl)
        ]

    pub Keeps-transact :
        {A : Type 0} (operation : ℕ → Database → Result (A × Database))
        → ((now : ℕ) (d d' : Database) (a : A) → I d → operation now d ≡ ok (a, d') → I d')
        → Keeps {P = P} I (transact env operation)
    unfolding transact
    Keeps-transact operation keeps = record {
      keeps = λ w h.
          Keeps-finish_transaction (operation (env.now w.transactions) w.db) w
            (λ a d e. keeps (env.now w.transactions) w.db d a h e) h;
    }

  pub Keeps-circuit_success : (token : Option ℕ) → Keeps {P = P} I (circuit_success token)
  unfolding circuit_success
  Keeps-circuit_success token = record { keeps = λ w h. h }
