-- ===== src/Crawler/World/Outcomes.antt =====
-- What an action comes to from a database of which a statement holds: a statement about its result
-- and the database that it leaves.
use sahabino.Common.{ℕ, ◌≡◌, refl, inl, inr, Bool-cases}
use sahabino.Crawler.Exceptions.{Exception, Result, ok, raised}
use sahabino.Crawler.Lifecycle.{Database}
use sahabino.Crawler.World.Actions.{finish_transaction, transact}
use sahabino.Crawler.World.{Environment, World, M, pure, raise, continue, ◌>>=◌, attempt_then}
use sahabino.Crawler.World.Frames.{Keeps}

pub record Ends {P A : Type 0} (I : Database → Type 0) (Q : Result A → Database → Type 0)
    (m : M P A) : Type 0 where
  pub ends : (w : World P) → I w.db → Q (m w).0 (m w).1.db

Ends-continue :
    {P A B : Type 0} (R : Result A → Database → Type 0) (Q : Result B → Database → Type 0)
    (f : A → M P B)
    → ((a : A) → Ends (R (ok a)) Q (f a))
    → ((e : Exception) (d : Database) → R (raised e) d → Q (raised e) d)
    → (r : Result A × World P) → R r.0 r.1.db
    → Q (continue f r).0 (continue f r).1.db
unfolding continue
Ends-continue R Q f hf he (ok a, w) h = (hf a).ends w h
Ends-continue R Q f hf he (raised e, w) h = he e w.db h

module _ {P : Type 0} {I : Database → Type 0} where
  pub Ends-pure :
      {A : Type 0} {Q : Result A → Database → Type 0} (a : A)
      → ((d : Database) → I d → Q (ok a) d)
      → Ends {P = P} I Q (pure a)
  unfolding pure
  Ends-pure a q = record { ends = λ w h. q w.db h }

  pub Ends-raise :
      {A : Type 0} {Q : Result A → Database → Type 0} (e : Exception)
      → ((d : Database) → I d → Q (raised e) d)
      → Ends {P = P} I Q (raise e)
  unfolding raise
  Ends-raise e q = record { ends = λ w h. q w.db h }

  pub Ends-bind :
      {A B : Type 0} {R : Result A → Database → Type 0} {Q : Result B → Database → Type 0}
      {m : M P A} {f : A → M P B}
      → Ends I R m
      → ((a : A) → Ends (R (ok a)) Q (f a))
      → ((e : Exception) (d : Database) → R (raised e) d → Q (raised e) d)
      → Ends I Q (m >>= f)
  unfolding ◌>>=◌
  Ends-bind {R = R} {Q = Q} {m = m} {f = f} hm hf he = record {
    ends = λ w h. Ends-continue R Q f hf he (m w) (hm.ends w h);
  }

  pub Ends-attempt_then :
      {A B : Type 0} {R : Result A → Database → Type 0} {Q : Result B → Database → Type 0}
      {m : M P A} {f : Result A → M P B}
      → Ends I R m
      → ((r : Result A) → Ends (R r) Q (f r))
      → Ends I Q (attempt_then m f)
  unfolding attempt_then
  Ends-attempt_then {m = m} hm hf = record { ends = λ w h. (hf (m w).0).ends (m w).1 (hm.ends w h) }

  -- A statement that is kept holds of every outcome.
  pub Ends-Keeps : {A : Type 0} {m : M P A} → Keeps I m → Ends I (λ _ d. I d) m
  Ends-Keeps k = record { ends = λ w h. k.keeps w h }

  pub Ends-and :
      {A : Type 0} {K : Database → Type 0} {Q : Result A → Database → Type 0} {m : M P A}
      → Ends I Q m
      → Keeps K m
      → Ends (λ d. I d × K d) (λ r d. Q r d × K d) m
  Ends-and e k = record { ends = λ w h. (e.ends w h.0, k.keeps w h.1) }

  pub Ends-weaken :
      {A : Type 0} {J : Database → Type 0} {R Q : Result A → Database → Type 0} {m : M P A}
      → ((d : Database) → J d → I d)
      → Ends I R m
      → ((r : Result A) (d : Database) → R r d → Q r d)
      → Ends J Q m
  Ends-weaken {m = m} to e from = record {
    ends = λ w h. from (m w).0 (m w).1.db (e.ends w (to w.db h));
  }

-- A statement about the value; nothing is said of an exception.
unfoldable pub OkEnd : {A : Type 0} → (A → Database → Type 0) → Result A → Database → Type 0
OkEnd J (ok a) d = J a d
OkEnd J (raised e) d = Unit {0}

Ends-finish_transaction :
    {P A : Type 0} {J : A → Database → Type 0} (env : Environment) (r : Result (A × Database))
    (w : World P)
    → ((a : A) (d : Database) → r ≡ ok (a, d) → J a d)
    → OkEnd J (finish_transaction env r w).0 (finish_transaction env r w).1.db
unfolding finish_transaction OkEnd
Ends-finish_transaction env (raised e) w new = tt
Ends-finish_transaction env (ok (a, d)) w new =
    elim (Bool-cases (env.commit_fails w.transactions)) [
      | inl fails ↦ rw fails tt
      | inr commits ↦ rw commits (new a d refl)
    ]

module _ {P : Type 0} {I : Database → Type 0} {A : Type 0} {J : A → Database → Type 0}
    (env : Environment) where
  -- A transaction that returns has made the change.
  pub Ends-transact :
      (operation : ℕ → Database → Result (A × Database))
      → ((now : ℕ) (d d' : Database) (a : A) → I d → operation now d ≡ ok (a, d') → J a d')
      → Ends {P = P} I (OkEnd J) (transact env operation)
  unfolding transact
  Ends-transact operation made = record {
    ends = λ w h.
        Ends-finish_transaction {J = J} env (operation (env.now w.transactions) w.db) w
          (λ a d e. made (env.now w.transactions) w.db d a h e);
  }
