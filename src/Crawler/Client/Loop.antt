-- ===== src/Crawler/Client/Loop.antt =====
-- A loop by recursion on the attempts left, which shows that the assumption on the retry loop of
-- crawler/application/policies/retry.py can be met.
use sahabino.Common.{
  ℕ, zero, suc, ◌+◌, ◌-◌, ◌≡◌, refl, ap, Bool, true, false, not, ◌&&◌, arith, leb, if◌then◌else◌,
}
use sahabino.Crawler.Exceptions.{Exception, Result, ok, raised, other_error}
use sahabino.Crawler.World.{M, raise, attempt_then}
use sahabino.Crawler.Client.{Retrying, after_attempt}

-- A branch that is not taken does not matter.
if-not_taken :
    {A : Type 0} (b : Bool) (x y z : A) → b ≡ false → (if b then x else z) ≡ (if b then y else z)
if-not_taken true x y z e = ground arith
if-not_taken false x y z e = refl

module _ {P : Type 0} (retryable : Exception → Bool) (max_attempts : ℕ)
    (notify : Exception → M P (Unit {0})) (pause : ℕ → Exception → M P (Unit {0}))
    (operation : ℕ → M P ℕ) where
  -- At most `k` attempts after attempt `n`.
  pub loop : ℕ → ℕ → M P ℕ
  loop zero n =
      attempt_then (operation n)
        (after_attempt retryable max_attempts notify pause n (raise other_error))
  loop (suc k) n =
      attempt_then (operation n)
        (after_attempt retryable max_attempts notify pause n (loop k (n + 1)))

  -- On the last attempt it does not matter what would come next.
  after_last :
      (n : ℕ) (again other : M P ℕ)
      → leb max_attempts n ≡ true
      → (r : Result ℕ)
      → after_attempt retryable max_attempts notify pause n again r
        ≡ after_attempt retryable max_attempts notify pause n other r
  after_last n again other last (ok a) = refl
  after_last n again other last (raised e) =
      if-not_taken (retryable e && not (leb max_attempts n)) _ _ _ (ground (arith, last))

  pub loop_lem :
      (k n : ℕ)
      → max_attempts - n ≡ k
      → loop k n
        ≡ attempt_then (operation n) (
            after_attempt retryable max_attempts notify pause n
              (loop (max_attempts - (n + 1)) (n + 1)))
  unfolding loop
  loop_lem zero n e = λ i. attempt_then (operation n) (λ r.
      after_last n (raise other_error) (loop (max_attempts - (n + 1)) (n + 1)) (ground arith) r i)
  loop_lem (suc k) n e =
      ap
        (λ j.
          attempt_then (operation n)
            (after_attempt retryable max_attempts notify pause n (loop j (n + 1))))
        (omega arith)

unfoldable pub retrying : {P : Type 0} → Retrying P
unfolding loop
retrying = record {
  run = λ retryable max_attempts notify pause operation n.
      loop retryable max_attempts notify pause operation (max_attempts - n) n;
  run_lem = λ retryable max_attempts notify pause operation n.
      loop_lem retryable max_attempts notify pause operation (max_attempts - n) n refl;
}
