-- ===== src/Crawler/Exceptions.antt =====
-- What a call may raise, and results as values. `database_error` stands for any failure of the
-- database session, `other_error` for any other exception of a library.
use sahabino.Common.{◌≡◌, refl, ◌⊎◌, inl, inr}
use sahabino.Crawler.Errors.{CrawlerError}

mutual
  pub data Exception : Type 0 where
    crawler : CrawlerError → Exception
    value_error lookup_error database_error other_error : Exception
    group : Exceptions → Exception

  -- The exceptions of an `ExceptionGroup`.
  pub data Exceptions : Type 0 where
    no_more : Exceptions
    and_also : Exception → Exceptions → Exceptions

pub data Result {ℓ} (A : Type ℓ) : Type ℓ where
  ok : A → Result A
  raised : Exception → Result A

pub Result-cases {ℓ} :
    {A : Type ℓ} (r : Result A) → ((a : A) × (r ≡ ok a)) ⊎ ((e : Exception) × (r ≡ raised e))
Result-cases (ok a) = inl (a, refl)
Result-cases (raised e) = inr (e, refl)
