-- ===== src/Crawler/Reviews/Tests.antt =====
-- Batches at concrete inputs: one bad record of two, and one of twenty.
use sahabino.Common.{
  ℕ, ◌≡◌, refl, ◌≢◌, List, [], ◌∷◌, ◌++◌, arith, length, take, if◌then◌else◌, ◌==◌,
}
use sahabino.Crawler.Errors.{new_error, schema_failure}
use sahabino.Crawler.Exceptions.{Exception, ok, raised, crawler}
use sahabino.Crawler.Reviews.{
  ReviewRecord, item, no_dict, Normalized, review, bad_value, unexpected, normalize_from,
  add_record, is_rejected, finish_batch, normalize_review_batch,
}
use sahabino.Crawler.Reviews.Batch.{BatchOutcome, reviews_of, batch_exact}

abbrev normalize : ℕ → ℕ → Normalized
normalize x position = if x == 0 then bad_value else review x

abbrev five : List ReviewRecord
five = item 1 ∷ item 2 ∷ item 3 ∷ item 4 ∷ item 5 ∷ []

abbrev one_of_twenty : List ReviewRecord
one_of_twenty = no_dict ∷ item 6 ∷ item 7 ∷ item 8 ∷ item 9 ∷ (five ++ (five ++ five))

half_is_rejected :
    normalize_review_batch normalize 10 (item 0 ∷ item 4 ∷ [])
    ≡ raised (crawler (new_error schema_failure))
unfolding normalize_review_batch
half_is_rejected = refl

one_of_twenty_is_accepted :
    normalize_review_batch normalize 20 one_of_twenty
    ≡ ok (6 ∷ 7 ∷ 8 ∷ 9 ∷ 1 ∷ 2 ∷ 3 ∷ 4 ∷ 5 ∷ 1 ∷ 2 ∷ 3 ∷ 4 ∷ 5 ∷ 1 ∷ 2 ∷ 3 ∷ 4 ∷ 5 ∷ [])
unfolding normalize_review_batch normalize_from add_record is_rejected finish_batch
one_of_twenty_is_accepted = refl

normalize-caught : (x p : ℕ) (e : Exception) → normalize x p ≢ unexpected e
normalize-caught x p e q = ground (arith, q)

batch_exact_example :
    BatchOutcome
      (reviews_of normalize 1 (take 20 one_of_twenty))
      (length (take 20 one_of_twenty))
      (normalize_review_batch normalize 20 one_of_twenty)
batch_exact_example = batch_exact normalize 20 one_of_twenty normalize-caught
