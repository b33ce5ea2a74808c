-- ===== src/Crawler/Reviews.antt =====
-- The batch of reviews that an adapter fetched, crawler/infrastructure/adapters/common.py: records
-- are normalized one by one, and a batch with too many invalid ones is rejected. Field names and
-- error types of an issue are only logged.
pub mod Batch
pub mod Tests
use sahabino.Common.{
  ℕ, ◌+◌, ◌*◌, Bool, ◌&&◌, ◌||◌, Option, none, some, List, [], ◌∷◌, ltb, ◌==◌, if◌then◌else◌,
  length, take,
}
use sahabino.Crawler.Errors.{CrawlerError, new_error, schema_failure}
use sahabino.Crawler.Exceptions.{Exception, Result, ok, raised, crawler}

-- A source item, known by a number if it is a dictionary.
pub data ReviewRecord : Type 0 where
  item : ℕ → ReviewRecord
  invalid_review_record : ReviewRecord
  no_dict : ReviewRecord

-- What the adapter's normalizer comes to: a review, known by a number; `ValidationError`;
-- `SchemaFailure`; an error of a value; or an exception that is not caught.
pub data Normalized : Type 0 where
  review : ℕ → Normalized
  validation_error : Normalized
  schema_error : CrawlerError → Normalized
  bad_value : Normalized
  unexpected : Exception → Normalized

pub record ReviewIssue : Type 0 where
  pub source_position : ℕ
  pub schema_failure : Option CrawlerError

abbrev pub normalize_record : (ℕ → ℕ → Normalized) → ℕ → ReviewRecord → Normalized
normalize_record normalize position (item x) = normalize x position
normalize_record normalize position invalid_review_record = bad_value
normalize_record normalize position no_dict = bad_value

-- What one record adds to the accepted reviews and the issues of those behind it.
unfoldable pub add_record :
    ℕ → Normalized → Result (List ℕ × List ReviewIssue) → Result (List ℕ × List ReviewIssue)
add_record position (unexpected e) rest = raised e
add_record position _ (raised e) = raised e
add_record position (review x) (ok (accepted, issues)) = ok (x ∷ accepted, issues)
add_record position (schema_error e) (ok (accepted, issues)) =
    ok (accepted, record { source_position = position; schema_failure = some e } ∷ issues)
add_record position _ (ok (accepted, issues)) =
    ok (accepted, record { source_position = position; schema_failure = none } ∷ issues)

-- The loop over the considered records, from a position on.
unfoldable pub normalize_from :
    (ℕ → ℕ → Normalized) → ℕ → List ReviewRecord → Result (List ℕ × List ReviewIssue)
unfolding add_record
normalize_from normalize position [] = ok ([], [])
normalize_from normalize position (r ∷ rs) =
    add_record position (normalize_record normalize position r)
      (normalize_from normalize (position + 1) rs)

unfoldable pub is_rejected : ℕ → ℕ → ℕ → Bool
is_rejected received accepted skipped =
    ltb 0 received && (accepted == 0 || ltb (received * 5) (skipped * 100))

-- The error of a rejected batch: that of its only issue, if it is a `SchemaFailure`.
abbrev pub rejection : List ReviewIssue → CrawlerError
rejection (i ∷ []) = elim i.schema_failure [ none ↦ new_error schema_failure | some e ↦ e ]
rejection _ = new_error schema_failure

-- The end of `normalize_review_batch`. The length check of `ReviewsDTO` is left out: the callers'
-- limit is at most its 1000.
unfoldable pub finish_batch : ℕ → Result (List ℕ × List ReviewIssue) → Result (List ℕ)
unfolding is_rejected
finish_batch received (raised e) = raised e
finish_batch received (ok (accepted, issues)) =
    if is_rejected received (length accepted) (length issues)
    then raised (crawler (rejection issues))
    else ok accepted

-- `normalize_review_batch`
unfoldable pub normalize_review_batch :
    (ℕ → ℕ → Normalized) → ℕ → List ReviewRecord → Result (List ℕ)
unfolding normalize_from finish_batch
normalize_review_batch normalize effective_limit records =
    finish_batch (length (take effective_limit records))
      (normalize_from normalize 1 (take effective_limit records))
