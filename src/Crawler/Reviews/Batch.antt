-- ===== src/Crawler/Reviews/Batch.antt =====
-- Which batches of reviews are accepted, and what is left of them.
use sahabino.Common.{
  ℕ, suc, ◌+◌, ◌*◌, ◌≤◌, ◌<◌, ◌≡◌, refl, ◌≢◌, ap, List, [], ◌∷◌, arith, length, take,
}
use sahabino.Crawler.Exceptions.{Exception, Result, ok, raised}
use sahabino.Crawler.Reviews.{
  ReviewRecord, item, invalid_review_record, no_dict, Normalized, review, validation_error,
  schema_error, bad_value, unexpected, ReviewIssue, normalize_record, add_record, normalize_from,
  is_rejected, finish_batch, normalize_review_batch,
}

-- The reviews among the records, in their order.
abbrev pub cons_review : Normalized → List ℕ → List ℕ
cons_review (review x) rest = x ∷ rest
cons_review _ rest = rest

unfoldable pub reviews_of : (ℕ → ℕ → Normalized) → ℕ → List ReviewRecord → List ℕ
reviews_of normalize position [] = []
reviews_of normalize position (r ∷ rs) =
    cons_review (normalize_record normalize position r) (reviews_of normalize (position + 1) rs)

-- The loop found these reviews, and as many issues as there are other records.
abbrev Scanned : List ℕ → ℕ → Result (List ℕ × List ReviewIssue) → Type 0
Scanned good received (ok (accepted, issues)) =
    (accepted ≡ good) × (length accepted + length issues ≡ received)
Scanned good received (raised e) = ⊥

-- What a batch comes to, by its reviews and the number of records considered.
abbrev pub BatchOutcome : List ℕ → ℕ → Result (List ℕ) → Type 0
BatchOutcome good received (ok accepted) = (accepted ≡ good) × (95 * received ≤ 100 * length good)
BatchOutcome good received (raised e) = 100 * length good < 95 * received

add_record-Scanned :
    (position received : ℕ) (n : Normalized) (good : List ℕ)
    (r : Result (List ℕ × List ReviewIssue))
    → ((e : Exception) → n ≢ unexpected e)
    → Scanned good received r
    → Scanned (cons_review n good) (suc received) (add_record position n r)
unfolding add_record
add_record-Scanned position received (unexpected e) good r caught s = absurd (caught e refl)
add_record-Scanned position received n good (raised e) caught s = absurd s
add_record-Scanned position received (review x) good (ok (accepted, issues)) caught s =
    (ap (λ l. x ∷ l) s.0, omega (arith, s.1))
add_record-Scanned position received validation_error good (ok (accepted, issues)) caught s =
    (s.0, omega (arith, s.1))
add_record-Scanned position received (schema_error e) good (ok (accepted, issues)) caught s =
    (s.0, omega (arith, s.1))
add_record-Scanned position received bad_value good (ok (accepted, issues)) caught s =
    (s.0, omega (arith, s.1))

-- No record of whatever kind goes beyond what the normalizer raises.
normalize_record-caught :
    (normalize : ℕ → ℕ → Normalized) (position : ℕ) (r : ReviewRecord)
    → ((x p : ℕ) (e : Exception) → normalize x p ≢ unexpected e)
    → (e : Exception) → normalize_record normalize position r ≢ unexpected e
normalize_record-caught normalize position (item x) caught e = caught x position e
normalize_record-caught normalize position invalid_review_record caught e = λ q. ground (arith, q)
normalize_record-caught normalize position no_dict caught e = λ q. ground (arith, q)

normalize_from-Scanned :
    (normalize : ℕ → ℕ → Normalized) (position : ℕ) (rs : List ReviewRecord)
    → ((x p : ℕ) (e : Exception) → normalize x p ≢ unexpected e)
    → Scanned (reviews_of normalize position rs) (length rs) (normalize_from normalize position rs)
unfolding normalize_from reviews_of
normalize_from-Scanned normalize position [] caught = (refl, omega arith)
normalize_from-Scanned normalize position (r ∷ rs) caught =
    add_record-Scanned position (length rs) (normalize_record normalize position r)
      (reviews_of normalize (position + 1) rs) (normalize_from normalize (position + 1) rs)
      (normalize_record-caught normalize position r caught)
      (normalize_from-Scanned normalize (position + 1) rs caught)

finish_batch-BatchOutcome :
    (good : List ℕ) (received : ℕ) (r : Result (List ℕ × List ReviewIssue))
    → Scanned good received r
    → BatchOutcome good received (finish_batch received r)
unfolding finish_batch is_rejected
finish_batch-BatchOutcome good received (raised e) s = absurd s
finish_batch-BatchOutcome good received (ok (accepted, issues)) s =
    let counted : length accepted ≡ length good = ap length s.0 in ground (arith, s, counted)

-- If the normalizer raises nothing but what the loop catches, a batch is accepted exactly if at
-- least 95 of 100 of the records within the limit are reviews, and then it is those reviews in the
-- order of the records.
pub batch_exact :
    (normalize : ℕ → ℕ → Normalized) (limit : ℕ) (records : List ReviewRecord)
    → ((x p : ℕ) (e : Exception) → normalize x p ≢ unexpected e)
    → BatchOutcome
        (reviews_of normalize 1 (take limit records))
        (length (take limit records))
        (normalize_review_batch normalize limit records)
unfolding normalize_review_batch
batch_exact normalize limit records caught =
    finish_batch-BatchOutcome (reviews_of normalize 1 (take limit records))
      (length (take limit records)) (normalize_from normalize 1 (take limit records))
      (normalize_from-Scanned normalize 1 (take limit records) caught)
