-- ===== src/Crawler/Lifecycle/Runs.antt =====
-- The status of a finished run.
use sahabino.Common.{
  ◌⊎◌, ◌+◌, ◌≤◌, ◌<◌, ◌≡◌, refl, ◌↔◌, Bool, true, List, [], ◌∷◌, arith, length, All,
}
use sahabino.Crawler.Lifecycle.{
  CrawlTaskStatus, succeeded, failed, partially_failed, is_succeeded, is_failed, count_status,
  run_status,
}

count-le :
    (test : CrawlTaskStatus → Bool) (s : List CrawlTaskStatus) → count_status test s ≤ length s
unfolding count_status
count-le test [] = omega arith
count-le test (x ∷ s) = ground (arith, count-le test s)

-- The count reaches the length exactly if every status passes the test.
count-full :
    (test : CrawlTaskStatus → Bool) (s : List CrawlTaskStatus)
    → count_status test s ≡ length s
    → All (λ x. test x ≡ true) s
unfolding count_status
count-full test [] e = tt
count-full test (x ∷ s) e =
    (ground (arith, count-le test s), count-full test s (ground (arith, count-le test s)))

full-count :
    (test : CrawlTaskStatus → Bool) (s : List CrawlTaskStatus)
    → All (λ x. test x ≡ true) s
    → count_status test s ≡ length s
unfolding count_status
full-count test [] h = refl
full-count test (x ∷ s) h = ground (arith, h.0, full-count test s h.1)

All-succeeded :
    (s : List CrawlTaskStatus) → run_status s ≡ succeeded → All (λ x. is_succeeded x ≡ true) s
unfolding run_status
All-succeeded [] e = tt
All-succeeded (x ∷ s) e = count-full is_succeeded (x ∷ s) (ground arith)

-- No status is counted twice.
counts-le :
    (s : List CrawlTaskStatus) → count_status is_succeeded s + count_status is_failed s ≤ length s
unfolding count_status
counts-le [] = omega arith
counts-le (x ∷ s) = ground (arith, counts-le s)

All-failed :
    (s : List CrawlTaskStatus)
    → run_status s ≡ failed
    → (0 < length s) × All (λ x. is_failed x ≡ true) s
unfolding run_status
All-failed s e = (ground arith, count-full is_failed s (ground arith))

-- A run is SUCCEEDED exactly if all its tasks are, also if it has none; FAILED exactly if it has
-- tasks and all of them are; and in every case SUCCEEDED, FAILED or PARTIALLY_FAILED.
pub run_status_exact :
    (s : List CrawlTaskStatus)
    → ((run_status s ≡ succeeded) ↔ All (λ x. is_succeeded x ≡ true) s)
      × ((run_status s ≡ failed) ↔ ((0 < length s) × All (λ x. is_failed x ≡ true) s))
      × ((run_status s ≡ succeeded) ⊎ ((run_status s ≡ failed) ⊎ (run_status s ≡ partially_failed)))
unfolding run_status
run_status_exact s = (
  (All-succeeded s, λ h. ground (arith, full-count is_succeeded s h)),
  (All-failed s, λ h. ground (arith, full-count is_failed s h.1, counts-le s)),
  ground arith,
)
