-- ===== src/Network/Capture/Attempts.antt =====
-- `AnalyzerRepository`, network/worker.py: the guarded updates of an analysis attempt, which is known by
-- the time at which it started.
use sahabino.Common.{
  ℕ, suc, Bool, true, false, ◌&&◌, ◌||◌, Option, none, some, ◌==◌, leb, if◌then◌else◌, is_some,
}
use sahabino.Network.Capture.{
  uploaded, analyzing, analyzed, failed, analyzer_consistency, NetworkCapture, Store, NoValue,
  no_value, Outcome, returned, raised, same_status, first_where, update_where,
}

-- `analysis_started_at IS NULL OR analysis_started_at <= stale_before`
abbrev pub is_abandoned : ℕ → Option ℕ → Bool
is_abandoned stale_before none = true
is_abandoned stale_before (some t) = leb t stale_before

unfoldable pub is_claimable : ℕ → ℕ → NetworkCapture → Bool
is_claimable capture_id stale_before c =
    c.id == capture_id
    && (same_status c.status uploaded
        || (same_status c.status analyzing && is_abandoned stale_before c.analysis_started_at))

unfoldable pub claimed_row : ℕ → NetworkCapture → NetworkCapture
claimed_row attempt_started_at c = record c {
  status = analyzing;
  analysis_attempt_count = suc c.analysis_attempt_count;
  analysis_started_at = some attempt_started_at;
  analysis_finished_at = none;
  error_code = none;
}

-- `claim_attempt`
unfoldable pub claim_attempt : ℕ → ℕ → ℕ → Store → Bool × Store
unfolding first_where is_claimable update_where claimed_row
claim_attempt capture_id attempt_started_at stale_before s = (
  is_some (first_where (is_claimable capture_id stale_before) s.captures),
  record s {
    captures =
        update_where (is_claimable capture_id stale_before) (claimed_row attempt_started_at)
          s.captures;
  },
)

-- The attempt that started at that time has the capture.
abbrev pub started_at : ℕ → Option ℕ → Bool
started_at t none = false
started_at t (some u) = u == t

unfoldable pub owns : ℕ → ℕ → NetworkCapture → Bool
owns capture_id attempt_started_at c =
    c.id == capture_id
    && same_status c.status analyzing
    && started_at attempt_started_at c.analysis_started_at

unfoldable pub owns_hash : ℕ → ℕ → ℕ → NetworkCapture → Bool
unfolding owns
owns_hash capture_id sha256 attempt_started_at c =
    owns capture_id attempt_started_at c && c.expected_sha256 == sha256

-- An update that has to find its row.
unfoldable pub require_update :
    (NetworkCapture → Bool) → (NetworkCapture → NetworkCapture) → Store → Outcome NoValue × Store
unfolding first_where update_where
require_update test f s =
    if is_some (first_where test s.captures)
    then (returned no_value, record s { captures = update_where test f s.captures })
    else (raised analyzer_consistency, s)

-- `release_attempt`
unfoldable pub released_row : NetworkCapture → NetworkCapture
released_row c = record c { status = uploaded }

unfoldable pub release_attempt : ℕ → ℕ → Store → Store
unfolding owns update_where released_row
release_attempt capture_id attempt_started_at s = record s {
  captures = update_where (owns capture_id attempt_started_at) released_row s.captures;
}

-- `mark_verified`
unfoldable pub verified_row : ℕ → NetworkCapture → NetworkCapture
verified_row sha256 c = record c { verified_sha256 = some sha256 }

unfoldable pub mark_verified : ℕ → ℕ → ℕ → Store → Outcome NoValue × Store
unfolding owns_hash require_update verified_row
mark_verified capture_id sha256 attempt_started_at s =
    require_update (owns_hash capture_id sha256 attempt_started_at) (verified_row sha256) s

-- `mark_analyzed`
unfoldable pub analyzed_row : ℕ → ℕ → NetworkCapture → NetworkCapture
analyzed_row sha256 now c = record c {
  verified_sha256 = some sha256;
  status = analyzed;
  analysis_finished_at = some now;
  error_code = none;
}

unfoldable pub mark_analyzed : ℕ → ℕ → ℕ → ℕ → Store → Outcome NoValue × Store
unfolding owns_hash require_update analyzed_row
mark_analyzed capture_id sha256 attempt_started_at now s =
    require_update (owns_hash capture_id sha256 attempt_started_at) (analyzed_row sha256 now) s

-- `mark_failed`
unfoldable pub failed_row : ℕ → ℕ → NetworkCapture → NetworkCapture
failed_row code now c = record c {
  status = failed;
  analysis_finished_at = some now;
  error_code = some code;
}

unfoldable pub mark_failed : ℕ → ℕ → ℕ → ℕ → Store → Outcome NoValue × Store
unfolding owns require_update failed_row
mark_failed capture_id code attempt_started_at now s =
    require_update (owns capture_id attempt_started_at) (failed_row code now) s
