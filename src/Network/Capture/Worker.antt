-- ===== src/Network/Capture/Worker.antt =====
-- `NetworkAnalyzerWorker.process_next`, network/worker.py. The analysis of the downloaded file and what
-- other workers commit between the transactions are arguments.
use sahabino.Common.{ℕ, ◌-◌, Bool, ◌&&◌, Option, none, some, ◌∷◌, ◌==◌, if◌then◌else◌}
use sahabino.Common.Dict.{lookup}
use sahabino.Network.Aggregate.Records.{Scenario, CaptureFormat}
use sahabino.Network.Capture.{
  NetworkError, capture_dispatch_unavailable, runtime_error, analyzer_consistency,
  claim_unavailable, ObjectKey, NetworkCapture, analysis_collected, Store, NoValue, no_value,
  Outcome, returned, raised, same_format, same_scenario, same_object, is_terminal, get_capture, Env,
}
use sahabino.Network.Capture.Attempts.{
  claim_attempt, release_attempt, mark_verified, mark_analyzed, mark_failed,
}

-- The decoded event of a captured upload, without `uploaded_at`, which the worker does not read.
pub record CaptureReady : Type 0 where
  pub event_id : ℕ
  pub capture_id : ℕ
  pub analysis_id : ℕ
  pub application_id : ℕ
  pub package_name : ℕ
  pub scenario : Scenario
  pub object_key : ObjectKey
  pub capture_format : CaptureFormat
  pub capture_size_bytes : ℕ
  pub transfer_file_size_bytes : ℕ
  pub expected_sha256 : ℕ

-- A polled message: one that cannot be decoded, or an event.
pub data Message : Type 0 where
  invalid : Message
  event : CaptureReady → Message

-- What the download and the analysis come to: the hash of the file, an error that ends the analysis
-- for good, a missing object, or another exception.
pub data Analysis : Type 0 where
  verified : ℕ → Analysis
  terminal : ℕ → Analysis
  object_missing : Analysis
  transient : Analysis

-- What others commit before each of the later transactions of an attempt.
pub record Others : Type 0 where
  pub before_verified : Store → Store
  pub before_published : Store → Store
  pub before_analyzed : Store → Store
  pub before_finish : Store → Store

-- The code of `CaptureObjectMissingError`.
abbrev pub missing_code : ℕ
missing_code = 0

-- `load_and_validate`, its comparison of event and row
unfoldable pub matches_event : CaptureReady → NetworkCapture → ℕ → Bool
matches_event e c package_name =
    c.ready_event_id == e.event_id
    && c.analysis_id == e.analysis_id
    && c.application_id == e.application_id
    && package_name == e.package_name
    && same_scenario c.scenario e.scenario
    && same_object c.object_key e.object_key
    && same_format c.capture_format e.capture_format
    && c.capture_size_bytes == e.capture_size_bytes
    && c.transfer_file_size_bytes == e.transfer_file_size_bytes
    && c.expected_sha256 == e.expected_sha256

-- `load_and_validate`
unfoldable pub load_and_validate : CaptureReady → Store → Outcome NetworkCapture
unfolding get_capture matches_event
load_and_validate e s = elim (get_capture e.capture_id s) [
  | none ↦ raised analyzer_consistency
  | some c ↦ elim (lookup c.application_id s.applications) [
    | none ↦ raised analyzer_consistency
    | some package_name ↦
        if matches_event e c package_name then returned c else raised analyzer_consistency
  ]
]

-- How a call of `process_next` ends: with its offset committed or not, or with an error.
pub data Ended : Type 0 where
  no_message committed : Ended
  left : NetworkError → Ended

-- `publish_analysis`, of the row that is there
unfoldable pub publish_analysis : Env → ℕ → Store → Outcome NoValue × Store
unfolding get_capture
publish_analysis env capture_id s = elim (get_capture capture_id s) [
  | none ↦ (raised analyzer_consistency, s)
  | some c ↦
      if env.publisher_up
      then (
        returned no_value,
        record s { published = analysis_collected c.analysis_event_id ∷ s.published },
      )
      else (raised capture_dispatch_unavailable, s)
]

-- The handler of other exceptions: the claim is released, and the exception goes on.
unfoldable pub release_and_raise : Others → ℕ → ℕ → NetworkError → Store → Ended × Store
unfolding release_attempt
release_and_raise others capture_id t e s =
    (left e, release_attempt capture_id t (others.before_finish s))

-- The handler of terminal errors: the capture fails and the offset is committed.
unfoldable pub fail_and_commit : Env → Others → ℕ → ℕ → ℕ → Store → Ended × Store
unfolding mark_failed
fail_and_commit env others capture_id code t s =
    let (result, s') = mark_failed capture_id code t env.now (others.before_finish s) in
    elim result [ returned u ↦ (committed, s') | raised e ↦ (left e, s') ]

-- The last transaction of an attempt, and its offset.
unfoldable pub finish_analysis : Env → Others → ℕ → ℕ → ℕ → Store → Ended × Store
unfolding mark_analyzed release_and_raise
finish_analysis env others capture_id sha256 t s =
    let (result, s') = mark_analyzed capture_id sha256 t env.now (others.before_analyzed s) in
    elim result [
      | returned u ↦ (committed, s')
      | raised e ↦ release_and_raise others capture_id t e s'
    ]

-- The publication between the two last transactions.
unfoldable pub publish_verified : Env → Others → ℕ → ℕ → ℕ → Store → Ended × Store
unfolding publish_analysis finish_analysis release_and_raise
publish_verified env others capture_id sha256 t s =
    let (result, s') = publish_analysis env capture_id (others.before_published s) in
    elim result [
      | returned u ↦ finish_analysis env others capture_id sha256 t s'
      | raised e ↦ release_and_raise others capture_id t e s'
    ]

-- The attempt, once it has its claim.
unfoldable pub run_attempt : Env → Others → Analysis → ℕ → ℕ → Store → Ended × Store
unfolding mark_verified publish_verified fail_and_commit release_and_raise
run_attempt env others (terminal code) capture_id t s =
    fail_and_commit env others capture_id code t s
run_attempt env others object_missing capture_id t s =
    fail_and_commit env others capture_id missing_code t s
run_attempt env others transient capture_id t s =
    release_and_raise others capture_id t runtime_error s
run_attempt env others (verified sha256) capture_id t s =
    let (result, s') = mark_verified capture_id sha256 t (others.before_verified s) in
    elim result [
      | returned u ↦ publish_verified env others capture_id sha256 t s'
      | raised e ↦ release_and_raise others capture_id t e s'
    ]

-- The capture of an event was found: a terminal one is acknowledged, another one is claimed.
unfoldable pub start_attempt : Env → Others → Analysis → NetworkCapture → Store → Ended × Store
unfolding claim_attempt run_attempt
start_attempt env others analysis c s =
    if is_terminal c.status
    then (committed, s)
    else let (claimed, s') = claim_attempt c.id env.now (env.now - env.stale_analysis) s in
      if claimed
      then run_attempt env others analysis c.id env.now s'
      else (left claim_unavailable, s)

-- `process_next`, on what the consumer polled
unfoldable pub process_next : Env → Others → Analysis → Option Message → Store → Ended × Store
unfolding load_and_validate start_attempt
process_next env others analysis none s = (no_message, s)
process_next env others analysis (some invalid) s = (committed, s)
process_next env others analysis (some (event e)) s = elim (load_and_validate e s) [
  | raised error ↦ (left error, s)
  | returned c ↦ start_attempt env others analysis c s
]
