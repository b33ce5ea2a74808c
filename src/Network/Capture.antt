-- ===== src/Network/Capture.antt =====
-- Captures, their table and the objects and events around it, network/models.py,
-- network/repository.py and network/exceptions.py. Identifiers, hashes and names are numbers, times
-- count ticks, and an object key is told by the hash and the format in it.
pub mod Service
pub mod Completion
pub mod Operations
pub mod Attempts
pub mod Worker
pub mod Invariant
pub mod Tables
pub mod Creation
pub mod Calls
pub mod Reachable
pub mod Ownership
pub mod Keys
pub mod Requests
pub mod Cleanup
pub mod Settled
pub mod Tests
use sahabino.Common.{
  ℕ, Bool, true, false, ◌&&◌, ◌||◌, not, Option, none, some, List, [], ◌∷◌, ◌==◌, ltb,
  if◌then◌else◌, is_some,
}
use sahabino.Common.Dict.{Dict, lookup}
use sahabino.Network.Aggregate.Records.{Scenario, upload, download, CaptureFormat, pcap, pcapng}

pub data CaptureStatus : Type 0 where
  pending_upload uploaded analyzing analyzed failed expired : CaptureStatus

-- The errors of network/exceptions.py, and the others that the code raises.
pub data NetworkError : Type 0 where
  capture_not_found idempotency_conflict capture_metadata_conflict : NetworkError
  invalid_capture_state capture_object_missing capture_object_size_mismatch : NetworkError
  object_storage_unavailable capture_too_large capture_dispatch_unavailable : NetworkError
  cleanup_conflict application_not_found value_error runtime_error integrity_error : NetworkError
  analyzer_consistency claim_unavailable assertion_error : NetworkError
  terminal_analysis : ℕ → NetworkError

pub record ObjectKey : Type 0 where
  pub sha256 : ℕ
  pub format : CaptureFormat

unfoldable pub object_key_for : ℕ → CaptureFormat → ObjectKey
object_key_for sha256 format = record { sha256 = sha256; format = format }

-- The columns, without `original_filename`, `content_type` and `error_message`, which no condition of
-- the code reads.
pub record NetworkCapture : Type 0 where
  pub id : ℕ
  pub application_id : ℕ
  pub scenario : Scenario
  pub capture_format : CaptureFormat
  pub object_key : ObjectKey
  pub expected_sha256 : ℕ
  pub verified_sha256 : Option ℕ
  pub capture_size_bytes : ℕ
  pub transfer_file_size_bytes : ℕ
  pub status : CaptureStatus
  pub ready_event_id : ℕ
  pub analysis_id : ℕ
  pub analysis_event_id : ℕ
  pub analysis_attempt_count : ℕ
  pub created_at : ℕ
  pub uploaded_at : Option ℕ
  pub analysis_started_at : Option ℕ
  pub analysis_finished_at : Option ℕ
  pub object_deleted_at : Option ℕ
  pub error_code : Option ℕ

pub record IdempotencyKey : Type 0 where
  pub idempotency_key : ℕ
  pub capture_id : ℕ
  pub request_fingerprint : ℕ

pub data NetworkEvent : Type 0 where
  capture_ready : NetworkCapture → ℕ → NetworkEvent
  analysis_collected : ℕ → NetworkEvent

-- The tables, the applications with their package names, the stored objects with their sizes, and
-- the events on the broker, the last one first.
pub record Store : Type 0 where
  pub captures : List NetworkCapture
  pub idempotency_keys : List IdempotencyKey
  pub applications : Dict ℕ
  pub objects : List (ObjectKey × ℕ)
  pub published : List NetworkEvent

-- Python's `None`, as a result.
pub data NoValue : Type 0 where
  no_value : NoValue

-- What a call comes to, with the store that it leaves.
pub data Outcome {ℓ} (A : Type ℓ) : Type ℓ where
  returned : A → Outcome A
  raised : NetworkError → Outcome A

abbrev pub same_format : CaptureFormat → CaptureFormat → Bool
same_format pcap pcap = true
same_format pcapng pcapng = true
same_format _ _ = false

abbrev pub same_scenario : Scenario → Scenario → Bool
same_scenario upload upload = true
same_scenario download download = true
same_scenario _ _ = false

abbrev pub same_object : ObjectKey → ObjectKey → Bool
same_object k j = k.sha256 == j.sha256 && same_format k.format j.format

abbrev pub same_status : CaptureStatus → CaptureStatus → Bool
same_status pending_upload pending_upload = true
same_status uploaded uploaded = true
same_status analyzing analyzing = true
same_status analyzed analyzed = true
same_status failed failed = true
same_status expired expired = true
same_status _ _ = false

-- `status in {"analyzed", "failed", "expired"}`
abbrev pub is_terminal : CaptureStatus → Bool
is_terminal analyzed = true
is_terminal failed = true
is_terminal expired = true
is_terminal _ = false

-- `status in {"uploaded", "analyzing"}`
abbrev pub is_dispatchable : CaptureStatus → Bool
is_dispatchable uploaded = true
is_dispatchable analyzing = true
is_dispatchable _ = false

-- `select(NetworkCapture).where(...)`, the first row
unfoldable pub first_where : (NetworkCapture → Bool) → List NetworkCapture → Option NetworkCapture
first_where test [] = none
first_where test (c ∷ cs) = if test c then some c else first_where test cs

abbrev pub has_id : ℕ → NetworkCapture → Bool
has_id capture_id c = c.id == capture_id

-- `CaptureRepository.get`
unfoldable pub get_capture : ℕ → Store → Option NetworkCapture
unfolding first_where
get_capture capture_id s = first_where (has_id capture_id) s.captures

-- The row of a logical capture: an application, a scenario and a hash.
unfoldable pub is_logical : ℕ → Scenario → ℕ → NetworkCapture → Bool
is_logical application_id scenario sha256 c =
    c.application_id == application_id
    && same_scenario c.scenario scenario
    && c.expected_sha256 == sha256

unfoldable pub get_logical : ℕ → Scenario → ℕ → Store → Option NetworkCapture
unfolding first_where is_logical
get_logical application_id scenario sha256 s =
    first_where (is_logical application_id scenario sha256) s.captures

-- `order_by(analysis_finished_at.desc().nullslast())`: the first capture comes before the second.
abbrev pub finished_later : NetworkCapture → NetworkCapture → Bool
finished_later c d = elim c.analysis_finished_at [
  | none ↦ false
  | some t ↦ elim d.analysis_finished_at [ none ↦ true | some u ↦ ltb u t ]
]

-- The one of two captures that comes first in that order, if there are two.
unfoldable pub first_of : NetworkCapture → Option NetworkCapture → NetworkCapture
first_of c none = c
first_of c (some d) = if finished_later d c then d else c

-- The capture that comes first in that order among those that satisfy a condition.
unfoldable pub latest_where : (NetworkCapture → Bool) → List NetworkCapture → Option NetworkCapture
unfolding first_of
latest_where test [] = none
latest_where test (c ∷ cs) =
    let rest = latest_where test cs in if test c then some (first_of c rest) else rest

-- `CaptureRepository.get_verified_object`
unfoldable pub get_verified_object : ObjectKey → Store → Option NetworkCapture
unfolding latest_where
get_verified_object key s =
    latest_where
      (λ c.
        same_object c.object_key key
        && is_some c.verified_sha256
        && not (is_some c.object_deleted_at))
      s.captures

unfoldable pub find_key : ℕ → List IdempotencyKey → Option IdempotencyKey
find_key key [] = none
find_key key (m ∷ ms) = if m.idempotency_key == key then some m else find_key key ms

-- The rows that satisfy a condition are updated.
unfoldable pub update_where :
    (NetworkCapture → Bool)
    → (NetworkCapture → NetworkCapture)
    → List NetworkCapture
    → List NetworkCapture
update_where test f [] = []
update_where test f (c ∷ cs) = (if test c then f c else c) ∷ update_where test f cs

-- The first row that satisfies a condition is updated.
unfoldable pub update_first :
    (NetworkCapture → Bool)
    → (NetworkCapture → NetworkCapture)
    → List NetworkCapture
    → List NetworkCapture
update_first test f [] = []
update_first test f (c ∷ cs) = if test c then f c ∷ cs else c ∷ update_first test f cs

-- An assignment to the fields of a loaded capture.
unfoldable pub on_first :
    (NetworkCapture → Bool) → (NetworkCapture → NetworkCapture) → Store → Store
unfolding update_first
on_first test f s = record s { captures = update_first test f s.captures }

-- `ObjectStorage.head_object`: the size of the object, if it is there.
unfoldable pub head_object : ObjectKey → List (ObjectKey × ℕ) → Option ℕ
head_object key [] = none
head_object key ((k, size) ∷ rest) = if same_object k key then some size else head_object key rest

unfoldable pub delete_object : ObjectKey → List (ObjectKey × ℕ) → List (ObjectKey × ℕ)
delete_object key [] = []
delete_object key ((k, size) ∷ rest) =
    let others = delete_object key rest in if same_object k key then others else (k, size) ∷ others

-- What the calls find around them: the clock, fresh identifiers, the settings, and whether storage,
-- the signing of addresses, and the broker work.
pub record Env : Type 0 where
  pub now : ℕ
  pub fresh_id : ℕ
  pub fresh_ready : ℕ
  pub fresh_analysis : ℕ
  pub fresh_event : ℕ
  pub max_capture_size : ℕ
  pub pending_upload_expiry : ℕ
  pub stale_analysis : ℕ
  pub storage_up : Bool
  pub signing_up : Bool
  pub publisher_up : Bool

-- `KafkaNetworkPublisher.publish_ready`
unfoldable pub publish_ready : Env → NetworkCapture → ℕ → Store → Outcome NoValue × Store
publish_ready env capture package_name s =
    if is_some capture.uploaded_at
    then if env.publisher_up
      then (
        returned no_value,
        record s { published = capture_ready capture package_name ∷ s.published },
      )
      else (raised capture_dispatch_unavailable, s)
    else (raised value_error, s)
