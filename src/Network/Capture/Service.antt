-- ===== src/Network/Capture/Service.antt =====
-- `CaptureService.create`, network/service.py. The advisory locks are the serial order of the calls;
-- what other calls commit before a new capture is inserted is the argument `others`. The hash of a
-- request is a parameter.
use sahabino.Common.{
  ℕ, Bool, ◌&&◌, ◌||◌, not, Option, none, some, ◌∷◌, ◌==◌, ltb, if◌then◌else◌, is_some,
}
use sahabino.Common.Dict.{lookup}
use sahabino.Network.Aggregate.Records.{Scenario, CaptureFormat}
use sahabino.Network.Capture.{
  CaptureStatus, pending_upload, uploaded, expired, idempotency_conflict, capture_metadata_conflict,
  capture_object_size_mismatch, object_storage_unavailable, capture_too_large,
  application_not_found, runtime_error, integrity_error, object_key_for, NetworkCapture,
  IdempotencyKey, Store, NoValue, no_value, Outcome, returned, raised, same_format, same_status,
  is_dispatchable, get_capture, get_logical, get_verified_object, find_key, on_first, has_id,
  is_logical, head_object, Env, publish_ready,
}

-- The request of network/schemas.py, with the format that `capture_format` reads from the name.
pub record CaptureCreate : Type 0 where
  pub application_id : ℕ
  pub capture_format : CaptureFormat
  pub capture_size_bytes : ℕ
  pub sha256 : ℕ
  pub filename : ℕ
  pub scenario : Scenario
  pub transfer_file_size_bytes : ℕ

-- The answer, without the signed address and the time that it is valid for.
pub record CaptureCreateResponse : Type 0 where
  pub capture_id : ℕ
  pub analysis_id : ℕ
  pub ready_event_id : ℕ
  pub status : CaptureStatus
  pub upload_required : Bool

-- `_validate_logical_metadata`
unfoldable pub has_metadata : CaptureCreate → NetworkCapture → Bool
has_metadata request c =
    same_format c.capture_format request.capture_format
    && c.capture_size_bytes == request.capture_size_bytes
    && c.transfer_file_size_bytes == request.transfer_file_size_bytes

-- `_reopen_expired`, on the row
unfoldable pub reopen_expired : NetworkCapture → NetworkCapture
reopen_expired c =
    if same_status c.status expired
    then record c {
      status = pending_upload;
      verified_sha256 = none;
      uploaded_at = none;
      analysis_started_at = none;
      analysis_finished_at = none;
      error_code = none;
    }
    else c

-- `_publish_ready_if_dispatchable`; the assertion of `package_name_for_capture` is an error.
unfoldable pub publish_ready_if_dispatchable :
    Env → NetworkCapture → Store → Outcome NoValue × Store
unfolding publish_ready
publish_ready_if_dispatchable env c s =
    if is_dispatchable c.status
    then elim (lookup c.application_id s.applications) [
      | none ↦ (raised runtime_error, s)
      | some package_name ↦ publish_ready env c package_name s
    ]
    else (returned no_value, s)

-- The answer of `_create_response`
unfoldable pub create_response : NetworkCapture → CaptureCreateResponse
create_response c = record {
  capture_id = c.id;
  analysis_id = c.analysis_id;
  ready_event_id = c.ready_event_id;
  status = c.status;
  upload_required = same_status c.status pending_upload;
}

-- `_create_response`: an upload that is required needs a signed address.
unfoldable pub respond : Env → NetworkCapture → Store → Outcome CaptureCreateResponse × Store
unfolding create_response
respond env c s =
    if same_status c.status pending_upload && not env.signing_up
    then (raised object_storage_unavailable, s)
    else (returned (create_response c), s)

-- The event is published, then the response is returned.
unfoldable pub publish_and_respond :
    Env → NetworkCapture → Store → Outcome CaptureCreateResponse × Store
unfolding publish_ready_if_dispatchable respond
publish_and_respond env c s =
    let (result, s') = publish_ready_if_dispatchable env c s in
    elim result [ returned u ↦ respond env c s' | raised e ↦ (raised e, s') ]

-- The request's key is known: the request is a replay, or conflicts with the first one.
unfoldable pub replay : Env → ℕ → IdempotencyKey → Store → Outcome CaptureCreateResponse × Store
unfolding reopen_expired get_capture on_first publish_and_respond
replay env fingerprint mapping s =
    if mapping.request_fingerprint == fingerprint
    then elim (get_capture mapping.capture_id s) [
      | none ↦ (raised runtime_error, s)
      | some c ↦
          publish_and_respond env (reopen_expired c)
            (on_first (has_id mapping.capture_id) reopen_expired s)
    ]
    else (raised idempotency_conflict, s)

unfoldable pub add_idempotency_key : ℕ → ℕ → ℕ → Store → Store
add_idempotency_key key capture_id fingerprint s = record s {
  idempotency_keys =
      record { idempotency_key = key; capture_id = capture_id; request_fingerprint = fingerprint }
      ∷ s.idempotency_keys;
}

-- The request's capture is there under another key.
unfoldable pub reuse_logical :
    Env → ℕ → ℕ → CaptureCreate → NetworkCapture → Store → Outcome CaptureCreateResponse × Store
unfolding has_metadata reopen_expired on_first is_logical add_idempotency_key publish_and_respond
reuse_logical env key fingerprint request c s =
    if has_metadata request c
    then publish_and_respond env (reopen_expired c) (
        add_idempotency_key key c.id fingerprint (
          on_first (is_logical request.application_id request.scenario request.sha256)
            reopen_expired s))
    else (raised capture_metadata_conflict, s)

-- The new row; `verified` is the hash of the object that is reused.
unfoldable pub new_capture : Env → CaptureCreate → Option ℕ → NetworkCapture
unfolding object_key_for
new_capture env request verified = record {
  id = env.fresh_id;
  application_id = request.application_id;
  scenario = request.scenario;
  capture_format = request.capture_format;
  object_key = object_key_for request.sha256 request.capture_format;
  expected_sha256 = request.sha256;
  verified_sha256 = verified;
  capture_size_bytes = request.capture_size_bytes;
  transfer_file_size_bytes = request.transfer_file_size_bytes;
  status = (if is_some verified then uploaded else pending_upload);
  ready_event_id = env.fresh_ready;
  analysis_id = env.fresh_analysis;
  analysis_event_id = env.fresh_event;
  analysis_attempt_count = 0;
  created_at = env.now;
  uploaded_at = (if is_some verified then some env.now else none);
  analysis_started_at = none;
  analysis_finished_at = none;
  object_deleted_at = none;
  error_code = none;
}

-- The hash of a verified object that can be reused, or an error: its row and its stored object must
-- have the declared size; an object that is missing has to be uploaded again.
unfoldable pub reusable : Env → CaptureCreate → Store → Outcome (Option ℕ)
unfolding get_verified_object object_key_for head_object
reusable env request s =
    let key = object_key_for request.sha256 request.capture_format in
    elim (get_verified_object key s) [
      | none ↦ returned none
      | some v ↦
          if v.capture_size_bytes == request.capture_size_bytes
          then if env.storage_up
            then elim (head_object key s.objects) [
              | none ↦ returned none
              | some size ↦
                  if size == request.capture_size_bytes
                  then returned v.verified_sha256
                  else raised capture_object_size_mismatch
            ]
            else raised object_storage_unavailable
          else raised capture_object_size_mismatch
    ]

-- The insertion found a row of another call: its rollback, and the second look at key and capture.
unfoldable pub recover : Env → ℕ → ℕ → CaptureCreate → Store → Outcome CaptureCreateResponse × Store
unfolding find_key replay get_logical reuse_logical
recover env key fingerprint request s = elim (find_key key s.idempotency_keys) [
  | some mapping ↦ replay env fingerprint mapping s
  | none ↦ elim (get_logical request.application_id request.scenario request.sha256 s) [
    | some winner ↦ reuse_logical env key fingerprint request winner s
    | none ↦ (raised integrity_error, s)
  ]
]

-- The unique constraints that an insertion of the capture and its key would break.
unfoldable pub is_taken : ℕ → CaptureCreate → Store → Bool
unfolding find_key get_logical
is_taken key request s =
    is_some (find_key key s.idempotency_keys)
    || is_some (get_logical request.application_id request.scenario request.sha256 s)

-- The insertion of the new capture with its key.
unfoldable pub insert_capture :
    Env → ℕ → ℕ → CaptureCreate → Option ℕ → Store → Outcome CaptureCreateResponse × Store
unfolding new_capture is_taken recover add_idempotency_key publish_and_respond
insert_capture env key fingerprint request verified s =
    let c = new_capture env request verified in
    if is_taken key request s
    then recover env key fingerprint request s
    else publish_and_respond env c
        (add_idempotency_key key c.id fingerprint (record s { captures = c ∷ s.captures }))

-- A request for a capture that is not there yet.
unfoldable pub create_new :
    Env → ℕ → ℕ → CaptureCreate → (Store → Store) → Store → Outcome CaptureCreateResponse × Store
unfolding reusable insert_capture
create_new env key fingerprint request others s =
    elim (lookup request.application_id s.applications) [
      | none ↦ (raised application_not_found, s)
      | some package_name ↦ elim (reusable env request s) [
        | raised e ↦ (raised e, s)
        | returned verified ↦ insert_capture env key fingerprint request verified (others s)
      ]
    ]

-- `CaptureService.create`
unfoldable pub create :
    (CaptureCreate → ℕ)
    → Env
    → ℕ
    → CaptureCreate
    → (Store → Store)
    → Store
    → Outcome CaptureCreateResponse × Store
unfolding find_key replay get_logical reuse_logical create_new
create request_fingerprint env key request others s =
    let fingerprint = request_fingerprint request in
    elim (find_key key s.idempotency_keys) [
      | some mapping ↦ replay env fingerprint mapping s
      | none ↦
          if ltb env.max_capture_size request.capture_size_bytes
          then (raised capture_too_large, s)
          else elim (get_logical request.application_id request.scenario request.sha256 s) [
            | some logical ↦ reuse_logical env key fingerprint request logical s
            | none ↦ create_new env key fingerprint request others s
          ]
    ]
