-- ===== src/Network/Capture/Completion.antt =====
-- `CaptureService.complete` and `CaptureService.download_url`, network/service.py.
use sahabino.Common.{ℕ, ◌||◌, none, some, ◌==◌, if◌then◌else◌, is_some}
use sahabino.Network.Capture.{
  pending_upload, uploaded, failed, expired, capture_not_found, invalid_capture_state,
  capture_object_missing, capture_object_size_mismatch, object_storage_unavailable, ObjectKey,
  NetworkCapture, Store, NoValue, Outcome, returned, raised, same_status, get_capture, on_first,
  has_id, head_object, Env,
}
use sahabino.Network.Capture.Service.{publish_ready_if_dispatchable}

-- The upload is registered, on the row.
unfoldable pub mark_uploaded : ℕ → NetworkCapture → NetworkCapture
mark_uploaded now c = record c {
  status = uploaded;
  uploaded_at = some now;
  object_deleted_at = none;
  error_code = none;
}

-- The columns that the commit writes to the row: those that the assignments changed on the loaded
-- capture. The row may have changed since it was loaded.
unfoldable pub write_uploaded : ℕ → NetworkCapture → NetworkCapture → NetworkCapture
write_uploaded now loaded row = record row {
  status = uploaded;
  uploaded_at = some now;
  object_deleted_at = if is_some loaded.object_deleted_at then none else row.object_deleted_at;
  error_code = if is_some loaded.error_code then none else row.error_code;
}

-- What other calls do while this one, which takes no lock, is under way: before storage is asked,
-- before the commit, and before the publication.
pub record Between : Type 0 where
  pub before_head : Store → Store
  pub before_commit : Store → Store
  pub before_publish : Store → Store

-- The end of `CaptureService.complete`, from the commit on.
unfoldable pub finish_upload : Env → ℕ → NetworkCapture → Between → Store → Outcome NoValue × Store
unfolding write_uploaded mark_uploaded on_first publish_ready_if_dispatchable
finish_upload env capture_id c others s =
    if same_status c.status pending_upload
    then publish_ready_if_dispatchable env (mark_uploaded env.now c) (
        others.before_publish
          (on_first (has_id capture_id) (write_uploaded env.now c) (others.before_commit s)))
    else publish_ready_if_dispatchable env c (others.before_publish s)

-- `CaptureService.complete`, on a capture that was found
unfoldable pub complete_capture :
    Env → ℕ → NetworkCapture → Between → Store → Outcome NoValue × Store
unfolding head_object finish_upload
complete_capture env capture_id c others s =
    if same_status c.status failed || same_status c.status expired
    then (raised invalid_capture_state, s)
    else if env.storage_up
    then elim (head_object c.object_key (others.before_head s).objects) [
      | none ↦ (raised capture_object_missing, others.before_head s)
      | some size ↦
          if size == c.capture_size_bytes
          then finish_upload env capture_id c others (others.before_head s)
          else (raised capture_object_size_mismatch, others.before_head s)
    ]
    else (raised object_storage_unavailable, others.before_head s)

-- `CaptureService.complete`
unfoldable pub complete : Env → ℕ → Between → Store → Outcome NoValue × Store
unfolding get_capture complete_capture
complete env capture_id others s = elim (get_capture capture_id s) [
  | none ↦ (raised capture_not_found, s)
  | some c ↦ complete_capture env capture_id c others s
]

-- `CaptureService.download_url`: the object key whose URL is signed.
unfoldable pub download_url : Env → ℕ → Store → Outcome ObjectKey
unfolding get_capture head_object
download_url env capture_id s = elim (get_capture capture_id s) [
  | none ↦ raised capture_not_found
  | some c ↦
      if same_status c.status pending_upload || is_some c.object_deleted_at
      then raised invalid_capture_state
      else if env.storage_up
      then elim (head_object c.object_key s.objects) [
        | none ↦ raised capture_object_missing
        | some size ↦
            if env.signing_up then returned c.object_key else raised object_storage_unavailable
      ]
      else raised object_storage_unavailable
]
