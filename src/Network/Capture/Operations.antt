-- ===== src/Network/Capture/Operations.antt =====
-- Reconciliation, retry and cleanup of captures, network/operations.py. The tables are in the order
-- of creation, every capture has its application, and a reconciliation or cleanup whose storage fails
-- is rolled back. The transactions that change rows are one step each: in the code those of
-- reconciliation and retry take no lock, and another call that commits between their reads and
-- their commit is left out here. The sessions that publish afterwards read the rows again.
use sahabino.Common.{
  ℕ, ◌+◌, Bool, true, false, ◌&&◌, ◌||◌, not, Option, none, some, List, [], ◌∷◌, ◌==◌, ltb, leb,
  if◌then◌else◌, is_some, length, filter_by,
}
use sahabino.Common.Dict.{lookup}
use sahabino.Network.Capture.{
  pending_upload, uploaded, analyzing, failed, expired, capture_not_found, invalid_capture_state,
  object_storage_unavailable, cleanup_conflict, assertion_error, ObjectKey, NetworkCapture, Store,
  NoValue, no_value, Outcome, returned, raised, same_object, same_status, is_terminal, get_capture,
  update_where, on_first, has_id, head_object, delete_object, Env, publish_ready,
}
use sahabino.Network.Capture.Completion.{mark_uploaded}

-- The error codes that a reconciliation sets.
abbrev pub upload_expired : ℕ
upload_expired = 1

abbrev pub upload_size_mismatch : ℕ
upload_size_mismatch = 2

abbrev pub expire : ℕ → NetworkCapture → NetworkCapture
expire code c = record c { status = expired; error_code = some code }

-- `capture.created_at > pending_cutoff`, with the cutoff that long before now
abbrev pub is_recent : Env → NetworkCapture → Bool
is_recent env c = ltb env.now (c.created_at + env.pending_upload_expiry)

-- A pending upload of the loop whose deadline is over.
unfoldable pub reconcile_pending : Env → Store → NetworkCapture → NetworkCapture
unfolding head_object mark_uploaded
reconcile_pending env s c = elim (head_object c.object_key s.objects) [
  | none ↦ expire upload_expired c
  | some size ↦
      if size == c.capture_size_bytes
      then mark_uploaded env.now c
      else expire upload_size_mismatch c
]

-- One row of the loop.
unfoldable pub reconcile_row : Env → Store → NetworkCapture → NetworkCapture
unfolding reconcile_pending
reconcile_row env s c =
    if same_status c.status pending_upload && not (is_recent env c)
    then reconcile_pending env s c
    else c

-- `capture.analysis_started_at is not None and capture.analysis_started_at <= analyzing_cutoff`
abbrev pub is_stale : Env → Option ℕ → Bool
is_stale env none = false
is_stale env (some t) = leb (t + env.stale_analysis) env.now

-- The event of the row is published again: it was uploaded, now or before, or its analysis is stale.
unfoldable pub is_to_publish : Env → Store → NetworkCapture → Bool
unfolding reconcile_row
is_to_publish env s c =
    same_status (reconcile_row env s c).status uploaded
    || (same_status c.status analyzing && is_stale env c.analysis_started_at)

-- The loop asks storage for an object.
unfoldable pub needs_storage : Env → List NetworkCapture → Bool
needs_storage env [] = false
needs_storage env (c ∷ cs) =
    (same_status c.status pending_upload && not (is_recent env c)) || needs_storage env cs

-- `to_publish`: the identifiers and package names of the captures whose events are published.
unfoldable pub to_publish : Env → Store → List NetworkCapture → List (ℕ × ℕ)
unfolding is_to_publish
to_publish env s [] = []
to_publish env s (c ∷ cs) =
    let rest = to_publish env s cs in
    elim (lookup c.application_id s.applications) [
      | none ↦ rest
      | some package_name ↦ if is_to_publish env s c then (c.id, package_name) ∷ rest else rest
    ]

-- Each event is published in a session of its own, which reads the row again, up to the first
-- failure. What other calls do before the n-th session is `others n`.
unfoldable pub publish_all :
    Env → (ℕ → Store → Store) → ℕ → List (ℕ × ℕ) → Store → Outcome NoValue × Store
unfolding publish_ready get_capture
publish_all env others n [] s = (returned no_value, s)
publish_all env others n ((capture_id, package_name) ∷ rest) s =
    elim (get_capture capture_id (others n s)) [
      | none ↦ publish_all env others (n + 1) rest (others n s)
      | some c ↦
          let (result, s') = publish_ready env c package_name (others n s) in
          elim result [
            | returned u ↦ publish_all env others (n + 1) rest s'
            | raised e ↦ (raised e, s')
          ]
    ]

-- `reconcile_captures`: one transaction, and the publications.
unfoldable pub reconcile_captures : Env → (ℕ → Store → Store) → Store → Outcome NoValue × Store
unfolding needs_storage update_where reconcile_row to_publish publish_all
reconcile_captures env others s =
    if needs_storage env s.captures && not env.storage_up
    then (raised object_storage_unavailable, s)
    else publish_all env others 0 (to_publish env s s.captures)
        (record s { captures = update_where (λ c. true) (reconcile_row env s) s.captures })

-- A failed capture is analyzed again.
unfoldable pub retry_row : NetworkCapture → NetworkCapture
retry_row c = record c { status = uploaded; error_code = none; analysis_finished_at = none }

-- The second session of `retry_capture`, which reads the row again.
unfoldable pub publish_again : Env → ℕ → ℕ → Store → Outcome NoValue × Store
unfolding get_capture publish_ready
publish_again env capture_id package_name s = elim (get_capture capture_id s) [
  | none ↦ (raised assertion_error, s)
  | some c ↦ publish_ready env c package_name s
]

-- `retry_capture`: one transaction, and the publication, with what other calls do in between.
unfoldable pub retry_capture : Env → ℕ → (Store → Store) → Store → Outcome NoValue × Store
unfolding get_capture retry_row on_first publish_again
retry_capture env capture_id others s = elim (get_capture capture_id s) [
  | none ↦ (raised capture_not_found, s)
  | some c ↦ elim (lookup c.application_id s.applications) [
    | none ↦ (raised capture_not_found, s)
    | some package_name ↦
        if same_status c.status failed
        then if is_some c.object_deleted_at
          then (raised invalid_capture_state, s)
          else publish_again env capture_id package_name
              (others (on_first (has_id capture_id) retry_row s))
        else (raised invalid_capture_state, s)
  ]
]

-- The captures that refer to the object and are not marked as deleted.
abbrev pub refers : ObjectKey → NetworkCapture → Bool
refers key c = same_object c.object_key key && not (is_some c.object_deleted_at)

abbrev pub still_needs : ObjectKey → NetworkCapture → Bool
still_needs key c = refers key c && not (is_terminal c.status)

unfoldable pub mark_deleted : ℕ → NetworkCapture → NetworkCapture
mark_deleted now c = record c { object_deleted_at = some now }

-- The object is deleted, and all that refer to it are marked.
unfoldable pub delete_referenced : Env → ObjectKey → Store → Store
unfolding update_where mark_deleted delete_object
delete_referenced env key s = record s {
  captures = update_where (refers key) (mark_deleted env.now) s.captures;
  objects = delete_object key s.objects;
}

-- `cleanup_capture_object`: the number of captures that refer to the object.
unfoldable pub cleanup_capture_object : Env → ℕ → Store → Outcome ℕ × Store
unfolding get_capture filter_by delete_referenced
cleanup_capture_object env capture_id s = elim (get_capture capture_id s) [
  | none ↦ (raised capture_not_found, s)
  | some c ↦
      let key = c.object_key in
      let references = length (filter_by (refers key) s.captures) in
      if ltb 0 (length (filter_by (still_needs key) s.captures))
      then (raised cleanup_conflict, s)
      else if references == 0
      then (returned 0, s)
      else if env.storage_up
      then (returned references, delete_referenced env key s)
      else (raised object_storage_unavailable, s)
]
