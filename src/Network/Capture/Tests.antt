-- ===== src/Network/Capture/Tests.antt =====
-- Runs of captures on small stores, network/service.py, network/operations.py and network/worker.py.
use sahabino.Common.{
  ℕ, ◌<◌, true, false, ◌≡◌, ◌≢◌, refl, none, some, [], ◌∷◌, All, arith, is_some, count_of,
}
use sahabino.Common.Dict.{lookup}
use sahabino.Network.Aggregate.Records.{upload, pcap}
use sahabino.Network.Capture.{
  pending_upload, uploaded, analyzed, idempotency_conflict, cleanup_conflict, value_error,
  analyzer_consistency, object_key_for, NetworkCapture, Store, returned, raised, first_where,
  get_capture, head_object, Env,
}
use sahabino.Network.Capture.Service.{CaptureCreate, CaptureCreateResponse, create}
use sahabino.Network.Capture.Completion.{Between, complete}
use sahabino.Network.Capture.Operations.{
  reconcile_captures, retry_capture, cleanup_capture_object, refers, still_needs,
}
use sahabino.Network.Capture.Attempts.{
  claim_attempt, mark_verified, mark_analyzed, mark_failed, release_attempt, is_claimable,
}
use sahabino.Network.Capture.Worker.{CaptureReady, event, verified, Others, process_next}
use sahabino.Network.Capture.Invariant.{Row}
use sahabino.Network.Capture.Reachable.{
  Reaches, here, stored, created, completed, reconciled, reachable_rows, no_undated_event,
}
use sahabino.Network.Capture.Ownership.{claim_exclusive}
use sahabino.Network.Capture.Requests.{replayed_request}
use sahabino.Network.Capture.Cleanup.{cleanup_exact}
use sahabino.Network.Capture.Settled.{is_settled, committed_settled}

abbrev env : Env
env = record {
  now = 100;
  fresh_id = 7;
  fresh_ready = 8;
  fresh_analysis = 9;
  fresh_event = 10;
  max_capture_size = 1000;
  pending_upload_expiry = 50;
  stale_analysis = 30;
  storage_up = true;
  signing_up = true;
  publisher_up = true;
}

abbrev request : CaptureCreate
request = record {
  application_id = 1;
  capture_format = pcap;
  capture_size_bytes = 64;
  sha256 = 5;
  filename = 2;
  scenario = upload;
  transfer_file_size_bytes = 32;
}

-- The tables are empty; the object of the request is uploaded.
abbrev start : Store
start = record {
  captures = [];
  idempotency_keys = [];
  applications = (1, 77) ∷ [];
  objects = (object_key_for 5 pcap, 64) ∷ [];
  published = [];
}

abbrev alone : Store → Store
alone s = s

abbrev first_hash : CaptureCreate → ℕ
first_hash r = r.capture_size_bytes

abbrev second : Store
second = (create first_hash env 3 request (λ x. start) start).1

-- The object is uploaded while the completion is under way.
abbrev arriving : Store → Store
arriving s = record s { objects = (object_key_for 5 pcap, 64) ∷ [] }

abbrev around : Between
around = record { before_head = arriving; before_commit = alone; before_publish = alone }

-- The capture is registered, expires, is reopened, and its object arrives.
abbrev later : Env
later = record env { now = 200 }

abbrev nothing_more : ℕ → Store → Store
nothing_more n s = s

abbrev emptied : Store
emptied = record second { objects = [] }

abbrev lapsed : Store
lapsed = (reconcile_captures later nothing_more emptied).1

abbrev reopened : Store
reopened = (create first_hash env 3 request (λ x. lapsed) lapsed).1

abbrev arrived : Store
arrived = (complete env 7 around reopened).1

Reaches-arrived : Reaches start arrived
Reaches-arrived =
    completed env 7 around
      (created first_hash env 3 request
        (reconciled later nothing_more (stored [] (created first_hash env 3 request here here))
          (λ n x. here))
        here)
      (λ x. stored ((object_key_for 5 pcap, 64) ∷ []) here) (λ x. here) (λ x. here)

arrived_uploaded : (c : NetworkCapture) × (get_capture 7 arrived ≡ some c) × (c.status ≡ uploaded)
unfolding complete create reconcile_captures get_capture lookup first_where
arrived_uploaded = (_, refl, refl)

reachable_rows_example : All Row arrived.captures
reachable_rows_example = reachable_rows {s = start} {t = arrived} Reaches-arrived refl

no_undated_event_example :
    ((create first_hash env 4 request (λ x. second) second).0 ≢ raised value_error)
    × ((complete env 7 around second).0 ≢ raised value_error)
    × ((retry_capture env 7 alone second).0 ≢ raised value_error)
no_undated_event_example =
    no_undated_event {s = start} {t = second} {u = second} env 7 around first_hash 4 request
      (created first_hash env 3 request here here) refl here
      (λ x. stored ((object_key_for 5 pcap, 64) ∷ []) here) (λ x. here) (λ x. here)

abbrev capture : NetworkCapture
capture = record {
  id = 7;
  application_id = 1;
  scenario = upload;
  capture_format = pcap;
  object_key = record { sha256 = 5; format = pcap };
  expected_sha256 = 5;
  verified_sha256 = none;
  capture_size_bytes = 64;
  transfer_file_size_bytes = 32;
  status = uploaded;
  ready_event_id = 8;
  analysis_id = 9;
  analysis_event_id = 10;
  analysis_attempt_count = 0;
  created_at = 90;
  uploaded_at = some 95;
  analysis_started_at = none;
  analysis_finished_at = none;
  object_deleted_at = none;
  error_code = none;
}

abbrev with_capture : NetworkCapture → Store
with_capture c = record start { captures = c ∷ [] }

abbrev taken : Store
taken = (claim_attempt 7 100 70 (with_capture capture)).1

claim_exclusive_example :
    ((claim_attempt 7 110 80 taken).0 ≡ false)
    × (mark_verified 7 5 110 taken ≡ (raised analyzer_consistency, taken))
    × (mark_analyzed 7 5 110 111 taken ≡ (raised analyzer_consistency, taken))
    × (mark_failed 7 1 110 111 taken ≡ (raised analyzer_consistency, taken))
    × (release_attempt 7 110 taken ≡ taken)
unfolding claim_attempt is_claimable first_where count_of
claim_exclusive_example =
    claim_exclusive 7 100 70 (with_capture capture) (omega arith) refl 110 80 5 1 111 (omega arith)
      (omega arith)

abbrev answer : CaptureCreateResponse
answer = record {
  capture_id = 7;
  analysis_id = 9;
  ready_event_id = 8;
  status = pending_upload;
  upload_required = true;
}

replayed_request_example :
    (first_hash request ≢ first_hash request
      → create first_hash env 3 request alone second ≡ (raised idempotency_conflict, second))
    × ((r : CaptureCreateResponse)
        → (create first_hash env 3 request alone second).0 ≡ returned r
        → r.capture_id ≡ 7)
unfolding create lookup
replayed_request_example =
    replayed_request first_hash env env 3 request request (λ x. start) alone start answer refl

abbrev finished : NetworkCapture
finished = record capture { status = analyzed; verified_sha256 = some 5 }

cleanup_exact_example :
    (0 < count_of (still_needs finished.object_key) (finished ∷ [])
      → cleanup_capture_object env 7 (with_capture finished)
        ≡ (raised cleanup_conflict, with_capture finished))
    × (count_of (still_needs finished.object_key) (finished ∷ []) ≡ 0
        → ((cleanup_capture_object env 7 (with_capture finished)).0
            ≡ returned (count_of (refers finished.object_key) (finished ∷ [])))
          × All
              (λ d. refers finished.object_key d ≡ false)
              (cleanup_capture_object env 7 (with_capture finished)).1.captures
          × (0 < count_of (refers finished.object_key) (finished ∷ [])
              → head_object finished.object_key
                  (cleanup_capture_object env 7 (with_capture finished)).1.objects
                ≡ none))
unfolding get_capture first_where
cleanup_exact_example = cleanup_exact env 7 (with_capture finished) finished refl refl

abbrev others : Others
others = record {
  before_verified = alone;
  before_published = alone;
  before_analyzed = alone;
  before_finish = alone;
}

abbrev ready : CaptureReady
ready = record {
  event_id = 8;
  capture_id = 7;
  analysis_id = 9;
  application_id = 1;
  package_name = 77;
  scenario = upload;
  object_key = record { sha256 = 5; format = pcap };
  capture_format = pcap;
  capture_size_bytes = 64;
  transfer_file_size_bytes = 32;
  expected_sha256 = 5;
}

committed_settled_example :
    is_some (
      first_where
        (is_settled 7)
        (process_next env others
          (verified 5)
          (some (event ready))
          (with_capture capture)).1.captures)
    ≡ true
unfolding process_next lookup
committed_settled_example =
    committed_settled env others (verified 5) ready (with_capture capture) refl
