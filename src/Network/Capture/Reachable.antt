-- ===== src/Network/Capture/Reachable.antt =====
-- The calls that change captures, of network/service.py, network/operations.py and network/worker.py,
-- and the stores that they reach.
use sahabino.Common.{ℕ, Bool, true, ◌≡◌, ◌≢◌, inl, inr, List, [], is_some, All, Bool-cases}
use sahabino.Network.Capture.{
  value_error, ObjectKey, NetworkCapture, Store, raised, first_where, Env,
}
use sahabino.Network.Capture.Service.{CaptureCreate, create}
use sahabino.Network.Capture.Completion.{Between, complete}
use sahabino.Network.Capture.Operations.{reconcile_captures, retry_capture, cleanup_capture_object}
use sahabino.Network.Capture.Attempts.{
  claim_attempt, release_attempt, mark_verified, mark_analyzed, mark_failed, require_update,
  is_claimable, claimed_row, owns, owns_hash, released_row, verified_row, analyzed_row, failed_row,
}
use sahabino.Network.Capture.Invariant.{
  Row, claimed-Row, released-Row, failed-Row, verified-Row, analyzed-Row,
}
use sahabino.Network.Capture.Tables.{update_where-All}
use sahabino.Network.Capture.Creation.{create-Sound}
use sahabino.Network.Capture.Calls.{
  KeepsBetween, complete-Sound, retry-Rows, retry_dated, cleanup-Sound, reconcile-Rows,
}

require-Rows :
    (test : NetworkCapture → Bool) (f : NetworkCapture → NetworkCapture) (s : Store)
    → ((c : NetworkCapture) → test c ≡ true → Row c → Row (f c))
    → All Row s.captures
    → All Row (require_update test f s).1.captures
unfolding require_update
require-Rows test f s h all = elim (Bool-cases (is_some (first_where test s.captures))) [
  | inl e ↦ rw e (update_where-All Row test f s.captures h all)
  | inr e ↦ rw e all
]

-- The stores that are reached by calls of the service, the operations and the worker's transactions,
-- while clients upload objects and storage may lose some. What other calls do while a capture is
-- created or completed, and before each session that publishes, is a sequence of calls too; the
-- transactions of a reconciliation, a retry and a cleanup are one step each.
pub data Reaches : Store → Store → Type 0 where
  here : {s : Store} → Reaches s s
  stored :
      {s t : Store} (objects : List (ObjectKey × ℕ))
      → Reaches s t
      → Reaches s (record t { objects = objects })
  created :
      {s t u : Store} (hash : CaptureCreate → ℕ) (env : Env) (key : ℕ) (request : CaptureCreate)
      → Reaches s t
      → Reaches t u
      → Reaches s (create hash env key request (λ x. u) t).1
  completed :
      {s t : Store} (env : Env) (capture_id : ℕ) (others : Between)
      → Reaches s t
      → ((x : Store) → Reaches x (others.before_head x))
      → ((x : Store) → Reaches x (others.before_commit x))
      → ((x : Store) → Reaches x (others.before_publish x))
      → Reaches s (complete env capture_id others t).1
  reconciled :
      {s t : Store} (env : Env) (others : ℕ → Store → Store)
      → Reaches s t
      → ((n : ℕ) (x : Store) → Reaches x (others n x))
      → Reaches s (reconcile_captures env others t).1
  retried :
      {s t : Store} (env : Env) (capture_id : ℕ) (others : Store → Store)
      → Reaches s t
      → ((x : Store) → Reaches x (others x))
      → Reaches s (retry_capture env capture_id others t).1
  cleaned :
      {s t : Store} (env : Env) (capture_id : ℕ)
      → Reaches s t
      → Reaches s (cleanup_capture_object env capture_id t).1
  claimed :
      {s t : Store} (capture_id start stale : ℕ)
      → Reaches s t
      → Reaches s (claim_attempt capture_id start stale t).1
  released :
      {s t : Store} (capture_id start : ℕ)
      → Reaches s t
      → Reaches s (release_attempt capture_id start t)
  marked_verified :
      {s t : Store} (capture_id sha256 start : ℕ)
      → Reaches s t
      → Reaches s (mark_verified capture_id sha256 start t).1
  marked_analyzed :
      {s t : Store} (capture_id sha256 start now : ℕ)
      → Reaches s t
      → Reaches s (mark_analyzed capture_id sha256 start now t).1
  marked_failed :
      {s t : Store} (capture_id code start now : ℕ)
      → Reaches s t
      → Reaches s (mark_failed capture_id code start now t).1

reaches-Rows : {s t : Store} → Reaches s t → All Row s.captures → All Row t.captures
unfolding claim_attempt release_attempt mark_verified mark_analyzed mark_failed
reaches-Rows here all = all
reaches-Rows (stored objects r) all = reaches-Rows r all
reaches-Rows (created hash env key request r q) all =
    let before = reaches-Rows r all in
    (create-Sound hash env key request _ _ before (reaches-Rows q before)).kept
reaches-Rows (completed env i others r head commit publish) all =
    let keeps : KeepsBetween others = record {
      before_head = λ x. reaches-Rows (head x);
      before_commit = λ x. reaches-Rows (commit x);
      before_publish = λ x. reaches-Rows (publish x);
    } in
    (complete-Sound env i others keeps _ (reaches-Rows r all)).kept
reaches-Rows (reconciled env others r q) all =
    reconcile-Rows env others _ (λ n x. reaches-Rows (q n x)) (reaches-Rows r all)
reaches-Rows (retried env i others r q) all =
    retry-Rows env i others _ (λ x. reaches-Rows (q x)) (reaches-Rows r all)
reaches-Rows (cleaned env i r) all = (cleanup-Sound env i _ (reaches-Rows r all)).kept
reaches-Rows (claimed i t stale r) all =
    update_where-All Row (is_claimable i stale) (claimed_row t) _ (claimed-Row i stale t)
      (reaches-Rows r all)
reaches-Rows (released i t r) all =
    update_where-All Row (owns i t) released_row _ (released-Row i t) (reaches-Rows r all)
reaches-Rows (marked_verified i sha t r) all =
    require-Rows (owns_hash i sha t) (verified_row sha) _ (verified-Row i sha t)
      (reaches-Rows r all)
reaches-Rows (marked_analyzed i sha t now r) all =
    require-Rows (owns_hash i sha t) (analyzed_row sha now) _ (analyzed-Row i sha t now)
      (reaches-Rows r all)
reaches-Rows (marked_failed i code t now r) all =
    require-Rows (owns i t) (failed_row code now) _ (failed-Row i t code now) (reaches-Rows r all)

-- In every store that is reached from empty tables, by calls between which others come in wherever
-- `Reaches` lets them, each row is well formed: its object key is that of its hash, it knows when it
-- was uploaded if it is uploaded, analyzing, analyzed or failed, its verified hash is the declared
-- one, and it is verified if it is analyzed.
pub reachable_rows : {s t : Store} → Reaches s t → s.captures ≡ [] → All Row t.captures
reachable_rows r e = reaches-Rows r (rw e tt)

-- In every store that is reached from empty tables, a call of `create` or `complete` does not raise
-- `ValueError`: the capture whose ready event it publishes knows when it was uploaded, whichever
-- request and settings it has, and whatever calls come in before `create` inserts a new capture, and
-- before `complete` asks storage, before it commits and before it publishes. Nor does `retry_capture`,
-- if no other call comes between its two sessions.
pub no_undated_event :
    {s t u : Store} (env : Env) (capture_id : ℕ) (others : Between) (hash : CaptureCreate → ℕ)
    (key : ℕ) (request : CaptureCreate)
    → Reaches s t
    → s.captures ≡ []
    → Reaches t u
    → ((x : Store) → Reaches x (others.before_head x))
    → ((x : Store) → Reaches x (others.before_commit x))
    → ((x : Store) → Reaches x (others.before_publish x))
    → ((create hash env key request (λ x. u) t).0 ≢ raised value_error)
      × ((complete env capture_id others t).0 ≢ raised value_error)
      × ((retry_capture env capture_id (λ x. x) t).0 ≢ raised value_error)
no_undated_event {t = t} {u = u} env capture_id others hash key request r e q head commit publish =
    let all = reachable_rows r e in
    let keeps : KeepsBetween others = record {
      before_head = λ x. reaches-Rows (head x);
      before_commit = λ x. reaches-Rows (commit x);
      before_publish = λ x. reaches-Rows (publish x);
    } in
    (
      (create-Sound hash env key request (λ x. u) t all (reaches-Rows q all)).no_value_error,
      (complete-Sound env capture_id others keeps t all).no_value_error,
      retry_dated env capture_id t all,
    )
