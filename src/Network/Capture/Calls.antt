-- ===== src/Network/Capture/Calls.antt =====
-- The calls of network/service.py and network/operations.py on well-formed rows.
use sahabino.Common.{
  ◌≡◌, ◌≢◌, refl, some, List, [], ◌∷◌, arith, ==_iff, ℕ, Bool, true, inl, inr, ◌&&◌, ◌||◌, not,
  List, [], ◌∷◌, ◌==◌, ltb, is_some, All, Bool-cases, Option-cases, filter_by, length,
}
use sahabino.Common.Dict.{lookup}
use sahabino.Network.Capture.{
  first_where, publish_ready, value_error, raised, pending_upload, failed, expired,
  capture_not_found, invalid_capture_state, capture_object_missing, capture_object_size_mismatch,
  object_storage_unavailable, cleanup_conflict, NetworkCapture, Store, same_status, get_capture,
  update_first, on_first, has_id, head_object, Env,
}
use sahabino.Network.Capture.Keys.{found_id}
use sahabino.Network.Capture.Completion.{
  Between, complete, complete_capture, finish_upload, write_uploaded, mark_uploaded,
}
use sahabino.Network.Capture.Operations.{
  reconcile_captures, reconcile_row, to_publish, publish_again, needs_storage, retry_capture,
  retry_row, cleanup_capture_object, delete_referenced, mark_deleted, refers, still_needs,
}
use sahabino.Network.Capture.Invariant.{
  Row, uploaded-Row, written-Row, deleted-Row, retried-Row, failed_before, reconciled-Row,
}
use sahabino.Network.Capture.Tables.{
  Sound, update_where-All, update_first-All, publish_if-Sound, publish_all-Rows, publish_ready-Rows,
  KeepsRows,
}
use sahabino.Network.Capture.Creation.{refused, get_capture-Row}

-- What other calls do while a completion is under way keeps the rows well formed.
pub record KeepsBetween (others : Between) : Type 0 where
  pub before_head : KeepsRows others.before_head
  pub before_commit : KeepsRows others.before_commit
  pub before_publish : KeepsRows others.before_publish

update_first-Rows :
    (test : NetworkCapture → Bool) (f : NetworkCapture → NetworkCapture) (cs : List NetworkCapture)
    → ((c : NetworkCapture) → Row c → Row (f c))
    → All Row cs
    → All Row (update_first test f cs)
unfolding update_first
update_first-Rows test f [] h all = tt
update_first-Rows test f (c ∷ cs) h (r, all) = elim (Bool-cases (test c)) [
  | inl e ↦ rw e (h c r, all)
  | inr e ↦ rw e (r, update_first-Rows test f cs h all)
]

module _ (env : Env) (capture_id : ℕ) (others : Between) (keeps : KeepsBetween others) where
  finish_upload-Sound :
      (c : NetworkCapture) (s : Store)
      → Row c
      → All Row s.captures
      → Sound (finish_upload env capture_id c others s)
  unfolding finish_upload on_first
  finish_upload-Sound c s r all = elim (Bool-cases (same_status c.status pending_upload)) [
    | inr e ↦ rw e (publish_if-Sound env c (others.before_publish s) r (keeps.before_publish s all))
    | inl e ↦
        let t = others.before_commit s in
        let written : Store = on_first (has_id capture_id) (write_uploaded env.now c) t in
        let rows =
          update_first-Rows (has_id capture_id) (write_uploaded env.now c) t.captures
            (written-Row env.now c) (keeps.before_commit s all) in
        rw e (
          publish_if-Sound env (mark_uploaded env.now c) (others.before_publish written)
            (uploaded-Row env.now c r) (keeps.before_publish written rows))
  ]

  complete_capture-Sound :
      (c : NetworkCapture) (s : Store)
      → Row c
      → All Row s.captures
      → Sound (complete_capture env capture_id c others s)
  unfolding complete_capture
  complete_capture-Sound c s r all =
      let t = others.before_head s in
      let later = keeps.before_head s all in
      elim (Bool-cases (same_status c.status failed || same_status c.status expired)) [
        | inl e ↦ rw e (refused invalid_capture_state s (λ k. cc) all)
        | inr e ↦ elim (Bool-cases env.storage_up) [
          | inr u ↦ rw (e, u) (refused object_storage_unavailable t (λ k. cc) later)
          | inl u ↦ elim (Option-cases (head_object c.object_key t.objects)) [
            | inl h ↦
                rw (e, u, h, complete_capture) (refused capture_object_missing t (λ k. cc) later)
            | inr (size, h) ↦ elim (Bool-cases (size == c.capture_size_bytes)) [
              | inr w ↦
                  rw (e, u, h, w, complete_capture)
                    (refused capture_object_size_mismatch t (λ k. cc) later)
              | inl w ↦ rw (e, u, h, w, complete_capture) (finish_upload-Sound c t r later)
            ]
          ]
        ]
      ]

  pub complete-Sound : (s : Store) → All Row s.captures → Sound (complete env capture_id others s)
  unfolding complete
  complete-Sound s all = elim (Option-cases (get_capture capture_id s)) [
    | inl e ↦ rw (e, complete) (refused capture_not_found s (λ k. cc) all)
    | inr (c, e) ↦
        rw (e, complete) (complete_capture-Sound c s (get_capture-Row capture_id s c e all) all)
  ]

publish_again-Rows :
    (env : Env) (capture_id package_name : ℕ) (s : Store)
    → All Row s.captures
    → All Row (publish_again env capture_id package_name s).1.captures
unfolding publish_again
publish_again-Rows env capture_id package_name s all =
    elim (Option-cases (get_capture capture_id s)) [
      | inl e ↦ rw (e, publish_again) all
      | inr (c, e) ↦ rw (e, publish_again) (publish_ready-Rows env c package_name s all)
    ]

pub retry-Rows :
    (env : Env) (capture_id : ℕ) (others : Store → Store) (s : Store)
    → KeepsRows others
    → All Row s.captures
    → All Row (retry_capture env capture_id others s).1.captures
unfolding retry_capture on_first get_capture
retry-Rows env capture_id others s keeps all = elim (Option-cases (get_capture capture_id s)) [
  | inl e ↦ rw (e, retry_capture) all
  | inr (c, e) ↦ elim (Option-cases (lookup c.application_id s.applications)) [
    | inl f ↦ rw (e, f, retry_capture) all
    | inr (name, f) ↦ elim (Bool-cases (same_status c.status failed)) [
      | inr g ↦ rw (e, f, g, retry_capture) all
      | inl g ↦ elim (Bool-cases (is_some c.object_deleted_at)) [
        | inl h ↦ rw (e, f, g, h, retry_capture) all
        | inr h ↦
            let row = retried-Row c g (get_capture-Row capture_id s c e all) in
            let t = on_first (has_id capture_id) retry_row s in
            rw (e, f, g, h, retry_capture)
              (publish_again-Rows env capture_id name (others t) (
                keeps t
                  (update_first-All Row (has_id capture_id) retry_row s.captures c e row all)))
      ]
    ]
  ]
]

-- The row that was updated is the one that is read again.
updated_first :
    (test : NetworkCapture → Bool) (f : NetworkCapture → NetworkCapture) (cs : List NetworkCapture)
    (c : NetworkCapture)
    → first_where test cs ≡ some c
    → test (f c) ≡ true
    → first_where test (update_first test f cs) ≡ some (f c)
unfolding update_first first_where
updated_first test f [] c e h = cc
updated_first test f (d ∷ cs) c e h = elim (Bool-cases (test d)) [
  | inl g ↦ let same : d ≡ c = ground arith in rw (g, same, h) refl
  | inr g ↦ rw (g, g) (updated_first test f cs c (rw g at e) h)
]

read_again :
    (capture_id : ℕ) (s : Store) (c : NetworkCapture)
    → get_capture capture_id s ≡ some c
    → get_capture capture_id (on_first (has_id capture_id) retry_row s) ≡ some (retry_row c)
unfolding get_capture on_first retry_row
read_again capture_id s c e =
    updated_first (has_id capture_id) retry_row s.captures c e
      ((==_iff c.id capture_id).1 (found_id capture_id s.captures c e))

published_dated :
    (env : Env) (c : NetworkCapture) (package_name : ℕ) (s : Store)
    → is_some c.uploaded_at ≡ true
    → (publish_ready env c package_name s).0 ≢ raised value_error
unfolding publish_ready
published_dated env c package_name s h = elim (Bool-cases env.publisher_up) [
  | inl e ↦ rw (h, e) (λ k. cc)
  | inr e ↦ rw (h, e) (λ k. cc)
]

retried_dated :
    (c : NetworkCapture)
    → same_status c.status failed ≡ true
    → Row c
    → is_some (retry_row c).uploaded_at ≡ true
unfolding retry_row
retried_dated c h r = r.dated (failed_before c.status h)

pub retry_dated :
    (env : Env) (capture_id : ℕ) (s : Store)
    → All Row s.captures
    → (retry_capture env capture_id (λ x. x) s).0 ≢ raised value_error
unfolding retry_capture publish_again
retry_dated env capture_id s all = elim (Option-cases (get_capture capture_id s)) [
  | inl e ↦ rw (e, retry_capture) (λ k. cc)
  | inr (c, e) ↦ elim (Option-cases (lookup c.application_id s.applications)) [
    | inl f ↦ rw (e, f, retry_capture) (λ k. cc)
    | inr (name, f) ↦ elim (Bool-cases (same_status c.status failed)) [
      | inr g ↦ rw (e, f, g, retry_capture) (λ k. cc)
      | inl g ↦ elim (Bool-cases (is_some c.object_deleted_at)) [
        | inl h ↦ rw (e, f, g, h, retry_capture) (λ k. cc)
        | inr h ↦
            let r = get_capture-Row capture_id s c e all in
            rw (e, f, g, h, retry_capture, read_again capture_id s c e, publish_again)
              (published_dated env (retry_row c) name (on_first (has_id capture_id) retry_row s)
                (retried_dated c g r))
      ]
    ]
  ]
]

pub cleanup-Sound :
    (env : Env) (capture_id : ℕ) (s : Store)
    → All Row s.captures
    → Sound (cleanup_capture_object env capture_id s)
unfolding cleanup_capture_object delete_referenced
cleanup-Sound env capture_id s all = elim (Option-cases (get_capture capture_id s)) [
  | inl e ↦ rw (e, cleanup_capture_object) (refused capture_not_found s (λ k. cc) all)
  | inr (c, e) ↦
      elim (Bool-cases (ltb 0 (length (filter_by (still_needs c.object_key) s.captures)))) [
        | inl f ↦ rw (e, f, cleanup_capture_object) (refused cleanup_conflict s (λ k. cc) all)
        | inr f ↦ elim (Bool-cases (length (filter_by (refers c.object_key) s.captures) == 0)) [
          | inl g ↦
              rw (e, f, g, cleanup_capture_object) (record { kept = all; no_value_error = λ k. cc })
          | inr g ↦ elim (Bool-cases env.storage_up) [
            | inr h ↦
                rw (e, f, g, h, cleanup_capture_object)
                  (refused object_storage_unavailable s (λ k. cc) all)
            | inl h ↦
                rw (e, f, g, h, cleanup_capture_object)
                  (record {
                    kept =
                        update_where-All Row (refers c.object_key) (mark_deleted env.now) s.captures
                          (λ d k r. deleted-Row env.now d r) all;
                    no_value_error = λ k. cc;
                  })
          ]
        ]
      ]
]

pub reconcile-Rows :
    (env : Env) (others : ℕ → Store → Store) (s : Store)
    → ((n : ℕ) → KeepsRows (others n))
    → All Row s.captures
    → All Row (reconcile_captures env others s).1.captures
unfolding reconcile_captures
reconcile-Rows env others s keeps all =
    elim (Bool-cases (needs_storage env s.captures && not env.storage_up)) [
      | inl e ↦ rw e all
      | inr e ↦ rw e (
          publish_all-Rows env others 0 (to_publish env s s.captures) _ keeps (
            update_where-All Row (λ c. true) (reconcile_row env s) s.captures
              (λ c k r. reconciled-Row env s c r) all))
    ]
