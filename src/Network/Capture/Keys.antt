-- ===== src/Network/Capture/Keys.antt =====
-- The keys that `CaptureService.create` of network/service.py leaves with its answers.
use sahabino.Common.{
  ℕ, ◌&&◌, not, ◌≡◌, refl, sym, ◌∙◌, ap, inl, inr, Option, some, List, [], ◌∷◌, ◌==◌, ltb, is_some,
  arith, Bool-cases, Option-cases, ==_iff,
}
use sahabino.Common.Dict.{lookup}
use sahabino.Network.Capture.{
  expired, NetworkError, idempotency_conflict, capture_metadata_conflict, capture_too_large,
  application_not_found, runtime_error, integrity_error, NetworkCapture, IdempotencyKey, Store,
  NoValue, Outcome, returned, raised, same_status, pending_upload, object_storage_unavailable,
  is_dispatchable, first_where, get_capture, get_logical, find_key, on_first, has_id, is_logical,
  Env, publish_ready,
}
use sahabino.Network.Capture.Service.{
  CaptureCreate, CaptureCreateResponse, create, create_response, respond, replay, reuse_logical,
  create_new, insert_capture, recover, is_taken, reusable, new_capture, reopen_expired,
  has_metadata, publish_ready_if_dispatchable, publish_and_respond, add_idempotency_key,
}

-- A response is recorded under its key: the capture it names, and the hash of its request.
unfoldable pub Recorded : ℕ → ℕ → Outcome CaptureCreateResponse × Store → Type 0
Recorded key hash out =
    (r : CaptureCreateResponse)
    → out.0 ≡ returned r
    → (m : IdempotencyKey) × ((find_key key out.1.idempotency_keys ≡ some m)
        × (m.capture_id ≡ r.capture_id)
        × (m.request_fingerprint ≡ hash))

publish_keys :
    (env : Env) (c : NetworkCapture) (s : Store)
    → (publish_ready_if_dispatchable env c s).1.idempotency_keys ≡ s.idempotency_keys
unfolding publish_ready_if_dispatchable publish_ready
publish_keys env c s = elim (Bool-cases (is_dispatchable c.status)) [
  | inr e ↦ rw e refl
  | inl e ↦ elim (Option-cases (lookup c.application_id s.applications)) [
    | inl f ↦ rw (e, f) refl
    | inr (name, f) ↦ elim (Bool-cases (is_some c.uploaded_at)) [
      | inr g ↦ rw (e, f, g) refl
      | inl g ↦ elim (Bool-cases env.publisher_up) [
        | inl h ↦ rw (e, f, g, h) refl
        | inr h ↦ rw (e, f, g, h) refl
      ]
    ]
  ]
]

capture_of : Outcome CaptureCreateResponse → ℕ
capture_of (returned r) = r.capture_id
capture_of (raised e) = 0

pub same_answer :
    (r r' : CaptureCreateResponse)
    → Path (Outcome CaptureCreateResponse) (returned r) (returned r')
    → r.capture_id ≡ r'.capture_id
unfolding capture_of
same_answer r r' k = ap capture_of k

refused-Recorded : (key hash : ℕ) (e : NetworkError) (s : Store) → Recorded key hash (raised e, s)
unfolding Recorded
refused-Recorded key hash e s r k = cc

answer-Recorded :
    (env : Env) (key hash : ℕ) (c : NetworkCapture) (s : Store) (m : IdempotencyKey)
    → find_key key s.idempotency_keys ≡ some m
    → m.capture_id ≡ c.id
    → m.request_fingerprint ≡ hash
    → Recorded key hash (respond env c s)
unfolding Recorded create_response respond
answer-Recorded env key hash c s m h h' h'' =
    elim (Bool-cases (same_status c.status pending_upload && not env.signing_up)) [
      | inl e ↦ rw e (refused-Recorded key hash object_storage_unavailable s)
      | inr e ↦ rw e (λ r k. (m, (h, h' ∙ same_answer (create_response c) r k, h'')))
    ]

respond-Recorded :
    (env : Env) (key hash : ℕ) (c : NetworkCapture) (result : Outcome NoValue) (s : Store)
    (m : IdempotencyKey)
    → find_key key s.idempotency_keys ≡ some m
    → m.capture_id ≡ c.id
    → m.request_fingerprint ≡ hash
    → Recorded key hash (elim result [ returned u ↦ respond env c s | raised e ↦ (raised e, s) ])
respond-Recorded env key hash c (raised e) s m h h' h'' = refused-Recorded key hash e s
respond-Recorded env key hash c (returned u) s m h h' h'' =
    answer-Recorded env key hash c s m h h' h''

publish_and_respond-Recorded :
    (env : Env) (key hash : ℕ) (c : NetworkCapture) (s : Store) (m : IdempotencyKey)
    → find_key key s.idempotency_keys ≡ some m
    → m.capture_id ≡ c.id
    → m.request_fingerprint ≡ hash
    → Recorded key hash (publish_and_respond env c s)
unfolding publish_and_respond
publish_and_respond-Recorded env key hash c s m h h' h'' =
    let out = publish_ready_if_dispatchable env c s in
    respond-Recorded env key hash c out.0 out.1 m (ap (find_key key) (publish_keys env c s) ∙ h) h'
      h''

pub reopened_id : (c : NetworkCapture) → (reopen_expired c).id ≡ c.id
unfolding reopen_expired
reopened_id c = elim (Bool-cases (same_status c.status expired)) [
  | inl e ↦ rw e refl
  | inr e ↦ rw e refl
]

pub found_id :
    (capture_id : ℕ) (cs : List NetworkCapture) (c : NetworkCapture)
    → first_where (has_id capture_id) cs ≡ some c
    → c.id ≡ capture_id
unfolding first_where
found_id capture_id [] c e = cc
found_id capture_id (d ∷ cs) c e = elim (Bool-cases (has_id capture_id d)) [
  | inl g ↦
      let same : d ≡ c = ground arith in ap (λ x. x.id) (sym same) ∙ (==_iff d.id capture_id).0 g
  | inr g ↦ found_id capture_id cs c (rw g at e)
]

replay-Recorded :
    (env : Env) (key hash : ℕ) (m : IdempotencyKey) (s : Store)
    → find_key key s.idempotency_keys ≡ some m
    → Recorded key hash (replay env hash m s)
unfolding replay get_capture on_first
replay-Recorded env key hash m s h = elim (Bool-cases (m.request_fingerprint == hash)) [
  | inr e ↦ rw e (refused-Recorded key hash idempotency_conflict s)
  | inl e ↦ elim (Option-cases (get_capture m.capture_id s)) [
    | inl f ↦ rw (e, f) (refused-Recorded key hash runtime_error s)
    | inr (c, f) ↦
        let named = sym (found_id m.capture_id s.captures c f) ∙ sym (reopened_id c) in
        rw (e, f)
          (publish_and_respond-Recorded env key hash (reopen_expired c)
            (on_first (has_id m.capture_id) reopen_expired s) m h named
            ((==_iff m.request_fingerprint hash).0 e))
  ]
]

added_key :
    (key capture_id hash : ℕ) (s : Store)
    → find_key key (add_idempotency_key key capture_id hash s).idempotency_keys
      ≡ some (record { idempotency_key = key; capture_id = capture_id; request_fingerprint = hash })
unfolding add_idempotency_key find_key
added_key key capture_id hash s = ground arith

reuse-Recorded :
    (env : Env) (key hash : ℕ) (request : CaptureCreate) (c : NetworkCapture) (s : Store)
    → Recorded key hash (reuse_logical env key hash request c s)
unfolding reuse_logical
reuse-Recorded env key hash request c s =
    let test = is_logical request.application_id request.scenario request.sha256 in
    let t = on_first test reopen_expired s in
    elim (Bool-cases (has_metadata request c)) [
      | inr e ↦ rw e (refused-Recorded key hash capture_metadata_conflict s)
      | inl e ↦ rw e (
          publish_and_respond-Recorded env key hash (reopen_expired c)
            (add_idempotency_key key c.id hash t) _ (added_key key c.id hash t)
            (sym (reopened_id c)) refl)
    ]

recover-Recorded :
    (env : Env) (key hash : ℕ) (request : CaptureCreate) (s : Store)
    → Recorded key hash (recover env key hash request s)
unfolding recover
recover-Recorded env key hash request s =
    let found = get_logical request.application_id request.scenario request.sha256 s in
    elim (Option-cases (find_key key s.idempotency_keys)) [
      | inr (m, e) ↦ rw (e, recover) (replay-Recorded env key hash m s e)
      | inl e ↦ elim (Option-cases found) [
        | inl f ↦ rw (e, f, recover) (refused-Recorded key hash integrity_error s)
        | inr (c, f) ↦ rw (e, f, recover) (reuse-Recorded env key hash request c s)
      ]
    ]

insert-Recorded :
    (env : Env) (key hash : ℕ) (request : CaptureCreate) (o : Option ℕ) (s : Store)
    → Recorded key hash (insert_capture env key hash request o s)
unfolding insert_capture
insert-Recorded env key hash request o s =
    let c = new_capture env request o in
    let t : Store = record s { captures = c ∷ s.captures } in
    elim (Bool-cases (is_taken key request s)) [
      | inl e ↦ rw e (recover-Recorded env key hash request s)
      | inr e ↦ rw e (
          publish_and_respond-Recorded env key hash c (add_idempotency_key key c.id hash t) _
            (added_key key c.id hash t) refl refl)
    ]

inserted-Recorded :
    (env : Env) (key hash : ℕ) (request : CaptureCreate) (found : Outcome (Option ℕ)) (s t : Store)
    → Recorded key hash (elim found [
      | raised e ↦ (raised e, s)
      | returned verified ↦ insert_capture env key hash request verified t
    ])
inserted-Recorded env key hash request (raised e) s t = refused-Recorded key hash e s
inserted-Recorded env key hash request (returned o) s t = insert-Recorded env key hash request o t

create_new-Recorded :
    (env : Env) (key hash : ℕ) (request : CaptureCreate) (others : Store → Store) (s : Store)
    → Recorded key hash (create_new env key hash request others s)
unfolding create_new
create_new-Recorded env key hash request others s =
    elim (Option-cases (lookup request.application_id s.applications)) [
      | inl e ↦ rw (e, create_new) (refused-Recorded key hash application_not_found s)
      | inr (name, e) ↦
          rw (e, create_new)
            (inserted-Recorded env key hash request (reusable env request s) s (others s))
    ]

pub create-Recorded :
    (hash : CaptureCreate → ℕ) (env : Env) (key : ℕ) (request : CaptureCreate)
    (others : Store → Store) (s : Store)
    → Recorded key (hash request) (create hash env key request others s)
unfolding create
create-Recorded hash env key request others s =
    let found = get_logical request.application_id request.scenario request.sha256 s in
    elim (Option-cases (find_key key s.idempotency_keys)) [
      | inr (m, e) ↦ rw (e, create) (replay-Recorded env key (hash request) m s e)
      | inl e ↦ elim (Bool-cases (ltb env.max_capture_size request.capture_size_bytes)) [
        | inl g ↦ rw (e, g, create) (refused-Recorded key (hash request) capture_too_large s)
        | inr g ↦ elim (Option-cases found) [
          | inl f ↦
              rw (e, g, f, create) (create_new-Recorded env key (hash request) request others s)
          | inr (c, f) ↦ rw (e, g, f, create) (reuse-Recorded env key (hash request) request c s)
        ]
      ]
    ]
