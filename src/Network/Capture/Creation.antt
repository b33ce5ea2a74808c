-- ===== src/Network/Capture/Creation.antt =====
-- `CaptureService.create`, network/service.py, and the rows of the table.
use sahabino.Common.{
  ℕ, Bool, true, ◌≡◌, ◌≢◌, refl, sym, ◌∙◌, ap, inl, inr, ◌&&◌, Option, none, some, ◌==◌, ltb, All,
  arith, Bool-cases, Option-cases,
}
use sahabino.Common.Dict.{lookup}
use sahabino.Network.Capture.{
  NetworkError, idempotency_conflict, capture_metadata_conflict, capture_too_large,
  application_not_found, value_error, runtime_error, integrity_error, ObjectKey, object_key_for,
  NetworkCapture, IdempotencyKey, Store, Outcome, returned, raised, same_object, get_capture,
  get_logical, get_verified_object, find_key, on_first, has_id, is_logical, head_object, Env,
}
use sahabino.Network.Capture.Service.{
  CaptureCreate, CaptureCreateResponse, create, replay, reuse_logical, create_new, insert_capture,
  recover, is_taken, reusable, new_capture, reopen_expired, has_metadata, add_idempotency_key,
}
use sahabino.Network.Capture.Invariant.{Row, reopened-Row}
use sahabino.Network.Capture.Tables.{
  Sound, update_first-All, first_where-All, latest_where-All, publish_and_respond-Sound,
}

raised_error : {A : Type 0} {e f : NetworkError} → Path (Outcome A) (raised e) (raised f) → e ≡ f
raised_error k = cc

pub refused :
    {A : Type 0} (e : NetworkError) (s : Store)
    → e ≢ value_error
    → All Row s.captures
    → Sound {A = A} (raised e, s)
refused e s h all = record { kept = all; no_value_error = λ k. h (raised_error k) }

pub get_capture-Row :
    (capture_id : ℕ) (s : Store) (c : NetworkCapture)
    → get_capture capture_id s ≡ some c
    → All Row s.captures
    → Row c
unfolding get_capture
get_capture-Row capture_id s c e all = first_where-All Row (has_id capture_id) s.captures c e all

replay-Sound :
    (env : Env) (fingerprint : ℕ) (mapping : IdempotencyKey) (s : Store)
    → All Row s.captures
    → Sound (replay env fingerprint mapping s)
unfolding replay get_capture on_first
replay-Sound env fingerprint mapping s all =
    elim (Bool-cases (mapping.request_fingerprint == fingerprint)) [
      | inr e ↦ rw e (refused idempotency_conflict s (λ k. cc) all)
      | inl e ↦ elim (Option-cases (get_capture mapping.capture_id s)) [
        | inl f ↦ rw (e, f) (refused runtime_error s (λ k. cc) all)
        | inr (c, f) ↦
            let row = reopened-Row c (get_capture-Row mapping.capture_id s c f all) in
            rw (e, f)
              (publish_and_respond-Sound env (reopen_expired c)
                (on_first (has_id mapping.capture_id) reopen_expired s) row
                (update_first-All Row (has_id mapping.capture_id) reopen_expired s.captures c f row
                  all))
      ]
    ]

reuse_logical-Sound :
    (env : Env) (key fingerprint : ℕ) (request : CaptureCreate) (c : NetworkCapture) (s : Store)
    → get_logical request.application_id request.scenario request.sha256 s ≡ some c
    → All Row s.captures
    → Sound (reuse_logical env key fingerprint request c s)
unfolding reuse_logical get_logical on_first add_idempotency_key
reuse_logical-Sound env key fingerprint request c s f all =
    let test = is_logical request.application_id request.scenario request.sha256 in
    let row = reopened-Row c (first_where-All Row test s.captures c f all) in
    elim (Bool-cases (has_metadata request c)) [
      | inr e ↦ rw e (refused capture_metadata_conflict s (λ k. cc) all)
      | inl e ↦ rw e (
          publish_and_respond-Sound env (reopen_expired c)
            (add_idempotency_key key c.id fingerprint (on_first test reopen_expired s)) row
            (update_first-All Row test reopen_expired s.captures c f row all))
    ]

recover-Sound :
    (env : Env) (key fingerprint : ℕ) (request : CaptureCreate) (s : Store)
    → All Row s.captures
    → Sound (recover env key fingerprint request s)
unfolding recover
recover-Sound env key fingerprint request s all =
    let found = get_logical request.application_id request.scenario request.sha256 s in
    elim (Option-cases (find_key key s.idempotency_keys)) [
      | inr (mapping, e) ↦ rw (e, recover) (replay-Sound env fingerprint mapping s all)
      | inl e ↦ elim (Option-cases found) [
        | inl f ↦ rw (e, f, recover) (refused integrity_error s (λ k. cc) all)
        | inr (c, f) ↦
            rw (e, f, recover) (reuse_logical-Sound env key fingerprint request c s f all)
      ]
    ]

-- The hash of the object that is reused is the one that was asked for.
Reused : CaptureCreate → Outcome (Option ℕ) → Type 0
Reused request (returned o) = (v : ℕ) → o ≡ some v → v ≡ request.sha256
Reused request (raised e) = e ≢ value_error

reused_hash :
    (c : NetworkCapture) (key : ObjectKey) (a b : Bool)
    → Row c
    → (same_object c.object_key key && a && b) ≡ true
    → c.expected_sha256 ≡ key.sha256
unfolding object_key_for
reused_hash c key a b r h =
    let hash = ap (λ k. k.sha256) r.keyed in
    let same : c.object_key.sha256 ≡ key.sha256 = ground arith in sym hash ∙ same

reusable-Reused :
    (env : Env) (request : CaptureCreate) (s : Store)
    → All Row s.captures
    → Reused request (reusable env request s)
unfolding reusable Reused get_verified_object object_key_for
reusable-Reused env request s all =
    let key = object_key_for request.sha256 request.capture_format in
    elim (Option-cases (get_verified_object key s)) [
      | inl e ↦ rw (e, reusable) (λ v k. cc)
      | inr (c, e) ↦
          let row = latest_where-All Row _ s.captures c e all in
          elim (Bool-cases (c.capture_size_bytes == request.capture_size_bytes)) [
            | inr g ↦ rw (e, g, reusable) (λ k. cc)
            | inl g ↦ elim (Bool-cases env.storage_up) [
              | inr u ↦ rw (e, g, u, reusable) (λ k. cc)
              | inl u ↦ elim (Option-cases (head_object key s.objects)) [
                | inl h ↦ rw (e, g, u, h, reusable) (λ v k. cc)
                | inr (size, h) ↦ elim (Bool-cases (size == request.capture_size_bytes)) [
                  | inr w ↦ rw (e, g, u, h, w, reusable) (λ k. cc)
                  | inl w ↦
                      rw (e, g, u, h, w, reusable)
                        (λ v k. row.0.hashed v k ∙ reused_hash c key _ _ row.0 row.1)
                ]
              ]
            ]
          ]
    ]

new_capture-Row :
    (env : Env) (request : CaptureCreate) (o : Option ℕ)
    → Reused request (returned o)
    → Row (new_capture env request o)
unfolding new_capture Reused
new_capture-Row env request none h = record {
  keyed = refl;
  dated = λ k. cc;
  hashed = λ v k. cc;
  verified = λ k. cc;
}
new_capture-Row env request (some v) h = record {
  keyed = refl;
  dated = λ k. refl;
  hashed = h;
  verified = λ k. cc;
}

insert_capture-Sound :
    (env : Env) (key fingerprint : ℕ) (request : CaptureCreate) (o : Option ℕ) (s : Store)
    → Reused request (returned o)
    → All Row s.captures
    → Sound (insert_capture env key fingerprint request o s)
unfolding insert_capture add_idempotency_key
insert_capture-Sound env key fingerprint request o s h all =
    let row = new_capture-Row env request o h in
    elim (Bool-cases (is_taken key request s)) [
      | inl e ↦ rw e (recover-Sound env key fingerprint request s all)
      | inr e ↦ rw e (publish_and_respond-Sound env (new_capture env request o) _ row (row, all))
    ]

-- The choice that `create_new` makes on the result of `reusable`.
inserted-Sound :
    (env : Env) (key fingerprint : ℕ) (request : CaptureCreate) (found : Outcome (Option ℕ))
    (s t : Store)
    → Reused request found
    → All Row s.captures
    → All Row t.captures
    → Sound {A = CaptureCreateResponse} (elim found [
      | raised e ↦ (raised e, s)
      | returned verified ↦ insert_capture env key fingerprint request verified t
    ])
unfolding Reused
inserted-Sound env key fingerprint request (raised e) s t h all all' = refused e s h all
inserted-Sound env key fingerprint request (returned o) s t h all all' =
    insert_capture-Sound env key fingerprint request o t h all'

create_new-Sound :
    (env : Env) (key fingerprint : ℕ) (request : CaptureCreate) (others : Store → Store) (s : Store)
    → All Row s.captures
    → All Row (others s).captures
    → Sound (create_new env key fingerprint request others s)
unfolding create_new
create_new-Sound env key fingerprint request others s all all' =
    elim (Option-cases (lookup request.application_id s.applications)) [
      | inl e ↦ rw (e, create_new) (refused application_not_found s (λ k. cc) all)
      | inr (name, e) ↦
          rw (e, create_new)
            (inserted-Sound env key fingerprint request (reusable env request s) s (others s)
              (reusable-Reused env request s all) all all')
    ]

-- `create` keeps the rows well formed, whatever well-formed rows the other calls leave in between.
pub create-Sound :
    (hash : CaptureCreate → ℕ) (env : Env) (key : ℕ) (request : CaptureCreate)
    (others : Store → Store) (s : Store)
    → All Row s.captures
    → All Row (others s).captures
    → Sound (create hash env key request others s)
unfolding create
create-Sound hash env key request others s all all' =
    let found = get_logical request.application_id request.scenario request.sha256 s in
    elim (Option-cases (find_key key s.idempotency_keys)) [
      | inr (mapping, e) ↦ rw (e, create) (replay-Sound env (hash request) mapping s all)
      | inl e ↦ elim (Bool-cases (ltb env.max_capture_size request.capture_size_bytes)) [
        | inl g ↦ rw (e, g, create) (refused capture_too_large s (λ k. cc) all)
        | inr g ↦ elim (Option-cases found) [
          | inl f ↦
              rw (e, g, f, create)
                (create_new-Sound env key (hash request) request others s all all')
          | inr (c, f) ↦
              rw (e, g, f, create) (reuse_logical-Sound env key (hash request) request c s f all)
        ]
      ]
    ]
