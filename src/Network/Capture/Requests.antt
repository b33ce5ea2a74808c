-- ===== src/Network/Capture/Requests.antt =====
-- Idempotency keys of requests, `CaptureService.create` of network/service.py.
use sahabino.Common.{
  ℕ, ◌&&◌, not, false, ◌≡◌, ◌≢◌, refl, sym, ◌∙◌, ap, inl, inr, some, ◌==◌, arith, Bool-cases,
  Option-cases,
}
use sahabino.Network.Capture.{
  NetworkError, idempotency_conflict, pending_upload, same_status, NetworkCapture, IdempotencyKey,
  Store, NoValue, Outcome, returned, raised, get_capture, find_key, on_first, Env,
}
use sahabino.Network.Capture.Service.{
  CaptureCreate, CaptureCreateResponse, create, create_response, respond, replay, reopen_expired,
  publish_and_respond,
}
use sahabino.Network.Capture.Keys.{Recorded, same_answer, reopened_id, found_id, create-Recorded}

-- With a known key, `create` is the replay of its mapping.
create_known :
    (hash : CaptureCreate → ℕ) (env : Env) (key : ℕ) (request : CaptureCreate)
    (others : Store → Store) (s : Store) (m : IdempotencyKey)
    → find_key key s.idempotency_keys ≡ some m
    → create hash env key request others s ≡ replay env (hash request) m s
unfolding create
create_known hash env key request others s m e = rw (e, create) refl

other_hash : (a b : ℕ) → a ≢ b → (a == b) ≡ false
other_hash a b h = ground arith

replay_conflict :
    (env : Env) (hash : ℕ) (m : IdempotencyKey) (s : Store)
    → m.request_fingerprint ≢ hash
    → replay env hash m s ≡ (raised idempotency_conflict, s)
unfolding replay
replay_conflict env hash m s h = rw (other_hash m.request_fingerprint hash h) refl

raised_returned :
    {e : NetworkError} {r : CaptureCreateResponse}
    → Path (Outcome CaptureCreateResponse) (raised e) (returned r)
    → ⊥
raised_returned k = cc

answer_names :
    (env : Env) (c : NetworkCapture) (s : Store) (r : CaptureCreateResponse)
    → (respond env c s).0 ≡ returned r
    → r.capture_id ≡ c.id
unfolding respond create_response
answer_names env c s r k =
    elim (Bool-cases (same_status c.status pending_upload && not env.signing_up)) [
      | inl e ↦ absurd (raised_returned (rw e at k))
      | inr e ↦ sym (same_answer (create_response c) r (rw e at k))
    ]

respond_names :
    (env : Env) (c : NetworkCapture) (result : Outcome NoValue) (s : Store)
    (r : CaptureCreateResponse)
    → (elim result as (λ x. Outcome CaptureCreateResponse × Store) [
      | returned u ↦ respond env c s
      | raised e ↦ (raised e, s)
    ]).0
      ≡ returned r
    → r.capture_id ≡ c.id
respond_names env c (raised e) s r k = cc
respond_names env c (returned u) s r k = answer_names env c s r k

replay_names :
    (env : Env) (hash : ℕ) (m : IdempotencyKey) (s : Store) (r : CaptureCreateResponse)
    → (replay env hash m s).0 ≡ returned r
    → r.capture_id ≡ m.capture_id
unfolding replay get_capture on_first publish_and_respond
replay_names env hash m s r k = elim (Bool-cases (m.request_fingerprint == hash)) [
  | inr e ↦ absurd (raised_returned (rw e at k))
  | inl e ↦ elim (Option-cases (get_capture m.capture_id s)) [
    | inl f ↦ absurd (raised_returned (rw (e, f) at k))
    | inr (c, f) ↦
        respond_names env (reopen_expired c) _ _ r (rw (e, f) at k)
        ∙ reopened_id c
        ∙ found_id m.capture_id s.captures c f
  ]
]

-- A request that was answered is idempotent under its key. Sent again in the store that the answer
-- left, with any settings and any other calls in between: a request with another fingerprint is
-- refused as a conflict and changes nothing, and an answer names the capture of the first answer.
pub replayed_request :
    (hash : CaptureCreate → ℕ) (env env' : Env) (key : ℕ) (request request' : CaptureCreate)
    (others others' : Store → Store) (s : Store) (r : CaptureCreateResponse)
    → (create hash env key request others s).0 ≡ returned r
    → let s' = (create hash env key request others s).1 in
      (hash request ≢ hash request'
        → create hash env' key request' others' s' ≡ (raised idempotency_conflict, s'))
      × ((r' : CaptureCreateResponse)
          → (create hash env' key request' others' s').0 ≡ returned r'
          → r'.capture_id ≡ r.capture_id)
unfolding Recorded
replayed_request hash env env' key request request' others others' s r h =
    let s' = (create hash env key request others s).1 in
    let (m, (found, names, prints)) = create-Recorded hash env key request others s r h in
    (
      λ other.
          create_known hash env' key request' others' s' m found
          ∙ replay_conflict env' (hash request') m s' (λ k. other (sym prints ∙ k)),
      λ r' k.
          replay_names env' (hash request') m s' r'
            (ap (λ out. out.0) (sym (create_known hash env' key request' others' s' m found)) ∙ k)
          ∙ names,
    )
