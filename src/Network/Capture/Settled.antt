-- ===== src/Network/Capture/Settled.antt =====
-- The offsets of ready events, `NetworkAnalyzerWorker.process_next` of network/worker.py.
use sahabino.Common.{
  ℕ, ◌-◌, Bool, true, ◌≡◌, refl, sym, ◌∙◌, subst, ap, ◌⊎◌, inl, inr, ◌&&◌, some, List, [], ◌∷◌,
  is_some, arith, Bool-cases, Option-cases,
}
use sahabino.Common.Dict.{lookup}
use sahabino.Network.Capture.{
  NetworkError, runtime_error, NetworkCapture, Store, NoValue, Outcome, returned, raised,
  is_terminal, first_where, get_capture, update_where, has_id, Env,
}
use sahabino.Network.Capture.Attempts.{
  claim_attempt, mark_verified, mark_analyzed, mark_failed, require_update, owns, owns_hash,
  analyzed_row, failed_row,
}
use sahabino.Network.Capture.Worker.{
  CaptureReady, event, Analysis, verified, terminal, object_missing, transient, Others, Ended,
  committed, left, process_next, start_attempt, run_attempt, publish_verified, finish_analysis,
  fail_and_commit, release_and_raise, publish_analysis, load_and_validate, matches_event,
}
use sahabino.Network.Capture.Keys.{found_id}

-- The capture has a row that is analyzed, failed or expired.
abbrev pub is_settled : ℕ → NetworkCapture → Bool
is_settled capture_id c = has_id capture_id c && is_terminal c.status

-- If the offset is committed, the capture is settled.
Settled : ℕ → Ended × Store → Type 0
Settled capture_id out =
    out.0 ≡ committed → is_some (first_where (is_settled capture_id) out.1.captures) ≡ true

updated_found :
    (test goal : NetworkCapture → Bool) (f : NetworkCapture → NetworkCapture)
    (cs : List NetworkCapture)
    → ((c : NetworkCapture) → test c ≡ true → goal (f c) ≡ true)
    → is_some (first_where test cs) ≡ true
    → is_some (first_where goal (update_where test f cs)) ≡ true
unfolding first_where update_where
updated_found test goal f [] h e = e
updated_found test goal f (c ∷ cs) h e = elim (Bool-cases (test c)) [
  | inl g ↦ rw (g, h c g) refl
  | inr g ↦ elim (Bool-cases (goal c)) [
    | inl k ↦ rw (g, k) refl
    | inr k ↦ rw (g, k) (updated_found test goal f cs h (rw g at e))
  ]
]

owned_id :
    (capture_id t : ℕ) (c : NetworkCapture)
    → owns capture_id t c ≡ true
    → has_id capture_id c ≡ true
unfolding owns
owned_id capture_id t c h = ground arith

hash_owned_id :
    (capture_id sha256 t : ℕ) (c : NetworkCapture)
    → owns_hash capture_id sha256 t c ≡ true
    → has_id capture_id c ≡ true
unfolding owns_hash owns
hash_owned_id capture_id sha256 t c h = ground arith

left_Settled : (capture_id : ℕ) (e : NetworkError) (s : Store) → Settled capture_id (left e, s)
unfolding Settled
left_Settled capture_id e s h = cc

fail_and_commit-Settled :
    (env : Env) (others : Others) (capture_id code t : ℕ) (s : Store)
    → Settled capture_id (fail_and_commit env others capture_id code t s)
unfolding fail_and_commit mark_failed require_update failed_row Settled
fail_and_commit-Settled env others capture_id code t s =
    let cs = (others.before_finish s).captures in
    elim (Bool-cases (is_some (first_where (owns capture_id t) cs))) [
      | inr e ↦ rw (e, fail_and_commit) (λ h. cc)
      | inl e ↦
          rw (e, fail_and_commit)
            (λ h.
              rw (e, mark_failed, require_update)
                (updated_found (owns capture_id t) (is_settled capture_id) (failed_row code env.now)
                  cs (λ c k. rw (owned_id capture_id t c k) refl) e))
    ]

finish_analysis-Settled :
    (env : Env) (others : Others) (capture_id sha256 t : ℕ) (s : Store)
    → Settled capture_id (finish_analysis env others capture_id sha256 t s)
unfolding finish_analysis mark_analyzed require_update analyzed_row Settled release_and_raise
finish_analysis-Settled env others capture_id sha256 t s =
    let cs = (others.before_analyzed s).captures in
    elim (Bool-cases (is_some (first_where (owns_hash capture_id sha256 t) cs))) [
      | inr e ↦ rw (e, finish_analysis) (λ h. cc)
      | inl e ↦
          rw (e, finish_analysis)
            (λ h.
              rw (e, mark_analyzed, require_update)
                (updated_found (owns_hash capture_id sha256 t) (is_settled capture_id)
                  (analyzed_row sha256 env.now) cs
                  (λ c k. rw (hash_owned_id capture_id sha256 t c k) refl) e))
    ]

-- A step that raises releases the capture; one that returns goes on.
next-Settled :
    (others : Others) (capture_id t : ℕ) (result : Outcome NoValue) (s : Store)
    (next : Ended × Store)
    → Settled capture_id next
    → Settled capture_id
        (elim result [ returned u ↦ next | raised e ↦ release_and_raise others capture_id t e s ])
unfolding release_and_raise Settled
next-Settled others capture_id t (returned u) s next h k = h k
next-Settled others capture_id t (raised e) s next h k = cc

publish_verified-Settled :
    (env : Env) (others : Others) (capture_id sha256 t : ℕ) (s : Store)
    → Settled capture_id (publish_verified env others capture_id sha256 t s)
unfolding publish_verified
publish_verified-Settled env others capture_id sha256 t s =
    let out = publish_analysis env capture_id (others.before_published s) in
    next-Settled others capture_id t out.0 out.1
      (finish_analysis env others capture_id sha256 t out.1)
      (finish_analysis-Settled env others capture_id sha256 t out.1)

run_attempt-Settled :
    (env : Env) (others : Others) (analysis : Analysis) (capture_id t : ℕ) (s : Store)
    → Settled capture_id (run_attempt env others analysis capture_id t s)
unfolding run_attempt release_and_raise
run_attempt-Settled env others (terminal code) i t s = fail_and_commit-Settled env others i code t s
run_attempt-Settled env others object_missing i t s = fail_and_commit-Settled env others i _ t s
run_attempt-Settled env others transient i t s = left_Settled i runtime_error _
run_attempt-Settled env others (verified sha256) i t s =
    let out = mark_verified i sha256 t (others.before_verified s) in
    next-Settled others i t out.0 out.1 (publish_verified env others i sha256 t out.1)
      (publish_verified-Settled env others i sha256 t out.1)

settled_found :
    (capture_id : ℕ) (cs : List NetworkCapture) (c : NetworkCapture)
    → first_where (has_id capture_id) cs ≡ some c
    → is_terminal c.status ≡ true
    → is_some (first_where (is_settled capture_id) cs) ≡ true
unfolding first_where
settled_found capture_id [] c e h = cc
settled_found capture_id (d ∷ cs) c e h = elim (Bool-cases (has_id capture_id d)) [
  | inl g ↦
      let same : d ≡ c = ground arith in
      let ends : is_terminal d.status ≡ true =
        subst (λ x. is_terminal x.status ≡ true) (sym same) h in
      rw (g, ends) refl
  | inr g ↦ rw g (settled_found capture_id cs c (rw g at e) h)
]

start_attempt-Settled :
    (env : Env) (others : Others) (analysis : Analysis) (capture_id : ℕ) (c : NetworkCapture)
    (s : Store)
    → first_where (has_id capture_id) s.captures ≡ some c
    → Settled capture_id (start_attempt env others analysis c s)
unfolding start_attempt Settled
start_attempt-Settled env others analysis capture_id c s e =
    let id_of : c.id ≡ capture_id = found_id capture_id s.captures c e in
    elim (Bool-cases (is_terminal c.status)) [
      | inl g ↦ rw g (λ h. settled_found capture_id s.captures c e g)
      | inr g ↦
          elim (Bool-cases ((claim_attempt c.id env.now (env.now - env.stale_analysis) s).0)) [
            | inr k ↦ rw (g, k) (λ h. cc)
            | inl k ↦
                rw (g, k)
                  (subst
                    (λ i. Settled i (
                      run_attempt env others analysis c.id env.now
                        (claim_attempt c.id env.now (env.now - env.stale_analysis) s).1))
                    id_of (run_attempt-Settled env others analysis c.id env.now _))
          ]
    ]

raised_returned :
    {e : NetworkError} {c : NetworkCapture}
    → Path (Outcome NetworkCapture) (raised e) (returned c)
    → ⊥
raised_returned k = cc

captured : NetworkCapture → Outcome NetworkCapture → NetworkCapture
captured d (returned c) = c
captured d (raised e) = d

returned_same :
    {c d : NetworkCapture} → Path (Outcome NetworkCapture) (returned c) (returned d) → c ≡ d
unfolding captured
returned_same {c = c} k = ap (captured c) k

loaded_first :
    (e : CaptureReady) (s : Store) (c : NetworkCapture)
    → load_and_validate e s ≡ returned c
    → first_where (has_id e.capture_id) s.captures ≡ some c
unfolding load_and_validate get_capture
loaded_first e s c h = elim (Option-cases (get_capture e.capture_id s)) [
  | inl f ↦ absurd (raised_returned (rw (f, load_and_validate) at h))
  | inr (d, f) ↦ elim (Option-cases (lookup d.application_id s.applications)) [
    | inl g ↦ absurd (raised_returned (rw (f, g, load_and_validate) at h))
    | inr (name, g) ↦ elim (Bool-cases (matches_event e d name)) [
      | inr k ↦ absurd (raised_returned (rw (f, g, k, load_and_validate) at h))
      | inl k ↦ f ∙ ap some (returned_same (rw (f, g, k, load_and_validate) at h))
    ]
  ]
]

Outcome-cases :
    (o : Outcome NetworkCapture)
    → ((e : NetworkError) × (o ≡ raised e)) ⊎ ((c : NetworkCapture) × (o ≡ returned c))
Outcome-cases (returned c) = inr (c, refl)
Outcome-cases (raised e) = inl (e, refl)

-- The offset of a ready event is committed only if its capture is analyzed, failed or expired then,
-- whatever the analysis comes to, whether or not storage and broker answer, and whatever other
-- workers commit between the transactions.
pub committed_settled :
    (env : Env) (others : Others) (analysis : Analysis) (e : CaptureReady) (s : Store)
    → let out = process_next env others analysis (some (event e)) s in
      out.0 ≡ committed → is_some (first_where (is_settled e.capture_id) out.1.captures) ≡ true
unfolding process_next Settled
committed_settled env others analysis e s = elim (Outcome-cases (load_and_validate e s)) [
  | inl (error, f) ↦ rw (f, process_next) (λ h. cc)
  | inr (c, f) ↦
      rw (f, process_next)
        (start_attempt-Settled env others analysis e.capture_id c s (loaded_first e s c f))
]
