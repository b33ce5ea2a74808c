-- ===== src/Network/Capture/Tables.antt =====
-- The table of captures under selections, updates and publications, network/repository.py and
-- network/publisher.py.
use sahabino.Common.{
  ℕ, Bool, true, ◌≡◌, ◌≢◌, refl, sym, ◌+◌, subst, ap, ◌∙◌, ◌⊎◌, inl, inr, Option, none, some, List,
  [], ◌∷◌, is_some, All, arith, Bool-cases, Option-cases, ◌&&◌, not,
}
use sahabino.Common.Dict.{lookup}
use sahabino.Network.Capture.{
  CaptureStatus, pending_upload, same_status, NetworkError, value_error, NetworkCapture, Store,
  NoValue, Outcome, returned, raised, is_dispatchable, first_where, latest_where, first_of,
  finished_later, update_where, Env, publish_ready, update_first, get_capture,
}
use sahabino.Network.Capture.Service.{
  publish_ready_if_dispatchable, publish_and_respond, respond, CaptureCreateResponse,
}
use sahabino.Network.Capture.Operations.{publish_all}
use sahabino.Network.Capture.Invariant.{Row, is_uploaded}

module _ {ℓ} (P : NetworkCapture → Type ℓ) where
  pub update_where-All :
      (test : NetworkCapture → Bool) (f : NetworkCapture → NetworkCapture)
      (cs : List NetworkCapture)
      → ((c : NetworkCapture) → test c ≡ true → P c → P (f c))
      → All P cs
      → All P (update_where test f cs)
  unfolding update_where
  update_where-All test f [] h all = tt
  update_where-All test f (c ∷ cs) h (p, all) = elim (Bool-cases (test c)) [
    | inl e ↦ rw e (h c e p, update_where-All test f cs h all)
    | inr e ↦ rw e (p, update_where-All test f cs h all)
  ]

  pub update_first-All :
      (test : NetworkCapture → Bool) (f : NetworkCapture → NetworkCapture)
      (cs : List NetworkCapture) (c : NetworkCapture)
      → first_where test cs ≡ some c
      → P (f c)
      → All P cs
      → All P (update_first test f cs)
  unfolding update_first first_where
  update_first-All test f [] c e q all = tt
  update_first-All test f (d ∷ cs) c e q (p, all) = elim (Bool-cases (test d)) [
    | inl g ↦ let same : d ≡ c = ground arith in rw (g, same) (q, all)
    | inr g ↦ rw g (p, update_first-All test f cs c (rw g at e) q all)
  ]

  pub first_where-All :
      (test : NetworkCapture → Bool) (cs : List NetworkCapture) (c : NetworkCapture)
      → first_where test cs ≡ some c
      → All P cs
      → P c
  unfolding first_where
  first_where-All test [] c e all = cc
  first_where-All test (d ∷ cs) c e (p, all) = elim (Bool-cases (test d)) [
    | inl g ↦ let same : d ≡ c = ground arith in subst P same p
    | inr g ↦ first_where-All test cs c (rw g at e) all
  ]

  first_cases :
      (c : NetworkCapture) (o : Option NetworkCapture)
      → (first_of c o ≡ c) ⊎ (o ≡ some (first_of c o))
  unfolding first_of
  first_cases c none = inl refl
  first_cases c (some d) = elim (Bool-cases (finished_later d c)) [
    | inl e ↦ rw e (inr refl)
    | inr e ↦ rw e (inl refl)
  ]

  pub latest_where-All :
      (test : NetworkCapture → Bool) (cs : List NetworkCapture) (c : NetworkCapture)
      → latest_where test cs ≡ some c
      → All P cs
      → P c × (test c ≡ true)
  unfolding latest_where
  latest_where-All test [] c e all = cc
  latest_where-All test (d ∷ cs) c e (p, all) = elim (Bool-cases (test d)) [
    | inr g ↦ latest_where-All test cs c (rw g at e) all
    | inl g ↦
        let found : first_of d (latest_where test cs) ≡ c = ground arith in
        elim (first_cases d (latest_where test cs)) [
          | inl f ↦ let same : d ≡ c = cc in (subst P same p, subst (λ x. test x ≡ true) same g)
          | inr f ↦ latest_where-All test cs c (f ∙ ap some found) all
        ]
  ]

-- What a call leaves: a table whose rows are well formed, and no `ValueError`.
pub record Sound {ℓ} {A : Type ℓ} (out : Outcome A × Store) : Type ℓ where
  pub kept : All Row out.1.captures
  pub no_value_error : out.0 ≢ raised value_error

pub publish_ready-Sound :
    (env : Env) (c : NetworkCapture) (package_name : ℕ) (s : Store)
    → is_some c.uploaded_at ≡ true
    → All Row s.captures
    → Sound (publish_ready env c package_name s)
unfolding publish_ready
publish_ready-Sound env c package_name s h all = elim (Bool-cases env.publisher_up) [
  | inl e ↦ rw (h, e) (record { kept = all; no_value_error = λ k. cc })
  | inr e ↦ rw (h, e) (record { kept = all; no_value_error = λ k. cc })
]

dispatchable_uploaded : (t : CaptureStatus) → is_dispatchable t ≡ true → is_uploaded t ≡ true
dispatchable_uploaded t h = ground arith

raised_same :
    {A B : Type 0} {e f : NetworkError}
    → Path (Outcome A) (raised e) (raised f)
    → Path (Outcome B) (raised e) (raised f)
raised_same k = cc

pub publish_if-Sound :
    (env : Env) (c : NetworkCapture) (s : Store)
    → Row c
    → All Row s.captures
    → Sound (publish_ready_if_dispatchable env c s)
unfolding publish_ready_if_dispatchable
publish_if-Sound env c s r all = elim (Bool-cases (is_dispatchable c.status)) [
  | inr e ↦ rw e (record { kept = all; no_value_error = λ k. cc })
  | inl e ↦ elim (Option-cases (lookup c.application_id s.applications)) [
    | inl f ↦ rw (e, f) (record { kept = all; no_value_error = λ k. cc })
    | inr (name, f) ↦
        rw (e, f)
          (publish_ready-Sound env c name s (r.dated (dispatchable_uploaded c.status e)) all)
  ]
]

answer-Sound :
    (env : Env) (c : NetworkCapture) (s : Store) → All Row s.captures → Sound (respond env c s)
unfolding respond
answer-Sound env c s all =
    elim (Bool-cases (same_status c.status pending_upload && not env.signing_up)) [
      | inl e ↦ rw e (record { kept = all; no_value_error = λ k. cc })
      | inr e ↦ rw e (record { kept = all; no_value_error = λ k. cc })
    ]

respond-Sound :
    (env : Env) (c : NetworkCapture) (result : Outcome NoValue) (s : Store)
    → Sound (result, s)
    → Sound {A = CaptureCreateResponse}
        (elim result [ returned u ↦ respond env c s | raised e ↦ (raised e, s) ])
respond-Sound env c (returned u) s h = answer-Sound env c s h.kept
respond-Sound env c (raised e) s h = record {
  kept = h.kept;
  no_value_error = λ k. h.no_value_error (raised_same k);
}

pub publish_and_respond-Sound :
    (env : Env) (c : NetworkCapture) (s : Store)
    → Row c
    → All Row s.captures
    → Sound (publish_and_respond env c s)
unfolding publish_and_respond
publish_and_respond-Sound env c s r all =
    respond-Sound env c (publish_ready_if_dispatchable env c s).0
      (publish_ready_if_dispatchable env c s).1 (publish_if-Sound env c s r all)

publish_ready_captures :
    (env : Env) (c : NetworkCapture) (package_name : ℕ) (s : Store)
    → (publish_ready env c package_name s).1.captures ≡ s.captures
unfolding publish_ready
publish_ready_captures env c package_name s = elim (Bool-cases (is_some c.uploaded_at)) [
  | inr e ↦ rw e refl
  | inl e ↦ elim (Bool-cases env.publisher_up) [ inl f ↦ rw (e, f) refl | inr f ↦ rw (e, f) refl ]
]

pub publish_ready-Rows :
    (env : Env) (c : NetworkCapture) (package_name : ℕ) (s : Store)
    → All Row s.captures
    → All Row (publish_ready env c package_name s).1.captures
publish_ready-Rows env c package_name s all =
    subst (All Row) (sym (publish_ready_captures env c package_name s)) all

-- What other calls do keeps the rows well formed.
abbrev pub KeepsRows : (Store → Store) → Type 0
KeepsRows others = (s : Store) → All Row s.captures → All Row (others s).captures

continue-Rows :
    (env : Env) (others : ℕ → Store → Store) (n : ℕ) (rest : List (ℕ × ℕ))
    (result : Outcome NoValue) (s : Store)
    → All Row s.captures
    → All Row (publish_all env others n rest s).1.captures
    → All Row
        (elim result as (λ x. Outcome NoValue × Store) [
          | returned u ↦ publish_all env others n rest s
          | raised e ↦ (raised e, s)
        ]).1.captures
continue-Rows env others n rest (returned u) s all later = later
continue-Rows env others n rest (raised e) s all later = all

pub publish_all-Rows :
    (env : Env) (others : ℕ → Store → Store) (n : ℕ) (chosen : List (ℕ × ℕ)) (s : Store)
    → ((k : ℕ) → KeepsRows (others k))
    → All Row s.captures
    → All Row (publish_all env others n chosen s).1.captures
unfolding publish_all
publish_all-Rows env others n [] s keeps all = all
publish_all-Rows env others n ((capture_id, name) ∷ rest) s keeps all =
    let t = others n s in
    let before = keeps n s all in
    elim (Option-cases (get_capture capture_id t)) [
      | inl e ↦ rw (e, publish_all) (publish_all-Rows env others (n + 1) rest t keeps before)
      | inr (c, e) ↦
          let kept = publish_ready-Rows env c name t before in
          rw (e, publish_all)
            (continue-Rows env others (n + 1) rest (publish_ready env c name t).0
              (publish_ready env c name t).1 kept
              (publish_all-Rows env others (n + 1) rest (publish_ready env c name t).1 keeps kept))
    ]
