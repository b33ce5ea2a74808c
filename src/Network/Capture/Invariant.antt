-- ===== src/Network/Capture/Invariant.antt =====
-- What every row of the table of captures keeps, `NetworkCapture` of network/models.py.
use sahabino.Common.{
  ℕ, Bool, true, false, ◌≡◌, refl, ap, inl, inr, ◌&&◌, not, some, ◌==◌, is_some, arith, Bool-cases,
  Option-cases,
}
use sahabino.Network.Capture.{
  CaptureStatus, pending_upload, uploaded, analyzing, analyzed, failed, expired, object_key_for,
  NetworkCapture, Store, same_status, head_object, Env,
}
use sahabino.Network.Capture.Service.{reopen_expired}
use sahabino.Network.Capture.Completion.{mark_uploaded, write_uploaded}
use sahabino.Network.Capture.Operations.{
  retry_row, expire, mark_deleted, is_recent, reconcile_row, reconcile_pending,
}
use sahabino.Network.Capture.Attempts.{
  is_claimable, claimed_row, owns, owns_hash, released_row, verified_row, analyzed_row, failed_row,
}

-- The states behind an upload.
abbrev pub is_uploaded : CaptureStatus → Bool
is_uploaded uploaded = true
is_uploaded analyzing = true
is_uploaded analyzed = true
is_uploaded failed = true
is_uploaded _ = false

-- The object key is that of the declared hash; a capture that was uploaded knows when; a verified hash
-- is the declared one; and an analyzed capture is verified.
pub record Row (c : NetworkCapture) : Type 0 where
  pub keyed : c.object_key ≡ object_key_for c.expected_sha256 c.capture_format
  pub dated : is_uploaded c.status ≡ true → is_some c.uploaded_at ≡ true
  pub hashed : (v : ℕ) → c.verified_sha256 ≡ some v → v ≡ c.expected_sha256
  pub verified : same_status c.status analyzed ≡ true → c.verified_sha256 ≡ some c.expected_sha256

pub reopened-Row : (c : NetworkCapture) → Row c → Row (reopen_expired c)
unfolding reopen_expired
reopened-Row c r = elim (Bool-cases (same_status c.status expired)) [
  | inl e ↦
      rw e (record { keyed = r.keyed; dated = λ h. cc; hashed = λ v h. cc; verified = λ h. cc })
  | inr e ↦ rw e r
]

pub uploaded_before : (s : CaptureStatus) → same_status s uploaded ≡ true → is_uploaded s ≡ true
uploaded_before s h = ground arith

pub analyzing_before : (s : CaptureStatus) → same_status s analyzing ≡ true → is_uploaded s ≡ true
analyzing_before s h = ground arith

pub failed_before : (s : CaptureStatus) → same_status s failed ≡ true → is_uploaded s ≡ true
failed_before s h = ground arith

pub uploaded-Row : (now : ℕ) (c : NetworkCapture) → Row c → Row (mark_uploaded now c)
unfolding mark_uploaded
uploaded-Row now c r = record {
  keyed = r.keyed;
  dated = λ h. refl;
  hashed = r.hashed;
  verified = λ h. cc;
}

pub written-Row : (now : ℕ) (loaded c : NetworkCapture) → Row c → Row (write_uploaded now loaded c)
unfolding write_uploaded
written-Row now loaded c r = record {
  keyed = r.keyed;
  dated = λ h. refl;
  hashed = r.hashed;
  verified = λ h. cc;
}

pub expired-Row : (code : ℕ) (c : NetworkCapture) → Row c → Row (expire code c)
expired-Row code c r = record {
  keyed = r.keyed;
  dated = λ h. cc;
  hashed = r.hashed;
  verified = λ h. cc;
}

pub deleted-Row : (now : ℕ) (c : NetworkCapture) → Row c → Row (mark_deleted now c)
unfolding mark_deleted
deleted-Row now c r = record {
  keyed = r.keyed;
  dated = r.dated;
  hashed = r.hashed;
  verified = r.verified;
}

-- A capture that was uploaded goes to another state behind the upload.
pub retried-Row :
    (c : NetworkCapture) → same_status c.status failed ≡ true → Row c → Row (retry_row c)
unfolding retry_row
retried-Row c h r = record {
  keyed = r.keyed;
  dated = λ k. r.dated (failed_before c.status h);
  hashed = r.hashed;
  verified = λ k. cc;
}

pub claimed-Row :
    (capture_id stale t : ℕ) (c : NetworkCapture)
    → is_claimable capture_id stale c ≡ true
    → Row c
    → Row (claimed_row t c)
unfolding is_claimable claimed_row
claimed-Row capture_id stale t c h r =
    let before : is_uploaded c.status ≡ true =
      ground (arith, uploaded_before c.status, analyzing_before c.status) in
    record { keyed = r.keyed; dated = λ k. r.dated before; hashed = r.hashed; verified = λ k. cc }

owns_analyzing :
    (capture_id t : ℕ) (c : NetworkCapture)
    → owns capture_id t c ≡ true
    → is_uploaded c.status ≡ true
unfolding owns
owns_analyzing capture_id t c h = ground (arith, analyzing_before c.status)

owner_of_hash :
    (capture_id sha256 t : ℕ) (c : NetworkCapture)
    → owns_hash capture_id sha256 t c ≡ true
    → (owns capture_id t c ≡ true) × (sha256 ≡ c.expected_sha256)
unfolding owns_hash
owner_of_hash capture_id sha256 t c h = ground arith

pub released-Row :
    (capture_id t : ℕ) (c : NetworkCapture)
    → owns capture_id t c ≡ true
    → Row c
    → Row (released_row c)
unfolding released_row
released-Row capture_id t c h r = record {
  keyed = r.keyed;
  dated = λ k. r.dated (owns_analyzing capture_id t c h);
  hashed = r.hashed;
  verified = λ k. cc;
}

pub failed-Row :
    (capture_id t code now : ℕ) (c : NetworkCapture)
    → owns capture_id t c ≡ true
    → Row c
    → Row (failed_row code now c)
unfolding failed_row
failed-Row capture_id t code now c h r = record {
  keyed = r.keyed;
  dated = λ k. r.dated (owns_analyzing capture_id t c h);
  hashed = r.hashed;
  verified = λ k. cc;
}

pub verified-Row :
    (capture_id sha256 t : ℕ) (c : NetworkCapture)
    → owns_hash capture_id sha256 t c ≡ true
    → Row c
    → Row (verified_row sha256 c)
unfolding verified_row
verified-Row capture_id sha256 t c h r =
    let same = (owner_of_hash capture_id sha256 t c h).1 in
    record { keyed = r.keyed; dated = r.dated; hashed = λ v k. cc; verified = λ k. ap some same }

pub analyzed-Row :
    (capture_id sha256 t now : ℕ) (c : NetworkCapture)
    → owns_hash capture_id sha256 t c ≡ true
    → Row c
    → Row (analyzed_row sha256 now c)
unfolding analyzed_row
analyzed-Row capture_id sha256 t now c h r =
    let both = owner_of_hash capture_id sha256 t c h in
    record {
      keyed = r.keyed;
      dated = λ k. r.dated (owns_analyzing capture_id t c both.0);
      hashed = λ v k. ground (arith, both.1);
      verified = λ k. ap some both.1;
    }

pub reconciled-Row :
    (env : Env) (s : Store) (c : NetworkCapture) → Row c → Row (reconcile_row env s c)
unfolding reconcile_row reconcile_pending
reconciled-Row env s c r =
    elim (Bool-cases (same_status c.status pending_upload && not (is_recent env c))) [
      | inr e ↦ rw e r
      | inl e ↦ elim (Option-cases (head_object c.object_key s.objects)) [
        | inl f ↦ rw (e, f, reconcile_pending) (expired-Row _ c r)
        | inr (size, f) ↦ elim (Bool-cases (size == c.capture_size_bytes)) [
          | inl g ↦ rw (e, f, g, reconcile_pending) (uploaded-Row env.now c r)
          | inr g ↦ rw (e, f, g, reconcile_pending) (expired-Row _ c r)
        ]
      ]
    ]
