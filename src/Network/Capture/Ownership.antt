-- ===== src/Network/Capture/Ownership.antt =====
-- Attempts and the captures that they own, `AnalyzerRepository` of network/worker.py.
use sahabino.Common.{
  ℕ, ◌<◌, ◌≤◌, Bool, true, false, ◌≡◌, ◌≢◌, refl, sym, ◌∙◌, ap, inl, inr, Option, none, some, List,
  [], ◌∷◌, ◌==◌, leb, is_some, All, arith, count_of, Bool-cases,
}
use sahabino.Network.Capture.{
  analyzing, analyzer_consistency, NetworkCapture, Store, raised, first_where, update_where, has_id,
}
use sahabino.Network.Capture.Attempts.{
  claim_attempt, release_attempt, mark_verified, mark_analyzed, mark_failed, require_update,
  is_claimable, claimed_row, owns, owns_hash,
}

nothing_first :
    (test : NetworkCapture → Bool) (cs : List NetworkCapture)
    → All (λ c. test c ≡ false) cs
    → first_where test cs ≡ none
unfolding first_where
nothing_first test [] all = refl
nothing_first test (c ∷ cs) (h, all) = rw h (nothing_first test cs all)

bool_clash : true ≢ false
bool_clash h = cc

nothing_some : {o : Option NetworkCapture} → o ≡ none → is_some o ≢ true
nothing_some e h = bool_clash (sym h ∙ ap is_some e)

nothing_updated :
    (test : NetworkCapture → Bool) (f : NetworkCapture → NetworkCapture) (cs : List NetworkCapture)
    → All (λ c. test c ≡ false) cs
    → update_where test f cs ≡ cs
unfolding update_where
nothing_updated test f [] all = refl
nothing_updated test f (c ∷ cs) (h, all) = rw h (ap (λ ds. c ∷ ds) (nothing_updated test f cs all))

-- The row belongs to the attempt that started at t, if it is that of the capture.
Held : ℕ → ℕ → NetworkCapture → Type 0
Held capture_id t c =
    has_id capture_id c ≡ true → (c.status ≡ analyzing) × (c.analysis_started_at ≡ some t)

other_rows :
    (capture_id stale t : ℕ) (cs : List NetworkCapture)
    → count_of (has_id capture_id) cs ≡ 0
    → (All (λ c. is_claimable capture_id stale c ≡ false) cs)
      × (All (Held capture_id t) (update_where (is_claimable capture_id stale) (claimed_row t) cs))
unfolding count_of is_claimable Held update_where
other_rows capture_id stale t [] h = (tt, tt)
other_rows capture_id stale t (c ∷ cs) h =
    let other : has_id capture_id c ≡ false = ground arith in
    let rest = other_rows capture_id stale t cs (omega arith) in
    rw other ((refl, rest.0), (λ k. cc, rest.1))

claimable_id :
    (capture_id stale : ℕ) (c : NetworkCapture)
    → is_claimable capture_id stale c ≡ true
    → has_id capture_id c ≡ true
unfolding is_claimable
claimable_id capture_id stale c h = ground arith

fresh_row : (capture_id t : ℕ) (c : NetworkCapture) → Held capture_id t (claimed_row t c)
unfolding Held claimed_row
fresh_row capture_id t c k = (refl, refl)

claimed-Held :
    (capture_id stale t : ℕ) (cs : List NetworkCapture)
    → count_of (has_id capture_id) cs ≤ 1
    → is_some (first_where (is_claimable capture_id stale) cs) ≡ true
    → All (Held capture_id t) (update_where (is_claimable capture_id stale) (claimed_row t) cs)
unfolding count_of first_where update_where Held
claimed-Held capture_id stale t [] h e = tt
claimed-Held capture_id stale t (c ∷ cs) h e = elim (Bool-cases (is_claimable capture_id stale c)) [
  | inl f ↦
      let mine = claimable_id capture_id stale c f in
      let rest : count_of (has_id capture_id) cs ≡ 0 = ground (arith, h, mine) in
      rw f (fresh_row capture_id t c, (other_rows capture_id stale t cs rest).1)
  | inr f ↦ elim (Bool-cases (has_id capture_id c)) [
    | inr g ↦ rw f (
      λ k. absurd (bool_clash (sym k ∙ g)),
      claimed-Held capture_id stale t cs (ground (arith, h, g)) (rw f at e),
    )
    | inl g ↦
        let rest : count_of (has_id capture_id) cs ≡ 0 = ground (arith, h, g) in
        let none_left = nothing_first _ cs (other_rows capture_id stale t cs rest).0 in
        absurd (nothing_some none_left (rw f at e))
  ]
]

same_false : (a b : ℕ) → a ≢ b → (a == b) ≡ false
same_false a b h = ground arith

not_owned :
    (capture_id t u : ℕ) (c : NetworkCapture)
    → u ≢ t
    → Held capture_id t c
    → owns capture_id u c ≡ false
unfolding owns Held
not_owned capture_id t u c h held = elim (Bool-cases (has_id capture_id c)) [
  | inr e ↦ rw e refl
  | inl e ↦ let mine = held e in rw (e, mine.0, mine.1) (same_false t u (λ k. h (sym k)))
]

not_hash_owned :
    (capture_id sha256 u : ℕ) (c : NetworkCapture)
    → owns capture_id u c ≡ false
    → owns_hash capture_id sha256 u c ≡ false
unfolding owns_hash
not_hash_owned capture_id sha256 u c h = rw h refl

le_false : (a b : ℕ) → b < a → leb a b ≡ false
le_false a b h = ground arith

not_claimable :
    (capture_id t stale : ℕ) (c : NetworkCapture)
    → stale < t
    → Held capture_id t c
    → is_claimable capture_id stale c ≡ false
unfolding is_claimable Held
not_claimable capture_id t stale c h held = elim (Bool-cases (has_id capture_id c)) [
  | inr e ↦ rw e refl
  | inl e ↦ let mine = held e in rw (e, mine.0, mine.1) (le_false t stale h)
]

All-map :
    {P Q : NetworkCapture → Type 0} (f : (c : NetworkCapture) → P c → Q c)
    (cs : List NetworkCapture)
    → All P cs
    → All Q cs
All-map f [] all = tt
All-map f (c ∷ cs) (p, all) = (f c p, All-map f cs all)

refused_update :
    (test : NetworkCapture → Bool) (f : NetworkCapture → NetworkCapture) (s : Store)
    → All (λ c. test c ≡ false) s.captures
    → require_update test f s ≡ (raised analyzer_consistency, s)
unfolding require_update
refused_update test f s all = rw (nothing_first test s.captures all) refl

-- A claim is exclusive. Once an attempt has claimed a capture, whose identifier is unique, no other
-- claim succeeds as long as the claim is not stale, and an attempt that started at another time can
-- neither verify, finish, fail nor release the capture: the store stays as it is.
pub claim_exclusive :
    (capture_id t stale : ℕ) (s : Store)
    → count_of (has_id capture_id) s.captures ≤ 1
    → (claim_attempt capture_id t stale s).0 ≡ true
    → (u later sha256 code now : ℕ) → u ≢ t
    → later < t
    → let s' = (claim_attempt capture_id t stale s).1 in
      ((claim_attempt capture_id u later s').0 ≡ false)
      × (mark_verified capture_id sha256 u s' ≡ (raised analyzer_consistency, s'))
      × (mark_analyzed capture_id sha256 u now s' ≡ (raised analyzer_consistency, s'))
      × (mark_failed capture_id code u now s' ≡ (raised analyzer_consistency, s'))
      × (release_attempt capture_id u s' ≡ s')
unfolding claim_attempt mark_verified mark_analyzed mark_failed release_attempt
claim_exclusive capture_id t stale s unique claimed u later sha256 code now other fresh =
    let rows = update_where (is_claimable capture_id stale) (claimed_row t) s.captures in
    let held = claimed-Held capture_id stale t s.captures unique claimed in
    let free = All-map (λ c h. not_claimable capture_id t later c fresh h) rows held in
    let lost = All-map (λ c h. not_owned capture_id t u c other h) rows held in
    let lost_hash = All-map (λ c h. not_hash_owned capture_id sha256 u c h) rows lost in
    (
      ap is_some (nothing_first (is_claimable capture_id later) rows free),
      refused_update _ _ _ lost_hash,
      refused_update _ _ _ lost_hash,
      refused_update _ _ _ lost,
      ap (λ cs. record s { captures = cs }) (nothing_updated (owns capture_id u) _ rows lost),
    )
