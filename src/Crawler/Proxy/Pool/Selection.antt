-- ===== src/Crawler/Proxy/Pool/Selection.antt =====
-- What `_select` chooses, and when it finds nothing.
use native.Mathlib.Nat.{mod-lt, mod-eq_of_lt, mod-eq-sub-mod}
use sahabino.Common.{
  ℕ, zero, suc, ◌+◌, ◌-◌, ◌%◌, ◌≤◌, ◌<◌, ◌≡◌, refl, inl, inr, Bool, true, false, not, ◌&&◌, Option,
  none, some, arith, Bool-cases, ℕ_discrete, dec_le, subst, sym, ◌∙◌, length, get_elem?,
  get_elem?-lt, get_elem?-some, ap,
}
use sahabino.Crawler.Proxy
use sahabino.Crawler.Proxy.{ProxyEndpoint}
use sahabino.Crawler.Proxy.Pool.{ProxyPool, is_excluded, put_endpoint, select_from, select}

-- The endpoint may be chosen: it is not the excluded one, and it is usable now.
abbrev pub eligible : ℕ → Option ℕ → ProxyEndpoint → Bool
eligible now excluded e = not (is_excluded excluded e.proxy_id) && (Proxy.usable e now).0

-- The index that an offset of the loop stands for.
abbrev pub slot : ProxyPool → ℕ → ℕ
slot p offset = (p.next_index + offset) % length p.endpoints

abbrev pub Skips : ProxyPool → ℕ → Option ℕ → ℕ → Type 0
Skips p now excluded index =
    (e : ProxyEndpoint) → get_elem? p.endpoints index ≡ some e → eligible now excluded e ≡ false

-- What the loop gives from the offset `low` on, up to `high`.
pub data Selects (p : ProxyPool) (now : ℕ) (excluded : Option ℕ) (low high : ℕ)
    (r : Option ℕ × ProxyPool) : Type 0 where
  exhausted :
      r ≡ (none, p)
      → ((j : ℕ) → low ≤ j → j < high → Skips p now excluded (slot p j))
      → Selects p now excluded low high r
  chosen :
      (k : ℕ) (e : ProxyEndpoint)
      → low ≤ k
      → k < high
      → ((j : ℕ) → low ≤ j → j < k → Skips p now excluded (slot p j))
      → get_elem? p.endpoints (slot p k) ≡ some e
      → eligible now excluded e ≡ true
      → r ≡ (
        some (slot p k),
        record (put_endpoint p (slot p k) (Proxy.usable e now).1) {
          next_index = (slot p k + 1) % length p.endpoints;
        },
      )
      → Selects p now excluded low high r

module _ (p : ProxyPool) (now : ℕ) (excluded : Option ℕ) (remaining offset : ℕ) (e : ProxyEndpoint)
    (found : get_elem? p.endpoints (slot p offset) ≡ some e) where
  select_from-hit :
      eligible now excluded e ≡ true
      → select_from (suc remaining) offset p now excluded ≡ (
        some (slot p offset),
        record (put_endpoint p (slot p offset) (Proxy.usable e now).1) {
          next_index = (slot p offset + 1) % length p.endpoints;
        },
      )
  unfolding select_from Proxy.usable
  select_from-hit ok = rw (select_from, found, ok)

  select_from-miss :
      eligible now excluded e ≡ false
      → select_from (suc remaining) offset p now excluded
        ≡ select_from remaining (offset + 1) p now excluded
  unfolding select_from
  select_from-miss skip = rw (select_from, found, skip)

module _ (p : ProxyPool) (now : ℕ) (excluded : Option ℕ) where
  skip-extend :
      (low k : ℕ)
      → Skips p now excluded (slot p low)
      → ((j : ℕ) → low + 1 ≤ j → j < k → Skips p now excluded (slot p j))
      → (j : ℕ) → low ≤ j
      → j < k
      → Skips p now excluded (slot p j)
  skip-extend low k here later j le lt = elim (ℕ_discrete low j) [
    | yes e ↦ subst (λ i. Skips p now excluded (slot p i)) e here
    | no ne ↦ later j (omega arith) lt
  ]

  Skips-of :
      (offset : ℕ) (e : ProxyEndpoint)
      → get_elem? p.endpoints (slot p offset) ≡ some e
      → eligible now excluded e ≡ false
      → Skips p now excluded (slot p offset)
  Skips-of offset e found skip e' found' =
      let same : e ≡ e' = cc in subst (λ x. eligible now excluded x ≡ false) same skip

  Selects-later :
      (low high : ℕ) (r : Option ℕ × ProxyPool)
      → Skips p now excluded (slot p low)
      → Selects p now excluded (low + 1) high r
      → Selects p now excluded low high r
  Selects-later low high r here (exhausted e s) = exhausted e (skip-extend low high here s)
  Selects-later low high r here (chosen k e le lt s g ok eq) =
      chosen k e (omega arith) lt (skip-extend low k here s) g ok eq

  select_from-Selects :
      (remaining offset high : ℕ)
      → (0 < remaining → 0 < length p.endpoints)
      → offset + remaining ≡ high
      → Selects p now excluded offset high (select_from remaining offset p now excluded)
  unfolding select_from
  select_from-Selects zero offset high n h = exhausted refl (λ j le lt. absurd (omega arith))
  select_from-Selects (suc remaining) offset high n h =
      let (e, found) = get_elem?-lt p.endpoints (slot p offset) (mod-lt _ (n (omega arith))) in
      elim (Bool-cases (eligible now excluded e)) [
        | inl ok ↦
            chosen offset e (omega arith) (omega arith) (λ j le lt. absurd (omega arith)) found ok
              (select_from-hit p now excluded remaining offset e found ok)
        | inr skip ↦
            subst (Selects p now excluded offset high)
              (sym (select_from-miss p now excluded remaining offset e found skip))
              (Selects-later offset high _ (Skips-of offset e found skip) (
                select_from-Selects remaining (offset + 1) high (λ _. n (omega arith))
                  (omega arith)))
      ]

  -- `_select` takes the first eligible endpoint in round-robin order from `_next_index`, ends its
  -- cooldown if that is over, and moves `_next_index` behind it; if none of the offsets has an
  -- eligible endpoint it finds nothing, and the pool is what it was.
  pub select-Selects : Selects p now excluded 0 (length p.endpoints) (select p now excluded)
  unfolding select
  select-Selects =
      select_from-Selects (length p.endpoints) 0 (length p.endpoints) (λ h. h) (omega arith)

  -- Every index is the slot of an offset below the number of endpoints.
  slot-covers :
      (i : ℕ)
      → i < length p.endpoints
      → p.next_index < length p.endpoints
      → (j : ℕ) × (j < length p.endpoints) × (slot p j ≡ i)
  slot-covers i lt n = elim (dec_le p.next_index i) [
    | yes le ↦ (
      i - p.next_index,
      omega arith,
      ap (λ (t : ℕ). t % length p.endpoints) (omega arith) ∙ mod-eq_of_lt lt,
    )
    | no gt ↦ (
      i + length p.endpoints - p.next_index,
      omega arith,
      ap (λ (t : ℕ). t % length p.endpoints) (omega arith)
          ∙ mod-eq-sub-mod {n = i + length p.endpoints} {m = length p.endpoints} (omega arith)
          ∙ ap (λ (t : ℕ). t % length p.endpoints) (omega arith)
          ∙ mod-eq_of_lt lt,
    )
  ]

  -- While `_next_index` is in range, an eligible endpoint anywhere in the pool makes `_select` find
  -- one.
  pub select_finds :
      (i : ℕ) (e : ProxyEndpoint)
      → p.next_index < length p.endpoints
      → get_elem? p.endpoints i ≡ some e
      → eligible now excluded e ≡ true
      → (index : ℕ) × ((select p now excluded).0 ≡ some index)
  select_finds i e n found ok = found_or select-Selects
    where
      found_or :
          Selects p now excluded 0 (length p.endpoints) (select p now excluded)
          → (index : ℕ) × ((select p now excluded).0 ≡ some index)
      found_or (exhausted eq skips) =
          let (j, lt, at) = slot-covers i (get_elem?-some p.endpoints i e found) n in
          let skip =
            skips j (omega arith) lt e
              (subst (λ x. get_elem? p.endpoints x ≡ some e) (sym at) found) in
          absurd (cc)
      found_or (chosen k e' le lt s g ok' eq) =
          (slot p k, ap (λ (r : Option ℕ × ProxyPool). r.0) eq)
