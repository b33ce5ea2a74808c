-- ===== src/Crawler/Proxy/Pool/Rotation.antt =====
-- `rotate` gives up a lease and takes another egress.
use sahabino.Common.{
  ℕ, ◌≡◌, sym, ◌∙◌, subst, ◌≢◌, inl, inr, Bool, false, not, ◌&&◌, Option, none, some, arith,
  Bool-cases, Option-cases, length, get_elem?, get_elem?-snoc, get_elem?-set, get_elem?-some,
  is_some,
}
use sahabino.Common.Dict.{lookup-remove}
use sahabino.Crawler.Proxy
use sahabino.Crawler.Proxy.{ProxyEndpoint, ProxyLease}
use sahabino.Crawler.Proxy.Pool.{
  ProxyPool, select, held, grant, acquire_new, acquire, release, rotate, proxy_id,
}
use sahabino.Crawler.Proxy.Pool.Selection.{Selects, exhausted, chosen, select-Selects, slot}
use sahabino.Crawler.Proxy.Pool.Ownership.{IsOwned, select-heap}

-- A released context holds nothing.
held-release :
    (p : ProxyPool) (id : ℕ) (l : ProxyLease)
    → IsOwned p
    → get_elem? p.heap id ≡ some l
    → l.released ≡ false
    → held (release p id) l.context_id ≡ none
unfolding held release
held-release p id l v found free =
    ground (arith, v.recorded id l, lookup-remove l.context_id l.context_id p.leases)

usable-proxy_id : (e : ProxyEndpoint) (now : ℕ) → (Proxy.usable e now).1.proxy_id ≡ e.proxy_id
unfolding Proxy.usable
usable-proxy_id e now = ground arith

-- The proxy at an index of the pool.
abbrev proxy_at : ProxyPool → Option ℕ → Option ℕ
proxy_at p none = none
proxy_at p (some index) = elim (get_elem? p.endpoints index) [
  | none ↦ none
  | some e ↦ some e.proxy_id
]

granted_proxy :
    (p : ProxyPool) (c now : ℕ) (endpoint : Option ℕ)
    → proxy_id (grant p c endpoint now).1 (length p.heap) ≡ proxy_at p endpoint
unfolding grant proxy_id
granted_proxy p c now endpoint = ground (
  arith,
  get_elem?-snoc p.heap
      (record { context_id = c; endpoint = endpoint; acquired_at = now; released = false })
      (length p.heap),
)

-- `_select` finds no excluded proxy.
selected_proxy :
    (p : ProxyPool) (now x : ℕ) (r : Option ℕ × ProxyPool)
    → Selects p now (some x) 0 (length p.endpoints) r
    → proxy_at r.1 r.0 ≢ some x
selected_proxy p now x r (exhausted e s) = rw e (λ bad. cc)
selected_proxy p now x r (chosen k e le lt s found ok eq) = rw eq (λ bad. ground (
  arith,
  get_elem?-set p.endpoints (slot p k) (slot p k) (Proxy.usable e now).1,
  get_elem?-some p.endpoints (slot p k) e found,
  usable-proxy_id e now,
))

module _ (p : ProxyPool) (c now x : ℕ) where
  abbrev raises : Bool
  raises = not (is_some (select p now (some x)).0) && not p.direct_fallback

  acquire_new_proxy :
      (id : ℕ)
      → (acquire_new p c (some x) now).0 ≡ some id
      → proxy_id (acquire_new p c (some x) now).1 id ≢ some x
  acquire_new_proxy id got bad =
      let (endpoint, p') = select p now (some x) in
      let elsewhere =
        selected_proxy p now x (select p now (some x)) (select-Selects p now (some x)) in
      let granted = granted_proxy p' c now endpoint in
      elim (Bool-cases raises) [
        | inl e ↦ unfold acquire_new in ground arith
        | inr e ↦ elsewhere (unfold acquire_new grant in ground (arith, granted))
      ]

  acquire_new_nothing :
      (acquire_new p c (some x) now).0 ≡ none
      → (acquire_new p c (some x) now).1 ≡ (select p now (some x)).1
  unfolding acquire_new
  acquire_new_nothing got = ground arith

acquire-none :
    (p : ProxyPool) (c now : ℕ) (excluded : Option ℕ)
    → held p c ≡ none
    → acquire p c excluded now ≡ acquire_new p c excluded now
unfolding acquire
acquire-none p c now excluded e = rw (acquire, e)

held-same : (p q : ProxyPool) (c : ℕ) → q.heap ≡ p.heap → q.leases ≡ p.leases → held q c ≡ held p c
unfolding held
held-same p q c h l = rw (h, l)

module _ (p : ProxyPool) (id now x : ℕ) (l : ProxyLease) (v : IsOwned p)
    (found : get_elem? p.heap id ≡ some l) (free : l.released ≡ false)
    (at : proxy_id p id ≡ some x) where
  rotate-acquire_new :
      rotate p id l.context_id now ≡ acquire_new (release p id) l.context_id (some x) now
  unfolding rotate
  rotate-acquire_new =
      rw at
        (acquire-none (release p id) l.context_id now (some x) (held-release p id l v found free))

  rotated_proxy :
      (new : ℕ)
      → (rotate p id l.context_id now).0 ≡ some new
      → proxy_id (rotate p id l.context_id now).1 new ≢ some x
  rotated_proxy =
      subst (λ r. (new : ℕ) → r.0 ≡ some new → proxy_id r.1 new ≢ some x) (sym rotate-acquire_new)
        (acquire_new_proxy (release p id) l.context_id now x)

  left_without :
      (rotate p id l.context_id now).0 ≡ none
      → held (rotate p id l.context_id now).1 l.context_id ≡ none
  left_without =
      subst (λ r. r.0 ≡ none → held r.1 l.context_id ≡ none) (sym rotate-acquire_new)
        λ nothing.
          let q = release p id in
          let same =
            select-heap q now (some x) (select q now (some x)) (select-Selects q now (some x)) in
          rw (acquire_new_nothing q l.context_id now x nothing) (
            held-same q (select q now (some x)).1 l.context_id same.0 same.1
            ∙ held-release p id l v found free)

-- What a rotation of a context away from the proxy `x` leaves, by the lease that it gave.
abbrev pub Rotated : ProxyPool → ℕ → ℕ → Option ℕ → Type 0
Rotated p context x none = held p context ≡ none
Rotated p context x (some new) = proxy_id p new ≢ some x

-- In a pool whose live leases are all on record, when the live lease of a context, on the proxy
-- `x`, is rotated: a lease that comes back is on another proxy, or direct; if none does, the
-- context is left without a lease.
pub rotate_elsewhere :
    (p : ProxyPool) (id now x : ℕ) (l : ProxyLease)
    → IsOwned p
    → get_elem? p.heap id ≡ some l
    → l.released ≡ false
    → proxy_id p id ≡ some x
    → Rotated (rotate p id l.context_id now).1 l.context_id x (rotate p id l.context_id now).0
rotate_elsewhere p id now x l v found free at =
    elim (Option-cases (rotate p id l.context_id now).0) [
      | inl nothing ↦
          subst (Rotated (rotate p id l.context_id now).1 l.context_id x) (sym nothing)
            (left_without p id now x l v found free at nothing)
      | inr (new, some_lease) ↦
          subst (Rotated (rotate p id l.context_id now).1 l.context_id x) (sym some_lease)
            (rotated_proxy p id now x l v found free at new some_lease)
    ]
