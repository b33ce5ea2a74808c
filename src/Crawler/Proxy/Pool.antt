-- ===== src/Crawler/Proxy/Pool.antt =====
-- The shared pool, crawler/infrastructure/proxy/pool.py. Each method runs under the pool's lock, so
-- it is one step; its clock reading is an argument. A lease is an object that the pool and a client
-- share: `heap` holds the leases in the order in which they were made, and an index is a reference.
pub mod Selection
pub mod Ownership
pub mod Rotation
pub mod Tests
use sahabino.Common.{
  ℕ, zero, suc, ◌+◌, ◌%◌, Bool, true, false, not, ◌&&◌, Option, none, some, List, [], ◌∷◌, ◌++◌,
  ltb, ◌==◌, if◌then◌else◌, length, get_elem?, set, is_some,
}
use sahabino.Common.Dict.{Dict, lookup, insert, remove}
use sahabino.Crawler.Proxy
use sahabino.Crawler.Proxy.{ProxyEndpoint, ProxyLease, healthy}

pub record ProxyPool : Type 0 where
  pub endpoints : List ProxyEndpoint
  pub threshold : ℕ
  pub cooldown : ℕ
  pub direct_fallback : Bool
  pub heap : List ProxyLease
  pub leases : Dict ℕ
  pub next_index : ℕ

-- `enumerate(proxy_urls, start=1)`: as many endpoints as there are URLs.
new_endpoints : ℕ → ℕ → List ProxyEndpoint
new_endpoints index zero = []
new_endpoints index (suc count) =
    record { proxy_id = index; state = healthy; failure_count = 0; cooldown_until = none }
    ∷ new_endpoints (index + 1) count

-- `__init__`, for as many URLs as `count`, none of them blank; `none` where it raises.
unfoldable pub new_pool : ℕ → ℕ → ℕ → Bool → Option ProxyPool
unfolding new_endpoints
new_pool count failure_threshold cooldown_seconds direct_fallback =
    if ltb failure_threshold 1
    then none
    else some (record {
      endpoints = new_endpoints 1 count;
      threshold = failure_threshold;
      cooldown = cooldown_seconds;
      direct_fallback = direct_fallback;
      heap = [];
      leases = [];
      next_index = 0;
    })

-- `endpoint.proxy_id != excluded_proxy_id`
abbrev pub is_excluded : Option ℕ → ℕ → Bool
is_excluded none proxy_id = false
is_excluded (some excluded) proxy_id = proxy_id == excluded

abbrev pub put_endpoint : ProxyPool → ℕ → ProxyEndpoint → ProxyPool
put_endpoint p index e = record p { endpoints = set p.endpoints index e }

-- The loop of `_select`, with `remaining` offsets to try. The index is in range, as a remainder.
pub select_from : ℕ → ℕ → ProxyPool → ℕ → Option ℕ → Option ℕ × ProxyPool
select_from zero offset p now excluded = (none, p)
select_from (suc remaining) offset p now excluded =
    let count = length p.endpoints in
    let index = (p.next_index + offset) % count in
    elim (get_elem? p.endpoints index) [
      | none ↦ (none, p)
      | some e ↦
          let rest = select_from remaining (offset + 1) p now excluded in
          if not (is_excluded excluded e.proxy_id) && (Proxy.usable e now).0
          then (
            some index,
            record (put_endpoint p index (Proxy.usable e now).1) {
              next_index = (index + 1) % count;
            },
          )
          else rest
    ]

unfoldable pub select : ProxyPool → ℕ → Option ℕ → Option ℕ × ProxyPool
unfolding select_from
select p now excluded = select_from (length p.endpoints) 0 p now excluded

-- The lease that a context holds: the one on record, if it is not released.
unfoldable pub held : ProxyPool → ℕ → Option ℕ
held p context = elim (lookup context p.leases) [
  | none ↦ none
  | some id ↦ elim (get_elem? p.heap id) [
    | none ↦ none
    | some l ↦ if l.released then none else some id
  ]
]

-- A new lease, put on record for its context.
unfoldable pub grant : ProxyPool → ℕ → Option ℕ → ℕ → ℕ × ProxyPool
grant p context endpoint now = (
  length p.heap,
  record p {
    heap =
        p.heap
        ++ record { context_id = context; endpoint = endpoint; acquired_at = now; released = false }
          ∷ [];
    leases = insert context (length p.heap) p.leases;
  },
)

-- `none` is the exception `ProxyUnavailable`.
unfoldable pub acquire_new : ProxyPool → ℕ → Option ℕ → ℕ → Option ℕ × ProxyPool
unfolding grant
acquire_new p context excluded now =
    let (endpoint, p') = select p now excluded in
    if not (is_some endpoint) && not p.direct_fallback
    then (none, p')
    else (let (id, p'') = grant p' context endpoint now in (some id, p''))

unfoldable pub acquire : ProxyPool → ℕ → Option ℕ → ℕ → Option ℕ × ProxyPool
unfolding held acquire_new
acquire p context excluded now = elim (held p context) [
  | some id ↦ (some id, p)
  | none ↦ acquire_new p context excluded now
]

-- `self._leases.get(lease.context_id) is lease`
abbrev pub is_recorded : ProxyPool → ProxyLease → ℕ → Bool
is_recorded p l id = elim (lookup l.context_id p.leases) [ none ↦ false | some r ↦ r == id ]

unfoldable pub release : ProxyPool → ℕ → ProxyPool
release p id = elim (get_elem? p.heap id) [
  | none ↦ p
  | some l ↦ record p {
    heap = set p.heap id (Proxy.release l);
    leases = if is_recorded p l id then remove l.context_id p.leases else p.leases;
  }
]

-- `lease.endpoint`
abbrev pub endpoint_of : ProxyPool → ℕ → Option ℕ
endpoint_of p id = elim (get_elem? p.heap id) [ none ↦ none | some l ↦ l.endpoint ]

-- `lease.proxy_id`
unfoldable pub proxy_id : ProxyPool → ℕ → Option ℕ
proxy_id p id = elim (endpoint_of p id) [
  | none ↦ none
  | some index ↦ elim (get_elem? p.endpoints index) [ none ↦ none | some e ↦ some e.proxy_id ]
]

unfoldable pub rotate : ProxyPool → ℕ → ℕ → ℕ → Option ℕ × ProxyPool
unfolding proxy_id
rotate p id context now = acquire (release p id) context (proxy_id p id) now

-- A method of the endpoint of a lease; nothing on a direct connection.
abbrev pub on_endpoint :
    {A : Type 0} → ProxyPool → ℕ → A → (ProxyEndpoint → A × ProxyEndpoint) → A × ProxyPool
on_endpoint p id direct f = elim (endpoint_of p id) [
  | none ↦ (direct, p)
  | some index ↦ elim (get_elem? p.endpoints index) [
    | none ↦ (direct, p)
    | some e ↦ ((f e).0, put_endpoint p index (f e).1)
  ]
]

unfoldable pub record_success : ProxyPool → ℕ → ProxyPool
record_success p id = (on_endpoint {A = Unit {0}} p id tt (λ e. (tt, Proxy.record_success e))).1

unfoldable pub record_failure : ProxyPool → ℕ → ℕ → Bool × ProxyPool
record_failure p id now =
    on_endpoint p id false (λ e. Proxy.record_failure e p.threshold p.cooldown now)

unfoldable pub start_cooldown : ProxyPool → ℕ → ℕ → ProxyPool
start_cooldown p id now =
    (on_endpoint {A = Unit {0}} p id tt (λ e. (tt, Proxy.start_cooldown e p.cooldown now))).1

unfoldable pub mark_unhealthy : ProxyPool → ℕ → ProxyPool
mark_unhealthy p id = (on_endpoint {A = Unit {0}} p id tt (λ e. (tt, Proxy.mark_unhealthy e))).1

unfoldable pub is_usable : ProxyPool → ℕ → ℕ → Bool × ProxyPool
is_usable p id now = elim (get_elem? p.heap id) [
  | none ↦ (false, p)
  | some l ↦ if l.released then (false, p) else on_endpoint p id true (λ e. Proxy.usable e now)
]
