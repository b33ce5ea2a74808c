-- ===== src/Crawler/Providers.antt =====
-- The providers of crawler/infrastructure/proxy/providers.py as instances of the port: the one
-- without proxies, and the one of the pool. Every lease of theirs is a `ProxyLease`.
use sahabino.Common.{
  ℕ, Bool, false, not, Option, none, some, List, [], ◌∷◌, ◌++◌, if◌then◌else◌, length, get_elem?,
  set,
}
use sahabino.Common.Dict.{Dict, lookup, insert, remove}
use sahabino.Crawler.Proxy
use sahabino.Crawler.Proxy.{ProxyLease}
use sahabino.Crawler.Proxy.Pool
use sahabino.Crawler.Proxy.Pool.{ProxyPool}
use sahabino.Crawler.World.{ProxyProvider}

-- A `NoProxyProvider`: the leases in the order in which they were made, and those on record.
pub record NoProxyProvider : Type 0 where
  pub heap : List ProxyLease
  pub leases : Dict ℕ

-- The lease on record for a context, if it is not released.
unfoldable pub held_directly : NoProxyProvider → ℕ → Option ℕ
held_directly p context = elim (lookup context p.leases) [
  | none ↦ none
  | some id ↦ elim (get_elem? p.heap id) [
    | none ↦ none
    | some l ↦ if l.released then none else some id
  ]
]

-- `acquire`; it cannot fail.
unfoldable pub acquire_directly : NoProxyProvider → ℕ → ℕ → ℕ × NoProxyProvider
unfolding held_directly
acquire_directly p context now = elim (held_directly p context) [
  | some id ↦ (id, p)
  | none ↦ (
    length p.heap,
    record {
      heap =
          p.heap
          ++ record { context_id = context; endpoint = none; acquired_at = now; released = false }
            ∷ [];
      leases = insert context (length p.heap) p.leases;
    },
  )
]

unfoldable pub release_directly : NoProxyProvider → ℕ → NoProxyProvider
release_directly p id = elim (get_elem? p.heap id) [
  | none ↦ p
  | some l ↦ record {
    heap = set p.heap id (Proxy.release l);
    leases = remove l.context_id p.leases;
  }
]

unfoldable pub is_usable_directly : NoProxyProvider → ℕ → Bool
is_usable_directly p id = elim (get_elem? p.heap id) [ none ↦ false | some l ↦ not l.released ]

abbrev found : ℕ × NoProxyProvider → Option ℕ × NoProxyProvider
found (id, p) = (some id, p)

unfoldable pub no_proxies : ProxyProvider NoProxyProvider
unfolding acquire_directly release_directly is_usable_directly
no_proxies = record {
  acquire = λ p context now. found (acquire_directly p context now);
  rotate = λ p id context now. found (acquire_directly (release_directly p id) context now);
  record_success = λ p id. p;
  record_failure = λ p id now. (false, p);
  start_cooldown = λ p id now. p;
  mark_unhealthy = λ p id. p;
  is_usable = λ p id now. (is_usable_directly p id, p);
  release = release_directly;
  proxy_id = λ p id. none;
}

unfoldable pub pool_proxies : ProxyProvider ProxyPool
pool_proxies = record {
  acquire = λ p context now. Pool.acquire p context none now;
  rotate = λ p id context now. Pool.rotate p id context now;
  record_success = Pool.record_success;
  record_failure = Pool.record_failure;
  start_cooldown = Pool.start_cooldown;
  mark_unhealthy = Pool.mark_unhealthy;
  is_usable = Pool.is_usable;
  release = Pool.release;
  proxy_id = Pool.proxy_id;
}
