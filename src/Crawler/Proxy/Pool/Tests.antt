-- ===== src/Crawler/Proxy/Pool/Tests.antt =====
-- Runs of endpoints and pools, and their theorems at concrete inputs.
use sahabino.Common.{
  length, ℕ, subst, ◌+◌, ◌≤◌, ◌≡◌, refl, ◌↔◌, true, false, none, some, List, [], ◌∷◌, arith,
  get_elem?,
}
use sahabino.Common.Dict.{lookup, insert, remove}
use sahabino.Crawler.Proxy
use sahabino.Crawler.Proxy.{ProxyEndpoint, ProxyLease, healthy, in_cooldown, unhealthy}
use sahabino.Crawler.Proxy.Health
use sahabino.Crawler.Proxy.Health.{out_for_good, cooldown_exact}
use sahabino.Crawler.Proxy.Pool.{
  ProxyPool, new_pool, select, acquire, release, rotate, proxy_id, record_failure,
}
use sahabino.Crawler.Proxy.Pool.Selection.{Selects, select_finds, select-Selects}
use sahabino.Crawler.Proxy.Pool.Ownership.{
  IsOwned, Call, acquires, rotates, fails, after_all, one_live_lease, after_all-IsOwned,
  new_pool-IsOwned,
}
use sahabino.Crawler.Proxy.Pool.Rotation.{Rotated, rotate_elsewhere}

abbrev endpoint : ProxyEndpoint
endpoint = record { proxy_id = 1; state = healthy; failure_count = 1; cooldown_until = none }

out_for_good_example :
    (Proxy.usable
      (Health.after_all
        (record endpoint { state = unhealthy })
        (Health.succeeds ∷ Health.cools_down 5 1 ∷ Health.asks 90 ∷ []))
      100).0
    ≡ false
out_for_good_example =
    out_for_good (record endpoint { state = unhealthy })
      (Health.succeeds ∷ Health.cools_down 5 1 ∷ Health.asks 90 ∷ []) 100 refl

cooldown_exact_example :
    let (told, e') = Proxy.record_failure endpoint 2 30 100 in
    (told ≡ true)
    × (((Proxy.usable e' 120).0 ≡ true) ↔ (100 + 30 ≤ 120))
    × ((Proxy.usable e' 120).1.failure_count ≡ 2)
cooldown_exact_example = cooldown_exact endpoint 2 30 100 120 refl (omega arith)

abbrev pool : ProxyPool
pool = record {
  endpoints = endpoint ∷ record endpoint { proxy_id = 2; failure_count = 0 } ∷ [];
  threshold = 2;
  cooldown = 30;
  direct_fallback = false;
  heap = [];
  leases = [];
  next_index = 0;
}

abbrev fresh_pool : ProxyPool
fresh_pool = record pool {
  endpoints =
      record endpoint { failure_count = 0 }
      ∷ record endpoint { proxy_id = 2; failure_count = 0 }
      ∷ [];
}

select_finds_example : (index : ℕ) × ((select pool 100 (some 1)).0 ≡ some index)
unfolding Proxy.usable
select_finds_example =
    select_finds pool 100 (some 1) 1 (record endpoint { proxy_id = 2; failure_count = 0 })
      (omega arith) refl refl

fresh_pool_made : new_pool 2 2 30 false ≡ some fresh_pool
unfolding new_pool
fresh_pool_made = refl

abbrev calls : List Call
calls = acquires 7 100 ∷ fails 0 101 ∷ rotates 0 7 102 ∷ []

abbrev second_lease : ProxyLease
second_lease = record { context_id = 7; endpoint = some 1; acquired_at = 102; released = false }

the_second_lease : get_elem? (after_all fresh_pool calls).heap 1 ≡ some second_lease
unfolding after_all acquire rotate release record_failure lookup insert remove select proxy_id
    Proxy.release Proxy.usable Proxy.record_failure
the_second_lease = refl

one_live_lease_example :
    (let j : ℕ = 1 in j ≡ 1)
    × (acquire (after_all fresh_pool calls) 7 none 200 ≡ (some 1, after_all fresh_pool calls))
unfolding new_pool
one_live_lease_example =
    one_live_lease 2 2 30 false fresh_pool calls 1 1 200 second_lease second_lease refl
      the_second_lease refl the_second_lease refl refl

abbrev leased : ProxyPool
leased = record pool {
  heap = record { context_id = 7; endpoint = some 0; acquired_at = 100; released = false } ∷ [];
  leases = (7, 0) ∷ [];
  next_index = 1;
}

leased-after_all : after_all fresh_pool (acquires 7 100 ∷ fails 0 101 ∷ []) ≡ leased
unfolding after_all acquire record_failure lookup insert select Proxy.usable Proxy.record_failure
leased-after_all = refl

rotate_elsewhere_example : Rotated (rotate leased 0 7 103).1 7 1 (rotate leased 0 7 103).0
unfolding proxy_id
rotate_elsewhere_example =
    rotate_elsewhere leased 0 103 1
      (record { context_id = 7; endpoint = some 0; acquired_at = 100; released = false })
      (subst IsOwned leased-after_all
        (after_all-IsOwned fresh_pool _ (new_pool-IsOwned 2 2 30 false fresh_pool fresh_pool_made)))
      refl refl refl

select-Selects_example :
    Selects pool 100 (some 1) 0 (length pool.endpoints) (select pool 100 (some 1))
select-Selects_example = select-Selects pool 100 (some 1)
