-- ===== src/Crawler/Egress.antt =====
-- The egress side of a client: the calls of the proxy provider, and the egress health accounting of
-- crawler/application/policies/network.py.
pub mod Frames
use sahabino.Common.{ℕ, ◌+◌, Bool, ◌&&◌, Option, none, some, [], ◌∷◌, leb, if◌then◌else◌, is_some}
use sahabino.Common.Dict.{lookup, insert, remove}
use sahabino.Crawler.Errors.{
  CrawlerError, isinstance, new_error, access_forbidden, proxy_authentication_failure,
  proxy_connection_failure, network_timeout, temporary_connection_failure, gateway_failure,
  rate_limited, proxy_unavailable,
}
use sahabino.Crawler.Exceptions.{ok, raised, crawler}
use sahabino.Crawler.World.{ProxyProvider, Environment, Settings, M, pure, ◌>>=◌, ◌>>◌}
use sahabino.Crawler.World.Actions.{read_clock}

-- The actions on the provider: those that take a clock reading take it first.
module _ {P : Type 0} (prov : ProxyProvider P) (env : Environment) where
  raise_unavailable : Option ℕ × P → M P ℕ
  raise_unavailable (none, p) w =
      (raised (crawler (new_error proxy_unavailable)), record w { provider = p })
  raise_unavailable (some lease, p) w = (ok lease, record w { provider = p })

  unfoldable pub acquire : ℕ → M P ℕ
  unfolding raise_unavailable
  acquire context = do
    now ← read_clock env
    λ w. raise_unavailable (prov.acquire w.provider context now) w

  unfoldable pub rotate : ℕ → ℕ → M P ℕ
  unfolding raise_unavailable
  rotate lease context = do
    now ← read_clock env
    λ w. raise_unavailable (prov.rotate w.provider lease context now) w

  start_cooldown : ℕ → M P (Unit {0})
  start_cooldown lease = do
    now ← read_clock env
    λ w. (ok tt, record w { provider = prov.start_cooldown w.provider lease now })

  mark_unhealthy : ℕ → M P (Unit {0})
  mark_unhealthy lease w = (ok tt, record w { provider = prov.mark_unhealthy w.provider lease })

  provider_failure : ℕ → M P Bool
  provider_failure lease = do
    now ← read_clock env
    λ w.
        let (told, p) = prov.record_failure w.provider lease now in
        (ok told, record w { provider = p })

  unfoldable pub is_usable : ℕ → M P Bool
  is_usable lease = do
    now ← read_clock env
    λ w.
        let (usable, p) = prov.is_usable w.provider lease now in
        (ok usable, record w { provider = p })

  unfoldable pub release : ℕ → M P (Unit {0})
  release lease w = (ok tt, record w { provider = prov.release w.provider lease })

  -- `lease.proxy_id`; the lease is direct if it has none.
  unfoldable pub lease_proxy : ℕ → M P (Option ℕ)
  lease_proxy lease w = (ok (prov.proxy_id w.provider lease), w)

  -- `lease.proxy_id or "direct"`; proxies are numbered from 1.
  abbrev identity : Option ℕ → ℕ
  identity none = 0
  identity (some proxy) = proxy

  next_count : Option ℕ → ℕ
  next_count none = 1
  next_count (some n) = n + 1

  -- The locked part for `RateLimited`: one more for the identity.
  count_rate_limit : ℕ → M P ℕ
  unfolding next_count
  count_rate_limit key w =
      let count = next_count (lookup key w.rate_limits) in
      (ok count, record w { rate_limits = insert key count w.rate_limits })

  rotate_if : Bool → ℕ → ℕ → M P ℕ
  rotate_if allow lease context = if allow then rotate lease context else pure lease

  cool_down_and_rotate : ℕ → ℕ → Bool → M P ℕ
  unfolding start_cooldown rotate_if
  cool_down_and_rotate lease context allow = do start_cooldown lease; rotate_if allow lease context

  -- The branches of `handle_failure`, on the proxy of the lease.
  forbidden_failure : Option ℕ → ℕ → ℕ → Bool → M P ℕ
  unfolding cool_down_and_rotate
  forbidden_failure none lease context allow = pure lease
  forbidden_failure (some proxy) lease context allow = cool_down_and_rotate lease context allow

  authentication_failure : Option ℕ → ℕ → ℕ → Bool → M P ℕ
  unfolding mark_unhealthy rotate_if
  authentication_failure none lease context allow = pure lease
  authentication_failure (some proxy) lease context allow = do
    mark_unhealthy lease
    rotate_if allow lease context

  rate_limit_failure : ℕ → Option ℕ → ℕ → ℕ → Bool → M P ℕ
  unfolding count_rate_limit cool_down_and_rotate
  rate_limit_failure threshold proxy lease context allow = do
    count ← count_rate_limit (identity proxy)
    if leb threshold count && is_some proxy
        then cool_down_and_rotate lease context allow
        else pure lease

  recorded_failure : ℕ → ℕ → Bool → M P ℕ
  unfolding provider_failure rotate_if
  recorded_failure lease context allow = do
    told ← provider_failure lease
    if told then rotate_if allow lease context else pure lease

  abbrev should_record : CrawlerError → Bool
  should_record error = isinstance error.kind (
      proxy_connection_failure ∷ network_timeout ∷ temporary_connection_failure ∷ gateway_failure
      ∷ [])

  -- `NetworkPolicy.handle_failure`
  unfoldable pub handle_failure : Settings → CrawlerError → ℕ → ℕ → Bool → M P ℕ
  unfolding lease_proxy forbidden_failure authentication_failure rate_limit_failure recorded_failure
  handle_failure s error lease context allow_rotation = do
    proxy ← lease_proxy lease
    if isinstance error.kind (access_forbidden ∷ [])
        then forbidden_failure proxy lease context allow_rotation
        else if isinstance error.kind (proxy_authentication_failure ∷ [])
        then authentication_failure proxy lease context allow_rotation
        else if isinstance error.kind (rate_limited ∷ [])
        then rate_limit_failure s.rate_limit_threshold proxy lease context allow_rotation
        else if should_record error
        then recorded_failure lease context allow_rotation
        else pure lease

  -- `NetworkPolicy.record_success`
  unfoldable pub network_success : ℕ → M P (Unit {0})
  network_success lease w =
      let key = identity (prov.proxy_id (prov.record_success w.provider lease) lease) in
      (
        ok tt,
        record w {
          provider = prov.record_success w.provider lease;
          rate_limits = remove key w.rate_limits;
        },
      )
