-- ===== src/Crawler/Proxy.antt =====
-- Proxy endpoints and leases, crawler/infrastructure/proxy/models.py. An endpoint's URL is only
-- passed on, never read, so it is left out; "proxy-<n>" is the number n.
pub mod Health
pub mod Pool
use sahabino.Common.{ℕ, ◌+◌, Bool, true, false, Option, none, some, ltb, leb, if◌then◌else◌, ◌&&◌}

pub data ProxyState : Type 0 where
  healthy in_cooldown unhealthy disabled : ProxyState

pub record ProxyEndpoint : Type 0 where
  pub proxy_id : ℕ
  pub state : ProxyState
  pub failure_count : ℕ
  pub cooldown_until : Option ℕ

abbrev pub is_healthy : ProxyState → Bool
is_healthy healthy = true
is_healthy _ = false

abbrev pub is_in_cooldown : ProxyState → Bool
is_in_cooldown in_cooldown = true
is_in_cooldown _ = false

-- `self.state in {DISABLED, UNHEALTHY}`
abbrev pub is_out : ProxyState → Bool
is_out disabled = true
is_out unhealthy = true
is_out _ = false

abbrev pub is_disabled : ProxyState → Bool
is_disabled disabled = true
is_disabled _ = false

unfoldable pub record_success : ProxyEndpoint → ProxyEndpoint
record_success e =
    if is_out e.state
    then e
    else record e { state = healthy; failure_count = 0; cooldown_until = none }

-- `self.cooldown_until is not None and now >= self.cooldown_until`
abbrev pub is_over : Option ℕ → ℕ → Bool
is_over none now = false
is_over (some until) now = leb until now

-- `usable` ends a cooldown that is over, and tells whether the endpoint is healthy.
unfoldable pub usable : ProxyEndpoint → ℕ → Bool × ProxyEndpoint
unfolding record_success
usable e now =
    let e' =
      if is_in_cooldown e.state && is_over e.cooldown_until now then record_success e else e in
    (is_healthy e'.state, e')

unfoldable pub start_cooldown : ProxyEndpoint → ℕ → ℕ → ProxyEndpoint
start_cooldown e cooldown_seconds now =
    if is_out e.state
    then e
    else record e { state = in_cooldown; cooldown_until = some (now + cooldown_seconds) }

unfoldable pub record_failure : ProxyEndpoint → ℕ → ℕ → ℕ → Bool × ProxyEndpoint
unfolding start_cooldown
record_failure e threshold cooldown_seconds now =
    if is_out e.state
    then (false, e)
    else (let counted = record e { failure_count = e.failure_count + 1 } in
        if ltb counted.failure_count threshold
        then (false, counted)
        else (true, start_cooldown counted cooldown_seconds now))

unfoldable pub disable : ProxyEndpoint → ProxyEndpoint
disable e = record e { state = disabled }

unfoldable pub mark_unhealthy : ProxyEndpoint → ProxyEndpoint
mark_unhealthy e =
    if is_disabled e.state then e else record e { state = unhealthy; cooldown_until = none }

-- A lease names its endpoint by its index in the pool; `none` is a direct connection.
pub record ProxyLease : Type 0 where
  pub context_id : ℕ
  pub endpoint : Option ℕ
  pub acquired_at : ℕ
  pub released : Bool

unfoldable pub release : ProxyLease → ProxyLease
release l = record l { released = true }
