-- ===== src/Crawler/Client.antt =====
-- The resilient client, crawler/application/client.py, with the retry loop of
-- crawler/application/policies/retry.py. Closing an adapter and making a new one are taken not to
-- raise. The loop of `execute` is the library's (tenacity): it is the parameter `Retrying` below,
-- with its documented behaviour.
pub mod Frames
pub mod Loop
use sahabino.Common.{
  ℕ, zero, suc, ◌+◌, ◌≡◌, Bool, true, false, not, ◌&&◌, ◌||◌, Option, none, some, List, [], ◌∷◌,
  ◌==◌, leb, if◌then◌else◌, is_some,
}
use sahabino.Common.Dict.{lookup, insert, remove}
use sahabino.Crawler.Errors.{
  CrawlerError, ErrorKind, isinstance, new_error, access_forbidden, proxy_authentication_failure,
  proxy_connection_failure, network_timeout, temporary_connection_failure, gateway_failure,
  rate_limited, proxy_unavailable,
}
use sahabino.Crawler.Exceptions.{Exception, Result, ok, raised, crawler}
use sahabino.Crawler.Policies.{
  RawException, classify, is_retryable, is_retryable_error, delay_for, should_use_secondary,
}
use sahabino.Crawler.World.{
  ProxyProvider, Environment, Settings, AdapterOutcome, returned, failed, World, Client, M, Hooks,
  pure, raise, continue, ◌>>=◌, ◌>>◌, attempt_then,
}
use sahabino.Crawler.World.Actions.{
  read_clock, draw_random, call_primary, call_secondary, circuit_before_call, circuit_failure,
  circuit_success,
}
use sahabino.Crawler.Egress.{
  acquire, rotate, is_usable, release, lease_proxy, handle_failure, network_success,
}

-- The library's retry loop, for an operation that is given the number of its attempt, from 1 on.
-- `reraise=True`: the last error comes out as it is.
module _ {P : Type 0} (retryable : Exception → Bool) (max_attempts : ℕ) where
  -- What the loop does after attempt `n`: it is over on a value, on an error that the predicate
  -- does not name, and on the last attempt; else it notifies, sleeps, and goes on.
  abbrev pub after_attempt :
      (Exception → M P (Unit {0})) → (ℕ → Exception → M P (Unit {0})) → ℕ → M P ℕ → Result ℕ → M P ℕ
  after_attempt notify pause n again (ok a) = pure a
  after_attempt notify pause n again (raised e) =
      if retryable e && not (leb max_attempts n)
      then (notify e >> (pause n e >> again))
      else raise e

-- `Retrying`: a loop that behaves so.
pub record Retrying (P : Type 0) : Type 0 where
  pub run :
      (Exception → Bool)
      → ℕ
      → (Exception → M P (Unit {0}))
      → (ℕ → Exception → M P (Unit {0}))
      → (ℕ → M P ℕ)
      → ℕ
      → M P ℕ
  pub run_lem :
      (retryable : Exception → Bool) (max_attempts : ℕ) (notify : Exception → M P (Unit {0}))
      (pause : ℕ → Exception → M P (Unit {0})) (operation : ℕ → M P ℕ) (n : ℕ)
      → run retryable max_attempts notify pause operation n
        ≡ attempt_then (operation n) (
            after_attempt retryable max_attempts notify pause n
              (run retryable max_attempts notify pause operation (n + 1)))

module _ {P : Type 0} (prov : ProxyProvider P) (env : Environment) (s : Settings) where
  get_client : M P Client
  get_client w = (ok w.client, w)

  put_client : Client → M P (Unit {0})
  put_client c w = (ok tt, record w { client = c })

  -- `wait` and `sleep`.
  pause : ℕ → Exception → M P (Unit {0})
  pause n error = do
    random ← draw_random env
    λ w. (
      ok tt,
      record w { slept = delay_for s.second s.max_delay random n (crawler_part error) ∷ w.slept },
    )
    where
      crawler_part : Exception → Option CrawlerError
      crawler_part (crawler e) = some e
      crawler_part _ = none

  -- `_get_primary`
  get_primary : M P (Unit {0})
  get_primary w = (ok tt, record w { client = record w.client { has_primary = true } })

  refresh_egress : Client → M P (Unit {0})
  unfolding put_client
  refresh_egress c = do
    put_client (record c { has_primary = false })
    lease ← rotate prov env c.lease c.context_id
    put_client (record c { has_primary = false; lease = lease; refresh_egress = false })

  -- `_refresh_egress_if_needed`
  refresh_egress_if_needed : M P (Unit {0})
  unfolding get_client refresh_egress
  refresh_egress_if_needed = do
    c ← get_client
    if not c.refresh_egress then pure tt else refresh_egress c

  give_up_egress : CrawlerError → M P ℕ
  unfolding get_client put_client
  give_up_egress error = do
    c ← get_client
    put_client (record c { has_primary = false; refresh_egress = true })
    raise (crawler (record error { retry_with_new_egress = false }))

  -- `except ProxyUnavailable` in `attempt`; other exceptions pass.
  rotation_failed : CrawlerError → Exception → M P ℕ
  unfolding give_up_egress
  rotation_failed error (crawler e) =
      if isinstance e.kind (proxy_unavailable ∷ []) && isinstance error.kind (access_forbidden ∷ [])
      then give_up_egress error
      else raise (crawler e)
  rotation_failed error e = raise e

  replace_lease : CrawlerError → Client → ℕ → M P ℕ
  unfolding put_client
  replace_lease error c new_lease = do
    put_client (record c { has_primary = false; lease = new_lease })
    raise (crawler error)

  keep_lease : CrawlerError → Client → M P ℕ
  unfolding put_client is_usable
  keep_lease error c = do
    usable ← is_usable prov env c.lease
    put_client (record c { refresh_egress = c.refresh_egress || not usable })
    raise (crawler error)

  -- The end of `attempt`, with the lease that `handle_failure` returned.
  adopt_lease : CrawlerError → ℕ → M P ℕ
  unfolding get_client replace_lease keep_lease
  adopt_lease error new_lease = do
    c ← get_client
    if not (new_lease == c.lease) then replace_lease error c new_lease else keep_lease error c

  handled : CrawlerError → Result ℕ → M P ℕ
  unfolding rotation_failed adopt_lease
  handled error (ok new_lease) = adopt_lease error new_lease
  handled error (raised e) = rotation_failed error e

  -- The handler of `attempt`, on the classified error.
  attempt_failed : ℕ → CrawlerError → M P ℕ
  unfolding get_client handled
  attempt_failed n error = do
    c ← get_client
    attempt_then
        (handle_failure prov env s error c.lease c.context_id
          (not (leb s.max_attempts n) && is_retryable_error error))
        (handled error)

  primary_outcome : ℕ → AdapterOutcome → M P ℕ
  unfolding attempt_failed
  primary_outcome n (returned payload) = pure payload
  primary_outcome n (failed raw) = attempt_failed n (classify raw)

  -- `nonlocal last_primary_attempt`
  set_last_attempt : ℕ → M P (Unit {0})
  set_last_attempt n w = (ok tt, record w { client = record w.client { last_primary_attempt = n } })

  -- The function `attempt` of `_execute`.
  unfoldable pub attempt : Hooks P → ℕ → M P ℕ
  unfolding set_last_attempt get_primary primary_outcome
  attempt hooks n = do
    set_last_attempt n
    hooks.before_attempt n
    get_primary
    outcome ← call_primary env
    primary_outcome n outcome

  secondary_outcome : Option ℕ → AdapterOutcome → M P ℕ
  secondary_outcome token (returned payload) = do circuit_success token; pure payload
  secondary_outcome token (failed raw) = do
    circuit_failure env (classify raw).kind false token
    raise (crawler (classify raw))

  -- The secondary adapter, after the primary one failed with `error`.
  fall_back : Hooks P → Option ℕ → CrawlerError → M P ℕ
  unfolding get_client secondary_outcome
  fall_back hooks token error = do
    hooks.before_retry (crawler error)
    c ← get_client
    hooks.before_attempt (c.last_primary_attempt + 1)
    outcome ← call_secondary env
    secondary_outcome token outcome

  primary_failed : Hooks P → Option ℕ → CrawlerError → M P ℕ
  unfolding get_client lease_proxy fall_back
  primary_failed hooks token error = do
    c ← get_client
    proxy ← lease_proxy prov env c.lease
    circuit_failure env error.kind (is_some proxy) token
    if should_use_secondary s.secondary_enabled error
        then fall_back hooks token error
        else raise (crawler error)

  primary_succeeded : Option ℕ → ℕ → M P ℕ
  unfolding get_client network_success
  primary_succeeded token payload = do
    c ← get_client
    network_success prov env c.lease
    circuit_success token
    pure payload

  -- `except CrawlerError` of `_execute`: other exceptions pass.
  finish_execute : Hooks P → Option ℕ → Result ℕ → M P ℕ
  unfolding primary_failed primary_succeeded
  finish_execute hooks token (ok payload) = primary_succeeded token payload
  finish_execute hooks token (raised (crawler e)) = primary_failed hooks token e
  finish_execute hooks token (raised e) = raise e

  -- `_execute`; `get_app` and `get_reviews` call it with their operations.
  unfoldable pub execute : Retrying P → Hooks P → M P ℕ
  unfolding refresh_egress_if_needed set_last_attempt finish_execute pause
  execute retrying hooks = do
    refresh_egress_if_needed
    token ← circuit_before_call env
    set_last_attempt 0
    attempt_then
        (retrying.run is_retryable s.max_attempts hooks.before_retry pause (attempt hooks) 1)
        (finish_execute hooks token)

  -- `close`
  unfoldable pub close : M P (Unit {0})
  unfolding get_client put_client release
  close = do c ← get_client; put_client (record c { has_primary = false }); release prov env c.lease

  -- The part of `open_application` before the `yield`.
  unfoldable pub open_client : ℕ → M P (Unit {0})
  unfolding put_client
  open_client context = do
    lease ← acquire prov env context
    put_client (record {
      context_id = context;
      lease = lease;
      has_primary = false;
      refresh_egress = false;
      last_primary_attempt = 0;
    })
