-- ===== src/Crawler/Client/Frames.antt =====
-- The frames of the operations of the client, for statements that both hooks keep.
use sahabino.Common.{
  ℕ, zero, suc, ◌+◌, ◌≤◌, ◌≡◌, sym, subst, arith, Bool, false, not, ◌&&◌, Option, leb, is_some,
  ◌==◌,
}
use sahabino.Crawler.Errors.{CrawlerError}
use sahabino.Crawler.Exceptions.{
  Exception, Result, ok, raised, crawler, value_error, lookup_error, database_error, other_error,
  group,
}
use sahabino.Crawler.Lifecycle.{Database}
use sahabino.Crawler.Policies.{is_retryable, classify}
use sahabino.Crawler.World.{
  ProxyProvider, Environment, Settings, AdapterOutcome, returned, failed, Client, M, Hooks,
}
use sahabino.Crawler.World.Frames.{
  Keeps, Keeps-pure, Keeps-raise, Keeps-if, Keeps-test, Keeps-bind, Keeps-attempt_then,
  Keeps-draw_random, Keeps-call_primary, Keeps-call_secondary, Keeps-circuit_before_call,
  Keeps-circuit_failure, Keeps-circuit_success,
}
use sahabino.Crawler.Egress.Frames.{
  Keeps-acquire, Keeps-rotate, Keeps-is_usable, Keeps-release, Keeps-lease_proxy,
  Keeps-handle_failure, Keeps-network_success,
}
use sahabino.Crawler.Client.{
  Retrying, after_attempt, get_client, put_client, pause, get_primary, refresh_egress,
  refresh_egress_if_needed, give_up_egress, rotation_failed, replace_lease, keep_lease, adopt_lease,
  handled, attempt_failed, primary_outcome, set_last_attempt, attempt, secondary_outcome, fall_back,
  primary_failed, primary_succeeded, finish_execute, execute, close, open_client,
}

-- The loop, for an operation and a notification that keep the statement.
module _ {P : Type 0} {I : Database → Type 0} (retryable : Exception → Bool) (max_attempts : ℕ)
    {notify : Exception → M P (Unit {0})} {pause : ℕ → Exception → M P (Unit {0})}
    (keeps_notify : (e : Exception) → Keeps I (notify e))
    (keeps_pause : (n : ℕ) (e : Exception) → Keeps I (pause n e)) where
  Keeps-after_attempt :
      (n : ℕ) {again : M P ℕ}
      → (leb max_attempts n ≡ false → Keeps I again)
      → (r : Result ℕ) → Keeps I (after_attempt retryable max_attempts notify pause n again r)
  Keeps-after_attempt n ha (ok a) = Keeps-pure a
  Keeps-after_attempt n ha (raised e) =
      Keeps-test (retryable e && not (leb max_attempts n))
        (λ goes_on.
          Keeps-bind (keeps_notify e)
            (λ _. Keeps-bind (keeps_pause n e) (λ _. ha (ground (arith, goes_on)))))
        (Keeps-raise e)

  module _ (retrying : Retrying P) {operation : ℕ → M P ℕ}
      (ho : (n : ℕ) → Keeps I (operation n)) where
    Keeps-step :
        (n : ℕ)
        → (leb max_attempts n ≡ false
            → Keeps I (retrying.run retryable max_attempts notify pause operation (n + 1)))
        → Keeps I (retrying.run retryable max_attempts notify pause operation n)
    Keeps-step n again =
        subst (λ m. Keeps I m)
          (sym (retrying.run_lem retryable max_attempts notify pause operation n))
          (Keeps-attempt_then (ho n) (Keeps-after_attempt n again))

    -- From attempt `n` on, with at most `k` attempts to follow.
    Keeps-run :
        (k n : ℕ)
        → max_attempts ≤ n + k
        → Keeps I (retrying.run retryable max_attempts notify pause operation n)
    Keeps-run zero n enough = Keeps-step n (λ more. absurd (ground (arith, more)))
    Keeps-run (suc k) n enough = Keeps-step n (λ more. Keeps-run k (n + 1) (omega arith))

-- Hooks that keep the statement.
pub record HooksKeep {P : Type 0} (I : Database → Type 0) (hooks : Hooks P) : Type 0 where
  pub keeps_attempt : (n : ℕ) → Keeps I (hooks.before_attempt n)
  pub keeps_retry : (e : Exception) → Keeps I (hooks.before_retry e)

module _ {P : Type 0} {I : Database → Type 0} (prov : ProxyProvider P) (env : Environment)
    (s : Settings) where
  Keeps-get_client : Keeps I (get_client prov env s)
  unfolding get_client
  Keeps-get_client = record { keeps = λ w h. h }

  Keeps-put_client : (c : Client) → Keeps I (put_client prov env s c)
  unfolding put_client
  Keeps-put_client c = record { keeps = λ w h. h }

  Keeps-pause : (n : ℕ) (e : Exception) → Keeps I (pause prov env s n e)
  unfolding pause
  Keeps-pause n e = Keeps-bind (Keeps-draw_random env) (λ random. record { keeps = λ w h. h })

  Keeps-refresh_egress : (c : Client) → Keeps I (refresh_egress prov env s c)
  unfolding refresh_egress
  Keeps-refresh_egress c =
      Keeps-bind (Keeps-put_client _)
        (λ _. Keeps-bind (Keeps-rotate prov env c.lease c.context_id) (λ lease. Keeps-put_client _))

  Keeps-refresh_egress_if_needed : Keeps I (refresh_egress_if_needed prov env s)
  unfolding refresh_egress_if_needed
  Keeps-refresh_egress_if_needed =
      Keeps-bind Keeps-get_client
        (λ c. Keeps-if (not c.refresh_egress) (Keeps-pure tt) (Keeps-refresh_egress c))

  Keeps-give_up_egress : (error : CrawlerError) → Keeps I (give_up_egress prov env s error)
  unfolding give_up_egress
  Keeps-give_up_egress error =
      Keeps-bind Keeps-get_client (λ c. Keeps-bind (Keeps-put_client _) (λ _. Keeps-raise _))

  Keeps-handled : (error : CrawlerError) (r : Result ℕ) → Keeps I (handled prov env s error r)
  unfolding handled adopt_lease replace_lease keep_lease rotation_failed
  Keeps-handled error (ok lease) = Keeps-bind Keeps-get_client (λ c.
      Keeps-if (not (lease == c.lease)) (Keeps-bind (Keeps-put_client _) (λ _. Keeps-raise _)) (
        Keeps-bind (Keeps-is_usable prov env c.lease)
          (λ usable. Keeps-bind (Keeps-put_client _) (λ _. Keeps-raise _))))
  Keeps-handled error (raised (crawler e)) =
      Keeps-if _ (Keeps-give_up_egress error) (Keeps-raise (crawler e))
  Keeps-handled error (raised value_error) = Keeps-raise value_error
  Keeps-handled error (raised lookup_error) = Keeps-raise lookup_error
  Keeps-handled error (raised database_error) = Keeps-raise database_error
  Keeps-handled error (raised other_error) = Keeps-raise other_error
  Keeps-handled error (raised (group es)) = Keeps-raise (group es)

  Keeps-primary_outcome :
      (n : ℕ) (outcome : AdapterOutcome) → Keeps I (primary_outcome prov env s n outcome)
  unfolding primary_outcome attempt_failed
  Keeps-primary_outcome n (returned payload) = Keeps-pure payload
  Keeps-primary_outcome n (failed raw) = Keeps-bind Keeps-get_client (λ c.
      Keeps-attempt_then (Keeps-handle_failure prov env s (classify raw) c.lease c.context_id _)
        (Keeps-handled (classify raw)))

  Keeps-secondary_outcome :
      (token : Option ℕ) (outcome : AdapterOutcome)
      → Keeps I (secondary_outcome prov env s token outcome)
  unfolding secondary_outcome
  Keeps-secondary_outcome token (returned payload) =
      Keeps-bind (Keeps-circuit_success token) (λ _. Keeps-pure payload)
  Keeps-secondary_outcome token (failed raw) =
      Keeps-bind (Keeps-circuit_failure env (classify raw).kind false token) (λ _. Keeps-raise _)

  Keeps-primary_succeeded :
      (token : Option ℕ) (payload : ℕ) → Keeps I (primary_succeeded prov env s token payload)
  unfolding primary_succeeded
  Keeps-primary_succeeded token payload = Keeps-bind Keeps-get_client (λ c.
      Keeps-bind (Keeps-network_success prov env c.lease)
        (λ _. Keeps-bind (Keeps-circuit_success token) (λ _. Keeps-pure payload)))

  pub Keeps-close : Keeps I (close prov env s)
  unfolding close
  Keeps-close =
      Keeps-bind Keeps-get_client
        (λ c. Keeps-bind (Keeps-put_client _) (λ _. Keeps-release prov env c.lease))

  pub Keeps-open_client : (context : ℕ) → Keeps I (open_client prov env s context)
  unfolding open_client
  Keeps-open_client context =
      Keeps-bind (Keeps-acquire prov env context) (λ lease. Keeps-put_client _)

  module _ (hooks : Hooks P) (kept : HooksKeep I hooks) where
    Keeps-attempt : (n : ℕ) → Keeps I (attempt prov env s hooks n)
    unfolding attempt set_last_attempt get_primary
    Keeps-attempt n =
        Keeps-bind (record { keeps = λ w h. h })
          (λ _. Keeps-bind (kept.keeps_attempt n) (λ _.
            Keeps-bind (record { keeps = λ w h. h })
              (λ _. Keeps-bind (Keeps-call_primary env) (Keeps-primary_outcome n))))

    Keeps-fall_back :
        (token : Option ℕ) (error : CrawlerError) → Keeps I (fall_back prov env s hooks token error)
    unfolding fall_back
    Keeps-fall_back token error = Keeps-bind (kept.keeps_retry (crawler error)) (λ _.
        Keeps-bind Keeps-get_client (λ c.
          Keeps-bind (kept.keeps_attempt (c.last_primary_attempt + 1))
            (λ _. Keeps-bind (Keeps-call_secondary env) (Keeps-secondary_outcome token))))

    Keeps-finish_execute :
        (token : Option ℕ) (r : Result ℕ) → Keeps I (finish_execute prov env s hooks token r)
    unfolding finish_execute primary_failed
    Keeps-finish_execute token (ok payload) = Keeps-primary_succeeded token payload
    Keeps-finish_execute token (raised (crawler e)) = Keeps-bind Keeps-get_client (λ c.
        Keeps-bind (Keeps-lease_proxy prov env c.lease) (λ proxy.
          Keeps-bind (Keeps-circuit_failure env e.kind (is_some proxy) token)
            (λ _. Keeps-if _ (Keeps-fall_back token e) (Keeps-raise (crawler e)))))
    Keeps-finish_execute token (raised value_error) = Keeps-raise value_error
    Keeps-finish_execute token (raised lookup_error) = Keeps-raise lookup_error
    Keeps-finish_execute token (raised database_error) = Keeps-raise database_error
    Keeps-finish_execute token (raised other_error) = Keeps-raise other_error
    Keeps-finish_execute token (raised (group es)) = Keeps-raise (group es)

    pub Keeps-execute : (retrying : Retrying P) → Keeps I (execute prov env s retrying hooks)
    unfolding execute set_last_attempt
    Keeps-execute retrying = Keeps-bind Keeps-refresh_egress_if_needed (λ _.
        Keeps-bind (Keeps-circuit_before_call env) (λ token.
          Keeps-bind (record { keeps = λ w h. h })
            (λ _.
              Keeps-attempt_then
                (Keeps-run is_retryable s.max_attempts kept.keeps_retry Keeps-pause retrying
                  Keeps-attempt s.max_attempts 1 (omega arith))
                (Keeps-finish_execute token))))
