-- ===== src/Crawler/Egress/Frames.antt =====
-- The frames of the calls of the provider and of the egress accounting.
use sahabino.Common.{ℕ, Bool, Option, none, some}
use sahabino.Crawler.Errors.{CrawlerError}
use sahabino.Crawler.Lifecycle.{Database}
use sahabino.Crawler.World.{ProxyProvider, Environment, Settings}
use sahabino.Crawler.World.Frames.{Keeps, Keeps-pure, Keeps-if, Keeps-bind, Keeps-read_clock}
use sahabino.Crawler.Egress.{
  raise_unavailable, acquire, rotate, start_cooldown, mark_unhealthy, provider_failure, is_usable,
  release, lease_proxy, count_rate_limit, rotate_if, cool_down_and_rotate, forbidden_failure,
  authentication_failure, rate_limit_failure, recorded_failure, handle_failure, network_success,
}

module _ {P : Type 0} {I : Database → Type 0} (prov : ProxyProvider P) (env : Environment) where
  Keeps-raise_unavailable : (r : Option ℕ × P) → Keeps I (raise_unavailable prov env r)
  unfolding raise_unavailable
  Keeps-raise_unavailable (none, p) = record { keeps = λ w h. h }
  Keeps-raise_unavailable (some lease, p) = record { keeps = λ w h. h }

  pub Keeps-acquire : (context : ℕ) → Keeps I (acquire prov env context)
  unfolding acquire
  Keeps-acquire context = Keeps-bind (Keeps-read_clock env) (λ now. record {
    keeps = λ w h. (Keeps-raise_unavailable (prov.acquire w.provider context now)).keeps w h;
  })

  pub Keeps-rotate : (lease context : ℕ) → Keeps I (rotate prov env lease context)
  unfolding rotate
  Keeps-rotate lease context = Keeps-bind (Keeps-read_clock env) (λ now. record {
    keeps = λ w h. (Keeps-raise_unavailable (prov.rotate w.provider lease context now)).keeps w h;
  })

  Keeps-start_cooldown : (lease : ℕ) → Keeps I (start_cooldown prov env lease)
  unfolding start_cooldown
  Keeps-start_cooldown lease =
      Keeps-bind (Keeps-read_clock env) (λ now. record { keeps = λ w h. h })

  Keeps-mark_unhealthy : (lease : ℕ) → Keeps I (mark_unhealthy prov env lease)
  unfolding mark_unhealthy
  Keeps-mark_unhealthy lease = record { keeps = λ w h. h }

  Keeps-provider_failure : (lease : ℕ) → Keeps I (provider_failure prov env lease)
  unfolding provider_failure
  Keeps-provider_failure lease =
      Keeps-bind (Keeps-read_clock env) (λ now. record { keeps = λ w h. h })

  pub Keeps-is_usable : (lease : ℕ) → Keeps I (is_usable prov env lease)
  unfolding is_usable
  Keeps-is_usable lease = Keeps-bind (Keeps-read_clock env) (λ now. record { keeps = λ w h. h })

  pub Keeps-release : (lease : ℕ) → Keeps I (release prov env lease)
  unfolding release
  Keeps-release lease = record { keeps = λ w h. h }

  pub Keeps-lease_proxy : (lease : ℕ) → Keeps I (lease_proxy prov env lease)
  unfolding lease_proxy
  Keeps-lease_proxy lease = record { keeps = λ w h. h }

  Keeps-count_rate_limit : (key : ℕ) → Keeps I (count_rate_limit prov env key)
  unfolding count_rate_limit
  Keeps-count_rate_limit key = record { keeps = λ w h. h }

  pub Keeps-network_success : (lease : ℕ) → Keeps I (network_success prov env lease)
  unfolding network_success
  Keeps-network_success lease = record { keeps = λ w h. h }

  Keeps-rotate_if :
      (allow : Bool) (lease context : ℕ) → Keeps I (rotate_if prov env allow lease context)
  unfolding rotate_if
  Keeps-rotate_if allow lease context =
      Keeps-if allow (Keeps-rotate lease context) (Keeps-pure lease)

  Keeps-cool_down_and_rotate :
      (lease context : ℕ) (allow : Bool)
      → Keeps I (cool_down_and_rotate prov env lease context allow)
  unfolding cool_down_and_rotate
  Keeps-cool_down_and_rotate lease context allow =
      Keeps-bind (Keeps-start_cooldown lease) (λ _. Keeps-rotate_if allow lease context)

  Keeps-forbidden_failure :
      (proxy : Option ℕ) (lease context : ℕ) (allow : Bool)
      → Keeps I (forbidden_failure prov env proxy lease context allow)
  unfolding forbidden_failure
  Keeps-forbidden_failure none lease context allow = Keeps-pure lease
  Keeps-forbidden_failure (some proxy) lease context allow =
      Keeps-cool_down_and_rotate lease context allow

  Keeps-authentication_failure :
      (proxy : Option ℕ) (lease context : ℕ) (allow : Bool)
      → Keeps I (authentication_failure prov env proxy lease context allow)
  unfolding authentication_failure
  Keeps-authentication_failure none lease context allow = Keeps-pure lease
  Keeps-authentication_failure (some proxy) lease context allow =
      Keeps-bind (Keeps-mark_unhealthy lease) (λ _. Keeps-rotate_if allow lease context)

  Keeps-rate_limit_failure :
      (threshold : ℕ) (proxy : Option ℕ) (lease context : ℕ) (allow : Bool)
      → Keeps I (rate_limit_failure prov env threshold proxy lease context allow)
  unfolding rate_limit_failure
  Keeps-rate_limit_failure threshold proxy lease context allow =
      Keeps-bind (Keeps-count_rate_limit _)
        (λ count. Keeps-if _ (Keeps-cool_down_and_rotate lease context allow) (Keeps-pure lease))

  Keeps-recorded_failure :
      (lease context : ℕ) (allow : Bool) → Keeps I (recorded_failure prov env lease context allow)
  unfolding recorded_failure
  Keeps-recorded_failure lease context allow =
      Keeps-bind (Keeps-provider_failure lease)
        (λ told. Keeps-if told (Keeps-rotate_if allow lease context) (Keeps-pure lease))

  pub Keeps-handle_failure :
      (s : Settings) (error : CrawlerError) (lease context : ℕ) (allow : Bool)
      → Keeps I (handle_failure prov env s error lease context allow)
  unfolding handle_failure
  Keeps-handle_failure s error lease context allow = Keeps-bind (Keeps-lease_proxy lease) (λ proxy.
      Keeps-if _ (Keeps-forbidden_failure proxy lease context allow) (
        Keeps-if _ (Keeps-authentication_failure proxy lease context allow) (
          Keeps-if _ (Keeps-rate_limit_failure s.rate_limit_threshold proxy lease context allow)
            (Keeps-if _ (Keeps-recorded_failure lease context allow) (Keeps-pure lease)))))
