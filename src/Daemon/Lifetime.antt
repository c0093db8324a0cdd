-- ===== src/Daemon/Lifetime.antt =====
-- crates/fabricd/src/main.rs: the daemon from its start on, with the QUIC listener that it booted.
pub mod Opens
use mathlib.Core.Path.{subst}
use fabricd.Base.{
  Each, ℕ, ◌≤◌, ◌+◌, String, true, ◌≡◌, refl, ◌∙◌, Option, none, some, List, ok, ok-inj, sym, ap,
}
use fabricd.Wire.{Toolkit, Breakers}
use fabricd.SaToken.{ClientBuilder, JwksVerifier}
use fabricd.ClientAuth.{Authenticator, accept_all, sa_token, service_account}
use fabricd.ClientAuth.Laws.{IsBuilt, build-IsBuilt}
use fabricd.SaToken.Keys.{Jwt, cached}
use fabricd.SaToken.Refresh.{Http}
use fabricd.BackendSet.Payloads.{Decoders}
use fabricd.BackendSet.Drivers.{DriverSet}
use fabricd.Session.{Shared, Process}
use fabricd.Daemon.Boot.{
  System, FabricdConfig, QuicListenerConfig, QuicListener, Booted, is_some, load_config, start,
  shared_of,
}
use fabricd.Daemon.Boot.Laws.{IsQuicOf, start-IsBooted}
use fabricd.BackendSet.Configs.{IsConfigured}
use fabricd.Daemon.Run.{Running, Event, Steps, here}
use fabricd.Daemon.Run.Grants.{AreOpened, Steps-IsOpened}
use fabricd.Daemon.Run.KeyCache.{HasNoKeys}
use fabricd.Daemon.Run.Shut.{AllShut, Steps-AllShut}
use fabricd.Daemon.Run.Limits.{Steps-connections}

module _ {W : Type 0} (sys : System W) (breakers : Breakers W) (b : ClientBuilder) where
  quic_config :
      (cfg : Option QuicListenerConfig) (q : QuicListener sys breakers b)
      → IsQuicOf sys breakers b cfg (some q)
      → (c : QuicListenerConfig) × (cfg ≡ some c) × (q.permits ≡ c.max_connections)
  quic_config none q is = absurd is
  quic_config (some c) q is = (c, refl, is.0)

  -- No connection gets as far as an authenticator where there is no QUIC listener.
  abbrev pub quic_auth : Option (QuicListener sys breakers b) → Authenticator
  quic_auth none = accept_all
  quic_auth (some q) = q.authenticator

  abbrev pub permits_of : Option (QuicListener sys breakers b) → ℕ
  permits_of none = 0
  permits_of (some q) = q.permits

  -- The QUIC listener of a daemon in mode sa-token checks ServiceAccount tokens.
  token_verifier :
      (w : W) (booted : Booted sys breakers b) (q : QuicListener sys breakers b)
      (config : FabricdConfig) (cfg : QuicListenerConfig)
      → (start sys breakers b w).0 ≡ ok booted
      → booted.quic ≡ some q
      → (load_config sys breakers b w).0 ≡ ok config
      → config.quic ≡ some cfg
      → cfg.auth.mode ≡ sa_token
      → (v : JwksVerifier) × (q.authenticator ≡ service_account v)
  token_verifier w booted q config cfg starts listens loads configured by_tokens =
      let (same, loaded, is, rest) = start-IsBooted sys breakers b w booted starts in
      let quic_is : IsQuicOf sys breakers b (some cfg) (some q) =
        subst (λ c. IsQuicOf sys breakers b c (some q))
          (ap (λ c. c.quic) (ok-inj (sym loaded ∙ loads)) ∙ configured)
          (subst (IsQuicOf sys breakers b same.quic) listens is.quic_is) in
      let (v, checks, _, _, _, _) =
        subst (λ mode. IsBuilt mode cfg.auth q.authenticator) by_tokens
          (build-IsBuilt b cfg.auth (q.authenticator, q.refresh) quic_is.1) in
      (v, checks)

  module _ (t : Toolkit) (upper : String → String) (d : DriverSet W breakers.Breaker)
      (decode : Decoders) (jwt : Jwt) (p : Process t upper d) (http : Http W jwt.Jwk) where
    -- What `run_listeners` begins with; no key is cached, no connection and no session is open.
    abbrev pub launched : Booted sys breakers b → W → Running t upper d decode jwt p http
    launched booted w = record {
      shared = booted.shared;
      cache = cached none;
      world = w;
      streams = λ i. none;
      permits = permits_of booted.quic;
      connections = 0;
      scraping = is_some booted.metrics;
      running = true;
    }

    -- A run of the daemon that started so.
    abbrev pub Lives :
        Booted sys breakers b
        → W
        → String
        → Option String
        → List (Event t upper d decode jwt p http)
        → Running t upper d decode jwt p http
        → Type 0
    Lives booted w issuer jwks_url events e =
        Steps t upper d decode jwt p http (quic_auth booted.quic) issuer jwks_url
          (launched booted w) events e

    -- A daemon that starts with a QUIC listener has one in its config, and whatever it does from
    -- then on, its open QUIC connections never number more than the configured max_connections, and
    -- its free permits are the others.
    pub start-max_connections :
        (w : W) (booted : Booted sys breakers b) (q : QuicListener sys breakers b) (issuer : String)
        (jwks_url : Option String) (events : List (Event t upper d decode jwt p http))
        (e : Running t upper d decode jwt p http)
        → (start sys breakers b w).0 ≡ ok booted
        → booted.quic ≡ some q
        → Lives booted (start sys breakers b w).1 issuer jwks_url events e
        → (config : FabricdConfig) × (cfg : QuicListenerConfig) × ((load_config sys breakers b w).0
            ≡ ok config)
          × (config.quic ≡ some cfg)
          × (e.permits + e.connections ≡ cfg.max_connections)
          × (e.connections ≤ cfg.max_connections)
    start-max_connections w booted q issuer jwks_url events e starts listens steps =
        let (config, loaded, is, rest) = start-IsBooted sys breakers b w booted starts in
        let (cfg, configured, permits) =
          quic_config config.quic q
            (subst (IsQuicOf sys breakers b config.quic) listens is.quic_is) in
        let granted = ap permits_of listens ∙ permits in
        let (others, most) =
          Steps-connections t upper d decode jwt p http (quic_auth booted.quic) issuer jwks_url
            events steps refl in
        (
          config,
          cfg,
          loaded,
          configured,
          others ∙ granted,
          subst (λ n. e.connections ≤ n) granted most,
        )

    -- A daemon that starts under a config whose QUIC clients authenticate in mode sa-token opens no
    -- session over QUIC until a round of the refresh succeeds, whatever its clients send and however
    -- many rounds fail.
    pub start-AllShut :
        (w : W) (booted : Booted sys breakers b) (q : QuicListener sys breakers b)
        (config : FabricdConfig) (cfg : QuicListenerConfig) (issuer : String)
        (jwks_url : Option String) (events : List (Event t upper d decode jwt p http))
        (e : Running t upper d decode jwt p http)
        → (start sys breakers b w).0 ≡ ok booted
        → booted.quic ≡ some q
        → (load_config sys breakers b w).0 ≡ ok config
        → config.quic ≡ some cfg
        → cfg.auth.mode ≡ sa_token
        → Lives booted (start sys breakers b w).1 issuer jwks_url events e
        → HasNoKeys t upper d decode jwt p http events
        → AllShut t upper d decode jwt p http e
    start-AllShut w booted q config cfg issuer jwks_url events e starts listens loads configured
          by_tokens steps failed =
        let (v, checks) =
          token_verifier w booted q config cfg starts listens loads configured by_tokens in
        Steps-AllShut t upper d decode jwt p http v issuer jwks_url events
          (subst
            (λ a.
              Steps t upper d decode jwt p http a issuer jwks_url
                (launched booted (start sys breakers b w).1) events e)
            (ap quic_auth listens ∙ checks) steps)
          refl (λ i. tt) failed

    -- In a daemon that starts under a config, each open session of either listener was accepted by
    -- the authenticator of its listener in the turn of this run that opened it, on the keys that the
    -- daemon held at that moment; and it works with nothing but the config's bindings of its own
    -- tenant under the names that it gave, the database's statement timeout under the config's
    -- ceiling, at every moment and however the sessions interleave.
    pub start-IsOpened :
        (configured : IsConfigured d.amq) (w : W) (booted : Booted sys breakers b) (issuer : String)
        (jwks_url : Option String) (events : List (Event t upper d decode jwt p http))
        (e : Running t upper d decode jwt p http)
        → (start sys breakers b w).0 ≡ ok booted
        → Lives booted (start sys breakers b w).1 issuer jwks_url events e
        → (config : FabricdConfig) × ((load_config sys breakers b w).0 ≡ ok config)
          × AreOpened t upper d configured decode jwt p http
              (quic_auth booted.quic)
              issuer
              jwks_url
              (launched booted (start sys breakers b w).1)
              (shared_of sys breakers b config)
              e
    start-IsOpened configured w booted issuer jwks_url events e starts steps =
        let (config, loaded, is, rest) = start-IsBooted sys breakers b w booted starts in
        (
          config,
          loaded,
          Steps-IsOpened t upper d configured decode jwt p http (quic_auth booted.quic) issuer
              jwks_url (launched booted (start sys breakers b w).1)
              (shared_of sys breakers b config) events here steps
              (ap (λ (c : Shared breakers.Breaker). record c { auth_failures = 0 }) is.shared_is)
              (λ k. tt),
        )
