-- ===== src/Daemon/Boot.antt =====
-- crates/fabricd/src/main.rs: the configuration, and `main` up to where the listeners run, on Unix.
-- The operating system and the QUIC library are parameters; an error is its text.
pub mod Laws
use fabricd.Base.{
  ℕ, zero, suc, String, Bool, true, false, Option, none, some, [], ◌∷◌, ltb, not, ◌&&◌,
  if◌then◌else◌, HashMap, empty_map, Result, ok, err, Eff, raise, lift, pure, ◌>>=◌,
}
use fabricd.Wire.{Breakers}
use fabricd.Resources.Table.{Table}
use fabricd.SaToken.{ClientBuilder, RefreshTask}
use fabricd.ClientAuth.{ClientAuthConfig, Authenticator, default_auth, build}
use fabricd.Session.{Shared}

pub record QuicListenerConfig : Type 0 where
  pub listen : String
  pub server_cert : String
  pub server_key : String
  pub max_connections : ℕ
  pub auth : ClientAuthConfig

pub record FabricdConfig : Type 0 where
  pub socket : Option String
  pub resources : Table
  pub max_statement_timeout_ms : ℕ
  pub db_breaker_threshold : ℕ
  pub db_breaker_cooldown_ms : ℕ
  pub metrics_listen : Option String
  pub quic : Option QuicListenerConfig

-- `FabricdConfig::default()`
abbrev pub default_config : FabricdConfig
default_config = record {
  socket = none;
  resources = empty_map;
  max_statement_timeout_ms = 0;
  db_breaker_threshold = 0;
  db_breaker_cooldown_ms = 0;
  metrics_listen = none;
  quic = none;
}

pub record System (W : Type 0) : Type 1 where
  pub var : String → Option String
  pub exists : String → W → Bool
  pub read_to_string : String → Eff W String String
  pub read : String → Eff W String String
  pub remove_file : String → W → W
  pub decode_config : String → Result String FabricdConfig
  pub UnixListener : Type 0
  pub bind_unix : String → Eff W String UnixListener
  pub TcpListener : Type 0
  pub bind_tcp : String → Eff W String TcpListener
  pub SocketAddr : Type 0
  pub parse_addr : String → Result String SocketAddr
  pub ServerTls : Type 0
  pub from_pem : String → String → Result String ServerTls
  pub Endpoint : Type 0
  pub server_endpoint : SocketAddr → ServerTls → Eff W String Endpoint

abbrev pub default_socket : String
default_socket = "/tmp/fabricd.sock"

abbrev pub default_breaker_cooldown_ms : ℕ
default_breaker_cooldown_ms = 5000

unfoldable pub cooldown_of : FabricdConfig → ℕ
cooldown_of config =
    if ltb 0 config.db_breaker_cooldown_ms
    then config.db_breaker_cooldown_ms
    else default_breaker_cooldown_ms

abbrev pub is_some {ℓ} : {A : Type ℓ} → Option A → Bool
is_some none = false
is_some (some a) = true

abbrev pub or_else {ℓ} : {A : Type ℓ} → Option A → Option A → Option A
or_else none other = other
or_else (some a) other = some a

-- `unwrap_or`
abbrev unwrap_or {ℓ} : {A : Type ℓ} → Option A → A → A
unwrap_or none other = other
unwrap_or (some a) other = a

module _ {W : Type 0} (sys : System W) (breakers : Breakers W) (b : ClientBuilder) where
  unfoldable pub load_config : Eff W String FabricdConfig
  load_config w =
      let path = unwrap_or (sys.var "FABRICD_CONFIG") "fabricd.json" in
      if not (sys.exists path w)
      then (ok default_config, w)
      else (sys.read_to_string path >>= λ text. lift (sys.decode_config text)) w

  abbrev pub shared_of : FabricdConfig → Shared breakers.Breaker
  shared_of config = record {
    table = config.resources;
    max_statement_timeout_ms = config.max_statement_timeout_ms;
    breaker = breakers.new config.db_breaker_threshold (cooldown_of config);
    auth_failures = 0;
  }

  abbrev pub explicit_socket : FabricdConfig → Option String
  explicit_socket config = or_else (sys.var "FABRICD_SOCKET") config.socket

  unfoldable pub uds_path : FabricdConfig → Option String
  uds_path config =
      or_else (explicit_socket config) (if is_some config.quic then none else some default_socket)

  -- A stale socket file is removed, then the listener is bound.
  unfoldable pub bind_uds : Option String → Eff W String (Option sys.UnixListener)
  bind_uds none = pure none
  bind_uds (some path) = (λ w. (ok tt, sys.remove_file path w)) >>= λ removed.
      sys.bind_unix path >>= λ listener. pure (some listener)

  unfoldable pub build_quic_endpoint : QuicListenerConfig → Eff W String sys.Endpoint
  build_quic_endpoint cfg = do
    addr ← lift (sys.parse_addr cfg.listen)
    cert_pem ← sys.read cfg.server_cert
    key_pem ← sys.read cfg.server_key
    tls ← lift (sys.from_pem cert_pem key_pem)
    sys.server_endpoint addr tls

  -- `QuicListener`, with the background task of its authenticator; `permits` are the semaphore's.
  pub record QuicListener : Type 0 where
    pub endpoint : sys.Endpoint
    pub authenticator : Authenticator
    pub refresh : Option (RefreshTask b)
    pub permits : ℕ

  unfoldable pub build_quic : Option QuicListenerConfig → Eff W String (Option QuicListener)
  unfolding build_quic_endpoint
  build_quic none = pure none
  build_quic (some cfg) = build_quic_endpoint cfg >>= λ endpoint.
      lift (build b cfg.auth) >>= λ built. pure (
        some (record {
          endpoint = endpoint;
          authenticator = built.0;
          refresh = built.1;
          permits = cfg.max_connections;
        }))

  unfoldable pub bind_metrics : Option String → Eff W String (Option sys.TcpListener)
  bind_metrics none = pure none
  bind_metrics (some addr) = sys.bind_tcp addr >>= λ listener. pure (some listener)

  -- What `run_listeners` is given.
  pub record Booted : Type 0 where
    pub shared : Shared breakers.Breaker
    pub uds : Option sys.UnixListener
    pub uds_auth : Authenticator
    pub quic : Option QuicListener
    pub metrics : Option sys.TcpListener

  unfoldable pub start_listeners : FabricdConfig → Eff W String Booted
  unfolding bind_uds build_quic bind_metrics
  start_listeners config = do
    uds ← bind_uds (uds_path config)
    built ← lift (build b default_auth)
    quic ← build_quic config.quic
    metrics ← bind_metrics config.metrics_listen
    pure (record {
      shared = shared_of config;
      uds = uds;
      uds_auth = built.0;
      quic = quic;
      metrics = metrics;
    })

  unfoldable pub start_configured : FabricdConfig → Eff W String Booted
  unfolding start_listeners uds_path
  start_configured config =
      if not (is_some (uds_path config)) && not (is_some config.quic)
      then raise "no listener configured: set `socket` (UDS) and/or `quic` (remote)"
      else start_listeners config

  -- `main`, up to `run_listeners`.
  unfoldable pub start : Eff W String Booted
  unfolding load_config start_configured
  start = do config ← load_config; start_configured config
