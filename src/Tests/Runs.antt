-- ===== src/Tests/Runs.antt =====
-- main.rs: runs of the daemon with remote clients, turn by turn.
use fabricd.Base.{
  inl, arith, ◌%◌, put_at, ℕ, ◌≤◌, ◌+◌, String, ◌≡◌, refl, true, none, some, List, [], ◌∷◌, ok, err,
  empty_map,
}
use fabricd.Wire.{init}
use fabricd.SaToken.Refresh.{swap_cache, Http, fetch_keys}
use fabricd.SaToken.{spawn}
use fabricd.ClientAuth.{
  ClientAuthConfig, sa_token, verify_config, Authenticator, service_account, authenticate,
  default_auth, build,
}
use fabricd.Session.{request}
use fabricd.Daemon.Boot.{
  System, FabricdConfig, QuicListenerConfig, QuicListener, default_config, Booted, start,
  load_config, start_configured, start_listeners, uds_path, bind_uds, build_quic,
  build_quic_endpoint, bind_metrics,
}
use fabricd.Daemon.Run.{
  Running, Event, silent, fetched, Steps, here, next, quic_accepted, quic_opened, round,
  refresh_round, after_round, turn_in, after_turn, new_stream, quic, took_turn,
}
use fabricd.Daemon.Shutdown.{pending, ready, run_listeners, shutdown_signal}
use fabricd.Daemon.Shutdown.Laws.{run_listeners_iff}
use fabricd.Daemon.Lifetime.{launched, start-max_connections, start-AllShut}
use fabricd.Daemon.Run.KeyCache.{HasNoKeys}
use fabricd.Daemon.Run.Shut.{AllShut}
use fabricd.Tests.Fixtures.{
  toolkit, plain_jwt, echoes, raw_payloads, unchanged, calm, acme_init, key_server, dead_server,
  files,
}
use fabricd.Tests.Queues.{tripped}
use fabricd.Tests.Auth.{verifier}
use fabricd.Session.{u64_mod}
use fabricd.SaToken.{verify}
use fabricd.Daemon.Run.Rejections.{rejections, Steps-auth_failures}
use fabricd.Tests.Daemons.{unix, booted, starts}

abbrev open_listener : QuicListener unix tripped files
open_listener = record {
  endpoint = "0.0.0.0:7000";
  authenticator = Authenticator.accept_all;
  refresh = none;
  permits = 8;
}

abbrev first_state : Running toolkit unchanged echoes raw_payloads plain_jwt calm key_server
first_state =
    launched unix tripped files toolkit unchanged echoes raw_payloads plain_jwt calm key_server
      booted 1

abbrev admitted : Running toolkit unchanged echoes raw_payloads plain_jwt calm key_server
admitted = record first_state { permits = 7; connections = 1 }

one_admitted :
    Steps toolkit unchanged echoes raw_payloads plain_jwt calm key_server Authenticator.accept_all
      "https://issuer" none first_state
      (silent ∷ [])
      admitted
one_admitted = next (quic_accepted {n = 7} refl refl) here

start-max_connections_example :
    (config : FabricdConfig) × (cfg : QuicListenerConfig) × ((load_config unix tripped files 0).0
      ≡ ok config)
    × (config.quic ≡ some cfg)
    × (admitted.permits + admitted.connections ≡ cfg.max_connections)
    × (admitted.connections ≤ cfg.max_connections)
unfolding start load_config start_configured start_listeners uds_path bind_uds build_quic
    build_quic_endpoint bind_metrics build
start-max_connections_example =
    start-max_connections unix tripped files toolkit unchanged echoes raw_payloads plain_jwt calm
      key_server 0 booted open_listener "https://issuer" none (silent ∷ []) admitted starts refl
      one_admitted

abbrev Live : Http ℕ String → Type 0
Live http = Running toolkit unchanged echoes raw_payloads plain_jwt calm http

abbrev pub checked : Authenticator
checked = service_account verifier

abbrev next_round : {http : Http ℕ String} → Live http → Live http
next_round {http} s =
    after_round toolkit unchanged echoes raw_payloads plain_jwt calm http
      (refresh_round toolkit unchanged echoes raw_payloads plain_jwt calm http "https://issuer" none
        s)
      s

abbrev Happening : Type 0
Happening = Event toolkit unchanged echoes raw_payloads plain_jwt calm dead_server

-- A daemon in mode sa-token, a round that fails, a connection, and a session whose token nobody
-- can check yet.
abbrev token_auth : ClientAuthConfig
token_auth = record default_auth {
  mode = sa_token;
  audience = some "fabricd";
  issuer = some "https://issuer";
}

abbrev token_quic : QuicListenerConfig
token_quic = record {
  listen = "0.0.0.0:7000";
  server_cert = "cert.pem";
  server_key = "key.pem";
  max_connections = 2;
  auth = token_auth;
}

abbrev pub token_config : FabricdConfig
token_config = record default_config { quic = some token_quic }

abbrev token_unix : System ℕ
token_unix = record unix { decode_config = λ text. ok token_config }

abbrev token_listener : QuicListener token_unix tripped files
token_listener = record {
  endpoint = "0.0.0.0:7000";
  authenticator = checked;
  refresh =
      some (record { client = tt; issuer = "https://issuer"; jwks_url = none; interval = 300000 });
  permits = 2;
}

abbrev token_booted : Booted token_unix tripped files
token_booted = record {
  shared = record {
    table = empty_map;
    max_statement_timeout_ms = 0;
    breaker = some tt;
    auth_failures = 0;
  };
  uds = none;
  uds_auth = Authenticator.accept_all;
  quic = some token_listener;
  metrics = none;
}

token_starts : (start token_unix tripped files 0).0 ≡ ok token_booted
unfolding start load_config start_configured start_listeners uds_path bind_uds build_quic
    build_quic_endpoint bind_metrics build verify_config spawn
token_starts = refl

token_loads : (load_config token_unix tripped files 0).0 ≡ ok token_config
unfolding load_config
token_loads = refl

abbrev first_locked : Live dead_server
first_locked =
    launched token_unix tripped files toolkit unchanged echoes raw_payloads plain_jwt calm
      dead_server token_booted (start token_unix tripped files 0).1

abbrev locked : Live dead_server
locked = next_round first_locked

abbrev locked_open : Live dead_server
locked_open = record locked { permits = 1; connections = 1 }

abbrev locked_first : Live dead_server
locked_first = record locked_open {
  streams =
      put_at locked_open.streams 7
        (new_stream toolkit unchanged echoes raw_payloads plain_jwt calm dead_server quic);
}

-- The client's `Init`, with the token that the keys would accept.
abbrev locked_turn : Live dead_server
locked_turn =
    after_turn toolkit unchanged echoes raw_payloads plain_jwt calm dead_server 7
      (new_stream toolkit unchanged echoes raw_payloads plain_jwt calm dead_server quic)
      (turn_in toolkit unchanged echoes raw_payloads plain_jwt calm dead_server locked_first checked
        0 true (some (request (init acme_init)))
        (new_stream toolkit unchanged echoes raw_payloads plain_jwt calm dead_server quic))
      locked_first

abbrev locked_events : List Happening
locked_events =
    fetched
      (refresh_round toolkit unchanged echoes raw_payloads plain_jwt calm dead_server
        "https://issuer" none first_locked).0
    ∷ silent
    ∷ silent
    ∷ silent
    ∷ []

locked_run :
    Steps toolkit unchanged echoes raw_payloads plain_jwt calm dead_server checked "https://issuer"
      none first_locked locked_events locked_turn
locked_run = next round (
    next (quic_accepted {n = 1} refl refl) (
      next (quic_opened {n = 0} refl 7 refl) (
        next
          (took_turn 7
            (new_stream toolkit unchanged echoes raw_payloads plain_jwt calm dead_server quic) refl
            0 true (some (request (init acme_init))))
          here)))

locked_failed :
    HasNoKeys toolkit unchanged echoes raw_payloads plain_jwt calm dead_server locked_events
unfolding fetch_keys
locked_failed = tt

start-AllShut_example :
    AllShut toolkit unchanged echoes raw_payloads plain_jwt calm dead_server locked_turn
start-AllShut_example =
    start-AllShut token_unix tripped files toolkit unchanged echoes raw_payloads plain_jwt calm
      dead_server 0 token_booted token_listener token_config token_quic "https://issuer" none
      locked_events locked_turn token_starts refl token_loads refl refl locked_run locked_failed

one_rejection :
    rejections toolkit unchanged echoes raw_payloads plain_jwt calm dead_server checked
      "https://issuer" none locked_run
    ≡ 1
unfolding authenticate verify locked_run swap_cache fetch_keys
one_rejection = refl

Steps-auth_failures_example :
    locked_turn.shared.auth_failures
    ≡ (first_locked.shared.auth_failures
        + rejections toolkit unchanged echoes raw_payloads plain_jwt calm dead_server checked
            "https://issuer" none locked_run)
      % u64_mod
Steps-auth_failures_example =
    Steps-auth_failures toolkit unchanged echoes raw_payloads plain_jwt calm dead_server checked
      "https://issuer" none locked_events locked_run (omega arith)

-- The metrics listener has failed, and then an accept on the socket.
run_listeners_iff_example :
    run_listeners
      (some (ok tt ∷ err "too many open files" ∷ []))
      none
      (some (err "connection aborted" ∷ []))
      (shutdown_signal pending (ok pending))
    ≡ ready tt
run_listeners_iff_example =
    (run_listeners_iff (some (ok tt ∷ err "too many open files" ∷ [])) none
        (some (err "connection aborted" ∷ [])) pending (ok pending)).1
      (inl (ok tt ∷ [], "too many open files", [], refl))
