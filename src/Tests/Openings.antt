-- ===== src/Tests/Openings.antt =====
-- main.rs and sa_token.rs: a daemon that opens a session over QUIC.
use fabricd.Base.{
  ℕ, suc, String, ◌≡◌, refl, ltb, if◌then◌else◌, none, some, List, [], ◌∷◌, ok, err, put_at,
}
use fabricd.Wire.{WireInit}
use fabricd.Resources.Table.{resolve, pick}
use fabricd.ClientAuth.{Authenticator, verify_config, build}
use fabricd.SaToken.{spawn, validation}
use fabricd.SaToken.Keys.{build_key_map}
use fabricd.SaToken.Refresh.{Http, fetch_keys}
use fabricd.Daemon.Boot.{
  System, FabricdConfig, QuicListener, Booted, start, load_config, start_configured,
  start_listeners, uds_path, bind_uds, build_quic, build_quic_endpoint, bind_metrics, shared_of,
}
use fabricd.Daemon.Run.{
  Running, Event, silent, fetched, Steps, here, next, quic_accepted, quic_opened, round,
  refresh_round, after_round, new_stream, quic,
}
use fabricd.Daemon.Run.KeyCache.{HasNoKeys}
use fabricd.Daemon.Run.Opens.{Opens, opened_stream}
use fabricd.Daemon.Lifetime.{launched, quic_auth}
use fabricd.Daemon.Lifetime.Opens.{start-Opens}
use fabricd.Tests.Fixtures.{
  toolkit, plain_jwt, echoes, raw_payloads, unchanged, calm, acme_table, acme_init, acme_configs,
  key_server, files,
}
use fabricd.Tests.Queues.{tripped}
use fabricd.Tests.Auth.{verifier}
use fabricd.Tests.Daemons.{unix}
use fabricd.Tests.Runs.{token_config, checked}

abbrev remote_config : FabricdConfig
remote_config = record token_config { resources = acme_table; max_statement_timeout_ms = 30000 }

abbrev remote_unix : System ℕ
remote_unix = record unix { decode_config = λ text. ok remote_config }

abbrev remote_listener : QuicListener remote_unix tripped files
remote_listener = record {
  endpoint = "0.0.0.0:7000";
  authenticator = checked;
  refresh =
      some (record { client = tt; issuer = "https://issuer"; jwks_url = none; interval = 300000 });
  permits = 2;
}

abbrev remote_booted : Booted remote_unix tripped files
remote_booted = record {
  shared = record {
    table = acme_table;
    max_statement_timeout_ms = 30000;
    breaker = some tt;
    auth_failures = 0;
  };
  uds = none;
  uds_auth = Authenticator.accept_all;
  quic = some remote_listener;
  metrics = none;
}

remote_starts : (start remote_unix tripped files 0).0 ≡ ok remote_booted
unfolding start load_config start_configured start_listeners uds_path bind_uds build_quic
    build_quic_endpoint bind_metrics build verify_config spawn
remote_starts = refl

remote_loads : (load_config remote_unix tripped files 0).0 ≡ ok remote_config
unfolding load_config
remote_loads = refl

-- An issuer that answers the two requests of the first round only.
abbrev brief : Http ℕ String
brief = record key_server {
  send = λ url w. (if ltb w 3 then ok url else err "connection refused", suc w);
}

abbrev Remote : Type 0
Remote = Running toolkit unchanged echoes raw_payloads plain_jwt calm brief

abbrev Occurs : Type 0
Occurs = Event toolkit unchanged echoes raw_payloads plain_jwt calm brief

abbrev after_fetch : Remote → Remote
after_fetch s =
    after_round toolkit unchanged echoes raw_payloads plain_jwt calm brief
      (refresh_round toolkit unchanged echoes raw_payloads plain_jwt calm brief "https://issuer"
        none s)
      s

abbrev started_up : Remote
started_up =
    launched remote_unix tripped files toolkit unchanged echoes raw_payloads plain_jwt calm brief
      remote_booted (start remote_unix tripped files 0).1

abbrev connected : Remote
connected = record (after_fetch started_up) { permits = 1; connections = 1 }

abbrev offered : Remote
offered = record connected {
  streams =
      put_at connected.streams 5
        (new_stream toolkit unchanged echoes raw_payloads plain_jwt calm brief quic);
}

abbrev later_events : List Occurs
later_events =
    silent
    ∷ silent
    ∷ fetched
        (refresh_round toolkit unchanged echoes raw_payloads plain_jwt calm brief "https://issuer"
          none offered).0
    ∷ []

offered_run :
    Steps toolkit unchanged echoes raw_payloads plain_jwt calm brief
      (quic_auth remote_unix tripped files remote_booted.quic)
      "https://issuer"
      none
      (after_fetch started_up)
      later_events
      (after_fetch offered)
offered_run =
    next (quic_accepted {n = 1} refl refl)
      (next (quic_opened {n = 0} refl 5 refl) (next round here))

first_fetch :
    (refresh_round toolkit unchanged echoes raw_payloads plain_jwt calm brief "https://issuer" none
      started_up).0
    ≡ ok (build_key_map plain_jwt ("kid-1" ∷ []))
unfolding fetch_keys build_key_map start load_config start_configured start_listeners uds_path
    bind_uds build_quic build_quic_endpoint bind_metrics build verify_config spawn
first_fetch = refl

fetches_fail : HasNoKeys toolkit unchanged echoes raw_payloads plain_jwt calm brief later_events
unfolding fetch_keys start load_config start_configured start_listeners uds_path bind_uds build_quic
    build_quic_endpoint bind_metrics build verify_config spawn
fetches_fail = tt

-- An `Init` whose token the issuer signed.
abbrev remote_init : WireInit
remote_init = record acme_init { token = some "kid-1" }

remote_resolves : resolve acme_table remote_init ≡ ok acme_configs
unfolding resolve pick
remote_resolves = refl

known_kid : build_key_map plain_jwt ("kid-1" ∷ []) "kid-1" ≡ some "kid-1"
unfolding build_key_map
known_kid = refl

signed : plain_jwt.decode 0 "kid-1" "kid-1" (validation plain_jwt verifier) ≡ ok tt
unfolding validation
signed = refl

start-Opens_example :
    Opens toolkit unchanged echoes raw_payloads plain_jwt calm brief
      (quic_auth remote_unix tripped files remote_booted.quic)
      "https://issuer"
      none
      (after_fetch offered)
      5
      (opened_stream toolkit unchanged echoes raw_payloads plain_jwt calm brief
        (shared_of remote_unix tripped files remote_config)
        remote_init
        acme_configs)
start-Opens_example =
    start-Opens remote_unix tripped files toolkit unchanged echoes raw_payloads plain_jwt calm brief
      0 remote_booted remote_listener verifier remote_config "https://issuer" none [] later_events
      started_up (after_fetch offered) (build_key_map plain_jwt ("kid-1" ∷ [])) 5 0 remote_init
      acme_configs "kid-1" "kid-1" "kid-1" remote_starts refl refl remote_loads here first_fetch
      offered_run fetches_fail refl refl refl known_kid signed remote_resolves
