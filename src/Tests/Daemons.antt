-- ===== src/Tests/Daemons.antt =====
-- main.rs: a session over the six drivers, and booting.
use fabricd.Base.{ℕ, suc, String, ◌≡◌, refl, true, none, some, List, [], ◌∷◌, ok, empty_map}
use fabricd.Wire.{WireCall, call, drain, init}
use fabricd.ClientAuth.{Authenticator, default_auth, build}
use fabricd.BackendSet.Drivers.{DriverSet}
use fabricd.Session.{Frame, request}
use fabricd.Daemon.Drivers.{drivers}
use fabricd.Daemon.Boot.{
  System, FabricdConfig, default_config, Booted, start, load_config, start_configured,
  start_listeners, uds_path, bind_uds, build_quic, build_quic_endpoint, bind_metrics,
}
use fabricd.Tests.Fixtures.{unchanged, acme_init, list_log, files}
use fabricd.Tests.Drivers.{one_value, keys, open_relay, read_payload}
use fabricd.Tests.Queues.{bunny, hub, started, no_text, jobs_payload, server, tripped}
use fabricd.Tests.Databases.{sevens, encoders, row_codec, no_params, statements}
use fabricd.Tests.Documents.{plain_bson, shelf, mongo_codecs}
use fabricd.Tests.Identity.{provider}

abbrev pub six : DriverSet ℕ (Unit {0})
six =
    drivers list_log row_codec unchanged tripped server sevens encoders no_params statements
      plain_bson shelf mongo_codecs open_relay read_payload one_value keys bunny hub no_text started
      jobs_payload provider

abbrev pub query : WireCall
query = record { name = "db"; action = "query"; payload = "SELECT 1" }

abbrev pub drained_twice : List Frame
drained_twice = request (init acme_init) ∷ request drain ∷ request (call query) ∷ request drain ∷ []

abbrev pub quic_only : FabricdConfig
quic_only = record default_config {
  quic = some (record {
    listen = "0.0.0.0:7000";
    server_cert = "cert.pem";
    server_key = "key.pem";
    max_connections = 8;
    auth = default_auth;
  });
}

abbrev pub unix : System ℕ
unix = record {
  var = λ name. none;
  exists = λ path w. true;
  read_to_string = λ path w. (ok "{..}", w);
  read = λ path w. (ok path, w);
  remove_file = λ path w. w;
  decode_config = λ text. ok quic_only;
  UnixListener = String;
  bind_unix = λ path w. (ok path, suc w);
  TcpListener = String;
  bind_tcp = λ addr w. (ok addr, suc w);
  SocketAddr = String;
  parse_addr = λ text. ok text;
  ServerTls = String;
  from_pem = λ cert key. ok cert;
  Endpoint = String;
  server_endpoint = λ addr tls w. (ok addr, suc w);
}

abbrev pub booted : Booted unix tripped files
booted = record {
  shared = record {
    table = empty_map;
    max_statement_timeout_ms = 0;
    breaker = some tt;
    auth_failures = 0;
  };
  uds = none;
  uds_auth = Authenticator.accept_all;
  quic = some (record {
    endpoint = "0.0.0.0:7000";
    authenticator = Authenticator.accept_all;
    refresh = none;
    permits = 8;
  });
  metrics = none;
}

pub starts : (start unix tripped files 0).0 ≡ ok booted
unfolding start load_config start_configured start_listeners uds_path bind_uds build_quic
    build_quic_endpoint bind_metrics build
starts = refl
