-- ===== src/Tests/Sockets.antt =====
-- main.rs: runs of the daemon with a client of its socket, turn by turn.
use mathlib.Core.Path.{subst}
use fabricd.Base.{sym, Bool, true, false, ◌==◌, String, Option, none, some, ◌≡◌, refl}
use fabricd.Capability.{abandoned_producer}
use fabricd.Capability.Laws.{abandoned_slot-none}
use fabricd.BackendSet.{BackendSet, abandoned_set, metrics}
use fabricd.BackendSet.Metrics.{Grows}
use fabricd.Session.Drains.{IsKept, Grows-refl}
use fabricd.Daemon.Recorded.{drivers-IsAccounted}
use fabricd.Tests.Fixtures.{no_remains}
use fabricd.Base.{OnSome, put_at, Each, ℕ, [], ◌∷◌, ok}
use fabricd.Wire.{ack, call, drain, init}
use fabricd.ClientAuth.{Authenticator, authenticate, build}
use fabricd.Session.{Frame, request}
use fabricd.Daemon.Drivers.{drivers-IsConfigured, drivers-AllMetered}
use fabricd.Daemon.Boot.{
  shared_of, System, FabricdConfig, default_config, Booted, start, load_config, start_configured,
  start_listeners, uds_path, bind_uds, build_quic, build_quic_endpoint, bind_metrics,
}
use fabricd.Daemon.Run.{
  Running, silent, Steps, here, next, turn_in, after_turn, new_stream, uds, uds_accepted, took_turn,
}
use fabricd.Session.Turns.{written, turn, authenticated_turn, resolved_turn}
use fabricd.BackendSet.Configs.{IsConfigured}
use fabricd.Daemon.Run.Grants.{AreOpened}
use fabricd.Resources.Table.{resolve, pick}
use fabricd.Daemon.Lifetime.{Lives, quic_auth, start-IsOpened, launched}
use fabricd.Tests.Fixtures.{
  toolkit, plain_jwt, raw_payloads, unchanged, calm, daemon, acme_init, list_log, list_log-IsLog,
  key_server, files,
}
use fabricd.Tests.Drivers.{one_value, keys, open_relay, read_payload}
use fabricd.Tests.Queues.{bunny, hub, started, no_text, jobs_payload, server, tripped}
use fabricd.Tests.Databases.{sevens, encoders, row_codec, no_params, statements}
use fabricd.Tests.Documents.{plain_bson, shelf, mongo_codecs}
use fabricd.Tests.Identity.{provider}
use fabricd.BackendSet.Metrics.{AllMetered}
use fabricd.Daemon.Run.{Stream}
use fabricd.Daemon.Run.Order.{IsStreamInOrder, Steps-IsStreamInOrder}
use fabricd.Daemon.Run.Drains.{IsAccountedStream}
use fabricd.Tests.Daemons.{six, query, unix}

-- A daemon with a table and no QUIC, and a client of its socket.
abbrev stocked : FabricdConfig
stocked = record default_config {
  resources = daemon.table;
  max_statement_timeout_ms = daemon.max_statement_timeout_ms;
}

abbrev stocked_unix : System ℕ
stocked_unix = record unix { decode_config = λ text. ok stocked }

abbrev stocked_booted : Booted stocked_unix tripped files
stocked_booted = record {
  shared = record {
    table = daemon.table;
    max_statement_timeout_ms = daemon.max_statement_timeout_ms;
    breaker = some tt;
    auth_failures = 0;
  };
  uds = some "/tmp/fabricd.sock";
  uds_auth = Authenticator.accept_all;
  quic = none;
  metrics = none;
}

stocked_starts : (start stocked_unix tripped files 0).0 ≡ ok stocked_booted
unfolding start load_config start_configured start_listeners uds_path bind_uds build_quic
    build_quic_endpoint bind_metrics build
stocked_starts = refl

abbrev Stocked : Type 0
Stocked = Running toolkit unchanged six raw_payloads plain_jwt calm key_server

abbrev waiting : Stocked
waiting =
    let first =
      launched stocked_unix tripped files toolkit unchanged six raw_payloads plain_jwt calm
        key_server stocked_booted (start stocked_unix tripped files 0).1 in
    record first {
      streams =
          put_at first.streams 3
            (new_stream toolkit unchanged six raw_payloads plain_jwt calm key_server uds);
    }

abbrev attended : Stocked
attended =
    after_turn toolkit unchanged six raw_payloads plain_jwt calm key_server 3
      (new_stream toolkit unchanged six raw_payloads plain_jwt calm key_server uds)
      (turn_in toolkit unchanged six raw_payloads plain_jwt calm key_server waiting
        Authenticator.accept_all 0 true (some (request (init acme_init)))
        (new_stream toolkit unchanged six raw_payloads plain_jwt calm key_server uds))
      waiting

attended_run :
    Lives stocked_unix tripped files toolkit unchanged six raw_payloads plain_jwt calm key_server
      stocked_booted
      (start stocked_unix tripped files 0).1
      "https://issuer"
      none
      (silent ∷ silent ∷ [])
      attended
attended_run = next (uds_accepted refl 3 refl) (
    next
      (took_turn 3 (new_stream toolkit unchanged six raw_payloads plain_jwt calm key_server uds)
        refl 0 true (some (request (init acme_init))))
      here)

six-AllMetered : AllMetered six
six-AllMetered =
    drivers-AllMetered list_log row_codec unchanged tripped server sevens encoders no_params
      statements plain_bson shelf mongo_codecs open_relay read_payload one_value keys bunny hub
      no_text started jobs_payload provider list_log-IsLog

abbrev amq_configured : IsConfigured six.amq
amq_configured =
    drivers-IsConfigured list_log row_codec unchanged tripped server sevens encoders no_params
      statements plain_bson shelf mongo_codecs open_relay read_payload one_value keys bunny hub
      no_text started jobs_payload provider list_log-IsLog

start-IsOpened_example :
    (config : FabricdConfig) × ((load_config stocked_unix tripped files 0).0 ≡ ok config)
    × AreOpened toolkit unchanged six amq_configured raw_payloads plain_jwt calm key_server
        (quic_auth stocked_unix tripped files stocked_booted.quic)
        "https://issuer"
        none
        (launched stocked_unix tripped files toolkit unchanged six raw_payloads plain_jwt calm
          key_server stocked_booted
          (start stocked_unix tripped files 0).1)
        (shared_of stocked_unix tripped files config)
        attended
start-IsOpened_example =
    start-IsOpened stocked_unix tripped files toolkit unchanged six raw_payloads plain_jwt calm
      key_server amq_configured 0 stocked_booted "https://issuer" none (silent ∷ silent ∷ [])
      attended stocked_starts attended_run

-- The client's session is open: it has been sent its `Ack`.
is_served :
    OnSome
      (λ stream. written toolkit unchanged six raw_payloads plain_jwt calm stream.task ≡ ack ∷ [])
      (attended.streams 3)
unfolding turn authenticated_turn resolved_turn resolve pick authenticate
is_served = refl

-- Two more turns of the same client: a call, on a database whose breaker is open, and a `Drain`.
abbrev client : Stream toolkit unchanged six raw_payloads plain_jwt calm key_server
client = new_stream toolkit unchanged six raw_payloads plain_jwt calm key_server uds

abbrev take_turn :
    Option Frame
    → Stream toolkit unchanged six raw_payloads plain_jwt calm key_server
    → Stocked
    → Stocked
take_turn frame stream s =
    after_turn toolkit unchanged six raw_payloads plain_jwt calm key_server 3 stream
      (turn_in toolkit unchanged six raw_payloads plain_jwt calm key_server s
        Authenticator.accept_all 0 true frame stream)
      s

abbrev after_frame :
    Option Frame
    → Stream toolkit unchanged six raw_payloads plain_jwt calm key_server
    → Stocked
    → Stream toolkit unchanged six raw_payloads plain_jwt calm key_server
after_frame frame stream s = record stream {
  task =
      (turn_in toolkit unchanged six raw_payloads plain_jwt calm key_server s
        Authenticator.accept_all 0 true frame stream).task;
}

abbrev acked : Stream toolkit unchanged six raw_payloads plain_jwt calm key_server
acked = after_frame (some (request (init acme_init))) client waiting

abbrev asked : Stocked
asked = take_turn (some (request (call query))) acked attended

abbrev told : Stream toolkit unchanged six raw_payloads plain_jwt calm key_server
told = after_frame (some (request (call query))) acked attended

abbrev after_drain : Stocked
after_drain = take_turn (some (request drain)) told asked

abbrev unstreamed : Stocked
unstreamed =
    launched stocked_unix tripped files toolkit unchanged six raw_payloads plain_jwt calm key_server
      stocked_booted (start stocked_unix tripped files 0).1

whole_run :
    Steps toolkit unchanged six raw_payloads plain_jwt calm key_server Authenticator.accept_all
      "https://issuer" none unstreamed
      (silent ∷ silent ∷ silent ∷ silent ∷ [])
      after_drain
whole_run = next (uds_accepted refl 3 refl) (
    next (took_turn 3 client refl 0 true (some (request (init acme_init)))) (
      next (took_turn 3 acked refl 0 true (some (request (call query))))
        (next (took_turn 3 told refl 0 true (some (request drain))) here)))

Steps-IsStreamInOrder_example :
    IsStreamInOrder toolkit unchanged six raw_payloads plain_jwt calm key_server
      Authenticator.accept_all "https://issuer" none 3
      (request (init acme_init) ∷ request (call query) ∷ request drain ∷ [])
      (after_drain.streams 3)
unfolding turn authenticate resolve pick whole_run
Steps-IsStreamInOrder_example =
    Steps-IsStreamInOrder toolkit unchanged six raw_payloads plain_jwt calm key_server
      Authenticator.accept_all "https://issuer" none 3 whole_run refl

abandoned_producer-none :
    (called : Bool) (b : Option six.amq.Backend) → abandoned_producer six.amq called b none ≡ b
unfolding abandoned_producer
abandoned_producer-none true none = refl
abandoned_producer-none true (some b) = refl
abandoned_producer-none false b = refl

nothing_left :
    (name : String) (set : BackendSet toolkit unchanged six)
    → abandoned_set toolkit unchanged six name set no_remains ≡ set
unfolding abandoned_set
nothing_left name set =
    rw
      (
        abandoned_slot-none six.db (name == "db") set.db,
        abandoned_slot-none six.mongo (name == "mongo") set.mongo,
        abandoned_slot-none six.mail (name == "mail") set.mail,
        abandoned_slot-none six.redis (name == "redis") set.redis,
        abandoned_slot-none six.auth (name == "auth") set.auth,
        abandoned_producer-none (name == "amq") set.amq,
      )
      refl

calm-IsKept : IsKept toolkit unchanged six calm
calm-IsKept c set w =
    subst (λ left. Grows (metrics toolkit unchanged six set) (metrics toolkit unchanged six left))
      (sym (nothing_left c.name set)) (Grows-refl (metrics toolkit unchanged six set))

drivers-IsAccounted_example :
    Each
      (IsAccountedStream toolkit unchanged six six-AllMetered raw_payloads plain_jwt calm
        calm-IsKept key_server Authenticator.accept_all "https://issuer" none)
      after_drain.streams
drivers-IsAccounted_example =
    drivers-IsAccounted list_log row_codec unchanged tripped server sevens encoders no_params
      statements plain_bson shelf mongo_codecs open_relay read_payload one_value keys bunny hub
      no_text started jobs_payload provider list_log-IsLog toolkit unchanged raw_payloads plain_jwt
      calm calm-IsKept key_server Authenticator.accept_all "https://issuer" none unstreamed
      after_drain (silent ∷ silent ∷ silent ∷ silent ∷ []) (λ i. refl) whole_run
