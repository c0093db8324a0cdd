-- ===== src/Tests/Queues.antt =====
-- amq.rs over brokers that take every message, and db.rs over a server that takes every command.
use fabricd.Base.{show, ℕ, suc, String, ◌≡◌, refl, true, false, none, some, [], ◌∷◌, ok, err, Eff}
use fabricd.Json.{Value}
use fabricd.Wire.{EgressError, Breakers}
use fabricd.Resources.Configs.{AmqConfig, AmqBackend}
use fabricd.Amq.Clients.{BatchPayload, AmqOutcome, Rabbit, Nats}
use fabricd.Amq.Batch.{publish_batch}
use fabricd.Amq.{AmqProducer, do_send_batch, call_producer_amq, new_producer}
use fabricd.Amq
use fabricd.Amq.Laws.{IsSent, do_send_batch-IsSent}
use fabricd.Db.{Postgres, connect_db, connect_db_resource}
use fabricd.Db.Laws.{connect_of_Refused}
use fabricd.Tests.Fixtures.{list_log, unchanged, orders_db}
use fabricd.Tests.Drivers.{value_codec}

abbrev pub bunny : Rabbit ℕ
bunny = record {
  Connection = Unit;
  Channel = Unit;
  TlsAdaptor = Unit;
  without_client_auth = λ ca host. ok tt;
  connect = λ host port user password vhost tls w. (ok tt, suc w);
  open_channel = λ connection w. (ok tt, w);
  basic_publish = λ channel exchange key content w. (ok tt, suc w);
  close_channel = λ channel w. (ok tt, w);
  close = λ connection w. (err "reset by peer", w);
}

abbrev pub hub : Nats ℕ
hub = record {
  Client = Unit;
  connect_with_options = λ address options w. (ok tt, suc w);
  publish = λ client subject content w. (ok tt, suc w);
  flush = λ client w. (ok tt, w);
  request = λ client subject payload w. (ok "pong", suc w);
}

abbrev pub started : Eff ℕ String (Unit {0})
started w = (ok tt, w)

abbrev pub no_text : Value → String
no_text v = "{}"

abbrev pub no_time : ℕ → ℕ → ℕ
no_time start stop = 0

abbrev two_jobs : BatchPayload
two_jobs = record {
  messages =
      record { key = "jobs"; payload = "{\"id\":1}" }
      ∷ record { key = "jobs"; payload = "null" }
      ∷ [];
}

abbrev pub jobs_payload : Amq.Decoders
jobs_payload = record { batch = λ text. ok two_jobs; request = λ text. err "missing field" }

abbrev jobs : AmqConfig
jobs = record {
  backend = AmqBackend.rabbitmq;
  host = "mq";
  port = none;
  username = none;
  password = none;
  token = none;
  vhost = "/";
  exchange = "";
  max_batch = 2;
  request_timeout_ms = 5000;
  tls = false;
  ca_cert = none;
}

abbrev jobs_sent : AmqOutcome
jobs_sent = record { json = "{\"published\":2}"; messages = 2; bytes = 12 }

jobs_send :
    (do_send_batch bunny hub unchanged value_codec no_text started no_time jobs_payload list_log
      jobs "[]" 0).0
    ≡ ok jobs_sent
unfolding do_send_batch publish_batch show
jobs_send = refl

do_send_batch-IsSent_example :
    IsSent bunny hub unchanged value_codec no_text started no_time jobs_payload list_log jobs
      two_jobs jobs_sent
do_send_batch-IsSent_example =
    do_send_batch-IsSent bunny hub unchanged value_codec no_text started no_time jobs_payload
      list_log jobs "[]" two_jobs 0 jobs_sent refl jobs_send

abbrev single : AmqConfig
single = record jobs { max_batch = 1 }

abbrev fresh :
    AmqProducer bunny hub unchanged value_codec no_text started no_time jobs_payload list_log
fresh = record { config = jobs; metrics = [] }

abbrev pub server : Postgres ℕ
server = record {
  Client = Unit;
  Error = String;
  error_text = λ e. e;
  sqlstate = λ e. none;
  connect = λ host port user password dbname tls w. (ok tt, suc w);
  batch_execute = λ client sql w. (ok tt, suc w);
  now_ms = λ w. w;
  within = λ ms operation w. let (r, w') = operation w in (some r, w');
}

-- A breaker that is open for every target.
abbrev pub tripped : Breakers ℕ
tripped = record {
  Breaker = Unit;
  new = λ threshold cooldown. some tt;
  allow = λ b target w. (false, w);
  report = λ b target up w. suc w;
  trips = λ b w. 1;
}

connect_of_Refused_example :
    (e : EgressError) × (connect_db_resource server tripped list_log orders_db
        (record { breaker = some tt; timeout_ms = 1000 })
        5
      ≡ (err e, 5))
    × (e.code ≡ "DB_CIRCUIT_OPEN")
    × (e.retryable ≡ true)
connect_of_Refused_example = connect_of_Refused server tripped list_log orders_db tt 1000 5 refl

dials : (connect_db server tripped list_log orders_db 0).0 ≡ ok tt
unfolding connect_db
dials = refl
