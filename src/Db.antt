-- ===== src/Db.antt =====
-- crates/fabric-backends/src/db.rs: connecting to a database through the circuit breaker, and the
-- deadline on what runs on it.
pub mod Faults
pub mod Rows
pub mod Params
pub mod Calls
pub mod Metrics
pub mod Owners
pub mod Laws
use fabricd.Base.{
  ℕ, ◌+◌, ◌-◌, String, Bool, true, false, Option, none, some, if◌then◌else◌, leb, [], ◌∷◌, format,
  show, Result, ok, err, Eff, map_err, map_ok, mapping, raise, pure, lift, ◌>>=◌, ◌>>◌,
}
use fabricd.Wire.{EgressError, DbMetric, Collectors, Breakers}
use fabricd.Resources.Configs.{DbConfig}
use fabricd.BackendSet.Drivers.{AsyncDeps}
use fabricd.Db.Faults.{db_connection, db_circuit_open, DbError, db_timeout_error, from_postgres}

-- `tokio_postgres` over the world `W`, which holds the servers and the clock. `connect` dials with or
-- without TLS and starts the task that serves the connection. `within` is `tokio::time::timeout`: the
-- outcome of an operation that ended in the given milliseconds, and nothing for one that did not.
pub record Postgres (W : Type 0) : Type 1 where
  pub Client : Type 0
  pub Error : Type 0
  pub error_text : Error → String
  pub sqlstate : Error → Option String
  pub connect :
      (host : String) (port : ℕ) (user password dbname : String) (tls : Bool) → Eff W Error Client
  pub batch_execute : Client → String → Eff W Error (Unit {0})
  pub now_ms : W → ℕ
  pub within : {A : Type 0} → ℕ → Eff W Error A → W → Option (Result Error A) × W

-- The boxed error of connecting: the marker of an open breaker, or the driver's error.
pub data ConnectError (E : Type 0) : Type 0 where
  circuit_open : ConnectError E
  driver : E → ConnectError E

module _ {W : Type 0} (pg : Postgres W) (breakers : Breakers W) (log : Collectors) where
  unfoldable pub set_timeout : ℕ → String
  set_timeout ms = format ("SET statement_timeout = '" ∷ show ms ∷ "'" ∷ [])

  unfoldable pub connect_db : DbConfig → Eff W pg.Error pg.Client
  unfolding set_timeout
  connect_db config = do
    client ←
        pg.connect config.host config.port config.user config.password config.database config.ssl
    _ ← pg.batch_execute client (set_timeout config.statement_timeout_ms)
    pure client

  abbrev pub target_of : DbConfig → String
  target_of config = format (config.host ∷ ":" ∷ show config.port ∷ [])

  abbrev pub is_ok : {E A : Type 0} → Result E A → Bool
  is_ok (ok a) = true
  is_ok (err e) = false

  abbrev record_outcome :
      breakers.Breaker
      → String
      → Result (ConnectError pg.Error) pg.Client × W
      → Result (ConnectError pg.Error) pg.Client × W
  record_outcome guard target (result, w) = (result, breakers.report guard target (is_ok result) w)

  through_guard :
      breakers.Breaker → DbConfig → Bool × W → Result (ConnectError pg.Error) pg.Client × W
  through_guard guard config (false, w) = (err circuit_open, w)
  through_guard guard config (true, w) =
      record_outcome guard (target_of config) (mapping driver (connect_db config) w)

  unfoldable pub connect_through_breaker :
      DbConfig → Option breakers.Breaker → Eff W (ConnectError pg.Error) pg.Client
  unfolding through_guard connect_db
  connect_through_breaker config none w = mapping driver (connect_db config) w
  connect_through_breaker config (some guard) w =
      through_guard guard config (breakers.allow guard (target_of config) w)

  pub record DbBackend : Type 0 where
    pub client : pg.Client
    pub deadline_ms : ℕ
    pub max_rows : ℕ
    pub metrics : log.Collector DbMetric

  -- `DbBackend::connect`; the clock does not overflow.
  unfoldable pub connect_backend :
      DbConfig → AsyncDeps breakers.Breaker → Eff W (ConnectError pg.Error) DbBackend
  unfolding connect_through_breaker
  connect_backend config deps = do
    client ← connect_through_breaker config deps.breaker
    λ w. (
      ok (record {
        client = client;
        deadline_ms = pg.now_ms w + deps.timeout_ms;
        max_rows = config.max_rows;
        metrics = log.new DbMetric;
      }),
      w,
    )

  -- `connect_error_to_resource`, with `is_circuit_open` as its match.
  unfoldable pub connect_error_to_resource : ConnectError pg.Error → EgressError
  connect_error_to_resource circuit_open = record {
    code = db_circuit_open.code;
    message = "db circuit breaker open";
    source = "db";
    details = none;
    retryable = db_circuit_open.retryable;
    owner = db_circuit_open.owner;
  }
  connect_error_to_resource (driver e) = record {
    code = db_connection.code;
    message = pg.error_text e;
    source = "db";
    details = none;
    retryable = db_connection.retryable;
    owner = db_connection.owner;
  }

  unfoldable pub connect_db_resource :
      DbConfig → AsyncDeps breakers.Breaker → Eff W EgressError DbBackend
  unfolding connect_backend connect_error_to_resource
  connect_db_resource config deps = mapping connect_error_to_resource (connect_backend config deps)

  abbrev pub finished : {A : Type 0} → Option (Result pg.Error A) × W → Result DbError A × W
  finished (none, w) = (err db_timeout_error, w)
  finished (some (ok value), w) = (ok value, w)
  finished (some (err e), w) = (err (from_postgres (pg.sqlstate e) (pg.error_text e)), w)

  -- `block_on_db`: an operation under what is left of the deadline.
  unfoldable pub block_on_db : {A : Type 0} → DbBackend → Eff W pg.Error A → Eff W DbError A
  unfolding from_postgres
  block_on_db b operation w = finished (pg.within (b.deadline_ms - pg.now_ms w) operation w)

  -- `do_simple`
  unfoldable pub do_simple : DbBackend → String → Eff W DbError String
  unfolding block_on_db
  do_simple b cmd = block_on_db b (pg.batch_execute b.client cmd) >>= λ done. pure "{\"ok\":true}"
