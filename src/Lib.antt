-- ===== src/Lib.antt =====
-- fabricd: the daemon that holds a tenant's credentials and runs its database, cache, mail, queue
-- and identity calls for it (crates/fabricd, crates/fabric-backends).
--
-- A client opens a session over a stream with `Init`: a token, a tenant, and one logical name for
-- each kind of resource that it wants. The daemon authenticates the token (auth.rs, sa_token.rs),
-- resolves the names against the operator's table (resources.rs), wires a set of lazy backends
-- (backendset.rs), answers `Ack`, and then answers each `Call` and `Drain` until the stream ends
-- (main.rs, `serve`).
--
-- Files, and the code that they model:
--   Base      shared helpers: tests, texts, results, lists, maps
--   Json      serde_json's values and the codec's interface
--   Wire      the messages of the crate runlet_wire, and its operations as interfaces
--   Resources crates/fabric-backends/src/resources.rs: `resolve`, `pick`, the clamp; the config
--             structs of db.rs, mongo.rs, mail.rs, kv.rs, amq.rs and auth.rs beside it
--   SaToken   crates/fabric-backends/src/sa_token.rs: `JwksVerifier::verify` and `spawn`,
--             `refresh_loop`, `fetch_keys`, `build_key_map`
--   ClientAuth crates/fabricd/src/auth.rs: `build`, and `authenticate` of the three authenticators
--   Capability the interface of a driver, and the connect-once slots of backendset.rs
--   BackendSet crates/fabric-backends/src/backendset.rs: `from_configs`, `call`, `metrics`, and the
--             unpacking of payloads
--   Kv        crates/fabric-backends/src/kv.rs, the driver of `redis`
--   Mail      crates/fabric-backends/src/mail.rs, the driver of `mail`
--   Amq       crates/fabric-backends/src/amq.rs, the driver of `amq`
--   Db        crates/fabric-backends/src/db.rs: connecting through the breaker, the deadline,
--             queries with their parameters and rows, the dispatch and the metrics
--   Mongo     crates/fabric-backends/src/mongo.rs, the driver of `mongo`
--   Oidc      crates/fabric-backends/src/auth.rs, the driver of `auth`
--   Session   crates/fabricd/src/main.rs: `serve`, as a whole and one frame at a time, `dispatch`,
--             `Shared::record_auth_failure`
--   Scrape    crates/fabricd/src/main.rs: `is_metrics_request`, `render_metrics` and
--             `serve_metrics_once`
--   Daemon    crates/fabricd/src/main.rs: `main`, `load_config`, `build_quic_endpoint`,
--             `run_listeners`, the accept loops and `shutdown_signal`; the six drivers together in
--             one session's set
--   Tests     runs on concrete inputs
--
-- State. An operation on the outside world takes a world and gives the next one; the type of worlds
-- is a parameter, and so is all code outside the repository: the protocol crate's error builder and
-- constant-time comparison (Toolkit, with laws), its metrics log (Collectors, with laws), the JWT
-- and HTTP libraries, the redis, lettre, amqprs, async_nats, tokio_postgres, mongodb and bson crates,
-- the circuit breaker, the decoders that serde derives, and of the operating system the files, the
-- environment and the sockets (System). Incoming frames are a list, which ends where the stream
-- ends. A session's process says which frame the peer still takes, which call panics and what that
-- leaves. A map is
-- the function of its lookups. A call whose backend is behind a Mutex, or which shares the memo of
-- OIDC's endpoints, carries that value beside the world, with the poisoned lock as a value of it.
--
-- The running daemon is a step relation (Daemon/Run): a step is a stream that a client opens on the
-- socket or on an open QUIC connection, one turn of a session (Session/Turns: it reads one frame,
-- answers it and writes the answer), a connection that begins or ends, a round of the refresh, a loop
-- that ends, the shutdown signal, or whatever other processes do to the world. So the sessions
-- interleave frame by frame, at the counter, the key cache and the world of each moment.
--
-- Bounds and fuel. Numbers are naturals; the failure counter wraps at 2^64; the recipient count and
-- the bytes of a batch saturate at 2^64 - 1, the largest usize of a 64-bit target. The database's
-- deadline is a sum of naturals, which does not overflow. `drain_loop`
-- recurses on the document limit, one document each. `show` prints up to 39 digits,
-- which all integers of 128 bits have at most. `refresh_loop` takes the number of rounds, since the
-- source's loop never ends; what is said of it holds for every number. All other recursion is over
-- the data.
--
-- Not modelled: the bytes on sockets and their framing (crate runlet_wire), TLS, how tokio schedules
-- tasks inside one turn, so that a call of a driver is one step, and logging. Whether a
-- UDS peer or a QUIC handshake is there is a choice of the step. Which call panics, and what it leaves
-- inside the one backend that it called and of the world, is the choice of the session's process: a
-- slot that was empty is connected or not, one that was connected stays so, its backend and its
-- records being any.
pub mod Base
pub mod Json
pub mod Wire
pub mod Resources
pub mod SaToken
pub mod ClientAuth
pub mod Capability
pub mod BackendSet
pub mod Kv
pub mod Mail
pub mod Mongo
pub mod Oidc
pub mod Amq
pub mod Db
pub mod Session
pub mod Scrape
pub mod Daemon
pub mod Tests
