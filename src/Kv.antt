-- ===== src/Kv.antt =====
-- crates/fabric-backends/src/kv.rs: the `redis` capability, one call at a time on one connection.
pub mod Driver
pub mod Failures
pub mod Laws
pub mod Get
use Prim.Native.String.{len}
use fabricd.Base.{
  Mutex, ℕ, String, Bool, true, false, Option, none, some, ◌==◌, not, if◌then◌else◌, List, [], ◌∷◌,
  format, Result, ok, err, Eff, map_err, mapping, raise, pure, lift, ◌>>=◌, ◌>>◌,
}
use fabricd.Json.{Value, null, bool, number, string, int, ℤ, pos, members, get, as_str, Codec}
use fabricd.Wire.{Fault, EgressError, RedisMetric, Collectors}
use fabricd.Resources.Configs.{RedisConfig}
use fabricd.Capability.{Capability}
use fabricd.Kv.Driver.{
  RedisError, fallback, redis_fallback, redis_connection, into_resource_error, Decoders, Redis,
  BoxError, driver, from_driver, is_connect_error, box_text, parse,
}

module _ {W : Type 0} (redis : Redis W) (codec : Codec) (decode : Decoders) (log : Collectors) where
  pub record RedisBackend : Type 0 where
    pub conn : Mutex redis.Connection
    pub metrics : log.Collector RedisMetric

  -- `connect`: every `?` boxes an error of the driver.
  unfoldable pub connect : RedisConfig → Eff W (BoxError redis.Error) redis.Connection
  connect config = do
    client ← lift (map_err driver (redis.client_open config.url))
    conn ← mapping driver (redis.get_connection client)
    _ ← mapping driver (redis.set_read_timeout conn config.timeout_ms)
    _ ← mapping driver (redis.set_write_timeout conn config.timeout_ms)
    pure conn

  unfoldable pub connect_error : BoxError redis.Error → EgressError
  unfolding is_connect_error
  connect_error e =
      let fault = if is_connect_error redis e then redis_connection else redis_fallback in
      record {
        code = fault.code;
        message = box_text redis e;
        source = "redis";
        details = none;
        retryable = fault.retryable;
        owner = fault.owner;
      }

  unfoldable pub connect_resource : RedisConfig → Eff W EgressError RedisBackend
  unfolding connect connect_error
  connect_resource config = do
    conn ← mapping connect_error (connect config)
    pure
        (record { conn = record { value = conn; poisoned = false }; metrics = log.new RedisMetric })

  unfoldable pub lock_conn : Mutex redis.Connection → Result RedisError redis.Connection
  lock_conn conn =
      if conn.poisoned
      then err (fallback "lock error: poisoned lock: another task failed inside")
      else ok conn.value

  unfoldable pub encode : Value → Result RedisError String
  encode value =
      map_err (λ e. fallback (format ("serialize error: " ∷ codec.error_text e ∷ [])))
        (codec.to_string value)

  abbrev pub nullable : Option String → Value
  nullable none = null
  nullable (some text) = string text

  unfoldable pub do_get : Mutex redis.Connection → String → Eff W RedisError String
  unfolding lock_conn encode from_driver
  do_get conn payload_json = do
    payload ← lift (parse decode.key payload_json)
    guard ← lift (lock_conn conn)
    value ← mapping (from_driver redis) (redis.get guard payload.key)
    lift (encode (Value.object (members (("value", nullable value) ∷ []))))

  abbrev store : redis.Connection → String → String → Option ℕ → Eff W redis.Error (Unit {0})
  store guard key value none = redis.set guard key value
  store guard key value (some ttl) = redis.set_ex guard key value ttl

  unfoldable pub do_set : Mutex redis.Connection → String → Eff W RedisError String
  unfolding lock_conn encode from_driver
  do_set conn payload_json = do
    payload ← lift (parse decode.set payload_json)
    guard ← lift (lock_conn conn)
    _ ← mapping (from_driver redis) (store guard payload.key payload.value payload.ttl)
    lift (encode (Value.object (members (("ok", bool true) ∷ []))))

  unfoldable pub do_delete : Mutex redis.Connection → String → Eff W RedisError String
  unfolding lock_conn encode from_driver
  do_delete conn payload_json = do
    payload ← lift (parse decode.key payload_json)
    guard ← lift (lock_conn conn)
    count ← mapping (from_driver redis) (redis.del guard payload.key)
    lift (encode (Value.object (members (("count", number (int count)) ∷ []))))

  unfoldable pub do_increment : Mutex redis.Connection → String → Eff W RedisError String
  unfolding lock_conn encode from_driver
  do_increment conn payload_json = do
    payload ← lift (parse decode.key payload_json)
    guard ← lift (lock_conn conn)
    value ← mapping (from_driver redis) (redis.incr guard payload.key (pos 1))
    lift (encode (Value.object (members (("value", number (int value)) ∷ []))))

  unfoldable pub do_expire : Mutex redis.Connection → String → Eff W RedisError String
  unfolding lock_conn encode from_driver
  do_expire conn payload_json = do
    payload ← lift (parse decode.expire payload_json)
    guard ← lift (lock_conn conn)
    set ← mapping (from_driver redis) (redis.expire guard payload.key payload.seconds)
    lift (encode (Value.object (members (("set", bool set) ∷ []))))

  unfoldable pub dispatch_redis : Mutex redis.Connection → String → String → Eff W RedisError String
  dispatch_redis conn action payload_json =
      if action == "get"
      then do_get conn payload_json
      else if action == "set"
      then do_set conn payload_json
      else if action == "delete"
      then do_delete conn payload_json
      else if action == "increment"
      then do_increment conn payload_json
      else if action == "expire"
      then do_expire conn payload_json
      else raise (fallback (format ("unknown redis action: " ∷ action ∷ [])))

  abbrev text_stats : Option String → ℕ × Bool
  text_stats none = (0, false)
  text_stats (some text) = (len text, true)

  abbrev text_of : Option Value → Option String
  text_of none = none
  text_of (some v) = as_str v

  abbrev or_null : {E : Type 0} → Result E Value → Value
  or_null (ok v) = v
  or_null (err e) = null

  unfoldable pub value_stats : String → String → ℕ × Bool
  value_stats action json =
      if not (action == "get")
      then (0, false)
      else text_stats (text_of (get (or_null (codec.from_str json)) "value"))

  abbrev stats_of : String → Result RedisError String → ℕ × Bool
  stats_of action (ok json) = value_stats action json
  stats_of action (err e) = (0, false)

  -- `build_metric`, with the elapsed time as an argument.
  unfoldable pub build_redis_metric : String → Result RedisError String → ℕ → RedisMetric
  unfolding value_stats
  build_redis_metric action result elapsed =
      let (bytes, hit) = stats_of action result in
      record { action = action; duration_us = elapsed; bytes = bytes; hit = hit }

  abbrev recorded :
      W
      → String
      → RedisBackend
      → Result RedisError String × W
      → Result RedisError String × RedisBackend × W
  recorded start action b (result, w) =
      let metric = build_redis_metric action result (redis.elapsed_us start w) in
      (result, record b { metrics = log.push RedisMetric b.metrics metric }, w)

  -- `RedisBackend::call`
  unfoldable pub call_redis_backend :
      String → String → RedisBackend → W → Result RedisError String × RedisBackend × W
  unfolding build_redis_metric dispatch_redis
  call_redis_backend action payload_json b w =
      recorded w action b (dispatch_redis b.conn action payload_json w)

  abbrev outward :
      Result RedisError String × RedisBackend × W → Result EgressError String × RedisBackend × W
  outward (r, b, w) = (map_err into_resource_error r, b, w)

  -- `RedisSlot` over this backend (backendset.rs): the driver that `BackendSet` is wired with.
  abbrev pub redis_capability : Capability W RedisConfig String RedisMetric
  redis_capability = record {
    Backend = RedisBackend;
    connect = connect_resource;
    call = λ action payload b w. outward (call_redis_backend action payload b w);
    drain_metrics = λ b. log.drain RedisMetric b.metrics;
  }
