-- ===== src/Kv/Driver.antt =====
-- crates/fabric-backends/src/kv.rs: the errors of the `redis` capability and its payloads. The
-- `redis` crate and the decoders that serde derives are parameters.
use fabricd.Base.{
  ℕ, String, Bool, true, false, Option, none, if◌then◌else◌, Result, Eff, map_err, format, [], ◌∷◌,
}
use fabricd.Json.{ℤ}
use fabricd.Wire.{operator, Fault, EgressError}

abbrev pub fault_of : String → Fault
fault_of code = record { code = code; retryable = true; owner = operator }

abbrev pub redis_fallback : Fault
redis_fallback = fault_of "REDIS_ERROR"

abbrev pub redis_timeout : Fault
redis_timeout = fault_of "REDIS_TIMEOUT"

abbrev pub redis_connection : Fault
redis_connection = fault_of "REDIS_CONNECTION"

pub record RedisError : Type 0 where
  pub fault : Fault
  pub message : String

abbrev pub fallback : String → RedisError
fallback message = record { fault = redis_fallback; message = message }

unfoldable pub into_resource_error : RedisError → EgressError
into_resource_error e = record {
  code = e.fault.code;
  message = e.message;
  source = "redis";
  details = none;
  retryable = e.fault.retryable;
  owner = e.fault.owner;
}

pub record KeyPayload : Type 0 where
  pub key : String

pub record SetPayload : Type 0 where
  pub key : String
  pub value : String
  pub ttl : Option ℕ

pub record ExpirePayload : Type 0 where
  pub key : String
  pub seconds : ℤ

pub record Decoders : Type 0 where
  pub key : String → Result String KeyPayload
  pub set : String → Result String SetPayload
  pub expire : String → Result String ExpirePayload

-- The `redis` crate over the world `W`, which holds the server and the monotonic clock:
-- `elapsed_us` is the time between two worlds.
pub record Redis (W : Type 0) : Type 1 where
  pub Client : Type 0
  pub Connection : Type 0
  pub Error : Type 0
  pub error_text : Error → String
  pub is_timeout : Error → Bool
  pub is_io_error : Error → Bool
  pub client_open : String → Result Error Client
  pub get_connection : Client → Eff W Error Connection
  pub set_read_timeout : Connection → ℕ → Eff W Error (Unit {0})
  pub set_write_timeout : Connection → ℕ → Eff W Error (Unit {0})
  pub get : Connection → String → Eff W Error (Option String)
  pub set : Connection → String → String → Eff W Error (Unit {0})
  pub set_ex : Connection → String → String → ℕ → Eff W Error (Unit {0})
  pub del : Connection → String → Eff W Error ℤ
  pub incr : Connection → String → ℤ → Eff W Error ℤ
  pub expire : Connection → String → ℤ → Eff W Error Bool
  pub elapsed_us : W → W → ℕ

-- `Box<dyn Error + Send + Sync>`: a driver error, or an error of any other type.
pub data BoxError (E : Type 0) : Type 0 where
  driver : E → BoxError E
  other : String → BoxError E

module _ {W : Type 0} (redis : Redis W) where
  unfoldable pub classify : redis.Error → Fault
  classify e =
      if redis.is_timeout e
      then redis_timeout
      else if redis.is_io_error e
      then redis_connection
      else redis_fallback

  unfoldable pub from_driver : redis.Error → RedisError
  unfolding classify
  from_driver e = record { fault = classify e; message = redis.error_text e }

  unfoldable pub is_connect_error : BoxError redis.Error → Bool
  is_connect_error (driver e) = true
  is_connect_error (other message) = false

  abbrev pub box_text : BoxError redis.Error → String
  box_text (driver e) = redis.error_text e
  box_text (other message) = message

-- `parse`, at each payload type.
abbrev pub parse : {P : Type 0} → (String → Result String P) → String → Result RedisError P
parse decode payload_json =
    map_err (λ e. fallback (format ("invalid redis payload: " ∷ e ∷ []))) (decode payload_json)
